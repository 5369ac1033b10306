-- ===== src/Network.antt =====
-- polaris/network: what the SDK puts on the wire.
pub mod GrpcCodec
mod Tests
