-- ===== src/Network/GrpcCodec.antt =====
-- polaris/network/grpc/codec.{h,cpp}: the frames of gRPC messages and GrpcDecoder. A byte is a
-- number, a Buffer is the list of its bytes, and what protobuf makes of a message is a list of bytes
-- too. The bits that `|=` sets in a length are free, so it is an addition.
pub mod Bytes
pub mod Slices
pub mod RoundTrip
pub mod Vector
pub mod Owned
use polaris_cpp.Base.{
  ℕ, zero, suc, ◌+◌, ◌-◌, ◌*◌, ◌/◌, ◌%◌, ◌^◌, Bool, true, false, Option, none, some, List, [], ◌∷◌,
  ◌++◌, length, take, drop, ltb, leb, ◌==◌, if◌then◌else◌,
}

-- SerializeToGrpcFrame: the flag of a message that is not compressed, the size in network order,
-- and the serialized message.
unfoldable pub serialize_to_grpc_frame : List ℕ → List ℕ
serialize_to_grpc_frame bytes =
    let size : ℕ = length bytes % 2 ^ 32 in
    0 ∷ size / 2 ^ 24 ∷ size / 2 ^ 16 % 2 ^ 8 ∷ size / 2 ^ 8 % 2 ^ 8 ∷ size % 2 ^ 8 ∷ bytes

-- The fields. `data_` is the Buffer's bytes, `none` for the null pointer; that the message owns the
-- Buffer and copies share it is in Vector.
pub record LengthPrefixedMessage : Type 0 where
  pub flags : ℕ
  pub length_ : ℕ
  pub data_ : Option (List ℕ)

pub data State : Type 0 where
  fh_flag fh_len_0 fh_len_1 fh_len_2 fh_len_3 in_data : State

pub record GrpcDecoder : Type 0 where
  pub state : State
  pub decoding_msg : LengthPrefixedMessage

-- ResetDecodingMsg with the state that goes with it, which is also the constructor's.
abbrev pub fresh : GrpcDecoder
fresh = record { state = fh_flag; decoding_msg = record { flags = 0; length_ = 0; data_ = none } }

-- One pass through the switch: whether it goes on, the bytes left, and the messages completed.
pub record Round : Type 0 where
  pub ok : Bool
  pub left : List ℕ
  pub decoder : GrpcDecoder
  pub pushed : List LengthPrefixedMessage

abbrev pub moved : List ℕ → State → LengthPrefixedMessage → Round
moved left state msg = record {
  ok = true;
  left = left;
  decoder = record { state = state; decoding_msg = msg };
  pushed = [];
}

abbrev pub completed : List ℕ → LengthPrefixedMessage → Round
completed left msg = record { ok = true; left = left; decoder = fresh; pushed = msg ∷ [] }

abbrev pub bytes_of : LengthPrefixedMessage → List ℕ
bytes_of msg = elim msg.data_ [ none ↦ [] | some d ↦ d ]

-- The switch, at byte `c` with `rest` behind it in the slice.
unfoldable pub round : State → LengthPrefixedMessage → ℕ → List ℕ → Round
round fh_flag msg c rest =
    if ltb 1 c
    then record {
      ok = false;
      left = c ∷ rest;
      decoder = record { state = fh_flag; decoding_msg = msg };
      pushed = [];
    }
    else moved rest fh_len_0 (record msg { flags = c })
round fh_len_0 msg c rest = moved rest fh_len_1 (record msg { length_ = c * 2 ^ 24 })
round fh_len_1 msg c rest = moved rest fh_len_2 (record msg { length_ = msg.length_ + c * 2 ^ 16 })
round fh_len_2 msg c rest = moved rest fh_len_3 (record msg { length_ = msg.length_ + c * 2 ^ 8 })
round fh_len_3 msg c rest =
    let msg' : LengthPrefixedMessage = record msg { length_ = msg.length_ + c } in
    if msg'.length_ == 0
    then completed rest msg'
    else moved rest in_data (record msg' { data_ = some [] })
round in_data msg c rest =
    let remain_in_buffer : ℕ = suc (length rest) in
    let remain_in_frame : ℕ = msg.length_ - length (bytes_of msg) in
    let n : ℕ =
      if leb remain_in_buffer remain_in_frame then remain_in_buffer else remain_in_frame in
    let msg' : LengthPrefixedMessage = record msg {
      data_ = some (bytes_of msg ++ take n (c ∷ rest));
    } in
    if msg'.length_ == length (bytes_of msg')
    then completed (drop n (c ∷ rest)) msg'
    else moved (drop n (c ∷ rest)) in_data msg'

-- `output` is what has been pushed, in its order; Vector has what the vector then holds.
pub record Decoded : Type 0 where
  pub ok : Bool
  pub decoder : GrpcDecoder
  pub output : List LengthPrefixedMessage

-- The loop over one slice. Each round takes a byte at least, so the slice's length is fuel enough.
unfoldable pub decode_slice : ℕ → GrpcDecoder → List ℕ → List LengthPrefixedMessage → Decoded
unfolding round
decode_slice zero d bytes output = record { ok = true; decoder = d; output = output }
decode_slice (suc fuel) d [] output = record { ok = true; decoder = d; output = output }
decode_slice (suc fuel) d (c ∷ rest) output =
    let r = round d.state d.decoding_msg c rest in
    let next = decode_slice fuel r.decoder r.left (output ++ r.pushed) in
    if r.ok then next else record { ok = false; decoder = r.decoder; output = output }

-- Decode: the loop over the slices of the input.
unfoldable pub decode : GrpcDecoder → List (List ℕ) → List LengthPrefixedMessage → Decoded
unfolding decode_slice
decode d [] output = record { ok = true; decoder = d; output = output }
decode d (slice ∷ slices) output =
    let r = decode_slice (length slice) d slice output in
    let next = decode r.decoder slices r.output in if r.ok then next else r
