-- ===== src/Network/Tests.antt =====
-- The frames of two messages, decoded from two slices that cut a length and the data.
use polaris_cpp.Base.{
  Bool, some, get_elem?, ◌==◌, ◌||◌, ℕ, ◌≡◌, refl, true, false, none, List, [], ◌∷◌, arith, map,
}
use polaris_cpp.Network.GrpcCodec.{
  fh_len_1, GrpcDecoder, fresh, round, decode_slice, decode, serialize_to_grpc_frame,
}
use polaris_cpp.Network.GrpcCodec.Slices.{join, decode_slicing}
use polaris_cpp.Network.GrpcCodec.Vector.{push_back, push_all}
use polaris_cpp.Network.GrpcCodec.RoundTrip.{received, decode_round_trip}

abbrev messages : List (List ℕ)
messages = (7 ∷ 8 ∷ 9 ∷ []) ∷ [] ∷ (5 ∷ []) ∷ []

abbrev slices : List (List ℕ)
slices =
    (0 ∷ 0 ∷ 0 ∷ [])
    ∷ (0 ∷ 3 ∷ 7 ∷ 8 ∷ [])
    ∷ []
    ∷ (9 ∷ 0 ∷ 0 ∷ 0 ∷ 0 ∷ 0 ∷ 0 ∷ 0 ∷ 0 ∷ 0 ∷ 1 ∷ 5 ∷ [])
    ∷ []

joined : join slices ≡ join (map serialize_to_grpc_frame messages)
unfolding serialize_to_grpc_frame
joined = refl

-- A vector that doubles its room: it is full at 1 and at 2 entries.
abbrev doubles : ℕ → Bool
doubles n = n == 1 || n == 2

decode_round_trip_example :
    (decode fresh slices [] ≡ record { ok = true; decoder = fresh; output = map received messages })
    × (get_elem? (push_all doubles [] (map received messages)) 0
        ≡ some (record { message = received (7 ∷ 8 ∷ 9 ∷ []); freed = true }))
decode_round_trip_example =
    decode_round_trip messages slices doubles 0 (7 ∷ 8 ∷ 9 ∷ [])
      (omega arith, (omega arith, (omega arith, tt))) joined refl

-- The last message is there.
last_kept :
    get_elem? (push_all doubles [] (map received messages)) 2
    ≡ some (record { message = received (5 ∷ []); freed = false })
unfolding push_all push_back
last_kept = refl

abbrev midway : GrpcDecoder
midway = record { state = fh_len_1; decoding_msg = record { flags = 1; length_ = 0; data_ = none } }

decode_slicing_example :
    decode midway ((0 ∷ 0 ∷ 2 ∷ []) ∷ (4 ∷ []) ∷ (6 ∷ 2 ∷ []) ∷ []) []
    ≡ decode midway ((0 ∷ []) ∷ (0 ∷ 2 ∷ 4 ∷ 6 ∷ 2 ∷ []) ∷ []) []
decode_slicing_example =
    decode_slicing midway ((0 ∷ 0 ∷ 2 ∷ []) ∷ (4 ∷ []) ∷ (6 ∷ 2 ∷ []) ∷ [])
      ((0 ∷ []) ∷ (0 ∷ 2 ∷ 4 ∷ 6 ∷ 2 ∷ []) ∷ []) [] tt refl

decoded : (decode midway ((0 ∷ 0 ∷ 2 ∷ []) ∷ (4 ∷ []) ∷ (6 ∷ 2 ∷ []) ∷ []) []).ok ≡ false
unfolding decode decode_slice round
decoded = refl
