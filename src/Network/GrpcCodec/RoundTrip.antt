-- ===== src/Network/GrpcCodec/RoundTrip.antt =====
-- GrpcDecoder on the frames that GrpcCodec writes.
use polaris_cpp.Base.{
  ℕ, zero, suc, Bool, not, ◌&&◌, get_elem?, ◌-◌, ◌+◌, ◌*◌, ◌/◌, ◌%◌, ◌^◌, ◌<◌, ◌≡◌, refl, ap, ◌∙◌,
  true, false, none, some, List, [], ◌∷◌, ◌++◌, arith, length, map, ◌==◌,
}
use mathlib.Core.List.{append_assoc, append-nil}
use polaris_cpp.Network.GrpcCodec.{
  LengthPrefixedMessage, in_data, GrpcDecoder, fresh, round, decode, serialize_to_grpc_frame,
}
use polaris_cpp.Network.GrpcCodec.Vector.{new_entry, push_all, some_growth}
use polaris_cpp.Network.GrpcCodec.Owned.{aged, push_all-new}
use polaris_cpp.Network.GrpcCodec.Bytes.{feed, data_run}
use polaris_cpp.Network.GrpcCodec.Slices.{join, decode-feed}

-- What the decoder makes of the frame of a message: an empty message has no data.
abbrev pub received : List ℕ → LengthPrefixedMessage
received [] = record { flags = 0; length_ = 0; data_ = none }
received (c ∷ bytes) = record { flags = 0; length_ = length (c ∷ bytes); data_ = some (c ∷ bytes) }

-- The message has a size that the four bytes hold.
abbrev pub AllFit : List (List ℕ) → Type 0
AllFit [] = Unit {0}
AllFit (m ∷ ms) = (length m < 2 ^ 32) × AllFit ms

-- The four bytes of a size make it up again.
size_bytes :
    (n : ℕ)
    → n < 2 ^ 32
    → n % 2 ^ 32 / 2 ^ 24 * 2 ^ 24
        + n % 2 ^ 32 / 2 ^ 16 % 2 ^ 8 * 2 ^ 16
        + n % 2 ^ 32 / 2 ^ 8 % 2 ^ 8 * 2 ^ 8
        + n % 2 ^ 32 % 2 ^ 8
      ≡ n
size_bytes n h = omega arith

-- What the rounds that complete no message add to the output.
four_nils : {A : Type 0} (xs : List A) → (((xs ++ []) ++ []) ++ []) ++ [] ≡ xs
four_nils xs = rw (append-nil xs, append-nil xs, append-nil xs) (append-nil xs)

-- The five bytes before the data, when they give a size above 0.
feed_header :
    (a b c d : ℕ) (rest : List ℕ) (output : List LengthPrefixedMessage)
    → 0 < a * 2 ^ 24 + b * 2 ^ 16 + c * 2 ^ 8 + d
    → feed fresh (0 ∷ a ∷ b ∷ c ∷ d ∷ rest) output
      ≡ feed
          (record {
            state = in_data;
            decoding_msg = record {
              flags = 0;
              length_ = a * 2 ^ 24 + b * 2 ^ 16 + c * 2 ^ 8 + d;
              data_ = some [];
            };
          })
          rest
          output
unfolding feed round
feed_header a b c d rest output h =
    let next : GrpcDecoder = record {
      state = in_data;
      decoding_msg = record {
        flags = 0;
        length_ = a * 2 ^ 24 + b * 2 ^ 16 + c * 2 ^ 8 + d;
        data_ = some [];
      };
    } in
    let e : a * 2 ^ 24 + b * 2 ^ 16 + c * 2 ^ 8 + d == 0 ≡ false = ground (arith, h) in
    rw e (ap (λ l. feed next rest l) (ap (λ l. l ++ []) (four_nils output) ∙ append-nil output))

feed_empty :
    (rest : List ℕ) (output : List LengthPrefixedMessage)
    → feed fresh (0 ∷ 0 ∷ 0 ∷ 0 ∷ 0 ∷ rest) output ≡ feed fresh rest (output ++ received [] ∷ [])
unfolding feed round
feed_empty rest output = ap (λ l. feed fresh rest (l ++ received [] ∷ [])) (four_nils output)

feed-frame :
    (m rest : List ℕ) (output : List LengthPrefixedMessage)
    → length m < 2 ^ 32
    → feed fresh (serialize_to_grpc_frame m ++ rest) output
      ≡ feed fresh rest (output ++ received m ∷ [])
unfolding serialize_to_grpc_frame
feed-frame [] rest output h = feed_empty rest output
feed-frame (x ∷ m) rest output h =
    let n : ℕ = length (x ∷ m) in
    let size : ℕ = n % 2 ^ 32 in
    let e = size_bytes n h in
    let full : n == n ≡ true = ground arith in
    feed_header (size / 2 ^ 24) (size / 2 ^ 16 % 2 ^ 8) (size / 2 ^ 8 % 2 ^ 8) (size % 2 ^ 8)
      ((x ∷ m) ++ rest) output (omega (arith, e))
    ∙ rw
        (
          e,
          data_run (record { flags = 0; length_ = n; data_ = some [] }) x m rest output
              (omega arith),
          full,
        )
        refl

feed-frames :
    (ms : List (List ℕ)) (output : List LengthPrefixedMessage)
    → AllFit ms
    → feed fresh (join (map serialize_to_grpc_frame ms)) output
      ≡ record { ok = true; decoder = fresh; output = output ++ map received ms }
unfolding feed
feed-frames [] output fit = rw (append-nil output) refl
feed-frames (m ∷ ms) output (h, fit) =
    feed-frame m (join (map serialize_to_grpc_frame ms)) output h
    ∙ feed-frames ms (output ++ received m ∷ []) fit
    ∙ rw (append_assoc output (received m ∷ []) (map received ms)) refl

get_elem?-map :
    (ms : List (List ℕ)) (k : ℕ) (m : List ℕ)
    → get_elem? ms k ≡ some m
    → get_elem? (map received ms) k ≡ some (received m)
get_elem?-map [] k m h = cc
get_elem?-map (x ∷ ms) zero m h = let e : x ≡ m = ground (arith, h) in ap (λ z. some (received z)) e
get_elem?-map (x ∷ ms) (suc k) m h = get_elem?-map ms k m h

length-map : (ms : List (List ℕ)) → length (map received ms) ≡ length ms
length-map [] = refl
length-map (m ∷ ms) = ap suc (length-map ms)

aged-received :
    (grown : Bool) (m : List ℕ)
    → aged grown (new_entry (received m))
      ≡ record { message = received m; freed = not (length m == 0) && grown }
aged-received true [] = refl
aged-received false [] = refl
aged-received true (c ∷ m) = ground arith
aged-received false (c ∷ m) = ground arith

-- A fresh decoder that is given the frames of messages of less than 2 ^ 32 bytes each, cut into
-- slices in any way, pushes exactly those messages in their order, refuses none, and ends fresh. In
-- the vector, which starts empty, the k-th entry is the k-th message, but its Buffer has been deleted
-- if the message is not empty and the vector took a larger room at a later push. So one message
-- arrives as it was sent, and several do if the vector has room for them.
pub decode_round_trip :
    (ms slices : List (List ℕ)) (grows : ℕ → Bool) (k : ℕ) (m : List ℕ)
    → AllFit ms
    → join slices ≡ join (map serialize_to_grpc_frame ms)
    → get_elem? ms k ≡ some m
    → let pushed = map received ms in
      (decode fresh slices [] ≡ record { ok = true; decoder = fresh; output = pushed })
      × (get_elem? (push_all grows [] pushed) k
          ≡ some (record {
            message = received m;
            freed = not (length m == 0) && some_growth grows (suc k) (length ms - suc k);
          }))
decode_round_trip ms slices grows k m fit e h = (
  decode-feed fresh slices [] tt ∙ ap (λ l. feed fresh l []) e ∙ feed-frames ms [] fit,
  push_all-new grows (map received ms) [] k k (length ms - suc k) (received m)
        (get_elem?-map ms k m h) (omega arith) (omega (arith, length-map ms))
      ∙ ap some (aged-received (some_growth grows (suc k) (length ms - suc k)) m),
)
