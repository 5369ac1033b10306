-- ===== src/Network/GrpcCodec/Slices.antt =====
-- GrpcDecoder::Decode on a buffer of several slices.
use polaris_cpp.Base.{
  ℕ, ◌≡◌, refl, sym, ap, ◌∙◌, inl, inr, List, [], ◌∷◌, ◌++◌, arith, length, Bool-cases,
  if◌then◌else◌, ◌==◌, length-append,
}
use polaris_cpp.Network.GrpcCodec.{
  LengthPrefixedMessage, State, fh_flag, fh_len_0, fh_len_1, fh_len_2, fh_len_3, in_data,
  GrpcDecoder, bytes_of, round, decode,
}
use polaris_cpp.Network.GrpcCodec.Bytes.{feed, Lacks, IsValid, slice_at, takes_data}

-- All bytes of the slices.
abbrev pub join : List (List ℕ) → List ℕ
join [] = []
join (s ∷ ss) = s ++ join ss

round-IsValid :
    (st : State) (msg : LengthPrefixedMessage) (c : ℕ)
    → Lacks st msg
    → IsValid (round st msg c []).decoder
unfolding round
round-IsValid in_data msg c v =
    let t = takes_data msg c [] v in
    elim (Bool-cases (msg.length_ == length (bytes_of msg ++ c ∷ t.run))) [
      | inl full ↦ rw (t.is, full) tt
      | inr more ↦
          rw (t.is, more) (ground (arith, more, t.fits, length-append (bytes_of msg) (c ∷ t.run)))
    ]
round-IsValid fh_flag msg c v = ground arith
round-IsValid fh_len_0 msg c v = tt
round-IsValid fh_len_1 msg c v = tt
round-IsValid fh_len_2 msg c v = tt
round-IsValid fh_len_3 msg c v = ground arith

feed-IsValid :
    (d : GrpcDecoder) (bytes : List ℕ) (output : List LengthPrefixedMessage)
    → IsValid d
    → IsValid (feed d bytes output).decoder
unfolding feed
feed-IsValid d [] output v = v
feed-IsValid d (c ∷ rest) output v =
    let w = round-IsValid d.state d.decoding_msg c v in
    elim (Bool-cases (round d.state d.decoding_msg c []).ok) [
      | inl on ↦ rw on (
          feed-IsValid (round d.state d.decoding_msg c []).decoder rest
            (output ++ (round d.state d.decoding_msg c []).pushed) w)
      | inr off ↦ rw off w
    ]

pub feed-append :
    (d : GrpcDecoder) (xs ys : List ℕ) (output : List LengthPrefixedMessage)
    → feed d (xs ++ ys) output ≡ (
        if (feed d xs output).ok
        then feed (feed d xs output).decoder ys (feed d xs output).output
        else feed d xs output)
unfolding feed
feed-append d [] ys output = refl
feed-append d (c ∷ xs) ys output = elim (Bool-cases (round d.state d.decoding_msg c []).ok) [
  | inl on ↦ rw on (
      feed-append (round d.state d.decoding_msg c []).decoder xs ys
        (output ++ (round d.state d.decoding_msg c []).pushed))
  | inr off ↦ rw off refl
]

pub decode-feed :
    (d : GrpcDecoder) (slices : List (List ℕ)) (output : List LengthPrefixedMessage)
    → IsValid d
    → decode d slices output ≡ feed d (join slices) output
unfolding decode feed
decode-feed d [] output v = refl
decode-feed d (s ∷ slices) output v =
    let e = slice_at (length s) d.state d.decoding_msg s output v (omega arith) in
    let f =
      decode-feed (feed d s output).decoder slices (feed d s output).output
        (feed-IsValid d s output v) in
    rw (e, feed-append d s (join slices) output)
      (elim (Bool-cases (feed d s output).ok) [ inl on ↦ rw on f | inr off ↦ rw off refl ])

-- The outcome of Decode depends on the bytes alone, not on how they are cut into slices: neither the
-- messages that it completes, nor whether it refuses a flag, nor what it keeps for the next call.
pub decode_slicing :
    (d : GrpcDecoder) (slices slices' : List (List ℕ)) (output : List LengthPrefixedMessage)
    → IsValid d
    → join slices ≡ join slices'
    → decode d slices output ≡ decode d slices' output
decode_slicing d slices slices' output v e =
    decode-feed d slices output v
    ∙ ap (λ l. feed d l output) e
    ∙ sym (decode-feed d slices' output v)
