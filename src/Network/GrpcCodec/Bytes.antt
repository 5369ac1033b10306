-- ===== src/Network/GrpcCodec/Bytes.antt =====
-- GrpcDecoder on a slice, and on its bytes one by one.
use polaris_cpp.Base.{
  ℕ, zero, suc, ◌+◌, ◌-◌, ◌≤◌, ◌<◌, ◌≡◌, ◌≢◌, refl, sym, ap, ◌∙◌, inl, inr, true, false, some, List,
  [], ◌∷◌, ◌++◌, arith, length, take, drop, leb, ◌==◌, if◌then◌else◌, Bool-cases, length-append,
}
use polaris_cpp.Network.GrpcCodec.{
  LengthPrefixedMessage, State, fh_flag, fh_len_0, fh_len_1, fh_len_2, fh_len_3, in_data,
  GrpcDecoder, fresh, moved, completed, bytes_of, round, Decoded, decode_slice,
}
use mathlib.Core.List.{append-nil, append_assoc}

-- The automaton that takes one byte at a time.
unfoldable pub feed : GrpcDecoder → List ℕ → List LengthPrefixedMessage → Decoded
unfolding round
feed d [] output = record { ok = true; decoder = d; output = output }
feed d (c ∷ rest) output =
    let r = round d.state d.decoding_msg c [] in
    let next = feed r.decoder rest (output ++ r.pushed) in
    if r.ok then next else record { ok = false; decoder = r.decoder; output = output }

-- A decoder within a message's data still lacks some of it.
abbrev pub Lacks : State → LengthPrefixedMessage → Type 0
Lacks in_data msg = length (bytes_of msg) < msg.length_
Lacks _ msg = Unit {0}

abbrev pub IsValid : GrpcDecoder → Type 0
IsValid d = Lacks d.state d.decoding_msg

-- A message with `xs` added to its data.
abbrev pub with_data : LengthPrefixedMessage → List ℕ → LengthPrefixedMessage
with_data msg xs = record msg { data_ = some (bytes_of msg ++ xs) }

-- The outcome of a run of data bytes: the message is complete, or lacks some more.
abbrev pub after_data :
    LengthPrefixedMessage → List ℕ → List ℕ → List LengthPrefixedMessage → Decoded
after_data msg xs ys output =
    if msg.length_ == length (bytes_of msg ++ xs)
    then feed fresh ys (output ++ with_data msg xs ∷ [])
    else feed (record { state = in_data; decoding_msg = with_data msg xs }) ys output

feed_data :
    (msg : LengthPrefixedMessage) (c : ℕ) (ys : List ℕ) (output : List LengthPrefixedMessage)
    → length (bytes_of msg) < msg.length_
    → feed (record { state = in_data; decoding_msg = msg }) (c ∷ ys) output
      ≡ after_data msg (c ∷ []) ys output
unfolding feed round
feed_data msg c ys output lacks =
    let e : leb 1 (msg.length_ - length (bytes_of msg)) ≡ true = ground (arith, lacks) in
    elim (Bool-cases (msg.length_ == length (bytes_of msg ++ c ∷ []))) [
      | inl full ↦ rw (e, full) refl
      | inr more ↦ rw (e, more, append-nil output) refl
    ]

pub data_run :
    (msg : LengthPrefixedMessage) (c : ℕ) (xs ys : List ℕ) (output : List LengthPrefixedMessage)
    → length (bytes_of msg) + suc (length xs) ≤ msg.length_
    → feed (record { state = in_data; decoding_msg = msg }) (c ∷ xs ++ ys) output
      ≡ after_data msg (c ∷ xs) ys output
data_run msg c [] ys output fits = feed_data msg c ys output (omega (arith, fits))
data_run msg c (x ∷ xs) ys output fits =
    let l : length (bytes_of msg ++ c ∷ []) ≡ length (bytes_of msg) + 1 =
      length-append (bytes_of msg) (c ∷ []) in
    let e : msg.length_ == length (bytes_of msg ++ c ∷ []) ≡ false = ground (arith, l, fits) in
    feed_data msg c (x ∷ xs ++ ys) output (omega (arith, fits))
    ∙ rw
        (
          e,
          data_run (with_data msg (c ∷ [])) x xs ys output (ground (arith, l, fits)),
          append_assoc (bytes_of msg) (c ∷ []) (x ∷ xs),
        )
        refl

take-drop : {A : Type 0} (n : ℕ) (xs : List A) → take n xs ++ drop n xs ≡ xs
take-drop zero xs = refl
take-drop (suc n) [] = refl
take-drop (suc n) (x ∷ xs) = ap (λ l. x ∷ l) (take-drop n xs)

length-take : {A : Type 0} (n : ℕ) (xs : List A) → n ≤ length xs → length (take n xs) ≡ n
length-take zero xs h = refl
length-take (suc n) [] h = ground (arith, h)
length-take (suc n) (x ∷ xs) h = ap suc (length-take n xs (omega (arith, h)))

-- Outside of the data, a round takes one byte and does not look behind it.
pub record TakesOne (st : State) (msg : LengthPrefixedMessage) (c : ℕ) (rest : List ℕ)
    : Type 0 where
  ok : (round st msg c rest).ok ≡ (round st msg c []).ok
  decoder : (round st msg c rest).decoder ≡ (round st msg c []).decoder
  pushed : (round st msg c rest).pushed ≡ (round st msg c []).pushed
  left : (round st msg c rest).ok ≡ true → (round st msg c rest).left ≡ rest
  pub valid : IsValid (round st msg c rest).decoder

pub takes_one :
    (st : State) (msg : LengthPrefixedMessage) (c : ℕ) (rest : List ℕ)
    → st ≢ in_data
    → TakesOne st msg c rest
unfolding round
takes_one fh_flag msg c rest n = record {
  ok = ground arith;
  decoder = ground arith;
  pushed = ground arith;
  left = ground arith;
  valid = ground arith;
}
takes_one fh_len_0 msg c rest n = record {
  ok = refl;
  decoder = refl;
  pushed = refl;
  left = λ e. refl;
  valid = tt;
}
takes_one fh_len_1 msg c rest n = record {
  ok = refl;
  decoder = refl;
  pushed = refl;
  left = λ e. refl;
  valid = tt;
}
takes_one fh_len_2 msg c rest n = record {
  ok = refl;
  decoder = refl;
  pushed = refl;
  left = λ e. refl;
  valid = tt;
}
takes_one fh_len_3 msg c rest n = record {
  ok = ground arith;
  decoder = ground arith;
  pushed = ground arith;
  left = ground arith;
  valid = ground arith;
}
takes_one in_data msg c rest n = elim (n refl) [ ]

-- A round on data takes what the message lacks or the slice has, whichever is less.
pub record TakesData (msg : LengthPrefixedMessage) (c : ℕ) (rest : List ℕ) : Type 0 where
  pub run : List ℕ
  left : List ℕ
  cut : rest ≡ run ++ left
  pub fits : length (bytes_of msg) + suc (length run) ≤ msg.length_
  pub is : round in_data msg c rest ≡ (
      if msg.length_ == length (bytes_of msg ++ c ∷ run)
      then completed left (with_data msg (c ∷ run))
      else moved left in_data (with_data msg (c ∷ run)))

round_data :
    (msg : LengthPrefixedMessage) (c : ℕ) (rest : List ℕ) (k : ℕ)
    → (if leb (suc (length rest)) (msg.length_ - length (bytes_of msg))
        then suc (length rest)
        else msg.length_ - length (bytes_of msg))
      ≡ suc k
    → round in_data msg c rest ≡ (
        if msg.length_ == length (bytes_of msg ++ c ∷ take k rest)
        then completed (drop k rest) (with_data msg (c ∷ take k rest))
        else moved (drop k rest) in_data (with_data msg (c ∷ take k rest)))
unfolding round
round_data msg c rest k e = rw e refl

take_all : {A : Type 0} (xs : List A) → take (length xs) xs ≡ xs
take_all [] = refl
take_all (x ∷ xs) = ap (λ l. x ∷ l) (take_all xs)

drop_all : {A : Type 0} (xs : List A) → drop (length xs) xs ≡ []
drop_all [] = refl
drop_all (x ∷ xs) = drop_all xs

pub takes_data :
    (msg : LengthPrefixedMessage) (c : ℕ) (rest : List ℕ)
    → length (bytes_of msg) < msg.length_
    → TakesData msg c rest
takes_data msg c rest lacks =
    let room : ℕ = msg.length_ - length (bytes_of msg) in
    elim (Bool-cases (leb (suc (length rest)) room)) [
      | inl all_ ↦ record {
        run = rest;
        left = [];
        cut = sym (append-nil rest);
        fits = ground (arith, all_, lacks);
        is =
            round_data msg c rest (length rest) (rw all_ refl)
            ∙ rw (take_all rest, drop_all rest) refl;
      }
      | inr some_ ↦ record {
        run = take (room - 1) rest;
        left = drop (room - 1) rest;
        cut = sym (take-drop (room - 1) rest);
        fits = ground (arith, some_, lacks, length-take (room - 1) rest);
        is = round_data msg c rest (room - 1) (ground (arith, some_, lacks));
      }
    ]

-- The recursive call of the loop's lemma.
abbrev Same : ℕ → List ℕ → Type 0
Same fuel bytes =
    (d : GrpcDecoder) (output : List LengthPrefixedMessage)
    → IsValid d
    → decode_slice fuel d bytes output ≡ feed d bytes output

byte_step :
    (fuel : ℕ) (st : State) (msg : LengthPrefixedMessage) (c : ℕ) (rest : List ℕ)
    (output : List LengthPrefixedMessage)
    → st ≢ in_data
    → Same fuel rest
    → decode_slice (suc fuel) (record { state = st; decoding_msg = msg }) (c ∷ rest) output
      ≡ feed (record { state = st; decoding_msg = msg }) (c ∷ rest) output
unfolding decode_slice feed
byte_step fuel st msg c rest output n same =
    let t = takes_one st msg c rest n in
    elim (Bool-cases (round st msg c rest).ok) [
      | inl on ↦
          rw (sym t.ok, on, t.left on, sym t.decoder, sym t.pushed)
            (same (round st msg c rest).decoder (output ++ (round st msg c rest).pushed) t.valid)
      | inr off ↦ rw (sym t.ok, off, t.decoder) refl
    ]

data_step :
    (fuel : ℕ) (msg : LengthPrefixedMessage) (c : ℕ) (rest : List ℕ)
    (output : List LengthPrefixedMessage) (t : TakesData msg c rest)
    → Same fuel t.left
    → decode_slice (suc fuel) (record { state = in_data; decoding_msg = msg }) (c ∷ rest) output
      ≡ feed (record { state = in_data; decoding_msg = msg }) (c ∷ rest) output
unfolding decode_slice
data_step fuel msg c rest output t same =
    let run : feed (record { state = in_data; decoding_msg = msg }) (c ∷ rest) output
        ≡ after_data msg (c ∷ t.run) t.left output =
      ap (λ l. feed (record { state = in_data; decoding_msg = msg }) (c ∷ l) output) t.cut
      ∙ data_run msg c t.run t.left output t.fits in
    elim (Bool-cases (msg.length_ == length (bytes_of msg ++ c ∷ t.run))) [
      | inl full ↦ rw (run, t.is, full) (same fresh (output ++ with_data msg (c ∷ t.run) ∷ []) tt)
      | inr more ↦
          rw (run, t.is, more, append-nil output)
            (same (record { state = in_data; decoding_msg = with_data msg (c ∷ t.run) }) output
              (ground (arith, more, t.fits, length-append (bytes_of msg) (c ∷ t.run))))
    ]

-- What the loop over a slice does is what the bytes do one by one.
pub slice_at :
    (fuel : ℕ) (st : State) (msg : LengthPrefixedMessage) (bytes : List ℕ)
    (output : List LengthPrefixedMessage)
    → Lacks st msg
    → length bytes ≤ fuel
    → decode_slice fuel (record { state = st; decoding_msg = msg }) bytes output
      ≡ feed (record { state = st; decoding_msg = msg }) bytes output
unfolding decode_slice feed
slice_at zero st msg [] output v le = refl
slice_at zero st msg (c ∷ rest) output v le = ground (arith, le)
slice_at (suc fuel) st msg [] output v le = refl
slice_at (suc fuel) in_data msg (c ∷ rest) output v le =
    let t = takes_data msg c rest v in
    data_step fuel msg c rest output t (λ d out w.
      slice_at fuel d.state d.decoding_msg t.left out w
        (ground (arith, le, t.cut, length-append t.run t.left)))
slice_at (suc fuel) fh_flag msg (c ∷ rest) output v le =
    byte_step fuel fh_flag msg c rest output (λ e. cc)
      (λ d out w. slice_at fuel d.state d.decoding_msg rest out w (omega (arith, le)))
slice_at (suc fuel) fh_len_0 msg (c ∷ rest) output v le =
    byte_step fuel fh_len_0 msg c rest output (λ e. cc)
      (λ d out w. slice_at fuel d.state d.decoding_msg rest out w (omega (arith, le)))
slice_at (suc fuel) fh_len_1 msg (c ∷ rest) output v le =
    byte_step fuel fh_len_1 msg c rest output (λ e. cc)
      (λ d out w. slice_at fuel d.state d.decoding_msg rest out w (omega (arith, le)))
slice_at (suc fuel) fh_len_2 msg (c ∷ rest) output v le =
    byte_step fuel fh_len_2 msg c rest output (λ e. cc)
      (λ d out w. slice_at fuel d.state d.decoding_msg rest out w (omega (arith, le)))
slice_at (suc fuel) fh_len_3 msg (c ∷ rest) output v le =
    byte_step fuel fh_len_3 msg c rest output (λ e. cc)
      (λ d out w. slice_at fuel d.state d.decoding_msg rest out w (omega (arith, le)))
