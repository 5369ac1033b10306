-- ===== src/Network/GrpcCodec/Owned.antt =====
-- Which Buffers of the vector that Decode fills are still there.
use polaris_cpp.Base.{
  ℕ, zero, suc, ◌+◌, ◌-◌, ◌≡◌, refl, ap, ◌∙◌, Bool, Option, true, false, ◌||◌, none, some, List, [],
  ◌∷◌, ◌++◌, length, get_elem?, if◌then◌else◌, arith, length-append, Bool-cases, inl, inr,
}
use polaris_cpp.Network.GrpcCodec.{LengthPrefixedMessage}
use polaris_cpp.Network.GrpcCodec.Vector.{
  Stored, new_entry, destroyed, all_destroyed, push_back, push_all, some_growth,
}

-- An entry after pushes of which one took a larger room, or none did.
abbrev pub aged : Bool → Stored → Stored
aged grown x = if grown then destroyed x else x

length-all_destroyed : (v : List Stored) → length (all_destroyed v) ≡ length v
length-all_destroyed [] = refl
length-all_destroyed (x ∷ v) = ap suc (length-all_destroyed v)

get_elem?-all_destroyed :
    (v : List Stored) (k : ℕ) (x : Stored)
    → get_elem? v k ≡ some x
    → get_elem? (all_destroyed v) k ≡ some (destroyed x)
get_elem?-all_destroyed [] k x h = cc
get_elem?-all_destroyed (y ∷ v) zero x h =
    let e : y ≡ x = ground (arith, h) in ap (λ z. some (destroyed z)) e
get_elem?-all_destroyed (y ∷ v) (suc k) x h = get_elem?-all_destroyed v k x h

get_elem?-append :
    (v w : List Stored) (k : ℕ) (x : Stored)
    → get_elem? v k ≡ some x
    → get_elem? (v ++ w) k ≡ some x
get_elem?-append [] w k x h = cc
get_elem?-append (y ∷ v) w zero x h = h
get_elem?-append (y ∷ v) w (suc k) x h = get_elem?-append v w k x h

get_elem?-last :
    (v : List Stored) (x : Stored) (k : ℕ) → k ≡ length v → get_elem? (v ++ x ∷ []) k ≡ some x
get_elem?-last [] x zero h = refl
get_elem?-last [] x (suc k) h = let bad : ⊥ = omega arith in elim bad [ ]
get_elem?-last (y ∷ v) x zero h = let bad : ⊥ = omega arith in elim bad [ ]
get_elem?-last (y ∷ v) x (suc k) h = get_elem?-last v x k (omega arith)

destroyed_twice_at :
    (flags length_ : ℕ) (freed : Bool) (data_ : Option (List ℕ))
    → let x : Stored = record {
      message = record { flags = flags; length_ = length_; data_ = data_ };
      freed = freed;
    } in
      destroyed (destroyed x) ≡ destroyed x
destroyed_twice_at flags length_ freed none = refl
destroyed_twice_at flags length_ freed (some d) = refl

destroyed_twice : (x : Stored) → destroyed (destroyed x) ≡ destroyed x
destroyed_twice x = destroyed_twice_at x.message.flags x.message.length_ x.freed x.message.data_

aged_again : (a b : Bool) (x : Stored) → aged b (aged a x) ≡ aged (a || b) x
aged_again true true x = destroyed_twice x
aged_again true false x = refl
aged_again false b x = refl

length-push_back :
    (grows : ℕ → Bool) (v : List Stored) (msg : LengthPrefixedMessage)
    → length (push_back grows v msg) ≡ suc (length v)
unfolding push_back
length-push_back grows v msg = elim (Bool-cases (grows (length v))) [
  | inl t ↦
      rw t (
        omega (arith, length-append (all_destroyed v) (new_entry msg ∷ []), length-all_destroyed v))
  | inr t ↦ rw t (omega (arith, length-append v (new_entry msg ∷ [])))
]

push_back-old :
    (grows : ℕ → Bool) (v : List Stored) (msg : LengthPrefixedMessage) (k : ℕ) (x : Stored)
    → get_elem? v k ≡ some x
    → get_elem? (push_back grows v msg) k ≡ some (aged (grows (length v)) x)
unfolding push_back
push_back-old grows v msg k x h = elim (Bool-cases (grows (length v))) [
  | inl t ↦
      rw t (get_elem?-append (all_destroyed v) _ k (destroyed x) (get_elem?-all_destroyed v k x h))
  | inr t ↦ rw t (get_elem?-append v _ k x h)
]

push_back-new :
    (grows : ℕ → Bool) (v : List Stored) (msg : LengthPrefixedMessage)
    → get_elem? (push_back grows v msg) (length v) ≡ some (new_entry msg)
unfolding push_back
push_back-new grows v msg = elim (Bool-cases (grows (length v))) [
  | inl t ↦
      rw t (get_elem?-last (all_destroyed v) _ (length v) (omega (arith, length-all_destroyed v)))
  | inr t ↦ rw t (get_elem?-last v _ (length v) refl)
]

push_all-old :
    (grows : ℕ → Bool) (msgs : List LengthPrefixedMessage) (v : List Stored) (k : ℕ) (x : Stored)
    → get_elem? v k ≡ some x
    → get_elem? (push_all grows v msgs) k
      ≡ some (aged (some_growth grows (length v) (length msgs)) x)
unfolding push_all
push_all-old grows [] v k x h = h
push_all-old grows (msg ∷ msgs) v k x h =
    push_all-old grows msgs (push_back grows v msg) k _ (push_back-old grows v msg k x h)
    ∙ ap (λ n. some (aged (some_growth grows n (length msgs)) (aged (grows (length v)) x)))
        (length-push_back grows v msg)
    ∙ ap some (aged_again (grows (length v)) _ x)

-- The entry of a message, at its place `n` after what was in the vector, with `later` pushes after
-- it.
pub push_all-new :
    (grows : ℕ → Bool) (msgs : List LengthPrefixedMessage) (v : List Stored) (k n later : ℕ)
    (msg : LengthPrefixedMessage)
    → get_elem? msgs k ≡ some msg
    → n ≡ length v + k
    → later ≡ length msgs - suc k
    → get_elem? (push_all grows v msgs) n
      ≡ some (aged (some_growth grows (suc n) later) (new_entry msg))
unfolding push_all
push_all-new grows [] v k n later msg h at rest = cc
push_all-new grows (m ∷ msgs) v zero n later msg h at rest =
    let same : m ≡ msg = ground (arith, h) in
    let place : length v ≡ n = omega arith in
    let count : length msgs ≡ later = omega arith in
    let size : length (push_back grows v m) ≡ suc n = length-push_back grows v m ∙ ap suc place in
    let new : get_elem? (push_back grows v m) n ≡ some (new_entry msg) =
      rw (← place, ← same) (push_back-new grows v m) in
    push_all-old grows msgs (push_back grows v m) n _ new
    ∙ ap (λ c. some (aged (some_growth grows (length (push_back grows v m)) c) (new_entry msg)))
        count
    ∙ ap (λ c. some (aged (some_growth grows c later) (new_entry msg))) size
push_all-new grows (m ∷ msgs) v (suc k) n later msg h at rest =
    push_all-new grows msgs (push_back grows v m) k n later msg h
      (omega (arith, length-push_back grows v m)) (omega arith)
