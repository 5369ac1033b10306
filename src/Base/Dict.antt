-- ===== src/Base/Dict.antt =====
-- Dictionaries (`std::map`, `std::unordered_map`) as association lists over a key type with
-- decidable equality. `std::string` keys are such a type: only their equality is used.
use Prim.Native.Nat.{ℕ}
use mathlib.Core.Path.{◌≡◌, refl}
use mathlib.Core.Logic.{ite}
use mathlib.Core.List.{List, [], ◌∷◌}
use mathlib.Core.Option.{Option, none, some}
use native.Mathlib.Decide.{ℕ_discrete}
use native.Mathlib.Omega.{arith}

pub record Key (K : Type 0) : Type 0 where
  pub dec : (a b : K) → Dec (a ≡ b)

instance abbrev pub nat_key : Key ℕ
nat_key = record { dec = ℕ_discrete }

module _ {K V : Type 0} ⦃key : Key K⦄ where
  unfoldable pub lookup : K → List (K × V) → Option V
  lookup k [] = none
  lookup k ((j, v) ∷ m) = ite (key.dec j k) (some v) (lookup k m)

  -- `m[k] = v`: in place where the key stands, at the end otherwise.
  unfoldable pub insert : K → V → List (K × V) → List (K × V)
  insert k v [] = (k, v) ∷ []
  insert k v ((j, w) ∷ m) = ite (key.dec j k) ((k, v) ∷ m) ((j, w) ∷ insert k v m)

  -- `m.erase(k)`.
  unfoldable pub erase : K → List (K × V) → List (K × V)
  erase k [] = []
  erase k ((j, w) ∷ m) = ite (key.dec j k) (erase k m) ((j, w) ∷ erase k m)

  pub lookup-insert :
      (k j : K) (v : V) (m : List (K × V))
      → lookup j (insert k v m) ≡ ite (key.dec k j) (some v) (lookup j m)
  unfolding lookup insert
  lookup-insert k j v [] = refl
  lookup-insert k j v ((i, w) ∷ m) = ground (arith, lookup-insert k j v m)

  pub lookup-erase :
      (k j : K) (m : List (K × V)) → lookup j (erase k m) ≡ ite (key.dec k j) none (lookup j m)
  unfolding lookup erase
  lookup-erase k j [] = ground arith
  lookup-erase k j ((i, w) ∷ m) = ground (arith, lookup-erase k j m)

  -- Every key stands once, as in the C++ containers.
  abbrev pub IsUnique : List (K × V) → Type 0
  IsUnique [] = Unit {0}
  IsUnique ((k, v) ∷ m) = (lookup k m ≡ none) × IsUnique m

  pub insert-IsUnique : (k : K) (v : V) (m : List (K × V)) → IsUnique m → IsUnique (insert k v m)
  unfolding insert lookup
  insert-IsUnique k v [] u = (refl, tt)
  insert-IsUnique k v ((j, w) ∷ m) u =
      ground (arith, u.0, u.1, insert-IsUnique k v m u.1, lookup-insert k j v m)

  pub erase-IsUnique : (k : K) (m : List (K × V)) → IsUnique m → IsUnique (erase k m)
  unfolding erase lookup
  erase-IsUnique k [] u = tt
  erase-IsUnique k ((j, w) ∷ m) u =
      ground (arith, u.0, u.1, erase-IsUnique k m u.1, lookup-erase k j m)

module _ {K V W : Type 0} ⦃key : Key K⦄ (f : V → Option W) where
  -- The entries that `f` picks, with what it makes of them.
  unfoldable pub collect : List (K × V) → List (K × W)
  collect [] = []
  collect ((k, v) ∷ m) = let rest = collect m in elim (f v) [ none ↦ rest | some w ↦ (k, w) ∷ rest ]

  pub collect_absent : (k : K) (m : List (K × V)) → lookup k m ≡ none → lookup k (collect m) ≡ none
  unfolding collect lookup
  collect_absent k [] h = refl
  collect_absent k ((j, v) ∷ m) h = ground (arith, collect_absent k m)

  pub lookup-collect :
      (k : K) (m : List (K × V))
      → IsUnique m
      → lookup k (collect m) ≡ elim (lookup k m) [ none ↦ none | some v ↦ f v ]
  unfolding collect lookup
  lookup-collect k [] u = refl
  lookup-collect k ((j, v) ∷ m) u =
      ground (arith, u.0, u.1, lookup-collect k m u.1, collect_absent k m)
