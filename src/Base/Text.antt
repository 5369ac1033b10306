-- ===== src/Base/Text.antt =====
-- `std::string` where the code builds and orders strings: a list of character codes. The order of
-- a `std::map` with string keys is the strings' own, by `less`.
use Prim.Native.Nat.{ℕ}
use mathlib.Core.Path.{◌≡◌, refl, sym}
use mathlib.Core.Logic.{◌≢◌, ite}
use mathlib.Core.Bool.{Bool, true, false}
use mathlib.Core.List.{List, [], ◌∷◌}
use mathlib.Core.Option.{some}
use native.Mathlib.Decide.{ℕ_discrete}
use native.Mathlib.Omega.{arith}
use polaris_cpp.Base.Dict.{Key, lookup}
use polaris_cpp.Base.Tests.{ltb, if◌then◌else◌}

abbrev pub String : Type 0
String = List ℕ

pub nil_cons : (y : ℕ) (ys : String) → [] ≢ y ∷ ys
nil_cons y ys e = cc

pub cons_head : (x y : ℕ) (xs ys : String) → x ∷ xs ≡ y ∷ ys → x ≡ y
cons_head x y xs ys e = cc

pub cons_tail : (x y : ℕ) (xs ys : String) → x ∷ xs ≡ y ∷ ys → xs ≡ ys
cons_tail x y xs ys e = cc

pub cons_both : (x y : ℕ) (xs ys : String) → x ≡ y → xs ≡ ys → x ∷ xs ≡ y ∷ ys
cons_both x y xs ys p q = cc

abbrev pub string_dec : (a b : String) → Dec (a ≡ b)
string_dec [] [] = yes refl
string_dec [] (y ∷ ys) = no (nil_cons y ys)
string_dec (x ∷ xs) [] = no (λ e. nil_cons x xs (sym e))
string_dec (x ∷ xs) (y ∷ ys) = elim (ℕ_discrete x y) [
  | no n ↦ no (λ e. n (cons_head x y xs ys e))
  | yes p ↦ elim (string_dec xs ys) [
    | no n ↦ no (λ e. n (cons_tail x y xs ys e))
    | yes q ↦ yes (cons_both x y xs ys p q)
  ]
]

instance abbrev pub string_key : Key String
string_key = record { dec = string_dec }

-- `a < b` of strings.
abbrev pub less : String → String → Bool
less [] [] = false
less [] (y ∷ ys) = true
less (x ∷ xs) [] = false
less (x ∷ xs) (y ∷ ys) =
    let rest = less xs ys in if ltb x y then true else if ltb y x then false else rest

module _ {K V : Type 0} ⦃key : Key K⦄ (before : K → K → Bool) where
  -- `m[k] = v` of a `std::map`, whose entries stand in the order of their keys.
  unfoldable pub put : K → V → List (K × V) → List (K × V)
  put k v [] = (k, v) ∷ []
  put k v ((j, w) ∷ m) =
      let rest = put k v m in
      ite (key.dec j k) ((k, v) ∷ m) (if before k j then (k, v) ∷ (j, w) ∷ m else (j, w) ∷ rest)

  pub lookup-put :
      (k j : K) (v : V) (m : List (K × V))
      → lookup j (put k v m) ≡ ite (key.dec k j) (some v) (lookup j m)
  unfolding lookup put
  lookup-put k j v [] = refl
  lookup-put k j v ((i, w) ∷ m) = ground (arith, lookup-put k j v m)
