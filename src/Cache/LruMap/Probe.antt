-- ===== src/Cache/LruMap/Probe.antt =====
-- The lists of LruHashMap: what a write, an unlinking or an append does to lookups and order.
use polaris_cpp.Base.{
  ◌≡◌, refl, ap, none, some, List, [], ◌∷◌, ◌++◌, Key, ite, arith, lookup, IsUnique, length, ◌+◌,
}
use polaris_cpp.Cache.LruMap.{assign, unlink, remove_node}

module _ {K V : Type 0} ⦃key : Key K⦄ where
  -- The keys of a list.
  abbrev pub keys : List (K × V) → List K
  keys [] = []
  keys ((k, v) ∷ l) = k ∷ keys l

  pub lookup-assign :
      (k j : K) (v w : V) (l : List (K × V))
      → lookup k l ≡ some w
      → lookup j (assign k v l) ≡ ite (key.dec k j) (some v) (lookup j l)
  unfolding lookup assign
  lookup-assign k j v w [] h = ground (arith, h)
  lookup-assign k j v w ((i, u) ∷ l) h = ground (arith, h, lookup-assign k j v w l)

  assign_absent :
      (k j : K) (v : V) (l : List (K × V)) → lookup j l ≡ none → lookup j (assign k v l) ≡ none
  unfolding lookup assign
  assign_absent k j v [] h = refl
  assign_absent k j v ((i, u) ∷ l) h = ground (arith, h, assign_absent k j v l)

  pub assign-IsUnique : (k : K) (v : V) (l : List (K × V)) → IsUnique l → IsUnique (assign k v l)
  unfolding lookup assign
  assign-IsUnique k v [] u = tt
  assign-IsUnique k v ((i, w) ∷ l) u =
      ground (arith, u.0, u.1, assign-IsUnique k v l u.1, assign_absent k i v l u.0)

  pub lookup-unlink :
      (k j : K) (l : List (K × V))
      → IsUnique l
      → lookup j (unlink k l) ≡ ite (key.dec k j) none (lookup j l)
  unfolding lookup unlink
  lookup-unlink k j [] u = ground arith
  lookup-unlink k j ((i, w) ∷ l) u = ground (arith, u.0, u.1, lookup-unlink k j l u.1)

  pub unlink-IsUnique : (k : K) (l : List (K × V)) → IsUnique l → IsUnique (unlink k l)
  unfolding lookup unlink
  unlink-IsUnique k [] u = tt
  unlink-IsUnique k ((i, w) ∷ l) u =
      ground (arith, u.0, u.1, unlink-IsUnique k l u.1, lookup-unlink k i l u.1)

  pub keys-unlink : (k : K) (l : List (K × V)) → keys (unlink k l) ≡ remove_node k (keys l)
  unfolding unlink remove_node
  keys-unlink k [] = refl
  keys-unlink k ((i, w) ∷ l) = ground (arith, keys-unlink k l)

  pub remove_node_absent :
      (k : K) (l : List (K × V)) → lookup k l ≡ none → remove_node k (keys l) ≡ keys l
  unfolding lookup remove_node
  remove_node_absent k [] h = refl
  remove_node_absent k ((i, w) ∷ l) h = ground (arith, h, remove_node_absent k l)

  pub keys-append : (a b : List (K × V)) → keys (a ++ b) ≡ keys a ++ keys b
  keys-append [] b = refl
  keys-append ((k, v) ∷ a) b = ap (λ l. k ∷ l) (keys-append a b)

  pub lookup-append :
      (k j : K) (v : V) (l : List (K × V))
      → lookup k l ≡ none
      → lookup j (l ++ (k, v) ∷ []) ≡ ite (key.dec k j) (some v) (lookup j l)
  unfolding lookup
  lookup-append k j v [] h = refl
  lookup-append k j v ((i, w) ∷ l) h = ground (arith, h, lookup-append k j v l)

  pub append-IsUnique :
      (k : K) (v : V) (l : List (K × V))
      → lookup k l ≡ none
      → IsUnique l
      → IsUnique (l ++ (k, v) ∷ [])
  unfolding lookup
  append-IsUnique k v [] h u = (refl, tt)
  append-IsUnique k v ((i, w) ∷ l) h u =
      ground (arith, h, u.0, u.1, append-IsUnique k v l, lookup-append k i v l)

  pub unlink_absent : (k : K) (l : List (K × V)) → lookup k l ≡ none → unlink k l ≡ l
  unfolding lookup unlink
  unlink_absent k [] h = refl
  unlink_absent k ((i, w) ∷ l) h = ground (arith, h, unlink_absent k l)

  pub length-unlink :
      (k : K) (v : V) (l : List (K × V)) → lookup k l ≡ some v → length (unlink k l) + 1 ≡ length l
  unfolding lookup unlink
  length-unlink k v [] h = ground (arith, h)
  length-unlink k v ((i, w) ∷ l) h = ground (arith, h, length-unlink k v l)
