-- ===== src/Cache/LruMap/Refinement.antt =====
-- LruHashMap implements a list of entries in the order of use, of bounded length.
use polaris_cpp.Base.{
  ℕ, ◌%◌, ◌≡◌, refl, sym, ◌∙◌, inl, inr, true, false, Option, none, some, List, [], ◌∷◌, ◌++◌, Key,
  ite, arith, lookup, IsUnique, ◌==◌, Option-cases, Bool-cases,
}
use polaris_cpp.Cache.LruMap.{
  LruMap, unlink, remove_node, add_to_end, move_to_end, with_list, list_of, get, delete,
}
use polaris_cpp.Cache.LruMap.Probe.{
  keys, lookup-unlink, unlink-IsUnique, keys-unlink, keys-append, lookup-append, append-IsUnique,
  unlink_absent,
}

module _ {K V : Type 0} ⦃key : Key K⦄ where
  -- The map holds the entries `a`, the oldest first, and counts `over` more than it holds.
  pub record Holds (hash_func : K → ℕ) (m : LruMap K V) (a : List (K × V)) : Type 0 where
    pub order : m.lru ≡ keys a
    pub find : (k : K) → lookup k (list_of hash_func m k) ≡ lookup k a
    pub unique : IsUnique a
    pub placed : (i : ℕ) → IsUnique (m.table i)

  -- The specification: a use moves an entry to the end, and the oldest is dropped over the limit.
  abbrev pub used : K → V → List (K × V) → List (K × V)
  used k v a = unlink k a ++ (k, v) ∷ []

  abbrev pub drop_oldest : List (K × V) → List (K × V)
  drop_oldest [] = []
  drop_oldest (e ∷ a) = a

module _ {K V : Type 0} ⦃key : Key K⦄ (hash_func : K → ℕ) (m : LruMap K V) (k : K) where
  get_found :
      (v : V)
      → lookup k (list_of hash_func m k) ≡ some v
      → get hash_func m k
        ≡ (some v, record m { lru = move_to_end k m.lru; retained = m.retained ++ v ∷ [] })
  unfolding get move_to_end
  get_found v e = rw (get, e) refl

  get_missed : lookup k (list_of hash_func m k) ≡ none → get hash_func m k ≡ (none, m)
  unfolding get
  get_missed e = rw (get, e) refl

  pub delete_found :
      (v : V)
      → lookup k (list_of hash_func m k) ≡ some v
      → delete hash_func m k ≡ (
        true,
        record m {
          table = with_list m.table (hash_func k % m.capacity) (unlink k (list_of hash_func m k));
          lru = remove_node k m.lru;
          released = m.released ++ v ∷ [];
        },
      )
  unfolding delete with_list remove_node
  delete_found v e = rw (delete, e) refl

  delete_missed : lookup k (list_of hash_func m k) ≡ none → delete hash_func m k ≡ (false, m)
  unfolding delete
  delete_missed e = rw (delete, e) refl

module _ {K V : Type 0} ⦃key : Key K⦄ (hash_func : K → ℕ) (m : LruMap K V) (a : List (K × V))
    (h : Holds hash_func m a) where
  pub used-order : (k : K) (v : V) → move_to_end k m.lru ≡ keys (used k v a)
  unfolding move_to_end add_to_end
  used-order k v = rw (keys-append (unlink k a) ((k, v) ∷ []), keys-unlink k a, h.order) refl

  unlinked : (k : K) → lookup k (unlink k a) ≡ none
  unlinked k = ground (arith, lookup-unlink k k a h.unique)

  pub used-IsUnique : (k : K) (v : V) → IsUnique (used k v a)
  used-IsUnique k v = append-IsUnique k v (unlink k a) (unlinked k) (unlink-IsUnique k a h.unique)

  pub used-find :
      (k j : K) (v : V) → lookup j (used k v a) ≡ ite (key.dec k j) (some v) (lookup j a)
  used-find k j v =
      ground (arith, lookup-append k j v (unlink k a) (unlinked k), lookup-unlink k j a h.unique)

  -- A probe list written at the index of `k`, which differs from the one there at `k` only.
  pub written :
      (k : K) (l : List (K × V)) (x : Option V)
      → ((j : K) → lookup j l ≡ ite (key.dec k j) x (lookup j (list_of hash_func m k)))
      → (j : K)
      → lookup j (with_list m.table (hash_func k % m.capacity) l (hash_func j % m.capacity))
        ≡ ite (key.dec k j) x (lookup j a)
  unfolding with_list list_of
  written k l x f j = ground (arith, f j, h.find j)

  pub written-placed :
      (i j : ℕ) (l : List (K × V)) → IsUnique l → IsUnique (with_list m.table i l j)
  unfolding with_list
  written-placed i j l u = elim (Bool-cases (j == i)) [
    | inl same ↦ rw same u
    | inr other ↦ rw other (h.placed j)
  ]

  -- On a map that holds `a` in the order of use, Get gives what `a` has for the key. A key that is there
  -- is then the last used one, with its value, and a key that is not there changes nothing.
  pub get-Holds :
      (k : K)
      → let r = get hash_func m k in
        (r.0 ≡ lookup k a)
        × Holds hash_func r.1 (elim (lookup k a) [ none ↦ a | some v ↦ used k v a ])
  unfolding list_of
  get-Holds k = elim (Option-cases (lookup k a)) [
    | inl absent ↦ rw (get_missed hash_func m k (h.find k ∙ absent), absent) (refl, h)
    | inr (v, here) ↦
        rw (get_found hash_func m k v (h.find k ∙ here), here)
          (
            refl,
            record {
              order = used-order k v;
              find = λ j. ground (arith, h.find j, used-find k j v, here);
              unique = used-IsUnique k v;
              placed = h.placed;
            },
          )
  ]

  pub removed-Holds :
      (m' : LruMap K V) (k : K)
      → m'.capacity ≡ m.capacity
      → m'.table ≡ with_list m.table (hash_func k % m.capacity) (unlink k (list_of hash_func m k))
      → m'.lru ≡ keys (unlink k a)
      → Holds hash_func m' (unlink k a)
  unfolding list_of
  removed-Holds m' k c t l = record {
    order = l;
    find = λ j.
        rw (c, t)
          (written k (unlink k (list_of hash_func m k)) none (λ i. lookup-unlink k i _ (h.placed _))
              j
            ∙ sym (lookup-unlink k j a h.unique));
    unique = unlink-IsUnique k a h.unique;
    placed = λ i.
        rw t (written-placed (hash_func k % m.capacity) i _ (unlink-IsUnique k _ (h.placed _)));
  }

  pub delete-Holds :
      (k : K)
      → let r = delete hash_func m k in
        (r.0 ≡ (elim (lookup k a) [ none ↦ false | some v ↦ true ]))
        × Holds hash_func r.1 (unlink k a)
  delete-Holds k = elim (Option-cases (lookup k a)) [
    | inl absent ↦
        rw (delete_missed hash_func m k (h.find k ∙ absent), absent, unlink_absent k a absent)
          (refl, h)
    | inr (v, here) ↦
        rw (delete_found hash_func m k v (h.find k ∙ here), here)
          (refl, removed-Holds _ k refl refl (rw (keys-unlink k a, h.order) refl))
  ]
