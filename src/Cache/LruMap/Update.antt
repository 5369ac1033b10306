-- ===== src/Cache/LruMap/Update.antt =====
-- LruHashMap::Update and Evict: the oldest entry leaves when the map is full.
use polaris_cpp.Base.{
  ℕ, ◌+◌, ◌-◌, ◌%◌, ◌≤◌, ◌<◌, ◌≡◌, refl, sym, ◌∙◌, inl, inr, none, some, List, [], ◌∷◌, ◌++◌, Key,
  arith, lookup, length, length-append, ltb, if◌then◌else◌, Option-cases, Bool-cases,
}
use polaris_cpp.Cache.LruMap.{
  LruMap, unlink, add_to_end, with_list, list_of, evict, evict_if_over, replace, add_node, update,
}
use polaris_cpp.Cache.LruMap.Probe.{
  keys, lookup-assign, assign-IsUnique, length-unlink, remove_node_absent, keys-append,
  lookup-append, append-IsUnique,
}
use polaris_cpp.Cache.LruMap.Refinement.{
  Holds, used, drop_oldest, used-order, used-IsUnique, used-find, written, written-placed,
  removed-Holds, delete_found,
}

module _ {K V : Type 0} ⦃key : Key K⦄ where
  -- What Update makes of the entries, for a map of `limit` entries.
  abbrev pub updated : ℕ → K → V → List (K × V) → List (K × V)
  updated limit k v a = elim (lookup k a) [
    | some old ↦ used k v a
    | none ↦ let b = a ++ (k, v) ∷ [] in if ltb limit (length b) then drop_oldest b else b
  ]

  -- The map holds `a`, counts it rightly, and is not over its size.
  pub record Sound (hash_func : K → ℕ) (m : LruMap K V) (a : List (K × V)) : Type 0 where
    pub holds : Holds hash_func m a
    pub counted : m.size ≡ length a
    pub bounded : length a ≤ m.lru_size

module _ {K V : Type 0} ⦃key : Key K⦄ (hash_func : K → ℕ) (m : LruMap K V) (k : K) where
  update_found :
      (old v : V)
      → lookup k (list_of hash_func m k) ≡ some old
      → update hash_func m k v ≡ some (replace hash_func m k old v)
  unfolding update
  update_found old v e = rw (update, e) refl

  update_missed :
      (v : V)
      → lookup k (list_of hash_func m k) ≡ none
      → update hash_func m k v ≡ elim (evict_if_over hash_func (add_node hash_func m k v)) [
        | none ↦ none
        | some m' ↦ evict_if_over hash_func m'
      ]
  unfolding update
  update_missed v e = rw (update, e) refl

module _ {K V : Type 0} ⦃key : Key K⦄ (hash_func : K → ℕ) (m : LruMap K V) (a : List (K × V))
    (h : Holds hash_func m a) where
  replace-Holds :
      (k : K) (old v : V)
      → lookup k a ≡ some old
      → Holds hash_func (replace hash_func m k old v) (used k v a)
  unfolding replace list_of
  replace-Holds k old v here = record {
    order = used-order hash_func m a h k v;
    find = λ j.
        written hash_func m a h k _ (some v) (λ i. lookup-assign k i v old _ (h.find k ∙ here)) j
        ∙ sym (used-find hash_func m a h k j v);
    unique = used-IsUnique hash_func m a h k v;
    placed = λ i. written-placed hash_func m a h _ i _ (assign-IsUnique k v _ (h.placed _));
  }

  add_node-Holds :
      (k : K) (v : V)
      → lookup k a ≡ none
      → Holds hash_func (add_node hash_func m k v) (a ++ (k, v) ∷ [])
  unfolding add_node add_to_end list_of lookup
  add_node-Holds k v absent = record {
    order = rw (keys-append a ((k, v) ∷ []), h.order) refl;
    find = λ j.
        written hash_func m a h k _ (some v) (λ i. refl) j ∙ sym (lookup-append k j v a absent);
    unique = append-IsUnique k v a absent h.unique;
    placed = λ i. written-placed hash_func m a h _ i _ (h.find k ∙ absent, h.placed _);
  }

module _ {K V : Type 0} ⦃key : Key K⦄ (hash_func : K → ℕ) (m : LruMap K V) (k : K) (v : V)
    (a : List (K × V)) (h : Holds hash_func m ((k, v) ∷ a)) where
  unlink_head : unlink k ((k, v) ∷ a) ≡ a
  unfolding unlink
  unlink_head = ground arith

  head_found : lookup k (list_of hash_func m k) ≡ some v
  unfolding lookup
  head_found = ground (arith, h.find k)

  -- The map after the oldest node is gone.
  abbrev evicted : LruMap K V
  evicted = record m {
    table = with_list m.table (hash_func k % m.capacity) (unlink k (list_of hash_func m k));
    lru = keys a;
    released = m.released ++ v ∷ [];
    size = m.size - 1;
  }

  pub evict_head : evict hash_func m ≡ some evicted
  unfolding evict list_of
  evict_head =
      rw
        (
          evict,
          h.order,
          delete_found hash_func (record m { lru = keys a }) k v head_found,
          remove_node_absent k a h.unique.0,
        )
        refl

  pub evict-Holds : Holds hash_func evicted a
  evict-Holds =
      rw unlink_head at
        (removed-Holds hash_func m ((k, v) ∷ a) h evicted k refl refl (rw unlink_head refl))

module _ {K V : Type 0} ⦃key : Key K⦄ (hash_func : K → ℕ) where
  evict_if_over_within : (m : LruMap K V) → m.size ≤ m.lru_size → evict_if_over hash_func m ≡ some m
  unfolding evict_if_over
  evict_if_over_within m le = ground (arith, le)

  evict_if_over_over :
      (m : LruMap K V) → m.lru_size < m.size → evict_if_over hash_func m ≡ evict hash_func m
  unfolding evict_if_over
  evict_if_over_over m lt = ground (arith, lt)

  -- Trimming a map that is over by at most one entry: it keeps all or drops the oldest.
  trimmed_over :
      (m : LruMap K V) (b : List (K × V))
      → Holds hash_func m b
      → m.size ≡ length b
      → length b ≡ m.lru_size + 1
      → (m' : LruMap K V) × (evict_if_over hash_func m ≡ some m')
        × Sound hash_func m' (drop_oldest b)
  trimmed_over m [] h c over = let no : ⊥ = omega (arith, over) in elim no [ ]
  trimmed_over m ((k, v) ∷ b) h c over = (
    evicted hash_func m k v b h,
    evict_if_over_over m (omega (arith, c, over)) ∙ evict_head hash_func m k v b h,
    record {
      holds = evict-Holds hash_func m k v b h;
      counted = omega (arith, c);
      bounded = omega (arith, over);
    },
  )

  -- The outcome of Update for an entry that is new.
  added :
      (m : LruMap K V) (b : List (K × V))
      → Holds hash_func m b
      → m.size ≡ length b
      → length b ≤ m.lru_size + 1
      → (m' : LruMap K V) × (elim (evict_if_over hash_func m) [
        | none ↦ none
        | some n ↦ evict_if_over hash_func n
      ]
          ≡ some m')
        × Sound hash_func m' (if ltb m.lru_size (length b) then drop_oldest b else b)
  added m b h c le = elim (Bool-cases (ltb m.lru_size (length b))) [
    | inl over ↦
        let t = trimmed_over m b h c (ground (arith, over, le)) in
        (
          t.0,
          rw t.1 (evict_if_over_within t.0 (omega (arith, t.2.counted, t.2.bounded))),
          rw over t.2,
        )
    | inr within ↦
        let e = evict_if_over_within m (ground (arith, within, c)) in
        (m, rw e e, rw within (record { holds = h; counted = c; bounded = ground (arith, within) }))
  ]

  updated_new :
      (limit : ℕ) (k : K) (v : V) (a : List (K × V))
      → lookup k a ≡ none
      → updated limit k v a ≡ (
          if ltb limit (length (a ++ (k, v) ∷ []))
          then drop_oldest (a ++ (k, v) ∷ [])
          else a ++ (k, v) ∷ [])
  updated_new limit k v a absent = rw (updated, absent) refl

  updated_known :
      (limit : ℕ) (k : K) (old v : V) (a : List (K × V))
      → lookup k a ≡ some old
      → updated limit k v a ≡ used k v a
  updated_known limit k old v a here = rw (updated, here) refl

  length-used :
      (k : K) (old v : V) (a : List (K × V))
      → lookup k a ≡ some old
      → length (used k v a) ≡ length a
  length-used k old v a here = length-append (unlink k a) ((k, v) ∷ []) ∙ length-unlink k old a here

  -- Update on a map that holds `a` in the order of use and counts it rightly ends without touching
  -- the sentinel, and the map then holds what the specification makes of `a`: a known key is moved
  -- to the end with its new value, a new one is added there and, over the size, the oldest entry
  -- leaves. The count is right again and within the size.
  pub update-Sound :
      (m : LruMap K V) (a : List (K × V)) (k : K) (v : V)
      → Sound hash_func m a
      → (m' : LruMap K V) × (update hash_func m k v ≡ some m')
        × Sound hash_func m' (updated m.lru_size k v a)
  unfolding add_node replace
  update-Sound m a k v s = elim (Option-cases (lookup k a)) [
    | inl absent ↦
        let e = update_missed hash_func m k v (s.holds.find k ∙ absent) in
        let l : length (a ++ (k, v) ∷ []) ≡ length a + 1 = length-append a ((k, v) ∷ []) in
        rw (e, updated_new m.lru_size k v a absent)
          (added (add_node hash_func m k v) (a ++ (k, v) ∷ [])
            (add_node-Holds hash_func m a s.holds k v absent) (ground (arith, l, s.counted))
            (ground (arith, l, s.bounded)))
    | inr (old, here) ↦
        rw
          (
            update_found hash_func m k old v (s.holds.find k ∙ here),
            updated_known m.lru_size k old v a here,
          )
          (
            replace hash_func m k old v,
            refl,
            record {
              holds = replace-Holds hash_func m a s.holds k old v here;
              counted = s.counted ∙ sym (length-used k old v a here);
              bounded = ground (arith, length-used k old v a here, s.bounded);
            },
          )
  ]
