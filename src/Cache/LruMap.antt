-- ===== src/Cache/LruMap.antt =====
-- polaris/cache/lru_map.h: LruHashMap. A node stands in the probe list of its hash and in the LRU
-- list, and the walk over a probe list is `lookup`; keys are unique, so the LRU list is a list of keys, the oldest first. A pointer to a value
-- is an element of `V`, and `released` and `retained` record what the deallocator and the allocator
-- were called on. Each method holds its locks throughout, and is one step.
pub mod Probe
pub mod Refinement
pub mod Update
pub mod Drift
use polaris_cpp.Base.{
  ℕ, zero, suc, ◌+◌, ◌-◌, ◌/◌, ◌%◌, ◌≡◌, Bool, true, false, Option, none, some, List, [], ◌∷◌, ◌++◌,
  map, Key, ite, lookup, ltb, ◌==◌, if◌then◌else◌,
}

-- The hash of a key is the index of its probe list, below `capacity_`.
pub record LruMap (K V : Type 0) : Type 0 where
  pub lru_size : ℕ
  pub capacity : ℕ
  pub table : ℕ → List (K × V)
  pub size : ℕ
  pub lru : List K
  pub retained : List V
  pub released : List V

module _ {K V : Type 0} where
  unfoldable pub new : ℕ → LruMap K V
  new lru_size = record {
    lru_size = lru_size;
    capacity = lru_size + lru_size / 4;
    table = λ i. [];
    size = 0;
    lru = [];
    retained = [];
    released = [];
  }

  unfoldable pub with_list : (ℕ → List (K × V)) → ℕ → List (K × V) → ℕ → List (K × V)
  with_list table i list j = if j == i then list else table j

  -- GetAllValuesWithRef: all probe lists from index `i` on, `n` of them.
  unfoldable pub all_values : (ℕ → List (K × V)) → ℕ → ℕ → List V
  all_values table i zero = []
  all_values table i (suc n) = map (λ e. e.1) (table i) ++ all_values table (i + 1) n

  unfoldable pub get_all_values_with_ref : LruMap K V → List V × LruMap K V
  unfolding all_values
  get_all_values_with_ref m =
      let vs = all_values m.table 0 m.capacity in (vs, record m { retained = m.retained ++ vs })

module _ {K V : Type 0} ⦃key : Key K⦄ where
  -- `node->value_ = value` at the first node of the key.
  unfoldable pub assign : K → V → List (K × V) → List (K × V)
  assign k v [] = []
  assign k v ((j, w) ∷ l) = ite (key.dec j k) ((j, v) ∷ l) ((j, w) ∷ assign k v l)

  -- `*pre = node->probe_next_` at the first node of the key.
  unfoldable pub unlink : K → List (K × V) → List (K × V)
  unlink k [] = []
  unlink k ((j, w) ∷ l) = ite (key.dec j k) l ((j, w) ∷ unlink k l)

module _ {K : Type 0} ⦃key : Key K⦄ where
  -- RemoveNode on the LRU list; a node that is in no LRU list any more stays as it is.
  unfoldable pub remove_node : K → List K → List K
  remove_node k [] = []
  remove_node k (j ∷ l) = ite (key.dec j k) l (j ∷ remove_node k l)

  unfoldable pub add_to_end : K → List K → List K
  add_to_end k l = l ++ k ∷ []

  -- MoveToEnd of a node that the LRU list has.
  unfoldable pub move_to_end : K → List K → List K
  unfolding remove_node add_to_end
  move_to_end k l = add_to_end k (remove_node k l)

module _ {K V : Type 0} ⦃key : Key K⦄ (hash_func : K → ℕ) where
  unfoldable pub list_of : LruMap K V → K → List (K × V)
  list_of m k = m.table (hash_func k % m.capacity)

  -- Get.
  unfoldable pub get : LruMap K V → K → Option V × LruMap K V
  unfolding list_of lookup move_to_end
  get m k = elim (lookup k (list_of m k)) [
    | none ↦ (none, m)
    | some v ↦ (some v, record m { lru = move_to_end k m.lru; retained = m.retained ++ v ∷ [] })
  ]

  -- Delete.
  unfoldable pub delete : LruMap K V → K → Bool × LruMap K V
  unfolding list_of lookup unlink remove_node with_list
  delete m k = elim (lookup k (list_of m k)) [
    | none ↦ (false, m)
    | some v ↦ (
      true,
      record m {
        table = with_list m.table (hash_func k % m.capacity) (unlink k (list_of m k));
        lru = remove_node k m.lru;
        released = m.released ++ v ∷ [];
      },
    )
  ]

  -- Evict. With an empty LRU list the head is the sentinel, which RemoveHead takes out of its own
  -- ring and whose key was never set: `none`.
  unfoldable pub evict : LruMap K V → Option (LruMap K V)
  unfolding delete
  evict m = elim m.lru [
    | [] ↦ none
    | k ∷ rest ↦
        let r = delete (record m { lru = rest }) k in
        some (if r.0 then record (r.1) { size = r.1.size - 1 } else r.1)
  ]

  unfoldable pub evict_if_over : LruMap K V → Option (LruMap K V)
  unfolding evict
  evict_if_over m = let r = evict m in if ltb m.lru_size m.size then r else some m

  -- Update, for a key that has a node and for one that has none.
  unfoldable pub replace : LruMap K V → K → V → V → LruMap K V
  unfolding list_of assign move_to_end with_list
  replace m k old v = record m {
    table = with_list m.table (hash_func k % m.capacity) (assign k v (list_of m k));
    lru = move_to_end k m.lru;
    released = m.released ++ old ∷ [];
  }

  unfoldable pub add_node : LruMap K V → K → V → LruMap K V
  unfolding list_of add_to_end with_list
  add_node m k v = record m {
    table = with_list m.table (hash_func k % m.capacity) ((k, v) ∷ list_of m k);
    lru = add_to_end k m.lru;
    size = m.size + 1;
  }

  unfoldable pub update : LruMap K V → K → V → Option (LruMap K V)
  unfolding lookup list_of replace add_node
  update m k v = elim (lookup k (list_of m k)) [
    | some old ↦ some (replace m k old v)
    | none ↦ (elim (evict_if_over (add_node m k v)) [ none ↦ none | some m' ↦ evict_if_over m' ])
  ]
