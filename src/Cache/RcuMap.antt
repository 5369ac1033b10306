-- ===== src/Cache/RcuMap.antt =====
-- polaris/cache/rcu_unordered_map.h: RcuUnorderedMap, a map for reading without a lock and one for
-- writing. Both hold pointers to shared MapValue cells, so cells stand in a store and the maps hold
-- addresses. A method is one step at one reading of the clock; a reader that holds an old read map
-- is not modelled, and CheckGc drops what its argument says no reader holds.
pub mod Laws
pub mod Writes
pub mod Deletes
use polaris_cpp.Base.{
  ℕ, ◌+◌, ◌≡◌, ◌≢◌, Bool, true, false, Option, none, some, List, [], ◌∷◌, ◌++◌, Key, lookup, insert,
  erase, length, ◌==◌, ltb, leb, if◌then◌else◌,
}

pub record MapValue (V : Type 0) : Type 0 where
  pub value : V
  pub used_time : ℕ

abbrev pub InnerMap : Type 0 → Type 0
InnerMap K = List (K × ℕ)

pub record RcuMap (K V : Type 0) : Type 0 where
  pub cells : ℕ → MapValue V
  pub next_cell : ℕ
  pub read_map : InnerMap K
  pub dirty_map : InnerMap K
  pub miss_time : ℕ
  pub dirty_flag : Bool
  pub deleted_value_list : List (ℕ × V)
  pub deleted_map_list : List (ℕ × InnerMap K)

module _ {V : Type 0} where
  unfoldable pub write_cell : (ℕ → MapValue V) → ℕ → MapValue V → ℕ → MapValue V
  write_cell cells c x d = if d == c then x else cells d

  -- `deleted_value_list_.insert`: a multimap, behind the entries of the same time.
  unfoldable pub put_deleted : ℕ → V → List (ℕ × V) → List (ℕ × V)
  put_deleted t v [] = (t, v) ∷ []
  put_deleted t v ((u, w) ∷ l) = if ltb t u then (t, v) ∷ (u, w) ∷ l else (u, w) ∷ put_deleted t v l

module _ {A : Type 0} where
  -- The two loops of CheckGc: entries leave at the front while they are older.
  unfoldable pub drop_older : ℕ → List (ℕ × A) → List (ℕ × A)
  drop_older min_delete_time [] = []
  drop_older min_delete_time ((t, x) ∷ l) =
      if leb min_delete_time t then (t, x) ∷ l else drop_older min_delete_time l

module _ {K V : Type 0} where
  -- The constructor; the store's first contents are never read.
  unfoldable pub new : (ℕ → MapValue V) → RcuMap K V
  new cells = record {
    cells = cells;
    next_cell = 0;
    read_map = [];
    dirty_map = [];
    miss_time = 0;
    dirty_flag = false;
    deleted_value_list = [];
    deleted_map_list = [];
  }

  unfoldable pub touch : RcuMap K V → ℕ → ℕ → RcuMap K V
  unfolding write_cell
  touch m c now = record m { cells = write_cell m.cells c (record (m.cells c) { used_time = now }) }

  -- CheckSwapInLock.
  unfoldable pub check_swap : RcuMap K V → ℕ → RcuMap K V
  check_swap m now = if ltb m.miss_time (length m.dirty_map) then m else record m {
    read_map = m.dirty_map;
    deleted_map_list = m.deleted_map_list ++ (now, m.read_map) ∷ [];
    miss_time = 0;
    dirty_flag = false;
  }

  -- A new cell for a key that the dirty map does not have.
  unfoldable pub add_key : RcuMap K V → K → V → ℕ → RcuMap K V
  unfolding write_cell
  add_key m k v now = record m {
    cells = write_cell m.cells m.next_cell (record { value = v; used_time = now });
    next_cell = m.next_cell + 1;
    dirty_map = (k, m.next_cell) ∷ m.dirty_map;
    dirty_flag = true;
  }

  -- A new value in the cell that both maps may share.
  unfoldable pub write_value : RcuMap K V → ℕ → V → ℕ → RcuMap K V
  unfolding write_cell put_deleted
  write_value m c v now = record m {
    cells = write_cell m.cells c (record { value = v; used_time = now });
    deleted_value_list = put_deleted now (m.cells c).value m.deleted_value_list;
  }

  -- CheckGc.
  unfoldable pub check_gc : RcuMap K V → ℕ → RcuMap K V
  unfolding drop_older
  check_gc m min_delete_time = record m {
    deleted_value_list = drop_older min_delete_time m.deleted_value_list;
    deleted_map_list = drop_older min_delete_time m.deleted_map_list;
  }

  -- CheckExpired, GetAllValues and GetAllData walk the dirty map.
  unfoldable pub expired_in : (ℕ → MapValue V) → ℕ → InnerMap K → List K
  expired_in cells min_access_time [] = []
  expired_in cells min_access_time ((k, c) ∷ l) =
      let rest = expired_in cells min_access_time l in
      if leb (cells c).used_time min_access_time then k ∷ rest else rest

  unfoldable pub check_expired : RcuMap K V → ℕ → List K
  unfolding expired_in
  check_expired m min_access_time = expired_in m.cells min_access_time m.dirty_map

  unfoldable pub data_in : (ℕ → MapValue V) → InnerMap K → List (K × V)
  data_in cells [] = []
  data_in cells ((k, c) ∷ l) = (k, (cells c).value) ∷ data_in cells l

  unfoldable pub get_all_data : RcuMap K V → List (K × V)
  unfolding data_in
  get_all_data m = data_in m.cells m.dirty_map

module _ {K V : Type 0} ⦃key : Key K⦄ where
  -- The part of Get under the lock, by what the dirty map answers.
  unfoldable pub get_dirty : RcuMap K V → Option ℕ → ℕ → Option V × RcuMap K V
  unfolding touch check_swap
  get_dirty m none now = (none, m)
  get_dirty m (some c) now =
      let m' = touch m c now in
      (some (m.cells c).value, check_swap (record m' { miss_time = m.miss_time + 1 }) now)

  unfoldable pub get_read : RcuMap K V → K → Option ℕ → ℕ → Option V × RcuMap K V
  get_read m k (some c) now = (some (m.cells c).value, touch m c now)
  get_read m k none now = if m.dirty_flag then get_dirty m (lookup k m.dirty_map) now else (none, m)

  -- Get and GetWithRcuTime.
  unfoldable pub get : RcuMap K V → K → ℕ → Option V × RcuMap K V
  unfolding get_read get_dirty
  get m k now = get_read m k (lookup k m.read_map) now

  unfoldable pub update_at : RcuMap K V → K → V → ℕ → Option ℕ → RcuMap K V
  unfolding write_value add_key
  update_at m k v now (some c) = write_value m c v now
  update_at m k v now none = add_key m k v now

  -- Update with a value.
  unfoldable pub update : RcuMap K V → K → V → ℕ → RcuMap K V
  unfolding update_at
  update m k v now = update_at m k v now (lookup k m.dirty_map)

  unfoldable pub update_if_at :
      RcuMap K V → K → (Option V → V) → (V → Bool) → ℕ → Option ℕ → V × RcuMap K V
  update_if_at m k updater predicate now none = let v = updater none in (v, add_key m k v now)
  update_if_at m k updater predicate now (some c) =
      let old = (m.cells c).value in
      let v = updater (some old) in if predicate old then (v, write_value m c v now) else (old, m)

  -- Update with an updater and a predicate.
  unfoldable pub update_if : RcuMap K V → K → (Option V → V) → (V → Bool) → ℕ → V × RcuMap K V
  unfolding update_if_at
  update_if m k updater predicate now =
      update_if_at m k updater predicate now (lookup k m.dirty_map)

  unfoldable pub create_at : RcuMap K V → K → Option V → ℕ → Option ℕ → Option V × RcuMap K V
  create_at m k created now (some c) = (some (m.cells c).value, m)
  create_at m k none now none = (none, m)
  create_at m k (some v) now none = (some v, add_key m k v now)

  -- CreateOrGet; the creator may give no value.
  unfoldable pub create_or_get : RcuMap K V → K → Option V → ℕ → Option V × RcuMap K V
  unfolding create_at
  create_or_get m k created now = create_at m k created now (lookup k m.dirty_map)

module _ {K : Type 0} ⦃key : Key K⦄ where
  -- The loop of Delete: whether a key was there, and the dirty map without the keys.
  unfoldable pub delete_loop : List K → InnerMap K → Bool × InnerMap K
  delete_loop [] l = (false, l)
  delete_loop (k ∷ ks) l =
      let rest = delete_loop ks (erase k l) in
      (elim (lookup k l) [ none ↦ rest.0 | some c ↦ true ], rest.1)

module _ {K V : Type 0} ⦃key : Key K⦄ where
  -- Delete. The new read map is a copy of the dirty one.
  unfoldable pub delete : RcuMap K V → List K → ℕ → RcuMap K V
  unfolding delete_loop
  delete m keys now =
      let r = delete_loop keys m.dirty_map in
      if r.0
      then record m {
        dirty_map = r.1;
        read_map = r.1;
        deleted_map_list = m.deleted_map_list ++ (now, m.read_map) ∷ [];
        miss_time = 0;
        dirty_flag = false;
      }
      else record m { dirty_map = r.1 }
