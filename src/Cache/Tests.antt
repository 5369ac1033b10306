-- ===== src/Cache/Tests.antt =====
-- The theorems on the maps at concrete inputs.
use polaris_cpp.Base.{
  ℕ, ◌+◌, ◌≤◌, ◌≡◌, refl, true, some, List, [], ◌∷◌, arith, nat_key, lookup, length, IsUnique,
  ℕ_discrete, ◌==◌, Bool-cases, inl, inr, if◌then◌else◌,
}
use polaris_cpp.Cache.RcuTime.{min_time}
use polaris_cpp.Cache.RcuTime.Safety.{Event, enter, exit, inside, min_time_safe, min_time_tight}
use polaris_cpp.Cache.RcuTime.Safety as Threads
use polaris_cpp.Cache.LruMap
use polaris_cpp.Cache.LruMap.{LruMap, list_of, unlink}
use polaris_cpp.Cache.LruMap.Refinement.{Holds}
use polaris_cpp.Cache.LruMap.Update.{Sound, updated, update-Sound}
use polaris_cpp.Cache.LruMap.Drift.{delete_drifts}
use polaris_cpp.Cache.RcuMap
use polaris_cpp.Cache.RcuMap.{RcuMap, MapValue}
use polaris_cpp.Cache.RcuMap.Laws.{IsValid, view, get_correct}
use polaris_cpp.Cache.RcuMap.Writes.{Sets, update-Sets}

-- Every key has the same hash.
abbrev hash : ℕ → ℕ
hash k = 0

abbrev entries : List (ℕ × ℕ)
entries = (4, 40) ∷ (7, 70) ∷ []

abbrev lists : ℕ → List (ℕ × ℕ)
lists i = if i == 0 then entries else []

abbrev full_map : LruMap ℕ ℕ
full_map = record {
  lru_size = 2;
  capacity = 2;
  table = lists;
  size = 2;
  lru = 4 ∷ 7 ∷ [];
  retained = [];
  released = [];
}

entries-IsUnique : IsUnique entries
unfolding lookup ℕ_discrete
entries-IsUnique = (refl, (refl, tt))

full_map-Sound : Sound hash full_map entries
unfolding list_of
full_map-Sound = record {
  holds = record {
    order = refl;
    find = λ k. refl;
    unique = entries-IsUnique;
    placed = λ i. elim (Bool-cases (i == 0)) [
      | inl first ↦ rw first entries-IsUnique
      | inr other ↦ rw other tt
    ];
  };
  counted = refl;
  bounded = omega arith;
}

update-Sound_example :
    (m' : LruMap ℕ ℕ) × (LruMap.update hash full_map 9 90 ≡ some m')
    × Sound hash m' (updated 2 9 90 entries)
update-Sound_example = update-Sound hash full_map entries 9 90 full_map-Sound

is_there : lookup 7 entries ≡ some 70
unfolding lookup ℕ_discrete
is_there = refl

delete_drifts_example :
    let m' = (LruMap.delete hash full_map 7).1 in
    Holds hash m' (unlink 7 entries) × (m'.size ≡ length (unlink 7 entries) + 1)
delete_drifts_example = delete_drifts hash full_map entries 7 70 full_map-Sound is_there

-- Key 4 is in both maps, key 7 in the dirty one only.
abbrev two_keys : RcuMap ℕ ℕ
two_keys = record {
  cells = λ c. record { value = c + 40; used_time = 1 };
  next_cell = 2;
  read_map = (4, 0) ∷ [];
  dirty_map = (7, 1) ∷ (4, 0) ∷ [];
  miss_time = 0;
  dirty_flag = true;
  deleted_value_list = [];
  deleted_map_list = [];
}

two_keys-IsValid : IsValid two_keys
unfolding lookup ℕ_discrete
two_keys-IsValid = record {
  shared = λ k c e. ground (arith, e);
  clean = λ f k e. ground (arith, f);
  own = λ j k c e f. ground (arith, e, f);
  handed_out = λ k c e. ground (arith, e);
}

get_correct_example :
    let r = RcuMap.get two_keys 7 5 in
    (r.0 ≡ view two_keys 7) × ((j : ℕ) → view r.1 j ≡ view two_keys j) × IsValid r.1
get_correct_example = get_correct two_keys 7 5 two_keys-IsValid

update-Sets_example : Sets two_keys 4 (some 9) (RcuMap.update two_keys 4 9 5)
update-Sets_example = update-Sets two_keys 4 9 5 two_keys-IsValid

-- Thread 1 is inside since 5; thread 2 entered at 3 and left.
abbrev threads : List Event
threads = exit 2 ∷ enter 1 5 ∷ enter 2 3 ∷ []

min_time_safe_example : min_time 9 (Threads.run threads) ≤ 5
unfolding ℕ_discrete
min_time_safe_example = min_time_safe threads 9 1 5 refl
