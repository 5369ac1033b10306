-- ===== src/Cache/LruMap/Drift.antt =====
-- LruHashMap::Delete as a caller uses it: `size_` stays.
use polaris_cpp.Base.{ℕ, ◌+◌, ◌≡◌, ◌∙◌, some, List, Key, lookup, length, arith}
use polaris_cpp.Cache.LruMap.{LruMap, unlink, delete}
use polaris_cpp.Cache.LruMap.Probe.{length-unlink}
use polaris_cpp.Cache.LruMap.Refinement.{Holds, delete_found, delete-Holds}
use polaris_cpp.Cache.LruMap.Update.{Sound}

module _ {K V : Type 0} ⦃key : Key K⦄ (hash_func : K → ℕ) where
  -- Deleting a key that a sound map holds takes its entry out of the table and the order of use, and
  -- leaves the counter one above the number of entries: only Evict counts down.
  pub delete_drifts :
      (m : LruMap K V) (a : List (K × V)) (k : K) (v : V)
      → Sound hash_func m a
      → lookup k a ≡ some v
      → let m' = (delete hash_func m k).1 in
        Holds hash_func m' (unlink k a) × (m'.size ≡ length (unlink k a) + 1)
  delete_drifts m a k v s here = (
    (delete-Holds hash_func m a s.holds k).1,
    rw (delete_found hash_func m k v (s.holds.find k ∙ here))
        (ground (arith, s.counted, length-unlink k v a here)),
  )
