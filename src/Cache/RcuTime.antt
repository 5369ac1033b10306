-- ===== src/Cache/RcuTime.antt =====
-- polaris/cache/rcu_time.{h,cpp}: ThreadTimeMgr, which knows when each thread entered the cache. The
-- set of ThreadTime records is keyed by the thread whose specific pointer leads to the record.
pub mod Safety
use polaris_cpp.Base.{
  ℕ, ◌-◌, ◌^◌, Option, none, some, List, [], ◌∷◌, Key, nat_key, lookup, insert, erase, ltb,
  if◌then◌else◌,
}

-- Time::kMaxTime.
abbrev pub max_time : ℕ
max_time = 2 ^ 64 - 1

abbrev pub ThreadTimes : Type 0
ThreadTimes = List (ℕ × ℕ)

-- RcuEnter of a thread: it stores the time, or makes its record and puts it into the set.
unfoldable pub rcu_enter : ℕ → ℕ → ThreadTimes → ThreadTimes
rcu_enter thread now times = elim (lookup thread times) [
  | some _ ↦ insert thread now times
  | none ↦ insert thread now times
]

unfoldable pub rcu_exit : ℕ → ThreadTimes → ThreadTimes
rcu_exit thread times = elim (lookup thread times) [
  | some _ ↦ insert thread max_time times
  | none ↦ times
]

-- OnThreadExit, which is called for a thread that has a record.
unfoldable pub on_thread_exit : ℕ → ThreadTimes → ThreadTimes
on_thread_exit thread times = erase thread times

-- MinTime at a time, as the loop over the set.
unfoldable pub min_time : ℕ → ThreadTimes → ℕ
min_time min [] = min
min_time min ((_, thread_time) ∷ times) =
    min_time (if ltb thread_time min then thread_time else min) times
