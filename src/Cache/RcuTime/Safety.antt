-- ===== src/Cache/RcuTime/Safety.antt =====
-- MinTime against the threads that are inside the cache.
use polaris_cpp.Base.{
  ℕ, ◌≤◌, ◌<◌, ◌≡◌, ◌⊎◌, inl, inr, refl, Option, none, some, List, [], ◌∷◌, nat_key, lookup, insert,
  ltb, arith, IsUnique, insert-IsUnique, erase-IsUnique, lookup-insert, lookup-erase, Bool-cases,
  Option-cases, ℕ_discrete, ite,
}
use polaris_cpp.Cache.RcuTime.{max_time, ThreadTimes, rcu_enter, rcu_exit, on_thread_exit, min_time}

-- What a thread does, the last event first.
pub data Event : Type 0 where
  enter : ℕ → ℕ → Event
  exit : ℕ → Event
  thread_exit : ℕ → Event

abbrev pub run : List Event → ThreadTimes
run [] = []
run (enter t now ∷ es) = rcu_enter t now (run es)
run (exit t ∷ es) = rcu_exit t (run es)
run (thread_exit t ∷ es) = on_thread_exit t (run es)

-- When a thread that is inside the cache entered it.
abbrev pub inside : ℕ → List Event → Option ℕ
inside t [] = none
inside t (enter u now ∷ es) = ite (ℕ_discrete u t) (some now) (inside t es)
inside t (exit u ∷ es) = ite (ℕ_discrete u t) none (inside t es)
inside t (thread_exit u ∷ es) = ite (ℕ_discrete u t) none (inside t es)

enter_inserts : (t now : ℕ) (times : ThreadTimes) → rcu_enter t now times ≡ insert t now times
unfolding rcu_enter
enter_inserts t now times = elim (Option-cases (lookup t times)) [
  | inl e ↦ rw (rcu_enter, e) refl
  | inr (x, e) ↦ rw (rcu_enter, e) refl
]

rcu_exit-IsUnique : (t : ℕ) (times : ThreadTimes) → IsUnique times → IsUnique (rcu_exit t times)
unfolding rcu_exit
rcu_exit-IsUnique t times u = elim (Option-cases (lookup t times)) [
  | inl e ↦ rw (rcu_exit, e) u
  | inr (x, e) ↦ rw (rcu_exit, e) (insert-IsUnique t max_time times u)
]

run-IsUnique : (es : List Event) → IsUnique (run es)
unfolding on_thread_exit
run-IsUnique [] = tt
run-IsUnique (enter t now ∷ es) =
    rw (enter_inserts t now (run es)) (insert-IsUnique t now (run es) (run-IsUnique es))
run-IsUnique (exit t ∷ es) = rcu_exit-IsUnique t (run es) (run-IsUnique es)
run-IsUnique (thread_exit t ∷ es) = erase-IsUnique t (run es) (run-IsUnique es)

inside_stored :
    (t time : ℕ) (es : List Event) → inside t es ≡ some time → lookup t (run es) ≡ some time
unfolding rcu_enter rcu_exit on_thread_exit
inside_stored t time [] h = ground (arith, h)
inside_stored t time (enter u now ∷ es) h =
    ground (arith, h, inside_stored t time es, lookup-insert u t now (run es))
inside_stored t time (exit u ∷ es) h =
    ground (arith, h, inside_stored t time es, lookup-insert u t max_time (run es))
inside_stored t time (thread_exit u ∷ es) h =
    ground (arith, h, inside_stored t time es, lookup-erase u t (run es))

stored_inside :
    (t time : ℕ) (es : List Event)
    → time < max_time
    → lookup t (run es) ≡ some time
    → inside t es ≡ some time
unfolding rcu_enter rcu_exit on_thread_exit lookup
stored_inside t time [] lt h = ground (arith, h)
stored_inside t time (enter u now ∷ es) lt h =
    ground (arith, h, lt, stored_inside t time es lt, lookup-insert u t now (run es))
stored_inside t time (exit u ∷ es) lt h =
    ground (arith, h, lt, stored_inside t time es lt, lookup-insert u t max_time (run es))
stored_inside t time (thread_exit u ∷ es) lt h =
    ground (arith, h, lt, stored_inside t time es lt, lookup-erase u t (run es))

min_time_le : (min : ℕ) (times : ThreadTimes) → min_time min times ≤ min
unfolding min_time
min_time_le min [] = omega arith
min_time_le min ((u, x) ∷ times) = ground (arith, min_time_le x times, min_time_le min times)

min_time-lookup :
    (min t time : ℕ) (times : ThreadTimes) → lookup t times ≡ some time → min_time min times ≤ time
unfolding min_time lookup
min_time-lookup min t time [] h = ground (arith, h)
min_time-lookup min t time ((u, x) ∷ times) h = ground (
  arith,
  h,
  min_time_le x times,
  min_time_le min times,
  min_time-lookup x t time times,
  min_time-lookup min t time times,
)

min_time_from :
    (min : ℕ) (times : ThreadTimes)
    → IsUnique times
    → (min_time min times ≡ min) ⊎ ((t : ℕ) × (lookup t times ≡ some (min_time min times)))
unfolding min_time lookup
min_time_from min [] u = inl refl
min_time_from min ((v, x) ∷ times) u = elim (Bool-cases (ltb x min)) [
  | inl e ↦ rw e (elim (min_time_from x times u.1) [
    | inl same ↦ inr (v, ground (arith, same))
    | inr (t, found) ↦ inr (t, ground (arith, found, u.0))
  ])
  | inr e ↦ rw e (elim (min_time_from min times u.1) [
    | inl same ↦ inl same
    | inr (t, found) ↦ inr (t, ground (arith, found, u.0))
  ])
]

-- Whatever the threads did, MinTime is at most the time at which any thread that is still inside
-- entered, so that no reader's data pass for unused.
pub min_time_safe :
    (es : List Event) (now t time : ℕ) → inside t es ≡ some time → min_time now (run es) ≤ time
min_time_safe es now t time h = min_time-lookup now t time (run es) (inside_stored t time es h)

-- And it is no earlier than it must be: it is the current time, or the time at which some thread
-- that is still inside entered.
pub min_time_tight :
    (es : List Event) (now : ℕ)
    → now < max_time
    → (min_time now (run es) ≡ now) ⊎ ((t : ℕ) × (inside t es ≡ some (min_time now (run es))))
min_time_tight es now lt = elim (min_time_from now (run es) (run-IsUnique es)) [
  | inl e ↦ inl e
  | inr (t, found) ↦ inr (
    t,
    stored_inside t (min_time now (run es)) es (omega (arith, lt, min_time_le now (run es))) found,
  )
]
