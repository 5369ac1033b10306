-- ===== src/LoadBalancer/CircularQueue.antt =====
-- polaris/plugin/load_balancer/locality_aware/circular_queue.h: CircularQueue, a ring of fixed
-- capacity. `items_` is a function of the index, and the `uint32_t` fields are 32-bit patterns.
pub mod Refinement
pub mod History
use polaris_cpp.Base.{
  ℕ, zero, suc, ◌+◌, ◌-◌, ◌%◌, ◌^◌, Bool, true, false, Option, none, some, ◌==◌, ltb, leb, add32,
  sub32, if◌then◌else◌,
}

pub record CircularQueue (A : Type 0) : Type 0 where
  pub count : ℕ
  pub cap : ℕ
  pub start : ℕ
  pub items : ℕ → A

-- Mod: the loop that subtracts the capacity, on fuel. Each round takes at least 1 off, so `off` is
-- fuel enough for any capacity but 0, where the C++ loop has no end.
unfoldable pub mod_loop : ℕ → ℕ → ℕ → ℕ
mod_loop zero off modulus = off
mod_loop (suc fuel) off modulus =
    if leb modulus off then mod_loop fuel (off - modulus) modulus else off

unfoldable pub mod_ : ℕ → ℕ → ℕ
mod_ off modulus = mod_loop off off modulus

unfoldable pub write_at : {A : Type 0} → (ℕ → A) → ℕ → A → ℕ → A
write_at items i x j = if j == i then x else items j

module _ {A : Type 0} where
  -- The constructor; `new T[queue_size]` gives some elements.
  unfoldable pub new : (ℕ → A) → ℕ → CircularQueue A
  new items queue_size = record { count = 0; cap = queue_size % 2 ^ 32; start = 0; items = items }

  unfoldable pub push : CircularQueue A → A → Bool × CircularQueue A
  unfolding mod_ write_at
  push q x =
      if ltb q.count q.cap
      then (
        true,
        record q {
          items = write_at q.items (mod_ (add32 q.start q.count) q.cap) x;
          count = add32 q.count 1;
        },
      )
      else (false, q)

  unfoldable pub elim_push : CircularQueue A → A → CircularQueue A
  unfolding mod_ write_at
  elim_push q x =
      if ltb q.count q.cap
      then record q {
        items = write_at q.items (mod_ (add32 q.start q.count) q.cap) x;
        count = add32 q.count 1;
      }
      else record q { items = write_at q.items q.start x; start = mod_ (add32 q.start 1) q.cap }

  unfoldable pub pop : CircularQueue A → Bool × CircularQueue A
  unfolding mod_
  pop q =
      if q.count == 0
      then (false, q)
      else (true, record q { count = sub32 q.count 1; start = mod_ (add32 q.start 1) q.cap })

  unfoldable pub clear : CircularQueue A → CircularQueue A
  clear q = record q { count = 0; start = 0 }

  unfoldable pub top : CircularQueue A → Option A
  top q = if q.count == 0 then none else some (q.items q.start)

  unfoldable pub bottom : CircularQueue A → Option A
  unfolding mod_
  bottom q =
      if q.count == 0 then none else some (q.items (mod_ (sub32 (add32 q.start q.count) 1) q.cap))

  unfoldable pub full : CircularQueue A → Bool
  full q = q.cap == q.count
