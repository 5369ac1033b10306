-- ===== src/LoadBalancer/CircularQueue/History.antt =====
-- Any series of calls to a CircularQueue.
use polaris_cpp.Base.{ℕ, ◌≡◌, refl, ◌∙◌, List, [], ◌∷◌, ◌++◌, ltb, length, if◌then◌else◌, arith}
use polaris_cpp.LoadBalancer.CircularQueue.{CircularQueue, push, elim_push, pop, clear}
use polaris_cpp.LoadBalancer.CircularQueue.Refinement.{
  view, contents, IsValid, drop_head, push-view, elim_push-view, pop-view,
}

pub data Call (A : Type 0) : Type 0 where
  pushes elim_pushes : A → Call A
  pops clears : Call A

unfoldable pub run : {A : Type 0} → CircularQueue A → List (Call A) → CircularQueue A
run q [] = q
run q (Call.pushes x ∷ cs) = run (push q x).1 cs
run q (Call.elim_pushes x ∷ cs) = run (elim_push q x) cs
run q (Call.pops ∷ cs) = run (pop q).1 cs
run q (Call.clears ∷ cs) = run (clear q) cs

-- The same calls on a list of at most `bound` elements, oldest first.
abbrev pub run_list : {A : Type 0} → ℕ → List A → List (Call A) → List A
run_list bound xs [] = xs
run_list bound xs (Call.pushes x ∷ cs) =
    run_list bound (if ltb (length xs) bound then xs ++ x ∷ [] else xs) cs
run_list bound xs (Call.elim_pushes x ∷ cs) =
    run_list bound ((if ltb (length xs) bound then xs else drop_head xs) ++ x ∷ []) cs
run_list bound xs (Call.pops ∷ cs) = run_list bound (drop_head xs) cs
run_list bound xs (Call.clears ∷ cs) = run_list bound [] cs

module _ {A : Type 0} where
  push-cap : (q : CircularQueue A) (x : A) → (push q x).1.cap ≡ q.cap
  unfolding push
  push-cap q x = ground arith

  elim_push-cap : (q : CircularQueue A) (x : A) → (elim_push q x).cap ≡ q.cap
  unfolding elim_push
  elim_push-cap q x = ground arith

  pop-cap : (q : CircularQueue A) → (pop q).1.cap ≡ q.cap
  unfolding pop
  pop-cap q = ground arith

  clear-view : (q : CircularQueue A) → IsValid q → (view (clear q) ≡ []) × IsValid (clear q)
  unfolding clear view contents
  clear-view q v =
      (refl, record { start = omega (arith, v.start); count = omega arith; small = v.small })

  moved :
      {b c : ℕ} {xs ys : List A}
      → b ≡ c
      → xs ≡ ys
      → (cs : List (Call A)) → run_list b xs cs ≡ run_list c ys cs
  moved e f cs = rw (e, f) refl

  -- From a valid ring, any series of calls leaves a valid ring, whose elements from the oldest on
  -- are those of a list that drops its head where the ring overwrites and refuses where it is full.
  pub run-view :
      (cs : List (Call A)) (q : CircularQueue A)
      → IsValid q
      → (view (run q cs) ≡ run_list q.cap (view q) cs) × IsValid (run q cs)
  unfolding run clear
  run-view [] q v = (refl, v)
  run-view (Call.pushes x ∷ cs) q v =
      let p = push-view q x v in
      let r = run-view cs (push q x).1 p.2 in (r.0 ∙ moved (push-cap q x) p.1 cs, r.1)
  run-view (Call.elim_pushes x ∷ cs) q v =
      let p = elim_push-view q x v in
      let r = run-view cs (elim_push q x) p.1 in (r.0 ∙ moved (elim_push-cap q x) p.0 cs, r.1)
  run-view (Call.pops ∷ cs) q v =
      let p = pop-view q v in
      let r = run-view cs (pop q).1 p.2 in (r.0 ∙ moved (pop-cap q) p.1 cs, r.1)
  run-view (Call.clears ∷ cs) q v =
      let p = clear-view q v in let r = run-view cs (clear q) p.1 in (r.0 ∙ moved refl p.0 cs, r.1)
