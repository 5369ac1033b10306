-- ===== src/LoadBalancer/CircularQueue/Refinement.antt =====
-- CircularQueue implements a queue of bounded length: its elements, oldest first, as a list.
use polaris_cpp.Base.{
  ℕ, zero, suc, ◌+◌, ◌-◌, ◌*◌, ◌^◌, ◌≤◌, ◌<◌, ◌≡◌, ◌≢◌, refl, ap, Option, none, some, List, [], ◌∷◌,
  ◌++◌, arith, leb, ltb, ◌==◌, if◌then◌else◌, add32, sub32, length, Bool-cases, ltb→lt, inl, inr,
}
use polaris_cpp.LoadBalancer.CircularQueue.{
  CircularQueue, mod_loop, mod_, write_at, push, elim_push, pop, top, bottom,
}

-- The index after wrapping once.
abbrev wrap : ℕ → ℕ → ℕ
wrap modulus i = if leb modulus i then i - modulus else i

mod_loop_wraps :
    (fuel off modulus : ℕ)
    → 0 < modulus
    → off < 2 * modulus
    → off ≤ fuel
    → mod_loop fuel off modulus ≡ wrap modulus off
unfolding mod_loop
mod_loop_wraps zero off modulus p q r = ground arith
mod_loop_wraps (suc zero) off modulus p q r = ground arith
mod_loop_wraps (suc (suc fuel)) off modulus p q r = ground arith

mod_wraps :
    (off modulus : ℕ) → 0 < modulus → off < 2 * modulus → mod_ off modulus ≡ wrap modulus off
unfolding mod_
mod_wraps off modulus p q = mod_loop_wraps off off modulus p q (omega arith)

module _ {A : Type 0} where
  write_at_same : (items : ℕ → A) (i : ℕ) (x : A) → write_at items i x i ≡ x
  unfolding write_at
  write_at_same items i x = ground arith

  -- The `n` items from index `s` on.
  unfoldable pub contents : (ℕ → A) → ℕ → ℕ → ℕ → List A
  contents items modulus s zero = []
  contents items modulus s (suc n) = items s ∷ contents items modulus (wrap modulus (s + 1)) n

  -- The elements, oldest first.
  unfoldable pub view : CircularQueue A → List A
  unfolding contents
  view q = contents q.items q.cap q.start q.count

  pub record IsValid (q : CircularQueue A) : Type 0 where
    pub start : q.start < q.cap
    pub count : q.count ≤ q.cap
    pub small : q.cap < 2 ^ 31

  contents_snoc :
      (items : ℕ → A) (modulus s n : ℕ)
      → s < modulus
      → n < modulus
      → contents items modulus s (suc n)
        ≡ contents items modulus s n ++ items (wrap modulus (s + n)) ∷ []
  unfolding contents
  contents_snoc items modulus s zero p q = ground arith
  contents_snoc items modulus s (suc n) p q =
      let e : wrap modulus (wrap modulus (s + 1) + n) ≡ wrap modulus (s + suc n) = ground arith in
      rw (contents_snoc items modulus (wrap modulus (s + 1)) n (ground arith) (omega arith), e) refl

  -- A write behind the items read changes none of them.
  contents-write_at :
      (items : ℕ → A) (x : A) (modulus s n m : ℕ)
      → s < modulus
      → n ≤ m
      → m < modulus
      → contents (write_at items (wrap modulus (s + m)) x) modulus s n ≡ contents items modulus s n
  unfolding contents write_at
  contents-write_at items x modulus s zero m p q r = refl
  contents-write_at items x modulus s (suc n) m p q r =
      let e : wrap modulus (wrap modulus (s + 1) + (m - 1)) ≡ wrap modulus (s + m) = ground arith in
      let rest : contents (write_at items (wrap modulus (s + m)) x) modulus (wrap modulus (s + 1)) n
          ≡ contents items modulus (wrap modulus (s + 1)) n =
        rw (← e) (
          contents-write_at items x modulus (wrap modulus (s + 1)) n (m - 1) (ground arith)
            (omega arith) (omega arith)) in
      ground (arith, rest)

  length-contents : (items : ℕ → A) (modulus s n : ℕ) → length (contents items modulus s n) ≡ n
  unfolding contents
  length-contents items modulus s zero = refl
  length-contents items modulus s (suc n) =
      ap suc (length-contents items modulus (wrap modulus (s + 1)) n)

  pub length-view : (q : CircularQueue A) → length (view q) ≡ q.count
  unfolding view
  length-view q = length-contents q.items q.cap q.start q.count

  appended-view :
      (q : CircularQueue A) (x : A)
      → IsValid q
      → q.count < q.cap
      → contents
          (write_at q.items (mod_ (add32 q.start q.count) q.cap) x)
          q.cap
          q.start
          (add32 q.count 1)
        ≡ view q ++ x ∷ []
  unfolding view
  appended-view q x v room =
      let e : add32 q.start q.count ≡ q.start + q.count =
        omega (arith, v.start, v.count, v.small) in
      let f : mod_ (q.start + q.count) q.cap ≡ wrap q.cap (q.start + q.count) =
        mod_wraps (q.start + q.count) q.cap (omega arith) (omega (arith, v.start)) in
      let g : add32 q.count 1 ≡ suc q.count = omega (arith, v.small) in
      let items' : ℕ → A = write_at q.items (wrap q.cap (q.start + q.count)) x in
      rw
        (
          e,
          f,
          g,
          contents_snoc items' q.cap q.start q.count v.start room,
          contents-write_at q.items x q.cap q.start q.count q.count v.start (omega arith) room,
          write_at_same q.items (wrap q.cap (q.start + q.count)) x,
        )
        refl

  next_start :
      (q : CircularQueue A) → IsValid q → mod_ (add32 q.start 1) q.cap ≡ wrap q.cap (q.start + 1)
  next_start q v =
      let f : add32 q.start 1 ≡ q.start + 1 = omega (arith, v.start, v.small) in
      rw f (mod_wraps (q.start + 1) q.cap (omega (arith, v.start)) (omega (arith, v.start)))

  overwritten-view :
      (q : CircularQueue A) (x : A) (n : ℕ)
      → IsValid q
      → q.cap ≡ suc n
      → q.count ≡ suc n
      → contents (write_at q.items q.start x) q.cap (mod_ (add32 q.start 1) q.cap) q.count
        ≡ contents q.items q.cap (wrap q.cap (q.start + 1)) n ++ x ∷ []
  overwritten-view q x n v e c =
      let s' : ℕ = wrap q.cap (q.start + 1) in
      let h : wrap q.cap (s' + n) ≡ q.start = ground (arith, v.start, e) in
      let i : s' < q.cap = ground (arith, v.start) in
      let items' : ℕ → A = write_at q.items q.start x in
      let j : contents items' q.cap s' n ≡ contents q.items q.cap s' n =
        rw h at (contents-write_at q.items x q.cap s' n n i (omega arith) (omega (arith, e))) in
      rw
        (
          next_start q v,
          c,
          contents_snoc items' q.cap s' n i (omega (arith, e)),
          j,
          h,
          write_at_same q.items q.start x,
        )
        refl

  -- The bounded queue as a list.
  abbrev pub drop_head : List A → List A
  drop_head [] = []
  drop_head (x ∷ xs) = xs

  abbrev pub head? : List A → Option A
  head? [] = none
  head? (x ∷ xs) = some x

  abbrev pub last? : List A → Option A
  last? [] = none
  last? (x ∷ []) = some x
  last? (x ∷ y ∷ xs) = last? (y ∷ xs)

  drop_head-contents :
      (items : ℕ → A) (modulus s n : ℕ)
      → drop_head (contents items modulus s n)
        ≡ contents items modulus (wrap modulus (s + 1)) (n - 1)
  unfolding contents
  drop_head-contents items modulus s zero = refl
  drop_head-contents items modulus s (suc n) =
      ap (contents items modulus (wrap modulus (s + 1))) (omega arith)

  contents_empty : (items : ℕ → A) (modulus s n : ℕ) → n ≡ 0 → contents items modulus s n ≡ []
  unfolding contents
  contents_empty items modulus s n e = rw e refl

  contents_nonempty :
      (items : ℕ → A) (modulus s n : ℕ)
      → n ≢ 0
      → head? (contents items modulus s n) ≡ some (items s)
  unfolding contents
  contents_nonempty items modulus s zero p = elim (p refl) [ ]
  contents_nonempty items modulus s (suc n) p = refl

  last?-snoc : (xs : List A) (x : A) → last? (xs ++ x ∷ []) ≡ some x
  last?-snoc [] x = refl
  last?-snoc (y ∷ []) x = refl
  last?-snoc (y ∷ z ∷ xs) x = last?-snoc (z ∷ xs) x

  last?-contents :
      (items : ℕ → A) (modulus s n : ℕ)
      → s < modulus
      → 0 < n
      → n ≤ modulus
      → last? (contents items modulus s n) ≡ some (items (wrap modulus (s + n - 1)))
  last?-contents items modulus s zero p pos q = ground (arith, pos)
  last?-contents items modulus s (suc n) p pos q =
      let e : s + suc n - 1 ≡ s + n = omega arith in
      rw (e, contents_snoc items modulus s n p q) (last?-snoc (contents items modulus s n) _)

  pub push-view :
      (q : CircularQueue A) (x : A)
      → IsValid q
      → let r = push q x in
        (r.0 ≡ ltb (length (view q)) q.cap)
        × (view r.1 ≡ (if ltb (length (view q)) q.cap then view q ++ x ∷ [] else view q))
        × IsValid r.1
  unfolding push view
  push-view q x v = elim (Bool-cases (ltb q.count q.cap)) [
    | inl room ↦
        rw (length-view q, room)
          (
            refl,
            appended-view q x v (ltb→lt _ _ room),
            ground (arith, v.start, v.count, v.small, room),
          )
    | inr no_room ↦ rw (length-view q, no_room) (refl, refl, v)
  ]

  pub elim_push-view :
      (q : CircularQueue A) (x : A)
      → IsValid q
      → let r = elim_push q x in
        (view r ≡ (if ltb (length (view q)) q.cap then view q else drop_head (view q)) ++ x ∷ [])
        × IsValid r
  unfolding elim_push view
  elim_push-view q x v = elim (Bool-cases (ltb q.count q.cap)) [
    | inl room ↦
        rw (length-view q, room)
          (appended-view q x v (ltb→lt _ _ room), ground (arith, v.start, v.count, v.small, room))
    | inr no_room ↦
        let c : q.count ≡ q.cap = ground (arith, no_room, v.count) in
        rw (length-view q, no_room, drop_head-contents q.items q.cap q.start q.count)
          (
            overwritten-view q x (q.count - 1) v (omega (arith, v.start, c))
                (omega (arith, v.start, c)),
            record {
              start = rw (next_start q v) (ground (arith, v.start));
              count = v.count;
              small = v.small;
            },
          )
  ]

  pub pop-view :
      (q : CircularQueue A)
      → IsValid q
      → let r = pop q in
        (r.0 ≡ ltb 0 (length (view q))) × (view r.1 ≡ drop_head (view q)) × IsValid r.1
  unfolding pop view
  pop-view q v = elim (Bool-cases (q.count == 0)) [
    | inl empty ↦
        let z : q.count ≡ 0 = ground (arith, empty) in
        rw (length-view q, empty)
          (rw z refl, rw (contents_empty q.items q.cap q.start q.count z) refl, v)
    | inr some_ ↦
        let c : sub32 q.count 1 ≡ q.count - 1 = ground (arith, some_, v.count, v.small) in
        rw
          (
            length-view q,
            some_,
            drop_head-contents q.items q.cap q.start q.count,
            c,
            next_start q v,
          )
          (
            ground (arith, some_),
            refl,
            record {
              start = ground (arith, v.start);
              count = omega (arith, v.count);
              small = v.small;
            },
          )
  ]

  -- The top and the bottom of a valid ring are the first and the last of its elements, the oldest first,
  -- and there is none of either exactly if the ring is empty.
  pub ends-view :
      (q : CircularQueue A) → IsValid q → (top q ≡ head? (view q)) × (bottom q ≡ last? (view q))
  unfolding top bottom view
  ends-view q v = elim (Bool-cases (q.count == 0)) [
    | inl empty ↦
        rw (empty, contents_empty q.items q.cap q.start q.count (ground (arith, empty)))
          (refl, refl)
    | inr some_ ↦
        let c : 0 < q.count = ground (arith, some_) in
        let e : sub32 (add32 q.start q.count) 1 ≡ q.start + q.count - 1 =
          omega (arith, v.start, v.count, v.small, c) in
        let f : mod_ (q.start + q.count - 1) q.cap ≡ wrap q.cap (q.start + q.count - 1) =
          mod_wraps (q.start + q.count - 1) q.cap (omega (arith, v.start))
            (omega (arith, v.start, v.count, c)) in
        (
          rw (some_, contents_nonempty q.items q.cap q.start q.count (ground (arith, c))) refl,
          rw (some_, e, f, last?-contents q.items q.cap q.start q.count v.start c v.count) refl,
        )
  ]
