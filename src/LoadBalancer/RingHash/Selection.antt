-- ===== src/LoadBalancer/RingHash/Selection.antt =====
-- ContinuumSelector is consistent: what leaves the ring moves only its own keys.
use polaris_cpp.Base.{
  ℕ, ◌≡◌, ◌<◌, ◌≢◌, refl, sym, ◌∙◌, inl, inr, Bool, true, false, Option, none, some, [], ◌∷◌, arith,
  length, get_elem?, ltb, ◌==◌, if◌then◌else◌, Bool-cases, Option-cases, not,
}
use polaris_cpp.LoadBalancer.RingHash.{ContinuumPoint, Ring, lower_bound, position, select}

-- The point of the ring that Select answers with.
unfoldable pub chosen : Ring → ℕ → Option ContinuumPoint
unfolding position
chosen ring h = get_elem? ring (position ring h)

-- The ring with the points that `keep` picks.
unfoldable pub kept : (ContinuumPoint → Bool) → Ring → Ring
kept keep [] = []
kept keep (p ∷ r) = let rest = kept keep r in if keep p then p ∷ rest else rest

-- The first point that is not below the hash value.
unfoldable pub first_from : Ring → ℕ → Option ContinuumPoint
first_from [] h = none
first_from (p ∷ r) h = let rest = first_from r h in if ltb p.hash_val h then rest else some p

abbrev head : Ring → Option ContinuumPoint
head [] = none
head (p ∷ r) = some p

abbrev or_head : Option ContinuumPoint → Ring → Option ContinuumPoint
or_head none ring = head ring
or_head (some p) ring = some p

at_lower_bound : (r : Ring) (h : ℕ) → get_elem? r (lower_bound r h) ≡ first_from r h
unfolding lower_bound first_from
at_lower_bound [] h = refl
at_lower_bound (p ∷ r) h = elim (Bool-cases (ltb p.hash_val h)) [
  | inl below ↦ rw below (at_lower_bound r h)
  | inr found ↦ rw found refl
]

end_of_none : (r : Ring) (h : ℕ) → first_from r h ≡ none → lower_bound r h ≡ length r
unfolding lower_bound first_from
end_of_none [] h e = refl
end_of_none (p ∷ r) h e = ground (arith, e, end_of_none r h)

before_end :
    (r : Ring) (h : ℕ) (p : ContinuumPoint) → first_from r h ≡ some p → lower_bound r h < length r
unfolding lower_bound first_from
before_end [] h p e = ground (arith, e)
before_end (q ∷ r) h p e = ground (arith, e, before_end r h p)

at_start : (r : Ring) → get_elem? r 0 ≡ head r
at_start [] = refl
at_start (p ∷ r) = refl

-- What Select answers with, described on the ring: the first point from the hash value on, or the
-- first of all.
chosen-first : (r : Ring) (h : ℕ) → chosen r h ≡ or_head (first_from r h) r
unfolding chosen position
chosen-first r h = elim (Option-cases (first_from r h)) [
  | inl none_ ↦
      let e : lower_bound r h == length r ≡ true = ground (arith, end_of_none r h none_) in
      rw (none_, e) (at_start r)
  | inr (p, some_) ↦
      let e : lower_bound r h == length r ≡ false = ground (arith, before_end r h p some_) in
      rw (some_, e) (at_lower_bound r h ∙ some_)
]

-- A point that is chosen and kept is chosen from what is kept.
first_from-kept :
    (keep : ContinuumPoint → Bool) (r : Ring) (h : ℕ) (p : ContinuumPoint)
    → first_from r h ≡ some p
    → keep p ≡ true
    → first_from (kept keep r) h ≡ some p
unfolding first_from kept
first_from-kept keep [] h p e k = ground (arith, e)
first_from-kept keep (q ∷ r) h p e k = ground (arith, e, k, first_from-kept keep r h p)

none_from-kept :
    (keep : ContinuumPoint → Bool) (r : Ring) (h : ℕ)
    → first_from r h ≡ none
    → first_from (kept keep r) h ≡ none
unfolding first_from kept
none_from-kept keep [] h e = refl
none_from-kept keep (q ∷ r) h e = ground (arith, e, none_from-kept keep r h)

head-kept :
    (keep : ContinuumPoint → Bool) (r : Ring) (p : ContinuumPoint)
    → head r ≡ some p
    → keep p ≡ true
    → head (kept keep r) ≡ some p
unfolding kept
head-kept keep [] p e k = ground (arith, e)
head-kept keep (q ∷ r) p e k = ground (arith, e, k)

or_head-kept :
    (keep : ContinuumPoint → Bool) (r : Ring) (h : ℕ) (p : ContinuumPoint)
    (o : Option ContinuumPoint)
    → first_from r h ≡ o
    → or_head o r ≡ some p
    → keep p ≡ true
    → or_head (first_from (kept keep r) h) (kept keep r) ≡ some p
or_head-kept keep r h p none f e k = rw (none_from-kept keep r h f) (head-kept keep r p e k)
or_head-kept keep r h p (some q) f e k = rw (first_from-kept keep r h p (f ∙ e) k) refl

chosen-kept :
    (keep : ContinuumPoint → Bool) (r : Ring) (h : ℕ) (p : ContinuumPoint)
    → chosen r h ≡ some p
    → keep p ≡ true
    → chosen (kept keep r) h ≡ some p
chosen-kept keep r h p e k =
    chosen-first (kept keep r) h
    ∙ or_head-kept keep r h p (first_from r h) refl (sym (chosen-first r h) ∙ e) k

abbrev index_if : Option ContinuumPoint → Option ℕ
index_if none = none
index_if (some p) = some p.index

select-index : (r : Ring) (h : ℕ) → select r h ≡ index_if (chosen r h)
unfolding select chosen
select-index r h = ground arith

index_of :
    {i : ℕ} (o : Option ContinuumPoint)
    → index_if o ≡ some i
    → (p : ContinuumPoint) × (o ≡ some p) × (p.index ≡ i)
index_of none e = cc
index_of (some p) e = (p, refl, ground (arith, e))

select-chosen :
    (r : Ring) (h i : ℕ)
    → select r h ≡ some i
    → (p : ContinuumPoint) × (chosen r h ≡ some p) × (p.index ≡ i)
select-chosen r h i e = index_of (chosen r h) (sym (select-index r h) ∙ e)

chosen-select :
    (r : Ring) (h i : ℕ) (p : ContinuumPoint)
    → chosen r h ≡ some p
    → p.index ≡ i
    → select r h ≡ some i
chosen-select r h i p e f = select-index r h ∙ rw (e, f) refl

-- The ring without the points of one instance.
unfoldable pub without : ℕ → Ring → Ring
unfolding kept
without j ring = kept (λ p. not (p.index == j)) ring

-- Taking all points of one instance off the ring leaves the answer for every hash value that
-- another instance answers for.
pub select-without :
    (ring : Ring) (h i j : ℕ) → select ring h ≡ some i → i ≢ j → select (without j ring) h ≡ some i
unfolding without
select-without ring h i j e other =
    let c = select-chosen ring h i e in
    chosen-select (kept (λ p. not (p.index == j)) ring) h i c.0
      (chosen-kept (λ p. not (p.index == j)) ring h c.0 c.1 (ground (arith, c.2, other))) c.2
