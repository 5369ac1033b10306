-- ===== src/Cache/RcuMap/Laws.antt =====
-- RcuUnorderedMap is one map: readers find what the writers stored.
use polaris_cpp.Base.{
  ℕ, ◌+◌, ◌<◌, ◌≡◌, refl, ◌∙◌, inl, inr, true, false, Option, none, some, Key, arith, lookup,
  length, ltb, Bool-cases,
}
use polaris_cpp.Cache.RcuMap.{RcuMap, get, get_read, get_dirty, check_swap, touch, write_cell}

-- What the map holds for a key: the value in the cell that the dirty map names.
unfoldable pub view : {K V : Type 0} → ⦃key : Key K⦄ → RcuMap K V → K → Option V
view m k = elim (lookup k m.dirty_map) [ none ↦ none | some c ↦ some (m.cells c).value ]

module _ {K V : Type 0} ⦃key : Key K⦄ where
  -- What the read map has, the dirty map has too, in the same cell; without the flag they have the
  -- same keys. Every key has a cell of its own, among those handed out.
  pub record IsValid (m : RcuMap K V) : Type 0 where
    pub shared : (k : K) (c : ℕ) → lookup k m.read_map ≡ some c → lookup k m.dirty_map ≡ some c
    pub clean :
        m.dirty_flag ≡ false → (k : K) → lookup k m.read_map ≡ none → lookup k m.dirty_map ≡ none
    pub own :
        (j k : K) (c : ℕ) → lookup j m.dirty_map ≡ some c → lookup k m.dirty_map ≡ some c → j ≡ k
    pub handed_out : (k : K) (c : ℕ) → lookup k m.dirty_map ≡ some c → c < m.next_cell

  touch-view : (m : RcuMap K V) (c now : ℕ) (k : K) → view (touch m c now) k ≡ view m k
  unfolding touch view write_cell
  touch-view m c now k = ground arith

  check_swap-view : (m : RcuMap K V) (now : ℕ) (k : K) → view (check_swap m now) k ≡ view m k
  unfolding check_swap view
  check_swap-view m now k = ground arith

  check_swap-IsValid : (m : RcuMap K V) (now : ℕ) → IsValid m → IsValid (check_swap m now)
  unfolding check_swap
  check_swap-IsValid m now v = elim (Bool-cases (ltb m.miss_time (length m.dirty_map))) [
    | inl t ↦ rw t v
    | inr t ↦
        rw t (record {
          shared = λ k c e. e;
          clean = λ f k e. e;
          own = v.own;
          handed_out = v.handed_out;
        })
  ]

  pub view_at :
      (m : RcuMap K V) (k : K) (c : ℕ)
      → lookup k m.dirty_map ≡ some c
      → some (m.cells c).value ≡ view m k
  unfolding view
  view_at m k c e = rw (view, e) refl

  pub view_absent : (m : RcuMap K V) (k : K) → lookup k m.dirty_map ≡ none → none ≡ view m k
  unfolding view
  view_absent m k e = rw (view, e) refl

  touch-IsValid : (m : RcuMap K V) (c now : ℕ) → IsValid m → IsValid (touch m c now)
  unfolding touch
  touch-IsValid m c now v = record {
    shared = v.shared;
    clean = v.clean;
    own = v.own;
    handed_out = v.handed_out;
  }

  get_dirty_correct :
      (m : RcuMap K V) (k : K) (o : Option ℕ) (now : ℕ)
      → IsValid m
      → lookup k m.dirty_map ≡ o
      → let r = get_dirty m o now in
        (r.0 ≡ view m k) × ((j : K) → view r.1 j ≡ view m j) × IsValid r.1
  unfolding get_dirty view
  get_dirty_correct m k none now v e = (view_absent m k e, λ j. refl, v)
  get_dirty_correct m k (some c) now v e =
      let m' : RcuMap K V = record (touch m c now) { miss_time = m.miss_time + 1 } in
      let t = touch-IsValid m c now v in
      (
        view_at m k c e,
        λ j. check_swap-view m' now j ∙ touch-view m c now j,
        check_swap-IsValid m' now
            (record { shared = t.shared; clean = t.clean; own = t.own; handed_out = t.handed_out }),
      )

  read_dirty :
      (m : RcuMap K V) (k : K) (now : ℕ)
      → m.dirty_flag ≡ true
      → get_read m k none now ≡ get_dirty m (lookup k m.dirty_map) now
  unfolding get_read
  read_dirty m k now d = ground (arith, d)

  read_clean :
      (m : RcuMap K V) (k : K) (now : ℕ) → m.dirty_flag ≡ false → get_read m k none now ≡ (none, m)
  unfolding get_read
  read_clean m k now d = ground (arith, d)

  get_read_correct :
      (m : RcuMap K V) (k : K) (o : Option ℕ) (now : ℕ)
      → IsValid m
      → lookup k m.read_map ≡ o
      → let r = get_read m k o now in
        (r.0 ≡ view m k) × ((j : K) → view r.1 j ≡ view m j) × IsValid r.1
  unfolding get_read
  get_read_correct m k (some c) now v e =
      (view_at m k c (v.shared k c e), λ j. touch-view m c now j, touch-IsValid m c now v)
  get_read_correct m k none now v e = elim (Bool-cases m.dirty_flag) [
    | inl dirty ↦
        rw (read_dirty m k now dirty) (get_dirty_correct m k (lookup k m.dirty_map) now v refl)
    | inr clean ↦ rw (read_clean m k now clean) (view_absent m k (v.clean clean k e), λ j. refl, v)
  ]

  -- A read gives what the map holds for the key, whichever of the two maps answers, and whether or
  -- not it makes the dirty map the read map; it changes what the map holds for no key.
  pub get_correct :
      (m : RcuMap K V) (k : K) (now : ℕ)
      → IsValid m
      → let r = get m k now in (r.0 ≡ view m k) × ((j : K) → view r.1 j ≡ view m j) × IsValid r.1
  unfolding get
  get_correct m k now v = get_read_correct m k (lookup k m.read_map) now v refl
