-- ===== src/Cache/RcuMap/Deletes.antt =====
-- RcuUnorderedMap::Delete takes its keys out, for the readers too.
use polaris_cpp.Base.{
  ℕ, ◌≡◌, refl, sym, ◌∙◌, inl, inr, false, none, some, Option, List, [], ◌∷◌, Key, ite, arith,
  lookup, erase, lookup-erase, Bool-cases,
}
use polaris_cpp.Cache.RcuMap.{RcuMap, InnerMap, MapValue, delete, delete_loop}
use polaris_cpp.Cache.RcuMap.Laws.{view, IsValid}

-- `o`, unless the key is one of the keys.
unfoldable pub unless_in : {K A : Type 0} → ⦃key : Key K⦄ → K → List K → Option A → Option A
unless_in j [] o = o
unless_in ⦃key⦄ j (k ∷ ks) o = ite (key.dec k j) none (unless_in j ks o)

module _ {K : Type 0} ⦃key : Key K⦄ where
  unless_in-none : {A : Type 0} (j : K) (ks : List K) → unless_in {A = A} j ks none ≡ none
  unfolding unless_in
  unless_in-none j [] = refl
  unless_in-none {A} j (k ∷ ks) = ground (arith, unless_in-none {A = A} j ks)

  lookup-delete_loop :
      (ks : List K) (l : InnerMap K) (j : K)
      → lookup j (delete_loop ks l).1 ≡ unless_in j ks (lookup j l)
  unfolding delete_loop unless_in
  lookup-delete_loop [] l j = refl
  lookup-delete_loop (k ∷ ks) l j =
      ground (
        arith,
        lookup-delete_loop ks (erase k l) j,
        lookup-erase k j l,
        unless_in-none {A = ℕ} j ks,
      )

  unchanged :
      (ks : List K) (l : InnerMap K) (j : K)
      → (delete_loop ks l).0 ≡ false
      → lookup j (delete_loop ks l).1 ≡ lookup j l
  unfolding delete_loop
  unchanged [] l j e = refl
  unchanged (k ∷ ks) l j e = ground (arith, e, unchanged ks (erase k l) j, lookup-erase k j l)

  unless_in-some :
      {A : Type 0} (j : K) (ks : List K) (o : Option A) (c : A)
      → unless_in j ks o ≡ some c
      → o ≡ some c
  unfolding unless_in
  unless_in-some j [] o c e = e
  unless_in-some j (k ∷ ks) o c e = ground (arith, e, unless_in-some j ks o c)

  was_there :
      (ks : List K) (l : InnerMap K) (j : K) (c : ℕ)
      → lookup j (delete_loop ks l).1 ≡ some c
      → lookup j l ≡ some c
  was_there ks l j c e = unless_in-some j ks (lookup j l) c (sym (lookup-delete_loop ks l j) ∙ e)

abbrev valued : {V : Type 0} → (ℕ → MapValue V) → Option ℕ → Option V
valued cells none = none
valued cells (some c) = some (cells c).value

module _ {K V : Type 0} ⦃key : Key K⦄ where
  dirty_after :
      (m : RcuMap K V) (ks : List K) (now : ℕ)
      → (delete m ks now).dirty_map ≡ (delete_loop ks m.dirty_map).1
  unfolding delete
  dirty_after m ks now = ground arith

  cells_after : (m : RcuMap K V) (ks : List K) (now : ℕ) → (delete m ks now).cells ≡ m.cells
  unfolding delete
  cells_after m ks now = elim (Bool-cases (delete_loop ks m.dirty_map).0) [
    | inl changed ↦ rw (delete, changed) refl
    | inr same ↦ rw (delete, same) refl
  ]

  view-valued : (m : RcuMap K V) (j : K) → view m j ≡ valued m.cells (lookup j m.dirty_map)
  unfolding view
  view-valued m j = ground arith

  valued-unless_in :
      (cells : ℕ → MapValue V) (j : K) (ks : List K) (o : Option ℕ)
      → valued cells (unless_in j ks o) ≡ unless_in j ks (valued cells o)
  unfolding unless_in
  valued-unless_in cells j [] o = refl
  valued-unless_in cells j (k ∷ ks) o = ground (arith, valued-unless_in cells j ks o)

  delete-IsValid : (m : RcuMap K V) (ks : List K) (now : ℕ) → IsValid m → IsValid (delete m ks now)
  unfolding delete
  delete-IsValid m ks now v = elim (Bool-cases (delete_loop ks m.dirty_map).0) [
    | inl changed ↦
        rw (delete, changed)
          (record {
            shared = λ k c e. e;
            clean = λ f k e. e;
            own = λ i j c e f. v.own i j c (was_there ks _ i c e) (was_there ks _ j c f);
            handed_out = λ k c e. v.handed_out k c (was_there ks _ k c e);
          })
    | inr same ↦
        rw (delete, same)
          (record {
            shared = λ k c e. unchanged ks _ k same ∙ v.shared k c e;
            clean = λ f k e. unchanged ks _ k same ∙ v.clean f k e;
            own = λ i j c e f. v.own i j c (was_there ks _ i c e) (was_there ks _ j c f);
            handed_out = λ k c e. v.handed_out k c (was_there ks _ k c e);
          })
  ]

  -- After Delete the map holds nothing for its keys and what it held for every other key, and
  -- its two maps agree again.
  pub delete-view :
      (m : RcuMap K V) (ks : List K) (now : ℕ)
      → IsValid m
      → ((j : K) → view (delete m ks now) j ≡ unless_in j ks (view m j)) × IsValid (delete m ks now)
  delete-view m ks now v = (
    λ j.
        view-valued (delete m ks now) j
        ∙ rw
            (
              dirty_after m ks now,
              cells_after m ks now,
              lookup-delete_loop ks m.dirty_map j,
              view-valued m j,
            )
            (valued-unless_in m.cells j ks (lookup j m.dirty_map)),
    delete-IsValid m ks now v,
  )
