-- ===== src/Cache/RcuMap/Writes.antt =====
-- The writes of RcuUnorderedMap change what the map holds for their keys, and for no other.
use polaris_cpp.Base.{
  ℕ, ◌≡◌, refl, sym, inl, inr, Bool, Option, none, some, Key, ite, arith, lookup, if◌then◌else◌,
  Bool-cases, Option-cases,
}
use polaris_cpp.Cache.RcuMap.{
  RcuMap, write_cell, update, update_at, add_key, write_value, create_or_get, create_at, update_if,
  update_if_at,
}
use polaris_cpp.Cache.RcuMap.Laws.{view, IsValid, view_at, view_absent}

module _ {K V : Type 0} ⦃key : Key K⦄ where
  -- The map holds `o` for `k` and what it held for every other key.
  abbrev pub Sets : RcuMap K V → K → Option V → RcuMap K V → Type 0
  Sets m k o m' = ((j : K) → view m' j ≡ ite (key.dec k j) o (view m j)) × IsValid m'

  add_key-Sets :
      (m : RcuMap K V) (k : K) (v : V) (now : ℕ)
      → IsValid m
      → lookup k m.dirty_map ≡ none
      → Sets m k (some v) (add_key m k v now)
  unfolding add_key view lookup write_cell
  add_key-Sets m k v now w absent = (
    λ j. elim (Option-cases (lookup j m.dirty_map)) [
      | inl no_cell ↦ ground (arith, absent, no_cell)
      | inr (c, e) ↦ ground (arith, absent, e, w.handed_out j c e)
    ],
    record {
      shared = λ j c e. ground (arith, absent, e, w.shared j c e);
      clean = λ f j e. ground (arith, f);
      own = λ i j c e f. ground (arith, e, f, w.own i j c, w.handed_out i c, w.handed_out j c);
      handed_out = λ j c e. ground (arith, e, w.handed_out j c);
    },
  )

  write_value-Sets :
      (m : RcuMap K V) (k : K) (c : ℕ) (v : V) (now : ℕ)
      → IsValid m
      → lookup k m.dirty_map ≡ some c
      → Sets m k (some v) (write_value m c v now)
  unfolding write_value view write_cell
  write_value-Sets m k c v now w here = (
    λ j. elim (Option-cases (lookup j m.dirty_map)) [
      | inl no_cell ↦ ground (arith, here, no_cell)
      | inr (d, e) ↦ ground (arith, here, e, w.own j k d e)
    ],
    record { shared = w.shared; clean = w.clean; own = w.own; handed_out = w.handed_out },
  )

  update_at-Sets :
      (m : RcuMap K V) (k : K) (v : V) (now : ℕ) (o : Option ℕ)
      → IsValid m
      → lookup k m.dirty_map ≡ o
      → Sets m k (some v) (update_at m k v now o)
  unfolding update_at
  update_at-Sets m k v now none w e = add_key-Sets m k v now w e
  update_at-Sets m k v now (some c) w e = write_value-Sets m k c v now w e

  -- Update stores its value under its key, new or known, and changes what the map holds for no
  -- other key, although both maps share the cells.
  pub update-Sets :
      (m : RcuMap K V) (k : K) (v : V) (now : ℕ) → IsValid m → Sets m k (some v) (update m k v now)
  unfolding update
  update-Sets m k v now w = update_at-Sets m k v now (lookup k m.dirty_map) w refl

  kept : (m : RcuMap K V) (k : K) (o : Option V) → o ≡ view m k → IsValid m → Sets m k o m
  kept m k o e w = (λ j. ground (arith, e), w)

  create_at-Sets :
      (m : RcuMap K V) (k : K) (created : Option V) (now : ℕ) (o : Option ℕ)
      → IsValid m
      → lookup k m.dirty_map ≡ o
      → let r = create_at m k created now o in
        (r.0 ≡ elim (view m k) [ none ↦ created | some v ↦ some v ]) × Sets m k r.0 r.1
  unfolding create_at
  create_at-Sets m k created now (some c) w e =
      (rw (sym (view_at m k c e)) refl, kept m k (some (m.cells c).value) (view_at m k c e) w)
  create_at-Sets m k none now none w e =
      (rw (sym (view_absent m k e)) refl, kept m k none (view_absent m k e) w)
  create_at-Sets m k (some v) now none w e =
      (rw (sym (view_absent m k e)) refl, add_key-Sets m k v now w e)

  -- CreateOrGet gives what the map holds for the key or, if that is nothing, what the creator made,
  -- and the map then holds that for the key, and what it held for every other key.
  pub create_or_get-Sets :
      (m : RcuMap K V) (k : K) (created : Option V) (now : ℕ)
      → IsValid m
      → let r = create_or_get m k created now in
        (r.0 ≡ elim (view m k) [ none ↦ created | some v ↦ some v ]) × Sets m k r.0 r.1
  unfolding create_or_get
  create_or_get-Sets m k created now w =
      create_at-Sets m k created now (lookup k m.dirty_map) w refl

  update_if_at-Sets :
      (m : RcuMap K V) (k : K) (updater : Option V → V) (predicate : V → Bool) (now : ℕ)
      (o : Option ℕ)
      → IsValid m
      → lookup k m.dirty_map ≡ o
      → let r = update_if_at m k updater predicate now o in
        (r.0 ≡ elim (view m k) [
          | none ↦ updater none
          | some v ↦ if predicate v then updater (some v) else v
        ])
        × Sets m k (some r.0) r.1
  unfolding update_if_at
  update_if_at-Sets m k updater predicate now none w e =
      (rw (sym (view_absent m k e)) refl, add_key-Sets m k (updater none) now w e)
  update_if_at-Sets m k updater predicate now (some c) w e =
      elim (Bool-cases (predicate (m.cells c).value)) [
        | inl yes_ ↦ rw yes_ (
          rw (sym (view_at m k c e), yes_) refl,
          write_value-Sets m k c (updater (some (m.cells c).value)) now w e,
        )
        | inr no_ ↦ rw no_ (
          rw (sym (view_at m k c e), no_) refl,
          kept m k (some (m.cells c).value) (view_at m k c e) w,
        )
      ]

  -- Update with an updater and a predicate stores the updater's value under the key if it is new or
  -- the predicate holds of the old value, keeps the old value otherwise, and returns what the map
  -- then holds for the key. What it holds for every other key stands.
  pub update_if-Sets :
      (m : RcuMap K V) (k : K) (updater : Option V → V) (predicate : V → Bool) (now : ℕ)
      → IsValid m
      → let r = update_if m k updater predicate now in
        (r.0 ≡ elim (view m k) [
          | none ↦ updater none
          | some v ↦ if predicate v then updater (some v) else v
        ])
        × Sets m k (some r.0) r.1
  unfolding update_if
  update_if-Sets m k updater predicate now w =
      update_if_at-Sets m k updater predicate now (lookup k m.dirty_map) w refl
