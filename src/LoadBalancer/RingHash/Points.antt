-- ===== src/LoadBalancer/RingHash/Points.antt =====
-- ContinuumSelector::Setup: which points stand on the ring.
use polaris_cpp.Base.{
  All, ℕ, zero, suc, ◌+◌, ◌%◌, ◌*◌, ◌/◌, ◌^◌, ◌≡◌, sym, ap, ◌∙◌, inl, inr, false, some, List, [],
  ◌∷◌, arith, get_elem?, lookup, nat_key, ltb, Option-cases, Bool-cases,
}
use polaris_cpp.LoadBalancer.RingHash.{
  ContinuumPoint, Ring, Instance, insert_point, sort, rehash, add_vnode, vnode_loop, instance_loop,
  setup,
}

insert_point-All :
    (P : ContinuumPoint → Type 0) (p : ContinuumPoint) (r : Ring)
    → P p
    → All P r
    → All P (insert_point p r)
unfolding insert_point
insert_point-All P p [] h a = (h, tt)
insert_point-All P p (q ∷ r) h (b, a) = elim (Bool-cases (ltb q.hash_val p.hash_val)) [
  | inl before ↦ rw before (b, insert_point-All P p r h a)
  | inr behind ↦ rw behind (h, (b, a))
]

sort-All : (P : ContinuumPoint → Type 0) (r : Ring) → All P r → All P (sort r)
unfolding sort
sort-All P [] a = tt
sort-All P (p ∷ r) (h, a) = insert_point-All P p (sort r) h (sort-All P r a)

-- A point of an instance in service.
abbrev pub InService : {K : Type 0} → List (Instance K) → ContinuumPoint → Type 0
InService {K} instances p =
    (inst : Instance K) × (get_elem? instances p.index ≡ some inst) × (inst.half_open ≡ false)

module _ {K S : Type 0} (hash_func : S → ℕ) (to_string : ℕ → S) (vnode_name : K → ℕ → S)
    (P : ContinuumPoint → Type 0) where
  add_vnode-All :
      (id : K) (i k : ℕ) (s : Ring × List (ℕ × S))
      → ((h : ℕ) → P (record { hash_val = h; index = i }))
      → All P s.0
      → All P (add_vnode hash_func to_string vnode_name id i k s).0
  unfolding add_vnode
  add_vnode-All id i k (ring, keys) p a =
      let h : ℕ = hash_func (vnode_name id k) in
      elim (Option-cases (lookup h keys)) [
        | inl free ↦ rw (add_vnode, free) (p h, a)
        | inr (old, taken) ↦ elim (Option-cases (rehash hash_func to_string vnode_name 5 h keys)) [
          | inl failed ↦ rw (add_vnode, taken, failed) a
          | inr (r, found) ↦ rw (add_vnode, taken, found) (p r.0, a)
        ]
      ]

  vnode_loop-All :
      (id : K) (i k left : ℕ) (s : Ring × List (ℕ × S))
      → ((h : ℕ) → P (record { hash_val = h; index = i }))
      → All P s.0
      → All P (vnode_loop hash_func to_string vnode_name id i k left s).0
  unfolding vnode_loop
  vnode_loop-All id i k zero s p a = a
  vnode_loop-All id i k (suc left) s p a =
      vnode_loop-All id i (suc k) left _ p (add_vnode-All id i k s p a)

module _ {K S : Type 0} (hash_func : S → ℕ) (to_string : ℕ → S) (vnode_name : K → ℕ → S)
    (vnode_cnt max_weight : ℕ) where
  instance_loop-All :
      (instances insts : List (Instance K)) (i : ℕ) (s : Ring × List (ℕ × S))
      → ((k : ℕ) → get_elem? insts k ≡ get_elem? instances (i + k))
      → All (InService instances) s.0
      → All
          (InService instances)
          (instance_loop hash_func to_string vnode_name vnode_cnt max_weight insts i s).0
  unfolding instance_loop
  instance_loop-All instances [] i s tail a = a
  instance_loop-All instances (inst ∷ insts) i s tail a =
      let next : (k : ℕ) → get_elem? insts k ≡ get_elem? instances (suc i + k) =
        λ k. tail (suc k) ∙ ap (get_elem? instances) (omega arith) in
      elim (Bool-cases inst.half_open) [
        | inl out ↦ rw out (instance_loop-All instances insts (suc i) s next a)
        | inr in_service ↦ rw in_service (
            instance_loop-All instances insts (suc i) _ next (
              vnode_loop-All hash_func to_string vnode_name (InService instances) inst.id i 0
                (inst.weight * vnode_cnt % 2 ^ 32 / max_weight) s
                (λ h. (inst, ap (get_elem? instances) (omega arith) ∙ sym (tail 0), in_service)) a))
      ]

  -- Every point on the ring that Setup makes is of one of the instances, and of none that is
  -- half-open, whatever the hash function and however its values collide.
  pub setup-InService :
      (instances : List (Instance K))
      → All
          (InService instances)
          (setup hash_func to_string vnode_name vnode_cnt max_weight instances)
  unfolding setup
  setup-InService instances = sort-All (InService instances) _ (
      instance_loop-All instances instances 0 ([], []) (λ k. ap (get_elem? instances) (omega arith))
        tt)
