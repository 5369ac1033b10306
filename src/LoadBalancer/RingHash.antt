-- ===== src/LoadBalancer/RingHash.antt =====
-- polaris/plugin/load_balancer/ringhash/continuum.{h,cpp}: ContinuumSelector, a ring of hash values.
-- The strings that are hashed are a type `S`: the hash function and what prints the strings are
-- parameters. An instance pointer is an element of `K`.
pub mod Selection
pub mod Points
use polaris_cpp.Base.{
  ℕ, zero, suc, ◌+◌, ◌-◌, ◌*◌, ◌/◌, ◌%◌, ◌^◌, Bool, true, false, Option, none, some, List, [], ◌∷◌,
  ◌++◌, Key, nat_key, lookup, insert, length, get_elem?, ltb, leb, ◌==◌, if◌then◌else◌,
}

pub record ContinuumPoint : Type 0 where
  pub hash_val : ℕ
  pub index : ℕ

abbrev pub Ring : Type 0
Ring = List ContinuumPoint

-- std::sort by `operator<`; the hash values of a ring differ, so there is one sorted order.
unfoldable pub insert_point : ContinuumPoint → Ring → Ring
insert_point p [] = p ∷ []
insert_point p (q ∷ r) = if ltb q.hash_val p.hash_val then q ∷ insert_point p r else p ∷ q ∷ r

unfoldable pub sort : Ring → Ring
unfolding insert_point
sort [] = []
sort (p ∷ r) = insert_point p (sort r)

-- std::lower_bound: the place of the first point that is not below the hash value, or the end.
unfoldable pub lower_bound : Ring → ℕ → ℕ
lower_bound [] hash_value = 0
lower_bound (p ∷ r) hash_value =
    let rest = lower_bound r hash_value in if ltb p.hash_val hash_value then suc rest else 0

-- The place that both selections start from.
unfoldable pub position : Ring → ℕ → ℕ
unfolding lower_bound
position ring hash_value = let p = lower_bound ring hash_value in if p == length ring then 0 else p

-- Select, after the hash value of the criteria: `none` is the answer -1 of an empty ring.
unfoldable pub select : Ring → ℕ → Option ℕ
unfolding position
select ring hash_value = elim (get_elem? ring (position ring hash_value)) [
  | none ↦ none
  | some p ↦ some p.index
]

module _ {K : Type 0} ⦃key : Key K⦄ where
  -- `instances[ring_[position].index]`.
  unfoldable pub instance_at : List K → Ring → ℕ → Option K
  instance_at instances ring pos = elim (get_elem? ring pos) [
    | none ↦ none
    | some p ↦ get_elem? instances p.index
  ]

  -- The loop of SelectReplicate: `seen` is the set of instances met.
  unfoldable pub replicate_loop : ℕ → List K → Ring → ℕ → ℕ → List (K × Unit {0}) → Option K
  unfolding instance_at
  replicate_loop zero instances ring replicate_index pos seen = none
  replicate_loop (suc rounds) instances ring replicate_index pos seen =
      let next = if suc pos == length ring then 0 else suc pos in
      elim (instance_at instances ring next) [
        | none ↦ none
        | some inst ↦
            let seen' = insert inst tt seen in
            let rest = replicate_loop rounds instances ring replicate_index next seen' in
            if ltb replicate_index (length seen') then some inst else rest
      ]

  abbrev or_original : K → Option K → Option K
  or_original first none = some first
  or_original first (some inst) = some inst

  -- SelectReplicate, after the hash value. `none` is kReturnInstanceNotFound.
  unfoldable pub select_replicate : List K → Ring → ℕ → ℕ → Option K
  unfolding replicate_loop
  select_replicate instances [] criteria_index hash_value = none
  select_replicate instances ring criteria_index hash_value =
      let pos = position ring hash_value in
      let replicate_index = criteria_index % length instances in
      if replicate_index == 0
      then instance_at instances ring pos
      else (elim (instance_at instances ring pos) [
        | none ↦ none
        | some first ↦
            or_original first
              (replicate_loop (length ring) instances ring replicate_index pos ((first, tt) ∷ []))
      ])

pub record Instance (K : Type 0) : Type 0 where
  pub id : K
  pub weight : ℕ
  pub half_open : Bool

module _ {K S : Type 0} (hash_func : S → ℕ) (to_string : ℕ → S) (vnode_name : K → ℕ → S) where
  -- ReHash, by the tries left of kMaxRehashIteration.
  unfoldable pub rehash : ℕ → ℕ → List (ℕ × S) → Option (ℕ × List (ℕ × S))
  rehash zero hash_value keys = none
  rehash (suc tries) hash_value keys =
      let hash_str = to_string hash_value in
      let next = hash_func hash_str in
      let rest = rehash tries next keys in
      elim (lookup next keys) [ none ↦ some (next, insert next hash_str keys) | some s ↦ rest ]

  -- The body of Setup's inner loop: the ring so far, newest first, and the keys.
  unfoldable pub add_vnode : K → ℕ → ℕ → Ring × List (ℕ × S) → Ring × List (ℕ × S)
  unfolding rehash
  add_vnode id i k (ring, keys) =
      let buff = vnode_name id k in
      let hash_value = hash_func buff in
      elim (lookup hash_value keys) [
        | none ↦ (record { hash_val = hash_value; index = i } ∷ ring, insert hash_value buff keys)
        | some s ↦ (elim (rehash 5 hash_value keys) [
          | none ↦ (ring, keys)
          | some (h, keys') ↦ (record { hash_val = h; index = i } ∷ ring, keys')
        ])
      ]

  -- `k` runs from 0; `left` virtual nodes are to come.
  unfoldable pub vnode_loop : K → ℕ → ℕ → ℕ → Ring × List (ℕ × S) → Ring × List (ℕ × S)
  unfolding add_vnode
  vnode_loop id i k zero s = s
  vnode_loop id i k (suc left) s = vnode_loop id i (suc k) left (add_vnode id i k s)

  unfoldable pub instance_loop :
      ℕ → ℕ → List (Instance K) → ℕ → Ring × List (ℕ × S) → Ring × List (ℕ × S)
  unfolding vnode_loop
  instance_loop vnode_cnt max_weight [] i s = s
  instance_loop vnode_cnt max_weight (inst ∷ insts) i s =
      let limit = inst.weight * vnode_cnt % 2 ^ 32 / max_weight in
      let s' = if inst.half_open then s else vnode_loop inst.id i 0 limit s in
      instance_loop vnode_cnt max_weight insts (suc i) s'

  -- Setup, for the weight that counts as one full share. The quotient of the two numbers, which are
  -- below 2 ^ 32, has the same whole part in `double`.
  unfoldable pub setup : ℕ → ℕ → List (Instance K) → Ring
  unfolding instance_loop
  setup vnode_cnt max_weight instances =
      sort (instance_loop vnode_cnt max_weight instances 0 ([], [])).0
