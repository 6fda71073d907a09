-- ===== src/Placement/Keeping.antt =====
-- Every operation keeps the nodes good, in every order of the operations.
use inference_sim.Prelude.{
  ℕ, zero, suc, ◌/◌, ◌==◌, ◌≡◌, refl, String, Option, none, some, Bool, true, false, ◌&&◌,
  Bool-cases, inl, inr, List, [], ◌∷◌, length, All, ltb, ℤ, pos, negsuc, Result, ok, panic, arith,
}
use inference_sim.Placement.Nodes.{
  ready, draining, terminated, Node, allocated_count, same_text, is_valid_transition,
  transition_node,
}
use inference_sim.Placement.Manager.{
  NodePoolConfig, PlacementManager, Placed, is_ready, matches, may_span, has_room, is_whole, behind,
  place_on, on_pool, place_single, select_whole, claim_whole, span_on, place_spanning, second_pass,
  first_pass, place_instance,
}
use inference_sim.Placement.Lifecycle.{
  release_nodes, any_holds, release_instance, find_node, put_node, start_drain, drain_found,
  drain_node, terminate_found, mark_node_terminated, ready_found, mark_node_ready,
}
use inference_sim.Placement.Gpus.{length-allocate_free, length-allocate_all}
use inference_sim.Placement.Armed.{
  IsGood, allocated-IsGood, release_node-IsGood, terminated-IsGood, started-IsGood, empty-IsGood,
  held-IsGood,
}

-- A conjunction that holds, holds on both sides.
pub and_true : (a b : Bool) → (a && b) ≡ true → (a ≡ true) × (b ≡ true)
and_true true b h = (refl, h)
and_true false b h = cc h

module _ {Callback : Type 0} where
  abbrev AllGood : List (Node Callback) → Type 0
  AllGood = All IsGood

  -- What an operation hands on is good, where it hands anything on.
  abbrev GoodTail : Option (String × List String × List (Node Callback)) → Type 0
  GoodTail none = Unit
  GoodTail (some (node_id, ids, nodes)) = AllGood nodes

  abbrev GoodPlaced : Option (Placed × List (Node Callback)) → Type 0
  GoodPlaced none = Unit
  GoodPlaced (some (p, nodes)) = AllGood nodes

  abbrev pub GoodResult : Result (Option (List Callback) × PlacementManager Callback) → Type 0
  GoodResult (panic fault) = Unit
  GoodResult (ok (called, m)) = AllGood m.nodes

  abbrev GoodFound : Option (Node Callback) → Type 0
  GoodFound none = Unit
  GoodFound (some n) = IsGood n

  behind-Good :
      (x : Node Callback) (found : Option (String × List String × List (Node Callback)))
      → IsGood x
      → GoodTail found
      → GoodTail (behind x found)
  unfolding behind
  behind-Good x none good all = tt
  behind-Good x (some (node_id, ids, nodes)) good all = (good, all)

  module _ (id : String) where
    place_on-Good :
        (degree : ℕ) (pool : String) (nodes : List (Node Callback))
        → AllGood nodes
        → GoodTail (place_on id degree pool nodes)
    unfolding place_on
    place_on-Good degree pool [] all = tt
    place_on-Good degree pool (x ∷ nodes) (good, all) = elim (Bool-cases (has_room pool degree x)) [
      | inl room ↦
          let (stands, enough) = and_true _ _ room in
          let (pooled, is_up) = and_true _ _ stands in
          rw room (allocated-IsGood x _ is_up (length-allocate_free id degree x.gpus) good, all)
      | inr full ↦ rw full (behind-Good x _ good (place_on-Good degree pool nodes all))
    ]

    on_pool-Good :
        (pool : NodePoolConfig) (found : Option (String × List String × List (Node Callback)))
        (rest : Option (Placed × List (Node Callback)))
        → GoodTail found
        → GoodPlaced rest
        → GoodPlaced (on_pool pool found rest)
    unfolding on_pool
    on_pool-Good pool none rest g h = h
    on_pool-Good pool (some (node_id, ids, nodes)) rest g h = g

    place_single-Good :
        (gpu_type : String) (degree : ℕ) (pools : List NodePoolConfig)
        (nodes : List (Node Callback))
        → AllGood nodes
        → GoodPlaced (place_single id gpu_type degree pools nodes)
    unfolding place_single
    place_single-Good gpu_type degree [] nodes all = tt
    place_single-Good gpu_type degree (pool ∷ pools) nodes all =
        let rest = place_single-Good gpu_type degree pools nodes all in
        elim (Bool-cases (matches gpu_type pool)) [
          | inl fits ↦
              rw fits (on_pool-Good pool _ _ (place_on-Good degree pool.name nodes all) rest)
          | inr skips ↦ rw skips rest
        ]

    claim_whole-Good :
        (k : ℕ) (pool : String) (nodes : List (Node Callback))
        → AllGood nodes
        → AllGood (claim_whole id k pool nodes).1
    unfolding claim_whole
    claim_whole-Good zero pool nodes all = all
    claim_whole-Good (suc k) pool [] all = tt
    claim_whole-Good (suc k) pool (x ∷ nodes) (good, all) = elim (Bool-cases (is_whole pool x)) [
      | inl whole ↦
          let (stands, free) = and_true _ _ whole in
          let (pooled, is_up) = and_true _ _ stands in
          rw whole (
            allocated-IsGood x _ is_up (length-allocate_all id x.gpus) good,
            claim_whole-Good k pool nodes all,
          )
      | inr other ↦ rw other (good, claim_whole-Good (suc k) pool nodes all)
    ]

    span_on-Good :
        (needed : ℕ) (pool : NodePoolConfig) (selected nodes : List (Node Callback))
        (rest : Option (Placed × List (Node Callback)))
        → AllGood nodes
        → GoodPlaced rest
        → GoodPlaced (span_on id needed pool selected nodes rest)
    unfolding span_on
    span_on-Good needed pool [] nodes rest all h = h
    span_on-Good needed pool (x ∷ selected) nodes rest all h =
        elim (Bool-cases (ltb (suc (length selected)) needed)) [
          | inl short ↦ rw short h
          | inr enough ↦ rw enough (claim_whole-Good needed pool.name nodes all)
        ]

    place_spanning-Good :
        (gpu_type : String) (degree : ℕ) (pools : List NodePoolConfig)
        (nodes : List (Node Callback))
        → AllGood nodes
        → GoodPlaced (place_spanning id gpu_type degree pools nodes)
    unfolding place_spanning
    place_spanning-Good gpu_type degree [] nodes all = tt
    place_spanning-Good gpu_type degree (pool ∷ pools) nodes all =
        let rest = place_spanning-Good gpu_type degree pools nodes all in
        let needed = degree / pool.gpus_per_node in
        elim (Bool-cases (matches gpu_type pool && may_span degree pool)) [
          | inl fits ↦
              rw fits
                (span_on-Good needed pool (select_whole needed pool.name nodes) nodes _ all rest)
          | inr skips ↦ rw skips rest
        ]

    second_pass-Good :
        (found : Option (Placed × List (Node Callback))) (m : PlacementManager Callback)
        (gpu_type : String) (degree : ℕ)
        → GoodPlaced found
        → AllGood m.nodes
        → AllGood (second_pass found m gpu_type degree).1.nodes
    unfolding second_pass
    second_pass-Good none m gpu_type degree g all = all
    second_pass-Good (some (p, nodes)) m gpu_type degree g all = g

    first_pass-Good :
        (found : Option (Placed × List (Node Callback))) (m : PlacementManager Callback)
        (gpu_type : String) (degree : ℕ)
        → GoodPlaced found
        → AllGood m.nodes
        → AllGood (first_pass found m id gpu_type degree).1.nodes
    unfolding first_pass
    first_pass-Good none m gpu_type degree g all =
        second_pass-Good _ m gpu_type degree
          (place_spanning-Good gpu_type degree m.pools m.nodes all) all
    first_pass-Good (some (p, nodes)) m gpu_type degree g all = g

    pub place_instance-Good :
        (m : PlacementManager Callback) (gpu_type : String) (degree : ℤ)
        → AllGood m.nodes
        → AllGood (place_instance m id gpu_type degree).1.nodes
    unfolding place_instance
    place_instance-Good m gpu_type (pos (suc n)) all =
        first_pass-Good _ m gpu_type (suc n)
          (place_single-Good gpu_type (suc n) m.pools m.nodes all) all
    place_instance-Good m gpu_type (pos zero) all = all
    place_instance-Good m gpu_type (negsuc n) all = all

    release_nodes-Good :
        (nodes : List (Node Callback)) → AllGood nodes → AllGood (release_nodes id nodes).0
    unfolding release_nodes
    release_nodes-Good [] all = tt
    release_nodes-Good (n ∷ nodes) (good, all) =
        (release_node-IsGood id n good, release_nodes-Good nodes all)

    pub release_instance-Good :
        (m : PlacementManager Callback) → AllGood m.nodes → AllGood (release_instance m id).1.nodes
    unfolding release_instance
    release_instance-Good m all = elim (Bool-cases (any_holds id m.nodes)) [
      | inl held ↦ rw held (release_nodes-Good m.nodes all)
      | inr gone ↦ rw gone all
    ]

  put_node-Good :
      (n : Node Callback) (nodes : List (Node Callback))
      → IsGood n
      → AllGood nodes
      → AllGood (put_node n nodes)
  unfolding put_node
  put_node-Good n [] good all = tt
  put_node-Good n (x ∷ nodes) good (first, all) = elim (Bool-cases (same_text x.id n.id)) [
    | inl same ↦ rw same (good, all)
    | inr other ↦ rw other (first, put_node-Good n nodes good all)
  ]

  find_node-Good :
      (id : String) (nodes : List (Node Callback)) → AllGood nodes → GoodFound (find_node id nodes)
  unfolding find_node
  find_node-Good id [] all = tt
  find_node-Good id (x ∷ nodes) (first, all) = elim (Bool-cases (same_text x.id id)) [
    | inl same ↦ rw same first
    | inr other ↦ rw other (find_node-Good id nodes all)
  ]

  module _ (m : PlacementManager Callback) (all : AllGood m.nodes) where
    start_drain-Good :
        (cb : Callback) (n : Node Callback)
        → is_ready n.state ≡ true
        → IsGood n
        → GoodResult (start_drain m cb n)
    unfolding start_drain transition_node
    start_drain-Good cb n up good = elim (Bool-cases (is_valid_transition n.state draining)) [
      | inr never ↦ rw never tt
      | inl valid ↦ elim (Bool-cases (allocated_count n.gpus == 0)) [
        | inl empty ↦
            rw (valid, empty) (put_node-Good _ m.nodes (empty-IsGood n up (ground arith) good) all)
        | inr busy ↦
            rw (valid, busy) (put_node-Good _ m.nodes (held-IsGood n cb (ground arith) good) all)
      ]
    ]

    drain_found-Good :
        (cb : Callback) (found : Option (Node Callback))
        → GoodFound found
        → GoodResult (drain_found m cb found)
    unfolding drain_found
    drain_found-Good cb none good = all
    drain_found-Good cb (some n) good = elim (Bool-cases (is_ready n.state)) [
      | inl up ↦ rw up (start_drain-Good cb n up good)
      | inr other ↦ rw other all
    ]

    pub drain_node-Good : (node_id : String) (cb : Callback) → GoodResult (drain_node m node_id cb)
    unfolding drain_node
    drain_node-Good node_id cb = drain_found-Good cb _ (find_node-Good node_id m.nodes all)

    terminate_found-Good :
        (found : Option (Node Callback)) → GoodFound found → GoodResult (terminate_found m found)
    unfolding terminate_found transition_node
    terminate_found-Good none good = all
    terminate_found-Good (some n) good =
        elim (Bool-cases (is_valid_transition n.state terminated)) [
          | inl valid ↦ rw valid (put_node-Good _ m.nodes (terminated-IsGood n good) all)
          | inr never ↦ rw never tt
        ]

    pub mark_node_terminated-Good : (node_id : String) → GoodResult (mark_node_terminated m node_id)
    unfolding mark_node_terminated
    mark_node_terminated-Good node_id = terminate_found-Good _ (find_node-Good node_id m.nodes all)

    ready_found-Good :
        (found : Option (Node Callback)) → GoodFound found → GoodResult (ready_found m found)
    unfolding ready_found transition_node
    ready_found-Good none good = all
    ready_found-Good (some n) good = elim (Bool-cases (is_valid_transition n.state ready)) [
      | inl valid ↦ rw valid (put_node-Good _ m.nodes (started-IsGood n valid good) all)
      | inr never ↦ rw never tt
    ]

    pub mark_node_ready-Good : (node_id : String) → GoodResult (mark_node_ready m node_id)
    unfolding mark_node_ready
    mark_node_ready-Good node_id = ready_found-Good _ (find_node-Good node_id m.nodes all)
