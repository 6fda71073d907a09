-- ===== src/Placement/Manager.antt =====
-- sim/cluster/infra_placement.go: the manager's operations on the nodes. Every node that enters
-- nodesByID enters nodesByPool too, at the end of its pool's list, so both are read off one list of
-- the nodes in the order of their creation: the nodes of a pool are those that name it, in that order,
-- and a node is found by its id, which no other has.
use inference_sim.Prelude.{
  ℕ, zero, suc, ◌/◌, ◌%◌, ltb, leb, ◌==◌, String, List, [], ◌∷◌, ◌++◌, Option, none, some, Bool,
  true, false, not, ◌&&◌, ◌||◌, ℤ, pos, negsuc, if◌then◌else◌, string_discrete, length,
}
use inference_sim.Placement.Nodes.{
  NodeState, ready, draining, terminated, Gpu, Node, same_text, free_count,
}

-- The fields of NodePoolConfig that placement reads.
pub record NodePoolConfig : Type 0 where
  pub name : String
  pub gpu_type : String
  pub gpus_per_node : ℕ

pub record PlacementManager (Callback : Type 0) : Type 0 where
  pub pools : List NodePoolConfig
  pub nodes : List (Node Callback)
  pub span_warned : Bool

abbrev pub is_ready : NodeState → Bool
is_ready ready = true
is_ready _ = false

abbrev pub is_draining : NodeState → Bool
is_draining draining = true
is_draining _ = false

abbrev pub is_terminated : NodeState → Bool
is_terminated terminated = true
is_terminated _ = false

-- The first n free GPUs, allocated to an instance, and their ids.
unfoldable pub allocate_free : String → ℕ → List Gpu → List Gpu × List String
unfolding string_discrete
allocate_free id zero gpus = (gpus, [])
allocate_free id (suc n) [] = ([], [])
allocate_free id (suc n) (g ∷ gpus) =
    let taken = allocate_free id n gpus in
    let passed = allocate_free id (suc n) gpus in
    if same_text g.allocated_to ""
    then (record g { allocated_to = id } ∷ taken.0, g.id ∷ taken.1)
    else (g ∷ passed.0, passed.1)

-- Every GPU, allocated to an instance.
unfoldable pub allocate_all : String → List Gpu → List Gpu
allocate_all id [] = []
allocate_all id (g ∷ gpus) = record g { allocated_to = id } ∷ allocate_all id gpus

unfoldable pub gpu_ids : List Gpu → List String
gpu_ids [] = []
gpu_ids (g ∷ gpus) = g.id ∷ gpu_ids gpus

-- gpuType == "" || config.GPUType == gpuType
abbrev pub matches : String → NodePoolConfig → Bool
matches gpu_type pool = same_text gpu_type "" || same_text pool.gpu_type gpu_type

-- What PlaceInstance returns on success.
pub record Placed : Type 0 where
  pub node_id : String
  pub gpus : List String
  pub gpu_type : String

-- The errors of PlaceInstance.
pub data PlaceError : Type 0 where
  bad_degree unsatisfiable no_capacity : PlaceError

pub data PlaceOutcome : Type 0 where
  placed : Placed → PlaceOutcome
  refused : PlaceError → PlaceOutcome

-- tpDegreeSatisfiableByShape, with its flag `matched`.
unfoldable pub satisfiable_loop : Bool → String → ℕ → List NodePoolConfig → Bool
satisfiable_loop matched gpu_type degree [] = not matched
satisfiable_loop matched gpu_type degree (pool ∷ pools) =
    let skipped = satisfiable_loop matched gpu_type degree pools in
    let rest = satisfiable_loop true gpu_type degree pools in
    let gpn = pool.gpus_per_node in
    if matches gpu_type pool
    then (if ltb 0 gpn && (leb degree gpn || degree % gpn == 0) then true else rest)
    else skipped

-- A pool that fits on one node, or does not divide the degree, is skipped.
abbrev pub may_span : ℕ → NodePoolConfig → Bool
may_span degree pool =
    ltb 0 pool.gpus_per_node && ltb pool.gpus_per_node degree && degree % pool.gpus_per_node == 0

module _ {Callback : Type 0} where
  -- A Ready node of the pool with room.
  abbrev pub has_room : String → ℕ → Node Callback → Bool
  has_room pool degree n =
      same_text n.pool_name pool && is_ready n.state && leb degree (free_count n.gpus)

  -- A Ready node of the pool that is fully free.
  abbrev pub is_whole : String → Node Callback → Bool
  is_whole pool n =
      same_text n.pool_name pool && is_ready n.state && free_count n.gpus == n.total_gpus

  -- A node that was passed over stays in front.
  unfoldable pub behind :
      Node Callback
      → Option (String × List String × List (Node Callback))
      → Option (String × List String × List (Node Callback))
  behind x none = none
  behind x (some (node_id, ids, nodes)) = some (node_id, ids, x ∷ nodes)

  -- The first node of the pool with room takes the instance.
  unfoldable pub place_on :
      String
      → ℕ
      → String
      → List (Node Callback)
      → Option (String × List String × List (Node Callback))
  unfolding allocate_free free_count behind string_discrete
  place_on id degree pool [] = none
  place_on id degree pool (x ∷ nodes) =
      let rest = place_on id degree pool nodes in
      let (gpus, ids) = allocate_free id degree x.gpus in
      if has_room pool degree x
      then some (x.id, ids, record x { gpus = gpus } ∷ nodes)
      else behind x rest

  unfoldable pub on_pool :
      NodePoolConfig
      → Option (String × List String × List (Node Callback))
      → Option (Placed × List (Node Callback))
      → Option (Placed × List (Node Callback))
  on_pool pool none rest = rest
  on_pool pool (some (node_id, ids, nodes)) rest =
      some (record { node_id = node_id; gpus = ids; gpu_type = pool.gpu_type }, nodes)

  -- Pass 1 of PlaceInstance.
  unfoldable pub place_single :
      String
      → String
      → ℕ
      → List NodePoolConfig
      → List (Node Callback)
      → Option (Placed × List (Node Callback))
  unfolding place_on on_pool string_discrete
  place_single id gpu_type degree [] nodes = none
  place_single id gpu_type degree (pool ∷ pools) nodes =
      let rest = place_single id gpu_type degree pools nodes in
      if matches gpu_type pool then on_pool pool (place_on id degree pool.name nodes) rest else rest

  -- The first whole nodes of the pool, up to a number.
  unfoldable pub select_whole : ℕ → String → List (Node Callback) → List (Node Callback)
  unfolding free_count string_discrete
  select_whole zero pool nodes = []
  select_whole (suc k) pool [] = []
  select_whole (suc k) pool (x ∷ nodes) =
      let taken = select_whole k pool nodes in
      let passed = select_whole (suc k) pool nodes in if is_whole pool x then x ∷ taken else passed

  -- The same nodes, with every GPU allocated, and the ids of the GPUs.
  unfoldable pub claim_whole :
      String → ℕ → String → List (Node Callback) → List String × List (Node Callback)
  unfolding free_count allocate_all gpu_ids string_discrete
  claim_whole id zero pool nodes = ([], nodes)
  claim_whole id (suc k) pool [] = ([], [])
  claim_whole id (suc k) pool (x ∷ nodes) =
      let taken = claim_whole id k pool nodes in
      let passed = claim_whole id (suc k) pool nodes in
      if is_whole pool x
      then (gpu_ids x.gpus ++ taken.0, record x { gpus = allocate_all id x.gpus } ∷ taken.1)
      else (passed.0, x ∷ passed.1)

  -- if len(selectedNodes) < nodesNeeded { continue }, and the commit.
  unfoldable pub span_on :
      String
      → ℕ
      → NodePoolConfig
      → List (Node Callback)
      → List (Node Callback)
      → Option (Placed × List (Node Callback))
      → Option (Placed × List (Node Callback))
  unfolding claim_whole
  span_on id needed pool [] nodes rest = rest
  span_on id needed pool (first ∷ selected) nodes rest =
      let (ids, left) = claim_whole id needed pool.name nodes in
      if ltb (suc (length selected)) needed
      then rest
      else some (record { node_id = first.id; gpus = ids; gpu_type = pool.gpu_type }, left)

  -- Pass 2 of PlaceInstance.
  unfoldable pub place_spanning :
      String
      → String
      → ℕ
      → List NodePoolConfig
      → List (Node Callback)
      → Option (Placed × List (Node Callback))
  unfolding select_whole span_on string_discrete
  place_spanning id gpu_type degree [] nodes = none
  place_spanning id gpu_type degree (pool ∷ pools) nodes =
      let rest = place_spanning id gpu_type degree pools nodes in
      let needed = degree / pool.gpus_per_node in
      if matches gpu_type pool && may_span degree pool
      then span_on id needed pool (select_whole needed pool.name nodes) nodes rest
      else rest

  unfoldable pub place_error : PlacementManager Callback → String → ℕ → PlaceError
  unfolding satisfiable_loop string_discrete
  place_error m gpu_type degree =
      if satisfiable_loop false gpu_type degree m.pools then no_capacity else unsatisfiable

  -- The two passes, by what each has found.
  unfoldable pub second_pass :
      Option (Placed × List (Node Callback))
      → PlacementManager Callback
      → String
      → ℕ
      → PlaceOutcome × PlacementManager Callback
  unfolding place_error
  second_pass none m gpu_type degree = (refused (place_error m gpu_type degree), m)
  second_pass (some (p, nodes)) m gpu_type degree =
      (placed p, record m { nodes = nodes; span_warned = true })

  unfoldable pub first_pass :
      Option (Placed × List (Node Callback))
      → PlacementManager Callback
      → String
      → String
      → ℕ
      → PlaceOutcome × PlacementManager Callback
  unfolding place_spanning second_pass
  first_pass none m id gpu_type degree =
      second_pass (place_spanning id gpu_type degree m.pools m.nodes) m gpu_type degree
  first_pass (some (p, nodes)) m id gpu_type degree = (placed p, record m { nodes = nodes })

  -- PlaceInstance
  unfoldable pub place_instance :
      PlacementManager Callback → String → String → ℤ → PlaceOutcome × PlacementManager Callback
  unfolding place_single first_pass
  place_instance m id gpu_type (pos (suc n)) =
      first_pass (place_single id gpu_type (suc n) m.pools m.nodes) m id gpu_type (suc n)
  place_instance m id gpu_type (pos zero) = (refused bad_degree, m)
  place_instance m id gpu_type (negsuc n) = (refused bad_degree, m)
