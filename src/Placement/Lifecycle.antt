-- ===== src/Placement/Lifecycle.antt =====
-- sim/cluster/infra_placement.go: releasing an instance, draining a node, and the counts.
use inference_sim.Prelude.{
  ℕ, suc, ◌+◌, ◌==◌, String, List, [], ◌∷◌, Option, none, some, Bool, true, false, not, ◌&&◌, ◌||◌,
  Result, ok, ◌>>=◌, if◌then◌else◌, string_discrete, str_ltb,
}
use inference_sim.Placement.Nodes.{
  ready, draining, terminated, Gpu, Node, same_text, free_count, allocated_count, transition_node,
}
use inference_sim.Placement.Manager.{PlacementManager, is_ready, is_draining, is_terminated}

-- The GPUs without the instance, and whether it had any of them.
unfoldable pub release_gpus : String → List Gpu → List Gpu
unfolding string_discrete
release_gpus id [] = []
release_gpus id (g ∷ gpus) =
    let rest = release_gpus id gpus in
    if same_text g.allocated_to id then record g { allocated_to = "" } ∷ rest else g ∷ rest

unfoldable pub holds : String → List Gpu → Bool
unfolding string_discrete
holds id [] = false
holds id (g ∷ gpus) = same_text g.allocated_to id || holds id gpus

-- for _, gpu := range node.GPUs { gpu.AllocatedTo = "" }
unfoldable pub clear_gpus : List Gpu → List Gpu
clear_gpus [] = []
clear_gpus (g ∷ gpus) = record g { allocated_to = "" } ∷ clear_gpus gpus

module _ {Callback : Type 0} where
  unfoldable pub any_holds : String → List (Node Callback) → Bool
  unfolding holds
  any_holds id [] = false
  any_holds id (n ∷ nodes) = holds id n.gpus || any_holds id nodes

  -- A node that lost a GPU, is Draining and is now free calls its callback and forgets it.
  unfoldable pub release_node : String → Node Callback → Node Callback × Option Callback
  unfolding release_gpus holds allocated_count
  release_node id n =
      let after = record n { gpus = release_gpus id n.gpus } in
      if holds id n.gpus && is_draining n.state && allocated_count after.gpus == 0
      then (record after { drain_callback = none }, n.drain_callback)
      else (after, none)

  -- The callbacks that are called, by their node's id, in the order of the ids.
  unfoldable pub note_call :
      String → Option Callback → List (String × Callback) → List (String × Callback)
  note_call id none calls = calls
  note_call id (some cb) [] = (id, cb) ∷ []
  note_call id (some cb) (c ∷ calls) =
      if str_ltb id c.0 then (id, cb) ∷ c ∷ calls else c ∷ note_call id (some cb) calls

  unfoldable pub release_nodes :
      String → List (Node Callback) → List (Node Callback) × List (String × Callback)
  unfolding release_node note_call
  release_nodes id [] = ([], [])
  release_nodes id (n ∷ nodes) =
      let (after, called) = release_node id n in
      let (rest, calls) = release_nodes id nodes in (after ∷ rest, note_call n.id called calls)

  -- ReleaseInstance: the callbacks that it calls, or `none` for its error.
  unfoldable pub release_instance :
      PlacementManager Callback
      → String
      → Option (List (String × Callback)) × PlacementManager Callback
  unfolding any_holds release_nodes
  release_instance m id =
      let (nodes, calls) = release_nodes id m.nodes in
      if any_holds id m.nodes then (some calls, record m { nodes = nodes }) else (none, m)

  -- pm.nodesByID[id]
  unfoldable pub find_node : String → List (Node Callback) → Option (Node Callback)
  unfolding string_discrete
  find_node id [] = none
  find_node id (n ∷ nodes) =
      let rest = find_node id nodes in if same_text n.id id then some n else rest

  -- The node of the id, written back.
  unfoldable pub put_node : Node Callback → List (Node Callback) → List (Node Callback)
  unfolding string_discrete
  put_node n [] = []
  put_node n (x ∷ nodes) =
      let rest = put_node n nodes in if same_text x.id n.id then n ∷ nodes else x ∷ rest

  abbrev pub with_node : PlacementManager Callback → Node Callback → PlacementManager Callback
  with_node m n = record m { nodes = put_node n m.nodes }

  -- DrainNode, once the node is known to be Ready.
  unfoldable pub start_drain :
      PlacementManager Callback
      → Callback
      → Node Callback
      → Result (Option (List Callback) × PlacementManager Callback)
  unfolding transition_node allocated_count put_node
  start_drain m cb n = do
    n1 ← transition_node n draining
    if allocated_count n1.gpus == 0
        then ok (some (cb ∷ []), with_node m n1)
        else ok (some [], with_node m (record n1 { drain_callback = some cb }))

  unfoldable pub drain_found :
      PlacementManager Callback
      → Callback
      → Option (Node Callback)
      → Result (Option (List Callback) × PlacementManager Callback)
  unfolding start_drain
  drain_found m cb none = ok (none, m)
  drain_found m cb (some n) = if is_ready n.state then start_drain m cb n else ok (none, m)

  -- DrainNode
  unfoldable pub drain_node :
      PlacementManager Callback
      → String
      → Callback
      → Result (Option (List Callback) × PlacementManager Callback)
  unfolding find_node drain_found
  drain_node m node_id cb = drain_found m cb (find_node node_id m.nodes)

  unfoldable pub pending_call : Option Callback → List Callback
  pending_call none = []
  pending_call (some cb) = cb ∷ []

  unfoldable pub terminate_found :
      PlacementManager Callback
      → Option (Node Callback)
      → Result (Option (List Callback) × PlacementManager Callback)
  unfolding transition_node clear_gpus pending_call put_node
  terminate_found m none = ok (none, m)
  terminate_found m (some n) = do
    n1 ← transition_node n terminated
    ok (
      some (pending_call n1.drain_callback),
      with_node m (record n1 { gpus = clear_gpus n1.gpus; drain_callback = none }),
    )

  -- MarkNodeTerminated
  unfoldable pub mark_node_terminated :
      PlacementManager Callback
      → String
      → Result (Option (List Callback) × PlacementManager Callback)
  unfolding find_node terminate_found
  mark_node_terminated m node_id = terminate_found m (find_node node_id m.nodes)

  unfoldable pub ready_found :
      PlacementManager Callback
      → Option (Node Callback)
      → Result (Option (List Callback) × PlacementManager Callback)
  unfolding transition_node put_node
  ready_found m none = ok (none, m)
  ready_found m (some n) = do n1 ← transition_node n ready; ok (some [], with_node m n1)

  -- MarkNodeReady
  unfoldable pub mark_node_ready :
      PlacementManager Callback
      → String
      → Result (Option (List Callback) × PlacementManager Callback)
  unfolding find_node ready_found
  mark_node_ready m node_id = ready_found m (find_node node_id m.nodes)

  -- NodeCount
  unfoldable pub node_count : List (Node Callback) → ℕ
  node_count [] = 0
  node_count (n ∷ nodes) =
      let rest = node_count nodes in if is_terminated n.state then rest else suc rest

  -- GPUCount
  unfoldable pub gpu_count : String → List (Node Callback) → ℕ
  unfolding string_discrete
  gpu_count pool [] = 0
  gpu_count pool (n ∷ nodes) =
      let rest = gpu_count pool nodes in
      if same_text n.pool_name pool && not (is_terminated n.state)
      then n.total_gpus + rest
      else rest

  -- VerifyConservation: whether every node passes.
  unfoldable pub verify_conservation : List (Node Callback) → Bool
  unfolding free_count allocated_count
  verify_conservation [] = true
  verify_conservation (n ∷ nodes) =
      allocated_count n.gpus + free_count n.gpus == n.total_gpus && verify_conservation nodes
