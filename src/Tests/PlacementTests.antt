-- ===== src/Tests/PlacementTests.antt =====
-- Runs of sim/cluster/infra_placement.go on two nodes of two GPUs.
use inference_sim.Prelude.{
  ℕ, String, [], ◌∷◌, none, some, ◌≡◌, refl, true, false, All, ℤ, pos, ok, panic, violation, arith,
  ◌<◌,
}
use inference_sim.Placement

-- The callbacks are numbers.
abbrev gpu : String → String → Placement.Gpu
gpu id node_id = record {
  id = id;
  node_id = node_id;
  pool_name = "p";
  gpu_type = "H100";
  allocated_to = "";
}

abbrev node : String → String → String → Placement.NodeState → Placement.Node ℕ
node id first second state = record {
  id = id;
  pool_name = "p";
  gpu_type = "H100";
  total_gpus = 2;
  gpus = gpu first id ∷ gpu second id ∷ [];
  state = state;
  cost_start_time = pos 0;
  drain_callback = none;
}

abbrev pool : Placement.NodePoolConfig
pool = record { name = "p"; gpu_type = "H100"; gpus_per_node = 2 }

abbrev manager : Placement.PlacementManager ℕ
manager = record {
  pools = pool ∷ [];
  nodes = node "p-0" "a" "b" Placement.ready ∷ node "p-1" "c" "d" Placement.ready ∷ [];
  span_warned = false;
}

-- What a call leaves.
abbrev after_placing : String → ℤ → Placement.PlacementManager ℕ
after_placing id degree = (Placement.place_instance manager id "" degree).1

-- Three GPUs fit on no node and are no whole number of nodes; four take both nodes.
refuses_shape :
    (Placement.place_instance manager "x" "" (pos 3)).0 ≡ Placement.refused Placement.unsatisfiable
unfolding Placement.place_instance
refuses_shape = refl

spans_nodes :
    (Placement.place_instance manager "x" "" (pos 4)).0
    ≡ Placement.placed
        (record { node_id = "p-0"; gpus = "a" ∷ "b" ∷ "c" ∷ "d" ∷ []; gpu_type = "H100" })
unfolding Placement.place_instance
spans_nodes = refl

manager-IsGood : All Placement.IsGood manager.nodes
unfolding Placement.IsGood
manager-IsGood = ((refl, refl), ((refl, refl), tt))

two_each : All (λ (n : Placement.Node ℕ). 0 < n.total_gpus) manager.nodes
two_each = (omega arith, (omega arith, tt))

none_held : Placement.any_holds "x" manager.nodes ≡ false
unfolding Placement.any_holds
none_held = refl

place_instance-IsUndone_example :
    Placement.IsUndone "x" manager (Placement.place_instance manager "x" "" (pos 4))
place_instance-IsUndone_example =
    Placement.place_instance-IsUndone "x" manager none_held manager-IsGood two_each "" (pos 4)

-- Placed on the first node, which then drains, and whose callback the release calls.
abbrev one_placed : Placement.PlacementManager ℕ
one_placed = after_placing "x" (pos 1)

abbrev drained : Placement.PlacementManager ℕ
drained = record one_placed {
  nodes =
      record (node "p-0" "a" "b" Placement.draining) {
        gpus = record (gpu "a" "p-0") { allocated_to = "x" } ∷ gpu "b" "p-0" ∷ [];
        drain_callback = some 7;
      }
      ∷ node "p-1" "c" "d" Placement.ready
      ∷ [];
}

drains : Placement.drain_node one_placed "p-0" 7 ≡ ok (some [], drained)
unfolding Placement.drain_node Placement.place_instance
drains = refl

calls_back : (Placement.release_instance drained "x").0 ≡ some (("p-0", 7) ∷ [])
unfolding Placement.release_instance
calls_back = refl

-- A node that was terminated before it was ready cannot be marked ready: the call panics.
late_ready :
    Placement.mark_node_ready
      (record manager { nodes = node "p-0" "a" "b" Placement.terminated ∷ [] })
      "p-0"
    ≡ panic violation
unfolding Placement.mark_node_ready
late_ready = refl

abbrev calls : Placement.Steps manager (Placement.release_instance drained "x").1
calls =
    Placement.step
      (Placement.step (Placement.step Placement.stay (Placement.placing "x" "" (pos 1) _ refl))
        (Placement.draining_node "p-0" 7 (some []) drains))
      (Placement.releasing "x" _ refl)

steps-IsGood_example :
    All Placement.IsGood (Placement.release_instance drained "x").1.nodes
    × (Placement.verify_conservation (Placement.release_instance drained "x").1.nodes ≡ true)
steps-IsGood_example =
    Placement.steps-IsGood manager (Placement.release_instance drained "x").1 manager-IsGood calls
