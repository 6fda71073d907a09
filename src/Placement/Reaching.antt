-- ===== src/Placement/Reaching.antt =====
-- sim/cluster/infra_placement.go: the manager after any sequence of its operations, in any order.
use inference_sim.Prelude.{
  ℕ, ◌+◌, ◌==◌, ◌≡◌, refl, subst, ◌∙◌, String, Option, List, [], ◌∷◌, true, All, ℤ, ok, arith,
}
use inference_sim.Placement.Nodes.{Node}
use inference_sim.Placement.Manager.{PlacementManager, PlaceOutcome, place_instance}
use inference_sim.Placement.Lifecycle.{
  release_instance, drain_node, mark_node_terminated, mark_node_ready, verify_conservation,
}
use inference_sim.Placement.Gpus.{allocated_count-free_count}
use inference_sim.Placement.Armed.{IsGood}
use inference_sim.Placement.Keeping.{
  GoodResult, place_instance-Good, release_instance-Good, drain_node-Good,
  mark_node_terminated-Good, mark_node_ready-Good,
}

-- One call that returns, with or without an error.
pub data Step {Callback : Type 0} (m m1 : PlacementManager Callback) : Type 0 where
  placing :
      (id gpu_type : String) (degree : ℤ) (outcome : PlaceOutcome)
      → place_instance m id gpu_type degree ≡ (outcome, m1)
      → Step m m1
  releasing :
      (id : String) (called : Option (List (String × Callback)))
      → release_instance m id ≡ (called, m1)
      → Step m m1
  draining_node :
      (node_id : String) (cb : Callback) (called : Option (List Callback))
      → drain_node m node_id cb ≡ ok (called, m1)
      → Step m m1
  terminating :
      (node_id : String) (called : Option (List Callback))
      → mark_node_terminated m node_id ≡ ok (called, m1)
      → Step m m1
  readying :
      (node_id : String) (called : Option (List Callback))
      → mark_node_ready m node_id ≡ ok (called, m1)
      → Step m m1

pub data Steps {Callback : Type 0} (m : PlacementManager Callback)
    : PlacementManager Callback → Type 0 where
  stay : Steps m m
  step : {m1 m2 : PlacementManager Callback} → Steps m m1 → Step m1 m2 → Steps m m2

balanced : (a b c : ℕ) → a + b ≡ c → (a + b == c) ≡ true
balanced a b c h = ground arith

module _ {Callback : Type 0} where
  Step-Good :
      (m m1 : PlacementManager Callback) → All IsGood m.nodes → Step m m1 → All IsGood m1.nodes
  Step-Good m m1 all (placing id gpu_type degree outcome e) =
      subst (λ r. All IsGood r.1.nodes) e (place_instance-Good id m gpu_type degree all)
  Step-Good m m1 all (releasing id called e) =
      subst (λ r. All IsGood r.1.nodes) e (release_instance-Good id m all)
  Step-Good m m1 all (draining_node node_id cb called e) =
      subst GoodResult e (drain_node-Good m all node_id cb)
  Step-Good m m1 all (terminating node_id called e) =
      subst GoodResult e (mark_node_terminated-Good m all node_id)
  Step-Good m m1 all (readying node_id called e) =
      subst GoodResult e (mark_node_ready-Good m all node_id)

  Steps-Good :
      (m m1 : PlacementManager Callback) → All IsGood m.nodes → Steps m m1 → All IsGood m1.nodes
  Steps-Good m m1 all stay = all
  Steps-Good m m2 all (step {m1 = m1} steps one) = Step-Good m1 m2 (Steps-Good m m1 all steps) one

  verify_conservation-Good :
      (nodes : List (Node Callback)) → All IsGood nodes → verify_conservation nodes ≡ true
  unfolding verify_conservation IsGood
  verify_conservation-Good [] all = refl
  verify_conservation-Good (n ∷ nodes) (good, all) =
      let whole = balanced _ _ _ (allocated_count-free_count n.gpus ∙ good.0) in
      rw whole (verify_conservation-Good nodes all)

  -- From nodes that are good, any sequence of placements, releases, drains, terminations and
  -- readyings leads only to nodes that are good: on each, the GPUs are as many as its total; a drain
  -- callback is stored only on a Draining node that still has an allocated GPU, and such a node has
  -- one; and no GPU is allocated on a Provisioning or Terminated node. In particular
  -- VerifyConservation passes (INV-A).
  pub steps-IsGood :
      (m m1 : PlacementManager Callback)
      → All IsGood m.nodes
      → Steps m m1
      → All IsGood m1.nodes × (verify_conservation m1.nodes ≡ true)
  steps-IsGood m m1 all steps =
      let kept = Steps-Good m m1 all steps in (kept, verify_conservation-Good m1.nodes kept)
