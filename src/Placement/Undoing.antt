-- ===== src/Placement/Undoing.antt =====
-- sim/cluster/infra_placement.go: releasing an instance takes its placement back.
use inference_sim.Prelude.{
  ℕ, zero, suc, ◌/◌, ◌<◌, ◌==◌, ◌≡◌, refl, sym, ap, ◌∙◌, String, Option, none, some, Bool, true,
  false, ◌&&◌, ◌||◌, Bool-cases, inl, inr, List, [], ◌∷◌, length, All, ltb, leb→le, ℤ, pos, negsuc,
  arith,
}
use inference_sim.Placement.Nodes.{
  NodeState, provisioning, ready, draining, terminated, Gpu, Node, free_count,
}
use inference_sim.Placement.Manager.{
  NodePoolConfig, PlacementManager, Placed, PlaceOutcome, placed, refused, is_ready, is_draining,
  allocate_free, allocate_all, matches, may_span, has_room, is_whole, behind, place_on, on_pool,
  place_single, select_whole, claim_whole, span_on, place_spanning, second_pass, first_pass,
  place_instance,
}
use inference_sim.Placement.Lifecycle.{
  release_gpus, holds, release_node, note_call, release_nodes, any_holds, release_instance,
}
use inference_sim.Placement.Gpus.{
  or_true, or_false, release_gpus-id, release_gpus-allocate_free, release_gpus-allocate_all,
  holds-allocate_free, holds-allocate_all,
}
use inference_sim.Placement.Armed.{IsGood}
use inference_sim.Placement.Keeping.{and_true}

not_draining : (s : NodeState) → is_ready s ≡ true → is_draining s ≡ false
not_draining ready h = refl
not_draining provisioning h = refl
not_draining terminated h = refl
not_draining draining h = sym h

or_left : (a b : Bool) → a ≡ true → (a || b) ≡ true
or_left true b h = refl
or_left false b h = cc h

and_false : (a b c : Bool) → b ≡ false → (a && b && c) ≡ false
and_false false b c h = refl
and_false true false c h = refl
and_false true true c h = cc h

same_count : (a b c : ℕ) → (a == b) ≡ true → c ≡ b → a ≡ c
same_count a b c h e = ground arith

module _ {Callback : Type 0} (id : String) where
  -- A node that the instance is not on is left as it is.
  unheld_node : (n : Node Callback) → holds id n.gpus ≡ false → release_node id n ≡ (n, none)
  unfolding release_node
  unheld_node n h = rw h (ap (λ g. (record n { gpus = g }, none)) (release_gpus-id id n.gpus h))

  unheld_nodes :
      (nodes : List (Node Callback))
      → any_holds id nodes ≡ false
      → release_nodes id nodes ≡ (nodes, [])
  unfolding any_holds release_nodes note_call
  unheld_nodes [] h = refl
  unheld_nodes (n ∷ nodes) h =
      let (first, rest) = or_false (holds id n.gpus) (any_holds id nodes) h in
      ap
        (λ r.
          let (after, called) = r in
          let (left, calls) = release_nodes id nodes in (after ∷ left, note_call n.id called calls))
        (unheld_node n first)
      ∙ ap (λ r. (n ∷ r.0, r.1)) (unheld_nodes nodes rest)

  -- A Ready node whose GPUs come back is as before, and no callback is called.
  restored_node :
      (n : Node Callback) (gpus : List Gpu)
      → is_ready n.state ≡ true
      → release_gpus id gpus ≡ n.gpus
      → release_node id (record n { gpus = gpus }) ≡ (n, none)
  unfolding release_node
  restored_node n gpus up back =
      rw (and_false (holds id gpus) (is_draining n.state) _ (not_draining n.state up))
        (ap (λ g. (record n { gpus = g }, none)) back)

  -- The nodes that a placement leaves, undone by the release.
  abbrev Undoes : List (Node Callback) → List (Node Callback) → Type 0
  Undoes nodes after = (release_nodes id after ≡ (nodes, [])) × (any_holds id after ≡ true)

  prepend :
      (n x : Node Callback) (nodes after : List (Node Callback))
      → release_node id x ≡ (n, none)
      → release_nodes id after ≡ (nodes, [])
      → release_nodes id (x ∷ after) ≡ (n ∷ nodes, [])
  unfolding release_nodes note_call
  prepend n x nodes after one rest =
      ap
        (λ r.
          let (left, called) = r in
          let (more, calls) = release_nodes id after in (left ∷ more, note_call x.id called calls))
        one
      ∙ ap (λ r. (n ∷ r.0, r.1)) rest

  abbrev UndoneTail :
      List (Node Callback) → Option (String × List String × List (Node Callback)) → Type 0
  UndoneTail nodes none = Unit
  UndoneTail nodes (some (node_id, ids, after)) = Undoes nodes after

  abbrev UndonePlaced : List (Node Callback) → Option (Placed × List (Node Callback)) → Type 0
  UndonePlaced nodes none = Unit
  UndonePlaced nodes (some (p, after)) = Undoes nodes after

  behind-Undone :
      (x : Node Callback) (nodes : List (Node Callback))
      (found : Option (String × List String × List (Node Callback)))
      → holds id x.gpus ≡ false
      → UndoneTail nodes found
      → UndoneTail (x ∷ nodes) (behind x found)
  unfolding behind any_holds
  behind-Undone x nodes none h undone = tt
  behind-Undone x nodes (some (node_id, ids, after)) h (back, held) =
      (prepend x x nodes after (unheld_node x h) back, or_true (holds id x.gpus) _ held)

  place_on-Undone :
      (n : ℕ) (pool : String) (nodes : List (Node Callback))
      → any_holds id nodes ≡ false
      → UndoneTail nodes (place_on id (suc n) pool nodes)
  unfolding place_on any_holds
  place_on-Undone n pool [] h = tt
  place_on-Undone n pool (x ∷ nodes) h =
      let (first, rest) = or_false (holds id x.gpus) (any_holds id nodes) h in
      elim (Bool-cases (has_room pool (suc n) x)) [
        | inr full ↦ rw full (behind-Undone x nodes _ first (place_on-Undone n pool nodes rest))
        | inl room ↦
            let (stands, enough) = and_true _ _ room in
            let (pooled, up) = and_true _ _ stands in
            let le = leb→le (suc n) (free_count x.gpus) enough in
            let taken = (allocate_free id (suc n) x.gpus).0 in
            let back = release_gpus-allocate_free id (suc n) x.gpus first in
            rw room (
              prepend x (record x { gpus = taken }) nodes nodes (restored_node x taken up back)
                  (unheld_nodes nodes rest),
              or_left _ _ (holds-allocate_free id n x.gpus le),
            )
      ]

  on_pool-Undone :
      (nodes : List (Node Callback)) (pool : NodePoolConfig)
      (found : Option (String × List String × List (Node Callback)))
      (rest : Option (Placed × List (Node Callback)))
      → UndoneTail nodes found
      → UndonePlaced nodes rest
      → UndonePlaced nodes (on_pool pool found rest)
  unfolding on_pool
  on_pool-Undone nodes pool none rest g h = h
  on_pool-Undone nodes pool (some (node_id, ids, after)) rest g h = g

  place_single-Undone :
      (gpu_type : String) (n : ℕ) (pools : List NodePoolConfig) (nodes : List (Node Callback))
      → any_holds id nodes ≡ false
      → UndonePlaced nodes (place_single id gpu_type (suc n) pools nodes)
  unfolding place_single
  place_single-Undone gpu_type n [] nodes h = tt
  place_single-Undone gpu_type n (pool ∷ pools) nodes h =
      let rest = place_single-Undone gpu_type n pools nodes h in
      elim (Bool-cases (matches gpu_type pool)) [
        | inl fits ↦
            rw fits (on_pool-Undone nodes pool _ _ (place_on-Undone n pool.name nodes h) rest)
        | inr skips ↦ rw skips rest
      ]

  claim_whole-restored :
      (k : ℕ) (pool : String) (nodes : List (Node Callback))
      → any_holds id nodes ≡ false
      → All IsGood nodes
      → release_nodes id (claim_whole id k pool nodes).1 ≡ (nodes, [])
  unfolding claim_whole any_holds IsGood
  claim_whole-restored zero pool nodes h all = unheld_nodes nodes h
  claim_whole-restored (suc k) pool [] h all = unheld_nodes [] h
  claim_whole-restored (suc k) pool (x ∷ nodes) h (good, all) =
      let (first, rest) = or_false (holds id x.gpus) (any_holds id nodes) h in
      elim (Bool-cases (is_whole pool x)) [
        | inr other ↦ rw other (
            prepend x x nodes _ (unheld_node x first)
              (claim_whole-restored (suc k) pool nodes rest all))
        | inl whole ↦
            let (stands, free) = and_true _ _ whole in
            let (pooled, up) = and_true _ _ stands in
            let back = release_gpus-allocate_all id x.gpus (same_count _ _ _ free good.0) in
            rw whole (
              prepend x (record x { gpus = allocate_all id x.gpus }) nodes _
                (restored_node x _ up back) (claim_whole-restored k pool nodes rest all))
      ]

  claim_whole-holds :
      (k : ℕ) (pool : String) (nodes selected : List (Node Callback)) (one : Node Callback)
      → select_whole k pool nodes ≡ one ∷ selected
      → All IsGood nodes
      → All (λ n. 0 < n.total_gpus) nodes
      → any_holds id (claim_whole id k pool nodes).1 ≡ true
  unfolding claim_whole select_whole any_holds IsGood
  claim_whole-holds zero pool nodes selected one e all sized = cc e
  claim_whole-holds (suc k) pool [] selected one e all sized = cc e
  claim_whole-holds (suc k) pool (x ∷ nodes) selected one e (good, all) (size, sized) =
      elim (Bool-cases (is_whole pool x)) [
        | inr other ↦
            let later = rw other at e in
            rw other (
              or_true (holds id x.gpus) _
                (claim_whole-holds (suc k) pool nodes selected one later all sized))
        | inl whole ↦
            let many : 0 < length x.gpus = omega (arith, good.0) in
            rw whole (or_left _ _ (holds-allocate_all id x.gpus many))
      ]

  span_on-Undone :
      (needed : ℕ) (pool : NodePoolConfig) (selected nodes : List (Node Callback))
      (rest : Option (Placed × List (Node Callback)))
      → select_whole needed pool.name nodes ≡ selected
      → any_holds id nodes ≡ false
      → All IsGood nodes
      → All (λ n. 0 < n.total_gpus) nodes
      → UndonePlaced nodes rest
      → UndonePlaced nodes (span_on id needed pool selected nodes rest)
  unfolding span_on
  span_on-Undone needed pool [] nodes rest e h all sized undone = undone
  span_on-Undone needed pool (one ∷ selected) nodes rest e h all sized undone =
      elim (Bool-cases (ltb (suc (length selected)) needed)) [
        | inl short ↦ rw short undone
        | inr enough ↦ rw enough (
          claim_whole-restored needed pool.name nodes h all,
          claim_whole-holds needed pool.name nodes selected one e all sized,
        )
      ]

  place_spanning-Undone :
      (gpu_type : String) (degree : ℕ) (pools : List NodePoolConfig) (nodes : List (Node Callback))
      → any_holds id nodes ≡ false
      → All IsGood nodes
      → All (λ n. 0 < n.total_gpus) nodes
      → UndonePlaced nodes (place_spanning id gpu_type degree pools nodes)
  unfolding place_spanning
  place_spanning-Undone gpu_type degree [] nodes h all sized = tt
  place_spanning-Undone gpu_type degree (pool ∷ pools) nodes h all sized =
      let rest = place_spanning-Undone gpu_type degree pools nodes h all sized in
      let needed = degree / pool.gpus_per_node in
      elim (Bool-cases (matches gpu_type pool && may_span degree pool)) [
        | inl fits ↦ rw fits (
            span_on-Undone needed pool (select_whole needed pool.name nodes) nodes _ refl h all
              sized rest)
        | inr skips ↦ rw skips rest
      ]

  -- A placement that the release takes back, or a refusal that changes nothing.
  unfoldable pub IsUndone :
      PlacementManager Callback → PlaceOutcome × PlacementManager Callback → Type 0
  unfolding release_instance
  IsUndone m (placed p, m1) = release_instance m1 id ≡ (some [], record m1 { nodes = m.nodes })
  IsUndone m (refused e, m1) = m1 ≡ m

  module _ (m : PlacementManager Callback) where
    released :
        (m1 : PlacementManager Callback)
        → Undoes m.nodes m1.nodes
        → release_instance m1 id ≡ (some [], record m1 { nodes = m.nodes })
    unfolding release_instance
    released m1 (back, held) = rw held (ap (λ r. (some r.1, record m1 { nodes = r.0 })) back)

    second_pass-IsUndone :
        (found : Option (Placed × List (Node Callback))) (gpu_type : String) (degree : ℕ)
        → UndonePlaced m.nodes found
        → IsUndone m (second_pass found m gpu_type degree)
    unfolding second_pass IsUndone
    second_pass-IsUndone none gpu_type degree undone = refl
    second_pass-IsUndone (some (p, nodes)) gpu_type degree undone =
        released (record m { nodes = nodes; span_warned = true }) undone

    module _ (free : any_holds id m.nodes ≡ false) (good : All IsGood m.nodes)
        (sized : All (λ n. 0 < n.total_gpus) m.nodes) where
      first_pass-IsUndone :
          (found : Option (Placed × List (Node Callback))) (gpu_type : String) (degree : ℕ)
          → UndonePlaced m.nodes found
          → IsUndone m (first_pass found m id gpu_type degree)
      unfolding first_pass IsUndone
      first_pass-IsUndone none gpu_type degree undone =
          second_pass-IsUndone _ gpu_type degree
            (place_spanning-Undone gpu_type degree m.pools m.nodes free good sized)
      first_pass-IsUndone (some (p, nodes)) gpu_type degree undone =
          released (record m { nodes = nodes }) undone

      -- Where no GPU is allocated to the instance, every node is good (as steps-IsGood keeps it) and
      -- every node has a GPU: PlaceInstance either refuses and leaves the manager as it was, or
      -- places the instance, on one node or across several, and then ReleaseInstance for it succeeds,
      -- calls no drain callback, and gives every node back as it was before.
      pub place_instance-IsUndone :
          (gpu_type : String) (degree : ℤ) → IsUndone m (place_instance m id gpu_type degree)
      unfolding place_instance IsUndone
      place_instance-IsUndone gpu_type (pos (suc n)) =
          first_pass-IsUndone _ gpu_type (suc n)
            (place_single-Undone gpu_type n m.pools m.nodes free)
      place_instance-IsUndone gpu_type (pos zero) = refl
      place_instance-IsUndone gpu_type (negsuc n) = refl
