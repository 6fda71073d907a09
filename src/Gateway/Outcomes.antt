-- ===== src/Gateway/Outcomes.antt =====
-- The outcomes of Enqueue in sim/cluster/gateway_queue.go, each with what it leaves.
use inference_sim.Prelude.{
  suc, ◌<◌, List, none, some, ◌≡◌, ◌⊎◌, true, ℤ, Result, ok, length, All, Removes,
}
use inference_sim.SloPriority.{priority, is_sheddable}
use inference_sim.Gateway.Flows.{FlowEntry}
use inference_sim.Gateway.State.{GatewayQueue}
use inference_sim.Gateway.Enqueue.{enqueued, shed_victim, rejected, Outcome}
use inference_sim.Gateway.Contents.{Placed, contents, IsValid, ◌<ℤ◌, ◌≤ℤ◌}
use inference_sim.Gateway.Admitting.{newcomer}

module _ {Float : Type 0} (q : GatewayQueue Float) (p : ℤ) (e : FlowEntry)
    (outcome : Result (Outcome Float)) where
  -- The newcomer was let in, since there was room.
  pub record LetIn : Type 0 where
    pub after : GatewayQueue Float
    pub returns : outcome ≡ ok (enqueued, none, after)
    pub valid : IsValid after
    pub more : Removes (newcomer p e) (contents after.bands) (contents q.bands)
    pub room : (q.max_depth ≡ 0) ⊎ (length (contents q.bands) < q.max_depth)
    pub same_depth : after.max_depth ≡ q.max_depth

  -- The newcomer took the place of a sheddable entry of the lowest priority of all that are
  -- sheddable, and of a lower priority than its own.
  pub record TookPlace : Type 0 where
    pub victim : Placed
    pub rest : List Placed
    pub after : GatewayQueue Float
    pub returns : outcome ≡ ok (shed_victim, some victim.entry.request, after)
    pub valid : IsValid after
    pub gone : Removes victim (contents q.bands) rest
    pub more : Removes (newcomer p e) (contents after.bands) rest
    pub sheddable : is_sheddable q.priority_map victim.entry.request.slo_class ≡ true
    pub lower : priority q.priority_map victim.entry.request.slo_class <ℤ p
    pub lowest :
        All
          (λ z.
            is_sheddable q.priority_map z.entry.request.slo_class ≡ true
            → priority q.priority_map victim.entry.request.slo_class
              ≤ℤ priority q.priority_map z.entry.request.slo_class)
          (contents q.bands)
    pub one_shed : after.shed_count ≡ suc q.shed_count
    pub same_depth : after.max_depth ≡ q.max_depth

  -- The newcomer was turned away.
  pub record TurnedAway : Type 0 where
    pub after : GatewayQueue Float
    pub returns : outcome ≡ ok (rejected, none, after)
    pub valid : IsValid after
    pub same_contents : contents after.bands ≡ contents q.bands
    pub one_rejected : after.rejected_count ≡ suc q.rejected_count
    pub same_depth : after.max_depth ≡ q.max_depth

  abbrev pub Enqueues : Type 0
  Enqueues = LetIn ⊎ TookPlace ⊎ TurnedAway
