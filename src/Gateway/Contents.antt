-- ===== src/Gateway/Contents.antt =====
-- What the queue holds, as one list, and the invariant that ties the counts, the order of the
-- bands and the index to it.
use inference_sim.Prelude.{
  ◌+◌, ◌<◌, ◌≤◌, String, List, [], ◌∷◌, ◌++◌, map, ◌≡◌, ℤ, pos, pos_part, neg_part, string_discrete,
  length, lookup, UniqueKeys, All,
}
use inference_sim.SloPriority.{SloPriorityMap, priority}
use inference_sim.Gateway.Flows.{FlowEntry, FlowQueue, Flows, PriorityBand}
use inference_sim.Gateway.State.{GatewayQueue, RequestLocation}

-- An entry with its band's priority and its flow's tenant.
pub record Placed : Type 0 where
  pub entry : FlowEntry
  pub priority : ℤ
  pub tenant : String

abbrev pub place : ℤ → String → List FlowEntry → List Placed
place p tenant [] = []
place p tenant (e ∷ es) = record { entry = e; priority = p; tenant = tenant } ∷ place p tenant es

unfoldable pub placed_flows : ℤ → Flows → List Placed
placed_flows p [] = []
placed_flows p (f ∷ fs) = place p f.0 f.1.requests ++ placed_flows p fs

unfoldable pub contents : List PriorityBand → List Placed
unfolding placed_flows
contents [] = []
contents (band ∷ bands) = placed_flows band.priority band.flows ++ contents bands

infix 50 ◌<ℤ◌
abbrev pub ◌<ℤ◌ : ℤ → ℤ → Type 0
a <ℤ b = pos_part a + neg_part b < pos_part b + neg_part a

infix 50 ◌≤ℤ◌
abbrev pub ◌≤ℤ◌ : ℤ → ℤ → Type 0
a ≤ℤ b = pos_part a + neg_part b ≤ pos_part b + neg_part a

-- The bands stand from the highest priority down.
abbrev pub Descending : List PriorityBand → Type 0
Descending [] = Unit
Descending (band ∷ bands) = All (λ c. c.priority <ℤ band.priority) bands × Descending bands

-- A flow is in order of arrival.
abbrev pub Increasing : List FlowEntry → Type 0
Increasing [] = Unit
Increasing (e ∷ es) = All (λ d. e.seq_id < d.seq_id) es × Increasing es

-- A flow under its tenant, not empty, in order, and of requests of the band's priority.
pub record WellFlow (m : SloPriorityMap) (p : ℤ) (f : String × FlowQueue) : Type 0 where
  pub keyed : f.1.key.tenant_id ≡ f.0
  pub busy : 0 < length f.1.requests
  pub classed : All (λ e. priority m e.request.slo_class ≡ p) f.1.requests
  pub ordered : Increasing f.1.requests

pub record WellBand (m : SloPriorityMap) (band : PriorityBand) : Type 0 where
  pub unique : UniqueKeys string_discrete band.flows
  pub well : All (WellFlow m band.priority) band.flows
  pub counted : band.total_len ≡ pos (length (placed_flows band.priority band.flows))

-- The place of an entry as the index records it.
abbrev pub indexed : Placed → String × RequestLocation
indexed p = (p.entry.request.id, record { band_priority = p.priority; tenant_id = p.tenant })

pub record IsValid {Float : Type 0} (q : GatewayQueue Float) : Type 0 where
  pub well : All (WellBand q.priority_map) q.bands
  pub descending : Descending q.bands
  pub counted : q.total_len ≡ pos (length (contents q.bands))
  pub unique : UniqueKeys string_discrete (map indexed (contents q.bands))
  pub index_unique : UniqueKeys string_discrete q.request_index
  pub index :
      (id : String)
      → lookup string_discrete id q.request_index
        ≡ lookup string_discrete id (map indexed (contents q.bands))
