-- ===== src/Gateway/Flows.antt =====
-- Flows and bands: the queues by tenant within a priority, and what removes an entry from one.
-- `*flowQueue` and `*priorityBand` are shared pointers in the source, each held in one place: a flow
-- is found by its tenant in a band, and a band by its index in the queue.
use inference_sim.Prelude.{
  ℕ, String, List, [], ◌∷◌, ℤ, decr, str_ltb, if◌then◌else◌, erase_idx, insert, erase,
  string_discrete,
}
use inference_sim.Request.{Request}

pub record FlowKey : Type 0 where
  pub tenant_id : String
  pub priority : ℤ

-- Sequence numbers count up from 0.
pub record FlowEntry : Type 0 where
  pub request : Request
  pub seq_id : ℕ

pub record FlowQueue : Type 0 where
  pub key : FlowKey
  pub requests : List FlowEntry

abbrev pub Flows : Type 0
Flows = List (String × FlowQueue)

pub record PriorityBand : Type 0 where
  pub priority : ℤ
  pub flows : Flows
  pub total_len : ℤ

unfoldable pub insert_sorted : String × FlowQueue → Flows → Flows
insert_sorted e [] = e ∷ []
insert_sorted e (f ∷ fs) = if str_ltb e.0 f.0 then e ∷ f ∷ fs else f ∷ insert_sorted e fs

-- sortedFlowKeys, each key with the flow that `band.flows[tid]` then reads.
unfoldable pub sorted_flows : Flows → Flows
unfolding insert_sorted
sorted_flows [] = []
sorted_flows (f ∷ fs) = insert_sorted f (sorted_flows fs)

-- The flow is written back, and deleted by its own key once it is empty.
unfoldable pub settle : String → FlowQueue → Flows → Flows
settle tenant flow flows = elim flow.requests [
  | [] ↦ erase string_discrete flow.key.tenant_id flows
  | e ∷ es ↦ insert string_discrete tenant flow flows
]

-- The entry at an index of a flow goes, and with it one from the band's count.
unfoldable pub drop_from : PriorityBand → String → FlowQueue → ℕ → PriorityBand
unfolding settle
drop_from band tenant flow i =
    let rest = record flow { requests = erase_idx flow.requests i } in
    record band { flows = settle tenant rest band.flows; total_len = decr band.total_len }
