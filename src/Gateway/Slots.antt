-- ===== src/Gateway/Slots.antt =====
-- The places of the queue in the order in which its loops visit them, and the removal of the entry
-- at one.
use inference_sim.Prelude.{
  ℕ, suc, String, List, [], ◌∷◌, ◌++◌, decr, is_zero, Result, ok, nil_dereference,
  index_out_of_range, or_panic, ◌>>=◌, if◌then◌else◌, string_discrete, get_elem?, set, lookup,
  erase,
}
use inference_sim.Request.{Request}
use inference_sim.Gateway.Flows.{FlowEntry, Flows, PriorityBand, sorted_flows, drop_from}
use inference_sim.Gateway.State.{GatewayQueue}

-- An entry with its band's index, its flow's tenant and its index there: what the loops keep of
-- the best entry so far, as `bestEntry`, `bestFlow`, `bestBand` and `bestIdx`.
pub record Slot : Type 0 where
  pub band : ℕ
  pub tenant : String
  pub index : ℕ
  pub entry : FlowEntry

-- for i := range flow.requests
unfoldable pub entry_slots : ℕ → String → ℕ → List FlowEntry → List Slot
entry_slots b tenant i [] = []
entry_slots b tenant i (e ∷ es) =
    record { band = b; tenant = tenant; index = i; entry = e } ∷ entry_slots b tenant (suc i) es

-- for _, tid := range sortedFlowKeys(band.flows)
unfoldable pub flow_slots : ℕ → Flows → List Slot
unfolding entry_slots
flow_slots b [] = []
flow_slots b (f ∷ fs) = entry_slots b f.0 0 f.1.requests ++ flow_slots b fs

-- for _, band := range q.bands
unfoldable pub band_slots : ℕ → List PriorityBand → List Slot
unfolding flow_slots sorted_flows
band_slots b [] = []
band_slots b (band ∷ bands) = flow_slots b (sorted_flows band.flows) ++ band_slots (suc b) bands

-- The head of a flow; an empty flow is passed over.
unfoldable pub head_slot : ℕ → String → List FlowEntry → List Slot
head_slot b tenant [] = []
head_slot b tenant (e ∷ es) = record { band = b; tenant = tenant; index = 0; entry = e } ∷ []

unfoldable pub head_slots : ℕ → Flows → List Slot
unfolding head_slot
head_slots b [] = []
head_slots b (f ∷ fs) = head_slot b f.0 f.1.requests ++ head_slots b fs

-- The heads of all bands, a band that counts no entries being passed over.
unfoldable pub band_heads : ℕ → List PriorityBand → List Slot
unfolding head_slots sorted_flows
band_heads b [] = []
band_heads b (band ∷ bands) =
    (if is_zero band.total_len then [] else head_slots b (sorted_flows band.flows))
    ++ band_heads (suc b) bands

module _ {Float : Type 0} where
  -- The entry leaves its flow, the index and both counts.
  unfoldable pub take_out :
      GatewayQueue Float → ℕ → String → ℕ → Result (Request × GatewayQueue Float)
  unfolding drop_from
  take_out q b tenant i = do
    band ← or_panic (get_elem? q.bands b) nil_dereference
    flow ← or_panic (lookup string_discrete tenant band.flows) nil_dereference
    entry ← or_panic (get_elem? flow.requests i) index_out_of_range
    let bands = set q.bands b (drop_from band tenant flow i)
    let index = erase string_discrete entry.request.id q.request_index
    ok (
      entry.request,
      record q { bands = bands; total_len = decr q.total_len; request_index = index },
    )
