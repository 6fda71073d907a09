-- ===== src/Gateway/Enqueue.antt =====
-- Enqueue, and the choice of the entry that it sheds.
use inference_sim.Prelude.{
  ℕ, suc, String, List, [], ◌∷◌, ◌++◌, Option, some, none, Bool, true, false, not, ◌&&◌, ◌||◌, ℤ,
  incr, exceeds, ltb_ℤ, eqb_ℤ, Result, ok, violation, nil_dereference, or_panic, require, ◌>>=◌,
  ◌>>◌, ltb, ◌==◌, if◌then◌else◌, string_discrete, length, get_elem?, set, lookup, insert,
}
use inference_sim.Request.{Request}
use inference_sim.SloPriority.{SloPriorityMap, priority, is_sheddable}
use inference_sim.Gateway.Flows.{FlowEntry, FlowQueue, Flows, PriorityBand}
use inference_sim.Gateway.State.{GatewayQueue, RequestLocation, same, find_or_create_band}
use inference_sim.Gateway.Slots.{Slot, band_slots, take_out}

pub data EnqueueOutcome : Type 0 where
  enqueued shed_victim rejected : EnqueueOutcome

abbrev pub slot_priority : SloPriorityMap → Slot → ℤ
slot_priority m s = priority m s.entry.request.slo_class

-- The lowest priority, and of equals the latest arrival.
unfoldable pub worse : SloPriorityMap → Slot → Slot → Bool
worse m s best =
    ltb_ℤ (slot_priority m s) (slot_priority m best)
    || eqb_ℤ (slot_priority m s) (slot_priority m best) && ltb best.entry.seq_id s.entry.seq_id

-- The body of the loops: an entry against the best so far.
unfoldable pub consider_victim : SloPriorityMap → Option Slot → Slot → Option Slot
unfolding worse
consider_victim m none s = if is_sheddable m s.entry.request.slo_class then some s else none
consider_victim m (some best) s =
    if is_sheddable m s.entry.request.slo_class && worse m s best then some s else some best

unfoldable pub victim_loop : SloPriorityMap → Option Slot → List Slot → Option Slot
unfolding consider_victim
victim_loop m best [] = best
victim_loop m best (s ∷ slots) = victim_loop m (consider_victim m best s) slots

-- Whether the newcomer may displace the entry.
unfoldable pub displaces : SloPriorityMap → ℤ → ℕ → Slot → Bool
displaces m p seq best =
    ltb_ℤ (slot_priority m best) p || eqb_ℤ p (slot_priority m best) && ltb seq best.entry.seq_id

-- The best candidate, if there is one and the newcomer may displace it.
unfoldable pub if_displaced : SloPriorityMap → ℤ → ℕ → Option Slot → Option Slot
unfolding displaces
if_displaced m p seq none = none
if_displaced m p seq (some best) = if displaces m p seq best then some best else none

-- requests = append(requests, entry), in the flow that the map holds or in a new one.
unfoldable pub append_to : Option FlowQueue → Flows → String → ℤ → FlowEntry → Flows
append_to (some flow) flows tenant p e =
    insert string_discrete tenant (record flow { requests = flow.requests ++ e ∷ [] }) flows
append_to none flows tenant p e =
    insert string_discrete tenant
      (record { key = record { tenant_id = tenant; priority = p }; requests = e ∷ [] }) flows

unfoldable pub append_entry : Flows → String → ℤ → FlowEntry → Flows
unfolding append_to string_discrete
append_entry flows tenant p e = append_to (lookup string_discrete tenant flows) flows tenant p e

unfoldable pub join_band : PriorityBand → String → ℤ → FlowEntry → PriorityBand
unfolding append_entry
join_band band tenant p e = record band {
  flows = append_entry band.flows tenant p e;
  total_len = incr band.total_len;
}

unfoldable pub tenant_or_default : Request → String
unfolding string_discrete
tenant_or_default req = if same req.tenant_id "" then "default" else req.tenant_id

abbrev pub Outcome : Type 0 → Type 0
Outcome Float = EnqueueOutcome × Option Request × GatewayQueue Float

-- n > 0 && x >= n
abbrev pub reached : ℕ → ℤ → Bool
reached n x = ltb 0 n && not (exceeds n x)

module _ {Float : Type 0} where
  -- findGlobalShedVictim
  unfoldable pub find_global_shed_victim : GatewayQueue Float → ℤ → ℕ → Option Slot
  unfolding victim_loop band_slots if_displaced
  find_global_shed_victim q p seq =
      if_displaced q.priority_map p seq (victim_loop q.priority_map none (band_slots 0 q.bands))

  -- The length of the flow that a slot names.
  abbrev pub flow_length : GatewayQueue Float → ℕ → String → Result ℕ
  flow_length q b tenant = do
    band ← or_panic (get_elem? q.bands b) nil_dereference
    flow ← or_panic (lookup string_discrete tenant band.flows) nil_dereference
    ok (length flow.requests)

  -- removeEntryByIndex: the victim has to be the tail of its flow.
  unfoldable pub remove_entry_by_index :
      GatewayQueue Float → ℕ → String → ℕ → Result (Request × GatewayQueue Float)
  unfolding take_out string_discrete
  remove_entry_by_index q b tenant i = do
    n ← flow_length q b tenant
    require (suc i == n) violation
    take_out q b tenant i

  -- Step 3 of Enqueue.
  unfoldable pub admit : GatewayQueue Float → ℕ → ℤ → FlowEntry → Result (GatewayQueue Float)
  unfolding join_band tenant_or_default
  admit q b p e = do
    band ← or_panic (get_elem? q.bands b) nil_dereference
    let tenant = tenant_or_default e.request
    let location : RequestLocation = record { band_priority = p; tenant_id = tenant }
    ok (record q {
      bands = set q.bands b (join_band band tenant p e);
      total_len = incr q.total_len;
      request_index = insert string_discrete e.request.id location q.request_index;
    })

  unfoldable pub reject : GatewayQueue Float → Outcome Float
  reject q = (rejected, none, record q { rejected_count = suc q.rejected_count })

  -- The victim goes, and the newcomer is let in.
  unfoldable pub shed_and_admit :
      GatewayQueue Float → ℕ → ℤ → FlowEntry → Slot → Result (Outcome Float)
  unfolding remove_entry_by_index admit
  shed_and_admit q b p e victim = do
    (gone, q1) ← remove_entry_by_index q victim.band victim.tenant victim.index
    q2 ← admit (record q1 { shed_count = suc q1.shed_count }) b p e
    ok (shed_victim, some gone, q2)

  -- What the search for a victim has found.
  unfoldable pub shed_found :
      Option Slot → GatewayQueue Float → ℕ → ℤ → FlowEntry → Result (Outcome Float)
  unfolding reject shed_and_admit
  shed_found none q b p e = ok (reject q)
  shed_found (some victim) q b p e = shed_and_admit q b p e victim

  -- Step 2 of Enqueue, once the queue is full, by sheddingEnabled.
  unfoldable pub shed_or_reject :
      Bool → GatewayQueue Float → ℕ → ℤ → FlowEntry → Result (Outcome Float)
  unfolding find_global_shed_victim shed_found reject
  shed_or_reject false q b p e = ok (reject q)
  shed_or_reject true q b p e = shed_found (find_global_shed_victim q p e.seq_id) q b p e

  unfoldable pub admit_outcome : GatewayQueue Float → ℕ → ℤ → FlowEntry → Result (Outcome Float)
  unfolding admit
  admit_outcome q b p e = do q1 ← admit q b p e; ok (enqueued, none, q1)

  -- Step 2 of Enqueue, by the test of the global capacity.
  unfoldable pub check_depth :
      Bool → GatewayQueue Float → ℕ → ℤ → FlowEntry → Result (Outcome Float)
  unfolding shed_or_reject admit_outcome
  check_depth true q b p e = shed_or_reject q.shedding_enabled q b p e
  check_depth false q b p e = admit_outcome q b p e

  -- Step 1 of Enqueue, by the test of the band's capacity.
  unfoldable pub check_band : Bool → GatewayQueue Float → ℕ → ℤ → FlowEntry → Result (Outcome Float)
  unfolding reject check_depth
  check_band true q b p e = ok (reject q)
  check_band false q b p e = check_depth (reached q.max_depth q.total_len) q b p e

  -- Enqueue, once the band is found.
  unfoldable pub enqueue_into : GatewayQueue Float → ℕ → ℤ → FlowEntry → Result (Outcome Float)
  unfolding check_band
  enqueue_into q b p e = do
    band ← or_panic (get_elem? q.bands b) nil_dereference
    check_band (reached q.max_band_capacity band.total_len) q b p e

  -- Enqueue
  unfoldable pub enqueue : GatewayQueue Float → Request → ℕ → Result (Outcome Float)
  unfolding find_or_create_band enqueue_into
  enqueue q req seq =
      let p = priority q.priority_map req.slo_class in
      let (b, q1) = find_or_create_band q p in
      enqueue_into q1 b p (record { request = req; seq_id = seq })
