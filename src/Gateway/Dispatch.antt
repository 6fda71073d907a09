-- ===== src/Gateway/Dispatch.antt =====
-- Dequeue, DequeueGated and RemoveByRequestID, and the counts that the queue reports.
use inference_sim.Prelude.{
  ℕ, suc, ◌-◌, String, List, [], ◌∷◌, Option, some, none, Bool, true, false, ◌&&◌, ◌||◌, ℤ, pos,
  is_zero, eqb_ℤ, ltb_ℤ, leb_ℤ, ◌+ℤ◌, to_int64, Result, ok, panic, violation, nil_dereference,
  index_out_of_range, or_panic, ◌>>=◌, ltb, if◌then◌else◌, string_discrete, length, get_elem?,
  lookup,
}
use inference_sim.Request.{Request}
use inference_sim.Gateway.Flows.{FlowEntry, PriorityBand}
use inference_sim.Gateway.Policy.{FairnessPolicy, pick}
use inference_sim.Gateway.State.{Floats, GatewayQueue, RequestLocation, same}
use inference_sim.Gateway.Slots.{Slot, band_heads, take_out}

-- math.MaxInt64
abbrev pub max_int64 : ℤ
max_int64 = pos 9223372036854775807

-- The target of the request's class.
unfoldable pub class_deadline : Option (List (String × ℤ)) → Request → ℤ
class_deadline none r = max_int64
class_deadline (some targets) r = elim (lookup string_discrete r.slo_class targets) [
  | some target ↦ to_int64 (r.gateway_enqueue_time +ℤ target)
  | none ↦ max_int64
]

-- sloDeadline
unfoldable pub slo_deadline : Option (List (String × ℤ)) → Request → ℤ
unfolding class_deadline to_int64 ◌+ℤ◌ string_discrete
slo_deadline targets r =
    if ltb_ℤ (pos 0) r.slo_target_us
    then to_int64 (r.gateway_enqueue_time +ℤ r.slo_target_us)
    else class_deadline targets r

-- The index of the best entry so far, with its deadline and its sequence number.
pub record Earliest : Type 0 where
  pub index : ℕ
  pub deadline : ℤ
  pub seq_id : ℕ

unfoldable pub earlier : ℤ → ℕ → Earliest → Bool
earlier d seq best = ltb_ℤ d best.deadline || eqb_ℤ d best.deadline && ltb seq best.seq_id

-- The loop of dequeueFromBandSLODeadline from the index i on.
unfoldable pub deadline_loop : Option (List (String × ℤ)) → Earliest → ℕ → List FlowEntry → Earliest
unfolding slo_deadline earlier
deadline_loop targets best i [] = best
deadline_loop targets best i (e ∷ es) =
    let d = slo_deadline targets e.request in
    let here : Earliest = record { index = i; deadline = d; seq_id = e.seq_id } in
    deadline_loop targets (if earlier d e.seq_id best then here else best) (suc i) es

-- Where the entry with the earliest deadline stands in a flow; an empty flow has no index 0.
unfoldable pub earliest_index : Option (List (String × ℤ)) → List FlowEntry → Result ℕ
unfolding deadline_loop
earliest_index targets [] = panic index_out_of_range
earliest_index targets (e ∷ es) =
    let first : Earliest = record {
      index = 0;
      deadline = slo_deadline targets e.request;
      seq_id = e.seq_id;
    } in
    ok (deadline_loop targets first 1 es).index

-- The loop of dequeueFIFO.
unfoldable pub fifo_loop : Option Slot → List Slot → Option Slot
fifo_loop best [] = best
fifo_loop none (s ∷ slots) = fifo_loop (some s) slots
fifo_loop (some best) (s ∷ slots) =
    fifo_loop (some (if ltb s.entry.seq_id best.entry.seq_id then s else best)) slots

-- The index of the first band that counts entries, from i on.
unfoldable pub first_busy : ℕ → List PriorityBand → Option ℕ
first_busy i [] = none
first_busy i (band ∷ bands) = if is_zero band.total_len then first_busy (suc i) bands else some i

-- The band of a priority, by its index from i on.
unfoldable pub band_of : ℕ → List PriorityBand → ℤ → Option ℕ
band_of i [] p = none
band_of i (band ∷ bands) p = if eqb_ℤ band.priority p then some i else band_of (suc i) bands p

-- The index of the entry with a request's id, from i on.
unfoldable pub entry_of : ℕ → List FlowEntry → String → Option ℕ
entry_of i [] id = none
entry_of i (e ∷ es) id = if same e.request.id id then some i else entry_of (suc i) es id

-- A request, nil being `none`, and the queue that is left.
abbrev pub Dispatched : Type 0 → Type 0
Dispatched Float = Option Request × GatewayQueue Float

module _ {Float : Type 0} where
  -- A request that was taken out, beside the rest of the queue.
  unfoldable pub taken : GatewayQueue Float → ℕ → String → ℕ → Result (Dispatched Float)
  unfolding take_out
  taken q b tenant i = do (r, q1) ← take_out q b tenant i; ok (some r, q1)

  -- dequeueFIFO
  unfoldable pub dequeue_fifo : GatewayQueue Float → Result (Dispatched Float)
  unfolding fifo_loop band_heads taken
  dequeue_fifo q = elim (fifo_loop none (band_heads 0 q.bands)) [
    | none ↦ ok (none, q)
    | some best ↦ taken q best.band best.tenant best.index
  ]

  -- The head of the flow that the policy picked, nil being passed on.
  unfoldable pub serve_head :
      GatewayQueue Float → ℕ → Option String × FairnessPolicy → Result (Dispatched Float)
  unfolding taken
  serve_head q b (none, policy) = ok (none, record q { fairness_policy = policy })
  serve_head q b (some tenant, policy) = taken (record q { fairness_policy = policy }) b tenant 0

  -- dequeueFromBand
  unfoldable pub dequeue_from_band : GatewayQueue Float → ℕ → Result (Dispatched Float)
  unfolding pick serve_head
  dequeue_from_band q b = do
    band ← or_panic (get_elem? q.bands b) nil_dereference
    serve_head q b (pick q.fairness_policy band)

  -- The request with the earliest deadline in the flow that the policy picked.
  unfoldable pub serve_earliest :
      GatewayQueue Float
      → ℕ
      → PriorityBand
      → Option String × FairnessPolicy
      → Result (Dispatched Float)
  unfolding taken earliest_index
  serve_earliest q b band (none, policy) = ok (none, record q { fairness_policy = policy })
  serve_earliest q b band (some tenant, policy) = do
    flow ← or_panic (lookup string_discrete tenant band.flows) nil_dereference
    i ← earliest_index q.slo_targets flow.requests
    taken (record q { fairness_policy = policy }) b tenant i

  -- dequeueFromBandSLODeadline
  unfoldable pub dequeue_from_band_slo_deadline : GatewayQueue Float → ℕ → Result (Dispatched Float)
  unfolding pick serve_earliest
  dequeue_from_band_slo_deadline q b = do
    band ← or_panic (get_elem? q.bands b) nil_dereference
    serve_earliest q b band (pick q.fairness_policy band)

  -- dequeuePriority
  unfoldable pub dequeue_priority : GatewayQueue Float → Result (Dispatched Float)
  unfolding first_busy dequeue_from_band
  dequeue_priority q = elim (first_busy 0 q.bands) [
    | none ↦ ok (none, q)
    | some b ↦ dequeue_from_band q b
  ]

  -- dequeueSLODeadline
  unfoldable pub dequeue_slo_deadline : GatewayQueue Float → Result (Dispatched Float)
  unfolding first_busy dequeue_from_band_slo_deadline
  dequeue_slo_deadline q = elim (first_busy 0 q.bands) [
    | none ↦ ok (none, q)
    | some b ↦ dequeue_from_band_slo_deadline q b
  ]

  -- if req == nil { panic(...) }
  unfoldable pub must_dispatch : Dispatched Float → Result (Dispatched Float)
  must_dispatch (none, q) = panic violation
  must_dispatch (some r, q) = ok (some r, q)

  -- Dispatch from one band, by sloDeadlineMode.
  unfoldable pub dequeue_at : Bool → GatewayQueue Float → ℕ → Result (Dispatched Float)
  unfolding dequeue_from_band dequeue_from_band_slo_deadline
  dequeue_at true q b = dequeue_from_band_slo_deadline q b
  dequeue_at false q b = dequeue_from_band q b

  -- The three ways to dequeue, by sloDeadlineMode and priorityMode.
  unfoldable pub dequeue_by : Bool → Bool → GatewayQueue Float → Result (Dispatched Float)
  unfolding dequeue_fifo dequeue_priority dequeue_slo_deadline
  dequeue_by true priority q = dequeue_slo_deadline q
  dequeue_by false true q = dequeue_priority q
  dequeue_by false false q = dequeue_fifo q

  -- Dequeue
  unfoldable pub dequeue : GatewayQueue Float → Result (Dispatched Float)
  unfolding dequeue_by must_dispatch
  dequeue q =
      if is_zero q.total_len
      then ok (none, q)
      else dequeue_by q.slo_deadline_mode q.priority_mode q >>= must_dispatch

  -- RemoveByRequestID, once the index has named a place.
  unfoldable pub remove_at : GatewayQueue Float → ℤ → String → String → Result (Dispatched Float)
  unfolding band_of entry_of taken
  remove_at q p tenant id = do
    b ← or_panic (band_of 0 q.bands p) violation
    band ← or_panic (get_elem? q.bands b) nil_dereference
    flow ← or_panic (lookup string_discrete tenant band.flows) violation
    i ← or_panic (entry_of 0 flow.requests id) violation
    taken q b tenant i

  -- What the index says of the id; nil where it is not there.
  unfoldable pub remove_known :
      GatewayQueue Float → String → Option RequestLocation → Result (Dispatched Float)
  unfolding remove_at
  remove_known q id none = ok (none, q)
  remove_known q id (some loc) = remove_at q loc.band_priority loc.tenant_id id

  -- RemoveByRequestID
  unfoldable pub remove_by_request_id : GatewayQueue Float → String → Result (Dispatched Float)
  unfolding remove_known string_discrete
  remove_by_request_id q id = remove_known q id (lookup string_discrete id q.request_index)

  -- Len
  abbrev pub len : GatewayQueue Float → ℤ
  len q = q.total_len

  -- LenByBand
  unfoldable pub len_by_band : GatewayQueue Float → ℤ → ℤ
  unfolding band_of
  len_by_band q p = elim (band_of 0 q.bands p) [
    | none ↦ pos 0
    | some b ↦ elim (get_elem? q.bands b) [ none ↦ pos 0 | some band ↦ band.total_len ]
  ]

-- The loop of HasNonSheddableWaiting.
unfoldable pub non_sheddable_in : List PriorityBand → Bool
non_sheddable_in [] = false
non_sheddable_in (band ∷ bands) =
    if leb_ℤ (pos 0) band.priority && ltb_ℤ (pos 0) band.total_len
    then true
    else non_sheddable_in bands

-- HasNonSheddableWaiting
unfoldable pub has_non_sheddable_waiting : {Float : Type 0} → GatewayQueue Float → Bool
unfolding non_sheddable_in
has_non_sheddable_waiting q = non_sheddable_in q.bands

module _ (F : Floats) where
  open F use {Float, of_nat, sub, mul, div, at_least}

  -- The saturation at which the band at position i of n is held back.
  unfoldable pub ceiling : Float → ℕ → ℕ → Float
  ceiling threshold n i =
      if ltb 1 n
      then sub (of_nat 1) (div (mul (of_nat i) (sub (of_nat 1) threshold)) (of_nat (n - 1)))
      else of_nat 1

  -- The loop of DequeueGated, from position i of n on.
  unfoldable pub gated_loop :
      GatewayQueue Float → Float → ℕ → ℕ → List PriorityBand → Result (Dispatched Float)
  unfolding ceiling dequeue_at must_dispatch
  gated_loop q saturation n i [] = ok (none, q)
  gated_loop q saturation n i (band ∷ bands) =
      let rest = gated_loop q saturation n (suc i) bands in
      if at_least saturation (ceiling q.usage_limit_threshold n i)
      then ok (none, q)
      else if is_zero band.total_len
      then rest
      else dequeue_at q.slo_deadline_mode q i >>= must_dispatch

  -- DequeueGated
  unfoldable pub dequeue_gated : GatewayQueue Float → Float → Result (Dispatched Float)
  unfolding gated_loop
  dequeue_gated q saturation =
      if is_zero q.total_len
      then ok (none, q)
      else if ltb 0 (length q.bands)
      then gated_loop q saturation (length q.bands) 0 q.bands
      else panic violation
