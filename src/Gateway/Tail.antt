-- ===== src/Gateway/Tail.antt =====
-- The victim stands at the tail of its flow.
use inference_sim.Prelude.{
  ℕ, zero, suc, ◌+◌, ◌<◌, ◌≤◌, String, List, [], ◌∷◌, Option-cases, none, some, ◌≡◌, refl, sym, ap,
  subst, ◌∙◌, ◌⊎◌, inl, inr, true, ltb_ℤ, pos, string_discrete, length, get_elem?, lookup, All,
  All-append_left, All-append_right, All-lookup, All-get_elem?, arith,
}
use inference_sim.SloPriority.{SloPriorityMap, priority, is_sheddable}
use inference_sim.Gateway.Flows.{FlowEntry, FlowQueue, Flows, PriorityBand, sorted_flows}
use inference_sim.Gateway.Slots.{Slot, entry_slots, flow_slots, band_slots}
use inference_sim.Gateway.Contents.{◌<ℤ◌, ◌≤ℤ◌, Increasing, WellFlow, WellBand}
use inference_sim.Gateway.Locating.{Stands, All-sorted_flows}
use inference_sim.Gateway.Shedding.{Worst}

abbrev slot : ℕ → String → ℕ → FlowEntry → Slot
slot b t i e = record { band = b; tenant = t; index = i; entry = e }

-- The scan visits every place of the queue.
module _ (P : Slot → Type 0) where
  entry_visited :
      (b : ℕ) (t : String) (i : ℕ) (es : List FlowEntry) (j : ℕ) (e : FlowEntry)
      → All P (entry_slots b t i es)
      → get_elem? es j ≡ some e
      → P (slot b t (i + j) e)
  unfolding entry_slots
  entry_visited b t i [] j e all h = cc
  entry_visited b t i (d ∷ es) zero e all h =
      let same : d ≡ e = ground arith in
      let at_0 : i ≡ i + 0 = omega arith in
      subst (λ n. P (slot b t n e)) at_0 (subst (λ x. P (slot b t i x)) same all.0)
  entry_visited b t i (d ∷ es) (suc j) e all h =
      let next : suc i + j ≡ i + suc j = omega arith in
      subst (λ n. P (slot b t n e)) next (entry_visited b t (suc i) es j e all.1 h)

  flows_visited :
      (b : ℕ) (fs : Flows)
      → All P (flow_slots b fs)
      → All (λ f. All P (entry_slots b f.0 0 f.1.requests)) fs
  unfolding flow_slots
  flows_visited b [] all = tt
  flows_visited b (f ∷ fs) all = (
    All-append_left P (entry_slots b f.0 0 f.1.requests) (flow_slots b fs) all,
    flows_visited b fs
        (All-append_right P (entry_slots b f.0 0 f.1.requests) (flow_slots b fs) all),
  )

  place_visited :
      (b : ℕ) (bands : List PriorityBand) (k : ℕ) (band : PriorityBand) (t : String)
      (flow : FlowQueue) (j : ℕ) (e : FlowEntry)
      → All P (band_slots b bands)
      → get_elem? bands k ≡ some band
      → lookup string_discrete t band.flows ≡ some flow
      → get_elem? flow.requests j ≡ some e
      → P (slot (b + k) t j e)
  unfolding band_slots
  place_visited b [] k band t flow j e all band_at flow_at entry_at = cc
  place_visited b (c ∷ bands) zero band t flow j e all band_at flow_at entry_at =
      let same : c ≡ band = ground arith in
      let here = All-append_left P (flow_slots b (sorted_flows c.flows)) _ all in
      let Visits : String × FlowQueue → Type 0 = λ f. All P (entry_slots b f.0 0 f.1.requests) in
      let each = All-sorted_flows Visits c.flows (flows_visited b (sorted_flows c.flows) here) in
      let each' : All Visits band.flows =
        subst (λ (d : PriorityBand). All Visits d.flows) same each in
      let flow_slots_of = All-lookup string_discrete Visits t flow band.flows flow_at each' in
      let found = entry_visited b t 0 flow.requests j e flow_slots_of entry_at in
      let at_b : b ≡ b + 0 = omega arith in
      let at_j : 0 + j ≡ j = omega arith in
      subst (λ n. P (slot n t j e)) at_b (subst (λ n. P (slot b t n e)) at_j found)
  place_visited b (c ∷ bands) (suc k) band t flow j e all band_at flow_at entry_at =
      let next : suc b + k ≡ b + suc k = omega arith in
      subst (λ n. P (slot n t j e)) next
        (place_visited (suc b) bands k band t flow j e
          (All-append_right P (flow_slots b (sorted_flows c.flows)) _ all) band_at flow_at entry_at)

Increasing-next :
    (es : List FlowEntry) (i : ℕ) (a b : FlowEntry)
    → Increasing es
    → get_elem? es i ≡ some a
    → get_elem? es (suc i) ≡ some b
    → a.seq_id < b.seq_id
Increasing-next [] i a b inc at_a at_b = cc
Increasing-next (e ∷ es) zero a b inc at_a at_b =
    let same : e ≡ a = ground arith in
    subst (λ (x : FlowEntry). x.seq_id < b.seq_id) same
      (All-get_elem? (λ d. e.seq_id < d.seq_id) es 0 b at_b inc.0)
Increasing-next (e ∷ es) (suc i) a b inc at_a at_b = Increasing-next es i a b inc.1 at_a at_b

ends_at :
    (es : List FlowEntry) (i : ℕ) (a : FlowEntry)
    → get_elem? es i ≡ some a
    → get_elem? es (suc i) ≡ none
    → suc i ≡ length es
ends_at [] i a h last = cc
ends_at (e ∷ []) zero a h last = refl
ends_at (e ∷ d ∷ es) zero a h last = cc
ends_at (e ∷ es) (suc i) a h last = ap suc (ends_at es i a h last)

module _ (m : SloPriorityMap) (bands : List PriorityBand) (v : Slot) (st : Stands bands v)
    (well : All (WellBand m) bands) (sheddable : is_sheddable m v.entry.request.slo_class ≡ true)
    (worst : All (Worst m v) (band_slots 0 bands)) where
  its_flow : WellFlow m st.in_band.priority (v.tenant, st.in_flow)
  its_flow =
      All-lookup string_discrete (WellFlow m st.in_band.priority) v.tenant st.in_flow
        st.in_band.flows st.flow_at
        (All-get_elem? (WellBand m) bands v.band st.in_band st.band_at well).well

  class_of :
      (i : ℕ) (e : FlowEntry)
      → get_elem? st.in_flow.requests i ≡ some e
      → priority m e.request.slo_class ≡ st.in_band.priority
  class_of i e h =
      All-get_elem? (λ d. priority m d.request.slo_class ≡ st.in_band.priority) st.in_flow.requests
        i e h (its_flow.classed)

  contradict :
      (e : FlowEntry)
      → priority m e.request.slo_class ≡ priority m v.entry.request.slo_class
      → v.entry.seq_id < e.seq_id
      → (priority m v.entry.request.slo_class <ℤ priority m e.request.slo_class)
        ⊎ ((priority m v.entry.request.slo_class ≤ℤ priority m e.request.slo_class)
            × (priority m e.request.slo_class ≤ℤ priority m v.entry.request.slo_class)
            × (e.seq_id ≤ v.entry.seq_id))
      → ⊥
  contradict e same later (inl h) = let g = rw same at h in omega arith
  contradict e same later (inr h) = omega arith

  -- A later entry of the flow would have been the victim.
  no_later : (e : FlowEntry) → get_elem? st.in_flow.requests (suc v.index) ≡ some e → ⊥
  unfolding is_sheddable
  no_later e h =
      let same : priority m e.request.slo_class ≡ priority m v.entry.request.slo_class =
        class_of (suc v.index) e h ∙ sym (class_of v.index v.entry st.entry_at) in
      let visited =
        place_visited (Worst m v) 0 bands v.band st.in_band v.tenant st.in_flow (suc v.index) e
          worst st.band_at st.flow_at h in
      let also : is_sheddable m e.request.slo_class ≡ true =
        ap (λ p. ltb_ℤ p (pos 0)) same ∙ sheddable in
      let later =
        Increasing-next st.in_flow.requests v.index v.entry e its_flow.ordered st.entry_at h in
      contradict e same later (visited also)

  pub victim-tail : suc v.index ≡ length st.in_flow.requests
  victim-tail = elim (Option-cases (get_elem? st.in_flow.requests (suc v.index))) [
    | inl last ↦ ends_at st.in_flow.requests v.index v.entry st.entry_at last
    | inr (e, h) ↦ absurd (no_later e h)
  ]
