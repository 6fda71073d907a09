-- ===== src/Gateway/Priority.antt =====
-- Dequeue in the two priority modes, and DequeueGated: the request comes from the highest band that
-- holds one.
use inference_sim.Prelude.{
  ℕ, suc, ◌<◌, String, List, [], ◌∷◌, none, some, ◌≡◌, refl, sym, ap, subst, ◌∙◌, Bool, true, false,
  ℤ, is_zero, Bool-cases, ◌⊎◌, inl, inr, Result, ok, ◌>>=◌, ltb, or_panic, nil_dereference, lt→ltb,
  string_discrete, length, get_elem?, lookup, All, All-append, All-get_elem?, arith, length-append,
}
use inference_sim.Gateway.Flows.{FlowEntry, FlowQueue, PriorityBand}
use inference_sim.Gateway.Policy.{FairnessPolicy, pick}
use inference_sim.Gateway.State.{Floats, GatewayQueue}
use inference_sim.Gateway.Dispatch.{
  Dispatched, earliest_index, first_busy, taken, dequeue, dequeue_by, dequeue_priority, dequeue_at,
  dequeue_slo_deadline, dequeue_from_band, dequeue_from_band_slo_deadline, must_dispatch,
  serve_head, serve_earliest, ceiling, dequeue_gated, gated_loop,
}
use inference_sim.Gateway.Contents.{
  Placed, placed_flows, contents, Descending, WellBand, IsValid, ◌≤ℤ◌,
}
use inference_sim.Gateway.Taking.{Taken, placed_at, take_out-Taken}
use inference_sim.Gateway.Locating.{From, From-head, From-tail, From-all}
use inference_sim.Gateway.Fifo.{All-empty, idle_length, busy_length, dequeue_busy}
use inference_sim.Gateway.Picking.{pick-Serves}
use inference_sim.Gateway.Leading.{earliest_stands, flows_at, pos_length, All-below, busy_band}

module _ {Float : Type 0} (q : GatewayQueue Float) (v : IsValid q) where
  -- The queue with its policy's cursor moved.
  abbrev with_policy : FairnessPolicy → GatewayQueue Float
  with_policy policy = record q { fairness_policy = policy }

  with_policy-IsValid : (policy : FairnessPolicy) → IsValid (with_policy policy)
  with_policy-IsValid policy = record {
    well = v.well;
    descending = v.descending;
    counted = v.counted;
    unique = v.unique;
    index_unique = v.index_unique;
    index = v.index;
  }

  module _ (b : ℕ) (band : PriorityBand) (band_at : get_elem? q.bands b ≡ some band)
      (full : 0 < length (placed_flows band.priority band.flows)) where
    abbrev FromBand : Result (Dispatched Float) → Type 0
    FromBand outcome =
        (x : Placed) × (q1 : GatewayQueue Float) × (outcome ≡ ok (some x.entry.request, q1))
        × Taken q x q1
        × (x.priority ≡ band.priority)

    taken-FromBand :
        (policy : FairnessPolicy) (t : String) (i : ℕ) (flow : FlowQueue) (e : FlowEntry)
        → lookup string_discrete t band.flows ≡ some flow
        → get_elem? flow.requests i ≡ some e
        → FromBand (taken (with_policy policy) b t i)
    unfolding taken
    taken-FromBand policy t i flow e flow_at entry_at =
        let (q1, r, t1) =
          take_out-Taken (with_policy policy) b t i band flow e (with_policy-IsValid policy) band_at
            flow_at entry_at in
        (
          placed_at band t e,
          q1,
          rw r refl,
          record { gone = t1.gone; valid = t1.valid; bands = t1.bands; settings = t1.settings },
          refl,
        )

    from_band_steps :
        (policy : FairnessPolicy) (t : String)
        → pick q.fairness_policy band ≡ (some t, policy)
        → dequeue_from_band q b ≡ taken (with_policy policy) b t 0
    unfolding dequeue_from_band serve_head
    from_band_steps policy t picked =
        ap
          (λ o. or_panic o nil_dereference >>= λ (c : PriorityBand).
            serve_head q b (pick q.fairness_policy c))
          band_at
        ∙ ap (serve_head q b) picked

    deadline_steps :
        (policy : FairnessPolicy) (t : String) (flow : FlowQueue) (i : ℕ)
        → pick q.fairness_policy band ≡ (some t, policy)
        → lookup string_discrete t band.flows ≡ some flow
        → earliest_index q.slo_targets flow.requests ≡ ok i
        → dequeue_from_band_slo_deadline q b ≡ taken (with_policy policy) b t i
    unfolding dequeue_from_band_slo_deadline serve_earliest
    deadline_steps policy t flow i picked flow_at at_i =
        let found : ℕ → Result (Dispatched Float) = λ j. taken (with_policy policy) b t j in
        ap
          (λ o. or_panic o nil_dereference >>= λ (c : PriorityBand).
            serve_earliest q b c (pick q.fairness_policy c))
          band_at
        ∙ ap (serve_earliest q b band) picked
        ∙ ap
            (λ o. or_panic o nil_dereference >>= λ (f : FlowQueue).
              earliest_index q.slo_targets f.requests >>= found)
            flow_at
        ∙ ap (λ (r : Result ℕ). r >>= found) at_i

    dequeue_from_band-FromBand : FromBand (dequeue_from_band q b)
    dequeue_from_band-FromBand =
        let well = All-get_elem? (WellBand q.priority_map) q.bands b band band_at v.well in
        let (t, policy, picked, s) = pick-Serves q.priority_map band q.fairness_policy well full in
        let first : get_elem? s.flow.requests 0 ≡ some s.head =
          ap (λ ds. get_elem? ds 0) s.requests in
        let (x, q1, e, t1, p) = taken-FromBand policy t 0 s.flow s.head s.flow_at first in
        (x, q1, from_band_steps policy t picked ∙ e, t1, p)

    dequeue_from_band_slo_deadline-FromBand : FromBand (dequeue_from_band_slo_deadline q b)
    dequeue_from_band_slo_deadline-FromBand =
        let well = All-get_elem? (WellBand q.priority_map) q.bands b band band_at v.well in
        let (t, policy, picked, s) = pick-Serves q.priority_map band q.fairness_policy well full in
        let busy : 0 < length s.flow.requests = rw (s.requests) (omega arith) in
        let (i, d, at_i, stands) = earliest_stands q.slo_targets s.flow.requests busy in
        let (x, q1, e, t1, p) = taken-FromBand policy t i s.flow d s.flow_at stands in
        (x, q1, deadline_steps policy t s.flow i picked (s.flow_at) at_i ∙ e, t1, p)

  -- A request of a priority that no entry of the queue exceeds.
  abbrev Top : Result (Dispatched Float) → Type 0
  Top outcome =
      (x : Placed) × (q1 : GatewayQueue Float) × (outcome ≡ ok (some x.entry.request, q1))
      × Taken q x q1
      × All (λ y. y.priority ≤ℤ x.priority) (contents q.bands)

  from_band-Top :
      (p : ℤ) (outcome whole : Result (Dispatched Float))
      → whole ≡ outcome
      → (x : Placed) × (q1 : GatewayQueue Float) × (outcome ≡ ok (some x.entry.request, q1))
        × Taken q x q1
        × (x.priority ≡ p)
      → All (λ y. y.priority ≤ℤ p) (contents q.bands)
      → Top whole
  from_band-Top p outcome whole same (x, q1, e, t, at_p) top = (
    x,
    q1,
    same ∙ e,
    t,
    subst (λ r. All (λ y. y.priority ≤ℤ r) (contents q.bands)) (sym at_p) top,
  )

  mode-Top :
      (deadline priority : Bool)
      → (deadline ≡ true) ⊎ ((deadline ≡ false) × (priority ≡ true))
      → 0 < length (contents q.bands)
      → Top (dequeue_by deadline priority q)
  unfolding dequeue_by dequeue_priority dequeue_slo_deadline
  mode-Top true priority mode full =
      let (b, band, e, h, busy, top) =
        busy_band q.priority_map 0 q.bands v.well v.descending full in
      let at_b : first_busy 0 q.bands ≡ some b = e ∙ ap some (omega arith) in
      from_band-Top band.priority (dequeue_from_band_slo_deadline q b) _
        (rw (at_b, dequeue_slo_deadline) refl)
        (dequeue_from_band_slo_deadline-FromBand b band h busy) top
  mode-Top false true mode full =
      let (b, band, e, h, busy, top) =
        busy_band q.priority_map 0 q.bands v.well v.descending full in
      let at_b : first_busy 0 q.bands ≡ some b = e ∙ ap some (omega arith) in
      from_band-Top band.priority (dequeue_from_band q b) _ (rw (at_b, dequeue_priority) refl)
        (dequeue_from_band-FromBand b band h busy) top
  mode-Top false false (inl mode) full = cc
  mode-Top false false (inr mode) full = let g : false ≡ true = mode.1 in cc

  -- In the priority mode and in the deadline mode, a valid queue that holds a request hands one
  -- over whose priority no other exceeds, under either fairness policy: Dequeue does not panic,
  -- and the queue that is left is valid and holds the others.
  pub dequeue-priority :
      (q.slo_deadline_mode ≡ true) ⊎ ((q.slo_deadline_mode ≡ false) × (q.priority_mode ≡ true))
      → 0 < length (contents q.bands)
      → (x : Placed) × (q1 : GatewayQueue Float) × (dequeue q ≡ ok (some x.entry.request, q1))
        × Taken q x q1
        × All (λ y. y.priority ≤ℤ x.priority) (contents q.bands)
  dequeue-priority mode full =
      let (x, q1, e, t, top) = mode-Top q.slo_deadline_mode q.priority_mode mode full in
      let busy = busy_length q.total_len _ v.counted full in
      (
        x,
        q1,
        dequeue_busy q q.slo_deadline_mode q.priority_mode x.entry.request q1 busy refl refl e,
        t,
        top,
      )

has_bands : (bands : List PriorityBand) → 0 < length (contents bands) → ltb 0 (length bands) ≡ true
unfolding contents
has_bands [] full = absurd (omega arith)
has_bands (c ∷ bands) full = lt→ltb 0 (suc (length bands)) (omega arith)

module _ (F : Floats) (q : GatewayQueue F.Float) (v : IsValid q) (saturation : F.Float) where
  -- Whether the saturation reaches the ceiling of the band at a position.
  abbrev pub held : ℕ → Bool
  held i = F.at_least saturation (ceiling F q.usage_limit_threshold (length q.bands) i)

  -- A request was handed over from a band whose ceiling is above the saturation; or none was, and
  -- the queue is as it was.
  abbrev Gated : Result (Dispatched F.Float) → List PriorityBand → Type 0
  Gated outcome bands =
      ((outcome ≡ ok (none, q))
        × ((length (contents bands) ≡ 0)
            ⊎ ((i : ℕ) × (band : PriorityBand) × (get_elem? q.bands i ≡ some band)
                × (held i ≡ true))))
      ⊎ ((x : Placed) × (q1 : GatewayQueue F.Float) × (outcome ≡ ok (some x.entry.request, q1))
          × Taken q x q1
          × ((i : ℕ) × (band : PriorityBand) × (get_elem? q.bands i ≡ some band)
              × (x.priority ≡ band.priority)
              × (held i ≡ false))
          × All (λ y. y.priority ≤ℤ x.priority) (contents bands))

  at-FromBand :
      (deadline : Bool) (b : ℕ) (band : PriorityBand)
      → get_elem? q.bands b ≡ some band
      → 0 < length (placed_flows band.priority band.flows)
      → (x : Placed) × (q1 : GatewayQueue F.Float) × ((dequeue_at deadline q b >>= must_dispatch)
          ≡ ok (some x.entry.request, q1))
        × Taken q x q1
        × (x.priority ≡ band.priority)
  unfolding dequeue_at must_dispatch
  at-FromBand true b band h full =
      let (x, q1, e, t, p) = dequeue_from_band_slo_deadline-FromBand q v b band h full in
      (x, q1, rw e refl, t, p)
  at-FromBand false b band h full =
      let (x, q1, e, t, p) = dequeue_from_band-FromBand q v b band h full in
      (x, q1, rw e refl, t, p)

  skip-Gated :
      (c : PriorityBand) (bands : List PriorityBand) (outcome : Result (Dispatched F.Float))
      → length (placed_flows c.priority c.flows) ≡ 0
      → Gated outcome bands
      → Gated outcome (c ∷ bands)
  unfolding contents
  skip-Gated c bands outcome idle (inl (e, inl empty)) =
      inl (e, inl (omega (arith, length-append (placed_flows c.priority c.flows) (contents bands))))
  skip-Gated c bands outcome idle (inl (e, inr full)) = inl (e, inr full)
  skip-Gated c bands outcome idle (inr (x, q1, e, t, at_i, top)) = inr (
    x,
    q1,
    e,
    t,
    at_i,
    All-append (λ y. y.priority ≤ℤ x.priority) (placed_flows c.priority c.flows) _
        (All-empty _ _ idle) top,
  )

  gated_loop-Gated :
      (i : ℕ) (bands : List PriorityBand)
      → From q.bands i bands
      → All (WellBand q.priority_map) bands
      → Descending bands
      → Gated (gated_loop F q saturation (length q.bands) i bands) bands
  unfolding gated_loop contents
  gated_loop-Gated i [] from w d = inl (refl, inl refl)
  gated_loop-Gated i (c ∷ bands) from w d = elim (Bool-cases (held i)) [
    | inl full ↦ inl (rw full refl, inr (i, c, From-head q.bands i c bands from, full))
    | inr free ↦ elim (Bool-cases (is_zero c.total_len)) [
      | inl idle ↦ rw free (
          rw idle (
            skip-Gated c bands _ (idle_length c.total_len _ (w.0.counted) idle)
              (gated_loop-Gated (suc i) bands (From-tail q.bands i c bands from) w.1 d.1)))
      | inr busy ↦
          let c_at = From-head q.bands i c bands from in
          let (x, q1, e, t, p) =
            at-FromBand q.slo_deadline_mode i c c_at
              (pos_length c.total_len _ (w.0.counted) busy) in
          let top : All (λ y. y.priority ≤ℤ c.priority) (contents (c ∷ bands)) =
            All-append (λ y. y.priority ≤ℤ c.priority) (placed_flows c.priority c.flows) _
              (flows_at c.priority c.priority (omega arith) c.flows)
              (All-below c.priority bands d.0) in
          inr (
            x,
            q1,
            rw free (rw busy e),
            t,
            (i, c, c_at, p, free),
            subst (λ r. All (λ y. y.priority ≤ℤ r) (contents (c ∷ bands))) (sym p) top,
          )
    ]
  ]

  some_bands : 0 < length (contents q.bands) → ltb 0 (length q.bands) ≡ true
  some_bands full = has_bands q.bands full

  -- On a valid queue DequeueGated does not panic. Either it hands over no request and leaves the
  -- queue as it is, and then the queue is empty or the saturation reaches the ceiling at the
  -- position of some band; or it hands over a request whose priority no other exceeds, from a band at
  -- whose position the saturation is below the ceiling, and the queue that is left is valid and
  -- holds the others.
  pub dequeue_gated-Gated :
      ((dequeue_gated F q saturation ≡ ok (none, q))
        × ((length (contents q.bands) ≡ 0)
            ⊎ ((i : ℕ) × (band : PriorityBand) × (get_elem? q.bands i ≡ some band)
                × (held i ≡ true))))
      ⊎ ((x : Placed) × (q1 : GatewayQueue F.Float) × (dequeue_gated F q saturation
            ≡ ok (some x.entry.request, q1))
          × Taken q x q1
          × ((i : ℕ) × (band : PriorityBand) × (get_elem? q.bands i ≡ some band)
              × (x.priority ≡ band.priority)
              × (held i ≡ false))
          × All (λ y. y.priority ≤ℤ x.priority) (contents q.bands))
  unfolding dequeue_gated
  dequeue_gated-Gated = elim (Bool-cases (is_zero q.total_len)) [
    | inl idle ↦ inl (rw idle refl, inl (idle_length q.total_len _ v.counted idle))
    | inr busy ↦
        let some_there = some_bands (pos_length q.total_len _ v.counted busy) in
        rw busy (rw some_there (gated_loop-Gated 0 q.bands (From-all q.bands) v.well v.descending))
  ]
