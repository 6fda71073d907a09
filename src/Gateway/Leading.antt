-- ===== src/Gateway/Leading.antt =====
-- The band that Dequeue serves, and the entry of the earliest deadline in its flow.
use inference_sim.Prelude.{
  ℕ, zero, suc, ◌+◌, ◌<◌, String, List, [], ◌∷◌, Option, some, ◌≡◌, refl, ap, ◌∙◌, Bool, true,
  false, ℤ, pos, is_zero, Bool-cases, inl, inr, ok, if◌then◌else◌, length, get_elem?, All,
  All-append, arith, length-append,
}
use inference_sim.SloPriority.{SloPriorityMap}
use inference_sim.Gateway.Flows.{FlowEntry, Flows, PriorityBand}
use inference_sim.Gateway.Dispatch.{
  Earliest, earlier, slo_deadline, deadline_loop, earliest_index, first_busy,
}
use inference_sim.Gateway.Contents.{place, placed_flows, contents, Descending, WellBand, ◌<ℤ◌, ◌≤ℤ◌}
use inference_sim.Gateway.Fifo.{All-empty, idle_length}
use inference_sim.Gateway.Picking.{get_elem?-some}

either_below :
    (b : Bool) (x y : Earliest) (n : ℕ) → x.index < n → y.index < n → (if b then x else y).index < n
either_below true x y n h k = h
either_below false x y n h k = k

deadline_loop_range :
    (targets : Option (List (String × ℤ))) (best : Earliest) (i : ℕ) (es : List FlowEntry)
    → best.index < i + length es
    → (deadline_loop targets best i es).index < i + length es
unfolding deadline_loop
deadline_loop_range targets best i [] h = h
deadline_loop_range targets best i (e ∷ es) h =
    let d = slo_deadline targets e.request in
    let here : Earliest = record { index = i; deadline = d; seq_id = e.seq_id } in
    let next = if earlier d e.seq_id best then here else best in
    let bound : next.index < suc i + length es =
      either_below (earlier d e.seq_id best) here best (suc i + length es) (omega arith)
        (omega arith) in
    omega (arith, deadline_loop_range targets next (suc i) es bound)

pub earliest_stands :
    (targets : Option (List (String × ℤ))) (es : List FlowEntry)
    → 0 < length es
    → (i : ℕ) × (e : FlowEntry) × (earliest_index targets es ≡ ok i) × (get_elem? es i ≡ some e)
unfolding earliest_index
earliest_stands targets [] full = absurd (omega arith)
earliest_stands targets (e ∷ es) full =
    let first : Earliest = record {
      index = 0;
      deadline = slo_deadline targets e.request;
      seq_id = e.seq_id;
    } in
    let found = (deadline_loop targets first 1 es).index in
    let bound = deadline_loop_range targets first 1 es (omega arith) in
    let (d, h) = get_elem?-some (e ∷ es) found (omega arith) in (found, d, refl, h)

-- The first band that holds a request: all of a higher priority are empty.
flow_at_priority :
    (p q : ℤ) (t : String) (es : List FlowEntry)
    → q ≤ℤ p
    → All (λ y. y.priority ≤ℤ p) (place q t es)
flow_at_priority p q t [] h = tt
flow_at_priority p q t (e ∷ es) h = (h, flow_at_priority p q t es h)

pub flows_at : (p q : ℤ) → q ≤ℤ p → (fs : Flows) → All (λ y. y.priority ≤ℤ p) (placed_flows q fs)
unfolding placed_flows
flows_at p q h [] = tt
flows_at p q h (f ∷ fs) =
    All-append (λ y. y.priority ≤ℤ p) (place q f.0 f.1.requests) _
      (flow_at_priority p q f.0 f.1.requests h) (flows_at p q h fs)

pub pos_length : (t : ℤ) (n : ℕ) → t ≡ pos n → is_zero t ≡ false → 0 < n
pos_length t zero e h = let g = rw e at h in cc
pos_length t (suc n) e h = omega arith

pub All-below :
    (p : ℤ) (bands : List PriorityBand)
    → All (λ c. c.priority <ℤ p) bands
    → All (λ y. y.priority ≤ℤ p) (contents bands)
unfolding contents
All-below p [] all = tt
All-below p (c ∷ bands) all =
    All-append (λ y. y.priority ≤ℤ p) (placed_flows c.priority c.flows) _
      (flows_at p c.priority (omega arith) c.flows) (All-below p bands all.1)

pub busy_band :
    (m : SloPriorityMap) (i : ℕ) (bands : List PriorityBand)
    → All (WellBand m) bands
    → Descending bands
    → 0 < length (contents bands)
    → (k : ℕ) × (band : PriorityBand) × (first_busy i bands ≡ some (i + k))
      × (get_elem? bands k ≡ some band)
      × (0 < length (placed_flows band.priority band.flows))
      × All (λ y. y.priority ≤ℤ band.priority) (contents bands)
unfolding first_busy contents
busy_band m i [] w d full = absurd (omega arith)
busy_band m i (c ∷ bands) w d full = elim (Bool-cases (is_zero c.total_len)) [
  | inl idle ↦
      let none_here = idle_length c.total_len _ (w.0.counted) idle in
      let more : 0 < length (contents bands) =
        omega (arith, length-append (placed_flows c.priority c.flows) (contents bands)) in
      let (k, band, e, h, busy, top) = busy_band m (suc i) bands w.1 d.1 more in
      (
        suc k,
        band,
        let next : suc i + k ≡ i + suc k = omega arith in rw idle (e ∙ ap some next),
        h,
        busy,
        All-append (λ y. y.priority ≤ℤ band.priority) (placed_flows c.priority c.flows) _
            (All-empty _ _ none_here) top,
      )
  | inr busy ↦ (
    0,
    c,
    let same : i ≡ i + 0 = omega arith in rw busy (ap some same),
    refl,
    pos_length c.total_len _ (w.0.counted) busy,
    All-append (λ y. y.priority ≤ℤ c.priority) (placed_flows c.priority c.flows) _
        (flows_at c.priority c.priority (omega arith) c.flows) (All-below c.priority bands d.0),
  )
]
