-- ===== src/Gateway/Scanned.antt =====
-- The scan of every band for a victim sees every entry of the queue.
use inference_sim.Prelude.{
  ℕ, suc, String, List, [], ◌∷◌, ℤ, All, All-append, All-append_left, All-append_right,
}
use inference_sim.Gateway.Flows.{FlowEntry, FlowQueue, Flows, PriorityBand, sorted_flows}
use inference_sim.Gateway.Slots.{entry_slots, flow_slots, band_slots}
use inference_sim.Gateway.Contents.{place, placed_flows, contents}
use inference_sim.Gateway.Locating.{All-sorted_flows}

-- What holds of the entry at every place of the scan holds of every entry.
module _ (R : FlowEntry → Type 0) where
  scanned_entries :
      (b : ℕ) (p : ℤ) (t : String) (i : ℕ) (es : List FlowEntry)
      → All (λ s. R s.entry) (entry_slots b t i es)
      → All (λ x. R x.entry) (place p t es)
  unfolding entry_slots
  scanned_entries b p t i [] h = tt
  scanned_entries b p t i (e ∷ es) h = (h.0, scanned_entries b p t (suc i) es h.1)

  scanned_flows :
      (b : ℕ) (fs : Flows)
      → All (λ s. R s.entry) (flow_slots b fs)
      → All (λ f. All (λ s. R s.entry) (entry_slots b f.0 0 f.1.requests)) fs
  unfolding flow_slots
  scanned_flows b [] h = tt
  scanned_flows b (f ∷ fs) h = (
    All-append_left (λ s. R s.entry) (entry_slots b f.0 0 f.1.requests) (flow_slots b fs) h,
    scanned_flows b fs
        (All-append_right (λ s. R s.entry) (entry_slots b f.0 0 f.1.requests) (flow_slots b fs) h),
  )

  flows_placed :
      (b : ℕ) (p : ℤ) (fs : Flows)
      → All (λ f. All (λ s. R s.entry) (entry_slots b f.0 0 f.1.requests)) fs
      → All (λ x. R x.entry) (placed_flows p fs)
  unfolding placed_flows
  flows_placed b p [] h = tt
  flows_placed b p (f ∷ fs) h =
      All-append (λ x. R x.entry) (place p f.0 f.1.requests) _
        (scanned_entries b p f.0 0 f.1.requests h.0) (flows_placed b p fs h.1)

  pub scanned_contents :
      (b : ℕ) (bands : List PriorityBand)
      → All (λ s. R s.entry) (band_slots b bands)
      → All (λ x. R x.entry) (contents bands)
  unfolding contents band_slots
  scanned_contents b [] h = tt
  scanned_contents b (c ∷ bands) h =
      let Flow : String × FlowQueue → Type 0 =
        λ f. All (λ s. R s.entry) (entry_slots b f.0 0 f.1.requests) in
      let here = All-append_left (λ s. R s.entry) (flow_slots b (sorted_flows c.flows)) _ h in
      let there = All-append_right (λ s. R s.entry) (flow_slots b (sorted_flows c.flows)) _ h in
      All-append (λ x. R x.entry) (placed_flows c.priority c.flows) _
        (flows_placed b c.priority c.flows
          (All-sorted_flows Flow c.flows (scanned_flows b (sorted_flows c.flows) here)))
        (scanned_contents (suc b) bands there)
