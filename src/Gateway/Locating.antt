-- ===== src/Gateway/Locating.antt =====
-- Every place that a loop of the queue visits holds the entry that it reads there, and the loops
-- pass over none.
use inference_sim.Prelude.{
  ℕ, suc, ◌+◌, String, List, [], ◌∷◌, some, ◌≡◌, refl, sym, ap, ◌≢◌, if_pos, if_neg, is_zero,
  str_ltb, Bool-cases, inl, inr, string_discrete, get_elem?, lookup, UniqueKeys, Absent→All, All,
  All-append, arith,
}
use inference_sim.SloPriority.{SloPriorityMap}
use inference_sim.Gateway.Flows.{
  FlowEntry, FlowQueue, Flows, PriorityBand, sorted_flows, insert_sorted,
}
use inference_sim.Gateway.Slots.{
  Slot, entry_slots, flow_slots, band_slots, head_slot, head_slots, band_heads,
}
use inference_sim.Gateway.Contents.{WellBand}

pub All-map₂ {ℓ κ} :
    {A : Type ℓ} (P Q R : A → Type κ)
    → ((x : A) → P x → Q x → R x)
    → (xs : List A) → All P xs
    → All Q xs
    → All R xs
All-map₂ P Q R f [] p q = tt
All-map₂ P Q R f (x ∷ xs) p q = (f x p.0 q.0, All-map₂ P Q R f xs p.1 q.1)

module _ {κ} (P : String × FlowQueue → Type κ) where
  insert_sorted-All :
      (e : String × FlowQueue) (fs : Flows) → P e → All P fs → All P (insert_sorted e fs)
  unfolding insert_sorted
  insert_sorted-All e [] p all = (p, tt)
  insert_sorted-All e (f ∷ fs) p all = elim (Bool-cases (str_ltb e.0 f.0)) [
    | inl before ↦ rw before (p, all)
    | inr after ↦ rw after (all.0, insert_sorted-All e fs p all.1)
  ]

  pub sorted_flows-All : (fs : Flows) → All P fs → All P (sorted_flows fs)
  unfolding sorted_flows
  sorted_flows-All [] all = tt
  sorted_flows-All (f ∷ fs) all =
      insert_sorted-All f (sorted_flows fs) all.0 (sorted_flows-All fs all.1)

  All-insert_sorted :
      (e : String × FlowQueue) (fs : Flows) → All P (insert_sorted e fs) → P e × All P fs
  unfolding insert_sorted
  All-insert_sorted e [] all = (all.0, tt)
  All-insert_sorted e (f ∷ fs) all = elim (Bool-cases (str_ltb e.0 f.0)) [
    | inl before ↦ let whole = rw before at all in (whole.0, whole.1)
    | inr after ↦
        let whole = rw after at all in
        let (p, rest) = All-insert_sorted e fs whole.1 in (p, (whole.0, rest))
  ]

  pub All-sorted_flows : (fs : Flows) → All P (sorted_flows fs) → All P fs
  unfolding sorted_flows
  All-sorted_flows [] all = tt
  All-sorted_flows (f ∷ fs) all =
      let (p, rest) = All-insert_sorted f (sorted_flows fs) all in (p, All-sorted_flows fs rest)

pub All-found :
    (m : Flows)
    → UniqueKeys string_discrete m
    → All (λ f. lookup string_discrete f.0 m ≡ some f.1) m
unfolding lookup
All-found [] u = tt
All-found (e ∷ m) u = (
  rw (if_pos _ refl) refl,
  All-map₂ {A = String × FlowQueue} (λ f. e.0 ≢ f.0) (λ f. lookup string_discrete f.0 m ≡ some f.1)
      (λ f. lookup string_discrete f.0 (e ∷ m) ≡ some f.1)
      (λ (f : String × FlowQueue) (apart : e.0 ≢ f.0)
          (found : lookup string_discrete f.0 m ≡ some f.1).
        rw (if_neg _ (λ (p : f.0 ≡ e.0). apart (sym p))) found)
      m (Absent→All string_discrete e.0 m u.0) (All-found m u.1),
)

-- The band, the flow and the entry that a slot names.
pub record Stands (bands : List PriorityBand) (s : Slot) : Type 0 where
  pub in_band : PriorityBand
  pub in_flow : FlowQueue
  pub band_at : get_elem? bands s.band ≡ some in_band
  pub flow_at : lookup string_discrete s.tenant in_band.flows ≡ some in_flow
  pub entry_at : get_elem? in_flow.requests s.index ≡ some s.entry

module _ (all : List PriorityBand) (b : ℕ) (band : PriorityBand)
    (band_at : get_elem? all b ≡ some band) where
  entry_slots-Stands :
      (t : String) (flow : FlowQueue)
      → lookup string_discrete t band.flows ≡ some flow
      → (i : ℕ) (es : List FlowEntry)
      → ((j : ℕ) (e : FlowEntry)
          → get_elem? es j ≡ some e
          → get_elem? flow.requests (i + j) ≡ some e)
      → All (Stands all) (entry_slots b t i es)
  unfolding entry_slots
  entry_slots-Stands t flow h i [] place = tt
  entry_slots-Stands t flow h i (e ∷ es) place = (
    record {
      in_band = band;
      in_flow = flow;
      band_at = band_at;
      flow_at = h;
      entry_at = let same : i + 0 ≡ i = omega arith in rw same at (place 0 e refl);
    },
    entry_slots-Stands t flow h (suc i) es (λ j d at_j.
        let same : i + suc j ≡ suc i + j = omega arith in rw same at (place (suc j) d at_j)),
  )

  pub flow_slots-Stands :
      (fs : Flows)
      → All (λ f. lookup string_discrete f.0 band.flows ≡ some f.1) fs
      → All (Stands all) (flow_slots b fs)
  unfolding flow_slots
  flow_slots-Stands [] found = tt
  flow_slots-Stands (f ∷ fs) found =
      All-append (Stands all) (entry_slots b f.0 0 f.1.requests) _
        (entry_slots-Stands f.0 f.1 found.0 0 f.1.requests
          (λ j e at_j. let same : 0 + j ≡ j = omega arith in rw same at_j))
        (flow_slots-Stands fs found.1)

  head_slot-Stands :
      (t : String) (flow : FlowQueue) (es : List FlowEntry)
      → lookup string_discrete t band.flows ≡ some flow
      → flow.requests ≡ es
      → All (Stands all) (head_slot b t es)
  unfolding head_slot
  head_slot-Stands t flow [] h same = tt
  head_slot-Stands t flow (e ∷ es) h same = (
    record {
      in_band = band;
      in_flow = flow;
      band_at = band_at;
      flow_at = h;
      entry_at = ap (λ ds. get_elem? ds 0) same;
    },
    tt,
  )

  pub head_slots-Stands :
      (fs : Flows)
      → All (λ f. lookup string_discrete f.0 band.flows ≡ some f.1) fs
      → All (Stands all) (head_slots b fs)
  unfolding head_slots
  head_slots-Stands [] found = tt
  head_slots-Stands (f ∷ fs) found =
      All-append (Stands all) (head_slot b f.0 f.1.requests) _
        (head_slot-Stands f.0 f.1 f.1.requests found.0 refl) (head_slots-Stands fs found.1)

-- The bands from index b on are the last ones of all.
abbrev pub From : List PriorityBand → ℕ → List PriorityBand → Type 0
From all b bands =
    (i : ℕ) (c : PriorityBand) → get_elem? bands i ≡ some c → get_elem? all (b + i) ≡ some c

pub From-head :
    (all : List PriorityBand) (b : ℕ) (c : PriorityBand) (bands : List PriorityBand)
    → From all b (c ∷ bands)
    → get_elem? all b ≡ some c
From-head all b c bands from = let same : b + 0 ≡ b = omega arith in rw same at (from 0 c refl)

pub From-tail :
    (all : List PriorityBand) (b : ℕ) (c : PriorityBand) (bands : List PriorityBand)
    → From all b (c ∷ bands)
    → From all (suc b) bands
From-tail all b c bands from i d h =
    let same : b + suc i ≡ suc b + i = omega arith in rw same at (from (suc i) d h)

pub From-all : (all : List PriorityBand) → From all 0 all
From-all all i c h = let same : 0 + i ≡ i = omega arith in rw same h

module _ (m : SloPriorityMap) (all : List PriorityBand) where
  found_sorted :
      (band : PriorityBand)
      → WellBand m band
      → All (λ f. lookup string_discrete f.0 band.flows ≡ some f.1) (sorted_flows band.flows)
  found_sorted band w =
      sorted_flows-All (λ f. lookup string_discrete f.0 band.flows ≡ some f.1) band.flows
        (All-found band.flows w.unique)

  pub band_slots-Stands :
      (b : ℕ) (bands : List PriorityBand)
      → From all b bands
      → All (WellBand m) bands
      → All (Stands all) (band_slots b bands)
  unfolding band_slots
  band_slots-Stands b [] from w = tt
  band_slots-Stands b (band ∷ bands) from w =
      All-append (Stands all) (flow_slots b (sorted_flows band.flows)) _
        (flow_slots-Stands all b band (From-head all b band bands from) (sorted_flows band.flows)
          (found_sorted band w.0))
        (band_slots-Stands (suc b) bands (From-tail all b band bands from) w.1)

  pub band_heads-Stands :
      (b : ℕ) (bands : List PriorityBand)
      → From all b bands
      → All (WellBand m) bands
      → All (Stands all) (band_heads b bands)
  unfolding band_heads
  band_heads-Stands b [] from w = tt
  band_heads-Stands b (band ∷ bands) from w =
      let rest = band_heads-Stands (suc b) bands (From-tail all b band bands from) w.1 in
      elim (Bool-cases (is_zero band.total_len)) [
        | inl idle ↦ rw idle rest
        | inr busy ↦ rw busy (
            All-append (Stands all) (head_slots b (sorted_flows band.flows)) _
              (head_slots-Stands all b band (From-head all b band bands from)
                (sorted_flows band.flows) (found_sorted band w.0))
              rest)
      ]
