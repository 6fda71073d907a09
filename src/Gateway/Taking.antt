-- ===== src/Gateway/Taking.antt =====
-- take_out on a valid queue, given the entry that stands at the place.
use inference_sim.Prelude.{
  ℕ, zero, suc, String, List, [], ◌∷◌, map, some, ◌≡◌, refl, sym, ap, ◌∙◌, ℤ, pos, decr, ok,
  string_discrete, length, get_elem?, set, erase_idx, lookup, erase, UniqueKeys, UniqueKeys-erase,
  All-set, All-lookup, All-get_elem?, Removes, Removes-left, Removes-right, Removes-length,
  Removes-map, Removes-erase, arith, lookup-erase_self, lookup-erase_ne, or_panic,
}
use inference_sim.SloPriority.{SloPriorityMap}
use inference_sim.Gateway.Flows.{FlowEntry, FlowQueue, PriorityBand, drop_from}
use inference_sim.Gateway.State.{GatewayQueue, RequestLocation}
use inference_sim.Gateway.Slots.{take_out}
use inference_sim.Gateway.Contents.{
  Placed, placed_flows, contents, Descending, WellFlow, WellBand, indexed, IsValid, ◌<ℤ◌,
}
use inference_sim.Gateway.Removal.{
  place-Removes, settle-Removes, settle-well, All-erase_idx, erase_idx-Increasing,
}

abbrev pub placed_at : PriorityBand → String → FlowEntry → Placed
placed_at band t e = record { entry = e; priority = band.priority; tenant = t }

-- decr undoes one of a length.
decr-length :
    (n : ℤ) (x : Placed) (xs ys : List Placed)
    → n ≡ pos (length xs)
    → Removes x xs ys
    → decr n ≡ pos (length ys)
decr-length n x xs ys e gone = ap decr (e ∙ ap pos (Removes-length x xs ys gone))

module _ (m : SloPriorityMap) (band : PriorityBand) (t : String) (flow : FlowQueue) (i : ℕ)
    (e : FlowEntry) (w : WellBand m band) (held : lookup string_discrete t band.flows ≡ some flow)
    (stands : get_elem? flow.requests i ≡ some e) where
  well_flow : WellFlow m band.priority (t, flow)
  well_flow = All-lookup string_discrete (WellFlow m band.priority) t flow band.flows held w.well

  drop_from-Removes :
      Removes
        (placed_at band t e)
        (placed_flows band.priority band.flows)
        (placed_flows band.priority (drop_from band t flow i).flows)
  unfolding drop_from
  drop_from-Removes =
      settle-Removes m band.priority t band.flows (placed_at band t e) flow flow.key
        (erase_idx flow.requests i) (well_flow.keyed)
        (place-Removes band.priority t flow.requests i e stands) held

  drop_from-priority : (drop_from band t flow i).priority ≡ band.priority
  unfolding drop_from
  drop_from-priority = refl

  drop_from-WellBand : WellBand m (drop_from band t flow i)
  unfolding drop_from
  drop_from-WellBand =
      let (unique, well) =
        settle-well m band.priority t band.flows flow.key (erase_idx flow.requests i)
          (well_flow.keyed) (All-erase_idx _ flow.requests i (well_flow.classed))
          (erase_idx-Increasing flow.requests i (well_flow.ordered)) w.unique w.well in
      record {
        unique = unique;
        well = well;
        counted = decr-length band.total_len (placed_at band t e) _ _ w.counted drop_from-Removes;
      }

pub set-Removes :
    (bands : List PriorityBand) (b : ℕ) (band band' : PriorityBand) (x : Placed)
    → get_elem? bands b ≡ some band
    → Removes x (placed_flows band.priority band.flows) (placed_flows band'.priority band'.flows)
    → Removes x (contents bands) (contents (set bands b band'))
unfolding contents
set-Removes [] b band band' x h gone = cc
set-Removes (c ∷ bands) zero band band' x h gone =
    let same : c ≡ band = ground arith in rw same (Removes-right (contents bands) gone)
set-Removes (c ∷ bands) (suc b) band band' x h gone =
    Removes-left (placed_flows c.priority c.flows) (set-Removes bands b band band' x h gone)

pub set-Descending :
    (bands : List PriorityBand) (b : ℕ) (band band' : PriorityBand)
    → get_elem? bands b ≡ some band
    → band'.priority ≡ band.priority
    → Descending bands
    → Descending (set bands b band')
set-Descending [] b band band' h p d = tt
set-Descending (c ∷ bands) zero band band' h p d =
    let same : c ≡ band = ground arith in
    (rw (p ∙ ap (λ (y : PriorityBand). y.priority) (sym same)) d.0, d.1)
set-Descending (c ∷ bands) (suc b) band band' h p d =
    let below : band'.priority <ℤ c.priority =
      rw p (All-get_elem? (λ f. f.priority <ℤ c.priority) bands b band h d.0) in
    (All-set _ bands b band' below d.0, set-Descending bands b band band' h p d.1)

set-same_priority :
    (bands : List PriorityBand) (b : ℕ) (band band' : PriorityBand)
    → get_elem? bands b ≡ some band
    → band'.priority ≡ band.priority
    → (c : ℕ) (old : PriorityBand) → get_elem? bands c ≡ some old
    → (new : PriorityBand) × (get_elem? (set bands b band') c ≡ some new)
      × (new.priority ≡ old.priority)
set-same_priority [] b band band' h p c old at_c = cc
set-same_priority (d ∷ bands) zero band band' h p zero old at_c =
    let same : band ≡ old = ground arith in
    (band', refl, p ∙ ap (λ (x : PriorityBand). x.priority) same)
set-same_priority (d ∷ bands) zero band band' h p (suc c) old at_c = (old, at_c, refl)
set-same_priority (d ∷ bands) (suc b) band band' h p zero old at_c = (old, at_c, refl)
set-same_priority (d ∷ bands) (suc b) band band' h p (suc c) old at_c =
    set-same_priority bands b band band' h p c old at_c

-- The index loses what the queue loses.
lookup_of_erased :
    (idx : List (String × RequestLocation)) (m n : List (String × RequestLocation)) (id : String)
    (v : RequestLocation)
    → UniqueKeys string_discrete idx
    → UniqueKeys string_discrete m
    → ((j : String) → lookup string_discrete j idx ≡ lookup string_discrete j m)
    → Removes (id, v) m n
    → (j : String)
    → lookup string_discrete j (erase string_discrete id idx) ≡ lookup string_discrete j n
lookup_of_erased idx m n id v u w agree gone j =
    let rest = (Removes-erase string_discrete id v m n gone w).1 in
    elim (string_discrete j id) [
      | yes same ↦
          rw (rest, same, lookup-erase_self string_discrete id idx u)
            (sym (lookup-erase_self string_discrete id m w))
      | no other ↦
          rw (rest, lookup-erase_ne string_discrete id j idx other)
            (agree j ∙ sym (lookup-erase_ne string_discrete id j m other))
    ]

module _ {Float : Type 0} where
  -- The entry has left a valid queue, and the queue is valid again. Nothing that the operator
  -- sets has changed, and no rejection or shedding is counted.
  pub record Taken (q : GatewayQueue Float) (x : Placed) (q1 : GatewayQueue Float) : Type 0 where
    pub gone : Removes x (contents q.bands) (contents q1.bands)
    pub valid : IsValid q1
    pub bands :
        (c : ℕ) (band : PriorityBand)
        → get_elem? q.bands c ≡ some band
        → (band' : PriorityBand) × (get_elem? q1.bands c ≡ some band')
          × (band'.priority ≡ band.priority)
    pub settings :
        (q1.max_depth ≡ q.max_depth)
        × (q1.max_band_capacity ≡ q.max_band_capacity)
        × (q1.priority_map ≡ q.priority_map)
        × (q1.shed_count ≡ q.shed_count)
        × (q1.rejected_count ≡ q.rejected_count)
        × (length q1.bands ≡ length q.bands)

length-set {ℓ} : {A : Type ℓ} (xs : List A) (i : ℕ) (x : A) → length (set xs i x) ≡ length xs
length-set [] i x = refl
length-set (y ∷ xs) zero x = refl
length-set (y ∷ xs) (suc i) x = ap suc (length-set xs i x)

module _ {Float : Type 0} (q : GatewayQueue Float) (b : ℕ) (t : String) (i : ℕ)
    (band : PriorityBand) (flow : FlowQueue) (e : FlowEntry) (v : IsValid q)
    (band_at : get_elem? q.bands b ≡ some band)
    (flow_at : lookup string_discrete t band.flows ≡ some flow)
    (entry_at : get_elem? flow.requests i ≡ some e) where
  abbrev left : GatewayQueue Float
  left = record q {
    bands = set q.bands b (drop_from band t flow i);
    total_len = decr q.total_len;
    request_index = erase string_discrete e.request.id q.request_index;
  }

  take_out-left : take_out q b t i ≡ ok (e.request, left)
  unfolding take_out
  take_out-left = rw (band_at, or_panic) (rw (flow_at, or_panic) (rw (entry_at, or_panic) refl))

  well : WellBand q.priority_map band
  well = All-get_elem? (WellBand q.priority_map) q.bands b band band_at v.well

  left-Removes : Removes (placed_at band t e) (contents q.bands) (contents left.bands)
  unfolding drop_from
  left-Removes =
      set-Removes q.bands b band (drop_from band t flow i) (placed_at band t e) band_at
        (drop_from-Removes q.priority_map band t flow i e well flow_at entry_at)

  left_index :
      Removes
        (indexed (placed_at band t e))
        (map indexed (contents q.bands))
        (map indexed (contents left.bands))
  left_index = Removes-map indexed left-Removes

  left-IsValid : IsValid left
  left-IsValid = record {
    well =
        All-set (WellBand q.priority_map) q.bands b _
          (drop_from-WellBand q.priority_map band t flow i e well flow_at entry_at) v.well;
    descending =
        set-Descending q.bands b band _ band_at
          (drop_from-priority q.priority_map band t flow i e well flow_at entry_at) v.descending;
    counted = decr-length q.total_len (placed_at band t e) _ _ v.counted left-Removes;
    unique = (Removes-erase string_discrete _ _ _ _ left_index v.unique).2;
    index_unique = UniqueKeys-erase string_discrete e.request.id q.request_index v.index_unique;
    index =
        lookup_of_erased q.request_index _ _ e.request.id _ v.index_unique v.unique v.index
          left_index;
  }

  left-Taken : Taken q (placed_at band t e) left
  left-Taken = record {
    gone = left-Removes;
    valid = left-IsValid;
    bands =
        set-same_priority q.bands b band (drop_from band t flow i) band_at
          (drop_from-priority q.priority_map band t flow i e well flow_at entry_at);
    settings = (refl, refl, refl, refl, refl, length-set q.bands b _);
  }

  -- The call returns the entry's request, and the queue without the entry.
  pub take_out-Taken :
      (q1 : GatewayQueue Float) × (take_out q b t i ≡ ok (e.request, q1))
      × Taken q (placed_at band t e) q1
  take_out-Taken = (left, take_out-left, left-Taken)
