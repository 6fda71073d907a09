-- ===== src/Gateway/Recall.antt =====
-- RemoveByRequestID: the index leads to the entry.
use inference_sim.Prelude.{
  ℕ, suc, ◌+◌, String, List, [], ◌∷◌, ◌++◌, map, none, some, ◌≡◌, ◌≢◌, refl, sym, ap, ◌∙◌, true,
  false, ℤ, pos, negsuc, eqb_ℤ, eqb_ℤ-refl, Option-cases, ◌⊎◌, inl, inr, Result, ok, or_panic,
  violation, nil_dereference, ◌>>=◌, if_pos, if_neg, string_discrete, get_elem?, lookup, All,
  All-get_elem?, Absent, Absent→lookup, arith, UniqueKeys,
}
use inference_sim.Request.{Request}
use inference_sim.SloPriority.{SloPriorityMap}
use inference_sim.Gateway.Flows.{FlowEntry, FlowQueue, Flows, PriorityBand}
use inference_sim.Gateway.State.{GatewayQueue, RequestLocation}
use inference_sim.Gateway.Dispatch.{
  Dispatched, band_of, entry_of, taken, remove_at, remove_known, remove_by_request_id,
}
use inference_sim.Gateway.Contents.{
  Placed, place, placed_flows, contents, Descending, WellBand, indexed, IsValid, ◌<ℤ◌,
}
use inference_sim.Gateway.Taking.{Taken, placed_at, take_out-Taken}

-- What stands in a joined list under a key stands in one of the two.
lookup_append :
    (k : String) (v : RequestLocation) (xs ys : List Placed)
    → lookup string_discrete k (map indexed (xs ++ ys)) ≡ some v
    → (lookup string_discrete k (map indexed xs) ≡ some v)
      ⊎ (lookup string_discrete k (map indexed ys) ≡ some v)
unfolding lookup
lookup_append k v [] ys h = inr h
lookup_append k v (x ∷ xs) ys h = elim (string_discrete k x.entry.request.id) [
  | yes found ↦ inl (rw (if_pos _ found) (rw (if_pos _ found) at h))
  | no other ↦ rw (if_neg _ other) (lookup_append k v xs ys (rw (if_neg _ other) at h))
]

-- The entry with an id in a flow, at the index that the scan finds.
record InFlow (i : ℕ) (es : List FlowEntry) (id : String) : Type 0 where
  j : ℕ
  entry : FlowEntry
  scan : entry_of i es id ≡ some (i + j)
  entry_at : get_elem? es j ≡ some entry
  named : entry.request.id ≡ id

in_flow :
    (i : ℕ) (p : ℤ) (t : String) (es : List FlowEntry) (id : String) (v : RequestLocation)
    → lookup string_discrete id (map indexed (place p t es)) ≡ some v
    → InFlow i es id × (v ≡ record { band_priority = p; tenant_id = t })
unfolding lookup entry_of
in_flow i p t [] id v h = cc
in_flow i p t (e ∷ es) id v h = elim (string_discrete id e.request.id) [
  | yes found ↦
      let at_0 : i ≡ i + 0 = omega arith in
      (
        record {
          j = 0;
          entry = e;
          scan = rw (if_pos _ (sym found)) (ap some at_0);
          entry_at = refl;
          named = sym found;
        },
        let g = rw (if_pos _ found) at h in ground arith,
      )
  | no other ↦
      let (f, w) = in_flow (suc i) p t es id v (rw (if_neg _ other) at h) in
      let next : suc i + f.j ≡ i + suc f.j = omega arith in
      (
        record {
          j = suc (f.j);
          entry = f.entry;
          scan = rw (if_neg _ (λ (q : e.request.id ≡ id). other (sym q))) (f.scan ∙ ap some next);
          entry_at = f.entry_at;
          named = f.named;
        },
        w,
      )
]

-- The flow under the tenant that the location names.
record InBand (fs : Flows) (id : String) (t : String) : Type 0 where
  flow : FlowQueue
  flow_at : lookup string_discrete t fs ≡ some flow
  found : InFlow 0 flow.requests id

found-Absent :
    (k : String) (fs : Flows) (flow : FlowQueue)
    → Absent string_discrete k fs
    → lookup string_discrete k fs ≡ some flow
    → ⊥
found-Absent k fs flow a h = let none_there = Absent→lookup string_discrete k fs a in ground arith

in_band :
    (p : ℤ) (fs : Flows) (id : String) (v : RequestLocation)
    → UniqueKeys string_discrete fs
    → lookup string_discrete id (map indexed (placed_flows p fs)) ≡ some v
    → InBand fs id v.tenant_id × (v.band_priority ≡ p)
unfolding lookup placed_flows
in_band p [] id v u h = cc
in_band p (f ∷ fs) id v u h =
    elim (lookup_append id v (place p f.0 f.1.requests) (placed_flows p fs) h) [
      | inl here ↦
          let (found, w) = in_flow 0 p f.0 f.1.requests id v here in
          let key : v.tenant_id ≡ f.0 = ap (λ (l : RequestLocation). l.tenant_id) w in
          (
            record { flow = f.1; flow_at = rw (if_pos _ key) refl; found = found },
            ap (λ (l : RequestLocation). l.band_priority) w,
          )
      | inr there ↦
          let (b, w) = in_band p fs id v u.1 there in
          let apart : v.tenant_id ≢ f.0 =
            λ (q : v.tenant_id ≡ f.0). found-Absent f.0 fs b.flow u.0 (rw q at (b.flow_at)) in
          (record { flow = b.flow; flow_at = rw (if_neg _ apart) (b.flow_at); found = b.found }, w)
    ]

eqb_ℤ-lt : (a b : ℤ) → a <ℤ b → eqb_ℤ b a ≡ false
eqb_ℤ-lt (pos a) (pos b) h = ground arith
eqb_ℤ-lt (negsuc a) (negsuc b) h = ground arith
eqb_ℤ-lt (negsuc a) (pos b) h = refl
eqb_ℤ-lt (pos a) (negsuc b) h = refl

eqb_ℤ-eq : (a b : ℤ) → a ≡ b → eqb_ℤ b a ≡ true
eqb_ℤ-eq a b e = rw (← e) (eqb_ℤ-refl a)

-- The band of the priority that the location names.
record InBands (i : ℕ) (bands : List PriorityBand) (id : String) (v : RequestLocation)
    : Type 0 where
  k : ℕ
  band : PriorityBand
  scan : band_of i bands v.band_priority ≡ some (i + k)
  band_at : get_elem? bands k ≡ some band
  priority_is : v.band_priority ≡ band.priority
  found : InBand band.flows id v.tenant_id

in_bands :
    (m : SloPriorityMap) (i : ℕ) (bands : List PriorityBand) (id : String) (v : RequestLocation)
    → All (WellBand m) bands
    → Descending bands
    → lookup string_discrete id (map indexed (contents bands)) ≡ some v
    → InBands i bands id v
unfolding lookup contents band_of
in_bands m i [] id v w d h = cc
in_bands m i (c ∷ bands) id v w d h =
    elim (lookup_append id v (placed_flows c.priority c.flows) (contents bands) h) [
      | inl here ↦
          let (found, p) = in_band c.priority c.flows id v (w.0.unique) here in
          let at_0 : i ≡ i + 0 = omega arith in
          record {
            k = 0;
            band = c;
            scan = rw (eqb_ℤ-eq v.band_priority c.priority p) (ap some at_0);
            band_at = refl;
            priority_is = p;
            found = found;
          }
      | inr there ↦
          let b = in_bands m (suc i) bands id v w.1 d.1 there in
          let below : b.band.priority <ℤ c.priority =
            All-get_elem? (λ f. f.priority <ℤ c.priority) bands (b.k) (b.band) (b.band_at) d.0 in
          let lower : v.band_priority <ℤ c.priority = rw (b.priority_is) below in
          let next : suc i + b.k ≡ i + suc b.k = omega arith in
          record {
            k = suc (b.k);
            band = b.band;
            scan = rw (eqb_ℤ-lt v.band_priority c.priority lower) (b.scan ∙ ap some next);
            band_at = b.band_at;
            priority_is = b.priority_is;
            found = b.found;
          }
    ]

unnamed :
    (id : String) (xs : List Placed)
    → lookup string_discrete id (map indexed xs) ≡ none
    → All (λ x. id ≢ x.entry.request.id) xs
unfolding lookup
unnamed id [] h = tt
unnamed id (x ∷ xs) h = elim (string_discrete id x.entry.request.id) [
  | yes found ↦ let g = rw (if_pos _ found) at h in cc
  | no other ↦ (other, unnamed id xs (rw (if_neg _ other) at h))
]

module _ {Float : Type 0} (q : GatewayQueue Float) (v : IsValid q) (id : String) where
  remove_steps :
      (loc : RequestLocation) (b : ℕ) (band : PriorityBand) (flow : FlowQueue) (i : ℕ)
      → band_of 0 q.bands loc.band_priority ≡ some b
      → get_elem? q.bands b ≡ some band
      → lookup string_discrete loc.tenant_id band.flows ≡ some flow
      → entry_of 0 flow.requests id ≡ some i
      → remove_at q loc.band_priority loc.tenant_id id ≡ taken q b loc.tenant_id i
  unfolding remove_at
  remove_steps loc b band flow i at_b band_at flow_at at_i =
      let last : ℕ → Result (Dispatched Float) = λ j. taken q b loc.tenant_id j in
      let inner : FlowQueue → Result (Dispatched Float) =
        λ f. or_panic (entry_of 0 f.requests id) violation >>= last in
      let middle : ℕ → PriorityBand → Result (Dispatched Float) = λ n c.
        or_panic (lookup string_discrete loc.tenant_id c.flows) violation >>= λ (f : FlowQueue).
        or_panic (entry_of 0 f.requests id) violation >>= λ (j : ℕ). taken q n loc.tenant_id j in
      ap
        (λ o. or_panic o violation >>= λ (n : ℕ).
          or_panic (get_elem? q.bands n) nil_dereference >>= middle n)
        at_b
      ∙ ap (λ o. or_panic o nil_dereference >>= middle b) band_at
      ∙ ap (λ o. or_panic o violation >>= inner) flow_at
      ∙ ap (λ o. or_panic o violation >>= last) at_i

  found_by_index :
      (loc : RequestLocation)
      → lookup string_discrete id (map indexed (contents q.bands)) ≡ some loc
      → (x : Placed) × (q1 : GatewayQueue Float) × (x.entry.request.id ≡ id)
        × (remove_at q loc.band_priority loc.tenant_id id ≡ ok (some x.entry.request, q1))
        × Taken q x q1
  unfolding taken
  found_by_index loc h =
      let b = in_bands q.priority_map 0 q.bands id loc v.well v.descending h in
      let f = b.found.found in
      let at_k : band_of 0 q.bands loc.band_priority ≡ some (b.k) =
        b.scan ∙ ap some (omega arith) in
      let at_j : entry_of 0 (b.found.flow).requests id ≡ some (f.j) =
        f.scan ∙ ap some (omega arith) in
      let (q1, e, t) =
        take_out-Taken q (b.k) loc.tenant_id (f.j) (b.band) (b.found.flow) (f.entry) v (b.band_at)
          (b.found.flow_at) (f.entry_at) in
      let all =
        remove_steps loc (b.k) (b.band) (b.found.flow) (f.j) at_k (b.band_at) (b.found.flow_at)
          at_j in
      (
        placed_at (b.band) loc.tenant_id (f.entry),
        q1,
        f.named,
        all
            ∙ ap
                (λ (r : Result (Request × GatewayQueue Float)).
                  r >>= λ (o : Request × GatewayQueue Float). ok (some o.0, o.1))
                e,
        t,
      )

  -- On a valid queue RemoveByRequestID does not panic. If no entry has the id it returns nil and
  -- leaves the queue as it is; otherwise it returns the request of an entry with that id, and the
  -- queue that is left is valid and holds the others.
  pub remove_by_request_id-Taken :
      ((remove_by_request_id q id ≡ ok (none, q))
        × All (λ x. id ≢ x.entry.request.id) (contents q.bands))
      ⊎ ((x : Placed) × (q1 : GatewayQueue Float) × (x.entry.request.id ≡ id)
          × (remove_by_request_id q id ≡ ok (some x.entry.request, q1))
          × Taken q x q1)
  unfolding remove_by_request_id remove_known
  remove_by_request_id-Taken = elim (Option-cases (lookup string_discrete id q.request_index)) [
    | inl missing ↦
        inl (
          ap (remove_known q id) missing,
          unnamed id (contents q.bands) (sym (v.index id) ∙ missing),
        )
    | inr (loc, known) ↦
        let (x, q1, named, e, t) = found_by_index loc (sym (v.index id) ∙ known) in
        inr (x, q1, named, ap (remove_known q id) known ∙ e, t)
  ]
