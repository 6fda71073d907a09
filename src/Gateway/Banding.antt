-- ===== src/Gateway/Banding.antt =====
-- findOrCreateBand keeps the queue valid, and names the band of the priority.
use inference_sim.Prelude.{
  ℕ, zero, suc, ◌<◌, ◌≤◌, List, [], ◌∷◌, ◌++◌, map, some, ◌≡◌, refl, sym, ap, subst, ◌∙◌, true,
  false, Bool-cases, inl, inr, ℤ, pos, negsuc, eqb_ℤ, leb_ℤ, length, get_elem?, lookup,
  string_discrete, UniqueKeys, All, arith,
}
use inference_sim.SloPriority.{SloPriorityMap}
use inference_sim.Gateway.Flows.{PriorityBand}
use inference_sim.Gateway.State.{
  GatewayQueue, at_most, stands_at, insert_band, empty_band, sort_search, find_or_create_band,
}
use inference_sim.Gateway.Contents.{
  placed_flows, contents, Descending, WellBand, indexed, IsValid, ◌<ℤ◌,
}
use inference_sim.Gateway.Searching.{sort_search-least}

below_within :
    (p : ℤ) (c d : PriorityBand)
    → d.priority <ℤ c.priority
    → leb_ℤ c.priority p ≡ true
    → leb_ℤ d.priority p ≡ true
below_within p c d lt le = ground arith

first_covers :
    (c : PriorityBand) (bands : List PriorityBand) (p : ℤ) (j : ℕ)
    → All (λ d. d.priority <ℤ c.priority) bands
    → j < length bands
    → leb_ℤ c.priority p ≡ true
    → at_most bands p j ≡ true
first_covers c [] p j all in_range h = absurd (omega arith)
first_covers c (d ∷ bands) p zero all in_range h = below_within p c d all.0 h
first_covers c (d ∷ bands) p (suc j) all in_range h = first_covers c bands p j all.1 (omega arith) h

at_most-monotone :
    (bands : List PriorityBand) (p : ℤ)
    → Descending bands
    → (i j : ℕ) → i ≤ j
    → j < length bands
    → at_most bands p i ≡ true
    → at_most bands p j ≡ true
at_most-monotone [] p d i j le in_range h = absurd (omega arith)
at_most-monotone (c ∷ bands) p d zero zero le in_range h = h
at_most-monotone (c ∷ bands) p d zero (suc j) le in_range h =
    first_covers c bands p j d.0 (omega arith) h
at_most-monotone (c ∷ bands) p d (suc i) (suc j) le in_range h =
    at_most-monotone bands p d.1 i j (omega arith) (omega arith) h
at_most-monotone (c ∷ bands) p d (suc i) zero le in_range h = absurd (omega arith)

module _ {κ} (P : PriorityBand → Type κ) (p : ℤ) where
  All-insert_band :
      (bands : List PriorityBand) (k : ℕ)
      → P (empty_band p)
      → All P bands
      → All P (insert_band bands p k)
  All-insert_band bands zero new all = (new, all)
  All-insert_band [] (suc k) new all = (new, tt)
  All-insert_band (c ∷ bands) (suc k) new all = (all.0, All-insert_band bands k new all.1)

insert_band-contents :
    (bands : List PriorityBand) (p : ℤ) (k : ℕ) → contents (insert_band bands p k) ≡ contents bands
unfolding contents placed_flows empty_band
insert_band-contents bands p zero = refl
insert_band-contents [] p (suc k) = refl
insert_band-contents (c ∷ bands) p (suc k) =
    ap (◌++◌ (placed_flows c.priority c.flows)) (insert_band-contents bands p k)

insert_band-at :
    (bands : List PriorityBand) (p : ℤ) (k : ℕ)
    → k ≤ length bands
    → get_elem? (insert_band bands p k) k ≡ some (empty_band p)
insert_band-at bands p zero h = refl
insert_band-at [] p (suc k) h = absurd (omega arith)
insert_band-at (c ∷ bands) p (suc k) h = insert_band-at bands p k (omega arith)

strictly : (a p : ℤ) → leb_ℤ a p ≡ true → eqb_ℤ a p ≡ false → a <ℤ p
strictly (pos a) (pos p) le ne = ground arith
strictly (negsuc a) (negsuc p) le ne = ground arith
strictly (negsuc a) (pos p) le ne = omega arith
strictly (pos a) (negsuc p) le ne = ground arith

above_it : (a p : ℤ) → leb_ℤ a p ≡ false → p <ℤ a
above_it a p h = ground arith

same_priority : (a p : ℤ) → eqb_ℤ a p ≡ true → a ≡ p
same_priority (pos a) (pos p) h = ground arith
same_priority (negsuc a) (negsuc p) h = ground arith
same_priority (negsuc a) (pos p) h = cc
same_priority (pos a) (negsuc p) h = cc

weaken_All :
    (p : ℤ) (c : PriorityBand) (bands : List PriorityBand)
    → c.priority <ℤ p
    → All (λ d. d.priority <ℤ c.priority) bands
    → All (λ d. d.priority <ℤ p) bands
weaken_All p c [] under all = tt
weaken_All p c (d ∷ bands) under all = (omega arith, weaken_All p c bands under all.1)

-- Between the bands above it and those below it, a new band keeps the order.
insert_band-Descending :
    (bands : List PriorityBand) (p : ℤ) (k : ℕ)
    → Descending bands
    → ((i : ℕ) → i < k → at_most bands p i ≡ false)
    → ((i : ℕ) → k ≤ i → i < length bands → at_most bands p i ≡ true)
    → stands_at bands p k ≡ false
    → Descending (insert_band bands p k)
unfolding empty_band
insert_band-Descending [] p zero d fail meet absent = (tt, tt)
insert_band-Descending (c ∷ bands) p zero d fail meet absent =
    let under : c.priority <ℤ p =
      strictly c.priority p (meet 0 (omega arith) (omega arith)) absent in
    ((under, weaken_All p c bands under d.0), d)
insert_band-Descending [] p (suc k) d fail meet absent = (tt, tt)
insert_band-Descending (c ∷ bands) p (suc k) d fail meet absent = (
  All-insert_band (λ e. e.priority <ℤ c.priority) p bands k
      (above_it c.priority p (fail 0 (omega arith))) d.0,
  insert_band-Descending bands p k d.1 (λ i lt. fail (suc i) (omega arith))
      (λ i le lt. meet (suc i) (omega arith) (omega arith)) absent,
)

empty_band-WellBand : (m : SloPriorityMap) (p : ℤ) → WellBand m (empty_band p)
unfolding empty_band placed_flows
empty_band-WellBand m p = record { unique = tt; well = tt; counted = refl }

empty_band-priority : (p : ℤ) → (empty_band p).priority ≡ p
unfolding empty_band
empty_band-priority p = refl

stands_at-band :
    (bands : List PriorityBand) (p : ℤ) (k : ℕ)
    → stands_at bands p k ≡ true
    → (band : PriorityBand) × (get_elem? bands k ≡ some band) × (band.priority ≡ p)
stands_at-band [] p k h = cc
stands_at-band (c ∷ bands) p zero h = (c, refl, same_priority c.priority p h)
stands_at-band (c ∷ bands) p (suc k) h = stands_at-band bands p k h

module _ {Float : Type 0} (q : GatewayQueue Float) (v : IsValid q) (p : ℤ) where
  abbrev with_bands : List PriorityBand → GatewayQueue Float
  with_bands bands = record q { bands = bands }

  with_bands-IsValid :
      (bands : List PriorityBand)
      → All (WellBand q.priority_map) bands
      → Descending bands
      → contents q.bands ≡ contents bands
      → IsValid (with_bands bands)
  with_bands-IsValid bands well descending same = record {
    well = well;
    descending = descending;
    counted = v.counted ∙ ap (λ xs. pos (length xs)) same;
    unique = subst (λ xs. UniqueKeys string_discrete (map indexed xs)) same v.unique;
    index_unique = v.index_unique;
    index = λ id. v.index id ∙ ap (λ xs. lookup string_discrete id (map indexed xs)) same;
  }

  -- On a valid queue findOrCreateBand returns the index of a band of the priority that was asked
  -- for. The queue that it leaves is valid, so that its bands still descend, and holds the same
  -- entries.
  pub find_or_create_band-IsValid :
      IsValid (find_or_create_band q p).1
      × (contents (find_or_create_band q p).1.bands ≡ contents q.bands)
      × ((band : PriorityBand) × (get_elem?
              (find_or_create_band q p).1.bands
              (find_or_create_band q p).0
            ≡ some band)
          × (band.priority ≡ p))
  unfolding find_or_create_band
  find_or_create_band-IsValid =
      let n = length q.bands in
      let k = sort_search n (at_most q.bands p) in
      let (in_range, fail, meet) =
        sort_search-least (at_most q.bands p) n (at_most-monotone q.bands p v.descending) in
      elim (Bool-cases (stands_at q.bands p k)) [
        | inl there ↦ rw there (v, refl, stands_at-band q.bands p k there)
        | inr absent ↦
            let same = insert_band-contents q.bands p k in
            let well =
              All-insert_band (WellBand q.priority_map) p q.bands k
                (empty_band-WellBand q.priority_map p) v.well in
            let order = insert_band-Descending q.bands p k v.descending fail meet absent in
            rw absent (
              with_bands-IsValid (insert_band q.bands p k) well order (sym same),
              same,
              (empty_band p, insert_band-at q.bands p k in_range, empty_band-priority p),
            )
      ]
