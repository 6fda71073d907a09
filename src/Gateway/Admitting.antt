-- ===== src/Gateway/Admitting.antt =====
-- The third step of Enqueue on a valid queue.
use inference_sim.Prelude.{
  ℕ, zero, suc, ◌<◌, String, List, [], ◌∷◌, map, some, ◌≡◌, ◌≢◌, refl, sym, ap, subst, ◌∙◌, ℤ, pos,
  incr, ok, nil_dereference, or_panic, ◌>>=◌, string_discrete, get_elem?, set, lookup, insert,
  UniqueKeys, UniqueKeys-insert, lookup-insert_self, lookup-insert_ne, lookup-erase_ne, All,
  All-set, All-get_elem?, All-append_left, All-append_right, Removes, Removes-map, Removes-erase,
  Removes-UniqueKeys, Removes-length, arith,
}
use inference_sim.SloPriority.{priority}
use inference_sim.Gateway.Flows.{FlowEntry, PriorityBand}
use inference_sim.Gateway.State.{GatewayQueue, RequestLocation}
use inference_sim.Gateway.Enqueue.{admit, join_band, tenant_or_default}
use inference_sim.Gateway.Contents.{Placed, placed_flows, contents, WellBand, indexed, IsValid}
use inference_sim.Gateway.Taking.{set-Descending}
use inference_sim.Gateway.Adding.{
  Before, join_band-Removes, join_band-WellBand, join_band-priority, set-joined,
}

-- No entry has the id.
abbrev pub Fresh : String → List Placed → Type 0
Fresh id xs = All (λ x. id ≢ x.entry.request.id) xs

Fresh-indexed :
    (id : String) (xs : List Placed) → Fresh id xs → All (λ f. id ≢ f.0) (map indexed xs)
Fresh-indexed id [] h = tt
Fresh-indexed id (x ∷ xs) h = (h.0, Fresh-indexed id xs h.1)

-- The index gains what the queue gains.
lookup_of_inserted :
    (idx m n : List (String × RequestLocation)) (id : String) (loc : RequestLocation)
    → Removes (id, loc) n m
    → UniqueKeys string_discrete n
    → ((j : String) → lookup string_discrete j idx ≡ lookup string_discrete j m)
    → (j : String)
    → lookup string_discrete j (insert string_discrete id loc idx) ≡ lookup string_discrete j n
lookup_of_inserted idx m n id loc more u agree j =
    let (found, rest, _) = Removes-erase string_discrete id loc n m more u in
    elim (string_discrete j id) [
      | yes same ↦ rw same (lookup-insert_self string_discrete id loc idx ∙ sym found)
      | no other ↦
          lookup-insert_ne string_discrete id j loc idx other
          ∙ agree j
          ∙ ap (lookup string_discrete j) rest
          ∙ lookup-erase_ne string_discrete id j n other
    ]

All-band {κ} :
    (P : Placed → Type κ) (bands : List PriorityBand) (b : ℕ) (band : PriorityBand)
    → get_elem? bands b ≡ some band
    → All P (contents bands)
    → All P (placed_flows band.priority band.flows)
unfolding contents
All-band P [] b band h all = cc
All-band P (c ∷ bands) zero band h all =
    let same : c ≡ band = ground arith in
    subst (λ (d : PriorityBand). All P (placed_flows d.priority d.flows)) same
      (All-append_left P (placed_flows c.priority c.flows) (contents bands) all)
All-band P (c ∷ bands) (suc b) band h all =
    All-band P bands b band h
      (All-append_right P (placed_flows c.priority c.flows) (contents bands) all)

-- Where a newcomer stands in a band of priority p.
abbrev pub newcomer : ℤ → FlowEntry → Placed
newcomer p e = record { entry = e; priority = p; tenant = tenant_or_default e.request }

-- The queue that `admit` leaves: it is valid, and holds the newcomer beside what it held.
pub record Admitted {Float : Type 0} (q : GatewayQueue Float) (x : Placed) (q1 : GatewayQueue Float)
    : Type 0 where
  pub more : Removes x (contents q1.bands) (contents q.bands)
  pub valid : IsValid q1
  pub settings :
      (q1.max_depth ≡ q.max_depth)
      × (q1.shed_count ≡ q.shed_count)
      × (q1.rejected_count ≡ q.rejected_count)

module _ {Float : Type 0} (q : GatewayQueue Float) (b : ℕ) (e : FlowEntry) (band : PriorityBand)
    (v : IsValid q) (band_at : get_elem? q.bands b ≡ some band)
    (classed : priority q.priority_map e.request.slo_class ≡ band.priority)
    (fresh : Fresh e.request.id (contents q.bands))
    (last : Before e.seq_id (contents q.bands)) where
  abbrev joined : GatewayQueue Float
  joined = record q {
    bands = set q.bands b (join_band band (tenant_or_default e.request) band.priority e);
    total_len = incr q.total_len;
    request_index =
        insert string_discrete e.request.id
          (record { band_priority = band.priority; tenant_id = tenant_or_default e.request })
          q.request_index;
  }

  well : WellBand q.priority_map band
  well = All-get_elem? (WellBand q.priority_map) q.bands b band band_at v.well

  last_here : Before e.seq_id (placed_flows band.priority band.flows)
  last_here = All-band (λ x. x.entry.seq_id < e.seq_id) q.bands b band band_at last

  fuller-Removes :
      Removes
        (newcomer band.priority e)
        (placed_flows band.priority
          (join_band band (tenant_or_default e.request) band.priority e).flows)
        (placed_flows band.priority band.flows)
  fuller-Removes =
      join_band-Removes q.priority_map band (tenant_or_default e.request) e well classed last_here

  same_priority :
      (join_band band (tenant_or_default e.request) band.priority e).priority ≡ band.priority
  same_priority =
      join_band-priority q.priority_map band (tenant_or_default e.request) e well classed last_here

  joined-Removes : Removes (newcomer band.priority e) (contents joined.bands) (contents q.bands)
  unfolding join_band
  joined-Removes =
      set-joined q.bands b band (join_band band (tenant_or_default e.request) band.priority e)
        (newcomer band.priority e) band_at fuller-Removes

  joined_index :
      Removes
        (indexed (newcomer band.priority e))
        (map indexed (contents joined.bands))
        (map indexed (contents q.bands))
  joined_index = Removes-map indexed joined-Removes

  joined_unique : UniqueKeys string_discrete (map indexed (contents joined.bands))
  joined_unique =
      Removes-UniqueKeys string_discrete e.request.id _ _ _ joined_index v.unique
        (Fresh-indexed e.request.id (contents q.bands) fresh)

  joined-IsValid : IsValid joined
  joined-IsValid = record {
    well =
        All-set (WellBand q.priority_map) q.bands b _
          (join_band-WellBand q.priority_map band (tenant_or_default e.request) e well classed
            last_here)
          v.well;
    descending = set-Descending q.bands b band _ band_at same_priority v.descending;
    counted =
        ap incr v.counted
        ∙ ap pos (sym (Removes-length (newcomer band.priority e) _ _ joined-Removes));
    unique = joined_unique;
    index_unique = UniqueKeys-insert string_discrete e.request.id _ q.request_index v.index_unique;
    index =
        lookup_of_inserted q.request_index _ _ e.request.id _ joined_index joined_unique v.index;
  }

  admit-joined : admit q b band.priority e ≡ ok joined
  unfolding admit
  admit-joined =
      ap
        (λ o. or_panic o nil_dereference >>= λ (c : PriorityBand). ok (record q {
          bands = set q.bands b (join_band c (tenant_or_default e.request) band.priority e);
          total_len = incr q.total_len;
          request_index =
              insert string_discrete e.request.id
                (record { band_priority = band.priority; tenant_id = tenant_or_default e.request })
                q.request_index;
        }))
        band_at

  here_Admitted :
      (q1 : GatewayQueue Float) × (admit q b band.priority e ≡ ok q1)
      × Admitted q (newcomer band.priority e) q1
  here_Admitted = (
    joined,
    admit-joined,
    record { more = joined-Removes; valid = joined-IsValid; settings = (refl, refl, refl) },
  )

-- Step 3 lets the newcomer in.
pub admit-Admitted :
    {Float : Type 0} (q : GatewayQueue Float) (b : ℕ) (p : ℤ) (e : FlowEntry) (band : PriorityBand)
    → IsValid q
    → get_elem? q.bands b ≡ some band
    → band.priority ≡ p
    → priority q.priority_map e.request.slo_class ≡ p
    → Fresh e.request.id (contents q.bands)
    → Before e.seq_id (contents q.bands)
    → (q1 : GatewayQueue Float) × (admit q b p e ≡ ok q1) × Admitted q (newcomer p e) q1
admit-Admitted {Float} q b p e band v band_at at_p classed fresh last =
    subst (λ r. (q1 : GatewayQueue Float) × (admit q b r e ≡ ok q1) × Admitted q (newcomer r e) q1)
      at_p (here_Admitted q b e band v band_at (classed ∙ sym at_p) fresh last)
