-- ===== src/Gateway/Enqueuing.antt =====
-- Enqueue on a valid queue: every outcome, and what each does to the contents.
use inference_sim.Prelude.{
  ℕ, zero, suc, ◌<◌, ◌==◌, String, List, Option, none, some, ◌≡◌, ◌≢◌, refl, sym, ap, subst, ◌∙◌,
  ◌⊎◌, inl, inr, Bool, true, false, ◌&&◌, ◌||◌, Bool-cases, ltb, ltb→lt, ℤ, pos, ltb_ℤ, eqb_ℤ,
  Result, ok, violation, nil_dereference, or_panic, require, ◌>>=◌, ◌>>◌, if◌then◌else◌,
  string_discrete, length, get_elem?, lookup, All, Removes, Removes-All, arith,
}
use inference_sim.Request.{Request}
use inference_sim.SloPriority.{SloPriorityMap, priority, is_sheddable}
use inference_sim.Gateway.Flows.{FlowEntry, FlowQueue, PriorityBand}
use inference_sim.Gateway.State.{
  GatewayQueue, at_most, stands_at, insert_band, sort_search, find_or_create_band,
}
use inference_sim.Gateway.Slots.{Slot, band_slots, take_out}
use inference_sim.Gateway.Enqueue.{
  slot_priority, enqueued, shed_victim, Outcome, reached, admit, reject, displaces, if_displaced,
  victim_loop, find_global_shed_victim, remove_entry_by_index, shed_and_admit, shed_found,
  shed_or_reject, admit_outcome, check_depth, check_band, enqueue_into, enqueue,
}
use inference_sim.Gateway.Contents.{contents, IsValid, ◌<ℤ◌, ◌≤ℤ◌}
use inference_sim.Gateway.Taking.{placed_at, take_out-Taken}
use inference_sim.Gateway.Locating.{Stands, All-map₂, band_slots-Stands, From-all}
use inference_sim.Gateway.Banding.{find_or_create_band-IsValid}
use inference_sim.Gateway.Adding.{Before}
use inference_sim.Gateway.Admitting.{Fresh, newcomer, admit-Admitted}
use inference_sim.Gateway.Shedding.{Worst, NoWorse, victim_loop-Victim, below_ℤ}
use inference_sim.Gateway.Tail.{victim-tail}
use inference_sim.Gateway.Scanned.{scanned_contents}
use inference_sim.Gateway.Outcomes.{LetIn, TookPlace, TurnedAway, Enqueues}

slot_or : Slot → Option Slot → Slot
slot_or s none = s
slot_or s (some t) = t

equal_test : (n k : ℕ) → n ≡ k → (n == k) ≡ true
equal_test n k h = ground arith

room_of : (n k : ℕ) → reached n (pos k) ≡ false → (n ≡ 0) ⊎ (k < n)
room_of zero k h = inl refl
room_of (suc n) k h = inr (ground arith)

room_left : (n k : ℕ) (x : ℤ) → x ≡ pos k → reached n x ≡ false → (n ≡ 0) ⊎ (k < n)
room_left n k x e h = room_of n k (ap (reached n) (sym e) ∙ h)

displaced_lower : (a p : ℤ) (i j : ℕ) → (ltb_ℤ a p || eqb_ℤ p a && ltb j i) ≡ true → i < j → a <ℤ p
displaced_lower a p i j h older = elim (Bool-cases (ltb_ℤ a p)) [
  | inl lower ↦ below_ℤ a p lower
  | inr other ↦ elim (Bool-cases (eqb_ℤ p a)) [
    | inl same ↦
        let early = rw (other, same) at h in let lt = ltb→lt j i early in absurd (omega arith)
    | inr differ ↦ let never = rw (other, differ) at h in cc never
  ]
]

no_worse_low :
    (m : SloPriorityMap) (z s : Slot) → NoWorse m z s → slot_priority m s ≤ℤ slot_priority m z
no_worse_low m z s (inl h) = omega arith
no_worse_low m z s (inr h) = h.0

module _ {Float : Type 0} where
  remove_tail :
      (q : GatewayQueue Float) (b : ℕ) (t : String) (i : ℕ) (band : PriorityBand) (flow : FlowQueue)
      → get_elem? q.bands b ≡ some band
      → lookup string_discrete t band.flows ≡ some flow
      → suc i ≡ length flow.requests
      → remove_entry_by_index q b t i ≡ take_out q b t i
  unfolding remove_entry_by_index
  remove_tail q b t i band flow band_at flow_at tail =
      let check : ℕ → Result (Request × GatewayQueue Float) =
        λ n. require (suc i == n) violation >> take_out q b t i in
      let of_flow : FlowQueue → Result ℕ = λ f. ok (length f.requests) in
      let of_band : PriorityBand → Result ℕ =
        λ c. or_panic (lookup string_discrete t c.flows) nil_dereference >>= of_flow in
      ap (λ o. or_panic o nil_dereference >>= of_band >>= check) band_at
      ∙ ap (λ o. or_panic o nil_dereference >>= of_flow >>= check) flow_at
      ∙ ap (λ r. require r violation >> take_out q b t i)
          (equal_test (suc i) (length flow.requests) tail)

  module _ (q : GatewayQueue Float) (b : ℕ) (p : ℤ) (e : FlowEntry) (band : PriorityBand)
      (v : IsValid q) (band_at : get_elem? q.bands b ≡ some band) (at_p : band.priority ≡ p)
      (classed : priority q.priority_map e.request.slo_class ≡ p)
      (fresh : Fresh e.request.id (contents q.bands))
      (last : Before e.seq_id (contents q.bands)) where
    reject-TurnedAway :
        (outcome : Result (Outcome Float)) → outcome ≡ ok (reject q) → TurnedAway q p e outcome
    unfolding reject
    reject-TurnedAway outcome h = record {
      after = record q { rejected_count = suc q.rejected_count };
      returns = h;
      valid = record {
        well = v.well;
        descending = v.descending;
        counted = v.counted;
        unique = v.unique;
        index_unique = v.index_unique;
        index = v.index;
      };
      same_contents = refl;
      one_rejected = refl;
      same_depth = refl;
    }

    admit_outcome-LetIn :
        (q.max_depth ≡ 0) ⊎ (length (contents q.bands) < q.max_depth)
        → LetIn q p e (admit_outcome q b p e)
    unfolding admit_outcome
    admit_outcome-LetIn room =
        let (q1, h, a) = admit-Admitted q b p e band v band_at at_p classed fresh last in
        record {
          after = q1;
          returns = ap (λ r. r >>= λ (n : GatewayQueue Float). ok (enqueued, none, n)) h;
          valid = a.valid;
          more = a.more;
          room = room;
          same_depth = a.settings.0;
        }

    -- The victim and the newcomer change places.
    module _ (s : Slot) (st : Stands q.bands s)
        (sheddable : is_sheddable q.priority_map s.entry.request.slo_class ≡ true)
        (worst : All (Worst q.priority_map s) (band_slots 0 q.bands))
        (may : displaces q.priority_map p e.seq_id s ≡ true) where
      lower_of :
          s.entry.seq_id < e.seq_id → (priority q.priority_map s.entry.request.slo_class <ℤ p)
      unfolding displaces
      lower_of older =
          displaced_lower (priority q.priority_map s.entry.request.slo_class) p s.entry.seq_id
            e.seq_id may older

      lowest_of :
          All
            (λ z.
              is_sheddable q.priority_map z.entry.request.slo_class ≡ true
              → priority q.priority_map s.entry.request.slo_class
                ≤ℤ priority q.priority_map z.entry.request.slo_class)
            (contents q.bands)
      lowest_of =
          let Low : FlowEntry → Type 0 = λ d.
            is_sheddable q.priority_map d.request.slo_class ≡ true
            → priority q.priority_map s.entry.request.slo_class
              ≤ℤ priority q.priority_map d.request.slo_class in
          scanned_contents Low 0 q.bands (
            All-map₂ {A = Slot} (Worst q.priority_map s) (Worst q.priority_map s)
              (λ (z : Slot). Low z.entry)
              (λ (z : Slot) (w : Worst q.priority_map s z) (w' : Worst q.priority_map s z)
                  (h : is_sheddable q.priority_map z.entry.request.slo_class ≡ true).
                no_worse_low q.priority_map z s (w h))
              (band_slots 0 q.bands) worst worst)

      shed_and_admit-TookPlace : TookPlace q p e (shed_and_admit q b p e s)
      unfolding shed_and_admit
      shed_and_admit-TookPlace =
          let tail = victim-tail q.priority_map q.bands s st v.well sheddable worst in
          let (q1, taken, t) =
            take_out-Taken q s.band s.tenant s.index st.in_band st.in_flow s.entry v st.band_at
              st.flow_at st.entry_at in
          let removes =
            remove_tail q s.band s.tenant s.index st.in_band st.in_flow st.band_at st.flow_at tail
            ∙ taken in
          let x = placed_at st.in_band s.tenant s.entry in
          let q2 : GatewayQueue Float = record q1 { shed_count = suc q1.shed_count } in
          let (fresh_x, fresh_rest) =
            Removes-All (λ y. e.request.id ≢ y.entry.request.id) x _ _ t.gone fresh in
          let (older, last_rest) = Removes-All (λ y. y.entry.seq_id < e.seq_id) x _ _ t.gone last in
          let valid2 : IsValid q2 = record {
            well = t.valid.well;
            descending = t.valid.descending;
            counted = t.valid.counted;
            unique = t.valid.unique;
            index_unique = t.valid.index_unique;
            index = t.valid.index;
          } in
          let (band', at', same_p) = t.bands b band band_at in
          let classed2 =
            ap (λ (m : SloPriorityMap). priority m e.request.slo_class) t.settings.2 ∙ classed in
          let (q3, admits, a) =
            admit-Admitted q2 b p e band' valid2 at' (same_p ∙ at_p) classed2 fresh_rest
              last_rest in
          record {
            victim = x;
            rest = contents q1.bands;
            after = q3;
            returns =
                ap
                  (λ (r : Result (Request × GatewayQueue Float)).
                    r >>= λ (o : Request × GatewayQueue Float).
                    admit (record o.1 { shed_count = suc o.1.shed_count }) b p e
                    >>= λ (n : GatewayQueue Float). ok (shed_victim, some o.0, n))
                  removes
                ∙ ap
                    (λ (r : Result (GatewayQueue Float)).
                      r >>= λ (n : GatewayQueue Float). ok (shed_victim, some s.entry.request, n))
                    admits;
            valid = a.valid;
            gone = t.gone;
            more = a.more;
            sheddable = sheddable;
            lower = lower_of older;
            lowest = lowest_of;
            one_shed = a.settings.1 ∙ ap suc t.settings.3;
            same_depth = a.settings.0 ∙ t.settings.0;
          }

    displaced_facts :
        (best : Option Slot)
        → ((best ≡ none)
            ⊎ ((w : Slot) × (best ≡ some w)
                × Stands q.bands w
                × (is_sheddable q.priority_map w.entry.request.slo_class ≡ true)
                × All (Worst q.priority_map w) (band_slots 0 q.bands)))
        → (s : Slot) → if_displaced q.priority_map p e.seq_id best ≡ some s
        → Stands q.bands s
          × (is_sheddable q.priority_map s.entry.request.slo_class ≡ true)
          × All (Worst q.priority_map s) (band_slots 0 q.bands)
          × (displaces q.priority_map p e.seq_id s ≡ true)
    unfolding if_displaced slot_or
    displaced_facts none scan s h = cc
    displaced_facts (some best) (inl missing) s h = cc
    displaced_facts (some best) (inr (w, is_w, st, shed, worst)) s h =
        elim (Bool-cases (displaces q.priority_map p e.seq_id best)) [
          | inr held ↦ let never = rw held at h in cc never
          | inl may ↦
              let g : some best ≡ some s = sym (ap (λ c. if c then some best else none) may) ∙ h in
              let at_s : best ≡ s = ap (slot_or best) g in
              let w_best : w ≡ best = ap (slot_or best) (sym is_w) in
              let w_s : w ≡ s = w_best ∙ at_s in
              subst
                (λ (z : Slot).
                  Stands q.bands z
                  × (is_sheddable q.priority_map z.entry.request.slo_class ≡ true)
                  × All (Worst q.priority_map z) (band_slots 0 q.bands)
                  × (displaces q.priority_map p e.seq_id z ≡ true))
                w_s
                (
                  st,
                  shed,
                  worst,
                  subst (λ (z : Slot). displaces q.priority_map p e.seq_id z ≡ true) (sym w_best)
                      may,
                )
        ]

    -- Whatever the search for a victim has found.
    victim_step :
        (found : Option Slot)
        → ((s : Slot)
            → found ≡ some s
            → Stands q.bands s
              × (is_sheddable q.priority_map s.entry.request.slo_class ≡ true)
              × All (Worst q.priority_map s) (band_slots 0 q.bands)
              × (displaces q.priority_map p e.seq_id s ≡ true))
        → Enqueues q p e (shed_found found q b p e)
    unfolding shed_found
    victim_step none facts = inr (inr (reject-TurnedAway _ refl))
    victim_step (some s) facts =
        let (st, sheddable, worst, may) = facts s refl in
        inr (inl (shed_and_admit-TookPlace s st sheddable worst may))

    found_facts :
        (s : Slot)
        → find_global_shed_victim q p e.seq_id ≡ some s
        → Stands q.bands s
          × (is_sheddable q.priority_map s.entry.request.slo_class ≡ true)
          × All (Worst q.priority_map s) (band_slots 0 q.bands)
          × (displaces q.priority_map p e.seq_id s ≡ true)
    unfolding find_global_shed_victim
    found_facts s h =
        let stands = band_slots-Stands q.priority_map q.bands 0 q.bands (From-all q.bands) v.well in
        let scan =
          victim_loop-Victim q.priority_map (Stands q.bands) (band_slots 0 q.bands) stands in
        displaced_facts (victim_loop q.priority_map none (band_slots 0 q.bands)) scan s h

    depth_step :
        (full shedding : Bool)
        → reached q.max_depth q.total_len ≡ full
        → q.shedding_enabled ≡ shedding
        → Enqueues q p e (check_depth full q b p e)
    unfolding check_depth shed_or_reject
    depth_step false shedding full_is on = inl (
        admit_outcome-LetIn
          (room_left q.max_depth (length (contents q.bands)) q.total_len v.counted full_is))
    depth_step true false full_is off =
        inr (inr (reject-TurnedAway _ (ap (λ c. shed_or_reject c q b p e) off)))
    depth_step true true full_is on =
        subst (λ outcome. Enqueues q p e outcome) (sym (ap (λ c. shed_or_reject c q b p e) on))
          (victim_step (find_global_shed_victim q p e.seq_id) found_facts)

    band_step : (full : Bool) → Enqueues q p e (check_band full q b p e)
    unfolding check_band
    band_step true = inr (inr (reject-TurnedAway _ refl))
    band_step false = depth_step (reached q.max_depth q.total_len) q.shedding_enabled refl refl

    enqueue_into-Enqueues : Enqueues q p e (enqueue_into q b p e)
    unfolding enqueue_into
    enqueue_into-Enqueues =
        subst (λ outcome. Enqueues q p e outcome)
          (sym (
            ap
              (λ o. or_panic o nil_dereference >>= λ (c : PriorityBand).
                check_band (reached q.max_band_capacity c.total_len) q b p e)
              band_at))
          (band_step (reached q.max_band_capacity band.total_len))

  -- findOrCreateBand changes the bands alone.
  find_form :
      (q : GatewayQueue Float) (p : ℤ)
      → (i : ℕ) × (bands : List PriorityBand) × (find_or_create_band q p
          ≡ (i, record q { bands = bands }))
  unfolding find_or_create_band
  find_form q p =
      let k = sort_search (length q.bands) (at_most q.bands p) in
      elim (Bool-cases (stands_at q.bands p k)) [
        | inl there ↦ (k, q.bands, rw there refl)
        | inr absent ↦ (k, insert_band q.bands p k, rw absent refl)
      ]

  -- A new empty band makes no difference to the outcome's account.
  module _ (q : GatewayQueue Float) (p : ℤ) (e : FlowEntry) (bands : List PriorityBand)
      (same : contents bands ≡ contents q.bands) (outcome : Result (Outcome Float)) where
    through_bands : Enqueues (record q { bands = bands }) p e outcome → Enqueues q p e outcome
    through_bands (inl h) = inl (record {
      after = h.after;
      returns = h.returns;
      valid = h.valid;
      more = subst (λ xs. Removes (newcomer p e) (contents h.after.bands) xs) same h.more;
      room = subst (λ xs. (q.max_depth ≡ 0) ⊎ (length xs < q.max_depth)) same h.room;
      same_depth = h.same_depth;
    })
    through_bands (inr (inl h)) = inr (
        inl (record {
          victim = h.victim;
          rest = h.rest;
          after = h.after;
          returns = h.returns;
          valid = h.valid;
          gone = subst (λ xs. Removes h.victim xs h.rest) same h.gone;
          more = h.more;
          sheddable = h.sheddable;
          lower = h.lower;
          lowest =
              subst
                (λ xs.
                  All
                    (λ z.
                      is_sheddable q.priority_map z.entry.request.slo_class ≡ true
                      → priority q.priority_map h.victim.entry.request.slo_class
                        ≤ℤ priority q.priority_map z.entry.request.slo_class)
                    xs)
                same h.lowest;
          one_shed = h.one_shed;
          same_depth = h.same_depth;
        }))
    through_bands (inr (inr h)) = inr (
        inr (record {
          after = h.after;
          returns = h.returns;
          valid = h.valid;
          same_contents = h.same_contents ∙ same;
          one_rejected = h.one_rejected;
          same_depth = h.same_depth;
        }))

  -- On a valid queue, for a request whose id no entry has, with a sequence number above those of
  -- all entries, Enqueue does not panic: INV-16 and INV-17 hold. It has one of three outcomes, and
  -- each leaves a valid queue. It lets the newcomer in, where there is room below maxDepth, or no
  -- such limit. Or the newcomer takes the place of a sheddable entry whose priority is below its own
  -- and is least among those of the sheddable entries, and one more shedding is counted. Or it
  -- turns the newcomer away, keeps the contents and counts one more rejection.
  pub enqueue-Enqueues :
      (q : GatewayQueue Float) (req : Request) (seq : ℕ)
      → IsValid q
      → Fresh req.id (contents q.bands)
      → Before seq (contents q.bands)
      → Enqueues q
          (priority q.priority_map req.slo_class)
          (record { request = req; seq_id = seq })
          (enqueue q req seq)
  unfolding enqueue
  enqueue-Enqueues q req seq v fresh last =
      let p = priority q.priority_map req.slo_class in
      let e : FlowEntry = record { request = req; seq_id = seq } in
      let (i, bands, form) = find_form q p in
      let Found : ℕ × GatewayQueue Float → Type 0 = λ r.
        IsValid r.1
        × (contents r.1.bands ≡ contents q.bands)
        × ((band : PriorityBand) × (get_elem? r.1.bands r.0 ≡ some band) × (band.priority ≡ p)) in
      let (valid, same, (band, band_at, at_p)) =
        subst Found form (find_or_create_band-IsValid q v p) in
      let outcome =
        enqueue_into-Enqueues (record q { bands = bands }) i p e band valid band_at at_p refl
          (subst (Fresh req.id) (sym same) fresh) (subst (Before seq) (sym same) last) in
      subst (λ (r : ℕ × GatewayQueue Float). Enqueues q p e (enqueue_into r.1 r.0 p e)) (sym form)
        (through_bands q p e bands same _ outcome)
