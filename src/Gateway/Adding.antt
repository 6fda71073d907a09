-- ===== src/Gateway/Adding.antt =====
-- An entry joined to a band: what the queue then holds, and that the band is still well formed.
use inference_sim.Prelude.{
  ℕ, zero, suc, ◌<◌, String, List, [], ◌∷◌, ◌++◌, Option, Option-cases, none, some, ◌≡◌, refl, sym,
  ap, subst, ◌∙◌, inl, inr, if_pos, if_neg, ℤ, pos, incr, string_discrete, length, get_elem?, set,
  lookup, insert, UniqueKeys, UniqueKeys-insert, lookup-insert_self, All, All-append,
  All-append_left, All-append_right, length-append, All-insert, All-lookup, Removes, Removes-left,
  Removes-length, arith,
}
use inference_sim.SloPriority.{SloPriorityMap, priority}
use inference_sim.Gateway.Flows.{FlowEntry, FlowQueue, Flows, PriorityBand}
use inference_sim.Gateway.Enqueue.{append_to, append_entry, join_band}
use inference_sim.Gateway.Contents.{
  Placed, place, placed_flows, contents, Increasing, WellFlow, WellBand,
}
use inference_sim.Gateway.Removal.{insert-Removes}
use inference_sim.Gateway.Taking.{placed_at, set-Removes}

append-Removes :
    (p : ℤ) (t : String) (es : List FlowEntry) (e : FlowEntry)
    → Removes
        (record { entry = e; priority = p; tenant = t })
        (place p t (es ++ e ∷ []))
        (place p t es)
append-Removes p t [] e = ([], [], refl, refl)
append-Removes p t (d ∷ es) e = Removes-left (_ ∷ []) (append-Removes p t es e)

append-Increasing :
    (es : List FlowEntry) (e : FlowEntry)
    → Increasing es
    → All (λ d. d.seq_id < e.seq_id) es
    → Increasing (es ++ e ∷ [])
append-Increasing [] e inc last = (tt, tt)
append-Increasing (d ∷ es) e inc last = (
  All-append (λ c. d.seq_id < c.seq_id) es (e ∷ []) inc.0 (last.0, tt),
  append-Increasing es e inc.1 last.1,
)

-- A flow written over another can be written back.
insert_back :
    (t : String) (flow flow' : FlowQueue) (fs : Flows)
    → lookup string_discrete t fs ≡ some flow
    → insert string_discrete t flow (insert string_discrete t flow' fs) ≡ fs
unfolding lookup insert
insert_back t flow flow' [] h = cc
insert_back t flow flow' (f ∷ fs) h = elim (string_discrete t f.0) [
  | yes same ↦
      let e : f.1 ≡ flow = let g = rw (if_pos _ same) at h in ground arith in
      let whole : (t, flow) ≡ f = ground arith in
      rw (if_pos _ same) (rw (if_pos (string_discrete t t) refl) (ap (λ g. g ∷ fs) whole))
  | no other ↦
      rw (if_neg _ other)
        (rw (if_neg _ other) (ap (◌∷◌ f) (insert_back t flow flow' fs (rw (if_neg _ other) at h))))
]

lookup_written :
    (t : String) (flow : FlowQueue) (fs : Flows)
    → lookup string_discrete t (insert string_discrete t flow fs) ≡ some flow
lookup_written t flow fs = lookup-insert_self string_discrete t flow fs

new_flow-Removes :
    (p : ℤ) (t : String) (flow : FlowQueue) (e : FlowEntry) (fs : Flows)
    → flow.requests ≡ e ∷ []
    → lookup string_discrete t fs ≡ none
    → Removes
        (record { entry = e; priority = p; tenant = t })
        (placed_flows p (insert string_discrete t flow fs))
        (placed_flows p fs)
unfolding lookup insert placed_flows
new_flow-Removes p t flow e [] one h = rw one ([], [], refl, refl)
new_flow-Removes p t flow e (f ∷ fs) one h = elim (string_discrete t f.0) [
  | yes same ↦ let g = rw (if_pos _ same) at h in cc
  | no other ↦ rw (if_neg _ other) (
      Removes-left (place p f.0 f.1.requests)
        (new_flow-Removes p t flow e fs one (rw (if_neg _ other) at h)))
]

-- The requests of each flow, out of those of the band.
module _ (n : ℕ) where
  abbrev pub Before : List Placed → Type 0
  Before xs = All (λ x. x.entry.seq_id < n) xs

  abbrev EntriesBefore : String × FlowQueue → Type 0
  EntriesBefore f = All (λ d. d.seq_id < n) f.1.requests

  place-Before :
      (p : ℤ) (t : String) (es : List FlowEntry)
      → Before (place p t es)
      → All (λ d. d.seq_id < n) es
  place-Before p t [] h = tt
  place-Before p t (e ∷ es) h = (h.0, place-Before p t es h.1)

  placed_flows-Before : (p : ℤ) (fs : Flows) → Before (placed_flows p fs) → All EntriesBefore fs
  unfolding placed_flows
  placed_flows-Before p [] h = tt
  placed_flows-Before p (f ∷ fs) h = (
    place-Before p f.0 f.1.requests
        (All-append_left (λ x. x.entry.seq_id < n) (place p f.0 f.1.requests) _ h),
    placed_flows-Before p fs
        (All-append_right (λ x. x.entry.seq_id < n) (place p f.0 f.1.requests) _ h),
  )

longer_not_empty : (es : List FlowEntry) (e : FlowEntry) → 0 < length (es ++ e ∷ [])
longer_not_empty es e = omega (arith, length-append es (e ∷ []))

module _ (m : SloPriorityMap) (band : PriorityBand) (t : String) (e : FlowEntry)
    (w : WellBand m band) (classed : priority m e.request.slo_class ≡ band.priority)
    (last : Before e.seq_id (placed_flows band.priority band.flows)) where
  abbrev Joined : Flows → Type 0
  Joined fs =
      Removes (placed_at band t e) (placed_flows band.priority fs)
        (placed_flows band.priority band.flows)
      × UniqueKeys string_discrete fs
      × All (WellFlow m band.priority) fs

  longer_flow : FlowQueue → FlowQueue
  longer_flow flow = record flow { requests = flow.requests ++ e ∷ [] }

  old_flow-Joined :
      (flow : FlowQueue)
      → lookup string_discrete t band.flows ≡ some flow
      → Joined (insert string_discrete t (longer_flow flow) band.flows)
  unfolding longer_flow
  old_flow-Joined flow h =
      let fs = insert string_discrete t (longer_flow flow) band.flows in
      let was : WellFlow m band.priority (t, flow) =
        All-lookup string_discrete (WellFlow m band.priority) t flow band.flows h w.well in
      let before =
        All-lookup string_discrete (EntriesBefore e.seq_id) t flow band.flows h
          (placed_flows-Before e.seq_id band.priority band.flows last) in
      let fine : WellFlow m band.priority (t, longer_flow flow) = record {
        keyed = was.keyed;
        busy = longer_not_empty flow.requests e;
        classed =
            All-append (λ d. priority m d.request.slo_class ≡ band.priority) flow.requests (e ∷ [])
              (was.classed) (classed, tt);
        ordered = append-Increasing flow.requests e (was.ordered) before;
      } in
      let gone =
        insert-Removes band.priority t (placed_at band t e) (longer_flow flow) flow
          (append-Removes band.priority t flow.requests e) fs
          (lookup_written t (longer_flow flow) band.flows) in
      (
        subst
            (λ gs.
              Removes (placed_at band t e) (placed_flows band.priority fs)
                (placed_flows band.priority gs))
            (insert_back t flow (longer_flow flow) band.flows h) gone,
        UniqueKeys-insert string_discrete t (longer_flow flow) band.flows w.unique,
        All-insert string_discrete (WellFlow m band.priority) t (longer_flow flow) band.flows fine
            w.well,
      )

  new_flow-Joined :
      (flow : FlowQueue)
      → flow.key.tenant_id ≡ t
      → flow.requests ≡ e ∷ []
      → lookup string_discrete t band.flows ≡ none
      → Joined (insert string_discrete t flow band.flows)
  new_flow-Joined flow key one h =
      let fine : WellFlow m band.priority (t, flow) = record {
        keyed = key;
        busy = subst (λ es. 0 < length es) (sym one) (omega arith);
        classed =
            subst (λ es. All (λ d. priority m d.request.slo_class ≡ band.priority) es) (sym one)
              (classed, tt);
        ordered = subst Increasing (sym one) (tt, tt);
      } in
      (
        new_flow-Removes band.priority t flow e band.flows one h,
        UniqueKeys-insert string_discrete t flow band.flows w.unique,
        All-insert string_discrete (WellFlow m band.priority) t flow band.flows fine w.well,
      )

  append_entry-Joined : Joined (append_entry band.flows t band.priority e)
  unfolding append_entry append_to longer_flow
  append_entry-Joined =
      let back =
        λ (o : Option FlowQueue) (h : lookup string_discrete t band.flows ≡ o)
            (j : Joined (append_to o band.flows t band.priority e)).
          subst (λ u. Joined (append_to u band.flows t band.priority e)) (sym h) j in
      elim (Option-cases (lookup string_discrete t band.flows)) [
        | inl absent ↦ back none absent (new_flow-Joined _ refl refl absent)
        | inr (flow, h) ↦ back (some flow) h (old_flow-Joined flow h)
      ]

  pub join_band-Removes :
      Removes
        (placed_at band t e)
        (placed_flows band.priority (join_band band t band.priority e).flows)
        (placed_flows band.priority band.flows)
  unfolding join_band
  join_band-Removes = append_entry-Joined.0

  pub join_band-WellBand : WellBand m (join_band band t band.priority e)
  unfolding join_band
  join_band-WellBand = record {
    unique = append_entry-Joined.1;
    well = append_entry-Joined.2;
    counted =
        ap incr w.counted
        ∙ ap pos (sym (Removes-length (placed_at band t e) _ _ join_band-Removes));
  }

  pub join_band-priority : (join_band band t band.priority e).priority ≡ band.priority
  unfolding join_band
  join_band-priority = refl

set_back {ℓ} :
    {A : Type ℓ} (xs : List A) (i : ℕ) (x y : A)
    → get_elem? xs i ≡ some x
    → set (set xs i y) i x ≡ xs
set_back [] i x y h = cc
set_back (z ∷ xs) zero x y h = let e : z ≡ x = ground arith in ap (λ u. u ∷ xs) (sym e)
set_back (z ∷ xs) (suc i) x y h = ap (◌∷◌ z) (set_back xs i x y h)

get_elem?-set {ℓ} :
    {A : Type ℓ} (xs : List A) (i : ℕ) (x y : A)
    → get_elem? xs i ≡ some x
    → get_elem? (set xs i y) i ≡ some y
get_elem?-set [] i x y h = cc
get_elem?-set (z ∷ xs) zero x y h = refl
get_elem?-set (z ∷ xs) (suc i) x y h = get_elem?-set xs i x y h

-- The queue with a fuller band holds one entry more.
pub set-joined :
    (bands : List PriorityBand) (b : ℕ) (band band' : PriorityBand) (x : Placed)
    → get_elem? bands b ≡ some band
    → Removes x (placed_flows band'.priority band'.flows) (placed_flows band.priority band.flows)
    → Removes x (contents (set bands b band')) (contents bands)
set-joined bands b band band' x h more =
    subst (λ old. Removes x (contents (set bands b band')) (contents old))
      (set_back bands b band band' h)
      (set-Removes (set bands b band') b band' band x (get_elem?-set bands b band band' h) more)
