-- ===== src/Gateway/Removal.antt =====
-- Taking an entry out of a valid queue leaves a valid queue without that entry.
use inference_sim.Prelude.{
  ℕ, zero, suc, ◌<◌, String, List, [], ◌∷◌, some, ◌≡◌, refl, sym, ap, subst, ◌∙◌, if_pos, if_neg, ℤ,
  string_discrete, get_elem?, erase_idx, lookup, insert, erase, UniqueKeys, UniqueKeys-insert,
  UniqueKeys-erase, All, All-insert, All-erase, Removes, Removes-left, Removes-right, arith,
}
use inference_sim.SloPriority.{SloPriorityMap, priority}
use inference_sim.Gateway.Flows.{FlowKey, FlowEntry, FlowQueue, Flows, settle}
use inference_sim.Gateway.Contents.{Placed, place, placed_flows, Increasing, WellFlow}

pub place-Removes :
    (p : ℤ) (t : String) (es : List FlowEntry) (i : ℕ) (e : FlowEntry)
    → get_elem? es i ≡ some e
    → Removes
        (record { entry = e; priority = p; tenant = t })
        (place p t es)
        (place p t (erase_idx es i))
place-Removes p t [] i e h = cc
place-Removes p t (x ∷ es) zero e h =
    let same : x ≡ e = ground arith in
    (
      [],
      place p t es,
      ap (λ (y : FlowEntry). record { entry = y; priority = p; tenant = t } ∷ place p t es) same,
      refl,
    )
place-Removes p t (x ∷ es) (suc i) e h = Removes-left (_ ∷ []) (place-Removes p t es i e h)

-- The flow written back holds what is left, and so does the map of flows.
module _ (p : ℤ) (t : String) (x : Placed) (flow rest : FlowQueue)
    (gone : Removes x (place p t flow.requests) (place p t rest.requests)) where
  pub insert-Removes :
      (flows : Flows)
      → lookup string_discrete t flows ≡ some flow
      → Removes x (placed_flows p flows) (placed_flows p (insert string_discrete t rest flows))
  unfolding lookup insert placed_flows
  insert-Removes [] h = cc
  insert-Removes (f ∷ fs) h = elim (string_discrete t f.0) [
    | yes same ↦
        let e : f.1 ≡ flow = let g = rw (if_pos _ same) at h in ground arith in
        let before : place p f.0 f.1.requests ≡ place p t flow.requests =
          ap (λ s. place p s f.1.requests) (sym same)
          ∙ ap (λ (v : FlowQueue). place p t v.requests) e in
        rw (if_pos _ same, before) (Removes-right (placed_flows p fs) gone)
    | no other ↦
        rw (if_neg _ other)
          (Removes-left (place p f.0 f.1.requests) (insert-Removes fs (rw (if_neg _ other) at h)))
  ]

  erase-Removes :
      rest.requests ≡ []
      → (flows : Flows) → lookup string_discrete t flows ≡ some flow
      → Removes x (placed_flows p flows) (placed_flows p (erase string_discrete t flows))
  unfolding lookup erase placed_flows
  erase-Removes none_left [] h = cc
  erase-Removes none_left (f ∷ fs) h = elim (string_discrete t f.0) [
    | yes same ↦
        let e : f.1 ≡ flow = let g = rw (if_pos _ same) at h in ground arith in
        let before : place p f.0 f.1.requests ≡ place p t flow.requests =
          ap (λ s. place p s f.1.requests) (sym same)
          ∙ ap (λ (v : FlowQueue). place p t v.requests) e in
        let empty : Removes x (place p t flow.requests) [] =
          subst (λ es. Removes x (place p t flow.requests) (place p t es)) none_left gone in
        rw (if_pos _ same, before) (Removes-right (placed_flows p fs) empty)
    | no other ↦ rw (if_neg _ other) (
        Removes-left (place p f.0 f.1.requests)
          (erase-Removes none_left fs (rw (if_neg _ other) at h)))
  ]

pub All-erase_idx {ℓ κ} :
    {A : Type ℓ} (P : A → Type κ) (es : List A) (i : ℕ) → All P es → All P (erase_idx es i)
All-erase_idx P [] i h = tt
All-erase_idx P (x ∷ es) zero h = h.1
All-erase_idx P (x ∷ es) (suc i) h = (h.0, All-erase_idx P es i h.1)

pub erase_idx-Increasing :
    (es : List FlowEntry) (i : ℕ) → Increasing es → Increasing (erase_idx es i)
erase_idx-Increasing [] i h = tt
erase_idx-Increasing (e ∷ es) zero h = h.1
erase_idx-Increasing (e ∷ es) (suc i) h =
    (All-erase_idx (λ d. e.seq_id < d.seq_id) es i h.0, erase_idx-Increasing es i h.1)

-- What is left of a flow, by whether anything is.
module _ (m : SloPriorityMap) (p : ℤ) (t : String) (flows : Flows) where
  pub settle-well :
      (key : FlowKey) (es : List FlowEntry)
      → key.tenant_id ≡ t
      → All (λ e. priority m e.request.slo_class ≡ p) es
      → Increasing es
      → UniqueKeys string_discrete flows
      → All (WellFlow m p) flows
      → UniqueKeys string_discrete (settle t (record { key = key; requests = es }) flows)
        × All (WellFlow m p) (settle t (record { key = key; requests = es }) flows)
  unfolding settle
  settle-well key [] k c o u w =
      (UniqueKeys-erase string_discrete _ flows u, All-erase string_discrete _ _ flows w)
  settle-well key (e ∷ es) k c o u w =
      let fine : WellFlow m p (t, record { key = key; requests = e ∷ es }) = record {
        keyed = k;
        busy = omega arith;
        classed = c;
        ordered = o;
      } in
      (
        UniqueKeys-insert string_discrete t _ flows u,
        All-insert string_discrete (WellFlow m p) t _ flows fine w,
      )

  pub settle-Removes :
      (x : Placed) (flow : FlowQueue) (key : FlowKey) (es : List FlowEntry)
      → key.tenant_id ≡ t
      → Removes x (place p t flow.requests) (place p t es)
      → lookup string_discrete t flows ≡ some flow
      → Removes x
          (placed_flows p flows)
          (placed_flows p (settle t (record { key = key; requests = es }) flows))
  unfolding settle
  settle-Removes x flow key [] k gone h =
      rw k (erase-Removes p t x flow (record { key = key; requests = [] }) gone refl flows h)
  settle-Removes x flow key (e ∷ es) k gone h =
      insert-Removes p t x flow (record { key = key; requests = e ∷ es }) gone flows h
