-- ===== src/Gateway/Picking.antt =====
-- Each fairness policy picks a flow of the band, as long as the band has one.
use inference_sim.Prelude.{
  ℕ, zero, suc, ◌+◌, ◌<◌, ◌%◌, String, List, [], ◌∷◌, none, some, ◌≡◌, refl, ap, ◌∙◌, ℤ, ltb,
  str_ltb, Bool-cases, inl, inr, ℤ-discrete, string_discrete, length, get_elem?, lookup, insert,
  All, All-get_elem?, arith,
}
use inference_sim.SloPriority.{SloPriorityMap}
use inference_sim.Gateway.Flows.{
  FlowEntry, FlowQueue, Flows, PriorityBand, sorted_flows, insert_sorted,
}
use inference_sim.Gateway.Policy.{
  FairnessPolicy, global_strict, round_robin, older, consider, strict_loop, tenant_of, start_index,
  round_robin_loop, move_cursor, pick_next, pick,
}
use inference_sim.Gateway.Contents.{WellFlow, WellBand, placed_flows}
use inference_sim.Gateway.Locating.{All-map₂, sorted_flows-All, All-found}

-- A flow of the band that holds a request.
pub record Serves (flows : Flows) (t : String) : Type 0 where
  pub flow : FlowQueue
  pub head : FlowEntry
  pub tail : List FlowEntry
  pub flow_at : lookup string_discrete t flows ≡ some flow
  pub requests : flow.requests ≡ head ∷ tail

-- A flow with its tenant served.
abbrev Servable : Flows → String × FlowQueue → Type 0
Servable flows f = Serves flows f.0 × (0 < length f.1.requests)

servable :
    (flows : Flows) (f : String × FlowQueue) (es : List FlowEntry)
    → lookup string_discrete f.0 flows ≡ some f.1
    → f.1.requests ≡ es
    → 0 < length es
    → Servable flows f
servable flows f [] h e full = absurd (omega arith)
servable flows f (d ∷ ds) h e full =
    (record { flow = f.1; head = d; tail = ds; flow_at = h; requests = e }, rw e full)

module _ (m : SloPriorityMap) (band : PriorityBand) (w : WellBand m band) where
  All-Servable : All (Servable band.flows) (sorted_flows band.flows)
  All-Servable = sorted_flows-All (Servable band.flows) band.flows (
      All-map₂ {A = String × FlowQueue} (λ f. lookup string_discrete f.0 band.flows ≡ some f.1)
        (WellFlow m band.priority) (Servable band.flows)
        (λ (f : String × FlowQueue) (h : lookup string_discrete f.0 band.flows ≡ some f.1)
            (g : WellFlow m band.priority f).
          servable band.flows f f.1.requests h refl (g.busy))
        band.flows (All-found band.flows w.unique) w.well)

insert_length :
    (e : String × FlowQueue) (fs : Flows) → length (insert_sorted e fs) ≡ suc (length fs)
unfolding insert_sorted
insert_length e [] = refl
insert_length e (f ∷ fs) = elim (Bool-cases (str_ltb e.0 f.0)) [
  | inl before ↦ rw before refl
  | inr after ↦ rw after (ap suc (insert_length e fs))
]

below : (start n : ℕ) → (start + 0) % suc n < suc n
below start n = grind arith

pub get_elem?-some {ℓ} :
    {A : Type ℓ} (xs : List A) (i : ℕ) → i < length xs → (x : A) × (get_elem? xs i ≡ some x)
get_elem?-some [] i h = absurd (omega arith)
get_elem?-some (x ∷ xs) zero h = (x, refl)
get_elem?-some (x ∷ xs) (suc i) h = get_elem?-some xs i (omega arith)

-- The strict policy.
module _ (P : String → Type 0) where
  abbrev Goes : String × FlowQueue → Type 0
  Goes f = P f.0 × (0 < length f.1.requests)

  older-case :
      (t u : String) (k : ℕ) (e : FlowEntry)
      → P t
      → P u
      → (r : String) × (n : ℕ) × (older (some (t, k)) u e ≡ some (r, n)) × P r
  unfolding older
  older-case t u k e p g = elim (Bool-cases (ltb e.seq_id k)) [
    | inl less ↦ (u, e.seq_id, rw less refl, g)
    | inr more ↦ (t, k, rw more refl, p)
  ]

  consider-case :
      (t u : String) (k : ℕ) (es : List FlowEntry)
      → P t
      → P u
      → (r : String) × (n : ℕ) × (consider (some (t, k)) u es ≡ some (r, n)) × P r
  unfolding consider
  consider-case t u k [] p g = (t, k, refl, p)
  consider-case t u k (e ∷ es) p g = older-case t u k e p g

  strict_some :
      (t : String) (k : ℕ) (keys : Flows)
      → P t
      → All Goes keys
      → (r : String) × (tenant_of (strict_loop (some (t, k)) keys) ≡ some r) × P r
  unfolding strict_loop tenant_of
  strict_some t k [] p all = (t, refl, p)
  strict_some t k (f ∷ keys) p all =
      let (u, n, e, pu) = consider-case t f.0 k f.1.requests p all.0.0 in
      let (r, found, pr) = strict_some u n keys pu all.1 in (r, rw e found, pr)

  consider_first :
      (u : String) (es : List FlowEntry)
      → 0 < length es
      → (n : ℕ) × (consider none u es ≡ some (u, n))
  unfolding consider older
  consider_first u [] full = absurd (omega arith)
  consider_first u (e ∷ es) full = (e.seq_id, refl)

  strict_none :
      (keys : Flows)
      → 0 < length keys
      → All Goes keys
      → (r : String) × (tenant_of (strict_loop none keys) ≡ some r) × P r
  unfolding strict_loop
  strict_none [] full all = absurd (omega arith)
  strict_none (f ∷ keys) full all =
      let (n, e) = consider_first f.0 f.1.requests all.0.1 in
      let (r, found, pr) = strict_some f.0 n keys all.0.0 all.1 in (r, rw e found, pr)

  -- The round robin: every flow is busy, so its first look finds one.
  first_look :
      (left start : ℕ) (keys : Flows) (f : String × FlowQueue) (es : List FlowEntry)
      → get_elem? keys ((start + 0) % length keys) ≡ some f
      → f.1.requests ≡ es
      → 0 < length es
      → round_robin_loop (suc left) start 0 keys ≡ some f.0
  unfolding round_robin_loop
  first_look left start keys f [] h e full = absurd (omega arith)
  first_look left start keys f (d ∷ ds) h e full = rw (h, round_robin_loop) (rw e refl)

  pick_next-some :
      (cursors : List (ℤ × String)) (p : ℤ) (keys : Flows)
      → 0 < length keys
      → All Goes keys
      → (r : String) × (policy : FairnessPolicy) × (pick_next cursors p keys ≡ (some r, policy))
        × P r
  unfolding pick_next move_cursor
  pick_next-some cursors p [] full all = absurd (omega arith)
  pick_next-some cursors p (k ∷ ks) full all =
      let start = start_index (lookup ℤ-discrete p cursors) (k ∷ ks) in
      let (f, h) =
        get_elem?-some (k ∷ ks) ((start + 0) % length (k ∷ ks)) (below start (length ks)) in
      let goes = All-get_elem? Goes (k ∷ ks) _ f h all in
      (
        f.0,
        round_robin (insert ℤ-discrete p f.0 cursors),
        rw (first_look (length ks) start (k ∷ ks) f f.1.requests h refl goes.1) refl,
        goes.0,
      )

sorted_length : (fs : Flows) → length (sorted_flows fs) ≡ length fs
unfolding sorted_flows
sorted_length [] = refl
sorted_length (f ∷ fs) = insert_length f (sorted_flows fs) ∙ ap suc (sorted_length fs)

placed_length : (p : ℤ) (fs : Flows) → 0 < length (placed_flows p fs) → 0 < length fs
unfolding placed_flows
placed_length p [] h = h
placed_length p (f ∷ fs) h = omega arith

-- The pick: a tenant whose flow is in the band and holds a request.
pub pick-Serves :
    (m : SloPriorityMap) (band : PriorityBand) (policy : FairnessPolicy)
    → WellBand m band
    → 0 < length (placed_flows band.priority band.flows)
    → (r : String) × (policy' : FairnessPolicy) × (pick policy band ≡ (some r, policy'))
      × Serves band.flows r
unfolding pick
pick-Serves m band global_strict w full =
    let some_flow =
      rw (← sorted_length band.flows) at (placed_length band.priority band.flows full) in
    let (r, found, s) =
      strict_none (Serves band.flows) (sorted_flows band.flows) some_flow (All-Servable m band w) in
    (r, global_strict, rw found refl, s)
pick-Serves m band (round_robin cursors) w full =
    let some_flow =
      rw (← sorted_length band.flows) at (placed_length band.priority band.flows full) in
    pick_next-some (Serves band.flows) cursors band.priority (sorted_flows band.flows) some_flow
      (All-Servable m band w)
