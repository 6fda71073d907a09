-- ===== src/Gateway/Fifo.antt =====
-- Dequeue in FIFO mode: the oldest request of the whole queue.
use inference_sim.Prelude.{
  ℕ, zero, suc, ◌<◌, ◌≤◌, String, List, [], ◌∷◌, Option, none, some, ◌≡◌, refl, sym, ap, subst, ◌∙◌,
  Bool, true, false, ℤ, pos, is_zero, Bool-cases, inl, inr, ok, ltb, ltb→lt, ltb_false→le, length,
  All, All-append, All-append_left, All-append_right, arith,
}
use inference_sim.Request.{Request}
use inference_sim.SloPriority.{SloPriorityMap}
use inference_sim.Gateway.Flows.{FlowEntry, FlowQueue, Flows, PriorityBand, sorted_flows}
use inference_sim.Gateway.State.{GatewayQueue}
use inference_sim.Gateway.Slots.{Slot, head_slot, head_slots, band_heads}
use inference_sim.Gateway.Dispatch.{
  fifo_loop, taken, dequeue_by, dequeue, dequeue_fifo, must_dispatch,
}
use inference_sim.Gateway.Contents.{
  Placed, place, placed_flows, contents, Increasing, WellFlow, WellBand, IsValid,
}
use inference_sim.Gateway.Taking.{Taken, placed_at, take_out-Taken}
use inference_sim.Gateway.Locating.{Stands, All-sorted_flows, band_heads-Stands, From-all}

-- What is no younger than every head is no younger than any entry.
module _ (n : ℕ) where
  abbrev pub Oldest : List Placed → Type 0
  Oldest xs = All (λ x. n ≤ x.entry.seq_id) xs

  abbrev pub OldestHead : List Slot → Type 0
  OldestHead slots = All (λ s. n ≤ s.entry.seq_id) slots

  place-Oldest :
      (p : ℤ) (t : String) (es : List FlowEntry)
      → All (λ e. n ≤ e.seq_id) es
      → Oldest (place p t es)
  place-Oldest p t [] all = tt
  place-Oldest p t (e ∷ es) all = (all.0, place-Oldest p t es all.1)

  younger_All :
      (k : ℕ) (es : List FlowEntry)
      → n ≤ k
      → All (λ d. k < d.seq_id) es
      → All (λ e. n ≤ e.seq_id) es
  younger_All k [] h all = tt
  younger_All k (e ∷ es) h all = (omega arith, younger_All k es h all.1)

  head_slot-Oldest :
      (b : ℕ) (p : ℤ) (t : String) (es : List FlowEntry)
      → OldestHead (head_slot b t es)
      → Increasing es
      → Oldest (place p t es)
  unfolding head_slot
  head_slot-Oldest b p t [] head inc = tt
  head_slot-Oldest b p t (e ∷ es) head inc =
      (head.0, place-Oldest p t es (younger_All e.seq_id es head.0 inc.0))

  abbrev HeadOf : ℕ → String × FlowQueue → Type 0
  HeadOf b f = OldestHead (head_slot b f.0 f.1.requests)

  split_heads : (b : ℕ) (fs : Flows) → OldestHead (head_slots b fs) → All (HeadOf b) fs
  unfolding head_slots
  split_heads b [] heads = tt
  split_heads b (f ∷ fs) heads = (
    All-append_left (λ s. n ≤ s.entry.seq_id) (head_slot b f.0 f.1.requests) _ heads,
    split_heads b fs
        (All-append_right (λ s. n ≤ s.entry.seq_id) (head_slot b f.0 f.1.requests) _ heads),
  )

  placed_flows-Oldest :
      (m : SloPriorityMap) (b : ℕ) (p : ℤ) (fs : Flows)
      → All (WellFlow m p) fs
      → All (HeadOf b) fs
      → Oldest (placed_flows p fs)
  unfolding placed_flows
  placed_flows-Oldest m b p [] w heads = tt
  placed_flows-Oldest m b p (f ∷ fs) w heads =
      All-append (λ x. n ≤ x.entry.seq_id) (place p f.0 f.1.requests) _
        (head_slot-Oldest b p f.0 f.1.requests heads.0 (w.0.ordered))
        (placed_flows-Oldest m b p fs w.1 heads.1)

pub All-empty {ℓ κ} : {A : Type ℓ} (P : A → Type κ) (xs : List A) → length xs ≡ 0 → All P xs
All-empty P [] h = tt
All-empty P (x ∷ xs) h = absurd (omega arith)

pub idle_length : (t : ℤ) (n : ℕ) → t ≡ pos n → is_zero t ≡ true → n ≡ 0
idle_length t zero e h = refl
idle_length t (suc n) e h = let g = rw e at h in cc

pub busy_length : (t : ℤ) (n : ℕ) → t ≡ pos n → 0 < n → is_zero t ≡ false
busy_length t zero e h = absurd (omega arith)
busy_length t (suc n) e h = rw e refl

band_heads-Oldest :
    (n : ℕ) (m : SloPriorityMap) (b : ℕ) (bands : List PriorityBand)
    → All (WellBand m) bands
    → OldestHead n (band_heads b bands)
    → Oldest n (contents bands)
unfolding contents band_heads
band_heads-Oldest n m b [] w heads = tt
band_heads-Oldest n m b (band ∷ bands) w heads = elim (Bool-cases (is_zero band.total_len)) [
  | inl idle ↦
      All-append (λ x. n ≤ x.entry.seq_id) (placed_flows band.priority band.flows) _
        (All-empty _ _ (idle_length _ _ (w.0.counted) idle))
        (band_heads-Oldest n m (suc b) bands w.1 (rw idle at heads))
  | inr busy ↦
      let both = rw busy at heads in
      let here =
        All-append_left (λ s. n ≤ s.entry.seq_id) (head_slots b (sorted_flows band.flows)) _ both in
      let there =
        All-append_right (λ s. n ≤ s.entry.seq_id) (head_slots b (sorted_flows band.flows)) _
          both in
      All-append (λ x. n ≤ x.entry.seq_id) (placed_flows band.priority band.flows) _
        (placed_flows-Oldest n m b band.priority band.flows (w.0.well) (
          All-sorted_flows (HeadOf n b) band.flows
            (split_heads n b (sorted_flows band.flows) here)))
        (band_heads-Oldest n m (suc b) bands w.1 there)
]

-- The loop ends with a least slot among those it saw.
module _ {κ} (P : Slot → Type κ) where
  abbrev Least : Option Slot → ℕ → List Slot → Type κ
  Least found k slots =
      (s : Slot) × (found ≡ some s) × P s × (s.entry.seq_id ≤ k) × OldestHead s.entry.seq_id slots

  fifo_loop-Least :
      (best : Slot) (slots : List Slot)
      → P best
      → All P slots
      → Least (fifo_loop (some best) slots) best.entry.seq_id slots
  unfolding fifo_loop
  fifo_loop-Least best [] p all = (best, refl, p, omega arith, tt)
  fifo_loop-Least best (s ∷ slots) p all =
      elim (Bool-cases (ltb s.entry.seq_id best.entry.seq_id)) [
        | inl less ↦
            let (r, e, pr, le, rest) = fifo_loop-Least s slots all.0 all.1 in
            let lt = ltb→lt _ _ less in (r, rw less e, pr, omega arith, (le, rest))
        | inr more ↦
            let (r, e, pr, le, rest) = fifo_loop-Least best slots p all.1 in
            let ge = ltb_false→le _ _ more in (r, rw more e, pr, le, (omega arith, rest))
      ]

-- Dequeue on a busy queue is the way of its mode, and does not panic where that finds a request.
pub dequeue_busy :
    {Float : Type 0} (q : GatewayQueue Float) (deadline priority : Bool) (r : Request)
    (q1 : GatewayQueue Float)
    → is_zero q.total_len ≡ false
    → q.slo_deadline_mode ≡ deadline
    → q.priority_mode ≡ priority
    → dequeue_by deadline priority q ≡ ok (some r, q1)
    → dequeue q ≡ ok (some r, q1)
unfolding dequeue must_dispatch
dequeue_busy q deadline priority r q1 busy d p e =
    let mode : dequeue_by q.slo_deadline_mode q.priority_mode q ≡ ok (some r, q1) =
      ap (λ b. dequeue_by b q.priority_mode q) d ∙ ap (λ b. dequeue_by deadline b q) p ∙ e in
    rw (busy, mode) refl

no-Oldest : (xs : List Placed) → 0 < length xs → ((n : ℕ) → Oldest n xs) → ⊥
no-Oldest [] full all = omega arith
no-Oldest (x ∷ xs) full all = let h = (all (suc x.entry.seq_id)).0 in omega arith

module _ {Float : Type 0} (q : GatewayQueue Float) (v : IsValid q) where
  fifo_best :
      (slots : List Slot)
      → slots ≡ band_heads 0 q.bands
      → 0 < length (contents q.bands)
      → (s : Slot) × (fifo_loop none slots ≡ some s)
        × Stands q.bands s
        × Oldest s.entry.seq_id (contents q.bands)
  unfolding fifo_loop
  fifo_best [] e full = absurd (
      no-Oldest (contents q.bands) full
        (λ n. band_heads-Oldest n q.priority_map 0 q.bands v.well (subst (OldestHead n) e tt)))
  fifo_best (s ∷ slots) e full =
      let stands = band_heads-Stands q.priority_map q.bands 0 q.bands (From-all q.bands) v.well in
      let all : All (Stands q.bands) (s ∷ slots) = subst (All (Stands q.bands)) (sym e) stands in
      let (r, found, standing, le, rest) = fifo_loop-Least (Stands q.bands) s slots all.0 all.1 in
      (
        r,
        found,
        standing,
        band_heads-Oldest r.entry.seq_id q.priority_map 0 q.bands v.well
            (subst (OldestHead r.entry.seq_id) e (le, rest)),
      )

  pub taken-Taken :
      (s : Slot)
      → Stands q.bands s
      → (x : Placed) × (q1 : GatewayQueue Float) × (taken q s.band s.tenant s.index
          ≡ ok (some x.entry.request, q1))
        × Taken q x q1
        × (x.entry ≡ s.entry)
        × (x.tenant ≡ s.tenant)
  unfolding taken
  taken-Taken s st =
      let (q1, e, t) =
        take_out-Taken q s.band s.tenant s.index (st.in_band) (st.in_flow) s.entry v (st.band_at)
          (st.flow_at) (st.entry_at) in
      (placed_at (st.in_band) s.tenant s.entry, q1, rw e refl, t, refl, refl)

  fifo_found :
      (s : Slot) (r : Request) (q1 : GatewayQueue Float)
      → fifo_loop none (band_heads 0 q.bands) ≡ some s
      → taken q s.band s.tenant s.index ≡ ok (some r, q1)
      → dequeue_by false false q ≡ ok (some r, q1)
  unfolding dequeue_by dequeue_fifo
  fifo_found s r q1 found e = rw (found, dequeue_by, dequeue_fifo) e

  -- In FIFO mode, a valid queue that holds a request hands over the request with the least
  -- sequence number of all that it holds, whatever the bands: Dequeue does not panic, and the
  -- queue that is left is valid and holds the others.
  pub dequeue-fifo :
      q.priority_mode ≡ false
      → q.slo_deadline_mode ≡ false
      → 0 < length (contents q.bands)
      → (x : Placed) × (q1 : GatewayQueue Float) × (dequeue q ≡ ok (some x.entry.request, q1))
        × Taken q x q1
        × All (λ y. x.entry.seq_id ≤ y.entry.seq_id) (contents q.bands)
  dequeue-fifo not_priority not_deadline full =
      let busy = busy_length q.total_len _ v.counted full in
      let (s, found, standing, oldest) = fifo_best (band_heads 0 q.bands) refl full in
      let (x, q1, e, t, same, _) = taken-Taken s standing in
      let seq : s.entry.seq_id ≡ x.entry.seq_id = ap (λ (d : FlowEntry). d.seq_id) (sym same) in
      (
        x,
        q1,
        dequeue_busy q false false x.entry.request q1 busy not_deadline not_priority
            (fifo_found s x.entry.request q1 found e),
        t,
        subst (λ n. Oldest n (contents q.bands)) seq oldest,
      )
