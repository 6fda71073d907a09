-- ===== src/CpuTier/Steps.antt =====
-- evict: the blocks that go, and what stays.
use inference_sim.Prelude.{
  ℕ, zero, suc, ◌+◌, ◌<◌, ◌≡◌, ◌≢◌, refl, sym, ◌∙◌, ap, subst, min, String, List, [], ◌∷◌, Option,
  some, none, is_zero, arith, length, count, drop, take, false, ◌↔◌, lookup, string_discrete,
  if_pos, if_neg, ℕ_discrete, lookup-erase_ne,
}
use inference_sim.Dll.{remove}
use inference_sim.Nodes
use inference_sim.Nodes.{Nodes, Tracks, new_node, forget, push_back, detach}
use inference_sim.CpuTier.Defs.{OffloadCpuTier, unlink, evict_head, evict_rounds}
use inference_sim.CpuTier.Inv.{TierInv, idle, evict_head-TierInv}

-- At a key, the second map has the entry of the first, unless its block is among those that went.
abbrev pub IsWithout : OffloadCpuTier → List ℕ → OffloadCpuTier → String → Type 0
IsWithout t gone u k =
    (m : ℕ)
    → (lookup string_discrete k u.nodes.entries ≡ some m)
      ↔ ((lookup string_discrete k t.nodes.entries ≡ some m) × (count m gone ≡ 0))

-- No entry of a block that is being written or read goes, and its count stays.
abbrev pub KeepsLocked : OffloadCpuTier → OffloadCpuTier → Type 0
KeepsLocked t u =
    (k : String) (n : ℕ)
    → lookup string_discrete k t.nodes.entries ≡ some n
    → is_zero (t.ref_cnt n) ≡ false
    → (lookup string_discrete k u.nodes.entries ≡ some n) × (u.ref_cnt n ≡ t.ref_cnt n)

-- What evict does: it takes blocks off the head, as many as asked for or as there are.
pub record Evicted (t : OffloadCpuTier) (l : List ℕ) (rounds : ℕ) (out : OffloadCpuTier × ℕ)
    : Type 0 where
  pub inv : TierInv out.0 (drop out.1 l)
  pub counted : out.1 ≡ min rounds (length l)
  pub fewer : length out.0.nodes.entries + out.1 ≡ length t.nodes.entries
  pub same_capacity : out.0.capacity ≡ t.capacity
  pub same_refs : out.0.ref_cnt ≡ t.ref_cnt
  pub same_allocated : out.0.nodes.allocated ≡ t.nodes.allocated
  pub rest : (k : String) → IsWithout t (take out.1 l) out.0 k
  pub untouched : out.1 ≡ 0 → out.0 ≡ t
  pub absent :
      (k : String)
      → lookup string_discrete k t.nodes.entries ≡ none
      → lookup string_discrete k out.0.nodes.entries ≡ none

apart : (m n : ℕ) → count m (n ∷ []) ≡ 0 → m ≢ n
unfolding count
apart m n e = ground arith

count-pair :
    (m n : ℕ) (l : List ℕ) → (count m (n ∷ []) ≡ 0) × (count m l ≡ 0) ↔ (count m (n ∷ l) ≡ 0)
unfolding count
count-pair m n l = (λ h. ground arith, λ h. (ground arith, ground arith))

-- One block goes, and then others.
IsWithout-cons :
    (t u w : OffloadCpuTier) (n : ℕ) (gone : List ℕ) (k : String)
    → IsWithout t (n ∷ []) u k
    → IsWithout u gone w k
    → IsWithout t (n ∷ gone) w k
IsWithout-cons t u w n gone k first then_rest m = (
  λ e.
      let (e1, off) = (then_rest m).0 e in
      let (e2, other) = (first m).0 e1 in (e2, (count-pair m n gone).0 (other, off)),
  λ e.
      let (other, off) = (count-pair m n gone).1 e.1 in
      (then_rest m).1 ((first m).1 (e.0, other), off),
)

nothing-Evicted :
    (t : OffloadCpuTier) (l : List ℕ) (rounds : ℕ)
    → TierInv t l
    → 0 ≡ min rounds (length l)
    → Evicted t l rounds (t, 0)
unfolding count
nothing-Evicted t l rounds v e = record {
  inv = v;
  counted = e;
  fewer = omega arith;
  same_capacity = refl;
  same_refs = refl;
  same_allocated = refl;
  rest = λ k m. (λ h. (h, refl), λ h. h.0);
  untouched = λ _. refl;
  absent = λ k h. h;
}

capacity-evict_head : (t : OffloadCpuTier) (n : ℕ) → (evict_head t n).capacity ≡ t.capacity
unfolding evict_head
capacity-evict_head t n = refl

refs-evict_head : (t : OffloadCpuTier) (n : ℕ) → (evict_head t n).ref_cnt ≡ t.ref_cnt
unfolding evict_head
refs-evict_head t n = refl

allocated-evict_head :
    (t : OffloadCpuTier) (n : ℕ) → (evict_head t n).nodes.allocated ≡ t.nodes.allocated
unfolding evict_head unlink forget
allocated-evict_head t n = refl

-- The head's entry goes, and no other.
evict_head-IsWithout :
    (t : OffloadCpuTier) (l : List ℕ)
    → TierInv t l
    → (n : ℕ) → 0 < count n l
    → (k : String) → IsWithout t (n ∷ []) (evict_head t n) k
unfolding evict_head unlink forget count
evict_head-IsWithout t l v n h k m =
    let (at, live) = v.tracked.linked n h in
    (
      λ e.
          let (old, other) =
            Nodes.kept (idle t.ref_cnt) t.nodes l v.tracked k m (t.nodes.key_of n) e in
          (
            old,
            if_neg (ℕ_discrete m n)
                (λ p. other (sym (v.tracked.named k m old).0 ∙ ap t.nodes.key_of p)) 1 0,
          ),
      λ e.
          lookup-erase_ne string_discrete (t.nodes.key_of n) k t.nodes.entries (λ p.
            apart m n e.1
              (cc (subst (λ j. lookup string_discrete j t.nodes.entries ≡ some m) p e.0, at)))
          ∙ e.0,
    )

remove-head : (n : ℕ) (l : List ℕ) → remove n (n ∷ l) ≡ l
unfolding remove
remove-head n l = if_pos (ℕ_discrete n n) refl l (n ∷ remove n l)

-- The two ways that a round of evict goes.
evict_rounds-empty :
    (rounds : ℕ) (t : OffloadCpuTier)
    → t.nodes.list.head ≡ none
    → evict_rounds (suc rounds) t ≡ (t, 0)
unfolding evict_rounds
evict_rounds-empty rounds t e =
    ap
      (λ (h : Option ℕ).
        let out : OffloadCpuTier × ℕ = elim h [
          | none ↦ (t, 0)
          | some b ↦ (
            (evict_rounds rounds (evict_head t b)).0,
            suc (evict_rounds rounds (evict_head t b)).1,
          )
        ] in
        out)
      e

evict_rounds-head :
    (rounds : ℕ) (t : OffloadCpuTier) (n : ℕ)
    → t.nodes.list.head ≡ some n
    → evict_rounds (suc rounds) t
      ≡ ((evict_rounds rounds (evict_head t n)).0, suc (evict_rounds rounds (evict_head t n)).1)
unfolding evict_rounds
evict_rounds-head rounds t n e =
    ap
      (λ (h : Option ℕ).
        let out : OffloadCpuTier × ℕ = elim h [
          | none ↦ (t, 0)
          | some b ↦ (
            (evict_rounds rounds (evict_head t b)).0,
            suc (evict_rounds rounds (evict_head t b)).1,
          )
        ] in
        out)
      e

-- evict keeps the invariant, and removes the blocks at the head of the list, as many as asked for or
-- as there are. It returns how many went. Exactly the entries of those blocks leave the map, and the
-- counts of references stay.
pub evict_rounds-Evicted :
    (rounds : ℕ) (t : OffloadCpuTier) (l : List ℕ)
    → TierInv t l
    → Evicted t l rounds (evict_rounds rounds t)
unfolding evict_rounds
evict_rounds-Evicted zero t l v = nothing-Evicted t l 0 v (omega arith)
evict_rounds-Evicted (suc rounds) t [] v =
    rw (evict_rounds-empty rounds t v.tracked.listed.at_head)
      (nothing-Evicted t [] (suc rounds) v (omega arith))
evict_rounds-Evicted (suc rounds) t (n ∷ l) v =
    let (v1, fewer, absent) =
      evict_head-TierInv t (n ∷ l) v n (omega (arith, Nodes.count-cons_self n l)) in
    let rest =
      evict_rounds-Evicted rounds (evict_head t n) l
        (subst (TierInv (evict_head t n)) (remove-head n l) v1) in
    rw (evict_rounds-head rounds t n v.tracked.listed.at_head) (record {
      inv = rest.inv;
      counted = omega (arith, rest.counted);
      fewer = omega (arith, rest.fewer, fewer);
      same_capacity = rest.same_capacity ∙ capacity-evict_head t n;
      same_refs = rest.same_refs ∙ refs-evict_head t n;
      same_allocated = rest.same_allocated ∙ allocated-evict_head t n;
      rest = λ k.
          IsWithout-cons t (evict_head t n) (evict_rounds rounds (evict_head t n)).0 n
            (take (evict_rounds rounds (evict_head t n)).1 l) k
            (evict_head-IsWithout t (n ∷ l) v n (omega (arith, Nodes.count-cons_self n l)) k)
            (rest.rest k);
      untouched = λ p. absurd (omega arith);
      absent = λ k e. rest.absent k (absent k e);
    })
