-- ===== src/CpuTier/Unlinking.antt =====
-- The tier's unlink, with its tests on the head and the tail, is that of the other lists for a block
-- on the list.
use inference_sim.Prelude.{
  ℕ, ◌<◌, ◌≡◌, refl, sym, ◌∙◌, ap, List, [], ◌∷◌, Option, none, some, true, arith, count,
  ℕ_discrete, if_pos, if_neg,
}
use inference_sim.Dll
use inference_sim.Dll.{Dll, Table, Chain, first_or, Represents}
use inference_sim.Nodes
use inference_sim.Nodes.{Nodes}
use inference_sim.CpuTier.Defs.{points_at, skip_prev, skip_next, unlink_block, unlink}

of_tail : (n x : ℕ) (l : List ℕ) → (n ≡ x → ⊥) → 0 < count n (x ∷ l) → 0 < count n l
unfolding count
of_tail n x l p h = ground arith

-- A node behind another has a node before it.
behind :
    (t : Table) (x b : ℕ) (l : List ℕ) (q : Option ℕ)
    → Chain t (some x) l q
    → 0 < count b l
    → (t b).prev ≡ none
    → ⊥
unfolding count
behind t x b [] q c h e = absurd (omega arith)
behind t x b (y ∷ l) q c h e = elim (ℕ_discrete b y) [
  | yes p ↦ cc (c.0, ap (λ i. (t i).prev) p, e)
  | no p ↦ behind t y b l q c.2 (of_tail b y l p h) e
]

-- A node without a predecessor is the head.
head-prev :
    (t : Table) (b : ℕ) (l : List ℕ)
    → Chain t none l none
    → 0 < count b l
    → (t b).prev ≡ none
    → first_or none l ≡ some b
unfolding count
head-prev t b [] c h e = absurd (omega arith)
head-prev t b (x ∷ l) c h e = elim (ℕ_discrete b x) [
  | yes p ↦ ap some (sym p)
  | no p ↦ absurd (behind t x b l none c.2 (of_tail b x l p h) e)
]

first_nonempty : (x : ℕ) (l : List ℕ) → first_or none (x ∷ l) ≡ none → ⊥
first_nonempty x l e = cc

-- A node without a successor is the last.
tail-next :
    (t : Table) (p : Option ℕ) (b : ℕ) (l : List ℕ)
    → Chain t p l none
    → 0 < count b l
    → (t b).next ≡ none
    → Dll.last_or p l ≡ some b
unfolding count
tail-next t p b [] c h e = absurd (omega arith)
tail-next t p b (x ∷ []) c h e = elim (ℕ_discrete b x) [
  | yes q ↦ ap some (sym q)
  | no q ↦ absurd (omega (arith, of_tail b x [] q h))
]
tail-next t p b (x ∷ y ∷ l) c h e = elim (ℕ_discrete b x) [
  | yes q ↦ cc (c.1, ap (λ i. (t i).next) q, e)
  | no q ↦ tail-next t (some x) b (y ∷ l) c.2 (of_tail b x (y ∷ l) q h) e
]

points : (o : Option ℕ) (b : ℕ) → o ≡ some b → points_at o b ≡ true
points none b e = cc
points (some a) b e = ground arith

skip_prev-bypass :
    (d : Dll) (b : ℕ) (p n : Option ℕ)
    → (p ≡ none → d.head ≡ some b)
    → skip_prev d b p n ≡ Dll.bypass_prev d p n
unfolding skip_prev Dll.bypass_prev
skip_prev-bypass d b (some p) n h = refl
skip_prev-bypass d b none n h = rw (points d.head b (h refl)) refl

skip_next-bypass :
    (d : Dll) (b : ℕ) (n p : Option ℕ)
    → (n ≡ none → d.tail ≡ some b)
    → skip_next d b n p ≡ Dll.bypass_next d n p
unfolding skip_next Dll.bypass_next
skip_next-bypass d b (some n) p h = refl
skip_next-bypass d b none p h = rw (points d.tail b (h refl)) refl

-- The first step leaves the block's own successor, and the tail, as they were.
tail-bypass_prev :
    (d : Dll) (b : ℕ) (p : Option ℕ)
    → ((d.links b).next ≡ none → d.tail ≡ some b)
    → ((Dll.bypass_prev d p (d.links b).next).links b).next ≡ none
    → (Dll.bypass_prev d p (d.links b).next).tail ≡ some b
unfolding Dll.bypass_prev
tail-bypass_prev d b none h e = h e
tail-bypass_prev d b (some p) h e = elim (ℕ_discrete b p) [
  | yes q ↦ h (
      sym (
        ap (λ (x : Dll.Links). x.next)
          (if_pos (ℕ_discrete b p) q (record (d.links b) { next = (d.links b).next }) (d.links b)))
      ∙ e)
  | no q ↦ h (
      sym (
        ap (λ (x : Dll.Links). x.next)
          (if_neg (ℕ_discrete b p) q (record (d.links b) { next = (d.links b).next }) (d.links b)))
      ∙ e)
]

pub unlink_block-unlink :
    (d : Dll) (b : ℕ) (l : List ℕ)
    → 0 < count b l
    → Represents d l
    → unlink_block d b ≡ Dll.unlink d b
unfolding unlink_block Dll.unlink
unlink_block-unlink d b l h r =
    let first =
      skip_prev-bypass d b (d.links b).prev (d.links b).next
        (λ e. r.at_head ∙ head-prev d.links b l r.chain h e) in
    let d1 = Dll.bypass_prev d (d.links b).prev (d.links b).next in
    let second = skip_next-bypass d1 b (d1.links b).next (d1.links b).prev (
      tail-bypass_prev d b (d.links b).prev
        (λ e. r.at_tail ∙ tail-next d.links none b l r.chain h e)) in
    rw first (rw second refl)

-- On a block of the list, the tier's unlink is the common one.
pub unlink-detach :
    (x : Nodes) (b : ℕ) (l : List ℕ)
    → 0 < count b l
    → Represents x.list l
    → unlink x b ≡ Nodes.detach x b
unfolding unlink Nodes.detach
unlink-detach x b l h r = ap (λ d. record x { list = d }) (unlink_block-unlink x.list b l h r)
