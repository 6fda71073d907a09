-- ===== src/ResidentSet/Scan.antt =====
-- The set as the association list along its nodes, and the scan of EvictLRU on it.
use inference_sim.Prelude.{
  ℕ, zero, suc, ◌≤◌, ◌<◌, ◌≡◌, ◌≢◌, refl, sym, ◌∙◌, ap, subst, String, List, [], ◌∷◌, map, Option,
  some, none, Bool, true, false, Result, ok, arith, length, count, lookup, insert, erase,
  string_discrete, if_pos, if_neg, ℕ_discrete, ◌==◌, Bool-cases, inl, inr, ◌⊎◌, NotIn, Distinct,
}
use inference_sim.Dll.{Chain, first_or, remove}
use inference_sim.Nodes.{Nodes, Tracks, forget, detach}
use inference_sim.ResidentSet.Defs.{ResidentSet, scan, set_pins, ids_from}
use inference_sim.ResidentSet.Ordered.{Slots, evicted}

abbrev pub all_on : ℕ → Bool
all_on n = true

abbrev pub slot : (ℕ → String) → (ℕ → ℕ) → ℕ → String × ℕ
slot key pins n = (key n, pins n)

-- The adapters and their pin counts, least recently used first.
abbrev pub held : ResidentSet → List ℕ → Slots
held s l = map (slot s.nodes.key_of s.pin_count) l

-- The map and the list describe the same adapters, no more than the capacity.
pub record Held (s : ResidentSet) (l : List ℕ) : Type 0 where
  pub tracked : Tracks all_on s.nodes l
  pub sized : length s.nodes.entries ≡ length l
  pub bounded : length l ≤ s.capacity
  pub positive : 0 < s.capacity

-- No other node of the list has the node's key.
abbrev pub Sole : (ℕ → String) → ℕ → List ℕ → Type 0
Sole key n l = (m : ℕ) → 0 < count m l → key m ≡ key n → m ≡ n

head_in : (x : ℕ) (l : List ℕ) → 0 < count x (x ∷ l)
unfolding count
head_in x l = ground arith

tail_in : (n x : ℕ) (l : List ℕ) → 0 < count n l → 0 < count n (x ∷ l)
unfolding count
tail_in n x l h = ground arith

of_tail : (n x : ℕ) (l : List ℕ) → n ≢ x → 0 < count n (x ∷ l) → 0 < count n l
unfolding count
of_tail n x l p h = ground arith

remove-head : (x : ℕ) (l : List ℕ) → remove x (x ∷ l) ≡ l
unfolding remove
remove-head x l = if_pos (ℕ_discrete x x) refl l (x ∷ remove x l)

remove-tail : (n x : ℕ) (l : List ℕ) → n ≢ x → remove n (x ∷ l) ≡ x ∷ remove n l
unfolding remove
remove-tail n x l h = if_neg (ℕ_discrete n x) h l (x ∷ remove n l)

pub Sole-Tracks :
    (s : ResidentSet) (l : List ℕ) → Held s l → (n : ℕ) → 0 < count n l → Sole s.nodes.key_of n l
Sole-Tracks s l v n h m c e = cc ((v.tracked.linked m c).0, (v.tracked.linked n h).0, e)

module _ (key : ℕ → String) (pins : ℕ → ℕ) (n : ℕ) where
  other_key : (x : ℕ) (l : List ℕ) → Sole key n (x ∷ l) → n ≢ x → key n ≢ key x
  other_key x l sole p q = p (sym (sole x (head_in x l) (sym q)))

  pub lookup-slots :
      (l : List ℕ)
      → Sole key n l
      → 0 < count n l
      → lookup string_discrete (key n) (map (slot key pins) l) ≡ some (pins n)
  unfolding lookup count
  lookup-slots [] sole h = absurd (omega arith)
  lookup-slots (x ∷ l) sole h = elim (ℕ_discrete n x) [
    | yes p ↦
        rw (if_pos (string_discrete (key n) (key x)) (ap key p)) (ap (λ m. some (pins m)) (sym p))
    | no p ↦
        rw (if_neg (string_discrete (key n) (key x)) (other_key x l sole p))
          (lookup-slots l (λ m c. sole m (tail_in m x l c)) (of_tail n x l p h))
  ]

  pub erase-slots :
      (l : List ℕ)
      → Sole key n l
      → map (slot key pins) (remove n l) ≡ erase string_discrete (key n) (map (slot key pins) l)
  unfolding erase remove
  erase-slots [] sole = refl
  erase-slots (x ∷ l) sole = elim (ℕ_discrete n x) [
    | yes p ↦ rw (if_pos _ p) (rw (if_pos (string_discrete (key n) (key x)) (ap key p)) refl)
    | no p ↦ rw (if_neg _ p) (
        rw (if_neg (string_discrete (key n) (key x)) (other_key x l sole p))
          (ap (◌∷◌ (slot key pins x)) (erase-slots l (λ m c. sole m (tail_in m x l c)))))
  ]

  same_pins :
      (q : ℕ) (l : List ℕ)
      → NotIn n l
      → map (slot key (set_pins pins n q)) l ≡ map (slot key pins) l
  same_pins q [] h = refl
  same_pins q (x ∷ l) h =
      λ i. (key x, if_neg (ℕ_discrete x n) (λ p. h.0 (sym p)) q (pins x) i) ∷ same_pins q l h.1 i

  pub insert-slots :
      (q : ℕ) (l : List ℕ)
      → Sole key n l
      → Distinct l
      → 0 < count n l
      → map (slot key (set_pins pins n q)) l
        ≡ insert string_discrete (key n) q (map (slot key pins) l)
  unfolding insert count
  insert-slots q [] sole d h = absurd (omega arith)
  insert-slots q (x ∷ l) sole d h = elim (ℕ_discrete n x) [
    | yes p ↦ rw (if_pos (string_discrete (key n) (key x)) (ap key p)) (λ i.
        (sym (ap key p) i, if_pos (ℕ_discrete x n) (sym p) q (pins x) i)
        ∷ same_pins q l (subst (λ m. NotIn m l) (sym p) d.0) i)
    | no p ↦ rw (if_neg (string_discrete (key n) (key x)) (other_key x l sole p)) (λ i.
        (key x, if_neg (ℕ_discrete x n) (λ e. p (sym e)) q (pins x) i)
        ∷ insert-slots q l (λ m c. sole m (tail_in m x l c)) d.1 (of_tail n x l p h) i)
  ]

pub lookup-slots_absent :
    (key : ℕ → String) (pins : ℕ → ℕ) (k : String) (l : List ℕ)
    → ((m : ℕ) → 0 < count m l → key m ≢ k)
    → lookup string_discrete k (map (slot key pins) l) ≡ none
unfolding lookup
lookup-slots_absent key pins k [] h = refl
lookup-slots_absent key pins k (x ∷ l) h =
    rw (if_neg (string_discrete k (key x)) (λ p. h x (head_in x l) (sym p)))
      (lookup-slots_absent key pins k l (λ m c. h m (tail_in m x l c)))

-- What EvictLRU leaves where it finds the node.
abbrev pub dropped : ResidentSet → ℕ → ResidentSet
dropped s n = record s { nodes = forget (detach s.nodes n) (s.nodes.key_of n) }

-- The outcomes of the scan of a part of the list.
abbrev pub Scanned : ResidentSet → List ℕ → Result (ResidentSet × String × Bool) → Type 0
Scanned s l out =
    ((n : ℕ) × (0 < count n l)
      × (out ≡ ok (dropped s n, s.nodes.key_of n, true))
      × (evicted (held s l) ≡ (held s (remove n l), s.nodes.key_of n, true))
      × (s.pin_count n ≡ 0))
    ⊎ ((out ≡ ok (s, "", false)) × (evicted (held s l) ≡ (held s l, "", false)))

pub scan-Scanned :
    (fuel : ℕ) (s : ResidentSet) (p : Option ℕ) (l : List ℕ)
    → Chain s.nodes.list.links p l none
    → length l ≤ fuel
    → Scanned s l (scan fuel s (first_or none l))
unfolding scan evicted
scan-Scanned zero s p [] c h = inr (refl, refl)
scan-Scanned zero s p (x ∷ l) c h = absurd (omega arith)
scan-Scanned (suc fuel) s p [] c h = inr (refl, refl)
scan-Scanned (suc fuel) s p (x ∷ l) c h = elim (Bool-cases (s.pin_count x == 0)) [
  | inl e ↦ inl (
    x,
    head_in x l,
    rw e refl,
    rw e (ap (λ r. (held s r, s.nodes.key_of x, true)) (sym (remove-head x l))),
    ground arith,
  )
  | inr e ↦ elim (scan-Scanned fuel s (some x) l c.2 (omega arith)) [
    | inl (n, at, out, gone, free) ↦
        let other : n ≢ x =
          λ q. let z : s.pin_count x ≡ 0 = sym (ap s.pin_count q) ∙ free in ground arith in
        inl (
          n,
          tail_in n x l at,
          rw e (ap (scan fuel s) c.1 ∙ out),
          rw e (
              rw gone
                (ap (λ r. (held s r, s.nodes.key_of n, true)) (sym (remove-tail n x l other)))),
          free,
        )
    | inr (out, gone) ↦ inr (rw e (ap (scan fuel s) c.1 ∙ out), rw e (rw gone refl))
  ]
]

-- The walk of ResidentIDs.
pub ids_from-keys :
    (fuel : ℕ) (x : Nodes) (p : Option ℕ) (l : List ℕ)
    → Chain x.list.links p l none
    → length l ≤ fuel
    → ids_from fuel x (first_or none l) ≡ ok (map x.key_of l)
unfolding ids_from
ids_from-keys zero x p [] c h = refl
ids_from-keys zero x p (n ∷ l) c h = absurd (omega arith)
ids_from-keys (suc fuel) x p [] c h = refl
ids_from-keys (suc fuel) x p (n ∷ l) c h =
    rw c.1 (rw (ids_from-keys fuel x (some n) l c.2 (omega arith)) refl)
