-- ===== src/Gateway/Shedding.antt =====
-- The entry that Enqueue sheds: the lowest priority among the sheddable ones, the latest arrival of
-- those, and so the tail of its flow.
use inference_sim.Prelude.{
  ℕ, ◌≤◌, List, [], ◌∷◌, Option, none, some, ◌≡◌, refl, sym, ap, ◌∙◌, ◌⊎◌, inl, inr, Bool, true,
  false, ◌&&◌, ◌||◌, Bool-cases, ltb, ltb→lt, ltb_false→le, ℤ, pos, negsuc, eqb_ℤ, ltb_ℤ,
  if◌then◌else◌, All, arith,
}
use inference_sim.SloPriority.{SloPriorityMap, is_sheddable}
use inference_sim.Gateway.Slots.{Slot}
use inference_sim.Gateway.Enqueue.{slot_priority, worse, consider_victim, victim_loop}
use inference_sim.Gateway.Contents.{◌<ℤ◌, ◌≤ℤ◌}

pub below_ℤ : (a b : ℤ) → ltb_ℤ a b ≡ true → a <ℤ b
below_ℤ a b h = ground arith

not_below_ℤ : (a b : ℤ) → ltb_ℤ a b ≡ false → b ≤ℤ a
not_below_ℤ a b h = ground arith

equal_ℤ : (a b : ℤ) → eqb_ℤ a b ≡ true → (a ≤ℤ b) × (b ≤ℤ a)
equal_ℤ (pos a) (pos b) h = ground arith
equal_ℤ (negsuc a) (negsuc b) h = ground arith
equal_ℤ (pos a) (negsuc b) h = ground arith
equal_ℤ (negsuc a) (pos b) h = ground arith

unequal_ℤ : (a b : ℤ) → eqb_ℤ a b ≡ false → (a <ℤ b) ⊎ (b <ℤ a)
unequal_ℤ (pos a) (pos b) h = ground arith
unequal_ℤ (negsuc a) (negsuc b) h = ground arith
unequal_ℤ (pos a) (negsuc b) h = inr (omega arith)
unequal_ℤ (negsuc a) (pos b) h = inl (omega arith)

above_of : (a b : ℤ) → b ≤ℤ a → (a <ℤ b) ⊎ (b <ℤ a) → b <ℤ a
above_of a b le (inl h) = absurd (omega arith)
above_of a b le (inr h) = h

-- The two tests on priorities and arrivals, as orders.
pub rank_true :
    (a b : ℤ) (i j : ℕ)
    → (ltb_ℤ a b || eqb_ℤ a b && ltb j i) ≡ true
    → (a <ℤ b) ⊎ ((a ≤ℤ b) × (b ≤ℤ a) × (j ≤ i))
rank_true a b i j h = elim (Bool-cases (ltb_ℤ a b)) [
  | inl lower ↦ inl (below_ℤ a b lower)
  | inr other ↦ elim (Bool-cases (eqb_ℤ a b)) [
    | inl same ↦
        let later = rw (other, same) at h in
        let (le, ge) = equal_ℤ a b same in let lt = ltb→lt j i later in inr (le, ge, omega arith)
    | inr differ ↦ let never = rw (other, differ) at h in cc never
  ]
]

rank_false :
    (a b : ℤ) (i j : ℕ)
    → (ltb_ℤ a b || eqb_ℤ a b && ltb j i) ≡ false
    → (b <ℤ a) ⊎ ((b ≤ℤ a) × (a ≤ℤ b) × (i ≤ j))
rank_false a b i j h = elim (Bool-cases (ltb_ℤ a b)) [
  | inl lower ↦ let never = rw lower at h in cc never
  | inr other ↦ elim (Bool-cases (eqb_ℤ a b)) [
    | inl same ↦
        let later = rw (other, same) at h in
        let (le, ge) = equal_ℤ a b same in inr (ge, le, ltb_false→le j i later)
    | inr differ ↦ inl (above_of a b (not_below_ℤ a b other) (unequal_ℤ a b differ))
  ]
]

-- An entry that is no better a victim than another.
module _ (m : SloPriorityMap) where
  abbrev pub NoWorse : Slot → Slot → Type 0
  NoWorse s v =
      (slot_priority m v <ℤ slot_priority m s)
      ⊎ ((slot_priority m v ≤ℤ slot_priority m s)
          × (slot_priority m s ≤ℤ slot_priority m v)
          × (s.entry.seq_id ≤ v.entry.seq_id))

  NoWorse-trans : (s u v : Slot) → NoWorse s u → NoWorse u v → NoWorse s v
  NoWorse-trans s u v (inl h) (inl k) = inl (omega arith)
  NoWorse-trans s u v (inl h) (inr k) = inl (omega arith)
  NoWorse-trans s u v (inr h) (inl k) = inl (omega arith)
  NoWorse-trans s u v (inr h) (inr k) = inr (omega arith, omega arith, omega arith)

  worse-NoWorse : (s v : Slot) → worse m s v ≡ true → NoWorse v s
  unfolding worse
  worse-NoWorse s v h =
      rank_true (slot_priority m s) (slot_priority m v) s.entry.seq_id v.entry.seq_id h

  not_worse-NoWorse : (s v : Slot) → worse m s v ≡ false → NoWorse s v
  unfolding worse
  not_worse-NoWorse s v h =
      rank_false (slot_priority m s) (slot_priority m v) s.entry.seq_id v.entry.seq_id h

  clash {ℓ} : {A : Type ℓ} {b : Bool} → b ≡ true → b ≡ false → A
  clash up down = let h : false ≡ true = sym down ∙ up in cc h

  -- One step of the scan, by its tests.
  firm_kept :
      (best s : Slot)
      → is_sheddable m s.entry.request.slo_class ≡ false
      → consider_victim m (some best) s ≡ some best
  unfolding consider_victim
  firm_kept best s firm = ap (λ b. if b && worse m s best then some s else some best) firm

  loose_case :
      (best s : Slot) (b : Bool)
      → is_sheddable m s.entry.request.slo_class ≡ true
      → worse m s best ≡ b
      → consider_victim m (some best) s ≡ (if b then some s else some best)
  unfolding consider_victim
  loose_case best s b loose w =
      ap (λ c. if c && worse m s best then some s else some best) loose
      ∙ ap (λ c. if c then some s else some best) w

  first_case :
      (s : Slot) (b : Bool)
      → is_sheddable m s.entry.request.slo_class ≡ b
      → consider_victim m none s ≡ (if b then some s else none)
  unfolding consider_victim
  first_case s b h = ap (λ c. if c then some s else none) h

  -- Of those that may be shed, none is a better victim.
  abbrev pub Worst : Slot → Slot → Type 0
  Worst v s = is_sheddable m s.entry.request.slo_class ≡ true → NoWorse s v

  module _ {κ} (Q : Slot → Type κ) where
    abbrev Victim : Option Slot → List Slot → Type κ
    Victim found slots =
        (v : Slot) × (found ≡ some v)
        × Q v
        × (is_sheddable m v.entry.request.slo_class ≡ true)
        × All (Worst v) slots

    victim_from :
        (best : Slot) (slots : List Slot)
        → Q best
        → is_sheddable m best.entry.request.slo_class ≡ true
        → All Q slots
        → (v : Slot) × (victim_loop m (some best) slots ≡ some v)
          × Q v
          × (is_sheddable m v.entry.request.slo_class ≡ true)
          × NoWorse best v
          × All (Worst v) slots
    unfolding victim_loop
    victim_from best [] q sheddable all =
        (best, refl, q, sheddable, inr (omega arith, omega arith, omega arith), tt)
    victim_from best (s ∷ slots) q sheddable all =
        elim (Bool-cases (is_sheddable m s.entry.request.slo_class)) [
          | inr firm ↦
              let (v, e, qv, shed, least, rest) = victim_from best slots q sheddable all.1 in
              let kept : consider_victim m (some best) s ≡ some best = firm_kept best s firm in
              (
                v,
                ap (λ o. victim_loop m o slots) kept ∙ e,
                qv,
                shed,
                least,
                (λ yes_shed. clash yes_shed firm, rest),
              )
          | inl loose ↦ elim (Bool-cases (worse m s best)) [
            | inl worse_s ↦
                let (v, e, qv, shed, least, rest) = victim_from s slots all.0 loose all.1 in
                let moved : consider_victim m (some best) s ≡ some s =
                  loose_case best s true loose worse_s in
                (
                  v,
                  ap (λ o. victim_loop m o slots) moved ∙ e,
                  qv,
                  shed,
                  NoWorse-trans best s v (worse-NoWorse s best worse_s) least,
                  (λ _. least, rest),
                )
            | inr no_worse ↦
                let (v, e, qv, shed, least, rest) = victim_from best slots q sheddable all.1 in
                let kept : consider_victim m (some best) s ≡ some best =
                  loose_case best s false loose no_worse in
                (
                  v,
                  ap (λ o. victim_loop m o slots) kept ∙ e,
                  qv,
                  shed,
                  least,
                  (λ _. NoWorse-trans s best v (not_worse-NoWorse s best no_worse) least, rest),
                )
          ]
        ]

    -- The whole scan: there is no sheddable entry, or the victim is the worst of them.
    pub victim_loop-Victim :
        (slots : List Slot)
        → All Q slots
        → (victim_loop m none slots ≡ none) ⊎ Victim (victim_loop m none slots) slots
    unfolding victim_loop
    victim_loop-Victim [] all = inl refl
    victim_loop-Victim (s ∷ slots) all =
        elim (Bool-cases (is_sheddable m s.entry.request.slo_class)) [
          | inl loose ↦
              let (v, e, qv, shed, least, rest) = victim_from s slots all.0 loose all.1 in
              inr (
                v,
                ap (λ o. victim_loop m o slots) (first_case s true loose) ∙ e,
                qv,
                shed,
                (λ _. least, rest),
              )
          | inr firm ↦
              let step : victim_loop m (consider_victim m none s) slots ≡ victim_loop m none slots =
                ap (λ o. victim_loop m o slots) (first_case s false firm) in
              elim (victim_loop-Victim slots all.1) [
                | inl none_found ↦ inl (step ∙ none_found)
                | inr (v, e, qv, shed, rest) ↦
                    inr (v, step ∙ e, qv, shed, (λ yes_shed. clash yes_shed firm, rest))
              ]
        ]
