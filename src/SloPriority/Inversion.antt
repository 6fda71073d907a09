-- ===== src/SloPriority/Inversion.antt =====
-- The inverted priorities are not negative, and run the other way.
use inference_sim.Prelude.{
  ◌+◌, ◌≤◌, ◌≡◌, refl, sym, ◌∙◌, subst, String, List, [], ◌∷◌, some, ℤ, pos_part, neg_part, ltb_ℤ,
  ◌-ℤ◌, Result, ok, panic, ◌>>=◌, if◌then◌else◌, arith, lookup, string_discrete, if_pos, if_neg,
  Option-cases, Bool-cases, inl, inr,
}
use inference_sim.SloPriority.{
  SloPriorityMap, default_slo_priority_map, highest, new_slo_priority_map, override_all, priority,
  invert_for_vllm,
}

-- a ≤ b
abbrev AtMost : ℤ → ℤ → Type 0
AtMost a b = pos_part a + neg_part b ≤ pos_part b + neg_part a

raised :
    (top p : ℤ)
    → AtMost top (if ltb_ℤ top p then p else top) × AtMost p (if ltb_ℤ top p then p else top)
raised top p = elim (Bool-cases (ltb_ℤ top p)) [
  | inl e ↦ rw e (ground arith, omega arith)
  | inr e ↦ rw e (omega arith, ground arith)
]

highest-le : (top : ℤ) (m : List (String × ℤ)) → AtMost top (highest top m)
unfolding highest
highest-le top [] = omega arith
highest-le top (e ∷ m) =
    omega (arith, (raised top e.1).0, highest-le (if ltb_ℤ top e.1 then e.1 else top) m)

highest-lookup :
    (top : ℤ) (m : List (String × ℤ)) (k : String) (p : ℤ)
    → lookup string_discrete k m ≡ some p
    → AtMost p (highest top m)
unfolding highest lookup
highest-lookup top [] k p h = cc
highest-lookup top (e ∷ m) k p h = elim (string_discrete k e.0) [
  | yes q ↦
      let same : e.1 ≡ p =
        cc (if_pos (string_discrete k e.0) q (some e.1) (lookup string_discrete k m), h) in
      rw (sym same)
        (omega (arith, (raised top e.1).1, highest-le (if ltb_ℤ top e.1 then e.1 else top) m))
  | no q ↦
      highest-lookup (if ltb_ℤ top e.1 then e.1 else top) m k p
        (sym (if_neg (string_discrete k e.0) q (some e.1) (lookup string_discrete k m)) ∙ h)
]

priority-le :
    (m : SloPriorityMap) (class : String)
    → m.max_pri ≡ highest m.default_pri m.priorities
    → AtMost (priority m class) (highest m.default_pri m.priorities)
unfolding priority
priority-le m class e = elim (Option-cases (lookup string_discrete class m.priorities)) [
  | inl q ↦ rw (q, priority) (highest-le m.default_pri m.priorities)
  | inr (p, q) ↦ rw (q, priority) (highest-lookup m.default_pri m.priorities class p q)
]

sub_order :
    (top a b : ℤ)
    → AtMost a top
    → AtMost b top
    → (neg_part (top -ℤ a) ≡ 0) × (ltb_ℤ (top -ℤ a) (top -ℤ b) ≡ ltb_ℤ b a)
unfolding ◌-ℤ◌
sub_order top a b h k = (ground arith, ground arith)

finished :
    (base m : SloPriorityMap) (r : Result (List (String × ℤ)))
    → (r >>= λ ps. ok (record base { priorities = ps; max_pri = highest base.default_pri ps }))
      ≡ ok m
    → m.max_pri ≡ highest m.default_pri m.priorities
finished base m (panic f) e = cc
finished base m (ok ps) e =
    let same : record base { priorities = ps; max_pri = highest base.default_pri ps } ≡ m = cc e in
    subst (λ (x : SloPriorityMap). x.max_pri ≡ highest x.default_pri x.priorities) same refl

topped :
    (overrides : List (String × ℤ)) (m : SloPriorityMap)
    → new_slo_priority_map overrides ≡ ok m
    → m.max_pri ≡ highest m.default_pri m.priorities
unfolding new_slo_priority_map
topped overrides m e =
    finished default_slo_priority_map m (override_all overrides default_slo_priority_map.priorities)
      e

-- In a map that NewSLOPriorityMap makes, with any overrides that it accepts, no inverted priority is
-- negative, and one class comes before another by the inverted priorities exactly where its priority
-- is the higher.
pub invert_for_vllm-order :
    (overrides : List (String × ℤ)) (m : SloPriorityMap) (a b : String)
    → new_slo_priority_map overrides ≡ ok m
    → (neg_part (invert_for_vllm m a) ≡ 0)
      × (ltb_ℤ (invert_for_vllm m a) (invert_for_vllm m b) ≡ ltb_ℤ (priority m b) (priority m a))
unfolding invert_for_vllm
invert_for_vllm-order overrides m a b e =
    let top = topped overrides m e in
    sub_order m.max_pri (priority m a) (priority m b)
      (subst (AtMost (priority m a)) (sym top) (priority-le m a top))
      (subst (AtMost (priority m b)) (sym top) (priority-le m b top))
