-- ===== src/SloPriority.antt =====
-- sim/slo_priority.go: the priorities of SLO classes, and their inversion for the instances. The
-- order in which Go walks a map is that of the association list; nothing proved depends on it.
use inference_sim.Prelude.{
  ℕ, String, List, [], ◌∷◌, Option, some, none, Bool, ◌||◌, ℤ, pos, negsuc, ltb_ℤ, ◌-ℤ◌, Result, ok,
  panic, bad_argument, ◌>>=◌, if◌then◌else◌, lookup, insert, string_discrete,
}
pub mod Inversion

pub record SloPriorityMap : Type 0 where
  pub priorities : List (String × ℤ)
  pub default_pri : ℤ
  pub max_pri : ℤ

-- The loop that finds the highest priority.
unfoldable pub highest : ℤ → List (String × ℤ) → ℤ
highest top [] = top
highest top (e ∷ m) = highest (if ltb_ℤ top e.1 then e.1 else top) m

abbrev pub default_priorities : List (String × ℤ)
default_priorities =
    ("critical", pos 4)
    ∷ ("standard", pos 3)
    ∷ ("batch", negsuc 0)
    ∷ ("sheddable", negsuc 1)
    ∷ ("background", negsuc 2)
    ∷ []

-- DefaultSLOPriorityMap
unfoldable pub default_slo_priority_map : SloPriorityMap
unfolding highest
default_slo_priority_map = record {
  priorities = default_priorities;
  default_pri = pos 3;
  max_pri = highest (pos 3) default_priorities;
}

-- The loop of NewSLOPriorityMap over the overrides.
unfoldable pub override_all : List (String × ℤ) → List (String × ℤ) → Result (List (String × ℤ))
override_all [] m = ok m
override_all (e ∷ overrides) m =
    let rest = override_all overrides (insert string_discrete e.0 e.1 m) in
    if ltb_ℤ e.1 (negsuc 99) || ltb_ℤ (pos 100) e.1 then panic bad_argument else rest

-- NewSLOPriorityMap
unfoldable pub new_slo_priority_map : List (String × ℤ) → Result SloPriorityMap
unfolding override_all default_slo_priority_map
new_slo_priority_map overrides = do
  let m = default_slo_priority_map
  priorities ← override_all overrides m.priorities
  ok (record m { priorities = priorities; max_pri = highest m.default_pri priorities })

-- Priority
unfoldable pub priority : SloPriorityMap → String → ℤ
priority m class = elim (lookup string_discrete class m.priorities) [
  | some p ↦ p
  | none ↦ m.default_pri
]

-- IsSheddable
unfoldable pub is_sheddable : SloPriorityMap → String → Bool
is_sheddable m class = ltb_ℤ (priority m class) (pos 0)

-- InvertForVLLM
unfoldable pub invert_for_vllm : SloPriorityMap → String → ℤ
invert_for_vllm m class = m.max_pri -ℤ priority m class
