-- ===== src/Tests/PriorityTests.antt =====
-- The priorities of sim/slo_priority.go with one class raised.
use inference_sim.Prelude.{
  ◌≡◌, refl, String, List, [], ◌∷◌, ℤ, pos, ok, neg_part, ltb_ℤ, string_discrete, insert,
}
use inference_sim.SloPriority.{
  SloPriorityMap, highest, default_priorities, new_slo_priority_map, invert_for_vllm, priority,
}
use inference_sim.SloPriority.Inversion

abbrev overrides : List (String × ℤ)
overrides = ("critical", pos 10) ∷ []

abbrev raised : SloPriorityMap
raised = record {
  priorities = insert string_discrete "critical" (pos 10) default_priorities;
  default_pri = pos 3;
  max_pri = highest (pos 3) (insert string_discrete "critical" (pos 10) default_priorities);
}

raised_made : new_slo_priority_map overrides ≡ ok raised
unfolding new_slo_priority_map
raised_made = refl

invert_for_vllm-order_example :
    (neg_part (invert_for_vllm raised "critical") ≡ 0)
    × (ltb_ℤ (invert_for_vllm raised "critical") (invert_for_vllm raised "batch")
        ≡ ltb_ℤ (priority raised "batch") (priority raised "critical"))
invert_for_vllm-order_example =
    Inversion.invert_for_vllm-order overrides raised "critical" "batch" raised_made
