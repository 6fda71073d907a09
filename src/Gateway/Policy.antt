-- ===== src/Gateway/Policy.antt =====
-- The fairness policies: which flow of a band is served next.
use inference_sim.Prelude.{
  ℕ, zero, suc, ◌+◌, ◌%◌, ltb, String, List, [], ◌∷◌, Option, some, none, ℤ, ℤ-discrete,
  if◌then◌else◌, ite, string_discrete, length, get_elem?, lookup, insert, erase,
}
use inference_sim.Gateway.Flows.{FlowEntry, Flows, PriorityBand, sorted_flows}

-- The round robin holds its cursors: the tenant last selected, by priority.
pub data FairnessPolicy : Type 0 where
  global_strict : FairnessPolicy
  round_robin : List (ℤ × String) → FairnessPolicy

-- A non-empty flow replaces the best one if its head is older.
unfoldable pub older : Option (String × ℕ) → String → FlowEntry → Option (String × ℕ)
older none tenant head = some (tenant, head.seq_id)
older (some (best, best_seq)) tenant head =
    if ltb head.seq_id best_seq then some (tenant, head.seq_id) else some (best, best_seq)

unfoldable pub consider : Option (String × ℕ) → String → List FlowEntry → Option (String × ℕ)
unfolding older
consider best tenant [] = best
consider best tenant (head ∷ rest) = older best tenant head

-- The loop of GlobalStrictPolicy.Pick.
unfoldable pub strict_loop : Option (String × ℕ) → Flows → Option (String × ℕ)
unfolding consider
strict_loop best [] = best
strict_loop best (f ∷ fs) = strict_loop (consider best f.0 f.1.requests) fs

unfoldable pub tenant_of : Option (String × ℕ) → Option String
tenant_of none = none
tenant_of (some (best, best_seq)) = some best

-- The index of the key last selected.
unfoldable pub position : String → Flows → Option ℕ
position last [] = none
position last (f ∷ fs) =
    ite (string_discrete f.0 last) (some 0)
      (elim (position last fs) [ none ↦ none | some i ↦ some (suc i) ])

-- An absent cursor reads as "", which stands for no selection.
unfoldable pub start_index : Option String → Flows → ℕ
unfolding position string_discrete
start_index none keys = 0
start_index (some last) keys =
    ite (string_discrete last "") 0
      (elim (position last keys) [ none ↦ 0 | some i ↦ (i + 1) % length keys ])

-- The second loop of RoundRobinPolicy.Pick, by the rounds left.
unfoldable pub round_robin_loop : ℕ → ℕ → ℕ → Flows → Option String
round_robin_loop zero start i keys = none
round_robin_loop (suc left) start i keys = elim (get_elem? keys ((start + i) % length keys)) [
  | none ↦ none
  | some f ↦ elim f.1.requests [ [] ↦ round_robin_loop left start (suc i) keys | e ∷ es ↦ some f.0 ]
]

-- The cursor moves to the flow that the loop found, and is deleted if there is none.
unfoldable pub move_cursor : List (ℤ × String) → ℤ → Option String → Option String × FairnessPolicy
move_cursor cursors p (some tenant) =
    (some tenant, round_robin (insert ℤ-discrete p tenant cursors))
move_cursor cursors p none = (none, round_robin (erase ℤ-discrete p cursors))

-- RoundRobinPolicy.Pick, over the sorted flows.
unfoldable pub pick_next : List (ℤ × String) → ℤ → Flows → Option String × FairnessPolicy
unfolding start_index round_robin_loop move_cursor
pick_next cursors p [] = (none, round_robin cursors)
pick_next cursors p (k ∷ ks) =
    let start = start_index (lookup ℤ-discrete p cursors) (k ∷ ks) in
    move_cursor cursors p (round_robin_loop (length (k ∷ ks)) start 0 (k ∷ ks))

-- Pick: the tenant of the flow, nil being `none`, and the policy with its cursor moved.
unfoldable pub pick : FairnessPolicy → PriorityBand → Option String × FairnessPolicy
unfolding strict_loop tenant_of pick_next
pick global_strict band = (tenant_of (strict_loop none (sorted_flows band.flows)), global_strict)
pick (round_robin cursors) band = pick_next cursors band.priority (sorted_flows band.flows)
