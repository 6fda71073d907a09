-- ===== src/Gateway/State.antt =====
-- The queue's record, its constructor and setters, and the search for a band.
use inference_sim.Prelude.{
  ℕ, zero, suc, ◌+◌, ◌/◌, String, List, [], ◌∷◌, ◌++◌, Option, some, none, Bool, true, false, ◌||◌,
  ℤ, pos, negsuc, eqb_ℤ, leb_ℤ, Result, ok, panic, bad_argument, ltb, if◌then◌else◌, ite,
  string_discrete, length, get_elem?, take, drop,
}
use inference_sim.SloPriority.{SloPriorityMap, default_slo_priority_map}
use inference_sim.Gateway.Flows.{PriorityBand}
use inference_sim.Gateway.Policy.{FairnessPolicy, global_strict}

-- What the code uses of float64.
pub record Floats : Type 1 where
  pub Float : Type 0
  pub of_nat : ℕ → Float
  pub sub : Float → Float → Float
  pub mul : Float → Float → Float
  pub div : Float → Float → Float
  pub at_least : Float → Float → Bool
  pub above : Float → Float → Bool

pub record RequestLocation : Type 0 where
  pub band_priority : ℤ
  pub tenant_id : String

pub record GatewayQueue (Float : Type 0) : Type 0 where
  pub bands : List PriorityBand
  pub total_len : ℤ
  pub max_depth : ℕ
  pub max_band_capacity : ℕ
  pub shed_count : ℕ
  pub rejected_count : ℕ
  pub priority_map : SloPriorityMap
  pub priority_mode : Bool
  pub slo_deadline_mode : Bool
  pub slo_targets : Option (List (String × ℤ))
  pub usage_limit_threshold : Float
  pub fairness_policy : FairnessPolicy
  pub request_index : List (String × RequestLocation)
  pub shedding_enabled : Bool

-- s == t
abbrev pub same : String → String → Bool
same s t = ite (string_discrete s t) true false

unfoldable pub map_or_default : Option SloPriorityMap → SloPriorityMap
map_or_default (some m) = m
map_or_default none = default_slo_priority_map

module _ (F : Floats) where
  open F use {Float, of_nat, at_least, above}

  -- NewGatewayQueue
  unfoldable pub new_gateway_queue :
      String → ℤ → Option SloPriorityMap → Result (GatewayQueue Float)
  unfolding map_or_default string_discrete
  new_gateway_queue dispatch_order (negsuc n) priority_map = panic bad_argument
  new_gateway_queue dispatch_order (pos max_depth) priority_map =
      if same dispatch_order "fifo"
        || same dispatch_order "priority"
        || same dispatch_order "slo-deadline"
      then ok (record {
        bands = [];
        total_len = pos 0;
        max_depth = max_depth;
        max_band_capacity = 0;
        shed_count = 0;
        rejected_count = 0;
        priority_map = map_or_default priority_map;
        priority_mode = same dispatch_order "priority" || same dispatch_order "slo-deadline";
        slo_deadline_mode = same dispatch_order "slo-deadline";
        slo_targets = none;
        usage_limit_threshold = of_nat 1;
        fairness_policy = global_strict;
        request_index = [];
        shedding_enabled = false;
      })
      else panic bad_argument

  -- SetUsageLimitThreshold
  unfoldable pub set_usage_limit_threshold :
      GatewayQueue Float → Float → Result (GatewayQueue Float)
  set_usage_limit_threshold q t =
      if at_least (of_nat 0) t || above t (of_nat 1)
      then panic bad_argument
      else ok (record q { usage_limit_threshold = t })

-- sort.Search from i to j, on fuel: the loop closes in by at least one a round.
unfoldable pub search_loop : (ℕ → Bool) → ℕ → ℕ → ℕ → ℕ
search_loop test zero i j = i
search_loop test (suc fuel) i j =
    let h = (i + j) / 2 in
    let rest = search_loop test fuel (if test h then i else suc h) (if test h then h else j) in
    if ltb i j then rest else i

unfoldable pub sort_search : ℕ → (ℕ → Bool) → ℕ
unfolding search_loop
sort_search n test = search_loop test n 0 n

-- q.bands[i].priority <= priority
abbrev pub at_most : List PriorityBand → ℤ → ℕ → Bool
at_most bands p i = elim (get_elem? bands i) [ none ↦ false | some b ↦ leb_ℤ b.priority p ]

unfoldable pub empty_band : ℤ → PriorityBand
empty_band p = record { priority = p; flows = []; total_len = pos 0 }

-- bands[idx].priority == priority, with the bound on idx
abbrev pub stands_at : List PriorityBand → ℤ → ℕ → Bool
stands_at bands p i = elim (get_elem? bands i) [ none ↦ false | some b ↦ eqb_ℤ b.priority p ]

abbrev pub insert_band : List PriorityBand → ℤ → ℕ → List PriorityBand
insert_band bands p i = take i bands ++ (empty_band p ∷ drop i bands)

module _ {Float : Type 0} (q : GatewayQueue Float) where
  -- SetSLOTargets
  unfoldable pub set_slo_targets : Option (List (String × ℤ)) → GatewayQueue Float
  set_slo_targets targets = record q { slo_targets = targets }

  -- SetFairnessPolicy
  unfoldable pub set_fairness_policy : Option FairnessPolicy → Result (GatewayQueue Float)
  set_fairness_policy none = panic bad_argument
  set_fairness_policy (some policy) = ok (record q { fairness_policy = policy })

  -- SetPerBandCapacity
  unfoldable pub set_per_band_capacity : ℤ → Result (GatewayQueue Float)
  set_per_band_capacity (pos n) = ok (record q { max_band_capacity = n })
  set_per_band_capacity (negsuc n) = panic bad_argument

  -- SetSheddingEnabled
  unfoldable pub set_shedding_enabled : Bool → GatewayQueue Float
  set_shedding_enabled enabled = record q { shedding_enabled = enabled }

  -- findOrCreateBand: the band is handed back by its index.
  unfoldable pub find_or_create_band : ℤ → ℕ × GatewayQueue Float
  unfolding sort_search empty_band
  find_or_create_band p =
      let i = sort_search (length q.bands) (at_most q.bands p) in
      if stands_at q.bands p i then (i, q) else (i, record q { bands = insert_band q.bands p i })
