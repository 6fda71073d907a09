-- ===== src/Tests/GatewayTests.antt =====
-- A gateway queue of two bands, filled by Enqueue.
use mathlib.Core.Bool.{false≢true}
use inference_sim.Prelude.{
  ℕ, String, [], ◌∷◌, Option, some, none, Bool, ◌≡◌, ◌≢◌, refl, sym, ap, pos, negsuc, false, true,
  ok, ◌-◌, ◌*◌, ◌/◌, ltb, leb, ◌≤◌, arith, inl, ◌⊎◌, length, get_elem?, All, Result, panic,
  string_discrete, lookup, insert, erase, ◌∙◌, ite,
}
use inference_sim.Request.{Request, queued}
use inference_sim.SloPriority.{default_slo_priority_map, priority, is_sheddable}
use inference_sim.Gateway.{
  GatewayQueue, Floats, IsValid, WellBand, PriorityBand, new_gateway_queue, enqueue, dequeue,
  dequeue_gated, Enqueues, Outcome, find_or_create_band, remove_by_request_id, round_robin,
  contents, placed_flows, Placed, Taken, held, ◌≤ℤ◌,
}
use inference_sim.Gateway

abbrev request : String → String → String → Request
request id tenant class = record {
  id = id;
  input_tokens = 7 ∷ [];
  output_tokens = [];
  state = queued;
  progress_index = 0;
  num_new_tokens = 0;
  arrival_time = 0;
  tenant_id = tenant;
  slo_class = class;
  slo_target_us = pos 0;
  gateway_enqueue_time = pos 0;
}

-- Thousandths, for float64.
abbrev thousandths : Floats
thousandths = record {
  Float = ℕ;
  of_nat = λ n. n * 1000;
  sub = λ a b. a - b;
  mul = λ a b. a * b / 1000;
  div = λ a b. a * 1000 / b;
  at_least = λ a b. leb b a;
  above = λ a b. ltb b a;
}

abbrev urgent : PriorityBand
urgent = record {
  priority = pos 4;
  flows =
      (
        "a",
        record {
          key = record { tenant_id = "a"; priority = pos 4 };
          requests = record { request = request "r1" "a" "critical"; seq_id = 5 } ∷ [];
        },
      )
      ∷ [];
  total_len = pos 1;
}

abbrev slack : PriorityBand
slack = record {
  priority = negsuc 0;
  flows =
      (
        "default",
        record {
          key = record { tenant_id = "default"; priority = negsuc 0 };
          requests = record { request = request "r0" "" "batch"; seq_id = 3 } ∷ [];
        },
      )
      ∷ [];
  total_len = pos 1;
}

-- Two waiting requests: the older one is in the lower band.
abbrev two_bands : Bool → Bool → GatewayQueue ℕ
two_bands priority_mode deadline_mode = record {
  bands = urgent ∷ slack ∷ [];
  total_len = pos 2;
  max_depth = 2;
  max_band_capacity = 0;
  shed_count = 0;
  rejected_count = 0;
  priority_map = default_slo_priority_map;
  priority_mode = priority_mode;
  slo_deadline_mode = deadline_mode;
  slo_targets = none;
  usage_limit_threshold = 800;
  fairness_policy = round_robin [];
  request_index =
      ("r1", record { band_priority = pos 4; tenant_id = "a" })
      ∷ ("r0", record { band_priority = negsuc 0; tenant_id = "default" })
      ∷ [];
  shedding_enabled = true;
}

urgent_well : WellBand default_slo_priority_map urgent
unfolding default_slo_priority_map priority lookup string_discrete placed_flows
urgent_well = record {
  unique = (tt, tt);
  well =
      (record { keyed = refl; busy = omega arith; classed = (refl, tt); ordered = (tt, tt) }, tt);
  counted = refl;
}

slack_well : WellBand default_slo_priority_map slack
unfolding default_slo_priority_map priority lookup string_discrete placed_flows
slack_well = record {
  unique = (tt, tt);
  well =
      (record { keyed = refl; busy = omega arith; classed = (refl, tt); ordered = (tt, tt) }, tt);
  counted = refl;
}

fresh_r2 :
    (id : String) → ite (string_discrete "r2" id) true false ≡ false → ◌≢◌ {A = String} "r2" id
unfolding string_discrete
fresh_r2 id h p =
    let g : ite (string_discrete "r2" "r2") true false ≡ ite (string_discrete "r2" id) true false =
      ap (λ s. ite (string_discrete "r2" s) true false) p in
    false≢true (sym h ∙ sym g)

names_differ : ◌≢◌ {A = String} "r1" "r0"
unfolding string_discrete
names_differ p =
    let h : ite (string_discrete "r1" "r1") true false
        ≡ ite (string_discrete "r0" "r1") true false =
      ap (λ s. ite (string_discrete s "r1") true false) p in
    false≢true (sym h)

two_bands_IsValid : (p d : Bool) → IsValid (two_bands p d)
unfolding contents
two_bands_IsValid p d = record {
  well = (urgent_well, (slack_well, tt));
  descending = ((omega arith, tt), (tt, tt));
  counted = refl;
  unique = ((names_differ, tt), (tt, tt));
  index_unique = ((names_differ, tt), (tt, tt));
  index = λ id. refl;
}

dequeue-fifo_example :
    (x : Placed) × (q1 : GatewayQueue ℕ) × (dequeue (two_bands false false)
      ≡ ok (some x.entry.request, q1))
    × Taken (two_bands false false) x q1
    × All (λ y. x.entry.seq_id ≤ y.entry.seq_id) (contents (two_bands false false).bands)
unfolding contents
dequeue-fifo_example =
    Gateway.dequeue-fifo (two_bands false false) (two_bands_IsValid false false) refl refl
      (omega arith)

dequeue-priority_example :
    (x : Placed) × (q1 : GatewayQueue ℕ) × (dequeue (two_bands true true)
      ≡ ok (some x.entry.request, q1))
    × Taken (two_bands true true) x q1
    × All (λ y. y.priority ≤ℤ x.priority) (contents (two_bands true true).bands)
unfolding contents
dequeue-priority_example =
    Gateway.dequeue-priority (two_bands true true) (two_bands_IsValid true true) (inl refl)
      (omega arith)

dequeue_gated-Gated_example :
    ((dequeue_gated thousandths (two_bands true false) 900 ≡ ok (none, two_bands true false))
      × ((length (contents (two_bands true false).bands) ≡ 0)
          ⊎ ((i : ℕ) × (band : PriorityBand) × (get_elem? (two_bands true false).bands i
                ≡ some band)
              × (held thousandths (two_bands true false) (two_bands_IsValid true false) 900 i
                  ≡ true))))
    ⊎ ((x : Placed) × (q1 : GatewayQueue ℕ) × (dequeue_gated thousandths (two_bands true false) 900
          ≡ ok (some x.entry.request, q1))
        × Taken (two_bands true false) x q1
        × ((i : ℕ) × (band : PriorityBand) × (get_elem? (two_bands true false).bands i ≡ some band)
            × (x.priority ≡ band.priority)
            × (held thousandths (two_bands true false) (two_bands_IsValid true false) 900 i
                ≡ false))
        × All (λ y. y.priority ≤ℤ x.priority) (contents (two_bands true false).bands))
dequeue_gated-Gated_example =
    Gateway.dequeue_gated-Gated thousandths (two_bands true false) (two_bands_IsValid true false)
      900

remove_by_request_id-Taken_example :
    ((remove_by_request_id (two_bands true false) "r0" ≡ ok (none, two_bands true false))
      × All (λ x. "r0" ≢ x.entry.request.id) (contents (two_bands true false).bands))
    ⊎ ((x : Placed) × (q1 : GatewayQueue ℕ) × (x.entry.request.id ≡ "r0")
        × (remove_by_request_id (two_bands true false) "r0" ≡ ok (some x.entry.request, q1))
        × Taken (two_bands true false) x q1)
remove_by_request_id-Taken_example =
    Gateway.remove_by_request_id-Taken (two_bands true false) (two_bands_IsValid true false) "r0"

find_or_create_band-IsValid_example :
    IsValid (find_or_create_band (two_bands true false) (pos 3)).1
    × (contents (find_or_create_band (two_bands true false) (pos 3)).1.bands
        ≡ contents (two_bands true false).bands)
    × ((band : PriorityBand) × (get_elem?
            (find_or_create_band (two_bands true false) (pos 3)).1.bands
            (find_or_create_band (two_bands true false) (pos 3)).0
          ≡ some band)
        × (band.priority ≡ pos 3))
find_or_create_band-IsValid_example =
    Gateway.find_or_create_band-IsValid (two_bands true false) (two_bands_IsValid true false)
      (pos 3)

-- The queue is full: the batch request makes way for a critical one.
enqueue-Enqueues_example :
    Enqueues
      (two_bands true false)
      (priority default_slo_priority_map "critical")
      (record { request = request "r2" "c" "critical"; seq_id = 9 })
      (enqueue (two_bands true false) (request "r2" "c" "critical") 9)
unfolding contents string_discrete
enqueue-Enqueues_example =
    Gateway.enqueue-Enqueues (two_bands true false) (request "r2" "c" "critical") 9
      (two_bands_IsValid true false) (fresh_r2 "r1" refl, (fresh_r2 "r0" refl, tt))
      (omega arith, (omega arith, tt))

-- The older request goes first in FIFO mode, and the urgent one in the others.
abbrev served : Result (Option Request × GatewayQueue ℕ) → String
served (panic fault) = "panic"
served (ok (none, q)) = "none"
served (ok (some r, q)) = r.id

abbrev shed_for : Result (Outcome ℕ) → String
shed_for (panic fault) = "panic"
shed_for (ok (o, none, q)) = "none"
shed_for (ok (o, some r, q)) = r.id

makes_way :
    (shed_for (enqueue (two_bands true false) (request "r2" "c" "critical") 9) ≡ "r0")
    × (shed_for (enqueue (two_bands true false) (request "r2" "c" "background") 9) ≡ "none")
unfolding enqueue lookup insert erase string_discrete default_slo_priority_map priority is_sheddable
makes_way = (refl, refl)

orders :
    (served (dequeue (two_bands false false)) ≡ "r0")
    × (served (dequeue (two_bands true false)) ≡ "r1")
    × (served (dequeue (two_bands true true)) ≡ "r1")
    × (served (remove_by_request_id (two_bands true false) "r0") ≡ "r0")
    × (served (dequeue_gated thousandths (two_bands true false) 900) ≡ "r1")
    × (served (dequeue_gated thousandths (two_bands true false) 1000) ≡ "none")
unfolding dequeue dequeue_gated remove_by_request_id lookup string_discrete
orders = (refl, refl, refl, refl, refl, refl)
