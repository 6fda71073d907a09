-- ===== src/ResidentSet/Session.antt =====
-- The set from its constructor on, under any sequence of calls.
use inference_sim.Prelude.{
  ℕ, zero, suc, ◌≤◌, ◌<◌, ◌≡◌, refl, ◌∙◌, ap, String, List, [], ◌∷◌, map, false, ℤ, pos, negsuc,
  ltb_ℤ, ◌⊎◌, inl, inr, Result, ok, panic, bad_argument, ◌>>=◌, arith, length,
}
use inference_sim.Nodes
use inference_sim.Nodes.{no_nodes}
use inference_sim.ResidentSet.Defs.{
  ResidentSet, new_resident_set, touch, evict_lru, store, pin, unpin, resident_ids,
}
use inference_sim.ResidentSet.Ordered.{Slots, touched, evicted, stored, pinned, unpinned}
use inference_sim.ResidentSet.Scan.{Held, held, slot, all_on}
use inference_sim.ResidentSet.Refinement.{touch-touched, pin-pinned, unpin-unpinned}
use inference_sim.ResidentSet.Storing.{store-stored, evict_lru-evicted, resident_ids-held}

-- The calls that change the set.
pub data Call : Type 0 where
  storing touching pinning unpinning : String → Call
  evicting : Call

-- What a call makes of the set.
unfoldable pub run : ResidentSet → Call → Result ResidentSet
run s (storing id) = do (s1, gone, done) ← store s id; ok s1
run s (touching id) = ok (touch s id)
run s (pinning id) = ok (pin s id)
run s (unpinning id) = ok (unpin s id)
run s evicting = do (s1, gone, done) ← evict_lru s; ok s1

unfoldable pub run_all : ResidentSet → List Call → Result ResidentSet
run_all s [] = ok s
run_all s (c ∷ calls) = do s1 ← run s c; run_all s1 calls

-- What a call makes of the slots.
unfoldable pub effect : ℕ → Call → Slots → Slots
effect capacity (storing id) slots = (stored capacity id slots).0
effect capacity (touching id) slots = touched id slots
effect capacity (pinning id) slots = pinned id slots
effect capacity (unpinning id) slots = unpinned id slots
effect capacity evicting slots = (evicted slots).0

unfoldable pub effects : ℕ → List Call → Slots → Slots
effects capacity [] slots = slots
effects capacity (c ∷ calls) slots = effects capacity calls (effect capacity c slots)

capacity-pin : (s : ResidentSet) (id : String) → (pin s id).capacity ≡ s.capacity
unfolding pin
capacity-pin s id = ground arith

capacity-unpin : (s : ResidentSet) (id : String) → (unpin s id).capacity ≡ s.capacity
unfolding unpin
capacity-unpin s id = ground arith

-- A call does not panic, and does to the slots what `effect` says.
run-effect :
    (s : ResidentSet) (l : List ℕ)
    → Held s l
    → (c : Call)
    → (s1 : ResidentSet) × (l1 : List ℕ) × (run s c ≡ ok s1)
      × Held s1 l1
      × (s1.capacity ≡ s.capacity)
      × (held s1 l1 ≡ effect s.capacity c (held s l))
unfolding run effect
run-effect s l v (storing id) =
    let (s1, l1, gone, done, out, v1, cap, slots) = store-stored s l v id in
    (s1, l1, rw out refl, v1, cap, ap (λ x. x.0) slots)
run-effect s l v (touching id) =
    let (l1, v1, cap, slots) = touch-touched s l v id in (touch s id, l1, refl, v1, cap, slots)
run-effect s l v (pinning id) =
    let (v1, slots) = pin-pinned s l v id in (pin s id, l, refl, v1, capacity-pin s id, slots)
run-effect s l v (unpinning id) =
    let (v1, slots) = unpin-unpinned s l v id in
    (unpin s id, l, refl, v1, capacity-unpin s id, slots)
run-effect s l v evicting =
    let (s1, l1, gone, done, out, v1, cap, slots) = evict_lru-evicted s l v in
    (s1, l1, rw out refl, v1, cap, ap (λ x. x.0) slots)

run_all-effects :
    (s : ResidentSet) (l : List ℕ) (calls : List Call)
    → Held s l
    → (s1 : ResidentSet) × (l1 : List ℕ) × (run_all s calls ≡ ok s1)
      × Held s1 l1
      × (s1.capacity ≡ s.capacity)
      × (held s1 l1 ≡ effects s.capacity calls (held s l))
unfolding run_all effects
run_all-effects s l [] v = (s, l, refl, v, refl, refl)
run_all-effects s l (c ∷ calls) v =
    let (s1, l1, out, v1, cap, slots) = run-effect s l v c in
    let (s2, l2, out2, v2, cap2, slots2) = run_all-effects s1 l1 calls v1 in
    (
      s2,
      l2,
      rw out out2,
      v2,
      cap2 ∙ cap,
      slots2 ∙ ap (λ n. effects n calls (held s1 l1)) cap ∙ ap (effects s.capacity calls) slots,
    )

-- The set of a constructor that returned, after the calls.
pub record Served (capacity : ℕ) (calls : List Call) (s : ResidentSet) : Type 0 where
  pub after : ResidentSet
  pub nodes_of : List ℕ
  pub ran : run_all s calls ≡ ok after
  pub inv : Held after nodes_of
  pub slots : held after nodes_of ≡ effects capacity calls []
  pub ids : resident_ids after ≡ ok (map (λ (e : String × ℕ). e.0) (effects capacity calls []))
  pub bounded : length (effects capacity calls []) ≤ capacity

abbrev pub fresh_set : ℕ → ResidentSet
fresh_set n = record { capacity = suc n; nodes = no_nodes; pin_count = λ m. 0 }

pub fresh-Held : (n : ℕ) → Held (fresh_set n) []
unfolding no_nodes
fresh-Held n = record {
  tracked = Nodes.no_nodes-Tracks all_on;
  sized = refl;
  bounded = omega arith;
  positive = omega arith;
}

fresh-Served : (n : ℕ) (calls : List Call) → Served (suc n) calls (fresh_set n)
fresh-Served n calls =
    let (s1, l1, out, v1, cap, slots) = run_all-effects (fresh_set n) [] calls (fresh-Held n) in
    record {
      after = s1;
      nodes_of = l1;
      ran = out;
      inv = v1;
      slots = slots;
      ids = resident_ids-held s1 l1 v1 ∙ ap (λ xs. ok (map (λ (e : String × ℕ). e.0) xs)) slots;
      bounded = omega (
        arith,
        ap length slots,
        Nodes.length-map (slot s1.nodes.key_of s1.pin_count) l1,
        v1.bounded,
        cap,
      );
    }

-- The constructor panics for a capacity that is not positive. For a positive one it returns a set on
-- which every sequence of Store, Touch, Pin, Unpin and EvictLRU runs without a panic; the slots are
-- then those that the ordered list gives for the same calls from the empty list, ResidentIDs returns
-- their adapters in order, and there are no more than the capacity.
pub new_resident_set-Served :
    (capacity : ℤ) (calls : List Call)
    → ((ltb_ℤ (pos 0) capacity ≡ false) × (new_resident_set capacity ≡ panic bad_argument))
      ⊎ ((n : ℕ) × (s : ResidentSet) × (0 < n)
          × (capacity ≡ pos n)
          × (new_resident_set capacity ≡ ok s)
          × Served n calls s)
unfolding new_resident_set
new_resident_set-Served (pos zero) calls = inl (refl, refl)
new_resident_set-Served (pos (suc n)) calls =
    inr (suc n, fresh_set n, omega arith, refl, refl, fresh-Served n calls)
new_resident_set-Served (negsuc n) calls = inl (ground arith, refl)
