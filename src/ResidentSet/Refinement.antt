-- ===== src/ResidentSet/Refinement.antt =====
-- The resident set refines the ordered association list.
use inference_sim.Prelude.{
  ℕ, zero, suc, ◌+◌, ◌-◌, ◌%◌, ◌<◌, ◌≡◌, refl, sym, ◌∙◌, ap, subst, String, List, [], ◌∷◌, ◌++◌,
  true, some, none, arith, length, count, lookup, insert, erase, string_discrete, ltb,
  if◌then◌else◌, Bool-cases, Option-cases, inl, inr,
}
use Prim.Native.Nat.{◌^◌}
use inference_sim.Dll.{remove}
use inference_sim.Nodes
use inference_sim.Nodes.{Nodes, Tracks, push_back, forget, detach}
use inference_sim.ResidentSet.Defs.{ResidentSet, touch, pin, unpin, set_pins, incr_pins, decr_pins}
use inference_sim.ResidentSet.Ordered.{Slots, touched, pinned, unpinned}
use inference_sim.ResidentSet.Scan.{
  Held, held, all_on, slot, Sole-Tracks, lookup-slots, lookup-slots_absent, erase-slots,
  insert-slots,
}

pub length-snoc : (n : ℕ) (l : List ℕ) → length (l ++ n ∷ []) ≡ suc (length l)
length-snoc n [] = omega arith
length-snoc n (x ∷ l) = omega (arith, length-snoc n l)

pub decr_pins-sub : (n : ℕ) → ltb 0 n ≡ true → decr_pins n ≡ n - 1
decr_pins-sub zero h = ground arith
decr_pins-sub (suc n) h = omega arith

-- The branches of the operations, and of what they refine.
module _ (s : ResidentSet) (id : String) (n : ℕ)
    (e : lookup string_discrete id s.nodes.entries ≡ some n) where
  touch-known : touch s id ≡ record s { nodes = push_back (detach s.nodes n) n }
  unfolding touch
  touch-known = rw (e, touch) refl

  pin-known : pin s id ≡ record s { pin_count = set_pins s.pin_count n (incr_pins (s.pin_count n)) }
  unfolding pin
  pin-known = rw (e, pin) refl

  unpin-known : unpin s id ≡ (
      if ltb 0 (s.pin_count n)
      then record s { pin_count = set_pins s.pin_count n (decr_pins (s.pin_count n)) }
      else s)
  unfolding unpin
  unpin-known = rw (e, unpin) refl

module _ (s : ResidentSet) (id : String)
    (e : lookup string_discrete id s.nodes.entries ≡ none) where
  touch-unknown : touch s id ≡ s
  unfolding touch
  touch-unknown = rw (e, touch) refl

  pin-unknown : pin s id ≡ s
  unfolding pin
  pin-unknown = rw (e, pin) refl

  unpin-unknown : unpin s id ≡ s
  unfolding unpin
  unpin-unknown = rw (e, unpin) refl

module _ (slots : Slots) (id : String) (pins : ℕ)
    (e : lookup string_discrete id slots ≡ some pins) where
  touched-known : touched id slots ≡ erase string_discrete id slots ++ (id, pins) ∷ []
  unfolding touched
  touched-known = rw (e, touched) refl

  pinned-known : pinned id slots ≡ insert string_discrete id ((pins + 1) % 2 ^ 64) slots
  unfolding pinned
  pinned-known = rw (e, pinned) refl

  unpinned-known :
      unpinned id slots ≡ (if ltb 0 pins then insert string_discrete id (pins - 1) slots else slots)
  unfolding unpinned
  unpinned-known = rw (e, unpinned) refl

module _ (slots : Slots) (id : String) (e : lookup string_discrete id slots ≡ none) where
  touched-unknown : touched id slots ≡ slots
  unfolding touched
  touched-unknown = rw (e, touched) refl

  pinned-unknown : pinned id slots ≡ slots
  unfolding pinned
  pinned-unknown = rw (e, pinned) refl

  unpinned-unknown : unpinned id slots ≡ slots
  unfolding unpinned
  unpinned-unknown = rw (e, unpinned) refl

module _ (s : ResidentSet) (l : List ℕ) (v : Held s l) (id : String) where
  -- A resident adapter: its node is on the list, and its slot says its pins.
  pub resident :
      (n : ℕ)
      → lookup string_discrete id s.nodes.entries ≡ some n
      → (0 < count n l)
        × (s.nodes.key_of n ≡ id)
        × (lookup string_discrete id (held s l) ≡ some (s.pin_count n))
  resident n e =
      let at = v.tracked.known id n e refl in
      let name = (v.tracked.named id n e).0 in
      (
        at,
        name,
        subst (λ k. lookup string_discrete k (held s l) ≡ some (s.pin_count n)) name
            (lookup-slots s.nodes.key_of s.pin_count n l (Sole-Tracks s l v n at) at),
      )

  pub absent :
      lookup string_discrete id s.nodes.entries ≡ none → lookup string_discrete id (held s l) ≡ none
  absent e = lookup-slots_absent s.nodes.key_of s.pin_count id l (λ m c p. cc (
    (v.tracked.linked m c).0,
    subst (λ k. lookup string_discrete k s.nodes.entries ≡ none) (sym p) e,
  ))

  moved-Held :
      (n : ℕ)
      → 0 < count n l
      → Held (record s { nodes = push_back (detach s.nodes n) n }) (remove n l ++ n ∷ [])
  unfolding push_back detach
  moved-Held n at = record {
    tracked = Nodes.move_back-Tracks all_on s.nodes l v.tracked n at;
    sized = omega (arith, v.sized, Nodes.length-remove_one n l at, length-snoc n (remove n l));
    bounded = omega (arith, v.bounded, Nodes.length-remove_one n l at, length-snoc n (remove n l));
    positive = v.positive;
  }

  moved-slots :
      (n : ℕ)
      → lookup string_discrete id s.nodes.entries ≡ some n
      → held (record s { nodes = push_back (detach s.nodes n) n }) (remove n l ++ n ∷ [])
        ≡ erase string_discrete id (held s l) ++ (id, s.pin_count n) ∷ []
  unfolding push_back detach
  moved-slots n e =
      let (at, name, _) = resident n e in
      Nodes.map-snoc (slot s.nodes.key_of s.pin_count) (remove n l) n
      ∙ ap (λ xs. xs ++ (s.nodes.key_of n, s.pin_count n) ∷ [])
          (erase-slots s.nodes.key_of s.pin_count n l (Sole-Tracks s l v n at))
      ∙ ap (λ k. erase string_discrete k (held s l) ++ (k, s.pin_count n) ∷ []) name

  -- Touch moves the adapter's slot to the end, keeping its pins, and does nothing where the adapter
  -- is not resident.
  pub touch-touched :
      (l1 : List ℕ) × Held (touch s id) l1
      × ((touch s id).capacity ≡ s.capacity)
      × (held (touch s id) l1 ≡ touched id (held s l))
  touch-touched = elim (Option-cases (lookup string_discrete id s.nodes.entries)) [
    | inl e ↦
        rw (touch-unknown s id e) (rw (touched-unknown (held s l) id (absent e)) (l, v, refl, refl))
    | inr (n, e) ↦
        let (at, name, at_slot) = resident n e in
        rw (touch-known s id n e) (
          rw (touched-known (held s l) id (s.pin_count n) at_slot)
            (remove n l ++ n ∷ [], moved-Held n at, refl, moved-slots n e))
  ]

  repinned :
      (n q : ℕ)
      → lookup string_discrete id s.nodes.entries ≡ some n
      → Held (record s { pin_count = set_pins s.pin_count n q }) l
        × (held (record s { pin_count = set_pins s.pin_count n q }) l
            ≡ insert string_discrete id q (held s l))
  repinned n q e =
      let (at, name, _) = resident n e in
      (
        record { tracked = v.tracked; sized = v.sized; bounded = v.bounded; positive = v.positive },
        insert-slots s.nodes.key_of s.pin_count n q l (Sole-Tracks s l v n at)
              v.tracked.listed.distinct at
            ∙ ap (λ k. insert string_discrete k q (held s l)) name,
      )

  -- Pin adds one to the count of a resident adapter, as a uint of 64 bits does, and changes nothing
  -- else.
  pub pin-pinned : Held (pin s id) l × (held (pin s id) l ≡ pinned id (held s l))
  pin-pinned = elim (Option-cases (lookup string_discrete id s.nodes.entries)) [
    | inl e ↦ rw (pin-unknown s id e) (rw (pinned-unknown (held s l) id (absent e)) (v, refl))
    | inr (n, e) ↦ rw (pin-known s id n e) (
        rw (pinned-known (held s l) id (s.pin_count n) (resident n e).2)
          (repinned n (incr_pins (s.pin_count n)) e))
  ]

  -- Unpin takes one off the count of a resident adapter unless it is 0, so that the count never wraps,
  -- and changes nothing else.
  pub unpin-unpinned : Held (unpin s id) l × (held (unpin s id) l ≡ unpinned id (held s l))
  unpin-unpinned = elim (Option-cases (lookup string_discrete id s.nodes.entries)) [
    | inl e ↦ rw (unpin-unknown s id e) (rw (unpinned-unknown (held s l) id (absent e)) (v, refl))
    | inr (n, e) ↦ rw (unpin-known s id n e) (
        rw (unpinned-known (held s l) id (s.pin_count n) (resident n e).2)
          (elim (Bool-cases (ltb 0 (s.pin_count n))) [
            | inl some_pins ↦ rw some_pins (
                let (v1, slots) = repinned n (decr_pins (s.pin_count n)) e in
                (
                  v1,
                  slots
                      ∙ ap (λ q. insert string_discrete id q (held s l))
                          (decr_pins-sub (s.pin_count n) some_pins),
                ))
            | inr free ↦ rw free (v, refl)
          ]))
  ]
