-- ===== src/ResidentSet/Storing.antt =====
-- EvictLRU, Store and ResidentIDs against the ordered association list.
use inference_sim.Prelude.{
  ℕ, ◌<◌, ◌≡◌, refl, sym, ◌∙◌, ap, subst, String, List, [], ◌∷◌, ◌++◌, map, some, none, Bool, true,
  false, ok, arith, length, count, lookup, string_discrete, leb, ◌==◌, if◌then◌else◌, Bool-cases,
  Option-cases, inl, inr, leb_false→lt, length-insert_new, length-erase, lookup-erase_ne, if_pos,
  if_neg, ite, ℕ_discrete, NotIn,
}
use inference_sim.Dll.{remove}
use inference_sim.Nodes
use inference_sim.Nodes.{Nodes, new_node, push_back, forget, detach}
use inference_sim.ResidentSet.Defs.{
  ResidentSet, resident_ids, ids_from, touch, add, evict_lru, store, len, set_pins,
}
use inference_sim.ResidentSet.Ordered.{Slots, touched, evicted, stored}
use inference_sim.ResidentSet.Scan.{
  Held, held, all_on, slot, dropped, scan-Scanned, Scanned, ids_from-keys,
}
use inference_sim.ResidentSet.Refinement.{resident, absent, touch-touched, length-snoc}

map-ids :
    (key : ℕ → String) (pins : ℕ → ℕ) (l : List ℕ)
    → map (λ (e : String × ℕ). e.0) (map (slot key pins) l) ≡ map key l
map-ids key pins [] = refl
map-ids key pins (x ∷ l) = ap (◌∷◌ (key x)) (map-ids key pins l)

no_keys : (key : ℕ → String) (l : List ℕ) → length l ≡ 0 → [] ≡ map key l
no_keys key [] h = refl
no_keys key (x ∷ l) h = absurd (omega arith)

-- ResidentIDs walks to the end of the list, and returns the adapters in the order of the slots.
pub resident_ids-held :
    (s : ResidentSet) (l : List ℕ)
    → Held s l
    → resident_ids s ≡ ok (map (λ (e : String × ℕ). e.0) (held s l))
unfolding resident_ids
resident_ids-held s l v =
    let walk =
      ap (ids_from (len s) s.nodes) v.tracked.listed.at_head
      ∙ ids_from-keys (len s) s.nodes none l v.tracked.listed.chain (omega (arith, v.sized)) in
    rw (map-ids s.nodes.key_of s.pin_count l) (elim (Bool-cases (length s.nodes.entries == 0)) [
      | inl e ↦ rw e (ap ok (no_keys s.nodes.key_of l (ground (arith, v.sized))))
      | inr e ↦ rw e walk
    ])

module _ (s : ResidentSet) (l : List ℕ) (v : Held s l) where
  dropped-Held :
      (n : ℕ) → 0 < count n l → Held (dropped s n) (remove n l) × (length (remove n l) < s.capacity)
  unfolding forget detach
  dropped-Held n at =
      let gone =
        length-erase string_discrete (s.nodes.key_of n) n s.nodes.entries
          (v.tracked.linked n at).0 in
      let shorter = Nodes.length-remove_one n l at in
      (
        record {
          tracked = Nodes.forget-Tracks all_on s.nodes l v.tracked n at;
          sized = omega (arith, v.sized, gone, shorter);
          bounded = omega (arith, v.bounded, shorter);
          positive = v.positive;
        },
        omega (arith, v.bounded, shorter),
      )

  scanned : Scanned s l (evict_lru s)
  unfolding evict_lru
  scanned =
      subst (λ h. Scanned s l (inference_sim.ResidentSet.Defs.scan (len s) s h))
        (sym v.tracked.listed.at_head)
        (scan-Scanned (len s) s none l v.tracked.listed.chain (omega (arith, v.sized)))

  -- EvictLRU ends, takes out the least recently used adapter that is not pinned, and leaves the other
  -- slots as they were; where every adapter is pinned it changes nothing and says so.
  pub evict_lru-evicted :
      (s1 : ResidentSet) × (l1 : List ℕ) × (id : String) × (found : Bool) × (evict_lru s
        ≡ ok (s1, id, found))
      × Held s1 l1
      × (s1.capacity ≡ s.capacity)
      × ((held s1 l1, id, found) ≡ evicted (held s l))
  unfolding forget detach
  evict_lru-evicted = elim scanned [
    | inl (n, at, out, gone, free) ↦ (
      dropped s n,
      remove n l,
      s.nodes.key_of n,
      true,
      out,
      (dropped-Held n at).0,
      refl,
      sym gone,
    )
    | inr (out, gone) ↦ (s, l, "", false, out, v, refl, sym gone)
  ]

same_slots :
    (key : ℕ → String) (pins : ℕ → ℕ) (a : ℕ) (k : String) (l : List ℕ)
    → NotIn a l
    → map (slot (λ n. ite (ℕ_discrete n a) k (key n)) (set_pins pins a 0)) l ≡ map (slot key pins) l
same_slots key pins a k [] h = refl
same_slots key pins a k (x ∷ l) h = λ i.
    (
      if_neg (ℕ_discrete x a) (λ p. h.0 (sym p)) k (key x) i,
      if_neg (ℕ_discrete x a) (λ p. h.0 (sym p)) 0 (pins x) i,
    )
    ∷ same_slots key pins a k l h.1 i

module _ (s : ResidentSet) (l : List ℕ) (v : Held s l) (id : String)
    (e : lookup string_discrete id s.nodes.entries ≡ none) where
  added-Held : length l < s.capacity → Held (add s id) (l ++ s.nodes.allocated ∷ [])
  unfolding add new_node push_back
  added-Held room =
      let long = length-snoc s.nodes.allocated l in
      record {
        tracked = Nodes.new_back-Tracks all_on s.nodes l v.tracked id all_on e (λ m p. refl) refl;
        sized = omega (
          arith,
          v.sized,
          long,
          length-insert_new string_discrete id s.nodes.allocated s.nodes.entries e,
        );
        bounded = omega (arith, long);
        positive = v.positive;
      }

  added-slots : held (add s id) (l ++ s.nodes.allocated ∷ []) ≡ held s l ++ (id, 0) ∷ []
  unfolding add new_node push_back
  added-slots =
      let a = s.nodes.allocated in
      Nodes.map-snoc _ l a ∙ (λ i.
        same_slots s.nodes.key_of s.pin_count a id l (Nodes.fresh-NotIn all_on s.nodes l v.tracked)
          i
        ++ (
          if_pos (ℕ_discrete a a) refl id (s.nodes.key_of a) i,
          if_pos (ℕ_discrete a a) refl 0 (s.pin_count a) i,
        )
          ∷ [])

  capacity-add : (add s id).capacity ≡ s.capacity
  unfolding add
  capacity-add = refl

  -- A node taken out takes no other key with it.
  absent-dropped :
      (n : ℕ) → 0 < count n l → lookup string_discrete id (dropped s n).nodes.entries ≡ none
  unfolding forget detach
  absent-dropped n at =
      lookup-erase_ne string_discrete (s.nodes.key_of n) id s.nodes.entries (λ p. cc (
        (v.tracked.linked n at).0,
        subst (λ k. lookup string_discrete k s.nodes.entries ≡ none) p e,
      ))
      ∙ e

  full_slots : leb s.capacity (length (held s l)) ≡ leb s.capacity (len s)
  full_slots =
      ap (leb s.capacity) (Nodes.length-map (slot s.nodes.key_of s.pin_count) l ∙ sym v.sized)

module _ (capacity : ℕ) (id : String) (slots : Slots) where
  stored_room :
      lookup string_discrete id slots ≡ none
      → leb capacity (length slots) ≡ false
      → stored capacity id slots ≡ (slots ++ (id, 0) ∷ [], "", true)
  unfolding stored
  stored_room e room = rw (e, stored) (rw room refl)

  stored_full :
      (rest : Slots) (gone : String) (found : Bool)
      → lookup string_discrete id slots ≡ none
      → leb capacity (length slots) ≡ true
      → evicted slots ≡ (rest, gone, found)
      → stored capacity id slots
        ≡ (if found then (rest ++ (id, 0) ∷ [], gone, true) else (slots, "", false))
  unfolding stored
  stored_full rest gone found e full out = rw (e, stored) (rw full (rw out refl))

  stored_known :
      (pins : ℕ)
      → lookup string_discrete id slots ≡ some pins
      → stored capacity id slots ≡ (touched id slots, "", true)
  unfolding stored
  stored_known pins e = rw (e, stored) refl

module _ (s : ResidentSet) (l : List ℕ) (v : Held s l) (id : String) where
  abbrev Storing : Type 0
  Storing =
      (s1 : ResidentSet) × (l1 : List ℕ) × (gone : String) × (done : Bool) × (store s id
        ≡ ok (s1, gone, done))
      × Held s1 l1
      × (s1.capacity ≡ s.capacity)
      × ((held s1 l1, gone, done) ≡ stored s.capacity id (held s l))

  store_new : lookup string_discrete id s.nodes.entries ≡ none → Storing
  unfolding store
  store_new e = elim (Bool-cases (leb s.capacity (len s))) [
    | inr room ↦ (
      add s id,
      l ++ s.nodes.allocated ∷ [],
      "",
      true,
      rw (e, store) (rw room refl),
      added-Held s l v id e (omega (arith, v.sized, leb_false→lt _ _ room)),
      capacity-add s l v id e,
      ap (λ (x : Slots). (x, "", true)) (added-slots s l v id e)
          ∙ sym (
              stored_room s.capacity id (held s l) (absent s l v id e)
                (full_slots s l v id e ∙ room)),
    )
    | inl full ↦ elim (scanned s l v) [
      | inl (n, at, out, gone, free) ↦
          let s1 = dropped s n in
          let (v1, space) = dropped-Held s l v n at in
          let e1 = absent-dropped s l v id e n at in
          (
            add s1 id,
            remove n l ++ s1.nodes.allocated ∷ [],
            s.nodes.key_of n,
            true,
            rw (e, store) (rw full (rw out refl)),
            added-Held s1 (remove n l) v1 id e1 space,
            capacity-add s1 (remove n l) v1 id e1,
            ap (λ (x : Slots). (x, s.nodes.key_of n, true)) (added-slots s1 (remove n l) v1 id e1)
                ∙ sym (
                    stored_full s.capacity id (held s l) _ _ _ (absent s l v id e)
                      (full_slots s l v id e ∙ full) gone),
          )
      | inr (out, gone) ↦ (
        s,
        l,
        "",
        false,
        rw (e, store) (rw full (rw out refl)),
        v,
        refl,
        sym (
            stored_full s.capacity id (held s l) _ _ _ (absent s l v id e)
              (full_slots s l v id e ∙ full) gone),
      )
    ]
  ]

  -- Store ends, and does what `stored` says: a resident adapter moves to the end; a new one comes to
  -- the end with no pins, in the place of the first adapter that is not pinned where the slots are
  -- full; and where they are full and all pinned nothing changes and the result says so.
  pub store-stored :
      (s1 : ResidentSet) × (l1 : List ℕ) × (gone : String) × (done : Bool) × (store s id
        ≡ ok (s1, gone, done))
      × Held s1 l1
      × (s1.capacity ≡ s.capacity)
      × ((held s1 l1, gone, done) ≡ stored s.capacity id (held s l))
  unfolding store
  store-stored = elim (Option-cases (lookup string_discrete id s.nodes.entries)) [
    | inl e ↦ store_new e
    | inr (n, e) ↦
        let (l1, v1, cap, order) = touch-touched s l v id in
        (
          touch s id,
          l1,
          "",
          true,
          rw (e, store) refl,
          v1,
          cap,
          ap (λ (x : Slots). (x, "", true)) order
              ∙ sym
                  (stored_known s.capacity id (held s l) (s.pin_count n) (resident s l v id n e).2),
        )
  ]
