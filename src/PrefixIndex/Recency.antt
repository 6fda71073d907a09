-- ===== src/PrefixIndex/Recency.antt =====
-- An instance's cache behaves as a list of hashes in order of recency.
use inference_sim.Prelude.{
  ℕ, ◌≤◌, ◌<◌, ◌≡◌, ◌≢◌, refl, sym, ◌∙◌, ap, subst, String, List, [], ◌∷◌, ◌++◌, some, none, Bool,
  true, ok, arith, leb, if◌then◌else◌, length, count, lookup, erase, string_discrete, Option-cases,
  Bool-cases, inl, inr, length-insert_new, length-erase, lookup-erase_ne, leb→le, leb_false→lt,
}
use inference_sim.Dll
use inference_sim.Dll.{Represents, remove}
use inference_sim.Nodes
use inference_sim.Nodes.{
  Nodes, Tracks, holds, without, but_last, names, no_nodes, new_node, forget, push_front, detach,
}
use inference_sim.PrefixIndex.Defs.{LruBlockCache, touch, make_room, evict_oldest, touch_all}

-- Every node is on the list.
abbrev pub all_on : ℕ → Bool
all_on n = true

-- The map and the list describe the same blocks, and there are no more than the capacity.
pub record LruInv (c : LruBlockCache) (l : List ℕ) : Type 0 where
  pub tracked : Tracks all_on c.nodes l
  pub sized : length c.nodes.entries ≡ length l
  pub bounded : length l ≤ c.capacity
  pub positive : 0 < c.capacity

-- What recording a hash does to the list of recent hashes: it moves or comes to the front, and where
-- it is new and the list full, the last one goes.
unfoldable pub recent : ℕ → String → List String → List String
recent capacity h ks =
    h ∷ (if holds h ks then without h ks else if leb capacity (length ks) then but_last ks else ks)

unfoldable pub recent_all : ℕ → List String → List String → List String
recent_all capacity [] ks = ks
recent_all capacity (h ∷ hashes) ks = recent_all capacity hashes (recent capacity h ks)

-- The state that touch leaves in its two branches.
moved : LruBlockCache → ℕ → LruBlockCache
moved c n = record c { nodes = push_front (detach c.nodes n) n }

added : LruBlockCache → String → LruBlockCache
added c h = record c { nodes = push_front (new_node c.nodes h) c.nodes.allocated }

module _ (c : LruBlockCache) (l : List ℕ) (v : LruInv c l) where
  moved-LruInv : (n : ℕ) → 0 < count n l → LruInv (moved c n) (n ∷ remove n l)
  unfolding moved push_front detach
  moved-LruInv n h = record {
    tracked = Nodes.move_front-Tracks all_on c.nodes l v.tracked n h;
    sized = omega (arith, v.sized, Nodes.length-remove_one n l h);
    bounded = omega (arith, v.bounded, Nodes.length-remove_one n l h);
    positive = v.positive;
  }

  added-LruInv :
      (h : String)
      → lookup string_discrete h c.nodes.entries ≡ none
      → length l < c.capacity
      → LruInv (added c h) (c.nodes.allocated ∷ l)
  unfolding added push_front new_node
  added-LruInv h absent room = record {
    tracked = Nodes.new_front-Tracks all_on c.nodes l v.tracked h all_on absent (λ m p. refl) refl;
    sized = omega (
      arith,
      v.sized,
      length-insert_new string_discrete h c.nodes.allocated c.nodes.entries absent,
    );
    bounded = omega arith;
    positive = v.positive;
  }

  -- At capacity the list is not empty, and its last node goes.
  evict_oldest-LruInv :
      c.capacity ≤ length l
      → (c1 : LruBlockCache) × (l1 : List ℕ) × (n : ℕ) × (l ≡ l1 ++ n ∷ [])
        × (evict_oldest c ≡ ok c1)
        × LruInv c1 l1
        × (length l1 < c.capacity)
        × (c1.capacity ≡ c.capacity)
        × (c1.nodes.entries ≡ erase string_discrete (c.nodes.key_of n) c.nodes.entries)
        × (names c1.nodes l1 ≡ but_last (names c.nodes l))
  unfolding evict_oldest forget detach
  evict_oldest-LruInv full = elim (Dll.snoc_view l) [
    | inl e ↦ absurd (omega (arith, ap (λ xs. length {A = ℕ} xs) e, v.positive))
    | inr (ys, n, e) ↦
        let listed = subst (Represents c.nodes.list) e v.tracked.listed in
        let rest : remove n l ≡ ys = ap (remove n) e ∙ Dll.remove-last n ys listed.distinct in
        let at : 0 < count n l =
          omega (arith, ap (count n) e, Nodes.count-snoc n n ys, Nodes.count-cons_self n ys) in
        let key = (v.tracked.linked n at).0 in
        let gone = length-erase string_discrete (c.nodes.key_of n) n c.nodes.entries key in
        let shorter = Nodes.length-remove_one n l at in
        let same = ap (λ xs. length {A = ℕ} xs) rest in
        (
          record c { nodes = detach (forget c.nodes (c.nodes.key_of n)) n },
          ys,
          n,
          e,
          rw (Dll.Represents-last c.nodes.list n ys listed) refl,
          record {
            tracked =
                subst (Tracks all_on _) rest (Nodes.forget-Tracks all_on c.nodes l v.tracked n at);
            sized = omega (arith, gone, shorter, same, v.sized);
            bounded = omega (arith, shorter, same, v.bounded);
            positive = v.positive;
          },
          omega (arith, shorter, same, v.bounded),
          refl,
          refl,
          sym (
              ap but_last (ap (names c.nodes) e ∙ Nodes.map-snoc c.nodes.key_of ys n)
              ∙ Nodes.but_last-snoc (names c.nodes ys) (c.nodes.key_of n)),
        )
  ]

  full_names : leb c.capacity (length (names c.nodes l)) ≡ leb c.capacity (length c.nodes.entries)
  full_names = ap (leb c.capacity) (Nodes.length-map c.nodes.key_of l ∙ sym v.sized)

  known-touch :
      (h : String) (n : ℕ)
      → lookup string_discrete h c.nodes.entries ≡ some n
      → LruInv (moved c n) (n ∷ remove n l)
        × (touch c h ≡ ok (moved c n))
        × (names (moved c n).nodes (n ∷ remove n l) ≡ recent c.capacity h (names c.nodes l))
  unfolding touch recent moved push_front detach
  known-touch h n e =
      let at = v.tracked.known h n e refl in
      let key = (v.tracked.named h n e).0 in
      let held : holds h (names c.nodes l) ≡ true =
        subst (λ k. holds k (names c.nodes l) ≡ true) key
          (Nodes.holds-names all_on c.nodes l v.tracked n at) in
      let rest : names c.nodes (remove n l) ≡ without h (names c.nodes l) =
        Nodes.names-remove all_on c.nodes l v.tracked n at
        ∙ ap (λ k. without k (names c.nodes l)) key in
      (moved-LruInv n at, rw (e, touch) refl, rw held (λ i. key i ∷ rest i))

-- What a new hash does once there is room.
module _ (c : LruBlockCache) (l : List ℕ) (v : LruInv c l) (h : String) where
  names-added : names (added c h).nodes (c.nodes.allocated ∷ l) ≡ h ∷ names c.nodes l
  unfolding added push_front new_node
  names-added = λ i.
      Nodes.key_of-new_node c.nodes h i
      ∷ Nodes.names-new_node c.nodes h l (Nodes.fresh-NotIn all_on c.nodes l v.tracked) i

module _ (c : LruBlockCache) (l : List ℕ) (v : LruInv c l) (h : String) where
  new-touch :
      lookup string_discrete h c.nodes.entries ≡ none
      → (c1 : LruBlockCache) × (l1 : List ℕ) × (touch c h ≡ ok c1)
        × LruInv c1 l1
        × (c1.capacity ≡ c.capacity)
        × (names c1.nodes l1 ≡ recent c.capacity h (names c.nodes l))
  unfolding touch make_room recent added push_front new_node
  new-touch absent =
      let unheld = Nodes.not_holds-names all_on c.nodes l v.tracked h absent in
      elim (Bool-cases (leb c.capacity (length c.nodes.entries))) [
        | inr room ↦ (
          added c h,
          c.nodes.allocated ∷ l,
          rw (absent, touch) (rw (room, make_room) refl),
          added-LruInv c l v h absent (omega (arith, v.sized, leb_false→lt _ _ room)),
          refl,
          rw unheld (rw (full_names c l v ∙ room) (names-added c l v h)),
        )
        | inl full ↦
            let (c1, l1, n, e, evicted, v1, room, cap, entries, kept) =
              evict_oldest-LruInv c l v (omega (arith, v.sized, leb→le _ _ full)) in
            let at : 0 < count n l =
              omega (arith, ap (count n) e, Nodes.count-snoc n n l1, Nodes.count-cons_self n l1) in
            let other : h ≢ c.nodes.key_of n = λ p. cc (
              subst (λ k. lookup string_discrete k c.nodes.entries ≡ none) p absent,
              (v.tracked.linked n at).0,
            ) in
            let absent1 : lookup string_discrete h c1.nodes.entries ≡ none =
              ap (lookup string_discrete h) entries
              ∙ lookup-erase_ne string_discrete (c.nodes.key_of n) h c.nodes.entries other
              ∙ absent in
            (
              added c1 h,
              c1.nodes.allocated ∷ l1,
              rw (absent, touch) (rw (full, make_room) (rw evicted refl)),
              added-LruInv c1 l1 v1 h absent1 (omega (arith, room, cap)),
              cap,
              rw unheld (rw (full_names c l v ∙ full) (names-added c1 l1 v1 h ∙ ap (◌∷◌ h) kept)),
            )
      ]

-- On a cache whose list and map agree, touch does not meet the panic of evictOldest. It leaves such a
-- cache, of the same capacity, and the hashes in order of recency are those of `recent`: the hash
-- stands first, the others keep their order, and the last one goes where the hash is new and the
-- cache full.
pub touch-recent :
    (c : LruBlockCache) (l : List ℕ) (h : String)
    → LruInv c l
    → (c1 : LruBlockCache) × (l1 : List ℕ) × (touch c h ≡ ok c1)
      × LruInv c1 l1
      × (c1.capacity ≡ c.capacity)
      × (names c1.nodes l1 ≡ recent c.capacity h (names c.nodes l))
unfolding moved
touch-recent c l h v = elim (Option-cases (lookup string_discrete h c.nodes.entries)) [
  | inl e ↦ new-touch c l v h e
  | inr (n, e) ↦
      let (v1, done, order) = known-touch c l v h n e in
      (moved c n, n ∷ remove n l, done, v1, refl, order)
]

pub touch_all-recent :
    (c : LruBlockCache) (l : List ℕ) (hashes : List String)
    → LruInv c l
    → (c1 : LruBlockCache) × (l1 : List ℕ) × (touch_all c hashes ≡ ok c1)
      × LruInv c1 l1
      × (c1.capacity ≡ c.capacity)
      × (names c1.nodes l1 ≡ recent_all c.capacity hashes (names c.nodes l))
unfolding touch_all recent_all
touch_all-recent c l [] v = (c, l, refl, v, refl, refl)
touch_all-recent c l (h ∷ hashes) v =
    let (c1, l1, done, v1, cap, order) = touch-recent c l h v in
    let (c2, l2, done2, v2, cap2, order2) = touch_all-recent c1 l1 hashes v1 in
    (
      c2,
      l2,
      rw done done2,
      v2,
      cap2 ∙ cap,
      order2
          ∙ ap (λ n. recent_all n hashes (names c1.nodes l1)) cap
          ∙ ap (recent_all c.capacity hashes) order,
    )
