-- ===== src/CpuTier/Storing.antt =====
-- store, and the new tier.
use inference_sim.Prelude.{
  ℕ, suc, ◌≤◌, ◌<◌, ◌≡◌, ◌≢◌, refl, sym, ◌∙◌, ap, subst, String, List, [], ◌∷◌, ◌++◌, some, none,
  Bool, true, false, ℤ, pos, is_zero, ltb_ℤ, ltb, ◌==◌, if◌then◌else◌, arith, length, take, drop,
  count, min, lookup, lookup-insert_self, lookup-insert_ne, string_discrete, Option-cases,
  Bool-cases, ◌⊎◌, inl, inr, ok,
}
use inference_sim.Dll.{remove}
use inference_sim.Nodes
use inference_sim.Nodes.{no_nodes, new_node, push_back}
use inference_sim.CpuTier.Defs.{
  OffloadCpuTier, new_offload_cpu_tier, unlink, touch, evict, evict_rounds, add_ready, store,
}
use inference_sim.CpuTier.Inv.{
  TierInv, idle, locked_off, set_ref_ne, touch-TierInv, add_ready-TierInv,
}
use inference_sim.CpuTier.Steps.{IsWithout, KeepsLocked, evict_rounds-Evicted}

entries-touch : (t : OffloadCpuTier) (n : ℕ) → (touch t n).nodes.entries ≡ t.nodes.entries
unfolding touch unlink push_back
entries-touch t n = refl

refs-touch : (t : OffloadCpuTier) (n : ℕ) → (touch t n).ref_cnt ≡ t.ref_cnt
unfolding touch
refs-touch t n = refl

capacity-add_ready : (t : OffloadCpuTier) (k : String) → (add_ready t k).capacity ≡ t.capacity
unfolding add_ready
capacity-add_ready t k = refl

-- The branches of store.
module _ (t : OffloadCpuTier) (key : String) where
  store-known :
      (n : ℕ)
      → lookup string_discrete key t.nodes.entries ≡ some n
      → store t key ≡ (if is_zero (t.ref_cnt n) then touch t n else t, true)
  unfolding store
  store-known n e = rw (e, store) refl

  store-room :
      lookup string_discrete key t.nodes.entries ≡ none
      → ltb_ℤ t.used (pos t.capacity) ≡ true
      → store t key ≡ (add_ready t key, true)
  unfolding store
  store-room e room = rw (e, store) (rw room refl)

  store-full :
      lookup string_discrete key t.nodes.entries ≡ none
      → ltb_ℤ t.used (pos t.capacity) ≡ false
      → store t key ≡ (
          if (evict_rounds 1 t).1 == 0
          then ((evict_rounds 1 t).0, false)
          else (add_ready (evict_rounds 1 t).0 key, true))
  unfolding store evict
  store-full e full = rw (e, store) (rw full refl)

-- How many blocks make room for one more.
abbrev pub store_victims : OffloadCpuTier → ℕ
store_victims t = if ltb (length t.nodes.entries) t.capacity then 0 else 1

-- A new block, ready and idle, stands last, and exactly the first blocks of the list have gone.
pub record Placed (t : OffloadCpuTier) (l : List ℕ) (key : String) (out : OffloadCpuTier × Bool)
    : Type 0 where
  pub told : out.1 ≡ true
  pub inv : TierInv out.0 (drop (store_victims t) l ++ t.nodes.allocated ∷ [])
  pub here : lookup string_discrete key out.0.nodes.entries ≡ some t.nodes.allocated
  pub others : (k : String) → k ≢ key → IsWithout t (take (store_victims t) l) out.0 k
  pub refs : (m : ℕ) → m ≢ t.nodes.allocated → out.0.ref_cnt m ≡ t.ref_cnt m
  pub same_capacity : out.0.capacity ≡ t.capacity

-- What a call of store may leave.
pub data Stored (t : OffloadCpuTier) (l : List ℕ) (key : String) (out : OffloadCpuTier × Bool)
    : Type 0 where
  refreshed :
      (n : ℕ)
      → lookup string_discrete key t.nodes.entries ≡ some n
      → is_zero (t.ref_cnt n) ≡ true
      → out.1 ≡ true
      → out.0.nodes.entries ≡ t.nodes.entries
      → out.0.ref_cnt ≡ t.ref_cnt
      → TierInv out.0 (remove n l ++ n ∷ [])
      → Stored t l key out
  in_use :
      (n : ℕ)
      → lookup string_discrete key t.nodes.entries ≡ some n
      → is_zero (t.ref_cnt n) ≡ false
      → out ≡ (t, true)
      → Stored t l key out
  no_victim :
      lookup string_discrete key t.nodes.entries ≡ none
      → length t.nodes.entries ≡ t.capacity
      → length l ≡ 0
      → out ≡ (t, false)
      → Stored t l key out
  placed :
      lookup string_discrete key t.nodes.entries ≡ none
      → (length t.nodes.entries < t.capacity) ⊎ (0 < length l)
      → Placed t l key out
      → Stored t l key out

room_left : (a b : ℕ) → ltb_ℤ (pos a) (pos b) ≡ true → a < b
room_left a b h = ground arith

none_left : (a b : ℕ) → ltb_ℤ (pos a) (pos b) ≡ false → b ≤ a
none_left a b h = ground arith

-- The lookups of a tier with a new block.
add_ready-here :
    (t : OffloadCpuTier) (key : String)
    → lookup string_discrete key (add_ready t key).nodes.entries ≡ some t.nodes.allocated
unfolding add_ready new_node push_back
add_ready-here t key = lookup-insert_self string_discrete key t.nodes.allocated t.nodes.entries

add_ready-others :
    (t : OffloadCpuTier) (key k : String)
    → k ≢ key
    → lookup string_discrete k (add_ready t key).nodes.entries
      ≡ lookup string_discrete k t.nodes.entries
unfolding add_ready new_node push_back
add_ready-others t key k h =
    lookup-insert_ne string_discrete key k t.nodes.allocated t.nodes.entries h

add_ready-refs :
    (t : OffloadCpuTier) (key : String) (m : ℕ)
    → m ≢ t.nodes.allocated
    → (add_ready t key).ref_cnt m ≡ t.ref_cnt m
unfolding add_ready
add_ready-refs t key m h = set_ref_ne t.ref_cnt t.nodes.allocated m (pos 0) h

module _ (t : OffloadCpuTier) (l : List ℕ) (key : String) (v : TierInv t l)
    (e : lookup string_discrete key t.nodes.entries ≡ none) where
  -- The new block after as many evictions as it takes.
  new_after :
      (u : OffloadCpuTier) (c : ℕ)
      → store_victims t ≡ c
      → TierInv u (drop c l)
      → lookup string_discrete key u.nodes.entries ≡ none
      → length u.nodes.entries < u.capacity
      → u.nodes.allocated ≡ t.nodes.allocated
      → u.ref_cnt ≡ t.ref_cnt
      → u.capacity ≡ t.capacity
      → ((k : String) → IsWithout t (take c l) u k)
      → Placed t l key (add_ready u key, true)
  new_after u c victims inv absent room same refs cap rest = record {
    told = refl;
    inv =
        subst (λ a. TierInv (add_ready u key) (drop (store_victims t) l ++ a ∷ [])) same
          (subst (λ n. TierInv (add_ready u key) (drop n l ++ u.nodes.allocated ∷ [])) (sym victims)
            (add_ready-TierInv u (drop c l) inv key absent room));
    here = add_ready-here u key ∙ ap some same;
    others = λ k h m. (
      λ q.
          subst
            (λ n. (lookup string_discrete k t.nodes.entries ≡ some m) × (count m (take n l) ≡ 0))
            (sym victims) ((rest k m).0 (sym (add_ready-others u key k h) ∙ q)),
      λ q.
          add_ready-others u key k h
          ∙ (rest k m).1 (q.0, subst (λ n. count m (take n l) ≡ 0) victims q.1),
    );
    refs = λ m h. add_ready-refs u key m (λ p. h (p ∙ same)) ∙ ap (λ (r : ℕ → ℤ). r m) refs;
    same_capacity = capacity-add_ready u key ∙ cap;
  }

  store-Placed_room : ltb_ℤ t.used (pos t.capacity) ≡ true → Stored t l key (store t key)
  unfolding count
  store-Placed_room room =
      let lt = room_left _ _ (rw v.all_used at room) in
      rw (store-room t key e room) (
        placed e (inl lt)
          (new_after t 0 (ground arith) v e lt refl refl refl (λ k m. (λ h. (h, refl), λ h. h.0))))

  store-Placed_full : ltb_ℤ t.used (pos t.capacity) ≡ false → Stored t l key (store t key)
  store-Placed_full full =
      let at_most = none_left _ _ (rw v.all_used at full) in
      let ev = evict_rounds-Evicted 1 t l v in
      let out = evict_rounds 1 t in
      rw (store-full t key e full) (elim (Bool-cases (out.1 == 0)) [
        | inl nothing ↦
            let zero_gone : out.1 ≡ 0 = ground arith in
            rw nothing (
              no_victim e (omega (arith, v.bounded, at_most)) (omega (arith, ev.counted, zero_gone))
                (ap (λ (x : OffloadCpuTier). (x, false)) (ev.untouched zero_gone)))
        | inr gone ↦
            let some_gone : 0 < out.1 = ground arith in
            rw gone (
              placed e (inr (omega (arith, ev.counted))) (
                new_after out.0 out.1 (one_victim out.1 at_most some_gone ev.counted) ev.inv
                  (ev.absent key e) (omega (arith, ev.fewer, ev.same_capacity, v.bounded))
                  ev.same_allocated ev.same_refs ev.same_capacity ev.rest))
      ])
    where
      one_victim :
          (c : ℕ)
          → t.capacity ≤ length t.nodes.entries
          → 0 < c
          → c ≡ min 1 (length l)
          → store_victims t ≡ c
      one_victim c h p q = ground arith

  -- The new block has a node of its own.
  allocated_later :
      (k : String) (n : ℕ)
      → lookup string_discrete k t.nodes.entries ≡ some n
      → n ≢ t.nodes.allocated
  allocated_later k n q p = omega (arith, (v.tracked.named k n q).1)

Stored-KeepsLocked :
    (t : OffloadCpuTier) (l : List ℕ) (key : String)
    → TierInv t l
    → (out : OffloadCpuTier × Bool) → Stored t l key out
    → KeepsLocked t out.0
Stored-KeepsLocked t l key v out (refreshed n e ready done same refs inv) k m at locked =
    (ap (lookup string_discrete k) same ∙ at, ap (λ (r : ℕ → ℤ). r m) refs)
Stored-KeepsLocked t l key v out (in_use n e busy q) k m at locked = rw q (at, refl)
Stored-KeepsLocked t l key v out (no_victim e full none_idle q) k m at locked = rw q (at, refl)
Stored-KeepsLocked t l key v out (placed e room p) k m at locked = (
  (p.others k (λ q. cc (subst (λ j. lookup string_discrete j t.nodes.entries ≡ some m) q at, e))
        m).1
      (at, locked_off t l m (store_victims t) v locked),
  p.refs m (allocated_later t l key v e k m at),
)

store_cases :
    (t : OffloadCpuTier) (l : List ℕ) (key : String) → TierInv t l → Stored t l key (store t key)
store_cases t l key v = elim (Option-cases (lookup string_discrete key t.nodes.entries)) [
  | inr (n, e) ↦ rw (store-known t key n e) (elim (Bool-cases (is_zero (t.ref_cnt n))) [
    | inl ready ↦ rw ready (
        refreshed n e ready refl (entries-touch t n) (refs-touch t n)
          (touch-TierInv t l v n (v.tracked.known key n e ready)))
    | inr busy ↦ rw busy (in_use n e busy refl)
  ])
  | inl e ↦ elim (Bool-cases (ltb_ℤ t.used (pos t.capacity))) [
    | inl room ↦ store-Placed_room t l key v e room
    | inr full ↦ store-Placed_full t l key v e full
  ]
]

Stored-TierInv :
    (t : OffloadCpuTier) (l : List ℕ) (key : String)
    → TierInv t l
    → (out : OffloadCpuTier × Bool) → Stored t l key out
    → (l1 : List ℕ) × TierInv out.0 l1
Stored-TierInv t l key v out (refreshed n e ready done same refs inv) = (_, inv)
Stored-TierInv t l key v out (in_use n e busy q) = (l, rw q v)
Stored-TierInv t l key v out (no_victim e full none_idle q) = (l, rw q v)
Stored-TierInv t l key v out (placed e room p) = (_, p.inv)

-- store takes one of four ways. A present block that is idle moves to the end of the list, and
-- the entries and the counts stay; where the present block is not idle nothing changes. Where the tier is full and no block is idle, store
-- refuses and the tier is as it was. Otherwise the key gets a new block, ready and idle at the end of
-- the list; where the tier was full exactly the first block of the list has gone, and no block where
-- it was not. The invariant holds after each, and in all of them the blocks that are not idle keep
-- their entries and their counts.
pub store-Stored :
    (t : OffloadCpuTier) (l : List ℕ) (key : String)
    → TierInv t l
    → Stored t l key (store t key)
      × ((l1 : List ℕ) × TierInv (store t key).0 l1)
      × KeepsLocked t (store t key).0
store-Stored t l key v =
    let out = store_cases t l key v in
    (
      out,
      Stored-TierInv t l key v (store t key) out,
      Stored-KeepsLocked t l key v (store t key) out,
    )

-- A new tier of a positive capacity satisfies the invariant with an empty list.
pub new_offload_cpu_tier-TierInv :
    (n : ℕ)
    → (t : OffloadCpuTier) × (new_offload_cpu_tier (pos (suc n)) ≡ ok t)
      × TierInv t []
      × (t.capacity ≡ suc n)
unfolding new_offload_cpu_tier no_nodes
new_offload_cpu_tier-TierInv n = (
  _,
  refl,
  record {
    tracked = Nodes.no_nodes-Tracks (idle (λ m. pos 0));
    all_used = refl;
    all_idle = refl;
    bounded = omega arith;
    positive = omega arith;
  },
  refl,
)
