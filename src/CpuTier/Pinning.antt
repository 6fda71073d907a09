-- ===== src/CpuTier/Pinning.antt =====
-- completeStore, pin, unpin and touchKey.
use inference_sim.Prelude.{
  ℕ, zero, suc, ◌≡◌, refl, sym, ◌∙◌, ap, subst, String, List, [], ◌∷◌, ◌++◌, some, Bool, true,
  false, ℤ, pos, negsuc, incr, decr, is_zero, ltb_ℤ, eqb_ℤ, ℕ_discrete, arith, lookup,
  string_discrete, Option-cases, Bool-cases, inl, inr, length-erase,
}
use inference_sim.Dll.{remove}
use inference_sim.Nodes
use inference_sim.Nodes.{Nodes, forget, push_back, detach}
use inference_sim.CpuTier.Defs.{
  OffloadCpuTier, touch, unlink, complete_store, pin, unpin, touch_key, set_ref,
}
use inference_sim.CpuTier.Unlinking.{unlink-detach}
use inference_sim.CpuTier.Inv.{TierInv, idle, touch-TierInv, length-snoc, set_ref_self, set_ref_ne}

-- A tier that keeps the invariant with some list, and its capacity.
pub record Kept (t u : OffloadCpuTier) : Type 0 where
  pub nodes_of : List ℕ
  pub inv : TierInv u nodes_of
  pub same_capacity : u.capacity ≡ t.capacity

unchanged : (t : OffloadCpuTier) (l : List ℕ) → TierInv t l → Kept t t
unchanged t l v = record { nodes_of = l; inv = v; same_capacity = refl }

module _ (t : OffloadCpuTier) (l : List ℕ) (v : TierInv t l) (key : String) (n : ℕ)
    (at : lookup string_discrete key t.nodes.entries ≡ some n) where
  -- The block comes onto the list with no reference.
  released :
      (r : ℤ)
      → is_zero r ≡ true
      → is_zero (t.ref_cnt n) ≡ false
      → Kept t (record t {
        nodes = push_back t.nodes n;
        ref_cnt = set_ref t.ref_cnt n r;
        evictable = incr t.evictable;
      })
  unfolding push_back
  released r zero_now busy = record {
    nodes_of = l ++ n ∷ [];
    inv = record {
      tracked =
          Nodes.unpark-Tracks (idle t.ref_cnt) t.nodes l v.tracked key n
            (idle (set_ref t.ref_cnt n r)) at busy
            (ap is_zero (set_ref_self t.ref_cnt n r) ∙ zero_now)
            (λ m h. ap is_zero (set_ref_ne t.ref_cnt n m r h));
      all_used = v.all_used;
      all_idle = ap incr v.all_idle ∙ ap pos (sym (length-snoc n l));
      bounded = v.bounded;
      positive = v.positive;
    };
    same_capacity = refl;
  }

  -- The idle block leaves the list with a reference.
  locked :
      (r : ℤ)
      → is_zero r ≡ false
      → is_zero (t.ref_cnt n) ≡ true
      → Kept t (record t {
        nodes = unlink t.nodes n;
        ref_cnt = set_ref t.ref_cnt n r;
        evictable = decr t.evictable;
      })
  unfolding detach
  locked r busy ready =
      let h = v.tracked.known key n at ready in
      subst
        (λ x.
          Kept t
            (record t { nodes = x; ref_cnt = set_ref t.ref_cnt n r; evictable = decr t.evictable }))
        (sym (unlink-detach t.nodes n l h v.tracked.listed))
        (record {
          nodes_of = remove n l;
          inv = record {
            tracked =
                Nodes.park-Tracks (idle t.ref_cnt) t.nodes l v.tracked n
                  (idle (set_ref t.ref_cnt n r)) h (ap is_zero (set_ref_self t.ref_cnt n r) ∙ busy)
                  (λ m p. ap is_zero (set_ref_ne t.ref_cnt n m r p));
            all_used = v.all_used;
            all_idle = ap decr (v.all_idle ∙ ap pos (Nodes.length-remove_one n l h));
            bounded = v.bounded;
            positive = v.positive;
          };
          same_capacity = refl;
        })

  -- A block that is not idle changes its count, and stays off the list.
  recounted :
      (r : ℤ)
      → is_zero r ≡ false
      → is_zero (t.ref_cnt n) ≡ false
      → Kept t (record t { ref_cnt = set_ref t.ref_cnt n r })
  recounted r busy was =
      let same_at : (m : ℕ) → m ≡ n → idle (set_ref t.ref_cnt n r) m ≡ idle t.ref_cnt m = λ m p.
        subst (λ i. idle (set_ref t.ref_cnt n r) i ≡ idle t.ref_cnt i) (sym p)
          (ap is_zero (set_ref_self t.ref_cnt n r) ∙ busy ∙ sym was) in
      record {
        nodes_of = l;
        inv = record {
          tracked =
              Nodes.restate-Tracks (idle t.ref_cnt) t.nodes l v.tracked
                (idle (set_ref t.ref_cnt n r))
                (λ m. elim (ℕ_discrete m n) [
                  | yes p ↦ same_at m p
                  | no p ↦ ap is_zero (set_ref_ne t.ref_cnt n m r p)
                ]);
          all_used = v.all_used;
          all_idle = v.all_idle;
          bounded = v.bounded;
          positive = v.positive;
        };
        same_capacity = refl;
      }

  -- A block off the list leaves the map.
  dropped :
      is_zero (t.ref_cnt n) ≡ false
      → Kept t (record t { nodes = forget t.nodes key; used = decr t.used })
  unfolding forget
  dropped busy =
      let gone = length-erase string_discrete key n t.nodes.entries at in
      record {
        nodes_of = l;
        inv = record {
          tracked = Nodes.forget_off-Tracks (idle t.ref_cnt) t.nodes l v.tracked key n at busy;
          all_used = ap decr (v.all_used ∙ ap pos gone);
          all_idle = v.all_idle;
          bounded = omega (arith, v.bounded, gone);
          positive = v.positive;
        };
        same_capacity = refl;
      }

pending_busy : (r : ℤ) → eqb_ℤ r (negsuc 0) ≡ true → is_zero r ≡ false
pending_busy (pos n) e = cc
pending_busy (negsuc n) e = refl

incr_busy : (r : ℤ) → ltb_ℤ r (pos 0) ≡ false → is_zero (incr r) ≡ false
incr_busy (pos n) e = refl
incr_busy (negsuc n) e = ground arith

positive_busy : (r : ℤ) → ltb_ℤ (pos 0) r ≡ true → is_zero r ≡ false
positive_busy (pos zero) e = cc
positive_busy (pos (suc n)) e = refl
positive_busy (negsuc n) e = refl

complete_store-Kept :
    (t : OffloadCpuTier) (l : List ℕ) (key : String) (done : Bool)
    → TierInv t l
    → Kept t (complete_store t key done)
unfolding complete_store
complete_store-Kept t l key done v =
    elim (Option-cases (lookup string_discrete key t.nodes.entries)) [
      | inl e ↦ rw (e, complete_store) (unchanged t l v)
      | inr (n, e) ↦
          rw (e, complete_store)
            (elim (Bool-cases (eqb_ℤ (t.ref_cnt n) (negsuc 0))) [
              | inl waits ↦
                  let busy = pending_busy (t.ref_cnt n) waits in
                  rw waits (elim (Bool-cases done) [
                    | inl good ↦ rw good (released t l v key n e (pos 0) refl busy)
                    | inr bad ↦ rw bad (dropped t l v key n e busy)
                  ])
              | inr other ↦ rw other (unchanged t l v)
            ])
    ]

pin-Kept : (t : OffloadCpuTier) (l : List ℕ) (key : String) → TierInv t l → Kept t (pin t key)
unfolding pin
pin-Kept t l key v = elim (Option-cases (lookup string_discrete key t.nodes.entries)) [
  | inl e ↦ rw (e, pin) (unchanged t l v)
  | inr (n, e) ↦
      rw (e, pin)
        (elim (Bool-cases (ltb_ℤ (t.ref_cnt n) (pos 0))) [
          | inl waits ↦ rw waits (unchanged t l v)
          | inr fine ↦
              let busy = incr_busy (t.ref_cnt n) fine in
              rw fine (elim (Bool-cases (is_zero (t.ref_cnt n))) [
                | inl ready ↦ rw ready (locked t l v key n e (incr (t.ref_cnt n)) busy ready)
                | inr was ↦ rw was (recounted t l v key n e (incr (t.ref_cnt n)) busy was)
              ])
        ])
]

unpin-Kept : (t : OffloadCpuTier) (l : List ℕ) (key : String) → TierInv t l → Kept t (unpin t key)
unfolding unpin
unpin-Kept t l key v = elim (Option-cases (lookup string_discrete key t.nodes.entries)) [
  | inl e ↦ rw (e, unpin) (unchanged t l v)
  | inr (n, e) ↦
      rw (e, unpin)
        (elim (Bool-cases (ltb_ℤ (pos 0) (t.ref_cnt n))) [
          | inr free ↦ rw free (unchanged t l v)
          | inl in_use ↦
              let was = positive_busy (t.ref_cnt n) in_use in
              rw in_use (elim (Bool-cases (is_zero (decr (t.ref_cnt n)))) [
                | inl last ↦ rw last (released t l v key n e (decr (t.ref_cnt n)) last was)
                | inr more ↦ rw more (recounted t l v key n e (decr (t.ref_cnt n)) more was)
              ])
        ])
]

capacity-touch : (t : OffloadCpuTier) (n : ℕ) → (touch t n).capacity ≡ t.capacity
unfolding touch
capacity-touch t n = refl

touch_key-Kept :
    (t : OffloadCpuTier) (l : List ℕ) (key : String) → TierInv t l → Kept t (touch_key t key)
unfolding touch_key
touch_key-Kept t l key v = elim (Option-cases (lookup string_discrete key t.nodes.entries)) [
  | inl e ↦ rw (e, touch_key) (unchanged t l v)
  | inr (n, e) ↦
      rw (e, touch_key)
        (elim (Bool-cases (is_zero (t.ref_cnt n))) [
          | inl ready ↦ rw ready (record {
            nodes_of = _;
            inv = touch-TierInv t l v n (v.tracked.known key n e ready);
            same_capacity = capacity-touch t n;
          })
          | inr busy ↦ rw busy (unchanged t l v)
        ])
]

-- completeStore, pin, unpin and touchKey keep the invariant on every branch, whether the key is there
-- or not: the list stays exactly the idle blocks, and the counters their number and the map's.
pub pinning-Kept :
    (t : OffloadCpuTier) (l : List ℕ) (key : String) (done : Bool)
    → TierInv t l
    → Kept t (complete_store t key done)
      × Kept t (pin t key)
      × Kept t (unpin t key)
      × Kept t (touch_key t key)
pinning-Kept t l key done v = (
  complete_store-Kept t l key done v,
  pin-Kept t l key v,
  unpin-Kept t l key v,
  touch_key-Kept t l key v,
)
