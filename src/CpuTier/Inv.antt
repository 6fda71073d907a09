-- ===== src/CpuTier/Inv.antt =====
-- The invariant of the tier, and how moving, removing and adding one block keep it.
use inference_sim.Prelude.{
  ℕ, suc, ◌+◌, ◌≤◌, ◌<◌, ◌≡◌, ◌≢◌, refl, sym, ◌∙◌, ap, subst, String, List, [], ◌∷◌, ◌++◌, none,
  Bool, ℤ, pos, negsuc, incr, decr, is_zero, arith, length, count, drop, take, false, count-append,
  take-append-drop, lookup, string_discrete, if_pos, if_neg, ℕ_discrete, length-insert_new,
  length-erase, lookup-erase_ne, lookup-insert_ne,
}
use native.Mathlib.Decide.{dec_lt}
use inference_sim.Dll.{remove}
use inference_sim.Nodes
use inference_sim.Nodes.{Nodes, Tracks, new_node, forget, push_back, detach}
use inference_sim.CpuTier.Defs.{
  OffloadCpuTier, touch, unlink, evict_head, add_ready, add_pending, set_ref,
}
use inference_sim.CpuTier.Unlinking.{unlink-detach}

-- A block that is ready and idle: it may be evicted, and it stands on the LRU list.
abbrev pub idle : (ℕ → ℤ) → ℕ → Bool
idle refs n = is_zero (refs n)

-- The LRU list holds exactly the idle blocks, the counters are the sizes of the map and of the list,
-- and the map is no larger than the capacity.
pub record TierInv (t : OffloadCpuTier) (l : List ℕ) : Type 0 where
  pub tracked : Tracks (idle t.ref_cnt) t.nodes l
  pub all_used : t.used ≡ pos (length t.nodes.entries)
  pub all_idle : t.evictable ≡ pos (length l)
  pub bounded : length t.nodes.entries ≤ t.capacity
  pub positive : 0 < t.capacity

-- A block that is not idle is not on the list.
pub locked_off :
    (t : OffloadCpuTier) (l : List ℕ) (n c : ℕ)
    → TierInv t l
    → is_zero (t.ref_cnt n) ≡ false
    → count n (take c l) ≡ 0
locked_off t l n c v h = elim (dec_lt 0 (count n l)) [
  | yes p ↦ cc ((v.tracked.linked n p).1, h)
  | no p ↦ omega (arith, ap (count n) (take-append-drop c l), count-append n (take c l) (drop c l))
]

pub length-snoc : (n : ℕ) (l : List ℕ) → length (l ++ n ∷ []) ≡ suc (length l)
length-snoc n [] = omega arith
length-snoc n (x ∷ l) = omega (arith, length-snoc n l)

pub set_ref_self : (refs : ℕ → ℤ) (n : ℕ) (r : ℤ) → set_ref refs n r n ≡ r
set_ref_self refs n r = if_pos (ℕ_discrete n n) refl r (refs n)

pub set_ref_ne : (refs : ℕ → ℤ) (n m : ℕ) (r : ℤ) → m ≢ n → set_ref refs n r m ≡ refs m
set_ref_ne refs n m r h = if_neg (ℕ_discrete m n) h r (refs m)

module _ (t : OffloadCpuTier) (l : List ℕ) (v : TierInv t l) where
  pub touch-TierInv : (n : ℕ) → 0 < count n l → TierInv (touch t n) (remove n l ++ n ∷ [])
  unfolding touch detach push_back
  touch-TierInv n h =
      subst (λ x. TierInv (record t { nodes = push_back x n }) (remove n l ++ n ∷ []))
        (sym (unlink-detach t.nodes n l h v.tracked.listed)) (moved n h)
    where
      moved :
          (n : ℕ)
          → 0 < count n l
          → TierInv (record t { nodes = push_back (detach t.nodes n) n }) (remove n l ++ n ∷ [])
      moved n h = record {
        tracked = Nodes.move_back-Tracks (idle t.ref_cnt) t.nodes l v.tracked n h;
        all_used = v.all_used;
        all_idle =
            v.all_idle
            ∙ ap pos (omega (arith, Nodes.length-remove_one n l h, length-snoc n (remove n l)));
        bounded = v.bounded;
        positive = v.positive;
      }

  pub evict_head-TierInv :
      (n : ℕ)
      → 0 < count n l
      → TierInv (evict_head t n) (remove n l)
        × (suc (length (evict_head t n).nodes.entries) ≡ length t.nodes.entries)
        × ((k : String)
            → lookup string_discrete k t.nodes.entries ≡ none
            → lookup string_discrete k (evict_head t n).nodes.entries ≡ none)
  unfolding evict_head unlink forget detach
  evict_head-TierInv n h =
      let at = (v.tracked.linked n h).0 in
      let gone = length-erase string_discrete (t.nodes.key_of n) n t.nodes.entries at in
      (
        subst
            (λ x.
              TierInv
                (record t {
                  nodes = forget x (t.nodes.key_of n);
                  used = decr t.used;
                  evictable = decr t.evictable;
                  evictions = t.evictions + 1;
                })
                (remove n l))
            (sym (unlink-detach t.nodes n l h v.tracked.listed))
            (record {
              tracked = Nodes.forget-Tracks (idle t.ref_cnt) t.nodes l v.tracked n h;
              all_used = ap decr (v.all_used ∙ ap pos gone);
              all_idle = ap decr (v.all_idle ∙ ap pos (Nodes.length-remove_one n l h));
              bounded = omega (arith, v.bounded, gone);
              positive = v.positive;
            }),
        sym gone,
        λ k e.
            lookup-erase_ne string_discrete (t.nodes.key_of n) k t.nodes.entries
              (λ p. cc (subst (λ j. lookup string_discrete j t.nodes.entries ≡ none) p e, at))
            ∙ e,
      )

  pub add_ready-TierInv :
      (key : String)
      → lookup string_discrete key t.nodes.entries ≡ none
      → length t.nodes.entries < t.capacity
      → TierInv (add_ready t key) (l ++ t.nodes.allocated ∷ [])
  unfolding add_ready new_node push_back
  add_ready-TierInv key e room =
      let a = t.nodes.allocated in
      let grown = length-insert_new string_discrete key a t.nodes.entries e in
      record {
        tracked =
            Nodes.new_back-Tracks (idle t.ref_cnt) t.nodes l v.tracked key
              (idle (set_ref t.ref_cnt a (pos 0))) e
              (λ m h. ap is_zero (set_ref_ne t.ref_cnt a m (pos 0) h))
              (ap is_zero (set_ref_self t.ref_cnt a (pos 0)));
        all_used = ap incr v.all_used ∙ ap pos (sym grown);
        all_idle = ap incr v.all_idle ∙ ap pos (sym (length-snoc a l));
        bounded = omega (arith, grown);
        positive = v.positive;
      }

  pub add_pending-TierInv :
      (key : String)
      → lookup string_discrete key t.nodes.entries ≡ none
      → length t.nodes.entries < t.capacity
      → TierInv (add_pending t key) l
        × (length (add_pending t key).nodes.entries ≡ suc (length t.nodes.entries))
        × ((k : String)
            → k ≢ key
            → lookup string_discrete k (add_pending t key).nodes.entries
              ≡ lookup string_discrete k t.nodes.entries)
  unfolding add_pending new_node
  add_pending-TierInv key e room =
      let a = t.nodes.allocated in
      let grown = length-insert_new string_discrete key a t.nodes.entries e in
      (
        record {
          tracked =
              Nodes.new_off-Tracks (idle t.ref_cnt) t.nodes l v.tracked key
                (idle (set_ref t.ref_cnt a (negsuc 0))) e
                (λ m h. ap is_zero (set_ref_ne t.ref_cnt a m (negsuc 0) h))
                (ap is_zero (set_ref_self t.ref_cnt a (negsuc 0)));
          all_used = ap incr v.all_used ∙ ap pos (sym grown);
          all_idle = v.all_idle;
          bounded = omega (arith, grown);
          positive = v.positive;
        },
        grown,
        λ k h. lookup-insert_ne string_discrete key k a t.nodes.entries h,
      )
