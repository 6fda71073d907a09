-- ===== src/CpuTier/Promoting.antt =====
-- prepareStore.
use inference_sim.Prelude.{
  ℕ, suc, ◌+◌, ◌-◌, ◌≤◌, ◌<◌, ◌≡◌, refl, sym, ◌∙◌, ap, subst, String, List, [], ◌∷◌, none, true,
  false, All, drop, take, count, ltb→lt, ltb_false→le, ◌⊎◌, ℤ, pos, is_zero, ltb_ℤ, pos_part, ◌+ℤ◌,
  ◌-ℤ◌, ◌||◌, ltb, if◌then◌else◌, arith, length, lookup, string_discrete, Bool-cases, inl, inr,
}
use inference_sim.Nodes.{holds}
use inference_sim.CpuTier.Defs.{
  OffloadCpuTier, evict, evict_rounds, fresh_keys, add_all_pending, prepare_store,
}
use inference_sim.CpuTier.Inv.{TierInv, locked_off}
use inference_sim.CpuTier.Steps.{IsWithout, KeepsLocked, evict_rounds-Evicted}
use inference_sim.CpuTier.Pending.{
  AllAbsent, fresh_absent, fresh_NoRepeat, add_all_pending-TierInv, add_all_pending-frame,
  refs-add_all_pending, add_all_pending-IsPending, absent_mono, capacity-add_all_pending,
  present_not_fresh, fresh_exactly, NoRepeat, IsPending,
}

-- The arithmetic of the gate, for n blocks in a tier of c, m of them idle, and k new ones.
gate : (c n m k : ℕ) → n ≤ c → ltb_ℤ ((pos c -ℤ pos n) +ℤ pos m) (pos k) ≡ ltb (c + m) (k + n)
unfolding ◌-ℤ◌ ◌+ℤ◌
gate c n m k h = ground arith

more :
    (c n k : ℕ)
    → n ≤ c
    → ltb_ℤ (pos 0) (pos k -ℤ (pos c -ℤ pos n)) ≡ true
    → (pos_part (pos k -ℤ (pos c -ℤ pos n)) + c ≡ k + n) × (c ≤ k + n)
unfolding ◌-ℤ◌
more c n k h e = ground arith

enough : (c n k : ℕ) → n ≤ c → ltb_ℤ (pos 0) (pos k -ℤ (pos c -ℤ pos n)) ≡ false → k + n ≤ c
unfolding ◌-ℤ◌
enough c n k h e = ground arith

-- The state between the evictions and the new blocks, for a value of the counter `used`.
abbrev roomy : OffloadCpuTier → ℕ → ℤ → OffloadCpuTier
roomy t k used =
    let to_evict = pos k -ℤ (pos t.capacity -ℤ used) in
    if ltb_ℤ (pos 0) to_evict then (evict t to_evict).0 else t

-- How many blocks make room for k more.
abbrev pub promotion_victims : OffloadCpuTier → ℕ → ℕ
promotion_victims t k = k + length t.nodes.entries - t.capacity

record MadeRoom (t : OffloadCpuTier) (l : List ℕ) (k : ℕ) (t1 : OffloadCpuTier) : Type 0 where
  inv : TierInv t1 (drop (promotion_victims t k) l)
  others : (j : String) → IsWithout t (take (promotion_victims t k) l) t1 j
  same_refs : t1.ref_cnt ≡ t.ref_cnt
  same_allocated : t1.nodes.allocated ≡ t.nodes.allocated
  space : length t1.nodes.entries + k ≤ t1.capacity
  same_capacity : t1.capacity ≡ t.capacity
  absent :
      (j : String)
      → lookup string_discrete j t.nodes.entries ≡ none
      → lookup string_discrete j t1.nodes.entries ≡ none

made_room :
    (t : OffloadCpuTier) (l : List ℕ) (k : ℕ)
    → TierInv t l
    → k + length t.nodes.entries ≤ t.capacity + length l
    → MadeRoom t l k (roomy t k (pos (length t.nodes.entries)))
unfolding evict count
made_room t l k v fits =
    let n = length t.nodes.entries in
    elim (Bool-cases (ltb_ℤ (pos 0) (pos k -ℤ (pos t.capacity -ℤ pos n)))) [
      | inl some_go ↦
          let (exact, _) = more t.capacity n k v.bounded some_go in
          let rounds = pos_part (pos k -ℤ (pos t.capacity -ℤ pos n)) in
          let ev = evict_rounds-Evicted rounds t l v in
          let gone : (evict_rounds rounds t).1 ≡ promotion_victims t k =
            omega (arith, exact, ev.counted, fits) in
          rw some_go (record {
            inv = subst (λ c. TierInv (evict_rounds rounds t).0 (drop c l)) gone ev.inv;
            others = λ j.
                subst (λ c. IsWithout t (take c l) (evict_rounds rounds t).0 j) gone (ev.rest j);
            same_refs = ev.same_refs;
            same_allocated = ev.same_allocated;
            space = omega (arith, exact, ev.counted, ev.fewer, ev.same_capacity, fits);
            same_capacity = ev.same_capacity;
            absent = ev.absent;
          })
      | inr none_go ↦
          let gone : 0 ≡ promotion_victims t k =
            omega (arith, enough t.capacity n k v.bounded none_go) in
          rw none_go (record {
            inv = subst (λ c. TierInv t (drop c l)) gone v;
            others =
                λ j. subst (λ c. IsWithout t (take c l) t j) gone (λ m. (λ h. (h, refl), λ h. h.0));
            same_refs = refl;
            same_allocated = refl;
            space = omega (arith, enough t.capacity n k v.bounded none_go);
            same_capacity = refl;
            absent = λ j e. e;
          })
    ]

-- prepareStore for given values of the counters.
prepared : OffloadCpuTier → List String → ℤ → ℤ → OffloadCpuTier × ℕ
prepared t fresh used evictable =
    if is_zero (pos (length fresh))
      || ltb_ℤ ((pos t.capacity -ℤ used) +ℤ evictable) (pos (length fresh))
    then (t, 0)
    else (add_all_pending (roomy t (length fresh) used) fresh, length fresh)

prepare_store-prepared :
    (t : OffloadCpuTier) (keys : List String)
    → prepare_store t keys ≡ prepared t (fresh_keys t keys) t.used t.evictable
unfolding prepare_store prepared
prepare_store-prepared t keys = refl

-- All the keys have blocks that are being written, and exactly the first blocks of the list, as many
-- as do not fit, have gone.
pub record Granted (t : OffloadCpuTier) (l : List ℕ) (fresh : List String)
    (out : OffloadCpuTier × ℕ) : Type 0 where
  pub told : out.1 ≡ length fresh
  pub inv : TierInv out.0 (drop (promotion_victims t (length fresh)) l)
  pub pending : All (IsPending out.0) fresh
  pub others :
      (k : String)
      → holds k fresh ≡ false
      → IsWithout t (take (promotion_victims t (length fresh)) l) out.0 k
  pub refs : (m : ℕ) → m < t.nodes.allocated → out.0.ref_cnt m ≡ t.ref_cnt m
  pub same_capacity : out.0.capacity ≡ t.capacity

-- What a call of prepareStore leaves.
pub data Prepared (t : OffloadCpuTier) (l : List ℕ) (fresh : List String) (out : OffloadCpuTier × ℕ)
    : Type 0 where
  refused :
      (length fresh ≡ 0) ⊎ (t.capacity + length l < length fresh + length t.nodes.entries)
      → out ≡ (t, 0)
      → Prepared t l fresh out
  granted :
      0 < length fresh
      → length fresh + length t.nodes.entries ≤ t.capacity + length l
      → Granted t l fresh out
      → Prepared t l fresh out

pending_after :
    (t : OffloadCpuTier) (l : List ℕ) (fresh : List String) (t1 : OffloadCpuTier)
    → MadeRoom t l (length fresh) t1
    → NoRepeat fresh
    → AllAbsent t fresh
    → Granted t l fresh (add_all_pending t1 fresh, length fresh)
pending_after t l fresh t1 made d a = record {
  told = refl;
  inv =
      (add_all_pending-TierInv t1 _ fresh made.inv d (absent_mono t t1 fresh made.absent a)
        made.space).0;
  pending = add_all_pending-IsPending t1 fresh d;
  others = λ k h m. (
    λ q. (made.others k m).0 (sym (add_all_pending-frame t1 fresh k h) ∙ q),
    λ q. add_all_pending-frame t1 fresh k h ∙ (made.others k m).1 q,
  );
  refs = λ m h.
      refs-add_all_pending t1 fresh m (omega (arith, made.same_allocated))
      ∙ ap (λ (r : ℕ → ℤ). r m) made.same_refs;
  same_capacity = capacity-add_all_pending t1 fresh ∙ made.same_capacity;
}

prepared-Prepared :
    (t : OffloadCpuTier) (l : List ℕ) (fresh : List String)
    → TierInv t l
    → NoRepeat fresh
    → AllAbsent t fresh
    → Prepared t l fresh (prepared t fresh (pos (length t.nodes.entries)) (pos (length l)))
unfolding prepared
prepared-Prepared t l [] v d a = refused (inl refl) refl
prepared-Prepared t l (f ∷ fs) v d a =
    let k = suc (length fs) in
    let n = length t.nodes.entries in
    let test = gate t.capacity n (length l) k v.bounded in
    elim (Bool-cases (ltb (t.capacity + length l) (k + n))) [
      | inl over ↦ rw (test ∙ over) (refused (inr (ltb→lt _ _ over)) refl)
      | inr fits ↦ rw (test ∙ fits) (
          granted (omega arith) (ltb_false→le _ _ fits) (
            pending_after t l (f ∷ fs) (roomy t k (pos n))
              (made_room t l k v (ltb_false→le _ _ fits)) d a))
    ]

Prepared-TierInv :
    (t : OffloadCpuTier) (l : List ℕ) (fresh : List String)
    → TierInv t l
    → (out : OffloadCpuTier × ℕ) → Prepared t l fresh out
    → (l1 : List ℕ) × TierInv out.0 l1
Prepared-TierInv t l fresh v out (refused why q) = (l, rw q v)
Prepared-TierInv t l fresh v out (granted many fits g) = (_, g.inv)

Prepared-KeepsLocked :
    (t : OffloadCpuTier) (l : List ℕ) (fresh : List String)
    → TierInv t l
    → AllAbsent t fresh
    → (out : OffloadCpuTier × ℕ) → Prepared t l fresh out
    → KeepsLocked t out.0
Prepared-KeepsLocked t l fresh v a out (refused why q) k m at locked = rw q (at, refl)
Prepared-KeepsLocked t l fresh v a out (granted many fits g) k m at locked = (
  (g.others k (present_not_fresh k t m fresh a at) m).1
      (at, locked_off t l m (promotion_victims t (length fresh)) v locked),
  g.refs m (v.tracked.named k m at).1,
)

-- For distinct keys, where the fresh ones, those that the tier does not have, are none or do not fit
-- the free and the idle blocks together, prepareStore returns 0 and changes nothing. Otherwise it
-- returns their number, and each of them has a block that is being written; exactly as many blocks as
-- do not fit have gone, the first ones of the list. The invariant holds after either, and the blocks
-- that are not idle keep their entries and their counts.
pub prepare_store-Prepared :
    (t : OffloadCpuTier) (l : List ℕ) (keys : List String)
    → TierInv t l
    → NoRepeat keys
    → Prepared t l (fresh_keys t keys) (prepare_store t keys)
      × ((k : String)
          → lookup string_discrete k t.nodes.entries ≡ none
          → holds k (fresh_keys t keys) ≡ holds k keys)
      × ((l1 : List ℕ) × TierInv (prepare_store t keys).0 l1)
      × KeepsLocked t (prepare_store t keys).0
prepare_store-Prepared t l keys v d =
    let fresh = fresh_keys t keys in
    let a = fresh_absent t keys in
    let out : Prepared t l fresh (prepare_store t keys) =
      subst (Prepared t l fresh)
        (sym (
          prepare_store-prepared t keys
          ∙ ap (λ u. prepared t fresh u t.evictable) v.all_used
          ∙ ap (prepared t fresh (pos (length t.nodes.entries))) v.all_idle))
        (prepared-Prepared t l fresh v (fresh_NoRepeat t keys d) a) in
    (
      out,
      fresh_exactly t keys,
      Prepared-TierInv t l fresh v (prepare_store t keys) out,
      Prepared-KeepsLocked t l fresh v a (prepare_store t keys) out,
    )
