-- ===== src/Kv/Construction.antt =====
-- NewKVCacheState: the bad arguments, and the cache that it builds for good ones.
use inference_sim.Prelude.{
  ℕ, zero, suc, ◌+◌, ◌<◌, ◌≡◌, refl, sym, subst, List, [], ◌∷◌, ◌++◌, arith, count, count-append,
  count_zero→NotIn, length, length-append, ok, ltb, if◌then◌else◌, ◌==◌, pos, false,
}
use inference_sim.Dll
use inference_sim.Dll.{Represents}
use inference_sim.Kv.State.{Cache}
use inference_sim.Kv.FreeList.{
  append_to_free_list, fill_free_list, new_kv_cache_state, blank, empty_block,
}
use inference_sim.Kv.Holds.{Holds}
use inference_sim.Kv.Inv.{Inv, refs}
use inference_sim.Kv.Fresh.{Sized}

-- The free list while the loop of the constructor runs: the blocks below i, in no one's hands.
record Filling (i total size : ℕ) (s : Cache) : Type 0 where
  ids : List ℕ
  listed : Represents s.free ids
  counted : s.free_block_cnt ≡ pos i
  len : length ids ≡ i
  below : (j : ℕ) → count j ids ≡ (if ltb j i then 1 else 0)
  blocks : (j : ℕ) → s.blocks j ≡ empty_block
  total_is : s.total_blocks ≡ total
  size_is : s.block_size ≡ size
  map_is : s.request_map ≡ []

below_step :
    (i j : ℕ) (ids : List ℕ)
    → count j ids ≡ (if ltb j i then 1 else 0)
    → count j (ids ++ i ∷ []) ≡ (if ltb j (suc i) then 1 else 0)
unfolding count
below_step i j ids h = rw (count-append j ids (i ∷ [])) (ground arith)

append-Filling :
    (i total size : ℕ) (s : Cache)
    → Filling i total size s
    → Filling (suc i) total size (append_to_free_list s i)
unfolding append_to_free_list count
append-Filling i total size s f = record {
  ids = f.ids ++ i ∷ [];
  listed =
      Dll.append_tail-Represents s.free i f.ids
        (count_zero→NotIn i f.ids (ground (arith, f.below i))) f.listed;
  counted = ground (arith, f.counted);
  len = omega (arith, f.len, length-append f.ids (i ∷ []));
  below = λ j. below_step i j f.ids (f.below j);
  blocks = f.blocks;
  total_is = f.total_is;
  size_is = f.size_is;
  map_is = f.map_is;
}

fill-Filling :
    (rounds i total size : ℕ) (s : Cache)
    → i + rounds ≡ total
    → Filling i total size s
    → Filling total total size (fill_free_list rounds i s)
unfolding fill_free_list
fill-Filling zero i total size s e f =
    let at : i ≡ total = omega arith in subst (λ j. Filling j total size s) at f
fill-Filling (suc rounds) i total size s e f =
    let at : suc i ≡ i + 1 = omega arith in
    fill-Filling rounds (i + 1) total size (append_to_free_list s i) (omega arith) (
      subst (λ j. Filling j total size (append_to_free_list s i)) at
        (append-Filling i total size s f))

Filling-Inv : (total size : ℕ) (s : Cache) → Filling total total size s → Inv s
unfolding empty_block refs
Filling-Inv total size s f = record {
  holds =
      subst (λ m. Holds s (refs m)) (sym f.map_is)
        (record {
          free_ids = f.ids;
          listed = f.listed;
          counted = ground (arith, f.counted, f.len);
          refs = λ i. ground (arith, f.blocks i);
          busy = λ i. ground (arith, f.blocks i);
          vacant = λ i. ground (arith, f.below i, f.total_is);
          beyond = λ i le. refl;
        });
  unique = rw f.map_is tt;
  filled = rw f.map_is tt;
}

Filling-Sized : (total size : ℕ) (s : Cache) → 0 < size → Filling total total size s → Sized s
unfolding refs
Filling-Sized total size s h f = record {
  positive = rw f.size_is h;
  held = λ i held. absurd (let none : 0 < refs [] i = rw f.map_is at held in omega arith);
}

Filling-blank : (total size : ℕ) → Filling 0 total size (blank total size)
unfolding count
Filling-blank total size = record {
  ids = [];
  listed = Dll.Represents-empty;
  counted = refl;
  len = refl;
  below = λ j. ground arith;
  blocks = λ j. refl;
  total_is = refl;
  size_is = refl;
  map_is = refl;
}

nonzero : (n : ℕ) → 0 < n → (n == 0) ≡ false
nonzero n h = ground arith

-- With positive dimensions the constructor returns a cache that satisfies the invariant, whose blocks
-- are sized right, with the blocks asked for, all counted as free.
pub new_kv_cache_state-Inv :
    (total size : ℕ)
    → 0 < total
    → 0 < size
    → (s : Cache) × (new_kv_cache_state total size ≡ ok s)
      × Inv s
      × Sized s
      × (s.total_blocks ≡ total)
      × (s.free_block_cnt ≡ pos total)
unfolding new_kv_cache_state
new_kv_cache_state-Inv total size ht hs =
    let s = fill_free_list total 0 (blank total size) in
    let f =
      fill-Filling total 0 total size (blank total size) (omega arith) (Filling-blank total size) in
    (
      s,
      rw (nonzero total ht, nonzero size hs) refl,
      Filling-Inv total size s f,
      Filling-Sized total size s hs f,
      f.total_is,
      f.counted,
    )
