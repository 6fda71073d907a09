-- ===== src/Kv/Fill.antt =====
-- The branch of AllocateKVBlocks that appends to the request's last block, and the lookups of a
-- request's blocks that cannot fail.
use inference_sim.Prelude.{
  ℕ, zero, suc, ◌+◌, ◌-◌, ◌≤◌, ◌<◌, ◌≡◌, refl, sym, ◌∙◌, ap, subst, min, String, List, [], ◌∷◌,
  ◌++◌, arith, ite, ℕ_discrete, string_discrete, length, length-append, length-take, length-drop,
  ok, some, ltb, lt→ltb, ◌==◌, get_last?, get_elem?, count, lookup, drop, Bool-cases, inl, inr,
}
use inference_sim.Hash.{Sha}
use inference_sim.Kv.State.{Cache, RequestMap, set_block}
use inference_sim.Kv.Lookup.{slice}
use inference_sim.Kv.Allocate.{register, previous_hash, fill_last}
use inference_sim.Kv.Holds.{Holds}
use inference_sim.Kv.Inv.{Inv, refs}
use inference_sim.Kv.Fresh.{Sized}

-- Only tokens and hashes may differ.
pub record Kept (s t : Cache) : Type 0 where
  pub total : t.total_blocks ≡ s.total_blocks
  pub size : t.block_size ≡ s.block_size
  pub free : t.free ≡ s.free
  pub cnt : t.free_block_cnt ≡ s.free_block_cnt
  pub map : t.request_map ≡ s.request_map
  pub ref_counts : (i : ℕ) → (t.blocks i).ref_count ≡ (s.blocks i).ref_count
  pub in_uses : (i : ℕ) → (t.blocks i).in_use ≡ (s.blocks i).in_use

Kept-Inv : (s t : Cache) → Kept s t → Inv s → Inv t
Kept-Inv s t k v =
    let h = v.holds in
    record {
      holds =
          subst (λ m. Holds t (refs m)) (sym k.map)
            (record {
              free_ids = h.free_ids;
              listed = rw k.free h.listed;
              counted = k.cnt ∙ h.counted;
              refs = λ i. k.ref_counts i ∙ h.refs i;
              busy = λ i. k.in_uses i ∙ h.busy i;
              vacant = λ i. rw k.total (h.vacant i);
              beyond = λ i le. h.beyond i (subst (λ n. n ≤ i) k.total le);
            });
      unique = rw k.map v.unique;
      filled = rw k.map v.filled;
    }

-- A request's block is held, so it is a block of the cache.
pub count-le-refs :
    (k : String) (m : RequestMap) (ids : List ℕ) (i : ℕ)
    → lookup string_discrete k m ≡ some ids
    → count i ids ≤ refs m i
unfolding lookup refs
count-le-refs k [] ids i e = cc
count-le-refs k (x ∷ m) ids i e = ground (arith, count-le-refs k m ids i)

pub count-get_elem? : (xs : List ℕ) (j x : ℕ) → get_elem? xs j ≡ some x → 0 < count x xs
unfolding count
count-get_elem? [] j x e = cc
count-get_elem? (y ∷ xs) zero x e = ground arith
count-get_elem? (y ∷ xs) (suc j) x e = ground (arith, count-get_elem? xs j x)

pub count-get_last? : (xs : List ℕ) (x : ℕ) → get_last? xs ≡ some x → 0 < count x xs
unfolding count
count-get_last? [] x e = cc
count-get_last? (y ∷ []) x e = ground arith
count-get_last? (y ∷ z ∷ xs) x e = let ih = count-get_last? (z ∷ xs) x e in ground arith

pub get_last?-some : (xs : List ℕ) → 0 < length xs → (x : ℕ) × (get_last? xs ≡ some x)
get_last?-some [] h = absurd (omega arith)
get_last?-some (x ∷ []) h = (x, refl)
get_last?-some (x ∷ y ∷ xs) h = get_last?-some (y ∷ xs) (omega arith)

get_elem?-some : (xs : List ℕ) (j : ℕ) → j < length xs → (x : ℕ) × (get_elem? xs j ≡ some x)
get_elem?-some [] j h = absurd (omega arith)
get_elem?-some (x ∷ xs) zero h = (x, refl)
get_elem?-some (x ∷ xs) (suc j) h = get_elem?-some xs j (omega arith)

pub held_below :
    (s : Cache) (k : String) (ids : List ℕ) (i : ℕ)
    → Inv s
    → lookup string_discrete k s.request_map ≡ some ids
    → 0 < count i ids
    → (i < s.total_blocks) × (0 < refs s.request_map i)
held_below s k ids i v e h =
    let le = count-le-refs k s.request_map ids i e in
    (ground (arith, v.holds.beyond i), omega arith)

length-chunk :
    (idx space : ℕ) (xs : List ℕ)
    → idx < length xs
    → length (slice idx (min (idx + space) (length xs)) xs) ≡ min space (length xs - idx)
length-chunk idx space xs lt =
    let n = min (idx + space) (length xs) - idx in
    omega (arith, length-take n (drop idx xs), length-drop idx xs)

-- New contents for one block that stay within its size.
Sized-set :
    (s t : Cache) (b : ℕ) (tok : List ℕ)
    → Kept s t
    → ((i : ℕ) → (t.blocks i).tokens ≡ ite (ℕ_discrete i b) tok (s.blocks i).tokens)
    → 0 < length tok
    → length tok ≤ s.block_size
    → Sized s
    → Sized t
Sized-set s t b tok k e nonempty fits z = record {
  positive = ground (arith, k.size, z.positive);
  held = λ i h. ground (arith, k.size, e i, z.held i, ap (λ m. refs m i) k.map);
}

-- What a round of this branch promises: the tokens placed, and how long the block has become.
pub record Filled (s t : Cache) (b idx placed : ℕ) (latest : List ℕ) : Type 0 where
  pub inv : Inv t
  pub sized : Sized t
  pub kept : Kept s t
  pub longer : length (t.blocks b).tokens ≡ length latest + placed

written : Cache → ℕ → List ℕ → Cache
written s b tok = set_block s b (record (s.blocks b) { tokens = tok })

written-Kept : (s : Cache) (b : ℕ) (tok : List ℕ) → Kept s (written s b tok)
unfolding written
written-Kept s b tok = record {
  total = refl;
  size = refl;
  free = refl;
  cnt = refl;
  map = refl;
  ref_counts = λ i. ground arith;
  in_uses = λ i. ground arith;
}

Kept-trans : (s t u : Cache) → Kept s t → Kept t u → Kept s u
Kept-trans s t u f g = record {
  total = g.total ∙ f.total;
  size = g.size ∙ f.size;
  free = g.free ∙ f.free;
  cnt = g.cnt ∙ f.cnt;
  map = g.map ∙ f.map;
  ref_counts = λ i. g.ref_counts i ∙ f.ref_counts i;
  in_uses = λ i. g.in_uses i ∙ f.in_uses i;
}

Filled-by :
    (s t : Cache) (b idx placed : ℕ) (latest tok : List ℕ)
    → Kept s t
    → ((i : ℕ) → (t.blocks i).tokens ≡ ite (ℕ_discrete i b) tok (s.blocks i).tokens)
    → length tok ≡ length latest + placed
    → 0 < length latest
    → length tok ≤ s.block_size
    → Inv s
    → Sized s
    → Filled s t b idx placed latest
Filled-by s t b idx placed latest tok k e len some_latest fits v z = record {
  inv = Kept-Inv s t k v;
  sized = Sized-set s t b tok k e (omega arith) fits z;
  kept = k;
  longer = ground (arith, e b);
}

module _ (sha : Sha) where
  register-Kept : (s : Cache) (b : ℕ) (prev : String) → Kept s (register sha s b prev)
  unfolding register
  register-Kept s b prev = record {
    total = refl;
    size = refl;
    free = refl;
    cnt = refl;
    map = refl;
    ref_counts = λ i. ground arith;
    in_uses = λ i. ground arith;
  }

  register_tokens :
      (s : Cache) (b : ℕ) (prev : String) (i : ℕ)
      → ((register sha s b prev).blocks i).tokens ≡ (s.blocks i).tokens
  unfolding register
  register_tokens s b prev i = ground arith

  previous_hash-ok :
      (s : Cache) (ids : List ℕ)
      → ((i : ℕ) → 0 < count i ids → i < s.total_blocks)
      → (h : String) × (previous_hash sha s ids ≡ ok h)
  unfolding previous_hash
  previous_hash-ok s ids below = elim (Bool-cases (ltb 1 (length ids))) [
    | inl more ↦
        let (x, e) = get_elem?-some ids (length ids - 2) (ground arith) in
        let lt = below x (count-get_elem? ids (length ids - 2) x e) in
        ((s.blocks x).hash, rw (more, e, lt→ltb x s.total_blocks lt) refl)
    | inr one ↦ ("", rw one refl)
  ]

  -- Appending to a partly filled last block ends without a panic and places
  -- min (the room left) (the tokens left) tokens.
  pub fill_last-Filled :
      (s : Cache) (k : String) (ids latest xs : List ℕ) (b idx : ℕ)
      → lookup string_discrete k s.request_map ≡ some ids
      → get_last? ids ≡ some b
      → 0 < length latest
      → length latest < s.block_size
      → idx < length xs
      → Inv s
      → Sized s
      → let placed = min (s.block_size - length latest) (length xs - idx) in
        (t : Cache) × (fill_last sha s ids latest xs idx ≡ ok (t, idx + placed))
        × Filled s t b idx placed latest
  unfolding fill_last written
  fill_last-Filled s k ids latest xs b idx e last some_latest room lt v z =
      let chunk = slice idx (min (idx + (s.block_size - length latest)) (length xs)) xs in
      let tok = latest ++ chunk in
      let s1 = written s b tok in
      let chunked = length-chunk idx (s.block_size - length latest) xs lt in
      let len = length-append latest chunk in
      elim (Bool-cases (length tok == s.block_size)) [
        | inl full ↦
            let (h, found) = previous_hash-ok s1 ids (λ i c. (held_below s k ids i v e c).0) in
            (
              register sha s1 b h,
              rw (last, full, found, chunked) refl,
              Filled-by s (register sha s1 b h) b idx _ latest tok
                  (Kept-trans s s1 (register sha s1 b h) (written-Kept s b tok)
                    (register-Kept s1 b h))
                  (λ i. register_tokens s1 b h i ∙ ground arith) (omega (arith, len, chunked))
                  some_latest (omega (arith, len, chunked)) v z,
            )
        | inr partial ↦ (
          s1,
          rw (last, partial, chunked) refl,
          Filled-by s s1 b idx _ latest tok (written-Kept s b tok) (λ i. ground arith)
              (omega (arith, len, chunked)) some_latest (omega (arith, len, chunked)) v z,
        )
      ]
