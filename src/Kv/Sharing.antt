-- ===== src/Kv/Sharing.antt =====
-- Committing cached blocks and releasing a request keep the invariant, and never panic.
use mathlib.Core.List.{reverse, reverse-cons}
use inference_sim.Prelude.{
  ℕ, ◌+◌, ◌<◌, ◌≡◌, refl, sym, ◌∙◌, ap, String, List, [], ◌∷◌, arith, count, count-append, All,
  lookup, erase, string_discrete, UniqueKeys-erase, ok, lt→ltb, subst, UniqueKeys, length,
}
use inference_sim.Kv.State.{Cache, or_nil, append_id}
use inference_sim.Kv.Release.{
  acquire, commit_block, commit_cached_blocks, drop_block, drop_blocks, release_kv_blocks,
}
use inference_sim.Kv.FreeList.{append_to_free_list}
use inference_sim.Kv.Holds.{Holds, Holds-ext, Holds-maps, acquire-Holds, drop_block-Holds, bump}
use inference_sim.Kv.Inv.{Inv, refs, append_id-Inv, refs-erase, refs-append_id, filled-erase}

-- Nothing stored changes: the sizes, the hash table, and each block's tokens and hash.
pub record Frame (s t : Cache) : Type 0 where
  pub total : t.total_blocks ≡ s.total_blocks
  pub size : t.block_size ≡ s.block_size
  pub table : t.hash_to_block ≡ s.hash_to_block
  pub tokens : (i : ℕ) → (t.blocks i).tokens ≡ (s.blocks i).tokens
  pub hashes : (i : ℕ) → (t.blocks i).hash ≡ (s.blocks i).hash

pub Frame-refl : (s : Cache) → Frame s s
Frame-refl s = record {
  total = refl;
  size = refl;
  table = refl;
  tokens = λ i. refl;
  hashes = λ i. refl;
}

pub Frame-trans : (s t u : Cache) → Frame s t → Frame t u → Frame s u
Frame-trans s t u f g = record {
  total = g.total ∙ f.total;
  size = g.size ∙ f.size;
  table = g.table ∙ f.table;
  tokens = λ i. g.tokens i ∙ f.tokens i;
  hashes = λ i. g.hashes i ∙ f.hashes i;
}

acquire-Frame : (s : Cache) (b : ℕ) → Frame s (acquire s b)
unfolding acquire
acquire-Frame s b = record {
  total = ground arith;
  size = ground arith;
  table = ground arith;
  tokens = λ i. ground arith;
  hashes = λ i. ground arith;
}

acquire_map : (s : Cache) (b : ℕ) → (acquire s b).request_map ≡ s.request_map
unfolding acquire
acquire_map s b = ground arith

commit_block-Frame : (s : Cache) (k : String) (b : ℕ) → Frame s (commit_block s k b)
unfolding commit_block
commit_block-Frame s k b =
    let f = acquire-Frame s b in
    record { total = f.total; size = f.size; table = f.table; tokens = f.tokens; hashes = f.hashes }

pub commit_block_map :
    (s : Cache) (k : String) (b : ℕ)
    → (commit_block s k b).request_map ≡ append_id s.request_map k b
unfolding commit_block
commit_block_map s k b = ap (λ m. append_id m k b) (acquire_map s b)

drop_block-Frame : (s : Cache) (b : ℕ) → Frame s (drop_block s b)
unfolding drop_block append_to_free_list
drop_block-Frame s b = record {
  total = ground arith;
  size = ground arith;
  table = ground arith;
  tokens = λ i. ground arith;
  hashes = λ i. ground arith;
}

drop_block_map : (s : Cache) (b : ℕ) → (drop_block s b).request_map ≡ s.request_map
unfolding drop_block append_to_free_list
drop_block_map s b = ground arith

commit_block-Inv :
    (s : Cache) (k : String) (b : ℕ) → b < s.total_blocks → Inv s → Inv (commit_block s k b)
unfolding commit_block
commit_block-Inv s k b lt v =
    let s1 = acquire s b in
    let same = sym (acquire_map s b) in
    append_id-Inv s1 k b (s1.cache_hits + 1) s1.cache_misses
      (subst (λ m. Holds s1 (bump b (refs m))) same
        (acquire-Holds s b (refs s.request_map) lt v.holds))
      (subst (UniqueKeys string_discrete) same v.unique)
      (subst (All (λ e. 0 < length e.1)) same v.filled)

-- The state that the commit loop leaves, as a function.
unfoldable pub committed : Cache → String → List ℕ → Cache
committed s k [] = s
committed s k (b ∷ ids) = committed (commit_block s k b) k ids

pub committed-Frame : (s : Cache) (k : String) (ids : List ℕ) → Frame s (committed s k ids)
unfolding committed
committed-Frame s k [] = Frame-refl s
committed-Frame s k (b ∷ ids) =
    Frame-trans s (commit_block s k b) (committed (commit_block s k b) k ids)
      (commit_block-Frame s k b) (committed-Frame (commit_block s k b) k ids)

All-below : (n m : ℕ) (ids : List ℕ) → n ≡ m → All (λ b. b < n) ids → All (λ b. b < m) ids
All-below n m ids e a = subst (λ k. All (λ b. b < k) ids) e a

-- On a cache that satisfies the invariant, committing blocks of the cache to a request does not
-- panic, keeps the invariant, and raises each block's references by the times it is listed.
pub commit_cached_blocks-Inv :
    (s : Cache) (k : String) (ids : List ℕ)
    → All (λ b. b < s.total_blocks) ids
    → Inv s
    → (commit_cached_blocks s k ids ≡ ok (committed s k ids))
      × Inv (committed s k ids)
      × ((i : ℕ) → refs (committed s k ids).request_map i ≡ count i ids + refs s.request_map i)
unfolding commit_cached_blocks committed count
commit_cached_blocks-Inv s k [] a v = (refl, v, λ i. omega arith)
commit_cached_blocks-Inv s k (b ∷ ids) a v =
    let s1 = commit_block s k b in
    let below = All-below _ _ ids (sym (commit_block-Frame s k b).total) a.1 in
    let (e, kept, more) = commit_cached_blocks-Inv s1 k ids below (commit_block-Inv s k b a.0 v) in
    (
      rw (lt→ltb b s.total_blocks a.0) e,
      kept,
      λ i. ground (
        arith,
        more i,
        ap (λ m. refs m i) (commit_block_map s k b),
        refs-append_id s.request_map k b i,
      ),
    )

-- The state that the release loop leaves, as a function.
unfoldable pub dropped : Cache → List ℕ → Cache
dropped s [] = s
dropped s (b ∷ ids) = dropped (drop_block s b) ids

pub dropped-Frame : (s : Cache) (ids : List ℕ) → Frame s (dropped s ids)
unfolding dropped
dropped-Frame s [] = Frame-refl s
dropped-Frame s (b ∷ ids) =
    Frame-trans s (drop_block s b) (dropped (drop_block s b) ids) (drop_block-Frame s b)
      (dropped-Frame (drop_block s b) ids)

pub dropped_map : (s : Cache) (ids : List ℕ) → (dropped s ids).request_map ≡ s.request_map
unfolding dropped
dropped_map s [] = refl
dropped_map s (b ∷ ids) = dropped_map (drop_block s b) ids ∙ drop_block_map s b

drop_blocks-Holds :
    (s : Cache) (ids : List ℕ) (f : ℕ → ℕ)
    → Holds s (λ i. count i ids + f i)
    → (drop_blocks s ids ≡ ok (dropped s ids)) × Holds (dropped s ids) f
unfolding drop_blocks dropped count
drop_blocks-Holds s [] f h = (refl, Holds-ext s _ f (λ i. omega arith) h)
drop_blocks-Holds s (b ∷ ids) f h =
    let g : ℕ → ℕ = λ i. count i ids + f i in
    let h1 : Holds s (bump b g) = Holds-ext s _ (bump b g) (λ i. ground arith) h in
    let lt : b < s.total_blocks = ground (arith, h1.beyond b) in
    let (e, held) = drop_blocks-Holds (drop_block s b) ids f (drop_block-Holds s b g lt h1) in
    (rw (lt→ltb b s.total_blocks lt) e, held)

count-reverse : (i : ℕ) (xs : List ℕ) → count i (reverse xs) ≡ count i xs
unfolding count
count-reverse i [] = refl
count-reverse i (x ∷ xs) =
    rw (reverse-cons x xs)
      (ground (arith, count-append i (reverse xs) (x ∷ []), count-reverse i xs))

-- The state that ReleaseKVBlocks leaves.
unfoldable pub released : Cache → String → Cache
released s k =
    dropped (record s { request_map = erase string_discrete k s.request_map })
      (reverse (or_nil (lookup string_discrete k s.request_map)))

-- On a cache that satisfies the invariant, releasing a request does not panic and keeps the
-- invariant. The request has no sequence afterwards and the other requests keep theirs, and each
-- block has lost as many references as the request's sequence held.
pub release_kv_blocks-Inv :
    (s : Cache) (k : String)
    → Inv s
    → (release_kv_blocks s k ≡ ok (released s k))
      × Inv (released s k)
      × ((released s k).request_map ≡ erase string_discrete k s.request_map)
      × ((i : ℕ)
          → refs s.request_map i
            ≡ count i (or_nil (lookup string_discrete k s.request_map))
              + refs (released s k).request_map i)
unfolding release_kv_blocks released
release_kv_blocks-Inv s k v =
    let m = erase string_discrete k s.request_map in
    let ids = or_nil (lookup string_discrete k s.request_map) in
    let s1 = record s { request_map = m } in
    let h =
      Holds-ext s1 _ (λ i. count i (reverse ids) + refs m i)
        (λ i. ground (arith, count-reverse i ids, refs-erase k s.request_map i))
        (Holds-maps s _ m s.hash_to_block s.cache_hits s.cache_misses v.holds) in
    let (e, held) = drop_blocks-Holds s1 (reverse ids) (refs m) h in
    let same = dropped_map s1 (reverse ids) in
    (
      e,
      record {
        holds = subst (λ n. Holds (dropped s1 (reverse ids)) (refs n)) (sym same) held;
        unique = rw same (UniqueKeys-erase string_discrete k s.request_map v.unique);
        filled = rw same (filled-erase k s.request_map v.filled);
      },
      same,
      λ i. rw same (refs-erase k s.request_map i),
    )
