-- ===== src/PrefixIndex/Session.antt =====
-- The index from its constructor on, under any sequence of RecordBlocks.
use inference_sim.Prelude.{
  ℕ, zero, suc, ◌≤◌, ◌<◌, ◌≡◌, refl, sym, ◌∙◌, subst, String, List, [], ◌∷◌, false, ℤ, pos, negsuc,
  ltb_ℤ, ◌&&◌, ◌⊎◌, inl, inr, Result, ok, panic, bad_argument, ◌>>=◌, arith, length, ite, if_pos,
  if_neg, string_discrete, lookup,
}
use inference_sim.Nodes.{no_nodes}
use inference_sim.PrefixIndex.Defs.{
  PrefixCacheIndex, new_prefix_cache_index, new_cache, cache_of, record_blocks, match_length,
  instance_block_count,
}
use inference_sim.PrefixIndex.Recency.{recent_all}
use inference_sim.PrefixIndex.Bounds.{
  Seen, new_cache-LruInv, record_blocks-Seen, record_blocks-capacity, instance_block_count-length,
  prefix_seen, match_length-prefix_seen,
}

-- Calls of RecordBlocks, each with its hashes and its instance.
unfoldable pub record_all : PrefixCacheIndex → List (List String × String) → Result PrefixCacheIndex
record_all idx [] = ok idx
record_all idx (c ∷ calls) = do idx1 ← record_blocks idx c.0 c.1; record_all idx1 calls

-- The recent hashes of an instance: the calls for other instances do not count.
unfoldable pub seen_by : ℕ → String → List (List String × String) → List String → List String
seen_by capacity i [] ks = ks
seen_by capacity i (c ∷ calls) ks =
    seen_by capacity i calls (ite (string_discrete i c.1) (recent_all capacity c.0 ks) ks)

-- The recent hashes of all the instances at once.
abbrev SeenAll : PrefixCacheIndex → (String → List String) → Type 0
SeenAll idx ks = (i : String) → Seen idx i (ks i)

record_all-Seen :
    (idx : PrefixCacheIndex) (calls : List (List String × String)) (ks : String → List String)
    → SeenAll idx ks
    → (idx1 : PrefixCacheIndex) × (record_all idx calls ≡ ok idx1)
      × (idx1.lru_capacity ≡ idx.lru_capacity)
      × ((i : String) → Seen idx1 i (seen_by idx.lru_capacity i calls (ks i)))
unfolding record_all seen_by
record_all-Seen idx [] ks s = (idx, refl, refl, s)
record_all-Seen idx (c ∷ calls) ks s =
    let (idx1, done, s1, others) = record_blocks-Seen idx c.0 c.1 (ks c.1) (s c.1) in
    let same = record_blocks-capacity idx c.0 c.1 idx1 done in
    let next : String → List String =
      λ i. ite (string_discrete i c.1) (recent_all idx.lru_capacity c.0 (ks i)) (ks i) in
    let all : (i : String) → Seen idx1 i (next i) = λ i. elim (string_discrete i c.1) [
      | yes p ↦
          subst (Seen idx1 i) (sym (if_pos (string_discrete i c.1) p _ (ks i)))
            (subst (λ j. Seen idx1 j (recent_all idx.lru_capacity c.0 (ks j))) (sym p) s1)
      | no p ↦
          subst (Seen idx1 i) (sym (if_neg (string_discrete i c.1) p _ (ks i)))
            (others i (ks i) p (s i))
    ] in
    let (idx2, done2, same2, s2) = record_all-Seen idx1 calls next all in
    (
      idx2,
      rw done done2,
      same2 ∙ same,
      λ i. subst (λ n. Seen idx2 i (seen_by n i calls (next i))) same (s2 i),
    )

-- An index of a constructor that returned, after the calls.
pub record Served (capacity : ℕ) (calls : List (List String × String)) (idx : PrefixCacheIndex)
    : Type 0 where
  pub after : PrefixCacheIndex
  pub ran : record_all idx calls ≡ ok after
  pub counts :
      (i : String)
      → (instance_block_count after i ≡ length (seen_by capacity i calls []))
        × (length (seen_by capacity i calls []) ≤ capacity)
  pub matches :
      (i : String) (hashes : List String)
      → match_length after hashes i ≡ prefix_seen (seen_by capacity i calls []) hashes

abbrev pub fresh_index : ℕ → ℕ → PrefixCacheIndex
fresh_index size capacity = record { block_size = size; lru_capacity = capacity; instances = [] }

pub fresh_index-Seen : (size n : ℕ) (i : String) → Seen (fresh_index size (suc n)) i []
unfolding cache_of new_cache no_nodes lookup
fresh_index-Seen size n i = record {
  nodes_of = [];
  inv = new_cache-LruInv (suc n) (omega arith);
  capacity = refl;
  order = refl;
}

fresh_index-Served :
    (size n : ℕ) (calls : List (List String × String))
    → Served (suc n) calls (fresh_index size (suc n))
fresh_index-Served size n calls =
    let (idx1, done, same, s1) =
      record_all-Seen (fresh_index size (suc n)) calls (λ i. []) (fresh_index-Seen size n) in
    record {
      after = idx1;
      ran = done;
      counts = λ i.
          let (count, within) =
            instance_block_count-length idx1 i (seen_by (suc n) i calls []) (s1 i) in
          (count, omega arith);
      matches =
          λ i hashes. match_length-prefix_seen idx1 hashes i (seen_by (suc n) i calls []) (s1 i);
    }

-- The constructor panics unless both of its arguments are positive. Where they are, it returns an
-- index on which every sequence of RecordBlocks, for any instances, runs without a panic. Afterwards
-- each instance has the recent hashes of the calls for it alone: InstanceBlockCount is their number,
-- at most the capacity, and MatchLength the number of hashes from the start on that are among them.
pub new_prefix_cache_index-Served :
    (block_size lru_capacity : ℤ) (calls : List (List String × String))
    → (((ltb_ℤ (pos 0) block_size && ltb_ℤ (pos 0) lru_capacity) ≡ false)
        × (new_prefix_cache_index block_size lru_capacity ≡ panic bad_argument))
      ⊎ ((size n : ℕ) × (idx : PrefixCacheIndex) × (0 < size)
          × (0 < n)
          × (block_size ≡ pos size)
          × (lru_capacity ≡ pos n)
          × (new_prefix_cache_index block_size lru_capacity ≡ ok idx)
          × (idx.block_size ≡ size)
          × Served n calls idx)
unfolding new_prefix_cache_index
new_prefix_cache_index-Served (pos zero) c calls = inl (refl, refl)
new_prefix_cache_index-Served (negsuc b) c calls = inl (ground arith, refl)
new_prefix_cache_index-Served (pos (suc b)) (pos zero) calls = inl (ground arith, refl)
new_prefix_cache_index-Served (pos (suc b)) (negsuc c) calls = inl (ground arith, refl)
new_prefix_cache_index-Served (pos (suc b)) (pos (suc n)) calls = inr (
  suc b,
  suc n,
  fresh_index (suc b) (suc n),
  omega arith,
  omega arith,
  refl,
  refl,
  refl,
  refl,
  fresh_index-Served (suc b) n calls,
)
