-- ===== src/PrefixIndex/Bounds.antt =====
-- The index over its instances: RecordBlocks and MatchLength.
use inference_sim.Prelude.{
  ℕ, suc, ◌≤◌, ◌<◌, ◌≡◌, ◌≢◌, refl, sym, ◌∙◌, ap, subst, String, List, [], ◌∷◌, true, ok, arith,
  length, lookup, insert, string_discrete, Option-cases, inl, inr, lookup-insert_self,
  lookup-insert_ne, if◌then◌else◌,
}
use inference_sim.Nodes
use inference_sim.Nodes.{names, holds, no_nodes}
use inference_sim.PrefixIndex.Defs.{
  LruBlockCache, PrefixCacheIndex, new_cache, cache_of, record_blocks, matched, match_length,
  instance_block_count,
}
use inference_sim.PrefixIndex.Recency.{LruInv, all_on, recent_all, touch_all-recent}

-- The hashes of an instance in order of recency: the view of the index that forgets nodes and links.
pub record Seen (idx : PrefixCacheIndex) (instance_id : String) (ks : List String) : Type 0 where
  pub nodes_of : List ℕ
  pub inv : LruInv (cache_of idx instance_id) nodes_of
  pub capacity : (cache_of idx instance_id).capacity ≡ idx.lru_capacity
  pub order : names (cache_of idx instance_id).nodes nodes_of ≡ ks

pub new_cache-LruInv : (capacity : ℕ) → 0 < capacity → LruInv (new_cache capacity) []
unfolding new_cache no_nodes
new_cache-LruInv capacity h = record {
  tracked = Nodes.no_nodes-Tracks all_on;
  sized = refl;
  bounded = omega arith;
  positive = h;
}

-- Where RecordBlocks leaves an instance.
module _ (idx : PrefixCacheIndex) (i : String) (c : LruBlockCache) where
  abbrev recorded : PrefixCacheIndex
  recorded = record idx { instances = insert string_discrete i c idx.instances }

  cache_of-recorded_self : cache_of recorded i ≡ c
  unfolding cache_of
  cache_of-recorded_self = rw (lookup-insert_self string_discrete i c idx.instances, cache_of) refl

  cache_of-recorded_ne : (j : String) → j ≢ i → cache_of recorded j ≡ cache_of idx j
  unfolding cache_of
  cache_of-recorded_ne j h =
      rw (lookup-insert_ne string_discrete i j c idx.instances h, cache_of) refl

-- Where an instance's recent hashes are known, RecordBlocks does not panic. The instance's hashes are
-- then those that recording one after the other gives, most recent first and at most the capacity,
-- and the other instances keep theirs.
pub record_blocks-Seen :
    (idx : PrefixCacheIndex) (hashes : List String) (i : String) (ks : List String)
    → Seen idx i ks
    → (idx1 : PrefixCacheIndex) × (record_blocks idx hashes i ≡ ok idx1)
      × Seen idx1 i (recent_all idx.lru_capacity hashes ks)
      × ((j : String) (js : List String) → j ≢ i → Seen idx j js → Seen idx1 j js)
unfolding record_blocks
record_blocks-Seen idx hashes i ks s =
    let (c, l, done, v, cap, order) = touch_all-recent (cache_of idx i) s.nodes_of hashes s.inv in
    let at = cache_of-recorded_self idx i c in
    (
      record idx { instances = insert string_discrete i c idx.instances },
      rw done refl,
      record {
        nodes_of = l;
        inv = subst (λ x. LruInv x l) (sym at) v;
        capacity = ap (λ x. x.capacity) at ∙ cap ∙ s.capacity;
        order =
            ap (λ x. names x.nodes l) at
            ∙ order
            ∙ ap (λ n. recent_all n hashes (names (cache_of idx i).nodes s.nodes_of)) s.capacity
            ∙ ap (recent_all idx.lru_capacity hashes) s.order;
      },
      λ j js h other.
          let same = sym (cache_of-recorded_ne idx i c j h) in
          record {
            nodes_of = other.nodes_of;
            inv = subst (λ x. LruInv x other.nodes_of) same other.inv;
            capacity = ap (λ x. x.capacity) (sym same) ∙ other.capacity;
            order = ap (λ x. names x.nodes other.nodes_of) (sym same) ∙ other.order;
          },
    )

-- The index keeps its capacity.
pub record_blocks-capacity :
    (idx : PrefixCacheIndex) (hashes : List String) (i : String) (idx1 : PrefixCacheIndex)
    → record_blocks idx hashes i ≡ ok idx1
    → idx1.lru_capacity ≡ idx.lru_capacity
unfolding record_blocks
record_blocks-capacity idx hashes i idx1 e = ground arith

pub Seen-positive :
    (idx : PrefixCacheIndex) (i : String) (ks : List String) → Seen idx i ks → 0 < idx.lru_capacity
Seen-positive idx i ks s = omega (arith, s.inv.positive, s.capacity)

count_entries :
    (idx : PrefixCacheIndex) (i : String)
    → instance_block_count idx i ≡ length (cache_of idx i).nodes.entries
unfolding instance_block_count cache_of new_cache no_nodes
count_entries idx i = elim (Option-cases (lookup string_discrete i idx.instances)) [
  | inl e ↦ rw (e, instance_block_count, cache_of) refl
  | inr (c, e) ↦ rw (e, instance_block_count, cache_of) refl
]

pub instance_block_count-length :
    (idx : PrefixCacheIndex) (i : String) (ks : List String)
    → Seen idx i ks
    → (instance_block_count idx i ≡ length ks) × (length ks ≤ idx.lru_capacity)
instance_block_count-length idx i ks s =
    let len : length (names (cache_of idx i).nodes s.nodes_of) ≡ length ks = ap (length) s.order in
    let long = Nodes.length-map (cache_of idx i).nodes.key_of s.nodes_of in
    let count : instance_block_count idx i ≡ length (cache_of idx i).nodes.entries =
      count_entries idx i in
    (
      omega (arith, len, long, count, s.inv.sized),
      omega (arith, len, long, s.inv.bounded, s.capacity),
    )

-- The hashes from the start on that are among those seen.
unfoldable pub prefix_seen : List String → List String → ℕ
prefix_seen ks [] = 0
prefix_seen ks (h ∷ hashes) = let rest = prefix_seen ks hashes in if holds h ks then suc rest else 0

matched_nothing : (hashes : List String) → matched [] hashes ≡ 0
unfolding matched lookup
matched_nothing [] = refl
matched_nothing (h ∷ hashes) = refl

matched_entries :
    (idx : PrefixCacheIndex) (i : String) (hashes : List String)
    → match_length idx hashes i ≡ matched (cache_of idx i).nodes.entries hashes
unfolding match_length cache_of new_cache no_nodes
matched_entries idx i hashes = elim (Option-cases (lookup string_discrete i idx.instances)) [
  | inl e ↦ rw (e, match_length, cache_of) (sym (matched_nothing hashes))
  | inr (c, e) ↦ rw (e, match_length, cache_of) refl
]

matched-names :
    (c : LruBlockCache) (l : List ℕ)
    → LruInv c l
    → (hashes : List String) → matched c.nodes.entries hashes ≡ prefix_seen (names c.nodes l) hashes
unfolding matched prefix_seen
matched-names c l v [] = refl
matched-names c l v (h ∷ hashes) = elim (Option-cases (lookup string_discrete h c.nodes.entries)) [
  | inl e ↦ rw (e, matched) (rw (Nodes.not_holds-names all_on c.nodes l v.tracked h e) refl)
  | inr (n, e) ↦
      let held : holds h (names c.nodes l) ≡ true =
        subst (λ k. holds k (names c.nodes l) ≡ true) (v.tracked.named h n e).0
          (Nodes.holds-names all_on c.nodes l v.tracked n (v.tracked.known h n e refl)) in
      rw (e, matched) (rw held (ap suc (matched-names c l v hashes)))
]

-- MatchLength is the number of hashes from the start on that the instance has.
pub match_length-prefix_seen :
    (idx : PrefixCacheIndex) (hashes : List String) (i : String) (ks : List String)
    → Seen idx i ks
    → match_length idx hashes i ≡ prefix_seen ks hashes
match_length-prefix_seen idx hashes i ks s =
    matched_entries idx i hashes
    ∙ matched-names (cache_of idx i) s.nodes_of s.inv hashes
    ∙ ap (λ n. prefix_seen n hashes) s.order
