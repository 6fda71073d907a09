-- ===== src/PrefixIndex/Counting.antt =====
-- InstanceBlockCount across a RecordBlocks.
use inference_sim.Prelude.{
  ℕ, suc, ◌+◌, ◌≤◌, ◌<◌, ◌≡◌, ◌≢◌, sym, ◌∙◌, String, List, [], ◌∷◌, true, ok, arith, length, leb,
  leb→le, Bool-cases, inl, inr,
}
use inference_sim.Nodes.{holds, without, but_last}
use inference_sim.PrefixIndex.Defs.{PrefixCacheIndex, record_blocks, instance_block_count}
use inference_sim.PrefixIndex.Recency.{recent, recent_all}
use inference_sim.PrefixIndex.Bounds.{
  Seen, Seen-positive, record_blocks-Seen, record_blocks-capacity, instance_block_count-length,
}

length-without :
    (h : String) (ks : List String) → holds h ks ≡ true → suc (length (without h ks)) ≡ length ks
unfolding holds without
length-without h [] e = cc
length-without h (k ∷ ks) e = ground (arith, length-without h ks)

length-but_last : (ks : List String) → 0 < length ks → suc (length (but_last ks)) ≡ length ks
unfolding but_last
length-but_last [] e = absurd (omega arith)
length-but_last (k ∷ []) e = omega arith
length-but_last (k ∷ j ∷ ks) e = omega (arith, length-but_last (j ∷ ks))

-- One hash grows the list by one at most, never shrinks it, and keeps it within the capacity.
length-recent :
    (capacity : ℕ) (h : String) (ks : List String)
    → 0 < capacity
    → (length ks ≤ length (recent capacity h ks))
      × (length (recent capacity h ks) ≤ suc (length ks))
unfolding recent
length-recent capacity h ks pos = elim (Bool-cases (holds h ks)) [
  | inl held ↦ rw held (ground (arith, length-without h ks held))
  | inr new ↦ rw new (elim (Bool-cases (leb capacity (length ks))) [
    | inl full ↦
        let there : 0 < length ks = omega (arith, leb→le _ _ full) in
        rw full (ground (arith, length-but_last ks there))
    | inr room ↦ rw room (ground arith)
  ])
]

length-recent_all :
    (capacity : ℕ) (hashes ks : List String)
    → 0 < capacity
    → (length ks ≤ length (recent_all capacity hashes ks))
      × (length (recent_all capacity hashes ks) ≤ length ks + length hashes)
unfolding recent_all
length-recent_all capacity [] ks pos = (omega arith, omega arith)
length-recent_all capacity (h ∷ hashes) ks pos =
    let (low, high) = length-recent capacity h ks pos in
    let (low_all, high_all) = length-recent_all capacity hashes (recent capacity h ks) pos in
    (omega arith, omega arith)

-- Where an instance's recent hashes are known, RecordBlocks does not panic, and InstanceBlockCount
-- does not sink by it, grows by the number of hashes at most, and is at most the capacity
-- afterwards, whatever the number of hashes. It stays for every other instance whose recent hashes
-- are known.
pub instance_block_count-record_blocks :
    (idx : PrefixCacheIndex) (hashes : List String) (i : String) (ks : List String)
    → Seen idx i ks
    → (idx1 : PrefixCacheIndex) × (record_blocks idx hashes i ≡ ok idx1)
      × (instance_block_count idx i ≤ instance_block_count idx1 i)
      × (instance_block_count idx1 i ≤ instance_block_count idx i + length hashes)
      × (instance_block_count idx1 i ≤ idx.lru_capacity)
      × ((j : String) (js : List String)
          → j ≢ i
          → Seen idx j js
          → instance_block_count idx1 j ≡ instance_block_count idx j)
instance_block_count-record_blocks idx hashes i ks s =
    let (idx1, done, s1, others) = record_blocks-Seen idx hashes i ks s in
    let same = record_blocks-capacity idx hashes i idx1 done in
    let (before, _) = instance_block_count-length idx i ks s in
    let (after, within) =
      instance_block_count-length idx1 i (recent_all idx.lru_capacity hashes ks) s1 in
    let (low, high) = length-recent_all idx.lru_capacity hashes ks (Seen-positive idx i ks s) in
    (
      idx1,
      done,
      omega arith,
      omega arith,
      omega arith,
      λ j js h other.
          (instance_block_count-length idx1 j js (others j js h other)).0
          ∙ sym (instance_block_count-length idx j js other).0,
    )
