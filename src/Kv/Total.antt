-- ===== src/Kv/Total.antt =====
-- AllocateKVBlocks as a whole: it returns, and keeps the invariant of the cache.
use inference_sim.Prelude.{
  ℕ, zero, suc, ◌+◌, ◌-◌, ◌≤◌, ◌<◌, ◌≡◌, refl, ◌∙◌, subst, min, List, [], ◌∷◌, arith,
  string_discrete, length, ok, some, none, Option, ltb, lt→ltb, ltb→lt, get_last?, lookup,
  Bool-cases, inl, inr, pos, All, All-count,
}
use inference_sim.Hash.{Sha}
use inference_sim.Request.{Request}
use inference_sim.Kv.State.{Block, Cache}
use inference_sim.Kv.Allocate.{effective_tokens, blocks_for, allocate_round, allocate_loop}
use inference_sim.Kv.Inv.{Inv, refs}
use inference_sim.Kv.Sharing.{committed, committed-Frame, commit_cached_blocks-Inv}
use inference_sim.Kv.Fresh.{Sized}
use inference_sim.Kv.Fill.{count-get_last?, fill_last-Filled}
use inference_sim.Kv.Claim.{
  from_free, claim-known, claim-none, claim-cached, committed_cnt, committed-Sized,
}
use inference_sim.Kv.Loop.{Sound, needed, loop_done, loop_step, finish}

-- Blocks that GetCachedBlocks may hand over: blocks of the cache that are full.
pub record Usable (s : Cache) (cached : List ℕ) : Type 0 where
  pub below : All (λ b. b < s.total_blocks) cached
  pub full : All (λ b. length (s.blocks b).tokens ≡ s.block_size) cached

first_round : (n size c : ℕ) → blocks_for n size ≤ c → blocks_for (n - 0) size ≤ c
first_round n size c h = let e : n - 0 ≡ n = omega arith in rw e h

All-last : (P : ℕ → Type 0) (xs : List ℕ) (b : ℕ) → All P xs → get_last? xs ≡ some b → P b
All-last P xs b a e = All-count P b xs a (count-get_last? xs b e)

-- A partly filled last block absorbs its spare tokens.
pub effective_partial :
    (size n : ℕ) (blk : Block)
    → 0 < length blk.tokens
    → length blk.tokens < size
    → effective_tokens size n (some blk) ≡ n - min (size - length blk.tokens) n
unfolding effective_tokens
effective_partial size n blk some_tok room = ground arith

pub effective_full :
    (size n : ℕ) (blk : Block) → length blk.tokens ≡ size → effective_tokens size n (some blk) ≡ n
unfolding effective_tokens
effective_full size n blk e = ground arith

needed_pos :
    (size n m c : ℕ) (last : Option Block)
    → effective_tokens size n last ≡ m
    → 0 < m
    → needed size n last ≤ c
    → blocks_for m size ≤ c
needed_pos size n m c last e lt h =
    subst (λ k. blocks_for k size ≤ c) e
      (rw (lt→ltb 0 (effective_tokens size n last) (rw e lt)) at h)

module _ (sha : Sha) (req : Request) (xs : List ℕ) where
  pub new_request :
      (fuel : ℕ) (s : Cache) (cached : List ℕ) (c : ℕ)
      → lookup string_discrete req.id s.request_map ≡ none
      → s.free_block_cnt ≡ pos c
      → blocks_for (length xs) s.block_size + from_free s cached ≤ c
      → 0 < length xs
      → Usable s cached
      → Inv s
      → Sized s
      → (t : Cache) × (allocate_loop sha (suc (suc fuel)) s req cached xs 0 ≡ ok t) × Sound s t
  new_request fuel s [] c e cnt enough lt u v z =
      finish sha req [] xs fuel s s [] [] 0 c (claim-none s req.id e) refl cnt
        (first_round (length xs) s.block_size c (omega arith)) lt v z
  new_request fuel s (b ∷ cached) c e cnt enough lt u v z =
      let ids = b ∷ cached in
      let s1 = committed s req.id ids in
      let f = committed-Frame s req.id ids in
      let (l, last, below, claimed) = claim-cached s req.id b cached e u.below v in
      let (d, cnt1, le) = committed_cnt s req.id ids c cnt (omega arith) in
      let (t, done, sound) =
        finish sha req ids xs fuel s s1 ids (s.blocks l).tokens 0 d claimed
          (ground (arith, All-last _ ids l u.full last, f.size)) cnt1
          (first_round (length xs) s1.block_size d (rw f.size (omega arith))) lt
          (commit_cached_blocks-Inv s req.id ids u.below v).1
          (committed-Sized s req.id ids u.below u.full v z) in
      (
        t,
        done,
        record {
          inv = sound.inv;
          sized = sound.sized;
          total = sound.total ∙ f.total;
          size = sound.size ∙ f.size;
        },
      )

  -- From a state whose last block is full.
  full_request :
      (fuel : ℕ) (s : Cache) (cached ids : List ℕ) (b idx c : ℕ)
      → lookup string_discrete req.id s.request_map ≡ some ids
      → get_last? ids ≡ some b
      → b < s.total_blocks
      → length (s.blocks b).tokens ≡ s.block_size
      → s.free_block_cnt ≡ pos c
      → blocks_for (length xs - idx) s.block_size ≤ c
      → idx < length xs
      → Inv s
      → Sized s
      → (t : Cache) × (allocate_loop sha (suc (suc fuel)) s req cached xs idx ≡ ok t) × Sound s t
  full_request fuel s cached ids b idx c e last below full cnt enough lt v z =
      finish sha req cached xs fuel s s ids (s.blocks b).tokens idx c
        (claim-known s req.id cached ids b e last below) (ground arith) cnt enough lt v z

  -- After the last block has been filled: the loop's test, and a round for what is left.
  after_fill :
      (fuel : ℕ) (s : Cache) (cached ids : List ℕ) (b idx c : ℕ)
      → lookup string_discrete req.id s.request_map ≡ some ids
      → get_last? ids ≡ some b
      → b < s.total_blocks
      → (idx < length xs → length (s.blocks b).tokens ≡ s.block_size)
      → s.free_block_cnt ≡ pos c
      → (idx < length xs → blocks_for (length xs - idx) s.block_size ≤ c)
      → idx ≤ length xs
      → 0 < idx
      → length xs ≤ suc fuel
      → Inv s
      → Sized s
      → (t : Cache) × (allocate_loop sha (suc fuel) s req cached xs idx ≡ ok t) × Sound s t
  after_fill zero s cached ids b idx c e last below full cnt enough le some_idx fueled v z = (
    s,
    loop_done sha req cached xs zero s idx (omega arith),
    record { inv = v; sized = z; total = refl; size = refl },
  )
  after_fill (suc fuel) s cached ids b idx c e last below full cnt enough le some_idx fueled v z =
      elim (Bool-cases (ltb idx (length xs))) [
        | inl more ↦
            let lt = ltb→lt idx (length xs) more in
            full_request fuel s cached ids b idx c e last below (full lt) cnt (enough lt) lt v z
        | inr done ↦ (
          s,
          loop_done sha req cached xs (suc fuel) s idx (ground arith),
          record { inv = v; sized = z; total = refl; size = refl },
        )
      ]

  partial_request :
      (fuel : ℕ) (s : Cache) (cached ids : List ℕ) (b c : ℕ)
      → lookup string_discrete req.id s.request_map ≡ some ids
      → get_last? ids ≡ some b
      → b < s.total_blocks
      → 0 < length (s.blocks b).tokens
      → length (s.blocks b).tokens < s.block_size
      → s.free_block_cnt ≡ pos c
      → needed s.block_size (length xs) (some (s.blocks b)) ≤ c
      → 0 < length xs
      → length xs ≤ suc fuel
      → Inv s
      → Sized s
      → (t : Cache) × (allocate_loop sha (suc (suc fuel)) s req cached xs 0 ≡ ok t) × Sound s t
  unfolding allocate_round
  partial_request fuel s cached ids b c e last below some_tok room cnt enough lt fueled v z =
      let latest = (s.blocks b).tokens in
      let spare = s.block_size - length latest in
      let n = length xs in
      let (s1, filled, made) =
        fill_last-Filled sha s req.id ids latest xs b 0 e last some_tok room lt v z in
      let k = made.kept in
      let idx = 0 + min spare (n - 0) in
      let round : allocate_round sha s req cached xs 0 ≡ ok (s1, idx) =
        rw (claim-known s req.id cached ids b e last below) (
          rw (lt→ltb 0 (length latest) some_tok, lt→ltb (length latest) s.block_size room)
            filled) in
      let left : effective_tokens s.block_size n (some (s.blocks b)) ≡ n - idx =
        effective_partial s.block_size n (s.blocks b) some_tok room ∙ omega arith in
      let (t, done, sound) =
        after_fill fuel s1 cached ids b idx c (rw k.map e) last (rw k.total below)
          (λ more. rw k.size (omega (arith, made.longer))) (k.cnt ∙ cnt)
          (λ more.
            rw k.size
              (needed_pos s.block_size n (n - idx) c (some (s.blocks b)) left (omega arith) enough))
          (omega arith) (omega arith) fueled made.inv made.sized in
      (
        t,
        loop_step sha req cached xs (suc fuel) s s1 0 idx lt round ∙ done,
        record {
          inv = sound.inv;
          sized = sound.sized;
          total = sound.total ∙ k.total;
          size = sound.size ∙ k.size;
        },
      )

  pub known_request :
      (fuel : ℕ) (s : Cache) (cached ids : List ℕ) (b c : ℕ)
      → lookup string_discrete req.id s.request_map ≡ some ids
      → get_last? ids ≡ some b
      → b < s.total_blocks
      → 0 < refs s.request_map b
      → s.free_block_cnt ≡ pos c
      → needed s.block_size (length xs) (some (s.blocks b)) ≤ c
      → 0 < length xs
      → length xs ≤ suc fuel
      → Inv s
      → Sized s
      → (t : Cache) × (allocate_loop sha (suc (suc fuel)) s req cached xs 0 ≡ ok t) × Sound s t
  known_request fuel s cached ids b c e last below held cnt enough lt fueled v z =
      let (some_tok, fits) = z.held b held in
      elim (Bool-cases (ltb (length (s.blocks b).tokens) s.block_size)) [
        | inr full ↦
            let is_size : length (s.blocks b).tokens ≡ s.block_size = ground arith in
            let left = effective_full s.block_size (length xs) (s.blocks b) is_size in
            full_request fuel s cached ids b 0 c e last below is_size cnt
              (first_round (length xs) s.block_size c
                (needed_pos s.block_size (length xs) (length xs) c _ left lt enough))
              lt v z
        | inl partial ↦
            partial_request fuel s cached ids b c e last below some_tok
              (ltb→lt _ s.block_size partial) cnt enough lt fueled v z
      ]
