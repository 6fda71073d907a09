-- ===== src/Kv/Loop.antt =====
-- The outer loop of AllocateKVBlocks ends, without a panic, once the pre-check has passed.
use inference_sim.Prelude.{
  ℕ, suc, ◌+◌, ◌-◌, ◌*◌, ◌≤◌, ◌<◌, ◌≡◌, refl, ◌∙◌, String, List, arith, string_discrete, length, ok,
  some, none, Option, ltb, lt→ltb, if◌then◌else◌, ◌&&◌, get_last?, lookup, false, Option-cases, inl,
  inr, pos,
}
use inference_sim.Hash.{Sha}
use inference_sim.Request.{Request}
use inference_sim.Kv.State.{Block, Cache}
use inference_sim.Kv.Allocate.{
  last_block, effective_tokens, blocks_for, allocate_fresh, allocate_round, allocate_loop, claim,
}
use inference_sim.Kv.Inv.{Inv, refs, filled-lookup}
use inference_sim.Kv.Fresh.{Sized, fresh_loop-Inv}
use inference_sim.Kv.Fill.{held_below, count-get_last?, get_last?-some}

-- A state that the code may leave: counted right, blocks filled right, of the same dimensions.
pub record Sound (s t : Cache) : Type 0 where
  pub inv : Inv t
  pub sized : Sized t
  pub total : t.total_blocks ≡ s.total_blocks
  pub size : t.block_size ≡ s.block_size

-- The fresh blocks that the pre-check asks for.
abbrev pub needed : ℕ → ℕ → Option Block → ℕ
needed size n last =
    if ltb 0 (effective_tokens size n last)
    then blocks_for (effective_tokens size n last) size
    else 0

-- The request's last block: none without a sequence, else a block of the cache.
pub last_known :
    (s : Cache) (k : String) (ids : List ℕ)
    → Inv s
    → lookup string_discrete k s.request_map ≡ some ids
    → (b : ℕ) × (get_last? ids ≡ some b)
      × (b < s.total_blocks)
      × (0 < refs s.request_map b)
      × (last_block s k ≡ ok (some (s.blocks b)))
unfolding last_block
last_known s k ids v e =
    let (b, last) = get_last?-some ids (filled-lookup k s.request_map ids v.filled e) in
    let (lt, held) = held_below s k ids b v e (count-get_last? ids b last) in
    (b, last, lt, held, rw (e, last_block) (rw (last, lt→ltb b s.total_blocks lt) refl))

pub last_none :
    (s : Cache) (k : String)
    → lookup string_discrete k s.request_map ≡ none
    → last_block s k ≡ ok none
unfolding last_block
last_none s k e = rw (e, last_block) refl

pub last_block-ok : (s : Cache) (k : String) → Inv s → (o : Option Block) × (last_block s k ≡ ok o)
last_block-ok s k v = elim (Option-cases (lookup string_discrete k s.request_map)) [
  | inl e ↦ (none, last_none s k e)
  | inr (ids, e) ↦ let (b, _, _, _, p) = last_known s k ids v e in (some (s.blocks b), p)
]

blocks_for_bounds :
    (n size : ℕ) → 0 < size → (n ≤ blocks_for n size * size) × (blocks_for n size * size < n + size)
blocks_for_bounds n size h = (grind arith, grind arith)

module _ (sha : Sha) (req : Request) (cached xs : List ℕ) where
  pub loop_done :
      (fuel : ℕ) (s : Cache) (idx : ℕ)
      → idx ≡ length xs
      → allocate_loop sha (suc fuel) s req cached xs idx ≡ ok s
  unfolding allocate_loop
  loop_done fuel s idx e = ground arith

  -- A round that succeeds hands over to the rest of the loop.
  pub loop_step :
      (fuel : ℕ) (s t : Cache) (idx idx' : ℕ)
      → idx < length xs
      → allocate_round sha s req cached xs idx ≡ ok (t, idx')
      → allocate_loop sha (suc fuel) s req cached xs idx
        ≡ allocate_loop sha fuel t req cached xs idx'
  unfolding allocate_loop
  loop_step fuel s t idx idx' lt e = rw (lt→ltb idx (length xs) lt, e) refl

  -- The branch that allocates places all the tokens that remain.
  allocate_fresh-Sound :
      (s : Cache) (idx c : ℕ)
      → s.free_block_cnt ≡ pos c
      → blocks_for (length xs - idx) s.block_size ≤ c
      → idx ≤ length xs
      → Inv s
      → Sized s
      → (t : Cache) × (allocate_fresh sha s req xs idx ≡ ok (t, length xs)) × Sound s t
  unfolding allocate_fresh
  allocate_fresh-Sound s idx c cnt enough le v z =
      let rounds = blocks_for (length xs - idx) s.block_size in
      let (most, least) = blocks_for_bounds (length xs - idx) s.block_size z.positive in
      let (o, p) = last_block-ok s req.id v in
      let prev : String = elim o [ none ↦ "" | some blk ↦ blk.hash ] in
      let (t, e, v1, z1, total, size) =
        fresh_loop-Inv sha rounds c s req xs idx prev cnt enough le (omega arith) (omega arith) v
          z in
      (t, rw p e, record { inv = v1; sized = z1; total = total; size = size })

  -- The last round, from a state whose latest block takes no more tokens.
  pub finish :
      (fuel : ℕ) (s s1 : Cache) (ids latest : List ℕ) (idx c : ℕ)
      → claim s req.id cached ≡ ok (s1, ids, latest)
      → (ltb 0 (length latest) && ltb (length latest) s1.block_size) ≡ false
      → s1.free_block_cnt ≡ pos c
      → blocks_for (length xs - idx) s1.block_size ≤ c
      → idx < length xs
      → Inv s1
      → Sized s1
      → (t : Cache) × (allocate_loop sha (suc (suc fuel)) s req cached xs idx ≡ ok t) × Sound s1 t
  unfolding allocate_round
  finish fuel s s1 ids latest idx c claimed full cnt enough lt v z =
      let (t, e, sound) = allocate_fresh-Sound s1 idx c cnt enough (omega arith) v z in
      let round : allocate_round sha s req cached xs idx ≡ ok (t, length xs) =
        rw claimed (rw full e) in
      (
        t,
        loop_step (suc fuel) s t idx (length xs) lt round ∙ loop_done fuel t (length xs) refl,
        sound,
      )
