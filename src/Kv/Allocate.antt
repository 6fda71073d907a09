-- ===== src/Kv/Allocate.antt =====
-- AllocateKVBlocks: the check before any change, and the loop that fills the last block and takes
-- fresh ones. A request comes with its record, since the code reads its progress and its tokens.
use inference_sim.Prelude.{
  ℕ, zero, suc, ◌+◌, ◌-◌, ◌/◌, min, String, List, [], ◌∷◌, ◌++◌, Option, some, none, Bool, true,
  false, ◌&&◌, ltb, ◌==◌, if◌then◌else◌, exceeds, pos, is_zero, Result, ok, panic, or_panic,
  index_out_of_range, violation, out_of_fuel, ◌>>=◌, length, get_elem?, get_last?, lookup,
  string_discrete, ite,
}
use inference_sim.Hash.{Sha, hash_block}
use inference_sim.Request.{Request, input_len, input_token_slice}
use inference_sim.Kv.State.{Block, Cache, block_at, set_block, set_hash, or_nil, append_id}
use inference_sim.Kv.FreeList.{pop_free_block}
use inference_sim.Kv.Lookup.{slice}
use inference_sim.Kv.Release.{commit_cached_blocks}

-- (n + blockSize - 1) / blockSize
abbrev pub blocks_for : ℕ → ℕ → ℕ
blocks_for n block_size = (n + block_size - 1) / block_size

-- The last block of the request, if it has any.
unfoldable pub last_block : Cache → String → Result (Option Block)
last_block s req_id = elim (get_last? (or_nil (lookup string_discrete req_id s.request_map))) [
  | none ↦ ok none
  | some id ↦ do blk ← block_at s id; ok (some blk)
]

-- effectiveTokens: what the request's last block will not absorb.
unfoldable pub effective_tokens : ℕ → ℕ → Option Block → ℕ
effective_tokens block_size n none = n
effective_tokens block_size n (some blk) =
    let spare = block_size - length blk.tokens in
    if ltb 0 spare && ltb spare block_size then n - min spare n else n

-- cachedFromFreeList: the cached blocks that claiming takes off the free list.
unfoldable pub cached_from_free_list : Cache → List ℕ → Result ℕ
cached_from_free_list s [] = ok 0
cached_from_free_list s (id ∷ ids) = do
  blk ← block_at s id
  n ← cached_from_free_list s ids
  ok (if blk.in_use then n else suc n)

-- The check of the prefill branch: whether the blocks needed exceed the free ones.
unfoldable pub prefill_full : Cache → String → ℕ → List ℕ → Result Bool
unfolding last_block effective_tokens cached_from_free_list
prefill_full s req_id n cached = do
  last ← last_block s req_id
  let effective = effective_tokens s.block_size n last
  let num_new = if ltb 0 effective then blocks_for effective s.block_size else 0
  from_free ← cached_from_free_list s cached
  ok (exceeds (num_new + from_free) s.free_block_cnt)

-- The check of the decode branch.
unfoldable pub decode_full : Cache → String → Result Bool
unfolding last_block
decode_full s req_id = do
  last ← last_block s req_id
  ok (elim last [
    | none ↦ is_zero s.free_block_cnt
    | some blk ↦ length blk.tokens == s.block_size && is_zero s.free_block_cnt
  ])

-- req.OutputTokens[startIndex-req.InputLen()]
unfoldable pub output_token : Request → ℕ → Result ℕ
output_token r start =
    if ltb start (input_len r)
    then panic index_out_of_range
    else or_panic (get_elem? r.output_tokens (start - input_len r)) index_out_of_range

-- Where a round starts: the state once cached blocks are claimed, the request's sequence, and the
-- tokens of its latest block (nil for the empty block that stands for none).
unfoldable pub claim : Cache → String → List ℕ → Result (Cache × List ℕ × List ℕ)
claim s req_id cached = elim (lookup string_discrete req_id s.request_map) [
  | some ids ↦ do
    id ← or_panic (get_last? ids) index_out_of_range
    blk ← block_at s id
    ok (s, ids, blk.tokens)
  | none ↦ do
    s1 ← commit_cached_blocks s req_id cached
    elim cached [
      | [] ↦ ok (s1, [], [])
      | _ ↦ do
        id ←
            or_panic (get_last? (or_nil (lookup string_discrete req_id s1.request_map)))
              index_out_of_range
        blk ← block_at s1 id
        ok (s1, or_nil (lookup string_discrete req_id s1.request_map), blk.tokens)
    ]
]

module _ (sha : Sha) where
  -- blk.Hash = h; kvc.HashToBlock[h] = blk.ID
  unfoldable pub register : Cache → ℕ → String → Cache
  register s id prev =
      let blk = s.blocks id in
      let h = hash_block sha prev blk.tokens in
      set_hash (set_block s id (record blk { hash = h })) h (some id)

  -- The hash of the block before the last, "" for a sequence of one.
  unfoldable pub previous_hash : Cache → List ℕ → Result String
  previous_hash s ids =
      if ltb 1 (length ids)
      then (do
        id ← or_panic (get_elem? ids (length ids - 2)) index_out_of_range
        blk ← block_at s id
        ok blk.hash)
      else ok ""

  -- The branch that appends to the latest block: the state and newTokenProgressIndex.
  unfoldable pub fill_last : Cache → List ℕ → List ℕ → List ℕ → ℕ → Result (Cache × ℕ)
  unfolding register previous_hash
  fill_last s ids latest new_tokens idx = do
    id ← or_panic (get_last? ids) index_out_of_range
    let remaining = s.block_size - length latest
    let chunk = slice idx (min (idx + remaining) (length new_tokens)) new_tokens
    let s1 = set_block s id (record (s.blocks id) { tokens = latest ++ chunk })
    if length (latest ++ chunk) == s.block_size
        then (do prev ← previous_hash s1 ids; ok (register s1 id prev, idx + length chunk))
        else ok (s1, idx + length chunk)

  -- if blk.Hash != "" { delete(kvc.HashToBlock, blk.Hash); blk.Hash = "" }
  unfoldable pub evict_hash : Cache → ℕ → Cache
  evict_hash s id =
      ite (string_discrete (s.blocks id).hash "") s
        (set_block (set_hash s (s.blocks id).hash none) id (record (s.blocks id) { hash = "" }))

  -- The body of the inner loop once a block is popped: the state, its hash for the next round.
  unfoldable pub fill_fresh : Cache → Request → ℕ → List ℕ → String → Cache × String
  unfolding register evict_hash append_id
  fill_fresh s req id tok prev =
      let s1 = evict_hash s id in
      let blk = s1.blocks id in
      let s2 = set_block s1 id (record blk { tokens = tok; ref_count = pos 1; in_use = true }) in
      let s3 = record s2 { cache_misses = s2.cache_misses + 1 } in
      let hashed = length tok == s.block_size && ltb req.progress_index (input_len req) in
      let s4 = if hashed then register s3 id prev else s3 in
      (
        record s4 { request_map = append_id s4.request_map req.id id },
        if hashed then hash_block sha prev tok else prev,
      )

  -- The inner loop: a fresh block for each of the rounds left.
  unfoldable pub fresh_loop : ℕ → Cache → Request → List ℕ → ℕ → String → Result (Cache × ℕ)
  unfolding fill_fresh pop_free_block
  fresh_loop zero s req new_tokens idx prev = ok (s, idx)
  fresh_loop (suc rounds) s req new_tokens idx prev = elim (pop_free_block s) [
    | none ↦ panic violation
    | some (s1, id) ↦
        let end = min (idx + s1.block_size) (length new_tokens) in
        let filled = fill_fresh s1 req id (slice idx end new_tokens) prev in
        fresh_loop rounds filled.0 req new_tokens end filled.1
  ]

  -- The branch that allocates: prevHash is that of the request's last block.
  unfoldable pub allocate_fresh : Cache → Request → List ℕ → ℕ → Result (Cache × ℕ)
  unfolding fresh_loop last_block
  allocate_fresh s req new_tokens idx = do
    last ← last_block s req.id
    fresh_loop (blocks_for (length new_tokens - idx) s.block_size) s req new_tokens idx
        (elim last [ none ↦ "" | some blk ↦ blk.hash ])

  -- One round of the outer loop. The source's `break` when no token remains cannot be met, since
  -- the loop's test has just passed.
  unfoldable pub allocate_round : Cache → Request → List ℕ → List ℕ → ℕ → Result (Cache × ℕ)
  unfolding claim fill_last allocate_fresh
  allocate_round s req cached new_tokens idx = do
    (s1, ids, latest) ← claim s req.id cached
    if ltb 0 (length latest) && ltb (length latest) s1.block_size
        then fill_last s1 ids latest new_tokens idx
        else allocate_fresh s1 req new_tokens idx

  -- The outer loop, on fuel.
  unfoldable pub allocate_loop : ℕ → Cache → Request → List ℕ → List ℕ → ℕ → Result Cache
  unfolding allocate_round
  allocate_loop zero s req cached new_tokens idx = panic out_of_fuel
  allocate_loop (suc fuel) s req cached new_tokens idx =
      if ltb idx (length new_tokens)
      then (allocate_round s req cached new_tokens idx >>= λ r.
          allocate_loop fuel r.0 req cached new_tokens r.1)
      else ok s

  unfoldable pub new_tokens_of : Request → ℕ → ℕ → Result (List ℕ)
  unfolding input_token_slice output_token
  new_tokens_of req start end =
      if ltb req.progress_index (input_len req)
      then input_token_slice req start end
      else (do t ← output_token req start; ok (t ∷ []))

  unfoldable pub is_full : Cache → Request → List ℕ → List ℕ → Result Bool
  unfolding prefill_full decode_full
  is_full s req new_tokens cached =
      if ltb req.progress_index (input_len req)
      then prefill_full s req.id (length new_tokens) cached
      else decode_full s req.id

  -- AllocateKVBlocks. A round consumes a token at least, so the fuel is one more than the tokens.
  unfoldable pub allocate_kv_blocks : Cache → Request → ℕ → ℕ → List ℕ → Result (Cache × Bool)
  unfolding new_tokens_of is_full allocate_loop
  allocate_kv_blocks s req start end cached = do
    new_tokens ← new_tokens_of req start end
    full ← is_full s req new_tokens cached
    if full then ok (s, false) else (do
      s1 ← allocate_loop (suc (length new_tokens)) s req cached new_tokens 0
      ok (s1, true))
