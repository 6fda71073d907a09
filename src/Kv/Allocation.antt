-- ===== src/Kv/Allocation.antt =====
-- What AllocateKVBlocks promises, over its check and its loop together.
use inference_sim.Prelude.{
  ℕ, suc, ◌+◌, ◌≤◌, ◌<◌, ◌≡◌, refl, ◌∙◌, ap, subst, List, [], ◌∷◌, arith, string_discrete, length,
  ok, some, none, Option, ltb, ltb_false→le, panic, ◌>>=◌, lookup, Bool, true, false, Bool-cases,
  Option-cases, inl, inr, pos, ◌==◌, is_zero, ◌&&◌, Result,
}
use inference_sim.Hash.{Sha}
use inference_sim.Request.{Request, input_len}
use inference_sim.Kv.State.{Block, Cache}
use inference_sim.Kv.Allocate.{
  last_block, blocks_for, effective_tokens, allocate_loop, new_tokens_of, is_full, prefill_full,
  decode_full, allocate_kv_blocks, output_token,
}
use inference_sim.Kv.Inv.{Inv}
use inference_sim.Kv.Fresh.{Sized}
use inference_sim.Kv.Claim.{from_free, cached_from_free_list-ok}
use inference_sim.Kv.Loop.{Sound, needed, last_known, last_none, last_block-ok, loop_done}
use inference_sim.Kv.Total.{Usable, known_request, new_request}

-- The blocks that the check counts.
abbrev demand : Cache → ℕ → Option Block → List ℕ → ℕ
demand s n last cached = needed s.block_size n last + from_free s cached

blocks_for_one : (size : ℕ) → 0 < size → blocks_for 1 size ≡ 1
blocks_for_one size h = grind arith

-- A decode step that passes the check of its branch has the room that the loop asks for.
decode_room_none : (size c : ℕ) → 0 < size → is_zero (pos c) ≡ false → needed size 1 none ≤ c
unfolding effective_tokens
decode_room_none size c h e = ground (arith, blocks_for_one size h)

decode_room_some :
    (size c : ℕ) (blk : Block)
    → 0 < length blk.tokens
    → length blk.tokens ≤ size
    → (length blk.tokens == size && is_zero (pos c)) ≡ false
    → needed size 1 (some blk) ≤ c
unfolding effective_tokens
decode_room_some size c blk some_tok fits e = ground (arith, blocks_for_one size (omega arith))

one_token : (m : Result ℕ) (xs : List ℕ) → (m >>= λ t. ok (t ∷ [])) ≡ ok xs → length xs ≡ 1
one_token (ok t) xs e = ground arith
one_token (panic f) xs e = cc

module _ (sha : Sha) (req : Request) (s : Cache) (v : Inv s) (z : Sized s) where
  c : ℕ
  c = length v.holds.free_ids

  cnt : s.free_block_cnt ≡ pos c
  unfolding c
  cnt = v.holds.counted

  Sound-refl : Sound s s
  Sound-refl = record { inv = v; sized = z; total = refl; size = refl }

  -- The loop, given that the demand is met.
  loop_enough :
      (xs cached : List ℕ) (last : Option Block)
      → last_block s req.id ≡ ok last
      → demand s (length xs) last cached ≤ c
      → Usable s cached
      → (t : Cache) × (allocate_loop sha (suc (length xs)) s req cached xs 0 ≡ ok t) × Sound s t
  unfolding effective_tokens
  loop_enough [] cached last at enough u = (s, loop_done sha req cached [] 0 s 0 refl, Sound-refl)
  loop_enough (x ∷ xs) cached last at enough u =
      elim (Option-cases (lookup string_discrete req.id s.request_map)) [
        | inl e ↦
            let is_none : last ≡ none = cc (last_none s req.id e) in
            new_request sha req (x ∷ xs) (length xs) s cached c e cnt (ground arith) (omega arith) u
              v z
        | inr (ids, e) ↦
            let (b, is_last, below, held, p) = last_known s req.id ids v e in
            let is_some : last ≡ some (s.blocks b) = cc p in
            known_request sha req (x ∷ xs) (length xs) s cached ids b c e is_last below held cnt
              (let enough' = subst (λ o. demand s (suc (length xs)) o cached ≤ c) is_some enough in
                omega arith)
              (omega arith) (omega arith) v z
      ]

  prefill_full-demand :
      (n : ℕ) (cached : List ℕ) (last : Option Block)
      → last_block s req.id ≡ ok last
      → Usable s cached
      → prefill_full s req.id n cached ≡ ok (ltb c (demand s n last cached))
  unfolding prefill_full
  prefill_full-demand n cached last at u =
      rw at (rw (cached_from_free_list-ok s cached u.below, cnt) refl)

  decode_full-value :
      (last : Option Block)
      → last_block s req.id ≡ ok last
      → decode_full s req.id
        ≡ ok (elim last [
          | none ↦ is_zero (pos c)
          | some blk ↦ length blk.tokens == s.block_size && is_zero (pos c)
        ])
  unfolding decode_full
  decode_full-value none at = rw at (rw cnt refl)
  decode_full-value (some blk) at = rw at (rw cnt refl)

  -- In decode one block at most is needed, and only behind a full last block.
  decode_full-demand :
      (last : Option Block)
      → last_block s req.id ≡ ok last
      → decode_full s req.id ≡ ok false
      → demand s 1 last [] ≤ c
  decode_full-demand last at e = elim (Option-cases (lookup string_discrete req.id s.request_map)) [
    | inl e' ↦
        let is_none = last_none s req.id e' in
        let same : last ≡ none = cc is_none in
        let free : is_zero (pos c) ≡ false = cc (decode_full-value none is_none) in
        rw same (omega (arith, decode_room_none s.block_size c z.positive free))
    | inr (ids, e') ↦
        let (b, is_last, below, held, p) = last_known s req.id ids v e' in
        let same : last ≡ some (s.blocks b) = cc p in
        let (some_tok, fits) = z.held b held in
        let room : (length (s.blocks b).tokens == s.block_size && is_zero (pos c)) ≡ false =
          cc (decode_full-value (some (s.blocks b)) p) in
        rw same (omega (arith, decode_room_some s.block_size c (s.blocks b) some_tok fits room))
  ]

  is_full-demand :
      (xs cached : List ℕ) (start end : ℕ) (last : Option Block)
      → new_tokens_of sha req start end ≡ ok xs
      → (ltb req.progress_index (input_len req) ≡ false → cached ≡ [])
      → last_block s req.id ≡ ok last
      → Usable s cached
      → (full : Bool) × (is_full sha s req xs cached ≡ ok full)
        × (full ≡ false → demand s (length xs) last cached ≤ c)
  unfolding is_full new_tokens_of
  is_full-demand xs cached start end last tokens none_cached at u =
      elim (Bool-cases (ltb req.progress_index (input_len req))) [
        | inl prefill ↦ (
          ltb c (demand s (length xs) last cached),
          rw prefill (prefill_full-demand (length xs) cached last at u),
          λ e. ltb_false→le c _ e,
        )
        | inr decode ↦ (
          _,
          rw decode (decode_full-value last at),
          λ e.
              rw (one_token (output_token req start) xs (rw decode at tokens), none_cached decode)
                (decode_full-demand last at (decode_full-value last at ∙ ap ok e)),
        )
      ]

-- On a cache that satisfies the invariant and whose blocks are sized right, given full blocks of the
-- cache as the cached ones, none in a decode step, and tokens that exist, AllocateKVBlocks returns:
-- no index is out of range, popFreeBlock is never empty once the check has passed, and the loop ends.
-- The state it leaves satisfies the invariant, is sized right and has the same dimensions, and where
-- it reports failure the state is the one it was given.
pub allocate_kv_blocks-Sound :
    (sha : Sha) (req : Request) (s : Cache) (start end : ℕ) (cached xs : List ℕ)
    → Inv s
    → Sized s
    → Usable s cached
    → (ltb req.progress_index (input_len req) ≡ false → cached ≡ [])
    → new_tokens_of sha req start end ≡ ok xs
    → (t : Cache) × (done : Bool) × (allocate_kv_blocks sha s req start end cached ≡ ok (t, done))
      × Sound s t
      × (done ≡ false → t ≡ s)
unfolding allocate_kv_blocks
allocate_kv_blocks-Sound sha req s start end cached xs v z u none_cached tokens =
    let (last, at) = last_block-ok s req.id v in
    let (full, is, room) =
      is_full-demand sha req s v z xs cached start end last tokens none_cached at u in
    elim (Bool-cases full) [
      | inl e ↦ (s, false, rw tokens (rw is (rw e refl)), Sound-refl sha req s v z, λ _. refl)
      | inr e ↦
          let (t, ran, sound) = loop_enough sha req s v z xs cached last at (room e) u in
          (t, true, rw tokens (rw is (rw e (rw ran refl))), sound, λ h. cc h)
    ]
