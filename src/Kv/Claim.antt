-- ===== src/Kv/Claim.antt =====
-- How a round of AllocateKVBlocks starts: the request's own blocks, or the cached blocks claimed.
use inference_sim.Prelude.{
  ℕ, suc, ◌+◌, ◌-◌, ◌≤◌, All-count, ◌<◌, ◌≡◌, refl, ◌∙◌, ap, subst, String, List, [], ◌∷◌, ◌++◌,
  arith, string_discrete, length, ok, some, none, ltb, lt→ltb, if◌then◌else◌, get_last?, count,
  lookup, lookup-insert_self, true, Bool-cases, inl, inr, pos, All,
}
use mathlib.Core.List.{append_assoc}
use inference_sim.Kv.State.{Cache, or_nil, append_id}
use inference_sim.Kv.FreeList.{remove_from_free_list}
use inference_sim.Kv.Release.{acquire, commit_block, commit_cached_blocks}
use inference_sim.Kv.Allocate.{claim, cached_from_free_list}
use inference_sim.Kv.Inv.{Inv, refs}
use inference_sim.Kv.Sharing.{
  committed, committed-Frame, commit_block_map, commit_cached_blocks-Inv,
}
use inference_sim.Kv.Fill.{count-get_last?, get_last?-some}
use inference_sim.Kv.Fresh.{Sized}

-- cachedFromFreeList as a number.
abbrev pub from_free : Cache → List ℕ → ℕ
from_free s [] = 0
from_free s (b ∷ ids) = if (s.blocks b).in_use then from_free s ids else suc (from_free s ids)

pub cached_from_free_list-ok :
    (s : Cache) (ids : List ℕ)
    → All (λ b. b < s.total_blocks) ids
    → cached_from_free_list s ids ≡ ok (from_free s ids)
unfolding cached_from_free_list
cached_from_free_list-ok s [] a = refl
cached_from_free_list-ok s (b ∷ ids) a =
    rw (lt→ltb b s.total_blocks a.0, cached_from_free_list-ok s ids a.1) refl

-- Claiming takes a block off the free list only where the pre-check has counted one.
acquire_cnt :
    (s : Cache) (b c : ℕ)
    → s.free_block_cnt ≡ pos (suc c)
    → (d : ℕ) × ((acquire s b).free_block_cnt ≡ pos d)
      × (suc c ≤ d + (if (s.blocks b).in_use then 0 else 1))
unfolding acquire remove_from_free_list
acquire_cnt s b c e = elim (Bool-cases (s.blocks b).in_use) [
  | inl used ↦ (suc c, ground arith, ground arith)
  | inr idle ↦ (c, ground arith, ground arith)
]

acquire_in_use :
    (s : Cache) (b i : ℕ) → (s.blocks i).in_use ≡ true → ((acquire s b).blocks i).in_use ≡ true
unfolding acquire remove_from_free_list
acquire_in_use s b i e = ground arith

commit_block_in_use :
    (s : Cache) (k : String) (b i : ℕ)
    → (s.blocks i).in_use ≡ true
    → ((commit_block s k b).blocks i).in_use ≡ true
unfolding commit_block
commit_block_in_use s k b i e = acquire_in_use s b i e

from_free_mono :
    (s t : Cache) (ids : List ℕ)
    → ((i : ℕ) → (s.blocks i).in_use ≡ true → (t.blocks i).in_use ≡ true)
    → from_free t ids ≤ from_free s ids
from_free_mono s t [] h = omega arith
from_free_mono s t (b ∷ ids) h = ground (arith, h b, from_free_mono s t ids h)

commit_block_cnt :
    (s : Cache) (k : String) (b c : ℕ)
    → s.free_block_cnt ≡ pos c
    → (if (s.blocks b).in_use then 0 else 1) ≤ c
    → (d : ℕ) × ((commit_block s k b).free_block_cnt ≡ pos d)
      × (c ≤ d + (if (s.blocks b).in_use then 0 else 1))
unfolding commit_block acquire remove_from_free_list
commit_block_cnt s k b c e le = elim (Bool-cases (s.blocks b).in_use) [
  | inl used ↦ (c, ground arith, ground arith)
  | inr idle ↦ (c - 1, ground arith, ground arith)
]

pub committed_cnt :
    (s : Cache) (k : String) (ids : List ℕ) (c : ℕ)
    → s.free_block_cnt ≡ pos c
    → from_free s ids ≤ c
    → (d : ℕ) × ((committed s k ids).free_block_cnt ≡ pos d) × (c ≤ d + from_free s ids)
unfolding committed
committed_cnt s k [] c e le = (c, e, omega arith)
committed_cnt s k (b ∷ ids) c e le =
    let s1 = commit_block s k b in
    let (d, e1, le1) = commit_block_cnt s k b c e (ground arith) in
    let mono = from_free_mono s s1 ids (commit_block_in_use s k b) in
    let (d', e2, le2) = committed_cnt s1 k ids d e1 (ground arith) in (d', e2, ground arith)

-- The sequence that claiming leaves the request with.
pub lookup-committed :
    (s : Cache) (k : String) (b : ℕ) (ids : List ℕ)
    → lookup string_discrete k (committed s k (b ∷ ids)).request_map
      ≡ some (or_nil (lookup string_discrete k s.request_map) ++ b ∷ ids)
unfolding committed append_id
lookup-committed s k b [] =
    rw (commit_block_map s k b) (lookup-insert_self string_discrete k _ s.request_map)
lookup-committed s k b (c ∷ ids) =
    let before = or_nil (lookup string_discrete k s.request_map) in
    let s1 = commit_block s k b in
    let at : lookup string_discrete k s1.request_map ≡ some (before ++ b ∷ []) =
      rw (commit_block_map s k b) (lookup-insert_self string_discrete k _ s.request_map) in
    lookup-committed s1 k c ids
    ∙ ap (λ o. some (or_nil o ++ c ∷ ids)) at
    ∙ ap some (append_assoc before (b ∷ []) (c ∷ ids))

module _ (s : Cache) (k : String) (ids : List ℕ) (below : All (λ b. b < s.total_blocks) ids)
    (full : All (λ b. length (s.blocks b).tokens ≡ s.block_size) ids) (v : Inv s)
    (z : Sized s) where
  held_or_full :
      (i : ℕ)
      → 0 < count i ids + refs s.request_map i
      → (0 < length (s.blocks i).tokens) × (length (s.blocks i).tokens ≤ s.block_size)
  held_or_full i h = elim (Bool-cases (ltb 0 (count i ids))) [
    | inl in_ids ↦
        let e : length (s.blocks i).tokens ≡ s.block_size =
          All-count (λ b. length (s.blocks b).tokens ≡ s.block_size) i ids full (ground arith) in
        (omega (arith, z.positive), omega arith)
    | inr out ↦ z.held i (ground arith)
  ]

  pub committed-Sized : Sized (committed s k ids)
  committed-Sized =
      let f = committed-Frame s k ids in
      let more = (commit_cached_blocks-Inv s k ids below v).2 in
      record {
        positive = rw f.size z.positive;
        held = λ i h. rw (f.size, f.tokens i) (held_or_full i (subst (λ n. 0 < n) (more i) h));
      }

-- A round for a request with blocks starts at its last one.
pub claim-known :
    (s : Cache) (k : String) (cached ids : List ℕ) (b : ℕ)
    → lookup string_discrete k s.request_map ≡ some ids
    → get_last? ids ≡ some b
    → b < s.total_blocks
    → claim s k cached ≡ ok (s, ids, (s.blocks b).tokens)
unfolding claim
claim-known s k cached ids b e last lt = rw (e, claim) (rw (last, lt→ltb b s.total_blocks lt) refl)

-- A round for a request without blocks claims the cached ones.
pub claim-none :
    (s : Cache) (k : String)
    → lookup string_discrete k s.request_map ≡ none
    → claim s k [] ≡ ok (s, [], [])
unfolding claim commit_cached_blocks
claim-none s k e = rw (e, claim) refl

pub claim-cached :
    (s : Cache) (k : String) (c : ℕ) (cached : List ℕ)
    → lookup string_discrete k s.request_map ≡ none
    → All (λ b. b < s.total_blocks) (c ∷ cached)
    → Inv s
    → (b : ℕ) × (get_last? (c ∷ cached) ≡ some b)
      × (b < s.total_blocks)
      × (claim s k (c ∷ cached) ≡ ok (committed s k (c ∷ cached), c ∷ cached, (s.blocks b).tokens))
unfolding claim
claim-cached s k c cached e below v =
    let ids = c ∷ cached in
    let t = committed s k ids in
    let f = committed-Frame s k ids in
    let (b, last) = get_last?-some ids (omega arith) in
    let lt = All-count (λ i. i < s.total_blocks) b ids below (count-get_last? ids b last) in
    let at : lookup string_discrete k t.request_map ≡ some ids =
      lookup-committed s k c cached ∙ ap (λ o. some (or_nil o ++ ids)) e in
    (
      b,
      last,
      lt,
      rw (e, claim)
          (rw
            (
              (commit_cached_blocks-Inv s k ids below v).0,
              at,
              last,
              f.total,
              lt→ltb b s.total_blocks lt,
              f.tokens b,
            )
            refl),
    )
