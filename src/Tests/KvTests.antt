-- ===== src/Tests/KvTests.antt =====
-- The block cache of sim/kv/cache.go, with four blocks of two tokens.
use inference_sim.Prelude.{
  ℕ, ◌+◌, ◌≡◌, refl, [], ◌∷◌, Bool, true, false, ok, some, lookup, arith, count, erase,
  string_discrete, ℕ_discrete, String, List, ◌++◌, length, pos, ◌>>=◌,
}
use inference_sim.Dll
use inference_sim.Dll.{append_tail-Represents, Represents-empty}
use inference_sim.Hash
use inference_sim.Hash.{Sha, compute_block_hashes}
use inference_sim.Request.{Request, queued}
use inference_sim.Kv.State.{Cache, or_nil}
use inference_sim.Kv.FreeList.{new_kv_cache_state, blank, verify_block_conservation}
use inference_sim.Kv.Lookup.{get_cached_blocks, query, snapshot_cached_blocks_fn}
use inference_sim.Kv.Release.{commit_cached_blocks, release_kv_blocks}
use inference_sim.Kv.Allocate.{allocate_kv_blocks, new_tokens_of}
use inference_sim.Kv.Inv.{Inv, refs}
use inference_sim.Kv.Fresh.{Sized}
use inference_sim.Kv.Loop.{Sound}
use inference_sim.Kv.Sharing.{committed, released}
use inference_sim.Kv.Sharing
use inference_sim.Kv.Total.{Usable}
use inference_sim.Kv.Allocation
use inference_sim.Kv.Conservation
use inference_sim.Kv.Construction
use inference_sim.Kv.Prefix
use inference_sim.Kv.Prefix.{known_prefix}

-- A stand-in for SHA256: the text hashed is its own digest.
abbrev sha : Sha
sha = record { digest = λ s. s; decimal = λ n. "t" }

abbrev prompt : Request
prompt = record {
  id = "r";
  input_tokens = 5 ∷ 6 ∷ 7 ∷ [];
  output_tokens = 8 ∷ [];
  state = queued;
  progress_index = 0;
  num_new_tokens = 0;
  arrival_time = 0;
  tenant_id = "";
  slo_class = "standard";
  slo_target_us = pos 0;
  gateway_enqueue_time = pos 0;
}

-- A fresh cache, and the facts about it.
abbrev fresh :
    (s : Cache) × (new_kv_cache_state 4 2 ≡ ok s)
    × Inv s
    × Sized s
    × (s.total_blocks ≡ 4)
    × (s.free_block_cnt ≡ pos 4)
fresh = Construction.new_kv_cache_state-Inv 4 2 (omega arith) (omega arith)

no_blocks : (s : Cache) → Usable s []
no_blocks s = record { below = tt; full = tt }

-- The prompt's tokens.
prompt_tokens : new_tokens_of sha prompt 0 3 ≡ ok (5 ∷ 6 ∷ 7 ∷ [])
unfolding new_tokens_of
prompt_tokens = refl

new_kv_cache_state-Inv_example :
    (s : Cache) × (new_kv_cache_state 4 2 ≡ ok s)
    × Inv s
    × Sized s
    × (s.total_blocks ≡ 4)
    × (s.free_block_cnt ≡ pos 4)
new_kv_cache_state-Inv_example = Construction.new_kv_cache_state-Inv 4 2 (omega arith) (omega arith)

allocate_kv_blocks-Sound_example :
    (t : Cache) × (done : Bool) × (allocate_kv_blocks sha fresh.0 prompt 0 3 [] ≡ ok (t, done))
    × Sound fresh.0 t
    × (done ≡ false → t ≡ fresh.0)
allocate_kv_blocks-Sound_example =
    Allocation.allocate_kv_blocks-Sound sha prompt fresh.0 0 3 [] (5 ∷ 6 ∷ 7 ∷ []) fresh.2 fresh.3
      (no_blocks fresh.0) (λ _. refl) prompt_tokens

-- The cache after the prompt has been allocated.
abbrev loaded :
    (t : Cache) × (done : Bool) × (allocate_kv_blocks sha fresh.0 prompt 0 3 [] ≡ ok (t, done))
    × Sound fresh.0 t
    × (done ≡ false → t ≡ fresh.0)
loaded =
    Allocation.allocate_kv_blocks-Sound sha prompt fresh.0 0 3 [] (5 ∷ 6 ∷ 7 ∷ []) fresh.2 fresh.3
      (no_blocks fresh.0) (λ _. refl) prompt_tokens

release_kv_blocks-Inv_example :
    (release_kv_blocks loaded.0 "r" ≡ ok (released loaded.0 "r"))
    × Inv (released loaded.0 "r")
    × ((released loaded.0 "r").request_map ≡ erase string_discrete "r" loaded.0.request_map)
    × ((i : ℕ)
        → refs loaded.0.request_map i
          ≡ count i (or_nil (lookup string_discrete "r" loaded.0.request_map))
            + refs (released loaded.0 "r").request_map i)
release_kv_blocks-Inv_example = Sharing.release_kv_blocks-Inv loaded.0 "r" loaded.3.inv

verify_block_conservation-Inv_example :
    verify_block_conservation loaded.0.total_blocks loaded.0 ≡ ok true
verify_block_conservation-Inv_example =
    Conservation.verify_block_conservation-Inv loaded.0 loaded.3.inv

commit_cached_blocks-Inv_example :
    (commit_cached_blocks fresh.0 "q" (1 ∷ 3 ∷ []) ≡ ok (committed fresh.0 "q" (1 ∷ 3 ∷ [])))
    × Inv (committed fresh.0 "q" (1 ∷ 3 ∷ []))
    × ((i : ℕ)
        → refs (committed fresh.0 "q" (1 ∷ 3 ∷ [])).request_map i
          ≡ count i (1 ∷ 3 ∷ []) + refs fresh.0.request_map i)
commit_cached_blocks-Inv_example =
    Sharing.commit_cached_blocks-Inv fresh.0 "q" (1 ∷ 3 ∷ []) (omega (arith, fresh.4)) fresh.2

-- A cache whose table knows every hash.
abbrev warm : Cache
warm = record (blank 4 2) { hash_to_block = λ h. some 1 }

prompt_hashes : compute_block_hashes sha 2 (5 ∷ 6 ∷ 7 ∷ []) ≡ ok ("t|t|" ∷ [])
unfolding compute_block_hashes
prompt_hashes = refl

get_cached_blocks-known_prefix_example :
    get_cached_blocks sha warm (5 ∷ 6 ∷ 7 ∷ []) ≡ ok (known_prefix warm.hash_to_block ("t|t|" ∷ []))
get_cached_blocks-known_prefix_example =
    Prefix.get_cached_blocks-known_prefix sha warm (5 ∷ 6 ∷ 7 ∷ []) ("t|t|" ∷ []) prompt_hashes

snapshot_cached_blocks_fn-length_example :
    query sha (snapshot_cached_blocks_fn loaded.0) (5 ∷ 6 ∷ 7 ∷ [])
    ≡ (do ids ← get_cached_blocks sha loaded.0 (5 ∷ 6 ∷ 7 ∷ []); ok (length ids))
snapshot_cached_blocks_fn-length_example =
    Prefix.snapshot_cached_blocks_fn-length sha loaded.0 (5 ∷ 6 ∷ 7 ∷ [])

-- A list of three nodes.
abbrev three : Dll.Dll
three = Dll.append_tail (Dll.append_tail (Dll.append_tail Dll.empty 0) 1) 2

unlink-Represents_example : Dll.Represents (Dll.unlink three 1) (0 ∷ 2 ∷ [])
unfolding count ℕ_discrete Dll.remove
unlink-Represents_example = Dll.unlink-Represents three 1 (0 ∷ 1 ∷ 2 ∷ []) (omega arith) (
    append_tail-Represents (Dll.append_tail (Dll.append_tail Dll.empty 0) 1) 2 (0 ∷ 1 ∷ [])
      ((ground arith, (ground arith, tt)))
      (append_tail-Represents (Dll.append_tail Dll.empty 0) 1 (0 ∷ []) (ground arith, tt)
        (append_tail-Represents Dll.empty 0 [] tt Represents-empty)))

-- The tokens that follow the prompt.
abbrev suffix : List ℕ
suffix = 8 ∷ 9 ∷ 1 ∷ []

compute_block_hashes-append_example :
    (hashes : List String) × (rest : List String) × (compute_block_hashes sha 2 prompt.input_tokens
      ≡ ok hashes)
    × (compute_block_hashes sha 2 (prompt.input_tokens ++ suffix) ≡ ok (hashes ++ rest))
compute_block_hashes-append_example =
    Hash.Prefix.compute_block_hashes-append sha 2 prompt.input_tokens suffix (omega arith)
