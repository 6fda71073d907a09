-- ===== src/Tests/CpuTierTests.antt =====
-- The CPU tier of sim/kv/offload_cputier.go with room for two blocks.
use inference_sim.Prelude.{
  ℕ, ◌≡◌, none, lookup, String, List, [], ◌∷◌, ok, pos, suc, true, refl, string_discrete,
}
use inference_sim.Nodes.{holds}
use inference_sim.CpuTier
use inference_sim.CpuTier.{
  OffloadCpuTier, TierInv, Stored, Prepared, Kept, Evicted, KeepsLocked, new_offload_cpu_tier,
  store, fresh_keys, prepare_store, complete_store, pin, unpin, touch_key, evict_rounds,
}

abbrev cold :
    (t : OffloadCpuTier) × (new_offload_cpu_tier (pos (suc 1)) ≡ ok t)
    × TierInv t []
    × (t.capacity ≡ suc 1)
cold = CpuTier.new_offload_cpu_tier-TierInv 1

abbrev one_block : OffloadCpuTier
one_block = (store cold.0 "a").0

abbrev one_block-TierInv : (l : List ℕ) × TierInv one_block l
one_block-TierInv = (CpuTier.store-Stored cold.0 [] "a" cold.2).1

-- Both blocks are there, and "a" has a reader.
abbrev half_locked : OffloadCpuTier
half_locked = pin (store one_block "b").0 "a"

abbrev half_locked-TierInv : Kept (store one_block "b").0 half_locked
half_locked-TierInv =
    let (l, v) = (CpuTier.store-Stored one_block one_block-TierInv.0 "b" one_block-TierInv.1).1 in
    (CpuTier.pinning-Kept (store one_block "b").0 l "a" true v).1

-- The block of "b" makes room for "c".
store-Stored_example :
    Stored half_locked half_locked-TierInv.nodes_of "c" (store half_locked "c")
    × ((l1 : List ℕ) × TierInv (store half_locked "c").0 l1)
    × KeepsLocked half_locked (store half_locked "c").0
store-Stored_example =
    CpuTier.store-Stored half_locked half_locked-TierInv.nodes_of "c" half_locked-TierInv.inv

-- A promotion of two blocks, of which one is new.
abbrev promoted : List String
promoted = "a" ∷ "c" ∷ []

prepare_store-Prepared_example :
    Prepared half_locked half_locked-TierInv.nodes_of
      (fresh_keys half_locked promoted)
      (prepare_store half_locked promoted)
    × ((k : String)
        → lookup string_discrete k half_locked.nodes.entries ≡ none
        → holds k (fresh_keys half_locked promoted) ≡ holds k promoted)
    × ((l1 : List ℕ) × TierInv (prepare_store half_locked promoted).0 l1)
    × KeepsLocked half_locked (prepare_store half_locked promoted).0
unfolding holds string_discrete
prepare_store-Prepared_example =
    CpuTier.prepare_store-Prepared half_locked half_locked-TierInv.nodes_of promoted
      half_locked-TierInv.inv (refl, (refl, tt))

pinning-Kept_example :
    Kept (store cold.0 "a").0 (complete_store (store cold.0 "a").0 "a" true)
    × Kept (store cold.0 "a").0 (pin (store cold.0 "a").0 "a")
    × Kept (store cold.0 "a").0 (unpin (store cold.0 "a").0 "a")
    × Kept (store cold.0 "a").0 (touch_key (store cold.0 "a").0 "a")
pinning-Kept_example =
    CpuTier.pinning-Kept (store cold.0 "a").0 one_block-TierInv.0 "a" true one_block-TierInv.1

evict_rounds-Evicted_example :
    Evicted (store cold.0 "a").0 one_block-TierInv.0 3 (evict_rounds 3 (store cold.0 "a").0)
evict_rounds-Evicted_example =
    CpuTier.evict_rounds-Evicted 3 (store cold.0 "a").0 one_block-TierInv.0 one_block-TierInv.1
