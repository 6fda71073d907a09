-- ===== src/CpuTier/Defs.antt =====
-- The state and the operations. A BlockKey is the text of a digest.
use inference_sim.Prelude.{
  ℕ, zero, suc, ◌+◌, String, List, [], ◌∷◌, Option, some, none, Bool, true, false, not, ◌||◌, ℤ,
  pos, negsuc, incr, decr, is_zero, ltb_ℤ, eqb_ℤ, pos_part, ◌+ℤ◌, ◌-ℤ◌, Result, ok, panic,
  bad_argument, ◌==◌, if◌then◌else◌, length, lookup, string_discrete, ite, ℕ_discrete,
}
use inference_sim.Dll.{Dll}
use inference_sim.Dll
use inference_sim.Nodes.{Nodes, no_nodes, new_node, forget, push_back}

pub data CpuLookupResult : Type 0 where
  cpu_miss cpu_hit cpu_hit_pending : CpuLookupResult

pub record OffloadCpuTier : Type 0 where
  pub nodes : Nodes
  pub ref_cnt : ℕ → ℤ
  pub capacity : ℕ
  pub used : ℤ
  pub evictable : ℤ
  pub evictions : ℕ

-- newOffloadCPUTier
unfoldable pub new_offload_cpu_tier : ℤ → Result OffloadCpuTier
new_offload_cpu_tier (pos zero) = panic bad_argument
new_offload_cpu_tier (pos (suc n)) = ok (record {
  nodes = no_nodes;
  ref_cnt = λ n. pos 0;
  capacity = suc n;
  used = pos 0;
  evictable = pos 0;
  evictions = 0;
})
new_offload_cpu_tier (negsuc n) = panic bad_argument

abbrev pub set_ref : (ℕ → ℤ) → ℕ → ℤ → ℕ → ℤ
set_ref refs n r m = ite (ℕ_discrete m n) r (refs m)

-- lookup
unfoldable pub look_up : OffloadCpuTier → String → CpuLookupResult
look_up t key = elim (lookup string_discrete key t.nodes.entries) [
  | none ↦ cpu_miss
  | some n ↦ if eqb_ℤ (t.ref_cnt n) (negsuc 0) then cpu_hit_pending else cpu_hit
]

-- lruHead == blk, lruTail == blk
abbrev pub points_at : Option ℕ → ℕ → Bool
points_at none b = false
points_at (some a) b = a == b

-- if blk.prev != nil { … } else if t.lruHead == blk { t.lruHead = blk.next }
unfoldable pub skip_prev : Dll → ℕ → Option ℕ → Option ℕ → Dll
skip_prev d b (some p) n = record d { links = Dll.set_next d.links p n }
skip_prev d b none n = if points_at d.head b then record d { head = n } else d

-- if blk.next != nil { … } else if t.lruTail == blk { t.lruTail = blk.prev }
unfoldable pub skip_next : Dll → ℕ → Option ℕ → Option ℕ → Dll
skip_next d b (some n) p = record d { links = Dll.set_prev d.links n p }
skip_next d b none p = if points_at d.tail b then record d { tail = p } else d

-- unlink
unfoldable pub unlink_block : Dll → ℕ → Dll
unfolding skip_prev skip_next
unlink_block d b =
    let d1 = skip_prev d b (d.links b).prev (d.links b).next in
    let d2 = skip_next d1 b (d1.links b).next (d1.links b).prev in
    record d2 { links = Dll.set_prev (Dll.set_next d2.links b none) b none }

unfoldable pub unlink : Nodes → ℕ → Nodes
unlink x n = record x { list = unlink_block x.list n }

-- touch
unfoldable pub touch : OffloadCpuTier → ℕ → OffloadCpuTier
unfolding push_back unlink
touch t n = record t { nodes = push_back (unlink t.nodes n) n }

-- The body of the loop of evict.
unfoldable pub evict_head : OffloadCpuTier → ℕ → OffloadCpuTier
unfolding unlink forget
evict_head t victim = record t {
  nodes = forget (unlink t.nodes victim) (t.nodes.key_of victim);
  used = decr t.used;
  evictable = decr t.evictable;
  evictions = t.evictions + 1;
}

-- The loop of evict, for the rounds left: the state, and how many blocks went.
unfoldable pub evict_rounds : ℕ → OffloadCpuTier → OffloadCpuTier × ℕ
unfolding evict_head
evict_rounds zero t = (t, 0)
evict_rounds (suc rounds) t = elim t.nodes.list.head [
  | none ↦ (t, 0)
  | some victim ↦ let (t1, cnt) = evict_rounds rounds (evict_head t victim) in (t1, suc cnt)
]

-- evict
unfoldable pub evict : OffloadCpuTier → ℤ → OffloadCpuTier × ℕ
unfolding evict_rounds
evict t n = evict_rounds (pos_part n) t

-- A ready block comes in: &offloadCPUBlock{key: key, refCnt: 0}, at the tail.
unfoldable pub add_ready : OffloadCpuTier → String → OffloadCpuTier
unfolding new_node push_back
add_ready t key = record t {
  nodes = push_back (new_node t.nodes key) t.nodes.allocated;
  ref_cnt = set_ref t.ref_cnt t.nodes.allocated (pos 0);
  used = incr t.used;
  evictable = incr t.evictable;
}

-- store
unfoldable pub store : OffloadCpuTier → String → OffloadCpuTier × Bool
unfolding touch evict add_ready
store t key = elim (lookup string_discrete key t.nodes.entries) [
  | some n ↦ (if is_zero (t.ref_cnt n) then touch t n else t, true)
  | none ↦
      if ltb_ℤ t.used (pos t.capacity)
      then (add_ready t key, true)
      else (let (t1, cnt) = evict t (pos 1) in
          if cnt == 0 then (t1, false) else (add_ready t1 key, true))
]

-- The loop of prepareStore that collects the keys which are not present.
unfoldable pub fresh_keys : OffloadCpuTier → List String → List String
fresh_keys t [] = []
fresh_keys t (k ∷ keys) =
    let rest = fresh_keys t keys in
    elim (lookup string_discrete k t.nodes.entries) [ none ↦ k ∷ rest | some n ↦ rest ]

-- Its last loop: &offloadCPUBlock{key: key, refCnt: -1}, off the list.
unfoldable pub add_pending : OffloadCpuTier → String → OffloadCpuTier
unfolding new_node
add_pending t key = record t {
  nodes = new_node t.nodes key;
  ref_cnt = set_ref t.ref_cnt t.nodes.allocated (negsuc 0);
  used = incr t.used;
}

unfoldable pub add_all_pending : OffloadCpuTier → List String → OffloadCpuTier
add_all_pending t [] = t
add_all_pending t (k ∷ keys) = add_all_pending (add_pending t k) keys

-- prepareStore
unfoldable pub prepare_store : OffloadCpuTier → List String → OffloadCpuTier × ℕ
unfolding fresh_keys evict add_all_pending
prepare_store t req_keys =
    let fresh = fresh_keys t req_keys in
    let k = pos (length fresh) in
    let free = pos t.capacity -ℤ t.used in
    let to_evict = k -ℤ free in
    let t1 = if ltb_ℤ (pos 0) to_evict then (evict t to_evict).0 else t in
    if is_zero k || ltb_ℤ (free +ℤ t.evictable) k
    then (t, 0)
    else (add_all_pending t1 fresh, length fresh)

-- completeStore
unfoldable pub complete_store : OffloadCpuTier → String → Bool → OffloadCpuTier
unfolding push_back forget
complete_store t key done = elim (lookup string_discrete key t.nodes.entries) [
  | none ↦ t
  | some n ↦
      if eqb_ℤ (t.ref_cnt n) (negsuc 0)
      then if done
        then record t {
          nodes = push_back t.nodes n;
          ref_cnt = set_ref t.ref_cnt n (pos 0);
          evictable = incr t.evictable;
        }
        else record t { nodes = forget t.nodes key; used = decr t.used }
      else t
]

-- pin
unfoldable pub pin : OffloadCpuTier → String → OffloadCpuTier
unfolding unlink
pin t key = elim (lookup string_discrete key t.nodes.entries) [
  | none ↦ t
  | some n ↦
      if ltb_ℤ (t.ref_cnt n) (pos 0)
      then t
      else let refs = set_ref t.ref_cnt n (incr (t.ref_cnt n)) in
        if is_zero (t.ref_cnt n)
        then record t { nodes = unlink t.nodes n; ref_cnt = refs; evictable = decr t.evictable }
        else record t { ref_cnt = refs }
]

-- unpin
unfoldable pub unpin : OffloadCpuTier → String → OffloadCpuTier
unfolding push_back
unpin t key = elim (lookup string_discrete key t.nodes.entries) [
  | none ↦ t
  | some n ↦
      if not (ltb_ℤ (pos 0) (t.ref_cnt n))
      then t
      else let refs = set_ref t.ref_cnt n (decr (t.ref_cnt n)) in
        if is_zero (decr (t.ref_cnt n))
        then record t { nodes = push_back t.nodes n; ref_cnt = refs; evictable = incr t.evictable }
        else record t { ref_cnt = refs }
]

-- touchKey
unfoldable pub touch_key : OffloadCpuTier → String → OffloadCpuTier
unfolding touch
touch_key t key = elim (lookup string_discrete key t.nodes.entries) [
  | none ↦ t
  | some n ↦ if is_zero (t.ref_cnt n) then touch t n else t
]
