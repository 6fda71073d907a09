-- ===== src/Kv/Inv.antt =====
-- The invariant of the cache: every block has as many references as the request map holds.
use inference_sim.Prelude.{
  ℕ, ◌+◌, ◌<◌, ◌≡◌, sym, String, List, [], ◌∷◌, ◌++◌, some, arith, count, count-append, length, All,
  lookup, insert, erase, string_discrete, UniqueKeys, UniqueKeys-insert, if_pos, if_neg,
  length-append,
}
use inference_sim.Kv.State.{Cache, RequestMap, or_nil, append_id}
use inference_sim.Kv.Holds.{Holds, Holds-maps, Holds-ext, bump}

-- How often the requests of the map hold the block.
unfoldable pub refs : RequestMap → ℕ → ℕ
refs [] i = 0
refs (e ∷ m) i = count i e.1 + refs m i

pub record Inv (s : Cache) : Type 0 where
  pub holds : Holds s (refs s.request_map)
  pub unique : UniqueKeys string_discrete s.request_map
  pub filled : All (λ e. 0 < length e.1) s.request_map

pub refs-insert :
    (k : String) (v : List ℕ) (m : RequestMap) (i : ℕ)
    → refs (insert string_discrete k v m) i + count i (or_nil (lookup string_discrete k m))
      ≡ refs m i + count i v
unfolding refs insert lookup count
refs-insert k v [] i = omega arith
refs-insert k v (e ∷ m) i = ground (arith, refs-insert k v m i)

pub refs-append_id :
    (m : RequestMap) (k : String) (b i : ℕ) → refs (append_id m k b) i ≡ bump b (refs m) i
unfolding append_id count
refs-append_id m k b i =
    let ids = or_nil (lookup string_discrete k m) in
    ground (arith, refs-insert k (ids ++ b ∷ []) m i, count-append i ids (b ∷ []))

pub refs-erase :
    (k : String) (m : RequestMap) (i : ℕ)
    → refs m i ≡ count i (or_nil (lookup string_discrete k m)) + refs (erase string_discrete k m) i
unfolding refs erase lookup count
refs-erase k [] i = omega arith
refs-erase k (e ∷ m) i = ground (arith, refs-erase k m i)

filled-insert :
    (k : String) (v : List ℕ) (m : RequestMap)
    → 0 < length v
    → All (λ e. 0 < length e.1) m
    → All (λ e. 0 < length e.1) (insert string_discrete k v m)
unfolding insert
filled-insert k v [] h a = (h, tt)
filled-insert k v (e ∷ m) h a = elim (string_discrete k e.0) [
  | yes p ↦ rw (if_pos _ p) (h, a.1)
  | no p ↦ rw (if_neg _ p) (a.0, filled-insert k v m h a.1)
]

pub filled-erase :
    (k : String) (m : RequestMap)
    → All (λ e. 0 < length e.1) m
    → All (λ e. 0 < length e.1) (erase string_discrete k m)
unfolding erase
filled-erase k [] a = tt
filled-erase k (e ∷ m) a = elim (string_discrete k e.0) [
  | yes p ↦ rw (if_pos _ p) a.1
  | no p ↦ rw (if_neg _ p) (a.0, filled-erase k m a.1)
]

pub filled-lookup :
    (k : String) (m : RequestMap) (ids : List ℕ)
    → All (λ e. 0 < length e.1) m
    → lookup string_discrete k m ≡ some ids
    → 0 < length ids
unfolding lookup
filled-lookup k [] ids a e = cc
filled-lookup k (x ∷ m) ids a e = ground (arith, filled-lookup k m ids a.1)

pub filled-append_id :
    (m : RequestMap) (k : String) (b : ℕ)
    → All (λ e. 0 < length e.1) m
    → All (λ e. 0 < length e.1) (append_id m k b)
unfolding append_id
filled-append_id m k b a =
    let ids = or_nil (lookup string_discrete k m) in
    filled-insert k (ids ++ b ∷ []) m (omega (arith, length-append ids (b ∷ []))) a

-- One block more for a request.
pub append_id-Inv :
    (s : Cache) (k : String) (b hits misses : ℕ)
    → Holds s (bump b (refs s.request_map))
    → UniqueKeys string_discrete s.request_map
    → All (λ e. 0 < length e.1) s.request_map
    → Inv (record s {
      request_map = append_id s.request_map k b;
      cache_hits = hits;
      cache_misses = misses;
    })
unfolding append_id
append_id-Inv s k b hits misses h u a =
    let m = s.request_map in
    let ids = or_nil (lookup string_discrete k m) in
    record {
      holds =
          Holds-ext _ _ _ (λ i. sym (refs-append_id m k b i))
            (Holds-maps s _ (append_id m k b) s.hash_to_block hits misses h);
      unique = UniqueKeys-insert string_discrete k (ids ++ b ∷ []) m u;
      filled = filled-append_id m k b a;
    }
