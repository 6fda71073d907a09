-- ===== src/Kv/Holds.antt =====
-- Who holds a block: the free list, the flags and the reference counts against a function that
-- says how many holders each block has.
use inference_sim.Prelude.{
  ℕ, suc, ◌≤◌, ◌<◌, ◌≡◌, ap, subst, String, Option, pos, decr, is_zero, true, false, some, List, [],
  ◌∷◌, ◌++◌, arith, ltb, if◌then◌else◌, ◌==◌, ite, ℕ_discrete, count, count-append,
  count_zero→NotIn, length, length-append, Bool-cases, inl, inr, NotIn,
}
use inference_sim.Dll
use inference_sim.Dll.{Represents, remove}
use mathlib.Core.Path.{fun_ext}
use inference_sim.Kv.State.{RequestMap, Cache, set_block}
use inference_sim.Kv.FreeList.{remove_from_free_list, pop_free_block, pop_head}
use inference_sim.Kv.Release.{acquire, drop_block}

-- One more holder of the block b.
abbrev pub bump : ℕ → (ℕ → ℕ) → ℕ → ℕ
bump b f i = ite (ℕ_discrete i b) (suc (f i)) (f i)

-- What the list of free blocks must count at a block with so many holders.
abbrev pub vacancy : ℕ → ℕ → ℕ → ℕ
vacancy total i holders = if ltb i total then (if holders == 0 then 1 else 0) else 0

pub record Holds (s : Cache) (f : ℕ → ℕ) : Type 0 where
  pub free_ids : List ℕ
  pub listed : Represents s.free free_ids
  pub counted : s.free_block_cnt ≡ pos (length free_ids)
  pub refs : (i : ℕ) → (s.blocks i).ref_count ≡ pos (f i)
  pub busy : (i : ℕ) → (s.blocks i).in_use ≡ ltb 0 (f i)
  pub vacant : (i : ℕ) → count i free_ids ≡ vacancy s.total_blocks i (f i)
  pub beyond : (i : ℕ) → s.total_blocks ≤ i → f i ≡ 0

count_middle :
    (b i : ℕ) (xs : List ℕ) → 0 < count b xs → count i xs ≡ bump b (λ j. count j (remove b xs)) i
unfolding count remove
count_middle b i [] h = absurd (omega arith)
count_middle b i (x ∷ xs) h = ground (arith, count_middle b i xs)

length-remove : (b : ℕ) (xs : List ℕ) → 0 < count b xs → length xs ≡ suc (length (remove b xs))
unfolding count remove
length-remove b [] h = absurd (omega arith)
length-remove b (x ∷ xs) h = ground (arith, length-remove b xs)

free_of_idle :
    (s : Cache) (b : ℕ) (f : ℕ → ℕ) (h : Holds s f)
    → b < s.total_blocks
    → f b ≡ 0
    → 0 < count b h.free_ids
free_of_idle s b f h lt e = ground (arith, h.vacant b)

-- Taking a hold of a block, in use or free.
pub acquire-Holds :
    (s : Cache) (b : ℕ) (f : ℕ → ℕ)
    → b < s.total_blocks
    → Holds s f
    → Holds (acquire s b) (bump b f)
unfolding acquire
acquire-Holds s b f lt h = elim (Bool-cases (s.blocks b).in_use) [
  | inl used ↦
      rw (used, acquire)
        (record {
          free_ids = h.free_ids;
          listed = h.listed;
          counted = h.counted;
          refs = λ i. ground (arith, h.refs i);
          busy = λ i. ground (arith, h.busy i);
          vacant = λ i. ground (arith, h.vacant i, h.busy i, h.busy b);
          beyond = λ i le. ground (arith, h.beyond i le);
        })
  | inr idle ↦
      let at = free_of_idle s b f h lt (ground (arith, h.busy b)) in
      rw (idle, acquire)
        (record {
          free_ids = remove b h.free_ids;
          listed = Dll.unlink-Represents s.free b h.free_ids at h.listed;
          counted = ground (arith, h.counted, length-remove b h.free_ids at);
          refs = λ i. ground (arith, h.refs i);
          busy = λ i. ground (arith, h.busy i);
          vacant =
              λ i. ground (arith, h.vacant i, h.vacant b, h.busy b, count_middle b i h.free_ids at);
          beyond = λ i le. ground (arith, h.beyond i le);
        })
]

vacant_behind :
    (total b : ℕ) (f : ℕ → ℕ) (l : List ℕ)
    → b < total
    → f b ≡ 0
    → ((i : ℕ) → count i l ≡ vacancy total i (bump b f i))
    → (i : ℕ) → count i (l ++ b ∷ []) ≡ vacancy total i (f i)
unfolding count
vacant_behind total b f l lt e v i = rw (count-append i l (b ∷ [])) (ground (arith, v i))

-- Letting go of a block; the last holder returns it to the tail of the free list.
pub drop_block-Holds :
    (s : Cache) (b : ℕ) (f : ℕ → ℕ)
    → b < s.total_blocks
    → Holds s (bump b f)
    → Holds (drop_block s b) f
unfolding drop_block
drop_block-Holds s b f lt h =
    let at : (s.blocks b).ref_count ≡ pos (suc (f b)) = ground (arith, h.refs b) in
    elim (Bool-cases (f b == 0)) [
      | inl last ↦
          let last' : f b ≡ 0 = ground arith in
          let out : NotIn b h.free_ids =
            count_zero→NotIn b h.free_ids (ground (arith, h.vacant b)) in
          rw (at, last', drop_block)
            (record {
              free_ids = h.free_ids ++ b ∷ [];
              listed = Dll.append_tail-Represents s.free b h.free_ids out h.listed;
              counted = ground (arith, h.counted, length-append h.free_ids (b ∷ []));
              refs = λ i. ground (arith, h.refs i);
              busy = λ i. ground (arith, h.busy i);
              vacant = λ i. vacant_behind s.total_blocks b f h.free_ids lt last' h.vacant i;
              beyond = λ i le. ground (arith, h.beyond i le);
            })
      | inr more ↦
          let more' : 0 < f b = ground arith in
          let some_left : is_zero (pos (f b)) ≡ false = ground arith in
          rw (at, some_left, drop_block)
            (record {
              free_ids = h.free_ids;
              listed = h.listed;
              counted = h.counted;
              refs = λ i. ground (arith, h.refs i);
              busy = λ i. ground (arith, h.busy i);
              vacant = λ i. ground (arith, h.vacant i);
              beyond = λ i le. ground (arith, h.beyond i le);
            })
    ]

pop_from_head :
    (s : Cache) (b : ℕ)
    → s.free.head ≡ some b
    → pop_free_block s
      ≡ some (set_block (remove_from_free_list s b) b (record (s.blocks b) { tokens = [] }), b)
unfolding pop_free_block remove_from_free_list
pop_from_head s b e = ap (pop_head s) e

first_vacant :
    (total b n : ℕ) (l : List ℕ) → count b (b ∷ l) ≡ vacancy total b n → (n ≡ 0) × (b < total)
unfolding count
first_vacant total b n l v = (ground arith, ground arith)

-- What popFreeBlock takes: nothing from an empty list, or its head, a block that nobody holds.
pub popped :
    (s : Cache) (f : ℕ → ℕ) (h : Holds s f)
    → 0 < length h.free_ids
    → (b : ℕ) × (f b ≡ 0)
      × (b < s.total_blocks)
      × (pop_free_block s
          ≡ some (set_block (remove_from_free_list s b) b (record (s.blocks b) { tokens = [] }), b))
popped s f h lt = popped_from h.free_ids h.listed h.vacant lt
  where
    popped_from :
        (l : List ℕ)
        → Represents s.free l
        → ((i : ℕ) → count i l ≡ vacancy s.total_blocks i (f i))
        → 0 < length l
        → (b : ℕ) × (f b ≡ 0)
          × (b < s.total_blocks)
          × (pop_free_block s
              ≡ some (
                set_block (remove_from_free_list s b) b (record (s.blocks b) { tokens = [] }),
                b,
              ))
    popped_from [] r v lt = absurd (omega arith)
    popped_from (x ∷ l) r v lt =
        let (z, below) = first_vacant s.total_blocks x (f x) l (v x) in
        (x, z, below, pop_from_head s x (Dll.Represents-head s.free x l r))

-- The popped block with its one holder, whatever is written to its hash and its tokens.
pub fresh-Holds :
    (s s2 : Cache) (b : ℕ) (f : ℕ → ℕ)
    → f b ≡ 0
    → b < s.total_blocks
    → s2.free ≡ Dll.unlink s.free b
    → s2.free_block_cnt ≡ decr s.free_block_cnt
    → s2.total_blocks ≡ s.total_blocks
    → ((i : ℕ) → (s2.blocks i).ref_count ≡ ite (ℕ_discrete i b) (pos 1) (s.blocks i).ref_count)
    → ((i : ℕ) → (s2.blocks i).in_use ≡ ite (ℕ_discrete i b) true (s.blocks i).in_use)
    → Holds s f
    → Holds s2 (bump b f)
fresh-Holds s s2 b f z lt free cnt total refs busy h =
    let at = free_of_idle s b f h lt z in
    record {
      free_ids = remove b h.free_ids;
      listed = rw free (Dll.unlink-Represents s.free b h.free_ids at h.listed);
      counted = ground (arith, cnt, h.counted, length-remove b h.free_ids at);
      refs = λ i. ground (arith, refs i, h.refs i);
      busy = λ i. ground (arith, busy i, h.busy i);
      vacant = λ i. ground (arith, total, h.vacant i, h.vacant b, count_middle b i h.free_ids at);
      beyond = λ i le. ground (arith, h.beyond i);
    }

-- Writes that leave the blocks and the free list alone.
pub Holds-maps :
    (s : Cache) (f : ℕ → ℕ) (m : RequestMap) (g : String → Option ℕ) (hits misses : ℕ)
    → Holds s f
    → Holds
        (record s { request_map = m; hash_to_block = g; cache_hits = hits; cache_misses = misses })
        f
Holds-maps s f m g hits misses h = record {
  free_ids = h.free_ids;
  listed = h.listed;
  counted = h.counted;
  refs = h.refs;
  busy = h.busy;
  vacant = h.vacant;
  beyond = h.beyond;
}

pub Holds-ext : (s : Cache) (f g : ℕ → ℕ) → ((i : ℕ) → f i ≡ g i) → Holds s f → Holds s g
Holds-ext s f g e h = subst (Holds s) (fun_ext e) h
