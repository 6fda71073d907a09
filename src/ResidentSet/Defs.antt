-- ===== src/ResidentSet/Defs.antt =====
-- The state and the operations. The `evicted` text is "" where nothing was evicted, as in the source.
use inference_sim.Prelude.{
  ℕ, zero, suc, ◌+◌, ◌-◌, ◌%◌, String, List, [], ◌∷◌, Option, some, none, Bool, true, false, ℤ, pos,
  negsuc, Result, ok, panic, bad_argument, out_of_fuel, ◌>>=◌, ltb, leb, ◌==◌, if◌then◌else◌,
  length, lookup, string_discrete, ite, ℕ_discrete,
}
use Prim.Native.Nat.{◌^◌}
use inference_sim.Nodes.{Nodes, no_nodes, new_node, forget, push_back, detach}

pub record ResidentSet : Type 0 where
  pub capacity : ℕ
  pub nodes : Nodes
  pub pin_count : ℕ → ℕ

-- newResidentSet
unfoldable pub new_resident_set : ℤ → Result ResidentSet
new_resident_set (pos zero) = panic bad_argument
new_resident_set (pos (suc n)) =
    ok (record { capacity = suc n; nodes = no_nodes; pin_count = λ n. 0 })
new_resident_set (negsuc n) = panic bad_argument

-- Len
abbrev pub len : ResidentSet → ℕ
len s = length s.nodes.entries

-- AtCapacity
abbrev pub at_capacity : ResidentSet → Bool
at_capacity s = leb s.capacity (len s)

-- The loop of ResidentIDs, on fuel.
unfoldable pub ids_from : ℕ → Nodes → Option ℕ → Result (List String)
ids_from zero x none = ok []
ids_from zero x (some n) = panic out_of_fuel
ids_from (suc fuel) x none = ok []
ids_from (suc fuel) x (some n) = do
  ids ← ids_from fuel x (x.list.links n).next
  ok (x.key_of n ∷ ids)

-- ResidentIDs
unfoldable pub resident_ids : ResidentSet → Result (List String)
unfolding ids_from
resident_ids s = if len s == 0 then ok [] else ids_from (len s) s.nodes s.nodes.list.head

-- IsResident
unfoldable pub is_resident : ResidentSet → String → Bool
is_resident s id = elim (lookup string_discrete id s.nodes.entries) [ none ↦ false | some n ↦ true ]

-- Touch
unfoldable pub touch : ResidentSet → String → ResidentSet
unfolding push_back detach
touch s id = elim (lookup string_discrete id s.nodes.entries) [
  | none ↦ s
  | some n ↦ record s { nodes = push_back (detach s.nodes n) n }
]

abbrev pub set_pins : (ℕ → ℕ) → ℕ → ℕ → ℕ → ℕ
set_pins pins n p m = ite (ℕ_discrete m n) p (pins m)

-- e := &residentEntry{id: id}; s.entries[id] = e; s.appendToTail(e)
unfoldable pub add : ResidentSet → String → ResidentSet
unfolding new_node push_back
add s id = record s {
  nodes = push_back (new_node s.nodes id) s.nodes.allocated;
  pin_count = set_pins s.pin_count s.nodes.allocated 0;
}

-- The loop of EvictLRU, on fuel, from an entry on.
unfoldable pub scan : ℕ → ResidentSet → Option ℕ → Result (ResidentSet × String × Bool)
unfolding forget detach
scan zero s none = ok (s, "", false)
scan zero s (some n) = panic out_of_fuel
scan (suc fuel) s none = ok (s, "", false)
scan (suc fuel) s (some n) =
    let rest = scan fuel s (s.nodes.list.links n).next in
    if s.pin_count n == 0
    then ok
        (record s { nodes = forget (detach s.nodes n) (s.nodes.key_of n) }, s.nodes.key_of n, true)
    else rest

-- EvictLRU: as many rounds as there are entries.
unfoldable pub evict_lru : ResidentSet → Result (ResidentSet × String × Bool)
unfolding scan
evict_lru s = scan (len s) s s.nodes.list.head

-- Store
unfoldable pub store : ResidentSet → String → Result (ResidentSet × String × Bool)
unfolding touch add evict_lru
store s id = elim (lookup string_discrete id s.nodes.entries) [
  | some n ↦ ok (touch s id, "", true)
  | none ↦
      if leb s.capacity (len s)
      then (do
        (s1, evicted, found) ← evict_lru s
        if found then ok (add s1 id, evicted, true) else ok (s1, "", false))
      else ok (add s id, "", true)
]

-- pinCount++ and pinCount--, of a uint of 64 bits.
abbrev pub incr_pins : ℕ → ℕ
incr_pins n = (n + 1) % 2 ^ 64

abbrev pub decr_pins : ℕ → ℕ
decr_pins zero = 2 ^ 64 - 1
decr_pins (suc n) = n

-- Pin
unfoldable pub pin : ResidentSet → String → ResidentSet
pin s id = elim (lookup string_discrete id s.nodes.entries) [
  | none ↦ s
  | some n ↦ record s { pin_count = set_pins s.pin_count n (incr_pins (s.pin_count n)) }
]

-- Unpin
unfoldable pub unpin : ResidentSet → String → ResidentSet
unpin s id = elim (lookup string_discrete id s.nodes.entries) [
  | none ↦ s
  | some n ↦
      if ltb 0 (s.pin_count n)
      then record s { pin_count = set_pins s.pin_count n (decr_pins (s.pin_count n)) }
      else s
]
