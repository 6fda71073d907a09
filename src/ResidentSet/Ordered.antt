-- ===== src/ResidentSet/Ordered.antt =====
-- The abstract resident set: an association list of adapters and pin counts, least recently used
-- first.
use inference_sim.Prelude.{
  ℕ, ◌+◌, ◌-◌, ◌%◌, String, List, [], ◌∷◌, ◌++◌, some, none, Bool, true, false, ltb, leb, ◌==◌,
  if◌then◌else◌, length, lookup, insert, erase, string_discrete,
}
use Prim.Native.Nat.{◌^◌}

abbrev pub Slots : Type 0
Slots = List (String × ℕ)

-- The adapter moves to the end.
unfoldable pub touched : String → Slots → Slots
touched id slots = elim (lookup string_discrete id slots) [
  | none ↦ slots
  | some pins ↦ erase string_discrete id slots ++ (id, pins) ∷ []
]

-- The first slot that is not pinned goes.
unfoldable pub evicted : Slots → Slots × String × Bool
evicted [] = ([], "", false)
evicted (e ∷ slots) =
    let (rest, id, found) = evicted slots in
    if e.1 == 0 then (slots, e.0, true) else (e ∷ rest, id, found)

-- An adapter is stored: it moves to the end, or it comes to the end, in the place of an evicted one
-- where the slots are full; and nothing happens where all are pinned.
unfoldable pub stored : ℕ → String → Slots → Slots × String × Bool
unfolding touched evicted
stored capacity id slots = elim (lookup string_discrete id slots) [
  | some pins ↦ (touched id slots, "", true)
  | none ↦
      if leb capacity (length slots)
      then (let (rest, gone, found) = evicted slots in
          if found then (rest ++ (id, 0) ∷ [], gone, true) else (slots, "", false))
      else (slots ++ (id, 0) ∷ [], "", true)
]

-- A count is below 2 ^ 64.
unfoldable pub pinned : String → Slots → Slots
pinned id slots = elim (lookup string_discrete id slots) [
  | none ↦ slots
  | some pins ↦ insert string_discrete id ((pins + 1) % 2 ^ 64) slots
]

-- A count that is 0 stays 0.
unfoldable pub unpinned : String → Slots → Slots
unpinned id slots = elim (lookup string_discrete id slots) [
  | none ↦ slots
  | some pins ↦ if ltb 0 pins then insert string_discrete id (pins - 1) slots else slots
]
