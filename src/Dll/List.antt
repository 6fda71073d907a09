-- ===== src/Dll/List.antt =====
-- The list's header and its three mutations.
use inference_sim.Prelude.{ℕ, Option, none, some}
use inference_sim.Dll.Segment.{Table, set_prev, set_next}

pub record Dll : Type 0 where
  pub head : Option ℕ
  pub tail : Option ℕ
  pub links : Table

unfoldable pub empty : Dll
empty = record { head = none; tail = none; links = λ a. record { prev = none; next = none } }

-- The two branches on the tail, once the new node's `next` is nil.
unfoldable link_behind : Dll → ℕ → Option ℕ → Dll
link_behind d b (some t) = record d {
  links = set_prev (set_next d.links t (some b)) b (some t);
  tail = some b;
}
link_behind d b none = record { head = some b; tail = some b; links = set_prev d.links b none }

unfoldable pub append_tail : Dll → ℕ → Dll
unfolding link_behind
append_tail d b = link_behind (record d { links = set_next d.links b none }) b d.tail

-- if head != nil { head.prev = node }
unfoldable link_before : Dll → ℕ → Option ℕ → Table
link_before d b (some h) = set_prev d.links h (some b)
link_before d b none = d.links

-- if tail == nil { tail = node }
unfoldable pub tail_or : ℕ → Option ℕ → Option ℕ
tail_or b (some t) = some t
tail_or b none = some b

unfoldable pub push_head : Dll → ℕ → Dll
unfolding link_before tail_or
push_head d b =
    let d1 = record d { links = set_next (set_prev d.links b none) b d.head } in
    record { head = some b; tail = tail_or b d1.tail; links = link_before d1 b d1.head }

-- if node.prev != nil { node.prev.next = node.next } else { head = node.next }
unfoldable pub bypass_prev : Dll → Option ℕ → Option ℕ → Dll
bypass_prev d (some p) n = record d { links = set_next d.links p n }
bypass_prev d none n = record d { head = n }

-- if node.next != nil { node.next.prev = node.prev } else { tail = node.prev }
unfoldable pub bypass_next : Dll → Option ℕ → Option ℕ → Dll
bypass_next d (some n) p = record d { links = set_prev d.links n p }
bypass_next d none p = record d { tail = p }

unfoldable pub unlink : Dll → ℕ → Dll
unfolding bypass_prev bypass_next
unlink d b =
    let d1 = bypass_prev d (d.links b).prev (d.links b).next in
    let d2 = bypass_next d1 (d1.links b).next (d1.links b).prev in
    record d2 { links = set_prev (set_next d2.links b none) b none }
