-- ===== src/Nodes/Creating.antt =====
-- What a new node, and the deletion of a node that is not on the list, do to the agreement of map
-- and list.
use inference_sim.Prelude.{
  ℕ, ◌<◌, ◌≡◌, ◌≢◌, refl, sym, ◌∙◌, ap, subst, String, List, [], ◌∷◌, ◌++◌, ◌⊎◌, inl, inr, some,
  none, Bool, true, false, arith, count, if_pos, if_neg, ℕ_discrete, string_discrete, lookup,
  insert, UniqueKeys-insert, UniqueKeys-erase, lookup-insert_self, lookup-insert_ne,
  lookup-erase_ne,
}
use inference_sim.Dll
use inference_sim.Dll.{Dll, Represents}
use inference_sim.Nodes.Defs.{Nodes, new_node, forget, push_front, push_back}
use inference_sim.Nodes.Counting.{count-cons_ne, count-cons_self, count-snoc}
use inference_sim.Nodes.Tracking.{Tracks, fresh-NotIn, kept}

module _ (on : ℕ → Bool) (x : Nodes) (l : List ℕ) (t : Tracks on x l) where
  module _ (k : String) (on2 : ℕ → Bool) (absent : lookup string_discrete k x.entries ≡ none)
      (same : (m : ℕ) → m ≢ x.allocated → on2 m ≡ on m) where
    -- The entries with the new one: an entry is the new one, or an old one of another key.
    entry :
        (j : String) (m : ℕ)
        → lookup string_discrete j (insert string_discrete k x.allocated x.entries) ≡ some m
        → ((j ≡ k) × (m ≡ x.allocated))
          ⊎ ((j ≢ k) × (lookup string_discrete j x.entries ≡ some m) × (m < x.allocated))
    entry j m e = elim (string_discrete j k) [
      | yes p ↦ inl (
        p,
        cc (
          e,
          subst
              (λ i.
                lookup string_discrete i (insert string_discrete k x.allocated x.entries)
                ≡ some x.allocated)
              (sym p) (lookup-insert_self string_discrete k x.allocated x.entries),
        ),
      )
      | no p ↦
          let old = sym (lookup-insert_ne string_discrete k j x.allocated x.entries p) ∙ e in
          inr (p, old, (t.named j m old).1)
    ]

    key_new : (new_node x k).key_of x.allocated ≡ k
    unfolding new_node
    key_new = if_pos (ℕ_discrete x.allocated x.allocated) refl k (x.key_of x.allocated)

    key_old : (m : ℕ) → m ≢ x.allocated → (new_node x k).key_of m ≡ x.key_of m
    unfolding new_node
    key_old m h = if_neg (ℕ_discrete m x.allocated) h k (x.key_of m)

    named_new :
        (j : String) (m : ℕ)
        → lookup string_discrete j (new_node x k).entries ≡ some m
        → ((new_node x k).key_of m ≡ j) × (m < (new_node x k).allocated)
    unfolding new_node
    named_new j m e = elim (entry j m e) [
      | inl (p, q) ↦
          (subst (λ i. (new_node x k).key_of i ≡ j) (sym q) (key_new ∙ sym p), omega arith)
      | inr (p, old, lt) ↦ (key_old m (λ q. omega arith) ∙ (t.named j m old).0, omega arith)
    ]

    linked_old :
        (m : ℕ)
        → 0 < count m l
        → (lookup string_discrete ((new_node x k).key_of m) (new_node x k).entries ≡ some m)
          × (on2 m ≡ true)
    unfolding new_node
    linked_old m c =
        let (at, o) = t.linked m c in
        let lt = (t.named (x.key_of m) m at).1 in
        let other : m ≢ x.allocated = λ q. omega arith in
        (
          subst
              (λ j.
                lookup string_discrete j (insert string_discrete k x.allocated x.entries) ≡ some m)
              (sym (key_old m other))
              (lookup-insert_ne string_discrete k (x.key_of m) x.allocated x.entries
                  (λ q. cc (subst (λ j. lookup string_discrete j x.entries ≡ some m) q at, absent))
                ∙ at),
          same m other ∙ o,
        )

    -- The new node comes onto the list, wherever the list places it.
    listed_new :
        (d : Dll) (l2 : List ℕ)
        → on2 x.allocated ≡ true
        → Represents d l2
        → ((m : ℕ) → count m l2 ≡ count m (x.allocated ∷ l))
        → Tracks on2 (record (new_node x k) { list = d }) l2
    unfolding new_node
    listed_new d l2 now r same_count = record {
      listed = r;
      unique = UniqueKeys-insert string_discrete k x.allocated x.entries t.unique;
      named = named_new;
      known = λ j m e o. elim (entry j m e) [
        | inl (p, q) ↦
            subst (λ i. 0 < count i l2) (sym q)
              (omega (arith, same_count x.allocated, count-cons_self x.allocated l))
        | inr (p, old, lt) ↦
            let other : m ≢ x.allocated = λ q. omega arith in
            omega (
              arith,
              same_count m,
              count-cons_ne m x.allocated l other,
              t.known j m old (sym (same m other) ∙ o),
            )
      ];
      linked = λ m c. elim (ℕ_discrete m x.allocated) [
        | yes q ↦
            subst
              (λ i.
                (lookup string_discrete ((new_node x k).key_of i) (new_node x k).entries ≡ some i)
                × (on2 i ≡ true))
              (sym q)
              (
                subst (λ j. lookup string_discrete j (new_node x k).entries ≡ some x.allocated)
                    (sym key_new) (lookup-insert_self string_discrete k x.allocated x.entries),
                now,
              )
        | no q ↦ linked_old m (omega (arith, same_count m, count-cons_ne m x.allocated l q))
      ];
    }

    pub new_front-Tracks :
        on2 x.allocated ≡ true
        → Tracks on2 (push_front (new_node x k) x.allocated) (x.allocated ∷ l)
    unfolding push_front new_node
    new_front-Tracks now =
        listed_new _ _ now
          (Dll.push_head-Represents x.list x.allocated l (fresh-NotIn on x l t) t.listed)
          (λ m. refl)

    pub new_back-Tracks :
        on2 x.allocated ≡ true
        → Tracks on2 (push_back (new_node x k) x.allocated) (l ++ x.allocated ∷ [])
    unfolding push_back new_node
    new_back-Tracks now =
        listed_new _ _ now
          (Dll.append_tail-Represents x.list x.allocated l (fresh-NotIn on x l t) t.listed)
          (λ m. count-snoc m x.allocated l)

    -- The new node stays off the list.
    pub new_off-Tracks : on2 x.allocated ≡ false → Tracks on2 (new_node x k) l
    unfolding new_node
    new_off-Tracks off = record {
      listed = t.listed;
      unique = UniqueKeys-insert string_discrete k x.allocated x.entries t.unique;
      named = named_new;
      known = λ j m e o. elim (entry j m e) [
        | inl (p, q) ↦ cc (ap on2 q, off, o)
        | inr (p, old, lt) ↦ t.known j m old (sym (same m (λ q. omega arith)) ∙ o)
      ];
      linked = linked_old;
    }

  -- A node that is not on the list leaves the map.
  pub forget_off-Tracks :
      (k : String) (n : ℕ)
      → lookup string_discrete k x.entries ≡ some n
      → on n ≡ false
      → Tracks on (forget x k) l
  unfolding forget
  forget_off-Tracks k n at off = record {
    listed = t.listed;
    unique = UniqueKeys-erase string_discrete k x.entries t.unique;
    named = λ j m e. t.named j m (kept on x l t j m k e).0;
    known = λ j m e o. t.known j m (kept on x l t j m k e).0 o;
    linked = λ m c.
        let (e, o) = t.linked m c in
        (
          lookup-erase_ne string_discrete k (x.key_of m) x.entries
                (λ q. cc (subst (λ i. lookup string_discrete i x.entries ≡ some m) q e, at, off, o))
              ∙ e,
          o,
        );
  }
