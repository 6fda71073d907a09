-- ===== src/Nodes/Tracking.antt =====
-- The map and the list agree: what each primitive step does to that.
use inference_sim.Prelude.{
  ℕ, ◌≤◌, ◌<◌, ◌≡◌, ◌≢◌, sym, ◌∙◌, ap, subst, String, List, [], ◌∷◌, ◌++◌, some, Bool, true, false,
  arith, count, ℕ_discrete, string_discrete, lookup, erase, UniqueKeys, UniqueKeys-erase,
  lookup-erase_self, lookup-erase_ne, count_zero→NotIn, NotIn,
}
use native.Mathlib.Decide.{dec_lt}
use inference_sim.Dll
use inference_sim.Dll.{Represents, remove}
use inference_sim.Nodes.Defs.{Nodes, no_nodes, forget, push_front, push_back, detach}
use inference_sim.Nodes.Counting.{
  count-remove_ne, count-remove_self, count-le-one, count-cons_ne, count-cons_self, count-snoc,
}

-- The list runs through `l`, the map names live nodes by their keys, and the nodes of the list are
-- those of the map for which `on` holds.
pub record Tracks (on : ℕ → Bool) (x : Nodes) (l : List ℕ) : Type 0 where
  pub listed : Represents x.list l
  pub unique : UniqueKeys string_discrete x.entries
  pub named :
      (k : String) (n : ℕ)
      → lookup string_discrete k x.entries ≡ some n
      → (x.key_of n ≡ k) × (n < x.allocated)
  pub known :
      (k : String) (n : ℕ)
      → lookup string_discrete k x.entries ≡ some n
      → on n ≡ true
      → 0 < count n l
  pub linked :
      (n : ℕ)
      → 0 < count n l
      → (lookup string_discrete (x.key_of n) x.entries ≡ some n) × (on n ≡ true)

pub no_nodes-Tracks : (on : ℕ → Bool) → Tracks on no_nodes []
unfolding no_nodes lookup count
no_nodes-Tracks on = record {
  listed = Dll.Represents-empty;
  unique = tt;
  named = λ k n e. cc;
  known = λ k n e. cc;
  linked = λ n h. absurd (omega arith);
}

module _ (on : ℕ → Bool) (x : Nodes) (l : List ℕ) (t : Tracks on x l) where
  once : (n : ℕ) → count n l ≤ 1
  once n = count-le-one n l t.listed.distinct

  -- The same nodes in another order.
  relist :
      (d : Dll.Dll) (l2 : List ℕ)
      → Represents d l2
      → ((m : ℕ) → count m l2 ≡ count m l)
      → Tracks on (record x { list = d }) l2
  relist d l2 r same = record {
    listed = r;
    unique = t.unique;
    named = t.named;
    known = λ k n e o. omega (arith, t.known k n e o, same n);
    linked = λ n h. t.linked n (omega (arith, same n));
  }

  -- What a map still has after a deletion, it had before, under another key.
  pub kept :
      (k : String) (m : ℕ) (gone : String)
      → lookup string_discrete k (erase string_discrete gone x.entries) ≡ some m
      → (lookup string_discrete k x.entries ≡ some m) × (k ≢ gone)
  kept k m gone e = elim (string_discrete k gone) [
    | yes p ↦ cc (
      subst (λ j. lookup string_discrete j (erase string_discrete gone x.entries) ≡ some m) p e,
      lookup-erase_self string_discrete gone x.entries t.unique,
    )
    | no p ↦ (sym (lookup-erase_ne string_discrete gone k x.entries p) ∙ e, p)
  ]

  pub fresh-NotIn : NotIn x.allocated l
  fresh-NotIn = elim (dec_lt 0 (count x.allocated l)) [
    | yes h ↦ absurd (omega (arith, (t.named _ x.allocated (t.linked x.allocated h).0).1))
    | no h ↦ count_zero→NotIn x.allocated l (omega arith)
  ]

  pub detached : (n : ℕ) → 0 < count n l → NotIn n (remove n l)
  detached n h = count_zero→NotIn n (remove n l) (omega (arith, count-remove_self n l, once n))

  count-moved : (n : ℕ) → 0 < count n l → (m : ℕ) → count m (n ∷ remove n l) ≡ count m l
  count-moved n h m = elim (ℕ_discrete m n) [
    | yes e ↦
        subst (λ j. count j (n ∷ remove n l) ≡ count j l) (sym e)
          (omega (arith, count-cons_self n (remove n l), count-remove_self n l))
    | no e ↦ count-cons_ne m n (remove n l) e ∙ count-remove_ne m n l e
  ]

  pub detach-Represents : (n : ℕ) → 0 < count n l → Represents (detach x n).list (remove n l)
  unfolding detach
  detach-Represents n h = Dll.unlink-Represents x.list n l h t.listed

  -- removeNode(n); pushHead(n)
  pub move_front-Tracks :
      (n : ℕ) → 0 < count n l → Tracks on (push_front (detach x n) n) (n ∷ remove n l)
  unfolding push_front detach
  move_front-Tracks n h =
      relist _ _ (Dll.push_head-Represents _ n (remove n l) (detached n h) (detach-Represents n h))
        (count-moved n h)

  -- unlink(n); appendToTail(n)
  pub move_back-Tracks :
      (n : ℕ) → 0 < count n l → Tracks on (push_back (detach x n) n) (remove n l ++ n ∷ [])
  unfolding push_back detach
  move_back-Tracks n h =
      relist _ _
        (Dll.append_tail-Represents _ n (remove n l) (detached n h) (detach-Represents n h))
        (λ m. count-snoc m n (remove n l) ∙ count-moved n h m)

  -- The same entries, one node less on the list.
  pub park-Tracks :
      (n : ℕ) (on2 : ℕ → Bool)
      → 0 < count n l
      → on2 n ≡ false
      → ((m : ℕ) → m ≢ n → on2 m ≡ on m)
      → Tracks on2 (detach x n) (remove n l)
  unfolding detach
  park-Tracks n on2 h off same = record {
    listed = detach-Represents n h;
    unique = t.unique;
    named = t.named;
    known = λ k m e o. elim (ℕ_discrete m n) [
      | yes p ↦ cc (ap on2 p, off, o)
      | no p ↦ omega (arith, count-remove_ne m n l p, t.known k m e (sym (same m p) ∙ o))
    ];
    linked = λ m c. elim (ℕ_discrete m n) [
      | yes p ↦
          absurd (omega (arith, ap (λ j. count j (remove n l)) p, count-remove_self n l, once n))
      | no p ↦
          let (at, o) = t.linked m (omega (arith, count-remove_ne m n l p)) in (at, same m p ∙ o)
    ];
  }

  -- A node of the map comes onto the list.
  pub unpark-Tracks :
      (k : String) (n : ℕ) (on2 : ℕ → Bool)
      → lookup string_discrete k x.entries ≡ some n
      → on n ≡ false
      → on2 n ≡ true
      → ((m : ℕ) → m ≢ n → on2 m ≡ on m)
      → Tracks on2 (push_back x n) (l ++ n ∷ [])
  unfolding push_back
  unpark-Tracks k n on2 at off now same =
      let away : NotIn n l = elim (dec_lt 0 (count n l)) [
        | yes h ↦ cc ((t.linked n h).1, off)
        | no h ↦ count_zero→NotIn n l (omega arith)
      ] in
      record {
        listed = Dll.append_tail-Represents x.list n l away t.listed;
        unique = t.unique;
        named = t.named;
        known = λ j m e o. elim (ℕ_discrete m n) [
          | yes p ↦
              subst (λ i. 0 < count i (l ++ n ∷ [])) (sym p)
                (omega (arith, count-snoc n n l, count-cons_self n l))
          | no p ↦
              omega
                (arith, count-snoc m n l, count-cons_ne m n l p, t.known j m e (sym (same m p) ∙ o))
        ];
        linked = λ m c. elim (ℕ_discrete m n) [
          | yes p ↦
              let key = (t.named k n at).0 in
              subst (λ i. (lookup string_discrete (x.key_of i) x.entries ≡ some i) × (on2 i ≡ true))
                (sym p) (rw key at, now)
          | no p ↦
              let (e, o) = t.linked m (omega (arith, count-snoc m n l, count-cons_ne m n l p)) in
              (e, same m p ∙ o)
        ];
      }

  -- A node goes, from the list and from the map.
  pub forget-Tracks :
      (n : ℕ) → 0 < count n l → Tracks on (forget (detach x n) (x.key_of n)) (remove n l)
  unfolding detach forget
  forget-Tracks n h =
      let (at, live) = t.linked n h in
      record {
        listed = detach-Represents n h;
        unique = UniqueKeys-erase string_discrete (x.key_of n) x.entries t.unique;
        named = λ k m e. t.named k m (kept k m (x.key_of n) e).0;
        known = λ k m e o.
            let (e2, other) = kept k m (x.key_of n) e in
            omega (
              arith,
              t.known k m e2 o,
              count-remove_ne m n l (λ p. other (sym (t.named k m e2).0 ∙ ap x.key_of p)),
            );
        linked = λ m c. elim (ℕ_discrete m n) [
          | yes p ↦
              absurd
                (omega (arith, ap (λ j. count j (remove n l)) p, count-remove_self n l, once n))
          | no p ↦
              let (e, o) = t.linked m (omega (arith, count-remove_ne m n l p)) in
              (
                lookup-erase_ne string_discrete (x.key_of n) (x.key_of m) x.entries (λ q.
                      p (cc (subst (λ k. lookup string_discrete k x.entries ≡ some m) q e, at)))
                    ∙ e,
                o,
              )
        ];
      }

  -- Another test that says the same of every node.
  pub restate-Tracks : (on2 : ℕ → Bool) → ((m : ℕ) → on2 m ≡ on m) → Tracks on2 x l
  restate-Tracks on2 same = record {
    listed = t.listed;
    unique = t.unique;
    named = t.named;
    known = λ k n e o. t.known k n e (sym (same n) ∙ o);
    linked = λ n h. let (at, o) = t.linked n h in (at, same n ∙ o);
  }
