-- ===== src/Dll/Removing.antt =====
-- What unlinking a node does to the list of addresses that the links run through.
use mathlib.Core.List.{append-nil, append_assoc}
use inference_sim.Prelude.{
  ℕ, ◌≡◌, ◌≢◌, refl, sym, none, some, List, [], ◌∷◌, ◌++◌, arith, NotIn, Distinct, ◌∙◌, inl, inr,
  subst, count, split_at, ◌<◌,
}
use inference_sim.Dll.Segment
use inference_sim.Dll.Segment.{
  Table, set_prev, set_next, Chain, first_or, remove, last_or-append, remove-middle,
  Distinct-middle, NotIn-append_right, Distinct-append_left,
}
use inference_sim.Dll.List.{Dll, unlink}
use inference_sim.Dll.Adding.{Represents, first_or-snoc, last_or-snoc, snoc_view}

-- The table without the node b, whose neighbours are the arguments.
abbrev cleared : Table → ℕ → Table
cleared t b = set_prev (set_next t b none) b none

unlink_alone :
    (d : Dll) (b : ℕ)
    → (d.links b).prev ≡ none
    → (d.links b).next ≡ none
    → unlink d b ≡ record { head = none; tail = none; links = cleared d.links b }
unfolding unlink
unlink_alone d b p n = ground arith

unlink_first_lem :
    (d : Dll) (b y : ℕ)
    → (d.links b).prev ≡ none
    → (d.links b).next ≡ some y
    → unlink d b ≡ record d { head = some y; links = cleared (set_prev d.links y none) b }
unfolding unlink
unlink_first_lem d b y p n = ground arith

unlink_last_lem :
    (d : Dll) (b z : ℕ)
    → b ≢ z
    → (d.links b).prev ≡ some z
    → (d.links b).next ≡ none
    → unlink d b ≡ record d { tail = some z; links = cleared (set_next d.links z none) b }
unfolding unlink
unlink_last_lem d b z h p n = ground arith

unlink_inner_lem :
    (d : Dll) (b z y : ℕ)
    → b ≢ z
    → (d.links b).prev ≡ some z
    → (d.links b).next ≡ some y
    → unlink d b
      ≡ record d { links = cleared (set_prev (set_next d.links z (some y)) y (some z)) b }
unfolding unlink
unlink_inner_lem d b z y h p n = ground arith

-- Clearing a node that is not in the list.
Chain-cleared :
    (t : Table) (b : ℕ) (l : List ℕ)
    → NotIn b l
    → Chain t none l none
    → Chain (cleared t b) none l none
Chain-cleared t b l n c =
    Segment.Chain-set_prev_frame (set_next t b none) b none none none l n
      (Segment.Chain-set_next_frame t b none none none l n c)

unlink-nil : (d : Dll) (b : ℕ) → Represents d (b ∷ []) → Represents (unlink d b) []
unlink-nil d b r =
    rw (unlink_alone d b r.chain.0 r.chain.1)
      (record { at_head = refl; at_tail = refl; chain = tt; distinct = tt })

unlink-first :
    (d : Dll) (b y : ℕ) (ys : List ℕ) → Represents d (b ∷ y ∷ ys) → Represents (unlink d b) (y ∷ ys)
unlink-first d b y ys r = rw (unlink_first_lem d b y r.chain.0 r.chain.1) (record {
  at_head = refl;
  at_tail = r.at_tail;
  chain =
      Chain-cleared (set_prev d.links y none) b (y ∷ ys) r.distinct.0
        (Segment.Chain-set_prev d.links y (some b) none none ys r.distinct.1.0 r.chain.2);
  distinct = r.distinct.1;
})

-- The node behind the prefix `xs ++ z ∷ []`.
module _ (d : Dll) (b z : ℕ) (xs ys : List ℕ) (r : Represents d ((xs ++ z ∷ []) ++ b ∷ ys)) where
  prev_is : (d.links b).prev ≡ some z
  prev_is =
      (Segment.Chain-right d.links none none (xs ++ z ∷ []) (b ∷ ys) r.chain).0
      ∙ last_or-snoc none xs z

  next_is : (d.links b).next ≡ first_or none ys
  next_is = (Segment.Chain-right d.links none none (xs ++ z ∷ []) (b ∷ ys) r.chain).1

  apart : NotIn b (xs ++ z ∷ []) × NotIn b ys × Distinct ((xs ++ z ∷ []) ++ ys)
  apart = Distinct-middle b (xs ++ z ∷ []) ys r.distinct

  z_apart : NotIn z xs × NotIn z ys × Distinct (xs ++ ys)
  z_apart = Distinct-middle z xs ys (subst Distinct (append_assoc xs (z ∷ []) ys) apart.2)

  b≢z : b ≢ z
  b≢z = (NotIn-append_right b xs (z ∷ []) apart.0).0

unlink-last :
    (d : Dll) (b z : ℕ) (xs : List ℕ)
    → Represents d ((xs ++ z ∷ []) ++ b ∷ [])
    → Represents (unlink d b) (xs ++ z ∷ [])
unlink-last d b z xs r =
    rw (unlink_last_lem d b z (b≢z d b z xs [] r) (prev_is d b z xs [] r) (next_is d b z xs [] r))
      (record {
        at_head = r.at_head ∙ sym (first_or-snoc xs (b ∷ []) z);
        at_tail = sym (last_or-snoc none xs z);
        chain = Chain-cleared (set_next d.links z none) b (xs ++ z ∷ []) (apart d b z xs [] r).0 (
            Segment.Chain-set_next d.links z none none (some b) xs (z_apart d b z xs [] r).0
              (Segment.Chain-left d.links none none (xs ++ z ∷ []) (b ∷ []) r.chain));
        distinct = Distinct-append_left (xs ++ z ∷ []) (b ∷ []) r.distinct;
      })

unlink-inner :
    (d : Dll) (b z y : ℕ) (xs ys : List ℕ)
    → Represents d ((xs ++ z ∷ []) ++ b ∷ y ∷ ys)
    → Represents (unlink d b) ((xs ++ z ∷ []) ++ y ∷ ys)
unlink-inner d b z y xs ys r =
    let l = xs ++ z ∷ [] in
    let all = apart d b z xs (y ∷ ys) r in
    let zs = z_apart d b z xs (y ∷ ys) r in
    let yd = Distinct-middle y l ys all.2 in
    let t1 = set_next d.links z (some y) in
    let behind = Segment.Chain-right d.links none none l (b ∷ y ∷ ys) r.chain in
    let before = Segment.Chain-left d.links none none l (b ∷ y ∷ ys) r.chain in
    let left =
      Segment.Chain-set_prev_frame t1 y (some z) none (some y) l yd.0
        (Segment.Chain-set_next d.links z none (some y) (some b) xs zs.0 before) in
    let right =
      Segment.Chain-set_prev t1 y (some b) (some z) none ys yd.1
        (Segment.Chain-set_next_frame d.links z (some y) (some b) none (y ∷ ys) zs.1 behind.2) in
    rw
      (unlink_inner_lem d b z y (b≢z d b z xs (y ∷ ys) r) (prev_is d b z xs (y ∷ ys) r)
        (next_is d b z xs (y ∷ ys) r))
      (record {
        at_head = r.at_head ∙ sym (first_or-snoc xs (b ∷ y ∷ ys) z) ∙ first_or-snoc xs (y ∷ ys) z;
        at_tail =
            r.at_tail ∙ last_or-append none l (b ∷ y ∷ ys) ∙ sym (last_or-append none l (y ∷ ys));
        chain =
            Chain-cleared (set_prev t1 y (some z)) b (l ++ y ∷ ys)
              (Segment.NotIn-append b l (y ∷ ys) all.0 all.1)
              (Segment.Chain-append (set_prev t1 y (some z)) none none l (y ∷ ys) left
                (rw (last_or-snoc none xs z) right));
        distinct = all.2;
      })

unlink-middle :
    (d : Dll) (b : ℕ) (xs ys : List ℕ)
    → Represents d (xs ++ b ∷ ys)
    → Represents (unlink d b) (xs ++ ys)
unlink-middle d b xs ys r = elim (snoc_view xs) [
  | inl e ↦ rw e (first_cases ys (subst (λ v. Represents d (v ++ b ∷ ys)) e r))
  | inr (us, z, e) ↦ rw e (inner_cases us z ys (subst (λ v. Represents d (v ++ b ∷ ys)) e r))
]
  where
    first_cases : (ys : List ℕ) → Represents d (b ∷ ys) → Represents (unlink d b) ys
    first_cases [] r = unlink-nil d b r
    first_cases (y ∷ ys) r = unlink-first d b y ys r

    inner_cases :
        (us : List ℕ) (z : ℕ) (ys : List ℕ)
        → Represents d ((us ++ z ∷ []) ++ b ∷ ys)
        → Represents (unlink d b) ((us ++ z ∷ []) ++ ys)
    inner_cases us z [] r = rw append-nil (unlink-last d b z us r)
    inner_cases us z (y ∷ ys) r = unlink-inner d b z y us ys r

-- Unlinking a node of the list takes it out, and leaves the order of the others.
pub unlink-Represents :
    (d : Dll) (b : ℕ) (l : List ℕ)
    → 0 < count b l
    → Represents d l
    → Represents (unlink d b) (remove b l)
unlink-Represents d b l h r =
    let (xs, ys, e) = split_at b l h in
    let s = subst (Represents d) e r in
    rw (e, remove-middle b xs ys (Distinct-middle b xs ys s.distinct).0) (unlink-middle d b xs ys s)

-- Taking the last node out leaves those before it.
pub remove-last : (n : ℕ) (ys : List ℕ) → Distinct (ys ++ n ∷ []) → remove n (ys ++ n ∷ []) ≡ ys
remove-last n ys d = remove-middle n ys [] (Distinct-middle n ys [] d).0 ∙ append-nil ys
