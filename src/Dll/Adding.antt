-- ===== src/Dll/Adding.antt =====
-- What a node added at either end does to the list of addresses that the links run through.
use inference_sim.Prelude.{
  ℕ, ◌≡◌, refl, sym, Option, none, some, List, [], ◌∷◌, ◌++◌, arith, NotIn, Distinct, ◌∙◌, ap, ◌⊎◌,
  inl, inr, subst,
}
use inference_sim.Dll.Segment
use inference_sim.Dll.Segment.{
  Table, set_prev, set_next, Chain, first_or, last_or, last_or-append, Distinct-middle,
  NotIn-append_right, Distinct-append_one,
}
use inference_sim.Dll.List.{Dll, empty, append_tail, push_head, tail_or}

-- The header and the links stand for a list of distinct addresses, head first.
pub record Represents (d : Dll) (l : List ℕ) : Type 0 where
  pub at_head : d.head ≡ first_or none l
  pub at_tail : d.tail ≡ last_or none l
  pub chain : Chain d.links none l none
  pub distinct : Distinct l

pub Represents-empty : Represents empty []
unfolding empty
Represents-empty = record { at_head = refl; at_tail = refl; chain = tt; distinct = tt }

pub snoc_view : (xs : List ℕ) → (xs ≡ []) ⊎ ((ys : List ℕ) × (z : ℕ) × (xs ≡ ys ++ z ∷ []))
snoc_view [] = inl refl
snoc_view (x ∷ xs) = elim (snoc_view xs) [
  | inl e ↦ inr ([], x, ap (◌∷◌ x) e)
  | inr (ys, z, e) ↦ inr (x ∷ ys, z, ap (◌∷◌ x) e)
]

pub last_or-snoc : (p : Option ℕ) (xs : List ℕ) (z : ℕ) → last_or p (xs ++ z ∷ []) ≡ some z
last_or-snoc p xs z = last_or-append p xs (z ∷ [])

pub first_or-snoc :
    (xs ys : List ℕ) (z : ℕ) → first_or none (xs ++ z ∷ []) ≡ first_or none ((xs ++ z ∷ []) ++ ys)
first_or-snoc [] ys z = refl
first_or-snoc (x ∷ xs) ys z = refl

Chain-append_one :
    (t : Table) (b z : ℕ) (xs : List ℕ)
    → NotIn b (xs ++ z ∷ [])
    → NotIn z xs
    → Chain t none (xs ++ z ∷ []) none
    → Chain
        (set_prev (set_next (set_next t b none) z (some b)) b (some z))
        none
        ((xs ++ z ∷ []) ++ b ∷ [])
        none
Chain-append_one t b z xs n m c =
    let l = xs ++ z ∷ [] in
    let t1 = set_next t b none in
    let t2 = set_next t1 z (some b) in
    Segment.Chain-append (set_prev t2 b (some z)) none none l (b ∷ [])
      (Segment.Chain-set_prev_frame t2 b (some z) none (some b) l n (
        Segment.Chain-set_next t1 z none (some b) none xs m
          (Segment.Chain-set_next_frame t b none none none l n c)))
      (rw (last_or-snoc none xs z)
        (ground arith, ground (arith, NotIn-append_right b xs (z ∷ []) n), tt))

append_tail-some :
    (d : Dll) (b z : ℕ) (xs : List ℕ)
    → NotIn b (xs ++ z ∷ [])
    → Represents d (xs ++ z ∷ [])
    → Represents (append_tail d b) ((xs ++ z ∷ []) ++ b ∷ [])
unfolding append_tail
append_tail-some d b z xs n r =
    let at : d.tail ≡ some z = r.at_tail ∙ last_or-snoc none xs z in
    rw at (record {
      at_head = r.at_head ∙ first_or-snoc xs (b ∷ []) z;
      at_tail = sym (last_or-snoc none (xs ++ z ∷ []) b);
      chain = Chain-append_one d.links b z xs n (Distinct-middle z xs [] r.distinct).0 r.chain;
      distinct = Distinct-append_one b (xs ++ z ∷ []) n r.distinct;
    })

append_tail-none : (d : Dll) (b : ℕ) → Represents d [] → Represents (append_tail d b) (b ∷ [])
unfolding append_tail
append_tail-none d b r = rw r.at_tail (record {
  at_head = refl;
  at_tail = refl;
  chain = (ground arith, ground arith, tt);
  distinct = (tt, tt);
})

-- A node appended at the tail stands last.
pub append_tail-Represents :
    (d : Dll) (b : ℕ) (l : List ℕ)
    → NotIn b l
    → Represents d l
    → Represents (append_tail d b) (l ++ b ∷ [])
append_tail-Represents d b l n r = elim (snoc_view l) [
  | inl e ↦ rw e (append_tail-none d b (subst (Represents d) e r))
  | inr (xs, z, e) ↦
      rw e (append_tail-some d b z xs (subst (NotIn b) e n) (subst (Represents d) e r))
]

tail_or-last : (b y : ℕ) (ys : List ℕ) → tail_or b (last_or (some y) ys) ≡ last_or (some y) ys
unfolding tail_or
tail_or-last b y [] = refl
tail_or-last b y (x ∷ ys) = tail_or-last b x ys

-- A node pushed at the head stands first.
pub push_head-Represents :
    (d : Dll) (b : ℕ) (l : List ℕ) → NotIn b l → Represents d l → Represents (push_head d b) (b ∷ l)
unfolding push_head
push_head-Represents d b [] n r =
    rw (r.at_head, r.at_tail)
      (record {
        at_head = refl;
        at_tail = refl;
        chain = (ground arith, ground arith, tt);
        distinct = (tt, tt);
      })
push_head-Represents d b (y ∷ ys) n r =
    let t1 = set_prev d.links b none in
    let t2 = set_next t1 b (some y) in
    rw (r.at_head, r.at_tail)
      (record {
        at_head = refl;
        at_tail = tail_or-last b y ys;
        chain = (
          ground arith,
          ground arith,
          Segment.Chain-set_prev t2 y none (some b) none ys r.distinct.0 (
              Segment.Chain-set_next_frame t1 b (some y) none none (y ∷ ys) n
                (Segment.Chain-set_prev_frame d.links b none none none (y ∷ ys) n r.chain)),
        );
        distinct = (n, r.distinct);
      })

-- The first node of a nonempty list.
pub Represents-head : (d : Dll) (b : ℕ) (l : List ℕ) → Represents d (b ∷ l) → d.head ≡ some b
Represents-head d b l r = r.at_head

pub Represents-last : (d : Dll) (b : ℕ) (l : List ℕ) → Represents d (l ++ b ∷ []) → d.tail ≡ some b
Represents-last d b l r = r.at_tail ∙ last_or-snoc none l b
