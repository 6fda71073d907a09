-- ===== src/Dll/Segment.antt =====
-- Link tables, and what it means that the links of a table run through a list of addresses.
use inference_sim.Prelude.{
  ℕ, ◌≡◌, refl, sym, Option, some, List, [], ◌∷◌, ◌++◌, arith, ite, ℕ_discrete, NotIn, Distinct,
  if_neg, ◌∙◌,
}

pub record Links : Type 0 where
  pub prev : Option ℕ
  pub next : Option ℕ

abbrev pub Table : Type 0
Table = ℕ → Links

abbrev pub set_prev : Table → ℕ → Option ℕ → Table
set_prev t b p a = ite (ℕ_discrete a b) (record (t a) { prev = p }) (t a)

abbrev pub set_next : Table → ℕ → Option ℕ → Table
set_next t b p a = ite (ℕ_discrete a b) (record (t a) { next = p }) (t a)

abbrev pub first_or : Option ℕ → List ℕ → Option ℕ
first_or q [] = q
first_or q (x ∷ xs) = some x

abbrev pub last_or : Option ℕ → List ℕ → Option ℕ
last_or p [] = p
last_or p (x ∷ xs) = last_or (some x) xs

-- The links run through the list, from the node before it to the node behind it.
abbrev pub Chain : Table → Option ℕ → List ℕ → Option ℕ → Type 0
Chain t p [] q = Unit
Chain t p (x ∷ xs) q = ((t x).prev ≡ p) × ((t x).next ≡ first_or q xs) × Chain t (some x) xs q

-- Takes the first occurrence out.
unfoldable pub remove : ℕ → List ℕ → List ℕ
remove b [] = []
remove b (x ∷ xs) = ite (ℕ_discrete b x) xs (x ∷ remove b xs)

pub first_or-append :
    (q : Option ℕ) (xs ys : List ℕ) → first_or q (xs ++ ys) ≡ first_or (first_or q ys) xs
first_or-append q [] ys = refl
first_or-append q (x ∷ xs) ys = refl

pub last_or-append :
    (p : Option ℕ) (xs ys : List ℕ) → last_or p (xs ++ ys) ≡ last_or (last_or p xs) ys
last_or-append p [] ys = refl
last_or-append p (x ∷ xs) ys = last_or-append (some x) xs ys

module _ (t : Table) where
  pub Chain-append :
      (p q : Option ℕ) (xs ys : List ℕ)
      → Chain t p xs (first_or q ys)
      → Chain t (last_or p xs) ys q
      → Chain t p (xs ++ ys) q
  Chain-append p q [] ys c d = d
  Chain-append p q (x ∷ xs) ys c d =
      (c.0, c.1 ∙ sym (first_or-append q xs ys), Chain-append (some x) q xs ys c.2 d)

  pub Chain-left :
      (p q : Option ℕ) (xs ys : List ℕ) → Chain t p (xs ++ ys) q → Chain t p xs (first_or q ys)
  Chain-left p q [] ys c = tt
  Chain-left p q (x ∷ xs) ys c =
      (c.0, c.1 ∙ first_or-append q xs ys, Chain-left (some x) q xs ys c.2)

  pub Chain-right :
      (p q : Option ℕ) (xs ys : List ℕ) → Chain t p (xs ++ ys) q → Chain t (last_or p xs) ys q
  Chain-right p q [] ys c = c
  Chain-right p q (x ∷ xs) ys c = Chain-right (some x) q xs ys c.2

-- Writes at an address outside the list do not touch its chain.
module _ (t : Table) (b : ℕ) (v : Option ℕ) where
  pub Chain-set_prev_frame :
      (p q : Option ℕ) (xs : List ℕ) → NotIn b xs → Chain t p xs q → Chain (set_prev t b v) p xs q
  Chain-set_prev_frame p q [] n c = tt
  Chain-set_prev_frame p q (x ∷ xs) n c =
      (ground arith, ground arith, Chain-set_prev_frame (some x) q xs n.1 c.2)

  pub Chain-set_next_frame :
      (p q : Option ℕ) (xs : List ℕ) → NotIn b xs → Chain t p xs q → Chain (set_next t b v) p xs q
  Chain-set_next_frame p q [] n c = tt
  Chain-set_next_frame p q (x ∷ xs) n c =
      (ground arith, ground arith, Chain-set_next_frame (some x) q xs n.1 c.2)

-- A write of the first node's `prev`, and of the last node's `next`.
pub Chain-set_prev :
    (t : Table) (y : ℕ) (p v q : Option ℕ) (ys : List ℕ)
    → NotIn y ys
    → Chain t p (y ∷ ys) q
    → Chain (set_prev t y v) v (y ∷ ys) q
Chain-set_prev t y p v q ys n c =
    (ground arith, ground arith, Chain-set_prev_frame t y v (some y) q ys n c.2)

pub Chain-set_next :
    (t : Table) (z : ℕ) (p v q : Option ℕ) (xs : List ℕ)
    → NotIn z xs
    → Chain t p (xs ++ z ∷ []) q
    → Chain (set_next t z v) p (xs ++ z ∷ []) v
Chain-set_next t z p v q [] n c = (ground arith, ground arith, tt)
Chain-set_next t z p v q (x ∷ []) n c =
    (ground arith, ground arith, Chain-set_next t z (some x) v q [] tt c.2)
Chain-set_next t z p v q (x ∷ y ∷ xs) n c =
    (ground arith, ground arith, Chain-set_next t z (some x) v q (y ∷ xs) n.1 c.2)

-- Membership facts on lists of distinct addresses.
pub NotIn-append_left : (b : ℕ) (xs ys : List ℕ) → NotIn b (xs ++ ys) → NotIn b xs
NotIn-append_left b [] ys n = tt
NotIn-append_left b (x ∷ xs) ys n = (n.0, NotIn-append_left b xs ys n.1)

pub NotIn-append_right : (b : ℕ) (xs ys : List ℕ) → NotIn b (xs ++ ys) → NotIn b ys
NotIn-append_right b [] ys n = n
NotIn-append_right b (x ∷ xs) ys n = NotIn-append_right b xs ys n.1

pub NotIn-append : (b : ℕ) (xs ys : List ℕ) → NotIn b xs → NotIn b ys → NotIn b (xs ++ ys)
NotIn-append b [] ys n k = k
NotIn-append b (x ∷ xs) ys n k = (n.0, NotIn-append b xs ys n.1 k)

-- Around an occurrence b of a list of distinct addresses.
pub Distinct-middle :
    (b : ℕ) (xs ys : List ℕ)
    → Distinct (xs ++ b ∷ ys)
    → NotIn b xs × NotIn b ys × Distinct (xs ++ ys)
Distinct-middle b [] ys d = (tt, d.0, d.1)
Distinct-middle b (x ∷ xs) ys d =
    let (l, r, k) = Distinct-middle b xs ys d.1 in
    let n = NotIn-append_right x xs (b ∷ ys) d.0 in
    let m = NotIn-append_left x xs (b ∷ ys) d.0 in
    ((λ e. n.0 (sym e), l), r, (NotIn-append x xs ys m n.1, k))

pub Distinct-append_one : (b : ℕ) (xs : List ℕ) → NotIn b xs → Distinct xs → Distinct (xs ++ b ∷ [])
Distinct-append_one b [] n d = (tt, tt)
Distinct-append_one b (x ∷ xs) n d =
    (NotIn-append x xs (b ∷ []) d.0 ((λ e. n.0 (sym e)), tt), Distinct-append_one b xs n.1 d.1)

pub Distinct-append_left : (xs ys : List ℕ) → Distinct (xs ++ ys) → Distinct xs
Distinct-append_left [] ys d = tt
Distinct-append_left (x ∷ xs) ys d = (NotIn-append_left x xs ys d.0, Distinct-append_left xs ys d.1)

pub Distinct-append_right : (xs ys : List ℕ) → Distinct (xs ++ ys) → Distinct ys
Distinct-append_right [] ys d = d
Distinct-append_right (x ∷ xs) ys d = Distinct-append_right xs ys d.1

pub remove-middle : (b : ℕ) (xs ys : List ℕ) → NotIn b xs → remove b (xs ++ b ∷ ys) ≡ xs ++ ys
unfolding remove
remove-middle b [] ys n = ground arith
remove-middle b (x ∷ xs) ys n = rw (if_neg _ n.0) (rw (remove-middle b xs ys n.1))
