-- ===== src/Prelude/Removing.antt =====
-- One element taken out of a list, wherever it stands.
use Prim.Native.Nat.{ℕ, zero, suc}
use mathlib.Core.Path.{◌≡◌, refl, ap, subst, sym, ◌∙◌}
use mathlib.Core.Logic.{◌≢◌, if_pos, if_neg}
use mathlib.Core.List.{List, [], ◌∷◌, ◌++◌, map, append_assoc, map-append}
use mathlib.Core.Option.{some}
use native.Mathlib.Omega.{arith}
use inference_sim.Prelude.Lists.{
  length, get_elem?, set, erase_idx, All, length-append, All-append, All-append_left,
  All-append_right,
}
use inference_sim.Prelude.Maps.{lookup, insert, erase, Absent, UniqueKeys, UniqueKeys-erase}

module _ {ℓ} {A : Type ℓ} where
  -- `ys` is `xs` with an occurrence of `x` left out.
  abbrev pub Removes : A → List A → List A → Type ℓ
  Removes x xs ys = (l : List A) × (r : List A) × (xs ≡ l ++ x ∷ r) × (ys ≡ l ++ r)

  pub Removes-left :
      {x : A} {xs ys : List A} (a : List A) → Removes x xs ys → Removes x (a ++ xs) (a ++ ys)
  Removes-left [] h = h
  Removes-left (y ∷ a) h =
      let (l, r, e, f) = Removes-left a h in (y ∷ l, r, ap (◌∷◌ y) e, ap (◌∷◌ y) f)

  pub Removes-right :
      {x : A} {xs ys : List A} (b : List A) → Removes x xs ys → Removes x (xs ++ b) (ys ++ b)
  Removes-right {x} b (l, r, e, f) =
      (l, r ++ b, rw e (append_assoc l (x ∷ r) b), rw f (append_assoc l r b))

  pub Removes-length : (x : A) (xs ys : List A) → Removes x xs ys → length xs ≡ suc (length ys)
  Removes-length x xs ys (l, r, e, f) =
      omega (arith, ap length e, ap length f, length-append l (x ∷ r), length-append l r)

  pub Removes-All {κ} :
      (P : A → Type κ) (x : A) (xs ys : List A) → Removes x xs ys → All P xs → P x × All P ys
  Removes-All P x xs ys (l, r, e, f) all =
      let parts : All P (l ++ x ∷ r) = subst (All P) e all in
      let right : All P (x ∷ r) = All-append_right P l (x ∷ r) parts in
      (
        right.0,
        subst (All P) (sym f) (All-append P l r (All-append_left P l (x ∷ r) parts) right.1),
      )

  pub Removes-get_elem? :
      (xs : List A) (i : ℕ) (x : A) → get_elem? xs i ≡ some x → Removes x xs (erase_idx xs i)
  Removes-get_elem? [] i x h = cc
  Removes-get_elem? (y ∷ xs) zero x h =
      let e : y ≡ x = ground arith in ([], xs, ap (λ z. z ∷ xs) e, refl)
  Removes-get_elem? (y ∷ xs) (suc i) x h = Removes-left (y ∷ []) (Removes-get_elem? xs i x h)

  pub All-get_elem? {κ} :
      (P : A → Type κ) (xs : List A) (i : ℕ) (x : A) → get_elem? xs i ≡ some x → All P xs → P x
  All-get_elem? P xs i x h all = (Removes-All P x xs _ (Removes-get_elem? xs i x h) all).0

  pub All-set {κ} :
      (P : A → Type κ) (xs : List A) (i : ℕ) (x : A) → P x → All P xs → All P (set xs i x)
  All-set P [] i x p all = tt
  All-set P (y ∷ xs) zero x p all = (p, all.1)
  All-set P (y ∷ xs) (suc i) x p all = (all.0, All-set P xs i x p all.1)

pub Removes-map {ℓ κ} :
    {A : Type ℓ} {B : Type κ} (f : A → B) {x : A} {xs ys : List A}
    → Removes x xs ys
    → Removes (f x) (map f xs) (map f ys)
Removes-map f {x} (l, r, e, g) =
    (map f l, map f r, ap (map f) e ∙ map-append f l (x ∷ r), ap (map f) g ∙ map-append f l r)

module _ {ℓ} {K V : Type ℓ} (dec : Discrete K) where
  pub All-insert {κ} :
      (P : K × V → Type κ) (k : K) (v : V) (m : List (K × V))
      → P (k, v)
      → All P m
      → All P (insert dec k v m)
  unfolding insert
  All-insert P k v [] p all = (p, tt)
  All-insert P k v (e ∷ m) p all = elim (dec k e.0) [
    | yes same ↦ rw (if_pos _ same) (p, all.1)
    | no other ↦ rw (if_neg _ other) (all.0, All-insert P k v m p all.1)
  ]

  pub All-erase {κ} :
      (P : K × V → Type κ) (k : K) (m : List (K × V)) → All P m → All P (erase dec k m)
  unfolding erase
  All-erase P k [] all = tt
  All-erase P k (e ∷ m) all = elim (dec k e.0) [
    | yes same ↦ rw (if_pos _ same) all.1
    | no other ↦ rw (if_neg _ other) (all.0, All-erase P k m all.1)
  ]

  pub All-lookup {κ} :
      (P : K × V → Type κ) (k : K) (v : V) (m : List (K × V))
      → lookup dec k m ≡ some v
      → All P m
      → P (k, v)
  unfolding lookup
  All-lookup P k v [] h all = cc
  All-lookup P k v (e ∷ m) h all = elim (dec k e.0) [
    | yes same ↦
        let value : e.1 ≡ v = let g = rw (if_pos _ same) at h in ground arith in
        let whole : e ≡ (k, v) = ground arith in subst P whole all.0
    | no other ↦ All-lookup P k v m (rw (if_neg _ other) at h) all.1
  ]

  pub Absent→All : (k : K) (m : List (K × V)) → Absent dec k m → All (λ f. k ≢ f.0) m
  Absent→All k [] a = tt
  Absent→All k (e ∷ m) a = (a.0, Absent→All k m a.1)

  lookup-middle :
      (k : K) (v : V) (l r : List (K × V))
      → UniqueKeys dec (l ++ (k, v) ∷ r)
      → (lookup dec k (l ++ (k, v) ∷ r) ≡ some v) × (erase dec k (l ++ (k, v) ∷ r) ≡ l ++ r)
  unfolding lookup erase
  lookup-middle k v [] r u = (ground arith, ground arith)
  lookup-middle k v (e ∷ l) r u =
      let apart = All-append_right (λ f. e.0 ≢ f.0) l ((k, v) ∷ r) (Absent→All e.0 _ u.0) in
      let ih = lookup-middle k v l r u.1 in
      let other : k ≢ e.0 = λ p. apart.0 (sym p) in
      (rw (if_neg _ other) ih.0, rw (if_neg _ other) (ap (◌∷◌ e) ih.1))

  -- An entry taken out of a map was what the map held under its key, and what is left is what
  -- deleting the key leaves.
  pub Removes-erase :
      (k : K) (v : V) (m n : List (K × V))
      → Removes (k, v) m n
      → UniqueKeys dec m
      → (lookup dec k m ≡ some v) × (n ≡ erase dec k m) × UniqueKeys dec n
  Removes-erase k v m n (l, r, e, f) u =
      let (found, left) = lookup-middle k v l r (subst (UniqueKeys dec) e u) in
      let rest : n ≡ erase dec k m = f ∙ sym left ∙ ap (erase dec k) (sym e) in
      (
        ap (lookup dec k) e ∙ found,
        rest,
        subst (UniqueKeys dec) (sym rest) (UniqueKeys-erase dec k m u),
      )

  All→Absent : (k : K) (m : List (K × V)) → All (λ f. k ≢ f.0) m → Absent dec k m
  All→Absent k [] a = tt
  All→Absent k (e ∷ m) a = (a.0, All→Absent k m a.1)

  unique_middle :
      (k : K) (v : V) (l r : List (K × V))
      → UniqueKeys dec (l ++ r)
      → All (λ f. k ≢ f.0) (l ++ r)
      → UniqueKeys dec (l ++ (k, v) ∷ r)
  unique_middle k v [] r u a = (All→Absent k r a, u)
  unique_middle k v (e ∷ l) r u a =
      let apart = Absent→All e.0 (l ++ r) u.0 in
      let left = All-append_left (λ f. e.0 ≢ f.0) l r apart in
      let right = All-append_right (λ f. e.0 ≢ f.0) l r apart in
      let other : e.0 ≢ k = λ p. a.0 (sym p) in
      (
        All→Absent e.0 (l ++ (k, v) ∷ r)
            (All-append (λ f. e.0 ≢ f.0) l ((k, v) ∷ r) left (other, right)),
        unique_middle k v l r u.1 a.1,
      )

  -- A fresh key put anywhere in a map leaves the keys unique.
  pub Removes-UniqueKeys :
      (k : K) (v : V) (m n : List (K × V))
      → Removes (k, v) m n
      → UniqueKeys dec n
      → All (λ f. k ≢ f.0) n
      → UniqueKeys dec m
  Removes-UniqueKeys k v m n (l, r, e, f) u a =
      subst (UniqueKeys dec) (sym e)
        (unique_middle k v l r (subst (UniqueKeys dec) f u) (subst (All (λ g. k ≢ g.0)) f a))
