-- ===== src/Nodes/Naming.antt =====
-- The keys along the list, most recent or least recent first: lists of texts, and how they follow
-- the list of nodes.
use inference_sim.Prelude.{
  ℕ, ◌<◌, ◌≡◌, ◌≢◌, refl, sym, ap, String, List, [], ◌∷◌, ◌++◌, map, Bool, true, false, arith,
  count, length, ite, if_pos, if_neg, ℕ_discrete, string_discrete, NotIn, lookup, none,
}
use inference_sim.Dll.{remove}
use inference_sim.Nodes.Defs.{Nodes, new_node}
use inference_sim.Nodes.Tracking.{Tracks}

-- Whether the text is in the list.
unfoldable pub holds : String → List String → Bool
holds k [] = false
holds k (j ∷ ks) = ite (string_discrete k j) true (holds k ks)

-- The list without the first occurrence.
unfoldable pub without : String → List String → List String
without k [] = []
without k (j ∷ ks) = ite (string_discrete k j) ks (j ∷ without k ks)

unfoldable pub but_last {ℓ} : {A : Type ℓ} → List A → List A
but_last [] = []
but_last (x ∷ []) = []
but_last (x ∷ y ∷ xs) = x ∷ but_last (y ∷ xs)

-- The keys of the nodes.
abbrev pub names : Nodes → List ℕ → List String
names x l = map x.key_of l

pub but_last-snoc {ℓ} : {A : Type ℓ} (xs : List A) (x : A) → but_last (xs ++ x ∷ []) ≡ xs
unfolding but_last
but_last-snoc [] x = refl
but_last-snoc (y ∷ []) x = refl
but_last-snoc (y ∷ z ∷ xs) x = ap (◌∷◌ y) (but_last-snoc (z ∷ xs) x)

pub map-snoc {ℓ κ} :
    {A : Type ℓ} {B : Type κ} (f : A → B) (xs : List A) (x : A)
    → map f (xs ++ x ∷ []) ≡ map f xs ++ f x ∷ []
map-snoc f [] x = refl
map-snoc f (y ∷ xs) x = ap (◌∷◌ (f y)) (map-snoc f xs x)

pub length-map {ℓ κ} :
    {A : Type ℓ} {B : Type κ} (f : A → B) (xs : List A) → length (map f xs) ≡ length xs
length-map f [] = refl
length-map f (x ∷ xs) = omega (arith, length-map f xs)

there : (n x : ℕ) (l : List ℕ) → 0 < count n l → 0 < count n (x ∷ l)
unfolding count
there n x l h = ground arith

here : (x : ℕ) (l : List ℕ) → 0 < count x (x ∷ l)
unfolding count
here x l = ground arith

map-remove :
    (f : ℕ → String) (n : ℕ) (l : List ℕ)
    → ((m : ℕ) → 0 < count m l → f m ≡ f n → m ≡ n)
    → map f (remove n l) ≡ without (f n) (map f l)
unfolding remove without
map-remove f n [] h = refl
map-remove f n (x ∷ l) h = elim (ℕ_discrete n x) [
  | yes p ↦ rw (if_pos _ p) (rw (if_pos _ (ap f p)) refl)
  | no p ↦ rw (if_neg _ p) (
      rw (if_neg (string_discrete (f n) (f x)) (λ q. p (sym (h x (here x l) (sym q)))))
        (ap (◌∷◌ (f x)) (map-remove f n l (λ m c. h m (there m x l c)))))
]

holds-map : (f : ℕ → String) (n : ℕ) (l : List ℕ) → 0 < count n l → holds (f n) (map f l) ≡ true
unfolding holds count
holds-map f n [] h = absurd (omega arith)
holds-map f n (x ∷ l) h = elim (ℕ_discrete n x) [
  | yes p ↦ if_pos (string_discrete (f n) (f x)) (ap f p) true (holds (f n) (map f l))
  | no p ↦ ground (arith, holds-map f n l)
]

not_holds-map :
    (f : ℕ → String) (k : String) (l : List ℕ)
    → ((m : ℕ) → 0 < count m l → f m ≢ k)
    → holds k (map f l) ≡ false
unfolding holds
not_holds-map f k [] h = refl
not_holds-map f k (x ∷ l) h =
    rw (if_neg (string_discrete k (f x)) (λ q. h x (here x l) (sym q)))
      (not_holds-map f k l (λ m c. h m (there m x l c)))

map_frame :
    (f g : ℕ → String) (a : ℕ) (l : List ℕ)
    → NotIn a l
    → ((m : ℕ) → m ≢ a → f m ≡ g m)
    → map f l ≡ map g l
map_frame f g a [] n h = refl
map_frame f g a (x ∷ l) n h = λ i. h x (λ p. n.0 (sym p)) i ∷ map_frame f g a l n.1 h i

-- A new node leaves the names of the nodes that were there.
pub names-new_node :
    (x : Nodes) (k : String) (l : List ℕ) → NotIn x.allocated l → names (new_node x k) l ≡ names x l
unfolding new_node
names-new_node x k l n =
    map_frame _ x.key_of x.allocated l n (λ m h. if_neg (ℕ_discrete m x.allocated) h k (x.key_of m))

pub key_of-new_node : (x : Nodes) (k : String) → (new_node x k).key_of x.allocated ≡ k
unfolding new_node
key_of-new_node x k = if_pos (ℕ_discrete x.allocated x.allocated) refl k (x.key_of x.allocated)

module _ (on : ℕ → Bool) (x : Nodes) (l : List ℕ) (t : Tracks on x l) where
  -- Taking a node out takes its name out.
  pub names-remove :
      (n : ℕ) → 0 < count n l → names x (remove n l) ≡ without (x.key_of n) (names x l)
  names-remove n h = map-remove x.key_of n l (λ m c e. cc ((t.linked m c).0, (t.linked n h).0, e))

  pub holds-names : (n : ℕ) → 0 < count n l → holds (x.key_of n) (names x l) ≡ true
  holds-names n h = holds-map x.key_of n l h

  pub not_holds-names :
      (k : String) → lookup string_discrete k x.entries ≡ none → holds k (names x l) ≡ false
  not_holds-names k absent = not_holds-map x.key_of k l (λ m c e. cc ((t.linked m c).0, absent, e))
