-- ===== src/KvKey/Interning.antt =====
-- The interner's two tables are each other's inverse.
use inference_sim.Prelude.{
  ℕ, zero, suc, ◌≡◌, refl, sym, ◌∙◌, ap, subst, String, List, [], ◌∷◌, ◌++◌, some, none, pos,
  length, get_elem?, lookup, insert, string_discrete, Option-cases, inl, inr, ◌⊎◌,
  lookup-insert_self, lookup-insert_ne,
}
use inference_sim.KvKey.{Interner, new_interner, intern, key_at}

-- A key has the number at which it stands.
pub record Inverse (tab : Interner) : Type 0 where
  pub there :
      (k : String) (id : ℕ)
      → lookup string_discrete k tab.ids ≡ some id
      → get_elem? tab.keys id ≡ some k
  pub back :
      (k : String) (id : ℕ)
      → get_elem? tab.keys id ≡ some k
      → lookup string_discrete k tab.ids ≡ some id

pub new_interner-Inverse : Inverse new_interner
unfolding new_interner lookup
new_interner-Inverse = record { there = λ k id e. cc; back = λ k id e. cc }

get_elem?-snoc : (xs : List String) (x : String) → get_elem? (xs ++ x ∷ []) (length xs) ≡ some x
get_elem?-snoc [] x = refl
get_elem?-snoc (y ∷ xs) x = get_elem?-snoc xs x

get_elem?-snoc_old :
    (xs : List String) (x k : String) (i : ℕ)
    → get_elem? xs i ≡ some k
    → get_elem? (xs ++ x ∷ []) i ≡ some k
get_elem?-snoc_old [] x k i e = cc
get_elem?-snoc_old (y ∷ xs) x k zero e = e
get_elem?-snoc_old (y ∷ xs) x k (suc i) e = get_elem?-snoc_old xs x k i e

-- An element of the longer list is old, or the last one.
get_elem?-snoc_cases :
    (xs : List String) (x k : String) (i : ℕ)
    → get_elem? (xs ++ x ∷ []) i ≡ some k
    → (get_elem? xs i ≡ some k) ⊎ ((k ≡ x) × (i ≡ length xs))
get_elem?-snoc_cases [] x k zero e = inr (cc, refl)
get_elem?-snoc_cases [] x k (suc i) e = inl e
get_elem?-snoc_cases (y ∷ xs) x k zero e = inl e
get_elem?-snoc_cases (y ∷ xs) x k (suc i) e = elim (get_elem?-snoc_cases xs x k i e) [
  | inl old ↦ inl old
  | inr (p, q) ↦ inr (p, ap suc q)
]

added : Interner → String → Interner
added tab k = record {
  ids = insert string_discrete k (length tab.keys) tab.ids;
  keys = tab.keys ++ k ∷ [];
}

added-Inverse :
    (tab : Interner) (k : String)
    → Inverse tab
    → lookup string_discrete k tab.ids ≡ none
    → Inverse (added tab k)
unfolding added
added-Inverse tab k v e =
    let self = lookup-insert_self string_discrete k (length tab.keys) tab.ids in
    record {
      there = λ j id at. elim (string_discrete j k) [
        | yes p ↦
            let same : lookup string_discrete j (insert string_discrete k (length tab.keys) tab.ids)
                ≡ some (length tab.keys) =
              subst
                (λ i.
                  lookup string_discrete i (insert string_discrete k (length tab.keys) tab.ids)
                  ≡ some (length tab.keys))
                (sym p) self in
            let number : id ≡ length tab.keys = cc (at, same) in
            subst (λ i. get_elem? (tab.keys ++ k ∷ []) i ≡ some j) (sym number)
              (get_elem?-snoc tab.keys k ∙ ap some (sym p))
        | no p ↦ get_elem?-snoc_old tab.keys k j id (
            v.there j id
              (sym (lookup-insert_ne string_discrete k j (length tab.keys) tab.ids p) ∙ at))
      ];
      back = λ j id at. elim (get_elem?-snoc_cases tab.keys k j id at) [
        | inl old ↦
            let known = v.back j id old in
            lookup-insert_ne string_discrete k j (length tab.keys) tab.ids
              (λ p. cc (subst (λ i. lookup string_discrete i tab.ids ≡ some id) p known, e))
            ∙ known
        | inr (p, q) ↦
            subst
              (λ i.
                lookup string_discrete j (insert string_discrete k (length tab.keys) tab.ids)
                ≡ some i)
              (sym q)
              (subst
                (λ i.
                  lookup string_discrete i (insert string_discrete k (length tab.keys) tab.ids)
                  ≡ some (length tab.keys))
                (sym p) self)
      ];
    }

intern-known :
    (tab : Interner) (k : String) (id : ℕ)
    → lookup string_discrete k tab.ids ≡ some id
    → intern tab k ≡ (tab, id)
unfolding intern
intern-known tab k id e = rw (e, intern) refl

intern-new :
    (tab : Interner) (k : String)
    → lookup string_discrete k tab.ids ≡ none
    → intern tab k ≡ (added tab k, length tab.keys)
unfolding intern added
intern-new tab k e = rw (e, intern) refl

known-added :
    (tab : Interner) (k : String)
    → lookup string_discrete k (added tab k).ids ≡ some (length tab.keys)
unfolding added
known-added tab k = lookup-insert_self string_discrete k (length tab.keys) tab.ids

old-added :
    (tab : Interner) (k j : String) (id : ℕ)
    → get_elem? tab.keys id ≡ some j
    → get_elem? (added tab k).keys id ≡ some j
unfolding added
old-added tab k j id e = get_elem?-snoc_old tab.keys k j id e

-- What Intern promises of its result.
abbrev Interned : Interner → String → Interner × ℕ → Type 0
Interned tab k out =
    Inverse out.0
    × (key_at out.0 (pos out.1) ≡ some k)
    × ((j : String) (id : ℕ) → key_at tab (pos id) ≡ some j → key_at out.0 (pos id) ≡ some j)
    × (intern out.0 k ≡ out)

-- On tables that are each other's inverse, Intern leaves such tables. The number that it returns
-- stands for the key, the numbers given before stand for what they did, and asking for the key again
-- gives the same number and changes nothing.
pub intern-Inverse :
    (tab : Interner) (k : String)
    → Inverse tab
    → Inverse (intern tab k).0
      × (key_at (intern tab k).0 (pos (intern tab k).1) ≡ some k)
      × ((j : String) (id : ℕ)
          → key_at tab (pos id) ≡ some j
          → key_at (intern tab k).0 (pos id) ≡ some j)
      × (intern (intern tab k).0 k ≡ intern tab k)
unfolding key_at
intern-Inverse tab k v = elim (Option-cases (lookup string_discrete k tab.ids)) [
  | inl e ↦
      let w = added-Inverse tab k v e in
      subst (Interned tab k) (sym (intern-new tab k e)) (
        w,
        w.there k (length tab.keys) (known-added tab k),
        λ j id h. old-added tab k j id h,
        intern-known (added tab k) k (length tab.keys) (known-added tab k),
      )
  | inr (id, e) ↦
      subst (Interned tab k) (sym (intern-known tab k id e))
        (v, v.there k id e, λ j i h. h, intern-known tab k id e)
]
