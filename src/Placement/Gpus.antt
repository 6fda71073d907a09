-- ===== src/Placement/Gpus.antt =====
-- The GPUs of a node, allocated, released and counted.
use inference_sim.Prelude.{
  ℕ, zero, suc, ◌+◌, ◌≤◌, ◌<◌, ◌≡◌, refl, sym, ap, ◌∙◌, String, List, [], ◌∷◌, Bool, true, false,
  ◌||◌, Bool-cases, inl, inr, if_pos, if_neg, string_discrete, length, arith,
}
use inference_sim.Placement.Nodes.{Gpu, same_text, free_count, allocated_count}
use inference_sim.Placement.Manager.{allocate_free, allocate_all}
use inference_sim.Placement.Lifecycle.{release_gpus, holds, clear_gpus}

pub same_text→Path : (s t : String) → same_text s t ≡ true → s ≡ t
same_text→Path s t h = elim (string_discrete s t) [
  | yes same ↦ same
  | no other ↦
      let never : false ≡ true = sym (if_neg (string_discrete s t) other true false) ∙ h in cc never
]

pub same_text_refl : (s : String) → same_text s s ≡ true
same_text_refl s = if_pos (string_discrete s s) refl true false

-- A test of a disjunction that fails fails on both sides.
pub or_false : (a b : Bool) → (a || b) ≡ false → (a ≡ false) × (b ≡ false)
or_false true b h = cc h
or_false false b h = (refl, h)

pub or_true : (a b : Bool) → b ≡ true → (a || b) ≡ true
or_true true b h = refl
or_true false b h = h

-- Free and allocated GPUs are all of them.
pub allocated_count-free_count :
    (gpus : List Gpu) → allocated_count gpus + free_count gpus ≡ length gpus
unfolding allocated_count free_count
allocated_count-free_count [] = refl
allocated_count-free_count (g ∷ gpus) = elim (Bool-cases (same_text g.allocated_to "")) [
  | inl free ↦ rw free (omega (arith, allocated_count-free_count gpus))
  | inr held ↦ rw held (omega (arith, allocated_count-free_count gpus))
]

module _ (id : String) where
  pub length-allocate_free :
      (n : ℕ) (gpus : List Gpu) → length (allocate_free id n gpus).0 ≡ length gpus
  unfolding allocate_free
  length-allocate_free zero gpus = refl
  length-allocate_free (suc n) [] = refl
  length-allocate_free (suc n) (g ∷ gpus) = elim (Bool-cases (same_text g.allocated_to "")) [
    | inl free ↦ rw free (ap suc (length-allocate_free n gpus))
    | inr held ↦ rw held (ap suc (length-allocate_free (suc n) gpus))
  ]

  pub length-allocate_all : (gpus : List Gpu) → length (allocate_all id gpus) ≡ length gpus
  unfolding allocate_all
  length-allocate_all [] = refl
  length-allocate_all (g ∷ gpus) = ap suc (length-allocate_all gpus)

  pub length-release_gpus : (gpus : List Gpu) → length (release_gpus id gpus) ≡ length gpus
  unfolding release_gpus
  length-release_gpus [] = refl
  length-release_gpus (g ∷ gpus) = elim (Bool-cases (same_text g.allocated_to id)) [
    | inl same ↦ rw same (ap suc (length-release_gpus gpus))
    | inr other ↦ rw other (ap suc (length-release_gpus gpus))
  ]

  pub allocated_count-release_gpus :
      (gpus : List Gpu) → allocated_count (release_gpus id gpus) ≤ allocated_count gpus
  unfolding release_gpus allocated_count
  allocated_count-release_gpus [] = omega arith
  allocated_count-release_gpus (g ∷ gpus) =
      let less = allocated_count-release_gpus gpus in
      elim (Bool-cases (same_text g.allocated_to id)) [
        | inl same ↦ elim (Bool-cases (same_text g.allocated_to "")) [
          | inl free ↦ rw (same, free) less
          | inr held ↦ rw (same, held) (omega arith)
        ]
        | inr other ↦ elim (Bool-cases (same_text g.allocated_to "")) [
          | inl free ↦ rw (other, free) less
          | inr held ↦ rw (other, held) (omega arith)
        ]
      ]

  -- Nothing is released where the instance holds nothing.
  pub release_gpus-id : (gpus : List Gpu) → holds id gpus ≡ false → release_gpus id gpus ≡ gpus
  unfolding release_gpus holds
  release_gpus-id [] h = refl
  release_gpus-id (g ∷ gpus) h =
      let (other, rest) = or_false (same_text g.allocated_to id) (holds id gpus) h in
      rw other (ap (◌∷◌ g) (release_gpus-id gpus rest))

pub length-clear_gpus : (gpus : List Gpu) → length (clear_gpus gpus) ≡ length gpus
unfolding clear_gpus
length-clear_gpus [] = refl
length-clear_gpus (g ∷ gpus) = ap suc (length-clear_gpus gpus)

pub allocated_count-clear_gpus : (gpus : List Gpu) → allocated_count (clear_gpus gpus) ≡ 0
unfolding clear_gpus allocated_count
allocated_count-clear_gpus [] = refl
allocated_count-clear_gpus (g ∷ gpus) = allocated_count-clear_gpus gpus

-- A free GPU that is allocated and released is as before.
freed : (g : Gpu) → g.allocated_to ≡ "" → record g { allocated_to = "" } ≡ g
freed g free = ap (λ s. record g { allocated_to = s }) (sym free)

module _ (id : String) where
  pub release_gpus-allocate_free :
      (n : ℕ) (gpus : List Gpu)
      → holds id gpus ≡ false
      → release_gpus id (allocate_free id n gpus).0 ≡ gpus
  unfolding release_gpus allocate_free holds
  release_gpus-allocate_free zero gpus h = release_gpus-id id gpus h
  release_gpus-allocate_free (suc n) [] h = refl
  release_gpus-allocate_free (suc n) (g ∷ gpus) h =
      let (other, rest) = or_false (same_text g.allocated_to id) (holds id gpus) h in
      elim (Bool-cases (same_text g.allocated_to "")) [
        | inl free ↦
            rw (free, same_text_refl id)
              (ap (◌∷◌ (record g { allocated_to = "" })) (release_gpus-allocate_free n gpus rest)
                ∙ ap (λ x. x ∷ gpus) (freed g (same_text→Path _ _ free)))
        | inr held ↦ rw (held, other) (ap (◌∷◌ g) (release_gpus-allocate_free (suc n) gpus rest))
      ]

  -- Where every GPU is free, all of them can be taken and given back.
  pub release_gpus-allocate_all :
      (gpus : List Gpu)
      → free_count gpus ≡ length gpus
      → release_gpus id (allocate_all id gpus) ≡ gpus
  unfolding release_gpus allocate_all free_count
  release_gpus-allocate_all [] h = refl
  release_gpus-allocate_all (g ∷ gpus) h = elim (Bool-cases (same_text g.allocated_to "")) [
    | inl free ↦
        let all = rw free at h in
        rw (same_text_refl id) (
          ap (◌∷◌ (record g { allocated_to = "" })) (release_gpus-allocate_all gpus (omega arith))
          ∙ ap (λ x. x ∷ gpus) (freed g (same_text→Path _ _ free)))
    | inr held ↦ let all = rw held at h in absurd (omega (arith, allocated_count-free_count gpus))
  ]

  -- An instance that was given a GPU holds it.
  pub holds-allocate_free :
      (n : ℕ) (gpus : List Gpu)
      → suc n ≤ free_count gpus
      → holds id (allocate_free id (suc n) gpus).0 ≡ true
  unfolding holds allocate_free free_count
  holds-allocate_free n [] h = absurd (omega arith)
  holds-allocate_free n (g ∷ gpus) h = elim (Bool-cases (same_text g.allocated_to "")) [
    | inl free ↦ rw (free, same_text_refl id) refl
    | inr held ↦
        let more = rw held at h in
        rw held (or_true (same_text g.allocated_to id) _ (holds-allocate_free n gpus more))
  ]

  pub holds-allocate_all :
      (gpus : List Gpu) → 0 < length gpus → holds id (allocate_all id gpus) ≡ true
  unfolding holds allocate_all
  holds-allocate_all [] h = absurd (omega arith)
  holds-allocate_all (g ∷ gpus) h = rw (same_text_refl id) refl
