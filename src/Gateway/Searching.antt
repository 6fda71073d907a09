-- ===== src/Gateway/Searching.antt =====
-- sort.Search finds the least index that meets a monotone test, which is how findOrCreateBand keeps
-- the bands in order.
use mathlib.Core.Bool.{false≢true}
use inference_sim.Prelude.{
  ℕ, zero, suc, ◌+◌, ◌/◌, ◌<◌, ◌≤◌, ◌≡◌, sym, ◌∙◌, Bool, true, false, Bool-cases, inl, inr, ltb,
  ltb→lt, ltb_false→le, arith,
}
use inference_sim.Gateway.State.{search_loop, sort_search}

clash : {b : Bool} → b ≡ true → b ≡ false → ⊥
clash {b} up down = let h : true ≡ false = sym up ∙ down in false≢true (sym h)

module _ (test : ℕ → Bool) (n : ℕ)
    (monotone : (i j : ℕ) → i ≤ j → j < n → test i ≡ true → test j ≡ true) where
  -- All before an index fail the test, and all from another on meet it.
  abbrev Fail : ℕ → Type 0
  Fail i = (k : ℕ) → k < i → test k ≡ false

  abbrev Meet : ℕ → Type 0
  Meet j = (k : ℕ) → j ≤ k → k < n → test k ≡ true

  fails_up_to : (h : ℕ) → h < n → test h ≡ false → Fail (suc h)
  fails_up_to h in_range fails k below = elim (Bool-cases (test k)) [
    | inr fail ↦ fail
    | inl meet ↦ let up = monotone k h (omega arith) in_range meet in absurd (clash up fails)
  ]

  search_loop_lem :
      (fuel i j : ℕ)
      → i ≤ j
      → j ≤ i + fuel
      → j ≤ n
      → Fail i
      → Meet j
      → (search_loop test fuel i j ≤ n)
        × Fail (search_loop test fuel i j)
        × Meet (search_loop test fuel i j)
  unfolding search_loop
  search_loop_lem zero i j le enough bound fail meet =
      (omega arith, fail, λ k from in_range. meet k (omega arith) in_range)
  search_loop_lem (suc fuel) i j le enough bound fail meet = elim (Bool-cases (ltb i j)) [
    | inr done ↦
        let over = ltb_false→le i j done in
        rw done (omega arith, fail, λ k from in_range. meet k (omega arith) in_range)
    | inl more ↦
        let lt = ltb→lt i j more in
        let h = (i + j) / 2 in
        let lower : i ≤ h = omega arith in
        let upper : h < j = omega arith in
        elim (Bool-cases (test h)) [
          | inl meets ↦ rw more (
              rw meets (
                search_loop_lem fuel i h lower (omega arith) (omega arith) fail
                  (λ k from in_range. monotone h k from in_range meets)))
          | inr fails ↦ rw more (
              rw fails (
                search_loop_lem fuel (suc h) j upper (omega arith) bound
                  (fails_up_to h (omega arith) fails) meet))
        ]
  ]

  pub sort_search-least :
      (sort_search n test ≤ n) × Fail (sort_search n test) × Meet (sort_search n test)
  unfolding sort_search
  sort_search-least =
      search_loop_lem n 0 n (omega arith) (omega arith) (omega arith)
        (λ k below. absurd (omega arith)) (λ k from in_range. absurd (omega arith))
