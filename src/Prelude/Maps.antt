-- ===== src/Prelude/Maps.antt =====
-- Go maps as association lists. No key stands twice (`UniqueKeys`), so the length is `len(m)`; the
-- order of the entries is never observed.
use Prim.Native.Nat.{suc}
use mathlib.Core.Path.{◌≡◌, refl}
use mathlib.Core.Logic.{◌≢◌, ite, if_pos, if_neg}
use mathlib.Core.List.{List, [], ◌∷◌}
use mathlib.Core.Option.{Option, none, some}
use native.Mathlib.Omega.{arith}
use inference_sim.Prelude.Lists.{length}

module _ {ℓ} {K V : Type ℓ} (dec : Discrete K) where
  -- m[k]
  unfoldable pub lookup : K → List (K × V) → Option V
  lookup k [] = none
  lookup k (e ∷ m) = ite (dec k e.0) (some e.1) (lookup k m)

  -- m[k] = v
  unfoldable pub insert : K → V → List (K × V) → List (K × V)
  insert k v [] = (k, v) ∷ []
  insert k v (e ∷ m) = ite (dec k e.0) ((k, v) ∷ m) (e ∷ insert k v m)

  -- delete(m, k)
  unfoldable pub erase : K → List (K × V) → List (K × V)
  erase k [] = []
  erase k (e ∷ m) = ite (dec k e.0) m (e ∷ erase k m)

  abbrev pub Absent : K → List (K × V) → Type ℓ
  Absent k [] = Unit
  Absent k (e ∷ m) = (k ≢ e.0) × Absent k m

  abbrev pub UniqueKeys : List (K × V) → Type ℓ
  UniqueKeys [] = Unit
  UniqueKeys (e ∷ m) = Absent e.0 m × UniqueKeys m

  pub Absent→lookup : (k : K) (m : List (K × V)) → Absent k m → lookup k m ≡ none
  unfolding lookup
  Absent→lookup k [] h = refl
  Absent→lookup k (e ∷ m) h = ground (arith, Absent→lookup k m h.1)

  pub lookup→Absent : (k : K) (m : List (K × V)) → lookup k m ≡ none → Absent k m
  unfolding lookup
  lookup→Absent k [] h = tt
  lookup→Absent k (e ∷ m) h = ground (arith, lookup→Absent k m)

  pub lookup-insert_self : (k : K) (v : V) (m : List (K × V)) → lookup k (insert k v m) ≡ some v
  unfolding lookup insert
  lookup-insert_self k v [] = ground arith
  lookup-insert_self k v (e ∷ m) = ground (arith, lookup-insert_self k v m)

  pub lookup-insert_ne :
      (k j : K) (v : V) (m : List (K × V)) → j ≢ k → lookup j (insert k v m) ≡ lookup j m
  unfolding lookup insert
  lookup-insert_ne k j v [] h = ground arith
  lookup-insert_ne k j v (e ∷ m) h = ground (arith, lookup-insert_ne k j v m h)

  pub lookup-erase_ne : (k j : K) (m : List (K × V)) → j ≢ k → lookup j (erase k m) ≡ lookup j m
  unfolding lookup erase
  lookup-erase_ne k j [] h = refl
  lookup-erase_ne k j (e ∷ m) h = ground (arith, lookup-erase_ne k j m h)

  pub Absent-insert :
      (k j : K) (v : V) (m : List (K × V)) → j ≢ k → Absent j m → Absent j (insert k v m)
  unfolding insert
  Absent-insert k j v [] h a = (h, tt)
  Absent-insert k j v (e ∷ m) h a = ground (arith, Absent-insert k j v m h a.1)

  pub UniqueKeys-insert :
      (k : K) (v : V) (m : List (K × V)) → UniqueKeys m → UniqueKeys (insert k v m)
  unfolding insert
  UniqueKeys-insert k v [] u = (tt, tt)
  UniqueKeys-insert k v (e ∷ m) u = elim (dec k e.0) [
    | yes p ↦ rw (if_pos _ p) (ground arith)
    | no p ↦
        rw (if_neg _ p)
          (Absent-insert k e.0 v m (λ q. ground arith) u.0, UniqueKeys-insert k v m u.1)
  ]

  pub Absent-erase : (k j : K) (m : List (K × V)) → Absent j m → Absent j (erase k m)
  unfolding erase
  Absent-erase k j [] a = tt
  Absent-erase k j (e ∷ m) a = ground (arith, Absent-erase k j m a.1)

  pub UniqueKeys-erase : (k : K) (m : List (K × V)) → UniqueKeys m → UniqueKeys (erase k m)
  unfolding erase
  UniqueKeys-erase k [] u = tt
  UniqueKeys-erase k (e ∷ m) u = ground (arith, UniqueKeys-erase k m u.1, Absent-erase k e.0 m u.0)

  -- A deleted key is gone.
  pub lookup-erase_self : (k : K) (m : List (K × V)) → UniqueKeys m → lookup k (erase k m) ≡ none
  unfolding lookup erase
  lookup-erase_self k [] u = refl
  lookup-erase_self k (e ∷ m) u = ground (arith, Absent→lookup e.0 m u.0, lookup-erase_self k m u.1)

  pub length-insert_new :
      (k : K) (v : V) (m : List (K × V))
      → lookup k m ≡ none
      → length (insert k v m) ≡ suc (length m)
  unfolding lookup insert
  length-insert_new k v [] h = refl
  length-insert_new k v (e ∷ m) h = ground (arith, length-insert_new k v m)

  pub length-erase :
      (k : K) (v : V) (m : List (K × V)) → lookup k m ≡ some v → length m ≡ suc (length (erase k m))
  unfolding lookup erase
  length-erase k v [] h = cc
  length-erase k v (e ∷ m) h = ground (arith, length-erase k v m)
