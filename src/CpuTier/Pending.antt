-- ===== src/CpuTier/Pending.antt =====
-- The keys that prepareStore takes, and the loop that adds their blocks.
use inference_sim.Prelude.{
  ℕ, suc, ◌+◌, ◌≤◌, ◌<◌, ◌≡◌, ◌≢◌, refl, sym, ◌∙◌, ap, subst, String, List, [], ◌∷◌, some, none,
  true, false, negsuc, All, ite, if_neg, lookup-insert_self, lookup-insert_ne, arith, length,
  lookup, string_discrete, Option-cases, inl, inr,
}
use inference_sim.Nodes.{holds, new_node}
use inference_sim.CpuTier.Defs.{OffloadCpuTier, fresh_keys, add_pending, add_all_pending}
use inference_sim.CpuTier.Inv.{TierInv, set_ref_self, set_ref_ne, add_pending-TierInv}

capacity-add_pending : (t : OffloadCpuTier) (k : String) → (add_pending t k).capacity ≡ t.capacity
unfolding add_pending
capacity-add_pending t k = refl

-- No key stands twice.
abbrev pub NoRepeat : List String → Type 0
NoRepeat [] = Unit
NoRepeat (k ∷ ks) = (holds k ks ≡ false) × NoRepeat ks

-- Keys that the tier does not have.
abbrev pub AllAbsent : OffloadCpuTier → List String → Type 0
AllAbsent t [] = Unit
AllAbsent t (k ∷ ks) = (lookup string_discrete k t.nodes.entries ≡ none) × AllAbsent t ks

pub fresh_absent : (t : OffloadCpuTier) (keys : List String) → AllAbsent t (fresh_keys t keys)
unfolding fresh_keys
fresh_absent t [] = tt
fresh_absent t (k ∷ keys) = elim (Option-cases (lookup string_discrete k t.nodes.entries)) [
  | inl e ↦ rw (e, fresh_keys) (e, fresh_absent t keys)
  | inr (n, e) ↦ rw (e, fresh_keys) (fresh_absent t keys)
]

holds_cons :
    (k j : String) (ks : List String) → holds k (j ∷ ks) ≡ false → (k ≢ j) × (holds k ks ≡ false)
unfolding holds
holds_cons k j ks h = ground arith

holds_skip :
    (k j : String) (ks : List String) → k ≢ j → holds k ks ≡ false → holds k (j ∷ ks) ≡ false
unfolding holds
holds_skip k j ks p h = ground arith

fresh_holds :
    (t : OffloadCpuTier) (j : String) (keys : List String)
    → holds j keys ≡ false
    → holds j (fresh_keys t keys) ≡ false
unfolding fresh_keys holds
fresh_holds t j [] h = refl
fresh_holds t j (k ∷ keys) h =
    let (other, rest) = holds_cons j k keys h in
    elim (Option-cases (lookup string_discrete k t.nodes.entries)) [
      | inl e ↦
          rw (e, fresh_keys) (holds_skip j k (fresh_keys t keys) other (fresh_holds t j keys rest))
      | inr (n, e) ↦ rw (e, fresh_keys) (fresh_holds t j keys rest)
    ]

pub fresh_NoRepeat :
    (t : OffloadCpuTier) (keys : List String) → NoRepeat keys → NoRepeat (fresh_keys t keys)
unfolding fresh_keys
fresh_NoRepeat t [] h = tt
fresh_NoRepeat t (k ∷ keys) h = elim (Option-cases (lookup string_discrete k t.nodes.entries)) [
  | inl e ↦ rw (e, fresh_keys) (fresh_holds t k keys h.0, fresh_NoRepeat t keys h.1)
  | inr (n, e) ↦ rw (e, fresh_keys) (fresh_NoRepeat t keys h.1)
]

still_absent :
    (t u : OffloadCpuTier) (k : String) (keys : List String)
    → ((j : String)
        → j ≢ k
        → lookup string_discrete j t.nodes.entries ≡ none
        → lookup string_discrete j u.nodes.entries ≡ none)
    → holds k keys ≡ false
    → AllAbsent t keys
    → AllAbsent u keys
unfolding holds
still_absent t u k [] same h a = tt
still_absent t u k (j ∷ keys) same h a =
    let (other, rest) = holds_cons k j keys h in
    (same j (λ p. other (sym p)) a.0, still_absent t u k keys same rest a.1)

pub add_all_pending-TierInv :
    (t : OffloadCpuTier) (l : List ℕ) (keys : List String)
    → TierInv t l
    → NoRepeat keys
    → AllAbsent t keys
    → length t.nodes.entries + length keys ≤ t.capacity
    → TierInv (add_all_pending t keys) l
      × (length (add_all_pending t keys).nodes.entries ≡ length t.nodes.entries + length keys)
unfolding add_all_pending
add_all_pending-TierInv t l [] v d a room = (v, omega arith)
add_all_pending-TierInv t l (k ∷ keys) v d a room =
    let (v1, grown, same) = add_pending-TierInv t l v k a.0 (omega arith) in
    let u = add_pending t k in
    let (v2, total) =
      add_all_pending-TierInv u l keys v1 d.1
        (still_absent t u k keys (λ j p e. same j p ∙ e) d.0 a.1)
        (omega (arith, grown, capacity-add_pending t k)) in
    (v2, omega (arith, total, grown))

-- A key whose block is being written.
abbrev pub IsPending : OffloadCpuTier → String → Type 0
IsPending t k =
    (n : ℕ) × (lookup string_discrete k t.nodes.entries ≡ some n) × (t.ref_cnt n ≡ negsuc 0)

add_pending-IsPending :
    (t : OffloadCpuTier) (k : String)
    → (lookup string_discrete k (add_pending t k).nodes.entries ≡ some t.nodes.allocated)
      × ((add_pending t k).ref_cnt t.nodes.allocated ≡ negsuc 0)
      × ((add_pending t k).nodes.allocated ≡ suc t.nodes.allocated)
unfolding add_pending new_node
add_pending-IsPending t k = (
  lookup-insert_self string_discrete k t.nodes.allocated t.nodes.entries,
  set_ref_self t.ref_cnt t.nodes.allocated (negsuc 0),
  refl,
)

add_pending-frame :
    (t : OffloadCpuTier) (k j : String)
    → j ≢ k
    → lookup string_discrete j (add_pending t k).nodes.entries
      ≡ lookup string_discrete j t.nodes.entries
unfolding add_pending new_node
add_pending-frame t k j h = lookup-insert_ne string_discrete k j t.nodes.allocated t.nodes.entries h

refs-add_pending :
    (t : OffloadCpuTier) (k : String) (m : ℕ)
    → m < t.nodes.allocated
    → (add_pending t k).ref_cnt m ≡ t.ref_cnt m
unfolding add_pending
refs-add_pending t k m h = set_ref_ne t.ref_cnt t.nodes.allocated m (negsuc 0) (λ p. omega arith)

-- The other keys keep their blocks, and the older blocks their counts.
pub add_all_pending-frame :
    (t : OffloadCpuTier) (keys : List String) (j : String)
    → holds j keys ≡ false
    → lookup string_discrete j (add_all_pending t keys).nodes.entries
      ≡ lookup string_discrete j t.nodes.entries
unfolding add_all_pending
add_all_pending-frame t [] j h = refl
add_all_pending-frame t (k ∷ keys) j h =
    let (other, rest) = holds_cons j k keys h in
    add_all_pending-frame (add_pending t k) keys j rest ∙ add_pending-frame t k j other

pub refs-add_all_pending :
    (t : OffloadCpuTier) (keys : List String) (m : ℕ)
    → m < t.nodes.allocated
    → (add_all_pending t keys).ref_cnt m ≡ t.ref_cnt m
unfolding add_all_pending
refs-add_all_pending t [] m h = refl
refs-add_all_pending t (k ∷ keys) m h =
    refs-add_all_pending (add_pending t k) keys m (omega (arith, (add_pending-IsPending t k).2))
    ∙ refs-add_pending t k m h

pub add_all_pending-IsPending :
    (t : OffloadCpuTier) (keys : List String)
    → NoRepeat keys
    → All (IsPending (add_all_pending t keys)) keys
unfolding add_all_pending
add_all_pending-IsPending t [] d = tt
add_all_pending-IsPending t (k ∷ keys) d =
    let (at, pending, later) = add_pending-IsPending t k in
    let u = add_pending t k in
    (
      (
        t.nodes.allocated,
        add_all_pending-frame u keys k d.0 ∙ at,
        refs-add_all_pending u keys t.nodes.allocated (omega (arith, later)) ∙ pending,
      ),
      add_all_pending-IsPending u keys d.1,
    )

pub absent_mono :
    (t u : OffloadCpuTier) (keys : List String)
    → ((j : String)
        → lookup string_discrete j t.nodes.entries ≡ none
        → lookup string_discrete j u.nodes.entries ≡ none)
    → AllAbsent t keys
    → AllAbsent u keys
absent_mono t u [] same a = tt
absent_mono t u (k ∷ keys) same a = (same k a.0, absent_mono t u keys same a.1)

pub capacity-add_all_pending :
    (t : OffloadCpuTier) (keys : List String) → (add_all_pending t keys).capacity ≡ t.capacity
unfolding add_all_pending
capacity-add_all_pending t [] = refl
capacity-add_all_pending t (k ∷ keys) =
    capacity-add_all_pending (add_pending t k) keys ∙ capacity-add_pending t k

-- A key that the tier has is not fresh.
pub present_not_fresh :
    (k : String) (t : OffloadCpuTier) (n : ℕ) (fresh : List String)
    → AllAbsent t fresh
    → lookup string_discrete k t.nodes.entries ≡ some n
    → holds k fresh ≡ false
unfolding holds
present_not_fresh k t n [] a e = refl
present_not_fresh k t n (j ∷ fresh) a e =
    if_neg (string_discrete k j)
      (λ p. cc (subst (λ i. lookup string_discrete i t.nodes.entries ≡ some n) p e, a.0)) true
      (holds k fresh)
    ∙ present_not_fresh k t n fresh a.1 e

-- The fresh keys are those asked for that the tier does not have.
pub fresh_exactly :
    (t : OffloadCpuTier) (keys : List String) (k : String)
    → lookup string_discrete k t.nodes.entries ≡ none
    → holds k (fresh_keys t keys) ≡ holds k keys
unfolding fresh_keys holds
fresh_exactly t [] k e = refl
fresh_exactly t (j ∷ keys) k e = elim (Option-cases (lookup string_discrete j t.nodes.entries)) [
  | inl absent ↦
      rw (absent, fresh_keys)
        (ap (λ b. ite (string_discrete k j) true b) (fresh_exactly t keys k e))
  | inr (n, at) ↦
      rw (at, fresh_keys)
        (fresh_exactly t keys k e
          ∙ sym (
              if_neg (string_discrete k j)
                (λ p. cc (subst (λ i. lookup string_discrete i t.nodes.entries ≡ none) p e, at))
                true (holds k keys)))
]
