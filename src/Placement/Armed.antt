-- ===== src/Placement/Armed.antt =====
-- A drain callback is stored while its node drains and an instance is still on it, and at no other
-- time; no instance is on a node that is not yet ready or is terminated.
use inference_sim.Prelude.{
  ℕ, ◌≤◌, ◌<◌, ◌≡◌, refl, sym, ap, subst, ◌∙◌, String, Option, none, some, Bool, true, false, ◌&&◌,
  ◌==◌, Bool-cases, inl, inr, List, length, arith,
}
use inference_sim.Placement.Nodes.{
  NodeState, provisioning, ready, draining, terminated, Gpu, Node, allocated_count,
  is_valid_transition,
}
use inference_sim.Placement.Manager.{is_ready, is_draining}
use inference_sim.Placement.Lifecycle.{release_gpus, holds, clear_gpus, release_node}
use inference_sim.Placement.Gpus.{
  length-release_gpus, allocated_count-release_gpus, release_gpus-id, length-clear_gpus,
  allocated_count-clear_gpus,
}

both : (a b c : Bool) → (a && b && c) ≡ true → (b ≡ true) × (c ≡ true)
both true true true h = (refl, refl)
both true true false h = cc h
both true false c h = cc h
both false b c h = cc h

module _ {Callback : Type 0} where
  abbrev pub Armed : NodeState → Option Callback → ℕ → Type 0
  Armed provisioning cb held = (cb ≡ none) × (held ≡ 0)
  Armed ready cb held = cb ≡ none
  Armed draining none held = held ≡ 0
  Armed draining (some cb) held = 0 < held
  Armed terminated cb held = (cb ≡ none) × (held ≡ 0)

  -- A node has the GPUs that its total says, and is armed.
  unfoldable pub IsGood : Node Callback → Type 0
  IsGood n =
      (length n.gpus ≡ n.total_gpus) × Armed n.state n.drain_callback (allocated_count n.gpus)

  -- A Ready node may take any number of instances.
  ready-Armed :
      (s : NodeState) (cb : Option Callback) (held after : ℕ)
      → is_ready s ≡ true
      → Armed s cb held
      → Armed s cb after
  ready-Armed ready cb held after h armed = armed
  ready-Armed provisioning cb held after h armed = cc h
  ready-Armed draining cb held after h armed = cc h
  ready-Armed terminated cb held after h armed = cc h

  pub allocated-IsGood :
      (n : Node Callback) (gpus : List Gpu)
      → is_ready n.state ≡ true
      → length gpus ≡ length n.gpus
      → IsGood n
      → IsGood (record n { gpus = gpus })
  unfolding IsGood
  allocated-IsGood n gpus h same (total, armed) =
      (same ∙ total, ready-Armed n.state n.drain_callback _ _ h armed)

drained-Armed :
    (Callback : Type 0) (s : NodeState) (after : ℕ)
    → is_draining s ≡ true
    → after ≡ 0
    → Armed {Callback = Callback} s none after
drained-Armed Callback draining after h gone = gone
drained-Armed Callback ready after h gone = refl
drained-Armed Callback provisioning after h gone = cc h
drained-Armed Callback terminated after h gone = cc h

module _ {Callback : Type 0} where
  waiting-Armed :
      (s : NodeState) (cb : Option Callback) (held after : ℕ) (touched : Bool)
      → (touched && is_draining s && after == 0) ≡ false
      → after ≤ held
      → (touched ≡ false → after ≡ held)
      → Armed s cb held
      → Armed s cb after
  waiting-Armed provisioning cb held after touched h le same (unset, none_held) =
      (unset, omega arith)
  waiting-Armed ready cb held after touched h le same armed = armed
  waiting-Armed terminated cb held after touched h le same (unset, none_held) = (unset, omega arith)
  waiting-Armed draining none held after touched h le same armed = omega arith
  waiting-Armed draining (some cb) held after true h le same armed = ground arith
  waiting-Armed draining (some cb) held after false h le same armed = omega (arith, same refl)

  pub release_node-IsGood :
      (id : String) (n : Node Callback) → IsGood n → IsGood (release_node id n).0
  unfolding IsGood release_node
  release_node-IsGood id n (total, armed) =
      let size = length-release_gpus id n.gpus ∙ total in
      elim (Bool-cases
        (holds id n.gpus && is_draining n.state && allocated_count (release_gpus id n.gpus) == 0)) [
          | inl fires ↦
              let left = allocated_count (release_gpus id n.gpus) in
              let (drains, gone) = both (holds id n.gpus) (is_draining n.state) (left == 0) fires in
              let none_left : left ≡ 0 = ground arith in
              rw fires (size, drained-Armed Callback n.state left drains none_left)
          | inr waits ↦ rw waits (
            size,
            waiting-Armed n.state n.drain_callback _ _ _ waits
                (allocated_count-release_gpus id n.gpus)
                (λ h. ap allocated_count (release_gpus-id id n.gpus h)) armed,
          )
        ]

  -- Terminating clears both; a node becomes Ready only from Provisioning.
  pub terminated-IsGood :
      (n : Node Callback)
      → IsGood n
      → IsGood (record n { state = terminated; gpus = clear_gpus n.gpus; drain_callback = none })
  unfolding IsGood
  terminated-IsGood n (total, armed) =
      (length-clear_gpus n.gpus ∙ total, (refl, allocated_count-clear_gpus n.gpus))

  started-Armed :
      (s : NodeState) (cb : Option Callback) (held : ℕ)
      → is_valid_transition s ready ≡ true
      → Armed s cb held
      → Armed ready cb held
  unfolding is_valid_transition
  started-Armed provisioning cb held h armed = armed.0
  started-Armed ready cb held h armed = armed
  started-Armed draining cb held h armed = cc h
  started-Armed terminated cb held h armed = armed.0

  pub started-IsGood :
      (n : Node Callback)
      → is_valid_transition n.state ready ≡ true
      → IsGood n
      → IsGood (record n { state = ready })
  unfolding IsGood
  started-IsGood n h (total, armed) = (total, started-Armed n.state n.drain_callback _ h armed)

  empty-Armed :
      (s : NodeState) (cb : Option Callback) (held : ℕ)
      → is_ready s ≡ true
      → held ≡ 0
      → Armed s cb held
      → Armed draining cb held
  empty-Armed ready cb held h none_held unset =
      subst (λ c. Armed draining c held) (sym unset) none_held
  empty-Armed provisioning cb held h none_held armed = cc h
  empty-Armed draining cb held h none_held armed = cc h
  empty-Armed terminated cb held h none_held armed = cc h

  pub empty-IsGood :
      (n : Node Callback)
      → is_ready n.state ≡ true
      → allocated_count n.gpus ≡ 0
      → IsGood n
      → IsGood (record n { state = draining })
  unfolding IsGood
  empty-IsGood n h gone (total, armed) =
      (total, empty-Armed n.state n.drain_callback _ h gone armed)

  pub held-IsGood :
      (n : Node Callback) (cb : Callback)
      → 0 < allocated_count n.gpus
      → IsGood n
      → IsGood (record n { state = draining; drain_callback = some cb })
  unfolding IsGood
  held-IsGood n cb busy (total, armed) = (total, busy)
