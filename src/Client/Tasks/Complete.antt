-- ===== src/Client/Tasks/Complete.antt =====
-- How calls of one client in an interleaving come to their end (src/client.rs, src/token.rs).
use paratro_sdk_rust.Base.{
  ℕ, zero, suc, ◌+◌, ◌*◌, ◌≤◌, ◌≡◌, refl, ◌∙◌, inl, inr, List, arith, length, All,
}
use paratro_sdk_rust.Base.Str.{Str}
use paratro_sdk_rust.Session.{Env, Request, Session}
use paratro_sdk_rust.Client.{MpcClient}
use paratro_sdk_rust.Client.Tasks.Progress.{go_on}
use paratro_sdk_rust.Client.Tasks.Schedule.{
  Job, IsFinished, Steps, stop, more, total, steps_left, drops, starting,
}
use paratro_sdk_rust.Client.Tasks.Bounds.{Step-left, Steps-left, starting-total}

module _ {E : Env} (client : MpcClient E) where
  -- Steps to the end of every call, with no further one dropped
  abbrev pub Completes : Session E → List (Job E) → Type 0
  Completes s js =
      (m : ℕ) × (u : Session E) × (ls : List (Job E)) × Steps client m s js u ls
      × All (λ j. IsFinished j.task) ls
      × (drops ls ≡ drops js)

  completes :
      (fuel : ℕ) (s : Session E) (js : List (Job E)) → total steps_left js ≤ fuel → Completes s js
  completes zero s js h = elim (go_on client js s) [
    | inl f ↦ (0, s, js, stop, f, refl)
    | inr (t, ks, p, e) ↦ let left = Step-left client p in absurd (omega (arith, left.0))
  ]
  completes (suc fuel) s js h = elim (go_on client js s) [
    | inl f ↦ (0, s, js, stop, f, refl)
    | inr (t, ks, p, e) ↦
        let left = Step-left client p in
        let (m, u, ls, q, f, e') = completes fuel t ks (omega (arith, left.0)) in
        (suc m, u, ls, more p q, f, e' ∙ e)
  ]

  -- Wherever an interleaving of k calls under the lock of the token has come to, whichever of them were
  -- dropped, it can be brought to the end of all others with no further one dropped, and it makes 7
  -- steps for each call at most in total.
  pub completed :
      {n : ℕ} {ks : List (Job E)} {s t : Session E} (bs : List (Str → Request))
      → Steps client n s (starting client bs) t ks
      → (m : ℕ) × (u : Session E) × (ls : List (Job E)) × Steps client m t ks u ls
        × All (λ j. IsFinished j.task) ls
        × (drops ls ≡ drops ks)
        × (n + m ≤ 7 * length bs)
  completed {ks = ks} {t = t} bs p =
      let (m, u, ls, q, f, e) = completes (total steps_left ks) t ks (omega arith) in
      let before = Steps-left client p in
      let after = Steps-left client q in
      let first = starting-total client bs in
      (m, u, ls, q, f, e, omega (arith, before.0, after.0, first.0))
