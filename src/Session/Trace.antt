-- ===== src/Session/Trace.antt =====
-- The requests that an action adds to those of a session.
use paratro_sdk_rust.Base.{◌≡◌, refl, ap, ◌∙◌, List, ◌++◌, append_assoc, Result, ok, err}
use paratro_sdk_rust.Session.{Env, Request, Session, Failure, Action, lift, continue_with, ◌>>=◌}

module _ {E : Env} where
  -- What holds of both ways out of a `?` holds of it.
  pub continue_with-induction :
      {A B : Type 0} (P : Result B (Failure E) × Session E → Type 0) (x : Result A (Failure E))
      (f : A → Action E B) (s : Session E)
      → ((a : A) → x ≡ ok a → P (f a s))
      → ((e : Failure E) → x ≡ err e → P (err e, s))
      → P (continue_with x f s)
  continue_with-induction P (ok a) f s h k = h a refl
  continue_with-induction P (err e) f s h k = k e refl

  -- The requests added to those of a session are of a given kind.
  abbrev pub Adds : (List Request → Type 0) → Session E → Session E → Type 0
  Adds P before after = (l : List Request) × (after.sent ≡ before.sent ++ l) × P l

  pub Adds-weaken :
      {P Q : List Request → Type 0} {A : Type 0} (m : Action E A) (s : Session E)
      → ((l : List Request) → P l → Q l)
      → Adds P s (m s).1
      → Adds Q s (m s).1
  Adds-weaken m s f (l, e, p) = (l, e, f l p)

  -- The requests of two steps follow each other, and those of a first step that fails are all.
  pub Adds->>= :
      {P Q R : List Request → Type 0} {A B : Type 0} (m : Action E A) (f : A → Action E B)
      (s : Session E)
      → ((l : List Request) → P l → R l)
      → ((l k : List Request) → P l → Q k → R (l ++ k))
      → Adds P s (m s).1
      → ((a : A) (t : Session E) → Adds Q t (f a t).1)
      → Adds R s ((m >>= f) s).1
  Adds->>= {R = R} m f s stop join h k =
      continue_with-induction (λ p. Adds R s p.1) (m s).0 f (m s).1
        (λ a e.
          let (l, eq, p) = h in
          let (n, eq', q) = k a (m s).1 in
          (l ++ n, eq' ∙ ap (λ x. x ++ n) eq ∙ append_assoc s.sent l n, join l n p q))
        (λ e h'. let (l, eq, p) = h in (l, eq, stop l p))

  -- A step that only changes the result sends nothing.
  pub Adds-map :
      {P : List Request → Type 0} {A B : Type 0} (m : Action E A) (f : A → B) (s : Session E)
      → Adds P s (m s).1
      → Adds P s ((m >>= λ a. lift (ok (f a))) s).1
  Adds-map {P = P} m f s h =
      continue_with-induction (λ p. Adds P s p.1) (m s).0 (λ a. lift (ok (f a))) (m s).1 (λ a e. h)
        (λ e e'. h)

  -- A step that only changes the result leaves the session as it is.
  pub lift-session :
      {A B : Type 0} (m : Action E A) (f : A → Result B (Failure E)) (s : Session E)
      → ((m >>= λ a. lift (f a)) s).1 ≡ (m s).1
  lift-session m f s =
      continue_with-induction (λ p. p.1 ≡ (m s).1) (m s).0 (λ a. lift (f a)) (m s).1 (λ a e. refl)
        (λ e e'. refl)
