-- ===== src/Session/World.antt =====
-- How the world outside moves on: by exchanges only.
use paratro_sdk_rust.Base.{◌≡◌, refl, subst, Result, ok, err}
use paratro_sdk_rust.Session.{Env, Request, Session, Failure, Action, continue_with, call, ◌>>=◌}
use paratro_sdk_rust.Session.Trace.{continue_with-induction}

module _ (E : Env) where
  -- A world that some exchanges lead to, whoever asks
  pub data Later (w : E.World) : E.World → Type 0 where
    here : Later w w
    next :
        {v u : E.World}
        → Later w v
        → (c : E.HttpClient) → (r : Request) → (E.exchange c r v).1 ≡ u
        → Later w u

module _ {E : Env} where
  pub Later-trans : {w v u : E.World} → Later E w v → Later E v u → Later E w u
  Later-trans l here = l
  Later-trans l (next k c r e) = next (Later-trans l k) c r e

  -- What every exchange keeps is kept.
  pub Later-keeps :
      (P : E.World → Type 0)
      → ((c : E.HttpClient) (r : Request) (w : E.World) → P w → P (E.exchange c r w).1)
      → {w v : E.World} → Later E w v
      → P w
      → P v
  Later-keeps P keep here p = p
  Later-keeps P keep (next {v} l c r e) p = subst P e (keep c r v (Later-keeps P keep l p))

  -- An action moves the world on by exchanges.
  abbrev pub Moves : {A : Type 0} → Action E A → Session E → Type 0
  Moves m s = Later E s.world (m s).1.world

  pub call-Moves : (c : E.HttpClient) (r : Request) (s : Session E) → Moves (call c r) s
  unfolding call
  call-Moves c r s = next here c r refl

  pub >>=-Moves :
      {A B : Type 0} (m : Action E A) (f : A → Action E B) (s : Session E)
      → Moves m s
      → ((a : A) (t : Session E) → Moves (f a) t)
      → Moves (m >>= f) s
  >>=-Moves m f s h k =
      continue_with-induction (λ p. Later E s.world p.1.world) (m s).0 f (m s).1
        (λ a e. Later-trans h (k a (m s).1)) (λ e e'. h)

  continued-ok :
      {A B : Type 0} (x : Result A (Failure E)) (f : A → Action E B) (t u : Session E) (b : B)
      → continue_with x f t ≡ (ok b, u)
      → (a : A) × (x ≡ ok a) × (f a t ≡ (ok b, u))
  continued-ok (ok a) f t u b h = (a, refl, h)
  continued-ok (err e) f t u b h = cc

  -- A `?` that went on
  pub >>=-ok :
      {A B : Type 0} (m : Action E A) (f : A → Action E B) (s u : Session E) (b : B)
      → (m >>= f) s ≡ (ok b, u)
      → (a : A) × ((m s).0 ≡ ok a) × (f a (m s).1 ≡ (ok b, u))
  >>=-ok m f s u b h = continued-ok (m s).0 f (m s).1 u b h
