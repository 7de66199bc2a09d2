-- ===== src/Client/Tasks/Issued.antt =====
-- Which tokens the requests of interleaved calls carry (src/client.rs, src/token.rs).
use paratro_sdk_rust.Base.{
  ℕ, ◌≡◌, ◌⊎◌, inl, inr, refl, sym, ap, subst, ◌∙◌, Bool, not, ◌&&◌, Bool-cases, Option, some, none,
  List, [], ◌∷◌, ◌++◌, append_assoc, append-nil, Result, ok, err, All, All-append,
}
use paratro_sdk_rust.Base.Str.{Str}
use paratro_sdk_rust.Session.{Env, Request, Session, Failure}
use paratro_sdk_rust.Token.{kept, renew, fresh_of, auth_request}
use paratro_sdk_rust.Token.Requests.{renew-sent}
use paratro_sdk_rust.Token.Issued.{
  Issues, Held, Given, Looked, fresh_of-Looked, kept-Looked, renew-Given,
}
use paratro_sdk_rust.Client.{MpcClient, execute, retries}
use paratro_sdk_rust.Client.Retry.{execute-sent}
use paratro_sdk_rust.Client.Tokens.{execute-state}
use paratro_sdk_rust.Client.Tasks.{
  Task, start, locking, asking, sending, finished, dropped, advance, after_answer, after_lock,
  after_check, after_look,
}
use paratro_sdk_rust.Client.Tasks.Schedule.{
  Job, StepOf, here, drop, drop_asking, drop_sending, there, Steps, stop, more, starting,
}

module _ (E : Env) (P : Str → Type 0) where
  -- The token that a call is about to use
  abbrev Uses : Task E → Type 0
  Uses (sending token last) = P token
  Uses _ = Unit

  -- A request of one of the calls
  abbrev pub FromJobs : List (Job E) → Request → Type 0
  FromJobs [] r = ⊥
  FromJobs (j ∷ js) r = ((token : Str) × P token × (r ≡ j.build token)) ⊎ FromJobs js r

  look-Uses :
      (client : MpcClient E) (build : Str → Request) (o : Option Str)
      → Looked E P o
      → Uses (after_look client build o)
  look-Uses client build none h = tt
  look-Uses client build (some token) h = h

  check-Uses :
      (client : MpcClient E) (build : Str → Request) (last : Bool) (o : Option Str)
      → Looked E P o
      → Uses (after_check client build last o)
  check-Uses client build last none h = tt
  check-Uses client build last (some token) h = h

  lock-Uses :
      (client : MpcClient E) (build : Str → Request) (last : Bool) (x : Result Str (Failure E))
      → Given E P x
      → Uses (after_lock client build last x)
  lock-Uses client build last (ok token) h = h
  lock-Uses client build last (err e) h = tt

  answer-Uses :
      (client : MpcClient E) (build : Str → Request) (token : Str) (last : Bool)
      (x : Result (ℕ × List ℕ) (Failure E))
      → Uses (after_answer client build token last x)
  answer-Uses client build token last (ok (status, bytes)) =
      elim (Bool-cases (not last && retries E status bytes)) [ inl e ↦ rw e tt | inr e ↦ rw e tt ]
  answer-Uses client build token last (err e) = tt

  module _ (client : MpcClient E) where
    -- A request for a token, or one of a call
    abbrev pub Sound : List (Job E) → Request → Type 0
    Sound js r = (r ≡ auth_request client.token_manager) ⊎ FromJobs js r

    Sound-more :
        (j : Job E) (js : List (Job E)) (l : List Request)
        → All (Sound js) l
        → All (Sound (j ∷ js)) l
    Sound-more j js [] h = tt
    Sound-more j js (r ∷ l) (inl e, h) = (inl e, Sound-more j js l h)
    Sound-more j js (r ∷ l) (inr f, h) = (inr (inr f), Sound-more j js l h)

    Sound-back :
        (js ks : List (Job E)) (l : List Request)
        → ((r : Request) → FromJobs ks r → FromJobs js r)
        → All (Sound ks) l
        → All (Sound js) l
    Sound-back js ks [] back h = tt
    Sound-back js ks (r ∷ l) back (inl e, h) = (inl e, Sound-back js ks l back h)
    Sound-back js ks (r ∷ l) back (inr f, h) = (inr (back r f), Sound-back js ks l back h)

    starting-Uses : (bs : List (Str → Request)) → All (λ j. Uses j.task) (starting client bs)
    starting-Uses [] = tt
    starting-Uses (b ∷ bs) = (tt, starting-Uses bs)

  module _ (client : MpcClient E) (issues : Issues E P client.token_manager) where
    -- What one step of a call keeps, and what it sends
    abbrev Kept : List (Job E) → Task E → Session E → Session E → Type 0
    Kept js task s t =
        Uses task
        × Held E P t.state
        × ((l : List Request) × (t.sent ≡ s.sent ++ l) × All (Sound client js) l)

    advance-Kept :
        (j : Job E) (js : List (Job E)) (task : Task E) (s : Session E)
        → Held E P s.state
        → Uses task
        → Kept (j ∷ js) (advance client j.build task s).0 s (advance client j.build task s).1
    unfolding advance
    advance-Kept j js start s h u = (
      look-Uses client j.build (fresh_of E s.world s.state) (fresh_of-Looked E P s.world s.state h),
      h,
      ([], sym (append-nil s.sent), tt),
    )
    advance-Kept j js (locking stale last) s h u = (
      check-Uses client j.build last (kept E stale s.world s.state)
          (kept-Looked E P stale s.world s.state h),
      h,
      ([], sym (append-nil s.sent), tt),
    )
    advance-Kept j js (asking last) s h u =
        let (given, keeps) = renew-Given E P client.token_manager issues s h in
        (
          lock-Uses client j.build last (renew client.token_manager s).0 given,
          keeps,
          (
            auth_request client.token_manager ∷ [],
            renew-sent client.token_manager s,
            (inl refl, tt),
          ),
        )
    advance-Kept j js (sending token last) s h u = (
      answer-Uses client j.build token last (execute client (j.build token) s).0,
      subst (λ o. Held E P o) (sym (execute-state client (j.build token) s)) h,
      (j.build token ∷ [], execute-sent client (j.build token) s, (inr (inl (token, u, refl)), tt)),
    )
    advance-Kept j js (finished r) s h u = (tt, h, ([], sym (append-nil s.sent), tt))
    advance-Kept j js dropped s h u = (tt, h, ([], sym (append-nil s.sent), tt))

    StepOf-Kept :
        {all js ks : List (Job E)} {s t : Session E}
        → StepOf client all s js t ks
        → Held E P s.state
        → All (λ j. Uses j.task) js
        → All (λ j. Uses j.task) ks
          × Held E P t.state
          × ((l : List Request) × (t.sent ≡ s.sent ++ l) × All (Sound client js) l)
          × ((r : Request) → FromJobs ks r → FromJobs js r)
    StepOf-Kept (here {j} {js} {s} r granted) h u =
        let (used, keeps, sent) = advance-Kept j js j.task s h u.0 in
        ((used, u.1), keeps, sent, λ r f. f)
    StepOf-Kept (drop {j} {js} {s} r) h u =
        ((tt, u.1), h, ([], sym (append-nil s.sent), tt), λ r' f. f)
    StepOf-Kept (drop_asking {build} {last} {js} {s}) h u =
        ((tt, u.1), h, (auth_request client.token_manager ∷ [], refl, (inl refl, tt)), λ r f. f)
    StepOf-Kept (drop_sending {build} {token} {last} {js} {s}) h u =
        ((tt, u.1), h, (build token ∷ [], refl, (inr (inl (token, u.0, refl)), tt)), λ r f. f)
    StepOf-Kept (there {j} {js} p) h u =
        let (used, keeps, (l, e, q), back) = StepOf-Kept p h u.1 in
        (
          (u.0, used),
          keeps,
          (l, e, Sound-more client j js l q),
          λ r f. elim f [ inl g ↦ inl g | inr g ↦ inr (back r g) ],
        )

    Steps-Kept :
        {n : ℕ} {js ks : List (Job E)} {s t : Session E}
        → Steps client n s js t ks
        → Held E P s.state
        → All (λ j. Uses j.task) js
        → (l : List Request) × (t.sent ≡ s.sent ++ l) × All (Sound client js) l
    Steps-Kept (stop {js} {s}) h u = ([], sym (append-nil s.sent), tt)
    Steps-Kept (more {n} {js} {ks} {ls} {s} p q) h u =
        let (used, keeps, (l, e, sound), back) = StepOf-Kept p h u in
        let (k, e', sound') = Steps-Kept q keeps used in
        (
          l ++ k,
          e' ∙ ap (λ x. x ++ k) e ∙ append_assoc s.sent l k,
          All-append (Sound client js) l k sound (Sound-back client js ks k back sound'),
        )

    -- However calls on one client are interleaved and dropped, every request that is sent is the request for a
    -- token or one of the calls, under a token that was held at the start or that the gateway has
    -- issued: whatever holds of those tokens holds of the one in the request.
    pub sent-Sound :
        {n : ℕ} {ks : List (Job E)} {s t : Session E} (bs : List (Str → Request))
        → Held E P s.state
        → Steps client n s (starting client bs) t ks
        → (l : List Request) × (t.sent ≡ s.sent ++ l) × All (Sound client (starting client bs)) l
    sent-Sound bs h p = Steps-Kept p h (starting-Uses client bs)
