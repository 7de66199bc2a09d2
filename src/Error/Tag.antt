-- ===== src/Error/Tag.antt =====
-- `is_reason_tag` and the documented regular expression (src/error.rs).
use paratro_sdk_rust.Base.{
  ℕ, ◌≤◌, Bool, true, false, ◌≡◌, refl, ap, ◌∙◌, ◌↔◌, ◌≢◌, ◌⊎◌, inl, inr, some, [], ◌∷◌, ◌++◌,
  arith, length, All, Option-cases,
}
use paratro_sdk_rust.Base.Str.{Str}
use paratro_sdk_rust.Base.Str.Utf8.{as_bytes}
use paratro_sdk_rust.Error.{tag_step, tag_loop, is_reason_tag}
use paratro_sdk_rust.Error.Regex.{
  done, more, set, star, seq, plus, Matches, lower, alnum, underscore, groups, word, tag_shape,
}

-- What one step of the loop accepts, in the three states that it can be in.
step_start : (c : ℕ) → lower c ≡ true → tag_step c true true ≡ some false
unfolding tag_step lower
step_start c h = ground arith

step_start_inv : (c : ℕ) (p : Bool) → tag_step c true true ≡ some p → (lower c ≡ true) × (p ≡ false)
unfolding tag_step lower
step_start_inv c p h = ground arith

step_alnum : (c : ℕ) (p : Bool) → alnum c ≡ true → tag_step c p false ≡ some false
unfolding tag_step alnum
step_alnum c p h = ground arith

step_underscore : (c : ℕ) → underscore c ≡ true → tag_step c false false ≡ some true
unfolding tag_step underscore
step_underscore c h = ground arith

step_inv :
    (c : ℕ) (p q : Bool)
    → tag_step c p false ≡ some q
    → ((alnum c ≡ true) × (q ≡ false)) ⊎ ((underscore c ≡ true) × (p ≡ false) × (q ≡ true))
unfolding tag_step alnum underscore
step_inv c p q h = ground arith

module _ (s : Str) where
  loop_alnum :
      (c : ℕ) (p : Bool) → alnum c ≡ true → tag_loop (c ∷ s) p false ≡ tag_loop s false false
  unfolding tag_loop
  loop_alnum c p h = rw (step_alnum c p h, tag_loop)

  loop_underscore :
      (c : ℕ) → underscore c ≡ true → tag_loop (c ∷ s) false false ≡ tag_loop s true false
  unfolding tag_loop
  loop_underscore c h = rw (step_underscore c h, tag_loop)

  loop_lower : (c : ℕ) → lower c ≡ true → tag_loop (c ∷ s) true true ≡ tag_loop s false false
  unfolding tag_loop
  loop_lower c h = rw (step_start c h, tag_loop)

  loop_inv :
      (c : ℕ) (p f : Bool)
      → tag_loop (c ∷ s) p f ≡ true
      → (q : Bool) × (tag_step c p f ≡ some q) × (tag_loop s q false ≡ true)
  unfolding tag_loop
  loop_inv c p f h = elim (Option-cases (tag_step c p f)) [
    | inl e ↦ cc (rw (e, tag_loop) at h)
    | inr (q, e) ↦ (q, e, (rw (e, tag_loop) at h))
  ]

-- From left to right: what the loop accepts is matched.
word-cons : (c : ℕ) (s : Str) → alnum c ≡ true → Matches word s → Matches word (c ∷ s)
word-cons c s h (w, g, e, hw, hg) = (c ∷ w, g, ap (◌∷◌ c) e, more (c, refl, h) hw refl, hg)

-- `[a-z0-9]+(?:_[a-z0-9]+)*`, what may follow an underscore
abbrev AfterUnderscore : Str → Type 0
AfterUnderscore u = Matches (seq (plus (set alnum)) groups) u

after-cons : (c : ℕ) (s : Str) → alnum c ≡ true → Matches word s → AfterUnderscore (c ∷ s)
after-cons c s h (w, g, e, hw, hg) =
    (c ∷ w, g, ap (◌∷◌ c) e, (c ∷ [], w, refl, (c, refl, h), hw), hg)

word_of_after : (c : ℕ) (s : Str) → underscore c ≡ true → AfterUnderscore s → Matches word (c ∷ s)
word_of_after c s h (w, g, e, hw, hg) =
    ([], c ∷ s, refl, done, more (c ∷ [], w, refl, (c, refl, h), hw) hg (ap (◌∷◌ c) e))

module _ (c : ℕ) (s : Str) (word_of : tag_loop s false false ≡ true → Matches word s)
    (after_of : tag_loop s true false ≡ true → AfterUnderscore s) where
  loop-word : tag_loop (c ∷ s) false false ≡ true → Matches word (c ∷ s)
  loop-word h =
      let (q, e, r) = loop_inv s c false false h in
      elim (step_inv c false q e) [
        | inl (a, q') ↦ word-cons c s a (word_of (rw q' at r))
        | inr (u, p', q') ↦ word_of_after c s u (after_of (rw q' at r))
      ]

  loop-after : tag_loop (c ∷ s) true false ≡ true → AfterUnderscore (c ∷ s)
  loop-after h =
      let (q, e, r) = loop_inv s c true false h in
      elim (step_inv c true q e) [
        | inl (a, q') ↦ after-cons c s a (word_of (rw q' at r))
        | inr (u, p', q') ↦ cc p'
      ]

loop_nil : (f : Bool) → tag_loop [] true f ≢ true
unfolding tag_loop
loop_nil f h = cc h

loop_nil_false : tag_loop [] false false ≡ true
unfolding tag_loop
loop_nil_false = refl

loop_sound :
    (s : Str)
    → (tag_loop s false false ≡ true → Matches word s)
      × (tag_loop s true false ≡ true → AfterUnderscore s)
loop_sound [] = ((λ h. ([], [], refl, done, done)), λ h. absurd (loop_nil false h))
loop_sound (c ∷ s) = let (w, a) = loop_sound s in (loop-word c s w a, loop-after c s w a)

start_sound : (s : Str) → tag_loop s true true ≡ true → Matches tag_shape s
start_sound [] h = absurd (loop_nil true h)
start_sound (c ∷ s) h =
    let (q, e, r) = loop_inv s c true true h in
    let (l, q') = step_start_inv c q e in
    (c ∷ [], s, refl, (c, refl, l), (loop_sound s).0 (rw q' at r))

-- From right to left: the loop runs through what is matched.
loop-alnums :
    {w : Str} (r : Str)
    → Matches (star (set alnum)) w
    → tag_loop (w ++ r) false false ≡ tag_loop r false false
loop-alnums r done = refl
loop-alnums r (more {t} (c, e, h) hs u) =
    rw (u, e) (loop_alnum (t ++ r) c false h ∙ loop-alnums r hs)

loop_after_alnums :
    {w : Str} (r : Str)
    → Matches (plus (set alnum)) w
    → tag_loop (w ++ r) true false ≡ tag_loop r false false
loop_after_alnums r (s, t, u, (c, e, h), hs) =
    rw (u, e) (loop_alnum (t ++ r) c true h ∙ loop-alnums r hs)

loop-groups : {g : Str} → Matches groups g → tag_loop g false false ≡ true
loop-groups done = loop_nil_false
loop-groups (more {t} (u1, v1, e1, (c, e, h), plus1) hs u) =
    rw (u, e1, e) (loop_underscore (v1 ++ t) c h ∙ loop_after_alnums t plus1 ∙ loop-groups hs)

loop_complete : (s : Str) → Matches tag_shape s → tag_loop s true true ≡ true
loop_complete s (x, t, u, (c, e, h), (w, g, v, hw, hg)) =
    rw (u, e, v) (loop_lower (w ++ g) c h ∙ loop-alnums g hw ∙ loop-groups hg)

guard_inv :
    (tag : Str)
    → is_reason_tag tag ≡ true
    → (tag_loop tag true true ≡ true) × (length (as_bytes tag) ≤ 64)
unfolding is_reason_tag
guard_inv tag h = (ground arith, ground arith)

guard_pass :
    (tag : Str)
    → tag_loop tag true true ≡ true
    → length (as_bytes tag) ≤ 64
    → is_reason_tag tag ≡ true
unfolding is_reason_tag
guard_pass [] h k = absurd (loop_nil true h)
guard_pass (c ∷ s) h k = ground arith

-- A tag is accepted exactly when it matches `^[a-z][a-z0-9]*(?:_[a-z0-9]+)*$` and has at most 64
-- bytes.
pub is_reason_tag_iff :
    (tag : Str)
    → (is_reason_tag tag ≡ true) ↔ (Matches tag_shape tag × (length (as_bytes tag) ≤ 64))
is_reason_tag_iff tag = (
  (λ h. let (l, k) = guard_inv tag h in (start_sound tag l, k)),
  (λ m. guard_pass tag (loop_complete tag m.0) m.1),
)

-- The characters of a tag.
abbrev pub IsTagChar : ℕ → Type 0
IsTagChar c = (alnum c ≡ true) ⊎ (underscore c ≡ true)

step-IsTagChar : (c : ℕ) (p f q : Bool) → tag_step c p f ≡ some q → IsTagChar c
unfolding tag_step alnum underscore
step-IsTagChar c p f q h = ground arith

loop-IsTagChar : (s : Str) (p f : Bool) → tag_loop s p f ≡ true → All IsTagChar s
loop-IsTagChar [] p f h = tt
loop-IsTagChar (c ∷ s) p f h =
    let (q, e, r) = loop_inv s c p f h in (step-IsTagChar c p f q e, loop-IsTagChar s q false r)

pub is_reason_tag-IsTagChar : (tag : Str) → is_reason_tag tag ≡ true → All IsTagChar tag
is_reason_tag-IsTagChar tag h = loop-IsTagChar tag true true (guard_inv tag h).0
