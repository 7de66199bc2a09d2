-- ===== src/ReasonTag/Shape.antt =====
-- The known tags and `Error::reason_tag` (src/reason_tag.rs, src/error.rs).
use paratro_sdk_rust.Base.{
  ◌≤◌, Bool, true, ◌≡◌, refl, inl, inr, List, [], ◌∷◌, ◌++◌, some, All, arith, any, all, length,
  Bool-cases,
}
use paratro_sdk_rust.Base.Str.{Str, ◌=ₛ◌}
use paratro_sdk_rust.Base.Str.Laws.{=ₛ_iff}
use paratro_sdk_rust.Base.Str.Utf8.{as_bytes, utf8}
use paratro_sdk_rust.Error.{
  Error, ErrorBody, api, is_reason_tag, tag_loop, tag_step, reason_tag, rejected_message_prefix,
}
use paratro_sdk_rust.Error.Code
use paratro_sdk_rust.Error.Reason.{
  IsOperationChar, failed_separator, reason_tag-rejected, reason_tag-failed,
}
use paratro_sdk_rust.Error.Regex.{Matches, tag_shape}
use paratro_sdk_rust.Error.Tag.{is_reason_tag_iff}
use paratro_sdk_rust.ReasonTag.{known_tags, is_known}

all_of_any :
    (p : Str → Bool) (tag : Str) (l : List Str)
    → all p l ≡ true
    → any (λ t. t =ₛ tag) l ≡ true
    → p tag ≡ true
all_of_any p tag [] h k = cc
all_of_any p tag (t ∷ l) h k = elim (Bool-cases (t =ₛ tag)) [
  | inl e ↦ ground (arith, =ₛ_iff t tag)
  | inr e ↦ all_of_any p tag l (ground arith) (ground arith)
]

all_valid : all is_reason_tag known_tags ≡ true
unfolding is_reason_tag tag_loop tag_step as_bytes utf8
all_valid = refl

is_known-is_reason_tag : (tag : Str) → is_known tag ≡ true → is_reason_tag tag ≡ true
unfolding is_known
is_known-is_reason_tag tag h = all_of_any is_reason_tag tag known_tags all_valid h

module _ {H J : Type 0} where
  -- Every tag that `is_known` accepts has the shape `^[a-z][a-z0-9]*(?:_[a-z0-9]+)*$` and at most
  -- 64 bytes, and `Error::reason_tag` returns it for an answer of status 400 that carries it: for a
  -- rejection `Rejected: <tag>: <detail>`, and for an engine failure `<OPERATION> failed: <tag>` with
  -- code `transaction_failed` and an operation name of capitals and underscores.
  pub is_known-reason_tag :
      (e f : Error H J) (b d : ErrorBody) (op tag detail : Str)
      → is_known tag ≡ true
      → e ≡ api 400 b
      → b.message ≡ rejected_message_prefix ++ (tag ++ b':' ∷ detail)
      → f ≡ api 400 d
      → All IsOperationChar op
      → d.code ≡ Code.transaction_failed
      → d.message ≡ op ++ (failed_separator ++ tag)
      → Matches tag_shape tag
        × (length (as_bytes tag) ≤ 64)
        × (reason_tag e ≡ some tag)
        × (reason_tag f ≡ some tag)
  is_known-reason_tag e f b d op tag detail h is_e m is_f o c m' =
      let valid = is_known-is_reason_tag tag h in
      let (shape, size) = (is_reason_tag_iff tag).0 valid in
      (
        shape,
        size,
        (reason_tag-rejected e b tag detail is_e valid m).0,
        (reason_tag-failed f d op tag is_f valid o c m').0,
      )
