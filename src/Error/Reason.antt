-- ===== src/Error/Reason.antt =====
-- `reason_tag`: which tags it returns, and the two messages with a tag that the gateway is documented
-- to send (src/error.rs).
use paratro_sdk_rust.Base.{
  ℕ, ◌≤◌, true, false, ◌≡◌, refl, ap, ◌∙◌, ◌⊎◌, Option, none, some, [], ◌∷◌, ◌++◌, arith, leb, ◌==◌,
  length, All, ◌&&◌,
}
use paratro_sdk_rust.Base.Str.{
  Str, codes, ◌=ₛ◌, strip_prefix, starts_with, split_first, after_first, is_whitespace, is_some,
}
use paratro_sdk_rust.Base.Str.Laws.{
  =ₛ_iff, strip_prefix-append, split_first-append, split_first_of_none, trim_of_none,
}
use paratro_sdk_rust.Base.Str.Utf8.{as_bytes}
use paratro_sdk_rust.Error.{
  Error, ErrorBody, api, http, decode, invalid_config, rejected, transaction_failed, kind_400,
  kind_of, kind, is_reason_tag, tag_of_rest, tagged_rest, and_then, reason_tag,
  rejected_message_prefix, duplicate_reference_id_prefix, unsupported_operation_prefix,
}
use paratro_sdk_rust.Error.Code
use paratro_sdk_rust.Error.Regex.{Matches, tag_shape, alnum, underscore}
use paratro_sdk_rust.Error.Tag.{IsTagChar, is_reason_tag_iff, is_reason_tag-IsTagChar}

-- The characters of a tag are neither a colon nor white space.
IsTagChar-plain : (c : ℕ) → IsTagChar c → ((c == b':') ≡ false) × (is_whitespace c ≡ false)
unfolding alnum underscore is_whitespace
IsTagChar-plain c h = (ground arith, ground arith)

no_colon : (s : Str) → All IsTagChar s → All (λ c. (c == b':') ≡ false) s
no_colon [] h = tt
no_colon (c ∷ s) h = ((IsTagChar-plain c h.0).0, no_colon s h.1)

no_space : (s : Str) → All IsTagChar s → All (λ c. is_whitespace c ≡ false) s
no_space [] h = tt
no_space (c ∷ s) h = ((IsTagChar-plain c h.0).1, no_space s h.1)

module _ (tag : Str) (valid : is_reason_tag tag ≡ true) where
  plain : All IsTagChar tag
  plain = is_reason_tag-IsTagChar tag valid

  tag_of_split : (rest : Str) → split_first b':' rest ≡ tag → tag_of_rest rest ≡ some tag
  unfolding tag_of_rest
  tag_of_split rest e = rw (e, trim_of_none tag (no_space tag plain), valid)

  pub tag_of_rest-append : (detail : Str) → tag_of_rest (tag ++ b':' ∷ detail) ≡ some tag
  tag_of_rest-append detail =
      tag_of_split (tag ++ b':' ∷ detail) (split_first-append b':' tag detail (no_colon tag plain))

  pub tag_of_rest_self : tag_of_rest tag ≡ some tag
  tag_of_rest_self = tag_of_split tag (split_first_of_none b':' tag (no_colon tag plain))

-- What a returned tag satisfies.
tag_of_rest-valid : (rest t : Str) → tag_of_rest rest ≡ some t → is_reason_tag t ≡ true
unfolding tag_of_rest
tag_of_rest-valid rest t h = ground arith

-- The names of operations: capitals and underscores.
abbrev pub IsOperationChar : ℕ → Type 0
IsOperationChar c = ((b'A' ≤ c) × (c ≤ b'Z')) ⊎ (c ≡ b'_')

abbrev pub failed_separator : Str
failed_separator = codes " failed: "

strip_failed-none :
    (c : ℕ) (s : Str) → IsOperationChar c → strip_prefix failed_separator (c ∷ s) ≡ none
unfolding strip_prefix
strip_failed-none c s h = ground arith

after_first-operation :
    (op tag : Str)
    → All IsOperationChar op
    → after_first failed_separator (op ++ (failed_separator ++ tag)) ≡ some tag
unfolding after_first
after_first-operation [] tag h = rw (strip_prefix-append failed_separator tag)
after_first-operation (c ∷ op) tag h =
    rw (strip_failed-none c (op ++ (failed_separator ++ tag)) h.0, after_first)
      (after_first-operation op tag h.1)

-- No name of an operation, and no blank, starts like a text whose second character is a small
-- letter.
strip_word-none :
    (x y : ℕ) (p op r : Str)
    → All IsOperationChar op
    → (x == b' ') ≡ false
    → leb b'a' y && leb y b'z' ≡ true
    → strip_prefix (x ∷ y ∷ p) (op ++ b' ' ∷ r) ≡ none
unfolding strip_prefix
strip_word-none x y p [] r h k l = rw k
strip_word-none x y p (c ∷ []) r h k l = ground arith
strip_word-none x y p (c ∷ d ∷ op) r h k l = ground arith

starts_with_of_strip :
    (p s : Str) (o : Option Str) → strip_prefix p s ≡ o → starts_with p s ≡ is_some o
unfolding starts_with
starts_with_of_strip p s o e = ap is_some e

module _ (b : ErrorBody) (rest : Str)
    (found : strip_prefix rejected_message_prefix b.message ≡ some rest) where
  tagged-rejected : tagged_rest b ≡ some rest
  unfolding tagged_rest
  tagged-rejected = rw (found, tagged_rest)

  kind-rejected : kind_400 b ≡ rejected
  unfolding kind_400
  kind-rejected = rw (starts_with_of_strip rejected_message_prefix b.message (some rest) found)

module _ (b : ErrorBody) (op tag : Str) (named : All IsOperationChar op)
    (coded : b.code ≡ Code.transaction_failed)
    (worded : b.message ≡ op ++ (failed_separator ++ tag)) where
  no_prefix :
      (x y : ℕ) (p : Str)
      → (x == b' ') ≡ false
      → leb b'a' y && leb y b'z' ≡ true
      → strip_prefix (x ∷ y ∷ p) b.message ≡ none
  no_prefix x y p k l =
      ap (strip_prefix (x ∷ y ∷ p)) worded
      ∙ strip_word-none x y p op (codes "failed: " ++ tag) named k l

  not_rejected : strip_prefix rejected_message_prefix b.message ≡ none
  not_rejected = no_prefix b'R' b'e' _ refl refl

  is_failure : b.code =ₛ Code.transaction_failed ≡ true
  is_failure = (=ₛ_iff b.code Code.transaction_failed).1 coded

  not_balance : b.code =ₛ Code.insufficient_balance ≡ false
  unfolding ◌=ₛ◌
  not_balance = ap (λ t. t =ₛ Code.insufficient_balance) coded

  tagged-failed : tagged_rest b ≡ some tag
  unfolding tagged_rest
  tagged-failed =
      rw (not_rejected, tagged_rest, is_failure)
        (ap (after_first failed_separator) worded ∙ after_first-operation op tag named)

  kind-failed : kind_400 b ≡ transaction_failed
  unfolding kind_400
  kind-failed = rw (
    starts_with_of_strip rejected_message_prefix b.message none not_rejected,
    starts_with_of_strip duplicate_reference_id_prefix b.message none
        (no_prefix b'D' b'u' _ refl refl),
    starts_with_of_strip unsupported_operation_prefix b.message none
        (no_prefix b'U' b'n' _ refl refl),
    not_balance,
    is_failure,
  )

tagged_rest-source :
    (b : ErrorBody) (r : Str)
    → tagged_rest b ≡ some r
    → (starts_with rejected_message_prefix b.message ≡ true) ⊎ (b.code ≡ Code.transaction_failed)
unfolding tagged_rest starts_with
tagged_rest-source b r h = ground (arith, =ₛ_iff b.code Code.transaction_failed)

and_then-eq-some :
    (o : Option Str) (f : Str → Option Str) (t : Str)
    → and_then o f ≡ some t
    → (r : Str) × (o ≡ some r) × (f r ≡ some t)
and_then-eq-some none f t h = cc
and_then-eq-some (some r) f t h = (r, refl, h)

tag_sound :
    (b : ErrorBody) (t : Str)
    → and_then (tagged_rest b) tag_of_rest ≡ some t
    → (is_reason_tag t ≡ true)
      × ((starts_with rejected_message_prefix b.message ≡ true)
          ⊎ (b.code ≡ Code.transaction_failed))
tag_sound b t h =
    let (r, e, f) = and_then-eq-some (tagged_rest b) tag_of_rest t h in
    (tag_of_rest-valid r t f, tagged_rest-source b r e)

module _ {H J : Type 0} where
  -- A tag is returned only for a 400, has the documented shape and at most 64 bytes, and its
  -- message is a rejection or its code is `transaction_failed`.
  pub reason_tag_sound :
      (e : Error H J) (t : Str)
      → reason_tag e ≡ some t
      → (b : ErrorBody) × (e ≡ api 400 b)
        × Matches tag_shape t
        × (length (as_bytes t) ≤ 64)
        × ((starts_with rejected_message_prefix b.message ≡ true)
            ⊎ (b.code ≡ Code.transaction_failed))
  unfolding reason_tag
  reason_tag_sound (api s b) t h =
      let (v, w) = tag_sound b t (ground arith) in
      let (m, l) = (is_reason_tag_iff t).0 v in (b, ground arith, m, l, w)
  reason_tag_sound (http x) t h = cc
  reason_tag_sound (decode s j) t h = cc
  reason_tag_sound (invalid_config m) t h = cc

  -- A rejection `Rejected: <tag>: <detail>` with a well-formed tag is classified as a rejection,
  -- and its tag is returned, whatever the detail and the code are.
  pub reason_tag-rejected :
      (e : Error H J) (b : ErrorBody) (tag detail : Str)
      → e ≡ api 400 b
      → is_reason_tag tag ≡ true
      → b.message ≡ rejected_message_prefix ++ (tag ++ b':' ∷ detail)
      → (reason_tag e ≡ some tag) × (kind e ≡ some rejected)
  unfolding reason_tag kind kind_of
  reason_tag-rejected e b tag detail is_e v m =
      let found =
        ap (strip_prefix rejected_message_prefix) m
        ∙ strip_prefix-append rejected_message_prefix (tag ++ b':' ∷ detail) in
      rw is_e (
        ap (λ o. and_then o tag_of_rest) (tagged-rejected b _ found)
            ∙ tag_of_rest-append tag v detail,
        ap some (kind-rejected b _ found),
      )

  -- An engine failure `<OPERATION> failed: <tag>` with code `transaction_failed` is classified as
  -- one, and its tag is returned, for every operation name of capitals and underscores.
  pub reason_tag-failed :
      (e : Error H J) (b : ErrorBody) (op tag : Str)
      → e ≡ api 400 b
      → is_reason_tag tag ≡ true
      → All IsOperationChar op
      → b.code ≡ Code.transaction_failed
      → b.message ≡ op ++ (failed_separator ++ tag)
      → (reason_tag e ≡ some tag) × (kind e ≡ some transaction_failed)
  unfolding reason_tag kind kind_of
  reason_tag-failed e b op tag is_e v o c m = rw is_e (
    ap (λ r. and_then r tag_of_rest) (tagged-failed b op tag o c m) ∙ tag_of_rest_self tag v,
    ap some (kind-failed b op tag o c m),
  )
