-- ===== src/ReasonTag/UnitTests.antt =====
-- The unit tests of src/reason_tag.rs, run on the model: each is the conjunction of its assertions.
use paratro_sdk_rust.Base.{
  ℕ, Bool, not, ◌&&◌, ◌||◌, ◌≡◌, refl, true, false, List, [], ◌∷◌, ◌++◌, length, all, any, leb,
  ◌==◌,
}
use paratro_sdk_rust.Base.Str.{Str, codes, ◌=ₛ◌, starts_with}
use paratro_sdk_rust.Base.Str.Lists.{contains, ends_with, sort, dedup}
use paratro_sdk_rust.Base.Str.Utf8.{as_bytes}
use paratro_sdk_rust.ReasonTag.Tags
use paratro_sdk_rust.ReasonTag.{
  is_known, program_call_tags, contract_call_tags, gateway_tags, engine_failure_tags,
}

abbrev permit_tags : List Str
permit_tags =
    Tags.permit_digest_mismatch ∷ Tags.permit_digest_missing ∷ Tags.permit_domain_mismatch
    ∷ Tags.permit_domain_unverified ∷ Tags.permit_owner_mismatch ∷ Tags.permit_params_invalid
    ∷ Tags.permit_spender_mismatch ∷ Tags.permit_token_mismatch ∷ Tags.permit_token_not_registered
    ∷ Tags.permit_value_mismatch ∷ []

-- `is_ascii_lowercase() || is_ascii_digit() || == b'_'`
abbrev is_tag_byte : ℕ → Bool
is_tag_byte c = leb b'a' c && leb c b'z' || leb b'0' c && leb c b'9' || c == b'_'

abbrev is_forwarded : Str → Bool
is_forwarded tag =
    all is_tag_byte (as_bytes tag)
    && not (starts_with (codes "_") tag)
    && not (ends_with (codes "_") tag)
    && not (contains (codes "__") tag)
    && leb (length (as_bytes tag)) 64

abbrev pub KnownTagsAreKnown : Type 0
KnownTagsAreKnown =
    (is_known Tags.expiration_passed ≡ true)
    × (is_known Tags.fee_payer ≡ true)
    × (is_known Tags.receiver_not_ours ≡ true)
    × (is_known Tags.permit_owner_mismatch ≡ true)
    × (is_known (codes "something_new") ≡ false)

KnownTagsAreKnown_holds : KnownTagsAreKnown
unfolding is_known ◌=ₛ◌ as_bytes starts_with ends_with contains sort dedup
KnownTagsAreKnown_holds = (refl, refl, refl, refl, refl)

abbrev pub EngineFailureTagsPinTheEngineLiterals : Type 0
EngineFailureTagsPinTheEngineLiterals =
    (length engine_failure_tags ≡ 38)
    × (all (λ t. any (λ u. u =ₛ t) engine_failure_tags) permit_tags ≡ true)
    × (all is_forwarded
          (program_call_tags ++ (contract_call_tags ++ (gateway_tags ++ engine_failure_tags)))
        ≡ true)

EngineFailureTagsPinTheEngineLiterals_holds : EngineFailureTagsPinTheEngineLiterals
unfolding is_known ◌=ₛ◌ as_bytes starts_with ends_with contains sort dedup
    paratro_sdk_rust.Base.Str.Utf8.utf8
EngineFailureTagsPinTheEngineLiterals_holds = (refl, refl, refl)

abbrev pub NoDuplicatesWithinAList : Type 0
NoDuplicatesWithinAList =
    (length (dedup (sort program_call_tags)) ≡ length program_call_tags)
    × (length (dedup (sort contract_call_tags)) ≡ length contract_call_tags)
    × (length (dedup (sort gateway_tags)) ≡ length gateway_tags)
    × (length (dedup (sort engine_failure_tags)) ≡ length engine_failure_tags)

NoDuplicatesWithinAList_holds : NoDuplicatesWithinAList
unfolding is_known ◌=ₛ◌ as_bytes starts_with ends_with contains sort dedup
NoDuplicatesWithinAList_holds = (refl, refl, refl, refl)
