-- ===== src/ReasonTag.antt =====
-- The lists of known reason tags and their test (src/reason_tag.rs).
pub mod Tags
pub mod Shape
mod Tests
mod UnitTests
use paratro_sdk_rust.Base.{Bool, List, [], ◌∷◌, ◌++◌, any}
use paratro_sdk_rust.Base.Str.{Str, ◌=ₛ◌}
use Tags

abbrev pub program_call_tags : List Str
program_call_tags =
    Tags.account_unresolvable ∷ Tags.alt_not_allowed ∷ Tags.ata_derivation
    ∷ Tags.counterparty_not_registered ∷ Tags.incoming_destination ∷ Tags.limit_daily
    ∷ Tags.limit_not_configured ∷ Tags.limit_per_transaction ∷ Tags.malformed
    ∷ Tags.mint_not_registered ∷ Tags.mint_program_unknown ∷ Tags.outgoing_authority
    ∷ Tags.outgoing_source ∷ Tags.program_not_allowed ∷ Tags.program_unresolvable ∷ Tags.shape ∷ []

abbrev pub contract_call_tags : List Str
contract_call_tags =
    Tags.abi ∷ Tags.amount_not_positive ∷ Tags.calldata ∷ Tags.calldata_not_canonical
    ∷ Tags.contract_address ∷ Tags.counterparty_not_registered ∷ Tags.expiration
    ∷ Tags.expiration_passed ∷ Tags.expiration_too_far ∷ Tags.incoming_from
    ∷ Tags.limit_not_configured ∷ Tags.limit_per_transaction ∷ Tags.outgoing_to
    ∷ Tags.payment_token_not_registered ∷ Tags.permit_deadline ∷ Tags.permit_deadline_passed
    ∷ Tags.permit_deadline_too_far ∷ Tags.permit_owner ∷ Tags.selector
    ∷ Tags.target_token_not_registered ∷ Tags.value_not_zero ∷ []

abbrev pub gateway_tags : List Str
gateway_tags =
    Tags.counterparty_signature_invalid ∷ Tags.counterparty_signature_missing ∷ Tags.fee_payer
    ∷ Tags.limit_daily ∷ Tags.limit_decimals_ambiguous ∷ Tags.limit_not_configured ∷ Tags.malformed
    ∷ Tags.payer_signature_present ∷ Tags.policy_invalid ∷ Tags.program_not_allowed ∷ Tags.shape
    ∷ []

abbrev pub engine_failure_tags : List Str
engine_failure_tags =
    Tags.alt_not_allowed ∷ Tags.amount_not_positive ∷ Tags.calldata_invalid
    ∷ Tags.contract_address_invalid ∷ Tags.contract_not_registered ∷ Tags.cosignature_invalid
    ∷ Tags.daily_allowance_missing ∷ Tags.daily_usage_unavailable ∷ Tags.internal ∷ Tags.limit_daily
    ∷ Tags.limit_not_configured ∷ Tags.limit_per_transaction ∷ Tags.malformed
    ∷ Tags.mint_token_program_unresolved ∷ Tags.payer_invalid ∷ Tags.payer_mismatch
    ∷ Tags.permit_deadline_passed ∷ Tags.permit_deadline_too_far ∷ Tags.permit_digest_mismatch
    ∷ Tags.permit_digest_missing ∷ Tags.permit_domain_mismatch ∷ Tags.permit_domain_unverified
    ∷ Tags.permit_owner_mismatch ∷ Tags.permit_params_invalid ∷ Tags.permit_spender_mismatch
    ∷ Tags.permit_token_mismatch ∷ Tags.permit_token_not_registered ∷ Tags.permit_value_mismatch
    ∷ Tags.policy_invalid ∷ Tags.policy_not_authorized ∷ Tags.program_not_allowed
    ∷ Tags.receiver_invalid ∷ Tags.receiver_lookup_failed ∷ Tags.receiver_missing
    ∷ Tags.receiver_not_ours ∷ Tags.request_digest_mismatch ∷ Tags.request_digest_missing
    ∷ Tags.signer_slot ∷ []

-- The four lists chained, in the order of the source.
abbrev pub known_tags : List Str
known_tags = program_call_tags ++ (contract_call_tags ++ (gateway_tags ++ engine_failure_tags))

unfoldable pub is_known : Str → Bool
is_known tag = any (λ t. t =ₛ tag) known_tags
