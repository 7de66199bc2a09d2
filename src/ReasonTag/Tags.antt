-- ===== src/ReasonTag/Tags.antt =====
-- The tags that this release of the SDK knows (src/reason_tag.rs), one constant each.
use paratro_sdk_rust.Base.Str.{Str, codes}

abbrev pub account_unresolvable : Str
account_unresolvable = codes "account_unresolvable"

abbrev pub alt_not_allowed : Str
alt_not_allowed = codes "alt_not_allowed"

abbrev pub ata_derivation : Str
ata_derivation = codes "ata_derivation"

abbrev pub counterparty_not_registered : Str
counterparty_not_registered = codes "counterparty_not_registered"

abbrev pub incoming_destination : Str
incoming_destination = codes "incoming_destination"

abbrev pub limit_daily : Str
limit_daily = codes "limit_daily"

abbrev pub limit_not_configured : Str
limit_not_configured = codes "limit_not_configured"

abbrev pub limit_per_transaction : Str
limit_per_transaction = codes "limit_per_transaction"

abbrev pub malformed : Str
malformed = codes "malformed"

abbrev pub mint_not_registered : Str
mint_not_registered = codes "mint_not_registered"

abbrev pub mint_program_unknown : Str
mint_program_unknown = codes "mint_program_unknown"

abbrev pub outgoing_authority : Str
outgoing_authority = codes "outgoing_authority"

abbrev pub outgoing_source : Str
outgoing_source = codes "outgoing_source"

abbrev pub program_not_allowed : Str
program_not_allowed = codes "program_not_allowed"

abbrev pub program_unresolvable : Str
program_unresolvable = codes "program_unresolvable"

abbrev pub shape : Str
shape = codes "shape"

abbrev pub abi : Str
abi = codes "abi"

abbrev pub amount_not_positive : Str
amount_not_positive = codes "amount_not_positive"

abbrev pub calldata : Str
calldata = codes "calldata"

abbrev pub calldata_not_canonical : Str
calldata_not_canonical = codes "calldata_not_canonical"

abbrev pub contract_address : Str
contract_address = codes "contract_address"

abbrev pub expiration : Str
expiration = codes "expiration"

abbrev pub expiration_passed : Str
expiration_passed = codes "expiration_passed"

abbrev pub expiration_too_far : Str
expiration_too_far = codes "expiration_too_far"

abbrev pub incoming_from : Str
incoming_from = codes "incoming_from"

abbrev pub outgoing_to : Str
outgoing_to = codes "outgoing_to"

abbrev pub payment_token_not_registered : Str
payment_token_not_registered = codes "payment_token_not_registered"

abbrev pub permit_deadline : Str
permit_deadline = codes "permit_deadline"

abbrev pub permit_deadline_passed : Str
permit_deadline_passed = codes "permit_deadline_passed"

abbrev pub permit_deadline_too_far : Str
permit_deadline_too_far = codes "permit_deadline_too_far"

abbrev pub permit_owner : Str
permit_owner = codes "permit_owner"

abbrev pub selector : Str
selector = codes "selector"

abbrev pub target_token_not_registered : Str
target_token_not_registered = codes "target_token_not_registered"

abbrev pub value_not_zero : Str
value_not_zero = codes "value_not_zero"

abbrev pub counterparty_signature_invalid : Str
counterparty_signature_invalid = codes "counterparty_signature_invalid"

abbrev pub counterparty_signature_missing : Str
counterparty_signature_missing = codes "counterparty_signature_missing"

abbrev pub fee_payer : Str
fee_payer = codes "fee_payer"

abbrev pub limit_decimals_ambiguous : Str
limit_decimals_ambiguous = codes "limit_decimals_ambiguous"

abbrev pub payer_signature_present : Str
payer_signature_present = codes "payer_signature_present"

abbrev pub policy_invalid : Str
policy_invalid = codes "policy_invalid"

abbrev pub calldata_invalid : Str
calldata_invalid = codes "calldata_invalid"

abbrev pub contract_address_invalid : Str
contract_address_invalid = codes "contract_address_invalid"

abbrev pub contract_not_registered : Str
contract_not_registered = codes "contract_not_registered"

abbrev pub cosignature_invalid : Str
cosignature_invalid = codes "cosignature_invalid"

abbrev pub daily_allowance_missing : Str
daily_allowance_missing = codes "daily_allowance_missing"

abbrev pub daily_usage_unavailable : Str
daily_usage_unavailable = codes "daily_usage_unavailable"

abbrev pub internal : Str
internal = codes "internal"

abbrev pub mint_token_program_unresolved : Str
mint_token_program_unresolved = codes "mint_token_program_unresolved"

abbrev pub payer_invalid : Str
payer_invalid = codes "payer_invalid"

abbrev pub payer_mismatch : Str
payer_mismatch = codes "payer_mismatch"

abbrev pub permit_digest_mismatch : Str
permit_digest_mismatch = codes "permit_digest_mismatch"

abbrev pub permit_digest_missing : Str
permit_digest_missing = codes "permit_digest_missing"

abbrev pub permit_domain_mismatch : Str
permit_domain_mismatch = codes "permit_domain_mismatch"

abbrev pub permit_domain_unverified : Str
permit_domain_unverified = codes "permit_domain_unverified"

abbrev pub permit_owner_mismatch : Str
permit_owner_mismatch = codes "permit_owner_mismatch"

abbrev pub permit_params_invalid : Str
permit_params_invalid = codes "permit_params_invalid"

abbrev pub permit_spender_mismatch : Str
permit_spender_mismatch = codes "permit_spender_mismatch"

abbrev pub permit_token_mismatch : Str
permit_token_mismatch = codes "permit_token_mismatch"

abbrev pub permit_token_not_registered : Str
permit_token_not_registered = codes "permit_token_not_registered"

abbrev pub permit_value_mismatch : Str
permit_value_mismatch = codes "permit_value_mismatch"

abbrev pub policy_not_authorized : Str
policy_not_authorized = codes "policy_not_authorized"

abbrev pub receiver_invalid : Str
receiver_invalid = codes "receiver_invalid"

abbrev pub receiver_lookup_failed : Str
receiver_lookup_failed = codes "receiver_lookup_failed"

abbrev pub receiver_missing : Str
receiver_missing = codes "receiver_missing"

abbrev pub receiver_not_ours : Str
receiver_not_ours = codes "receiver_not_ours"

abbrev pub request_digest_mismatch : Str
request_digest_mismatch = codes "request_digest_mismatch"

abbrev pub request_digest_missing : Str
request_digest_missing = codes "request_digest_missing"

abbrev pub signer_slot : Str
signer_slot = codes "signer_slot"
