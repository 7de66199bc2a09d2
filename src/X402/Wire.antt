-- ===== src/X402/Wire.antt =====
-- The records of the x402 facilitator and their JSON (src/x402.rs).
pub mod RoundTrip
use paratro_sdk_rust.Base.{ℕ, Bool, Option, none, some, List, [], ◌∷◌, ◌++◌, ok}
use paratro_sdk_rust.Base.Int.{ℤ}
use paratro_sdk_rust.Base.Str.{Str, codes}
use paratro_sdk_rust.Json.{
  Value, str, boolean, int, obj, Fields, end, field, field_unless_none, Reader, text, bool, i32,
  i64, any_value, fields_of, required, optional, defaulted, vec, ◌>>=◌,
}

pub record X402FacilitatorRequest : Type 0 where
  pub x402_version : ℤ
  pub payment_payload : Value
  pub payment_requirements : Option Value

pub record X402VerifyResponse : Type 0 where
  pub is_valid : Bool
  pub invalid_reason : Option Str
  pub payer : Str

pub record X402SettleResponse : Type 0 where
  pub success : Bool
  pub tx_id : Str
  pub transaction : Str
  pub error_reason : Option Str
  pub payer : Str
  pub network : Str

pub record X402SettleStatusResponse : Type 0 where
  pub success : Bool
  pub tx_id : Str
  pub status : Str
  pub tx_hash : Str
  pub network : Str

pub record X402Settlement : Type 0 where
  pub tx_id : Str
  pub chain : Str
  pub from_address : Str
  pub to_address : Str
  pub amount : Str
  pub status : Str
  pub valid_before : ℤ
  pub signature_v : Option ℤ
  pub signature_r : Option Str
  pub signature_s : Option Str
  pub created_at : Str

pub record ListX402SettlementsRequest : Type 0 where
  pub status : Option Str
  pub page : Option ℤ
  pub page_size : Option ℤ

pub record ListX402SettlementsResponse : Type 0 where
  pub items : List X402Settlement
  pub total : ℤ
  pub has_more : Bool

unfoldable pub facilitator_fields : X402FacilitatorRequest → Fields
facilitator_fields r = field (codes "x402Version") (int r.x402_version) (
    field (codes "paymentPayload") r.payment_payload (
      field_unless_none (codes "paymentRequirements") (λ (v : Value). v) r.payment_requirements
        end))

unfoldable pub facilitator_from : Fields → Option X402FacilitatorRequest
facilitator_from fs = do
  x402_version ← required i32 (codes "x402Version") fs
  payment_payload ← required any_value (codes "paymentPayload") fs
  payment_requirements ← optional any_value (codes "paymentRequirements") fs
  some (record {
    x402_version = x402_version;
    payment_payload = payment_payload;
    payment_requirements = payment_requirements;
  })

abbrev pub facilitator : Reader X402FacilitatorRequest
facilitator v = fields_of v >>= facilitator_from

unfoldable pub verified_fields : X402VerifyResponse → Fields
verified_fields r = field (codes "isValid") (boolean r.is_valid) (
    field_unless_none (codes "invalidReason") (str) r.invalid_reason
      (field (codes "payer") (str r.payer) end))

unfoldable pub verified_from : Fields → Option X402VerifyResponse
verified_from fs = do
  is_valid ← required bool (codes "isValid") fs
  invalid_reason ← optional text (codes "invalidReason") fs
  payer ← defaulted text [] (codes "payer") fs
  some (record { is_valid = is_valid; invalid_reason = invalid_reason; payer = payer })

abbrev pub verified : Reader X402VerifyResponse
verified v = fields_of v >>= verified_from

unfoldable pub settled_fields : X402SettleResponse → Fields
settled_fields r = field (codes "success") (boolean r.success) (
    field (codes "txId") (str r.tx_id) (
      field (codes "transaction") (str r.transaction) (
        field_unless_none (codes "errorReason") (str) r.error_reason
          (field (codes "payer") (str r.payer) (field (codes "network") (str r.network) end)))))

unfoldable pub settled_from : Fields → Option X402SettleResponse
settled_from fs = do
  success ← required bool (codes "success") fs
  tx_id ← defaulted text [] (codes "txId") fs
  transaction ← defaulted text [] (codes "transaction") fs
  error_reason ← optional text (codes "errorReason") fs
  payer ← defaulted text [] (codes "payer") fs
  network ← defaulted text [] (codes "network") fs
  some (record {
    success = success;
    tx_id = tx_id;
    transaction = transaction;
    error_reason = error_reason;
    payer = payer;
    network = network;
  })

abbrev pub settled : Reader X402SettleResponse
settled v = fields_of v >>= settled_from

unfoldable pub settle_status_fields : X402SettleStatusResponse → Fields
settle_status_fields r = field (codes "success") (boolean r.success) (
    field (codes "txId") (str r.tx_id) (
      field (codes "status") (str r.status)
        (field (codes "txHash") (str r.tx_hash) (field (codes "network") (str r.network) end))))

unfoldable pub settle_status_from : Fields → Option X402SettleStatusResponse
settle_status_from fs = do
  success ← required bool (codes "success") fs
  tx_id ← required text (codes "txId") fs
  state ← required text (codes "status") fs
  tx_hash ← defaulted text [] (codes "txHash") fs
  network ← defaulted text [] (codes "network") fs
  some (record {
    success = success;
    tx_id = tx_id;
    status = state;
    tx_hash = tx_hash;
    network = network;
  })

abbrev pub settle_status : Reader X402SettleStatusResponse
settle_status v = fields_of v >>= settle_status_from

unfoldable pub settlement_fields : X402Settlement → Fields
settlement_fields r = field (codes "tx_id") (str r.tx_id) (
    field (codes "chain") (str r.chain) (
      field (codes "from_address") (str r.from_address) (
        field (codes "to_address") (str r.to_address) (
          field (codes "amount") (str r.amount) (
            field (codes "status") (str r.status) (
              field (codes "valid_before") (int r.valid_before) (
                field_unless_none (codes "signature_v") (int) r.signature_v (
                  field_unless_none (codes "signature_r") (str) r.signature_r (
                    field_unless_none (codes "signature_s") (str) r.signature_s
                      (field (codes "created_at") (str r.created_at) end))))))))))

unfoldable pub settlement_from : Fields → Option X402Settlement
settlement_from fs = do
  tx_id ← required text (codes "tx_id") fs
  chain ← required text (codes "chain") fs
  from_address ← required text (codes "from_address") fs
  to_address ← required text (codes "to_address") fs
  amount ← required text (codes "amount") fs
  state ← required text (codes "status") fs
  valid_before ← required i64 (codes "valid_before") fs
  signature_v ← optional i32 (codes "signature_v") fs
  signature_r ← optional text (codes "signature_r") fs
  signature_s ← optional text (codes "signature_s") fs
  created_at ← required text (codes "created_at") fs
  some (record {
    tx_id = tx_id;
    chain = chain;
    from_address = from_address;
    to_address = to_address;
    amount = amount;
    status = state;
    valid_before = valid_before;
    signature_v = signature_v;
    signature_r = signature_r;
    signature_s = signature_s;
    created_at = created_at;
  })

abbrev pub settlement : Reader X402Settlement
settlement v = fields_of v >>= settlement_from

unfoldable pub settlements_from : Fields → Option ListX402SettlementsResponse
settlements_from fs = do
  list ← required (vec settlement) (codes "data") fs
  total ← required i64 (codes "total") fs
  has_more ← required bool (codes "has_more") fs
  some (record { items = list; total = total; has_more = has_more })

abbrev pub settlements : Reader ListX402SettlementsResponse
settlements v = fields_of v >>= settlements_from
