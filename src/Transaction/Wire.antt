-- ===== src/Transaction/Wire.antt =====
-- The JSON of the requests of the unified entry (src/transaction.rs).
pub mod RoundTrip
use paratro_sdk_rust.Base.{Option, none, some, [], if◌then◌else◌}
use paratro_sdk_rust.Base.Str.{Str, codes, ◌=ₛ◌}
use paratro_sdk_rust.Json.{
  Value, str, int, obj, Fields, end, field, field_unless_none, Codec, text, i64, fields_of,
  required, optional, ◌>>=◌,
}
use paratro_sdk_rust.Transaction.{
  TransferRequest, ProgramCallRequest, ContractCallIncomingLeg, ContractCallOutgoingLeg,
  ContractCall, ContractCallRequest, CreateTransactionRequest, transfer, program_call,
  contract_call, operation, operation_transfer, operation_program_call, operation_contract_call,
}

unfoldable pub transfer_fields : TransferRequest → Fields
transfer_fields r = field (codes "from_address") (str r.from_address) (
    field (codes "to_address") (str r.to_address) (
      field (codes "chain") (str r.chain) (
        field (codes "token_symbol") (str r.token_symbol) (
          field (codes "amount") (str r.amount) (
            field_unless_none (codes "memo") (str) r.memo
              (field_unless_none (codes "reference_id") (str) r.reference_id end))))))

unfoldable pub transfer_from : Fields → Option TransferRequest
transfer_from fs = do
  from_address ← required text (codes "from_address") fs
  to_address ← required text (codes "to_address") fs
  chain ← required text (codes "chain") fs
  token_symbol ← required text (codes "token_symbol") fs
  amount ← required text (codes "amount") fs
  memo ← optional text (codes "memo") fs
  reference_id ← optional text (codes "reference_id") fs
  some (record {
    from_address = from_address;
    to_address = to_address;
    chain = chain;
    token_symbol = token_symbol;
    amount = amount;
    memo = memo;
    reference_id = reference_id;
  })

unfoldable pub program_call_fields : ProgramCallRequest → Fields
program_call_fields r = field (codes "from_address") (str r.from_address) (
    field (codes "chain") (str r.chain) (
      field (codes "signed_transaction") (str r.signed_transaction) (
        field_unless_none (codes "receive_address") (str) r.receive_address (
          field_unless_none (codes "reference_id") (str) r.reference_id
            (field_unless_none (codes "memo") (str) r.memo end)))))

unfoldable pub program_call_from : Fields → Option ProgramCallRequest
program_call_from fs = do
  from_address ← required text (codes "from_address") fs
  chain ← required text (codes "chain") fs
  signed_transaction ← required text (codes "signed_transaction") fs
  receive_address ← optional text (codes "receive_address") fs
  reference_id ← optional text (codes "reference_id") fs
  memo ← optional text (codes "memo") fs
  some (record {
    from_address = from_address;
    chain = chain;
    signed_transaction = signed_transaction;
    receive_address = receive_address;
    reference_id = reference_id;
    memo = memo;
  })

unfoldable pub incoming_fields : ContractCallIncomingLeg → Fields
incoming_fields r =
    field (codes "to") (str r.to)
      (field (codes "token") (str r.token) (field (codes "amount") (str r.amount) end))

unfoldable pub incoming_from : Fields → Option ContractCallIncomingLeg
incoming_from fs = do
  to ← required text (codes "to") fs
  token ← required text (codes "token") fs
  amount ← required text (codes "amount") fs
  some (record { to = to; token = token; amount = amount })

abbrev pub incoming_leg : Codec ContractCallIncomingLeg
incoming_leg = record {
  to_value = λ r. obj (incoming_fields r);
  from_value = λ v. fields_of v >>= incoming_from;
}

unfoldable pub outgoing_fields : ContractCallOutgoingLeg → Fields
outgoing_fields r = field (codes "from") (str r.from) (
    field (codes "to") (str r.to)
      (field (codes "token") (str r.token) (field (codes "amount") (str r.amount) end)))

unfoldable pub outgoing_from : Fields → Option ContractCallOutgoingLeg
outgoing_from fs = do
  from ← required text (codes "from") fs
  to ← required text (codes "to") fs
  token ← required text (codes "token") fs
  amount ← required text (codes "amount") fs
  some (record { from = from; to = to; token = token; amount = amount })

abbrev pub outgoing_leg : Codec ContractCallOutgoingLeg
outgoing_leg = record {
  to_value = λ r. obj (outgoing_fields r);
  from_value = λ v. fields_of v >>= outgoing_from;
}

unfoldable pub quote_fields : ContractCall → Fields
quote_fields r = field (codes "quote_id") (str r.quote_id) (
    field (codes "expiration") (int r.expiration) (
      field (codes "incoming") (incoming_leg.to_value r.incoming) (
        field (codes "outgoing") (outgoing_leg.to_value r.outgoing) (
          field (codes "counterparty_signature") (str r.counterparty_signature)
            (field_unless_none (codes "permit_deadline") (int) r.permit_deadline end)))))

unfoldable pub quote_from : Fields → Option ContractCall
quote_from fs = do
  quote_id ← required text (codes "quote_id") fs
  expiration ← required i64 (codes "expiration") fs
  incoming ← required incoming_leg.from_value (codes "incoming") fs
  outgoing ← required outgoing_leg.from_value (codes "outgoing") fs
  counterparty_signature ← required text (codes "counterparty_signature") fs
  permit_deadline ← optional i64 (codes "permit_deadline") fs
  some (record {
    quote_id = quote_id;
    expiration = expiration;
    incoming = incoming;
    outgoing = outgoing;
    counterparty_signature = counterparty_signature;
    permit_deadline = permit_deadline;
  })

abbrev pub quote : Codec ContractCall
quote = record {
  to_value = λ r. obj (quote_fields r);
  from_value = λ v. fields_of v >>= quote_from;
}

unfoldable pub contract_call_fields : ContractCallRequest → Fields
contract_call_fields r = field (codes "from_address") (str r.from_address) (
    field (codes "chain") (str r.chain) (
      field_unless_none (codes "receive_address") (str) r.receive_address (
        field (codes "contract_call") (quote.to_value r.contract_call) (
          field_unless_none (codes "reference_id") (str) r.reference_id
            (field_unless_none (codes "memo") (str) r.memo end)))))

unfoldable pub contract_call_from : Fields → Option ContractCallRequest
contract_call_from fs = do
  from_address ← required text (codes "from_address") fs
  chain ← required text (codes "chain") fs
  receive_address ← optional text (codes "receive_address") fs
  call ← required quote.from_value (codes "contract_call") fs
  reference_id ← optional text (codes "reference_id") fs
  memo ← optional text (codes "memo") fs
  some (record {
    from_address = from_address;
    chain = chain;
    receive_address = receive_address;
    contract_call = call;
    reference_id = reference_id;
    memo = memo;
  })

-- `#[serde(tag = "operation")]`: the tag comes first, then the fields of the variant.
unfoldable pub variant_fields : CreateTransactionRequest → Fields
unfolding transfer_fields program_call_fields contract_call_fields
variant_fields (transfer r) = transfer_fields r
variant_fields (program_call r) = program_call_fields r
variant_fields (contract_call r) = contract_call_fields r

abbrev pub operation_key : Str
operation_key = codes "operation"

unfoldable pub request_fields : CreateTransactionRequest → Fields
unfolding variant_fields operation
request_fields r = field operation_key (str (operation r)) (variant_fields r)

abbrev lift :
    {A : Type 0} → (A → CreateTransactionRequest) → Option A → Option CreateTransactionRequest
lift f none = none
lift f (some a) = some (f a)

unfoldable pub variant_from : Str → Fields → Option CreateTransactionRequest
variant_from tag fs =
    if tag =ₛ operation_transfer
    then lift transfer (transfer_from fs)
    else if tag =ₛ operation_program_call
    then lift program_call (program_call_from fs)
    else if tag =ₛ operation_contract_call
    then lift contract_call (contract_call_from fs)
    else none

unfoldable pub request_from : Fields → Option CreateTransactionRequest
request_from fs = do tag ← required text operation_key fs; variant_from tag fs

abbrev pub request : Codec CreateTransactionRequest
request = record {
  to_value = λ r. obj (request_fields r);
  from_value = λ v. fields_of v >>= request_from;
}
