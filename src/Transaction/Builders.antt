-- ===== src/Transaction/Builders.antt =====
-- The constructors of the requests (src/transaction.rs): each starts without its optional fields,
-- each `with_` method sets one of them, and the last ones make the request of an operation.
use paratro_sdk_rust.Base.{none, some}
use paratro_sdk_rust.Base.Int.{ℤ}
use paratro_sdk_rust.Base.Str.{Str}
use paratro_sdk_rust.Transaction.{
  TransferRequest, ProgramCallRequest, ContractCallIncomingLeg, ContractCallOutgoingLeg,
  ContractCall, ContractCallRequest, CreateTransactionRequest, transfer, program_call,
  contract_call,
}

abbrev pub new_transfer : Str → Str → Str → Str → Str → TransferRequest
new_transfer a b c d e = record {
  from_address = a;
  to_address = b;
  chain = c;
  token_symbol = d;
  amount = e;
  memo = none;
  reference_id = none;
}

abbrev pub transfer_with_memo : TransferRequest → Str → TransferRequest
transfer_with_memo r x = record r { memo = some x }

abbrev pub transfer_with_reference_id : TransferRequest → Str → TransferRequest
transfer_with_reference_id r x = record r { reference_id = some x }

abbrev pub new_program_call : Str → Str → Str → ProgramCallRequest
new_program_call a b c = record {
  from_address = a;
  chain = b;
  signed_transaction = c;
  receive_address = none;
  reference_id = none;
  memo = none;
}

abbrev pub program_call_with_receive_address : ProgramCallRequest → Str → ProgramCallRequest
program_call_with_receive_address r x = record r { receive_address = some x }

abbrev pub program_call_with_reference_id : ProgramCallRequest → Str → ProgramCallRequest
program_call_with_reference_id r x = record r { reference_id = some x }

abbrev pub program_call_with_memo : ProgramCallRequest → Str → ProgramCallRequest
program_call_with_memo r x = record r { memo = some x }

abbrev pub new_quote :
    Str → ℤ → ContractCallIncomingLeg → ContractCallOutgoingLeg → Str → ContractCall
new_quote a z i o b = record {
  quote_id = a;
  expiration = z;
  incoming = i;
  outgoing = o;
  counterparty_signature = b;
  permit_deadline = none;
}

abbrev pub quote_with_permit_deadline : ContractCall → ℤ → ContractCall
quote_with_permit_deadline r z = record r { permit_deadline = some z }

abbrev pub new_contract_call : Str → Str → ContractCall → ContractCallRequest
new_contract_call a b c = record {
  from_address = a;
  chain = b;
  receive_address = none;
  contract_call = c;
  reference_id = none;
  memo = none;
}

abbrev pub contract_call_with_receive_address : ContractCallRequest → Str → ContractCallRequest
contract_call_with_receive_address r x = record r { receive_address = some x }

abbrev pub contract_call_with_reference_id : ContractCallRequest → Str → ContractCallRequest
contract_call_with_reference_id r x = record r { reference_id = some x }

abbrev pub contract_call_with_memo : ContractCallRequest → Str → ContractCallRequest
contract_call_with_memo r x = record r { memo = some x }

-- `CreateTransactionRequest::transfer` and its kin
abbrev pub transfer_request : TransferRequest → CreateTransactionRequest
transfer_request r = transfer r

abbrev pub program_call_request : ProgramCallRequest → CreateTransactionRequest
program_call_request r = program_call r

abbrev pub contract_call_request : ContractCallRequest → CreateTransactionRequest
contract_call_request r = contract_call r

-- `CreateTransactionRequest::from`
abbrev pub from_transfer : TransferRequest → CreateTransactionRequest
from_transfer r = transfer r

abbrev pub from_program_call : ProgramCallRequest → CreateTransactionRequest
from_program_call r = program_call r

abbrev pub from_contract_call : ContractCallRequest → CreateTransactionRequest
from_contract_call r = contract_call r
