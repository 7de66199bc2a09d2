-- ===== src/Transaction/Wire/RoundTrip.antt =====
-- Reading a written request (src/transaction.rs).
use paratro_sdk_rust.Base.{false, ◌≡◌, refl, ap, ◌∙◌, Option, none, some}
use paratro_sdk_rust.Base.Int.{ℤ, IsI64}
use paratro_sdk_rust.Base.Str.{Str, ◌=ₛ◌}
use paratro_sdk_rust.Json.{Value, field, find, has_key}
use paratro_sdk_rust.Transaction.{
  TransferRequest, ProgramCallRequest, ContractCallIncomingLeg, ContractCallOutgoingLeg,
  ContractCall, ContractCallRequest, CreateTransactionRequest, transfer, program_call,
  contract_call, operation,
}
use paratro_sdk_rust.Json.Laws.{in_i64_of, has_key_skip}
use paratro_sdk_rust.Transaction.Wire.{
  operation_key, lift, transfer_fields, transfer_from, program_call_fields, program_call_from,
  incoming_fields, incoming_from, outgoing_fields, outgoing_from, quote_fields, quote_from,
  contract_call_fields, contract_call_from, variant_fields, variant_from, request_fields,
  request_from, request,
}

abbrev pub IsI64Option : Option ℤ → Type 0
IsI64Option none = Unit
IsI64Option (some z) = IsI64 z

abbrev quote_of :
    Str → ℤ → ContractCallIncomingLeg → ContractCallOutgoingLeg → Str → Option ℤ → ContractCall
quote_of x z i o y d = record {
  quote_id = x;
  expiration = z;
  incoming = i;
  outgoing = o;
  counterparty_signature = y;
  permit_deadline = d;
}

abbrev contract_call_of :
    Str → Str → ContractCall → Option Str → Option Str → Option Str → ContractCallRequest
contract_call_of x0 x1 c o0 o1 o2 = record {
  from_address = x0;
  chain = x1;
  receive_address = o0;
  contract_call = c;
  reference_id = o1;
  memo = o2;
}

-- The integers of a request are `i64`s.
abbrev pub IsRepresentable : CreateTransactionRequest → Type 0
IsRepresentable (contract_call r) =
    IsI64 r.contract_call.expiration × IsI64Option r.contract_call.permit_deadline
IsRepresentable _ = Unit

abbrev transfer_of : Str → Str → Str → Str → Str → Option Str → Option Str → TransferRequest
transfer_of x0 x1 x2 x3 x4 o0 o1 = record {
  from_address = x0;
  to_address = x1;
  chain = x2;
  token_symbol = x3;
  amount = x4;
  memo = o0;
  reference_id = o1;
}

transfer_parts :
    (x0 x1 x2 x3 x4 : Str) (o0 o1 : Option Str)
    → transfer_from (transfer_fields (transfer_of x0 x1 x2 x3 x4 o0 o1))
      ≡ some (transfer_of x0 x1 x2 x3 x4 o0 o1)
unfolding transfer_from transfer_fields find ◌=ₛ◌
transfer_parts x0 x1 x2 x3 x4 none none = refl
transfer_parts x0 x1 x2 x3 x4 none (some o1) = refl
transfer_parts x0 x1 x2 x3 x4 (some o0) none = refl
transfer_parts x0 x1 x2 x3 x4 (some o0) (some o1) = refl

transfer_again : (r : TransferRequest) → transfer_from (transfer_fields r) ≡ some r
transfer_again r =
    transfer_parts r.from_address r.to_address r.chain r.token_symbol r.amount r.memo r.reference_id

abbrev program_call_of : Str → Str → Str → Option Str → Option Str → Option Str → ProgramCallRequest
program_call_of x0 x1 x2 o0 o1 o2 = record {
  from_address = x0;
  chain = x1;
  signed_transaction = x2;
  receive_address = o0;
  reference_id = o1;
  memo = o2;
}

program_call_parts :
    (x0 x1 x2 : Str) (o0 o1 o2 : Option Str)
    → program_call_from (program_call_fields (program_call_of x0 x1 x2 o0 o1 o2))
      ≡ some (program_call_of x0 x1 x2 o0 o1 o2)
unfolding program_call_from program_call_fields find ◌=ₛ◌
program_call_parts x0 x1 x2 none none none = refl
program_call_parts x0 x1 x2 none none (some o2) = refl
program_call_parts x0 x1 x2 none (some o1) none = refl
program_call_parts x0 x1 x2 none (some o1) (some o2) = refl
program_call_parts x0 x1 x2 (some o0) none none = refl
program_call_parts x0 x1 x2 (some o0) none (some o2) = refl
program_call_parts x0 x1 x2 (some o0) (some o1) none = refl
program_call_parts x0 x1 x2 (some o0) (some o1) (some o2) = refl

program_call_again : (r : ProgramCallRequest) → program_call_from (program_call_fields r) ≡ some r
program_call_again r =
    program_call_parts r.from_address r.chain r.signed_transaction r.receive_address r.reference_id
      r.memo

abbrev incoming_of : Str → Str → Str → ContractCallIncomingLeg
incoming_of x0 x1 x2 = record { to = x0; token = x1; amount = x2 }

incoming_parts :
    (x0 x1 x2 : Str)
    → incoming_from (incoming_fields (incoming_of x0 x1 x2)) ≡ some (incoming_of x0 x1 x2)
unfolding incoming_from incoming_fields find ◌=ₛ◌
incoming_parts x0 x1 x2 = refl

incoming_again : (r : ContractCallIncomingLeg) → incoming_from (incoming_fields r) ≡ some r
incoming_again r = incoming_parts r.to r.token r.amount

abbrev outgoing_of : Str → Str → Str → Str → ContractCallOutgoingLeg
outgoing_of x0 x1 x2 x3 = record { from = x0; to = x1; token = x2; amount = x3 }

outgoing_parts :
    (x0 x1 x2 x3 : Str)
    → outgoing_from (outgoing_fields (outgoing_of x0 x1 x2 x3)) ≡ some (outgoing_of x0 x1 x2 x3)
unfolding outgoing_from outgoing_fields find ◌=ₛ◌
outgoing_parts x0 x1 x2 x3 = refl

outgoing_again : (r : ContractCallOutgoingLeg) → outgoing_from (outgoing_fields r) ≡ some r
outgoing_again r = outgoing_parts r.from r.to r.token r.amount

quote_parts :
    (x y : Str) (z : ℤ) (i : ContractCallIncomingLeg) (o : ContractCallOutgoingLeg) (d : Option ℤ)
    → IsI64 z
    → IsI64Option d
    → quote_from (quote_fields (quote_of x z i o y d)) ≡ some (quote_of x z i o y d)
unfolding quote_from quote_fields find ◌=ₛ◌
quote_parts x y z i o none h k = rw (in_i64_of z h, incoming_again i, outgoing_again o)
quote_parts x y z i o (some d) h k =
    rw (in_i64_of z h, incoming_again i, outgoing_again o, in_i64_of d k)

quote_again :
    (q : ContractCall)
    → IsI64 q.expiration
    → IsI64Option q.permit_deadline
    → quote_from (quote_fields q) ≡ some q
quote_again q h k =
    quote_parts q.quote_id q.counterparty_signature q.expiration q.incoming q.outgoing
      q.permit_deadline h k

contract_call_parts :
    (x0 x1 : Str) (c : ContractCall) (o0 o1 o2 : Option Str)
    → quote_from (quote_fields c) ≡ some c
    → contract_call_from (contract_call_fields (contract_call_of x0 x1 c o0 o1 o2))
      ≡ some (contract_call_of x0 x1 c o0 o1 o2)
unfolding contract_call_from contract_call_fields find ◌=ₛ◌
contract_call_parts x0 x1 c none none none h = rw h
contract_call_parts x0 x1 c none none (some o2) h = rw h
contract_call_parts x0 x1 c none (some o1) none h = rw h
contract_call_parts x0 x1 c none (some o1) (some o2) h = rw h
contract_call_parts x0 x1 c (some o0) none none h = rw h
contract_call_parts x0 x1 c (some o0) none (some o2) h = rw h
contract_call_parts x0 x1 c (some o0) (some o1) none h = rw h
contract_call_parts x0 x1 c (some o0) (some o1) (some o2) h = rw h

contract_call_again :
    (r : ContractCallRequest)
    → IsI64 r.contract_call.expiration
    → IsI64Option r.contract_call.permit_deadline
    → contract_call_from (contract_call_fields r) ≡ some r
contract_call_again r h k =
    contract_call_parts r.from_address r.chain r.contract_call r.receive_address r.reference_id
      r.memo (quote_again r.contract_call h k)

-- No variant has a field of the tag's name, and none reads the tag.
no_tag : (r : CreateTransactionRequest) → has_key operation_key (variant_fields r) ≡ false
unfolding variant_fields has_key ◌=ₛ◌
no_tag (transfer r) = has_key_skip _ _ _ r.memo _ refl ∙ has_key_skip _ _ _ r.reference_id _ refl
no_tag (program_call r) =
    has_key_skip _ _ _ r.receive_address _ refl
    ∙ has_key_skip _ _ _ r.reference_id _ refl
    ∙ has_key_skip _ _ _ r.memo _ refl
no_tag (contract_call r) =
    has_key_skip _ _ _ r.receive_address _ refl
    ∙ has_key_skip _ _ _ r.reference_id _ refl
    ∙ has_key_skip _ _ _ r.memo _ refl

variant_again :
    (r : CreateTransactionRequest) (v : Value)
    → IsRepresentable r
    → variant_from (operation r) (field operation_key v (variant_fields r)) ≡ some r
unfolding variant_from operation variant_fields transfer_from program_call_from contract_call_from
    find ◌=ₛ◌
variant_again (transfer r) v h = ap (lift transfer) (transfer_again r)
variant_again (program_call r) v h = ap (lift program_call) (program_call_again r)
variant_again (contract_call r) v h = ap (lift contract_call) (contract_call_again r h.0 h.1)

-- Every request is written as an object that reads back as the same request, whichever optional
-- fields it has, if its integers are `i64`s.
pub request_round_trip :
    (r : CreateTransactionRequest)
    → IsRepresentable r
    → request.from_value (request.to_value r) ≡ some r
unfolding request_from request_fields find ◌=ₛ◌
request_round_trip r h = rw (no_tag r) (variant_again r _ h)
