-- ===== src/Webhook/Event/UnitTests.antt =====
-- The unit tests of the events of src/webhook.rs, run on the model: each is the conjunction of its
-- assertions.
use paratro_sdk_rust.Base.{
  ◌≡◌, refl, true, false, Option, some, none, List, [], ◌∷◌, length, all, any,
}
use paratro_sdk_rust.Base.Int.{pos}
use mathlib.Core.Option
use paratro_sdk_rust.Base.Str.{Str, codes, ◌=ₛ◌}
use paratro_sdk_rust.Base.Str.Lists.{sort, dedup}
use paratro_sdk_rust.Json.{
  Value, boolean, str, int, float, obj, field, end, find, missing, value, ◌>>=◌,
}
use paratro_sdk_rust.Webhook.Event.{
  SwapIncoming, WebhookEvent, event_types, event_x402_settlement_confirmed,
  event_transaction_confirmed, event_transaction_failed, operation_x402, swap_accounting_applied,
  swap_accounting_review_required, swap_accounting_not_applicable,
}
use paratro_sdk_rust.Webhook.Event.Wire.{event, event_fields}

abbrev expected_types : List Str
expected_types =
    codes "transaction.confirming"
    ∷ codes "transaction.confirmed"
    ∷ codes "transaction.failed"
    ∷ codes "transfer.credited"
    ∷ codes "x402.settlement.confirmed"
    ∷ []

abbrev x402_document : Value
x402_document = obj (
    field (codes "event_id") (str (codes "evt_x402_1")) (
      field (codes "event_type") (str (codes "x402.settlement.confirmed")) (
        field (codes "event_time") (str (codes "2026-09-15T08:00:00Z")) (
          field (codes "source_id") (str (codes "tx-1")) (
            field (codes "wallet_id") (str (codes "w-1")) (
              field (codes "account_id") (str (codes "a-1")) (
                field (codes "status") (str (codes "CONFIRMED")) (
                  field (codes "transaction_type") (str (codes "INBOUND")) (
                    field (codes "chain") (str (codes "base")) (
                      field (codes "network") (str (codes "mainnet")) (
                        field (codes "txhash") (str (codes "0xabc")) (
                          field (codes "block_number") (int (pos 100)) (
                            field (codes "from") (str (codes "0xpayer")) (
                              field (codes "to") (str (codes "0xseller")) (
                                field (codes "symbol") (str (codes "USDC")) (
                                  field (codes "contract_address") (str (codes "0xusdc")) (
                                    field (codes "amount") (str (codes "1000000")) (
                                      field (codes "decimals") (int (pos 6)) (
                                        field (codes "confirmations") (int (pos 0)) (
                                          field (codes "required_confirmations") (int (pos 0)) (
                                            field (codes "created_at")
                                              (str (codes "2026-09-15T07:59:00Z"))
                                              (field (codes "confirmed_at")
                                                (str (codes "2026-09-15T08:00:00Z"))
                                                (field (codes "risk_checked") (boolean false) (
                                                  field (codes "risk_score") (float 0) (
                                                    field (codes "risk_level")
                                                      (str (codes "UNSCANNED"))
                                                      (field (codes "data") (str (codes "")) (
                                                        field (codes "operation")
                                                          (str (codes "X402"))
                                                          (end))))))))))))))))))))))))))))

abbrev pub swap_event_body : Str → Str → Str → Value → Value
swap_event_body event_type state operation swap_incoming = obj (
    field (codes "event_id") (str (codes "evt_swap_1")) (
      field (codes "event_type") (str event_type) (
        field (codes "event_time") (str (codes "2026-09-16T09:12:40Z")) (
          field (codes "source_id") (str (codes "tx-swap")) (
            field (codes "wallet_id") (str (codes "w-1")) (
              field (codes "account_id") (str (codes "a-1")) (
                field (codes "status") (str state) (
                  field (codes "transaction_type") (str (codes "OUTBOUND")) (
                    field (codes "operation") (str operation) (
                      field (codes "chain") (str (codes "ethereum")) (
                        field (codes "network") (str (codes "testnet")) (
                          field (codes "txhash") (str (codes "0xswap")) (
                            field (codes "block_number") (int (pos 10671204)) (
                              field (codes "from") (str (codes "0xpayer")) (
                                field (codes "to") (str (codes "0xcounterparty")) (
                                  field (codes "symbol") (str (codes "USDC")) (
                                    field (codes "contract_address") (str (codes "0xusdc")) (
                                      field (codes "amount") (str (codes "10000000")) (
                                        field (codes "decimals") (int (pos 6)) (
                                          field (codes "confirmations") (int (pos 0)) (
                                            field (codes "required_confirmations") (int (pos 6)) (
                                              field (codes "created_at")
                                                (str (codes "2026-09-16T09:11:58Z"))
                                                (field (codes "confirmed_at")
                                                  (str (codes "2026-09-16T09:12:40Z"))
                                                  (field (codes "risk_checked") (boolean false) (
                                                    field (codes "risk_score") (float 0) (
                                                      field (codes "risk_level")
                                                        (str (codes "UNSCANNED"))
                                                        (field (codes "data") (str (codes "")) (
                                                          field (codes "swap_incoming")
                                                            (swap_incoming)
                                                            (end)))))))))))))))))))))))))))))

-- `event.swap_incoming.unwrap()`
abbrev leg_of : Value → Option SwapIncoming
leg_of v = event v >>= λ e. e.swap_incoming

abbrev booked_document : Value
booked_document =
    swap_event_body event_transaction_confirmed (codes "CONFIRMED") (codes "CONTRACT_CALL") (
      obj (
        field (codes "token_address") (str (codes "0xa55a927f2211fe52188526ed7e779b7298646e75")) (
          field (codes "symbol") (str (codes "AAPLx")) (
            field (codes "amount") (str (codes "42000000000000000")) (
              field (codes "decimals") (int (pos 18)) (
                field (codes "booked") (boolean true)
                  (field (codes "accounting_status") (str (codes "APPLIED")) (end))))))))

abbrev review_document : Value
review_document =
    swap_event_body event_transaction_confirmed (codes "CONFIRMED") (codes "PROGRAM_CALL") (
      obj (
        field (codes "token_address") (str (codes "Es9vMFrzaCERmJfrF4H2FYD4KCoNkY11McCe8BenwNYB")) (
          field (codes "symbol") (str (codes "")) (
            field (codes "amount") (str (codes "1500")) (
              field (codes "decimals") (int (pos 0)) (
                field (codes "booked") (boolean false) (
                  field (codes "accounting_status") (str (codes "REVIEW_REQUIRED")) (
                    field (codes "reason") (str (codes "currency_code_not_found_or_inactive")) (
                      field (codes "audit_type") (str (codes "SWAP_INCOMING_ASSET_UNREGISTERED"))
                        (end))))))))))

abbrev failed_document : Value
failed_document =
    swap_event_body event_transaction_failed (codes "FAILED") (codes "CONTRACT_CALL") (
      obj (
        field (codes "token_address") (str (codes "0xa55a927f2211fe52188526ed7e779b7298646e75")) (
          field (codes "symbol") (str (codes "AAPLx")) (
            field (codes "amount") (str (codes "0")) (
              field (codes "decimals") (int (pos 18)) (
                field (codes "booked") (boolean false) (
                  field (codes "accounting_status") (str (codes "NOT_APPLICABLE"))
                    (field (codes "reason") (str (codes "onchain_execution_failed")) (end)))))))))

abbrev legacy_document : Value
legacy_document = obj (
    field (codes "event_id") (str (codes "evt_legacy")) (
      field (codes "event_type") (str (codes "transaction.confirmed")) (
        field (codes "event_time") (str (codes "2026-09-15T08:00:00Z")) (
          field (codes "source_id") (str (codes "tx-1")) (
            field (codes "wallet_id") (str (codes "w-1")) (
              field (codes "account_id") (str (codes "a-1")) (
                field (codes "status") (str (codes "CONFIRMED")) (
                  field (codes "transaction_type") (str (codes "OUTBOUND")) (
                    field (codes "chain") (str (codes "base")) (
                      field (codes "network") (str (codes "mainnet")) (
                        field (codes "txhash") (str (codes "0xabc")) (
                          field (codes "block_number") (int (pos 100)) (
                            field (codes "from") (str (codes "0xa")) (
                              field (codes "to") (str (codes "0xb")) (
                                field (codes "symbol") (str (codes "USDC")) (
                                  field (codes "contract_address") (str (codes "0xusdc")) (
                                    field (codes "amount") (str (codes "1000000")) (
                                      field (codes "decimals") (int (pos 6)) (
                                        field (codes "confirmations") (int (pos 0)) (
                                          field (codes "required_confirmations") (int (pos 12)) (
                                            field (codes "created_at")
                                              (str (codes "2026-09-15T07:59:00Z"))
                                              (field (codes "confirmed_at")
                                                (str (codes "2026-09-15T08:00:00Z"))
                                                (field (codes "risk_checked") (boolean false) (
                                                  field (codes "risk_score") (float 0) (
                                                    field (codes "risk_level")
                                                      (str (codes "UNSCANNED"))
                                                      (field (codes "data") (str (codes ""))
                                                        (end)))))))))))))))))))))))))))

abbrev pub EventTypesAreCompleteAndDistinct : Type 0
EventTypesAreCompleteAndDistinct =
    (length event_types ≡ 5)
    × (length (dedup (sort event_types)) ≡ length event_types)
    × (all (λ t. any (λ u. u =ₛ t) event_types) expected_types ≡ true)

EventTypesAreCompleteAndDistinct_holds : EventTypesAreCompleteAndDistinct
unfolding find ◌=ₛ◌ sort dedup
EventTypesAreCompleteAndDistinct_holds = (refl, refl, refl)

abbrev pub ParseX402SettlementConfirmedEvent : Type 0
ParseX402SettlementConfirmedEvent =
    (Option.map (λ (r : WebhookEvent). r.event_type) (event x402_document)
      ≡ some (event_x402_settlement_confirmed))
    × (Option.map (λ (r : WebhookEvent). r.transaction_type) (event x402_document)
        ≡ some (codes "INBOUND"))
    × (Option.map (λ (r : WebhookEvent). r.status) (event x402_document) ≡ some (codes "CONFIRMED"))
    × (Option.map (λ (r : WebhookEvent). r.amount) (event x402_document) ≡ some (codes "1000000"))
    × (Option.map (λ (r : WebhookEvent). r.operation) (event x402_document) ≡ some (operation_x402))
    × (Option.map (λ (r : WebhookEvent). r.swap_incoming) (event x402_document) ≡ some (none))

ParseX402SettlementConfirmedEvent_holds : ParseX402SettlementConfirmedEvent
unfolding find ◌=ₛ◌ sort dedup paratro_sdk_rust.Webhook.Event.Wire.event_from
ParseX402SettlementConfirmedEvent_holds = (refl, refl, refl, refl, refl, refl)

abbrev pub ParseSwapConfirmedBookedLeg : Type 0
ParseSwapConfirmedBookedLeg =
    (Option.map (λ (r : WebhookEvent). r.operation) (event booked_document)
      ≡ some (codes "CONTRACT_CALL"))
    × (Option.map (λ (r : WebhookEvent). r.amount) (event booked_document)
        ≡ some (codes "10000000"))
    × (Option.map (λ (l : SwapIncoming). l.token_address) (leg_of booked_document)
        ≡ some (codes "0xa55a927f2211fe52188526ed7e779b7298646e75"))
    × (Option.map (λ (l : SwapIncoming). l.symbol) (leg_of booked_document) ≡ some (codes "AAPLx"))
    × (Option.map (λ (l : SwapIncoming). l.amount) (leg_of booked_document)
        ≡ some (codes "42000000000000000"))
    × (Option.map (λ (l : SwapIncoming). l.decimals) (leg_of booked_document) ≡ some (pos 18))
    × (Option.map (λ (l : SwapIncoming). l.booked) (leg_of booked_document) ≡ some (true))
    × (Option.map (λ (l : SwapIncoming). l.accounting_status) (leg_of booked_document)
        ≡ some (swap_accounting_applied))
    × (Option.map (λ (l : SwapIncoming). l.reason) (leg_of booked_document) ≡ some (none))
    × (Option.map (λ (l : SwapIncoming). l.audit_type) (leg_of booked_document) ≡ some (none))

ParseSwapConfirmedBookedLeg_holds : ParseSwapConfirmedBookedLeg
unfolding find ◌=ₛ◌ sort dedup paratro_sdk_rust.Webhook.Event.Wire.event_from
    paratro_sdk_rust.Webhook.Event.Wire.swap_incoming_from
ParseSwapConfirmedBookedLeg_holds = (refl, refl, refl, refl, refl, refl, refl, refl, refl, refl)

abbrev pub ParseSwapConfirmedNotBookedCarriesReasonAndAuditType : Type 0
ParseSwapConfirmedNotBookedCarriesReasonAndAuditType =
    (Option.map (λ (r : WebhookEvent). r.operation) (event review_document)
      ≡ some (codes "PROGRAM_CALL"))
    × (Option.map (λ (l : SwapIncoming). l.booked) (leg_of review_document) ≡ some (false))
    × (Option.map (λ (l : SwapIncoming). l.accounting_status) (leg_of review_document)
        ≡ some (swap_accounting_review_required))
    × (Option.map (λ (l : SwapIncoming). l.reason) (leg_of review_document)
        ≡ some (some (codes "currency_code_not_found_or_inactive")))
    × (Option.map (λ (l : SwapIncoming). l.audit_type) (leg_of review_document)
        ≡ some (some (codes "SWAP_INCOMING_ASSET_UNREGISTERED")))
    × (Option.map (λ (l : SwapIncoming). l.amount) (leg_of review_document) ≡ some (codes "1500"))
    × (Option.map (λ (l : SwapIncoming). l.symbol) (leg_of review_document) ≡ some ([]))
    × (Option.map (λ (l : SwapIncoming). l.decimals) (leg_of review_document) ≡ some (pos 0))

ParseSwapConfirmedNotBookedCarriesReasonAndAuditType_holds :
    ParseSwapConfirmedNotBookedCarriesReasonAndAuditType
unfolding find ◌=ₛ◌ sort dedup paratro_sdk_rust.Webhook.Event.Wire.event_from
    paratro_sdk_rust.Webhook.Event.Wire.swap_incoming_from
ParseSwapConfirmedNotBookedCarriesReasonAndAuditType_holds =
    (refl, refl, refl, refl, refl, refl, refl, refl)

abbrev pub ParseSwapFailedIsNotApplicable : Type 0
ParseSwapFailedIsNotApplicable =
    (Option.map (λ (r : WebhookEvent). r.event_type) (event failed_document)
      ≡ some (event_transaction_failed))
    × (Option.map (λ (l : SwapIncoming). l.booked) (leg_of failed_document) ≡ some (false))
    × (Option.map (λ (l : SwapIncoming). l.accounting_status) (leg_of failed_document)
        ≡ some (swap_accounting_not_applicable))
    × (Option.map (λ (l : SwapIncoming). l.reason) (leg_of failed_document)
        ≡ some (some (codes "onchain_execution_failed")))
    × (Option.map (λ (l : SwapIncoming). l.audit_type) (leg_of failed_document) ≡ some (none))
    × (Option.map (λ (l : SwapIncoming). l.amount) (leg_of failed_document) ≡ some (codes "0"))

ParseSwapFailedIsNotApplicable_holds : ParseSwapFailedIsNotApplicable
unfolding find ◌=ₛ◌ sort dedup paratro_sdk_rust.Webhook.Event.Wire.event_from
    paratro_sdk_rust.Webhook.Event.Wire.swap_incoming_from
ParseSwapFailedIsNotApplicable_holds = (refl, refl, refl, refl, refl, refl)

abbrev pub ParseLegacyEventWithoutOperationOrSwapIncoming : Type 0
ParseLegacyEventWithoutOperationOrSwapIncoming =
    (Option.map (λ (r : WebhookEvent). r.operation) (event legacy_document) ≡ some ([]))
    × (Option.map (λ (r : WebhookEvent). r.swap_incoming) (event legacy_document) ≡ some (none))
    × (Option.map (λ (r : WebhookEvent). find (codes "swap_incoming") (event_fields r))
          (event legacy_document)
        ≡ some missing)
    × (Option.map (λ (r : WebhookEvent). find (codes "operation") (event_fields r))
          (event legacy_document)
        ≡ some (value (str [])))

ParseLegacyEventWithoutOperationOrSwapIncoming_holds :
    ParseLegacyEventWithoutOperationOrSwapIncoming
unfolding find ◌=ₛ◌ sort dedup paratro_sdk_rust.Webhook.Event.Wire.event_from event_fields
ParseLegacyEventWithoutOperationOrSwapIncoming_holds = (refl, refl, refl, refl)
