-- ===== src/Webhook/Display.antt =====
-- The text of an error of the verification (src/webhook.rs).
use paratro_sdk_rust.Base.{◌++◌}
use paratro_sdk_rust.Base.Decimal.{nat_to_string}
use paratro_sdk_rust.Base.Str.{Str, codes}
use paratro_sdk_rust.Webhook.{
  WebhookError, invalid_timestamp, timestamp_expired, signature_mismatch,
}

unfoldable pub display : WebhookError → Str
display (invalid_timestamp timestamp) = codes "webhook: invalid timestamp: " ++ timestamp
display (timestamp_expired age_secs tolerance_secs) =
    codes "webhook: timestamp too old (age: "
    ++ (nat_to_string age_secs
        ++ (codes "s, tolerance: " ++ (nat_to_string tolerance_secs ++ codes "s)")))
display signature_mismatch = codes "webhook: signature mismatch"
