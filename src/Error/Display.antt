-- ===== src/Error/Display.antt =====
-- The text of an error (src/error.rs): the derived `Display` of the error type. The texts of the
-- errors of the crates reqwest and serde_json are arguments.
use paratro_sdk_rust.Base.{◌++◌}
use paratro_sdk_rust.Base.Decimal.{nat_to_string}
use paratro_sdk_rust.Base.Str.{Str, codes}
use paratro_sdk_rust.Error.{Error, api, http, decode, invalid_config, display_body}

module _ {H J : Type 0} (show_http : H → Str) (show_json : J → Str) where
  unfoldable pub display : Error H J → Str
  display (api status body) =
      codes "API error: "
      ++ (display_body body ++ (codes " (http_status: " ++ (nat_to_string status ++ codes ")")))
  display (http e) = codes "HTTP error: " ++ show_http e
  display (decode status source) =
      codes "Decode error (http_status: "
      ++ (nat_to_string status ++ (codes "): " ++ show_json source))
  display (invalid_config message) = codes "Invalid config: " ++ message
