-- ===== src/Error/Checks.antt =====
-- The functions of src/error.rs that stand beside the methods and look at the status alone.
use paratro_sdk_rust.Base.{Bool, false, ◌||◌, ◌==◌}
use paratro_sdk_rust.Error.{Error, api}

module _ {H J : Type 0} where
  unfoldable pub is_not_found : Error H J → Bool
  is_not_found (api status body) = status == 404
  is_not_found _ = false

  unfoldable pub is_rate_limited : Error H J → Bool
  is_rate_limited (api status body) = status == 429
  is_rate_limited _ = false

  unfoldable pub is_auth_error : Error H J → Bool
  is_auth_error (api status body) = status == 401 || status == 403
  is_auth_error _ = false
