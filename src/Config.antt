-- ===== src/Config.antt =====
-- The configuration and the check of the base URL (src/config.rs).
pub mod Normalize
mod Tests
mod UnitTests
use paratro_sdk_rust.Base.{
  ℕ, Bool, true, false, not, ◌&&◌, Option, none, some, List, [], ◌∷◌, Result, ok, err, any,
  is_empty, if◌then◌else◌,
}
use paratro_sdk_rust.Base.Str.{
  Str, codes, strip_prefix, trim_end_matches, split_first, is_whitespace,
}
use paratro_sdk_rust.Base.Time.{Duration, from_secs}
use paratro_sdk_rust.Error.{Error, invalid_config}

abbrev pub default_timeout : Duration
default_timeout = from_secs 200

abbrev pub base_url_error : Str
base_url_error =
    codes
      "base URL must be an absolute http(s) URL, e.g. https://<gateway-host> (Paratro cloud or your private gateway)"

pub record Config : Type 0 where
  pub base_url : Str
  pub timeout : Duration

-- `Config::new`
unfoldable pub new : Str → Config
new base_url = record { base_url = base_url; timeout = default_timeout }

unfoldable pub with_timeout : Config → Duration → Config
with_timeout config timeout = record config { timeout = timeout }

abbrev pub https : Str
https = codes "https://"

abbrev pub http : Str
http = codes "http://"

-- What follows the scheme: `strip_prefix("https://").or_else(strip_prefix("http://"))`
unfoldable pub after_scheme : Str → Option Str
after_scheme url = elim (strip_prefix https url) [
  | some rest ↦ some rest
  | none ↦ strip_prefix http url
]

-- The closure of `.filter`
unfoldable pub is_host : Str → Bool
is_host host = not (is_empty host) && not (any is_whitespace host)

-- `host` of the source is some
unfoldable pub has_host : Str → Bool
has_host url = elim (after_scheme url) [
  | none ↦ false
  | some rest ↦ is_host (split_first b'/' rest)
]

module _ {H J : Type 0} where
  unfoldable pub normalize_base_url : Str → Result Str (Error H J)
  normalize_base_url base_url =
      let url = trim_end_matches b'/' base_url in
      if has_host url then ok url else err (invalid_config base_url_error)
