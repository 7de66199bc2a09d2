-- ===== src/Config/UnitTests.antt =====
-- The unit tests of src/config.rs, run on the model: each is the conjunction of its assertions.
use paratro_sdk_rust.Base.{Bool, ◌≡◌, refl, true, false, Result, ok, err, [], ◌∷◌, ◌++◌, ltb}
use paratro_sdk_rust.Base.Str.{Str, codes}
use paratro_sdk_rust.Base.Str.Lists.{contains}
use paratro_sdk_rust.Base.Time.{from_secs, as_secs}
use paratro_sdk_rust.Error.{Error, invalid_config}
use paratro_sdk_rust.Config
use paratro_sdk_rust.Config.{
  Config, normalize_base_url, base_url_error, default_timeout, with_timeout,
}

abbrev normalize : Str → Result Str (Error (Unit {0}) (Unit {0}))
normalize = normalize_base_url

abbrev is_err : Result Str (Error (Unit {0}) (Unit {0})) → Bool
is_err (ok url) = false
is_err (err e) = true

abbrev pub DefaultTimeoutSitsAboveTheGatewayWriteTimeout : Type 0
DefaultTimeoutSitsAboveTheGatewayWriteTimeout =
    (default_timeout ≡ from_secs 200)
    × (ltb (as_secs (from_secs 180)) (as_secs default_timeout) ≡ true)
    × ((Config.new (codes "http://127.0.0.1:1")).timeout ≡ default_timeout)

DefaultTimeoutSitsAboveTheGatewayWriteTimeout_holds : DefaultTimeoutSitsAboveTheGatewayWriteTimeout
unfolding Config.new with_timeout normalize_base_url contains
DefaultTimeoutSitsAboveTheGatewayWriteTimeout_holds = (refl, refl, refl)

abbrev pub NewStoresTheBaseUrlAsGiven : Type 0
NewStoresTheBaseUrlAsGiven =
    ((Config.new (codes "https://gateway.example/")).base_url ≡ codes "https://gateway.example/")
    × ((Config.new (codes "")).base_url ≡ codes "")

NewStoresTheBaseUrlAsGiven_holds : NewStoresTheBaseUrlAsGiven
unfolding Config.new with_timeout normalize_base_url contains
NewStoresTheBaseUrlAsGiven_holds = (refl, refl)

abbrev pub WithTimeoutOverridesTheDefault : Type 0
WithTimeoutOverridesTheDefault =
    ((with_timeout (Config.new (codes "https://gateway.example")) (from_secs 5)).timeout
      ≡ from_secs 5)
    × ((with_timeout (Config.new (codes "https://gateway.example")) (from_secs 5)).base_url
        ≡ codes "https://gateway.example")

WithTimeoutOverridesTheDefault_holds : WithTimeoutOverridesTheDefault
unfolding Config.new with_timeout normalize_base_url contains
WithTimeoutOverridesTheDefault_holds = (refl, refl)

abbrev pub NormalizeBaseUrlRequiresAHost : Type 0
NormalizeBaseUrlRequiresAHost =
    (is_err (normalize (codes "https://")) ≡ true)
    × (is_err (normalize (codes "https:///path")) ≡ true)
    × (is_err (normalize (codes "http://")) ≡ true)
    × (is_err (normalize (codes "https://gw example")) ≡ true)
    × (is_err (normalize (codes "HTTPS://gateway.example")) ≡ true)
    × (is_err (normalize (codes "gateway.example")) ≡ true)
    × (normalize (codes "https://mpcapi.example/api/") ≡ ok (codes "https://mpcapi.example/api"))

NormalizeBaseUrlRequiresAHost_holds : NormalizeBaseUrlRequiresAHost
unfolding Config.new with_timeout normalize_base_url contains Config.has_host Config.after_scheme
    paratro_sdk_rust.Base.Str.trim_end_matches Config.is_host paratro_sdk_rust.Base.Str.split_first
    paratro_sdk_rust.Base.Str.is_whitespace
NormalizeBaseUrlRequiresAHost_holds = (refl, refl, refl, refl, refl, refl, refl)

abbrev pub NormalizeBaseUrlAcceptsAbsoluteHttpUrlsAndStripsTrailingSlashes : Type 0
NormalizeBaseUrlAcceptsAbsoluteHttpUrlsAndStripsTrailingSlashes =
    (normalize (codes "https://gateway.example") ≡ ok (codes "https://gateway.example"))
    × (normalize (codes "https://gateway.example/") ≡ ok (codes "https://gateway.example"))
    × (normalize (codes "https://gateway.example///") ≡ ok (codes "https://gateway.example"))
    × (normalize (codes "http://127.0.0.1:8080/") ≡ ok (codes "http://127.0.0.1:8080"))

NormalizeBaseUrlAcceptsAbsoluteHttpUrlsAndStripsTrailingSlashes_holds :
    NormalizeBaseUrlAcceptsAbsoluteHttpUrlsAndStripsTrailingSlashes
unfolding Config.new with_timeout normalize_base_url contains Config.has_host Config.after_scheme
    paratro_sdk_rust.Base.Str.trim_end_matches Config.is_host paratro_sdk_rust.Base.Str.split_first
    paratro_sdk_rust.Base.Str.is_whitespace
NormalizeBaseUrlAcceptsAbsoluteHttpUrlsAndStripsTrailingSlashes_holds = (refl, refl, refl, refl)

abbrev pub BaseUrlErrorPointsAtThePlaceholderNotACloudHost : Type 0
BaseUrlErrorPointsAtThePlaceholderNotACloudHost =
    (contains (codes "absolute http(s) URL") base_url_error ≡ true)
    × (contains (codes "https://<gateway-host>") base_url_error ≡ true)
    × (contains (codes "private gateway") base_url_error ≡ true)
    × (contains (codes "paratro" ++ codes ".com") base_url_error ≡ false)

BaseUrlErrorPointsAtThePlaceholderNotACloudHost_holds :
    BaseUrlErrorPointsAtThePlaceholderNotACloudHost
unfolding Config.new with_timeout normalize_base_url contains
BaseUrlErrorPointsAtThePlaceholderNotACloudHost_holds = (refl, refl, refl, refl)

abbrev pub NormalizeBaseUrlRejectsAnythingElse : Type 0
NormalizeBaseUrlRejectsAnythingElse =
    (normalize (codes "") ≡ err (invalid_config base_url_error))
    × (normalize (codes "/") ≡ err (invalid_config base_url_error))
    × (normalize (codes "gateway.example") ≡ err (invalid_config base_url_error))
    × (normalize (codes "//gateway.example") ≡ err (invalid_config base_url_error))
    × (normalize (codes "ftp://gateway.example") ≡ err (invalid_config base_url_error))
    × (normalize (codes "https://") ≡ err (invalid_config base_url_error))
    × (normalize (codes "https:///") ≡ err (invalid_config base_url_error))
    × (normalize (codes "HTTPS://gateway.example") ≡ err (invalid_config base_url_error))
    × (normalize (codes " https://gateway.example") ≡ err (invalid_config base_url_error))

NormalizeBaseUrlRejectsAnythingElse_holds : NormalizeBaseUrlRejectsAnythingElse
unfolding Config.new with_timeout normalize_base_url contains Config.has_host Config.after_scheme
    paratro_sdk_rust.Base.Str.trim_end_matches
NormalizeBaseUrlRejectsAnythingElse_holds = (refl, refl, refl, refl, refl, refl, refl, refl, refl)
