-- ===== src/Client/UnitTests.antt =====
-- The unit tests of src/client.rs, run on the model: each is the conjunction of its assertions.
use paratro_sdk_rust.Base.{Bool, ◌≡◌, refl, true, false, Result, ok, err}
use paratro_sdk_rust.Base.Str.{Str, codes}
use paratro_sdk_rust.Error.{invalid_config}
use paratro_sdk_rust.Config
use paratro_sdk_rust.Config.{base_url_error}
use paratro_sdk_rust.Session.{Failure}
use paratro_sdk_rust.Session.Scripted.{scripted}
use paratro_sdk_rust.Client
use paratro_sdk_rust.Client.{MpcClient, config, url}

abbrev Built : Type 0
Built = Result (MpcClient scripted) (Failure scripted)

abbrev pub client_with : Str → Built
client_with base_url = Client.new scripted (codes "key") (codes "secret") (Config.new base_url)

-- `unwrap()`, then the base URL or a URL below it
abbrev base_url_of : Built → Result Str (Failure scripted)
base_url_of (ok client) = ok (config client).base_url
base_url_of (err e) = err e

abbrev url_of : Str → Built → Result Str (Failure scripted)
url_of path (ok client) = ok (url client path)
url_of path (err e) = err e

-- `matches!(r, Err(Error::InvalidConfig(_)))`
abbrev is_invalid_config : Built → Bool
is_invalid_config (err (invalid_config message)) = true
is_invalid_config _ = false

abbrev pub NewNormalizesTheBaseUrl : Type 0
NewNormalizesTheBaseUrl =
    (base_url_of (client_with (codes "https://gateway.example///"))
      ≡ ok (codes "https://gateway.example"))
    × (url_of (codes "/api/v1/wallets") (client_with (codes "https://gateway.example///"))
        ≡ ok (codes "https://gateway.example/api/v1/wallets"))
    × (base_url_of (client_with (codes "http://127.0.0.1:8080/"))
        ≡ ok (codes "http://127.0.0.1:8080"))

NewNormalizesTheBaseUrl_holds : NewNormalizesTheBaseUrl
unfolding Client.new Config.new url Config.normalize_base_url Config.has_host Config.after_scheme
    paratro_sdk_rust.Base.Str.strip_prefix paratro_sdk_rust.Base.Str.trim_end_matches Config.is_host
    paratro_sdk_rust.Base.Str.split_first paratro_sdk_rust.Base.Str.is_whitespace
    paratro_sdk_rust.Token.manager
NewNormalizesTheBaseUrl_holds = (refl, refl, refl)

abbrev pub NewRejectsABaseUrlThatIsNotAnAbsoluteHttpUrl : Type 0
NewRejectsABaseUrlThatIsNotAnAbsoluteHttpUrl =
    (client_with (codes "") ≡ err (invalid_config base_url_error))
    × (client_with (codes "gateway.example") ≡ err (invalid_config base_url_error))
    × (client_with (codes "ftp://gateway.example") ≡ err (invalid_config base_url_error))
    × (client_with (codes "https://") ≡ err (invalid_config base_url_error))

NewRejectsABaseUrlThatIsNotAnAbsoluteHttpUrl_holds : NewRejectsABaseUrlThatIsNotAnAbsoluteHttpUrl
unfolding Client.new Config.new url Config.normalize_base_url Config.has_host Config.after_scheme
    paratro_sdk_rust.Base.Str.strip_prefix paratro_sdk_rust.Base.Str.trim_end_matches
NewRejectsABaseUrlThatIsNotAnAbsoluteHttpUrl_holds = (refl, refl, refl, refl)

abbrev pub NewStillRequiresKeyAndSecret : Type 0
NewStillRequiresKeyAndSecret =
    (is_invalid_config (
        Client.new scripted (codes "") (codes "secret")
          (Config.new (codes "https://gateway.example")))
      ≡ true)
    × (is_invalid_config (
          Client.new scripted (codes "key") (codes "")
            (Config.new (codes "https://gateway.example")))
        ≡ true)

NewStillRequiresKeyAndSecret_holds : NewStillRequiresKeyAndSecret
unfolding Client.new Config.new url
NewStillRequiresKeyAndSecret_holds = (refl, refl)
