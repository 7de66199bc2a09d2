-- ===== src/Client/New.antt =====
-- Which clients can be built (src/client.rs).
use paratro_sdk_rust.Base.{◌≡◌, ◌≢◌, ◌↔◌, [], ◌∷◌, ok, arith}
use paratro_sdk_rust.Base.Str.{Str}
use paratro_sdk_rust.Config.{Config, normalize_base_url}
use paratro_sdk_rust.Session.{Env}
use paratro_sdk_rust.Token.{manager}
use paratro_sdk_rust.Client.{MpcClient, new}

module _ (E : Env) where
  -- A client exists exactly for a key and a secret that are not empty, a base URL that is accepted, and
  -- an HTTP client that can be built with the timeout; it keeps the accepted URL, the timeout and the
  -- credentials, and its two parts share them.
  pub new_iff :
      (key secret : Str) (config : Config) (client : MpcClient E)
      → (new E key secret config ≡ ok client) ↔ (
          key ≢ []
          × secret ≢ []
          × normalize_base_url {H = E.HttpError} {J = E.JsonError} config.base_url
            ≡ ok client.config.base_url
          × client.config.timeout ≡ config.timeout
          × E.build config.timeout ≡ ok client.http_client
          × client.token_manager ≡ record {
            api_key = key;
            api_secret = secret;
            base_url = client.config.base_url;
            http_client = client.http_client;
          })
  unfolding new manager
  new_iff [] secret config client = ground arith
  new_iff (c ∷ key) [] config client = ground arith
  new_iff (c ∷ key) (d ∷ secret) config client = ground arith
