-- ===== src/Api/Confined.antt =====
-- Where the requests of a client go, and what they carry (src/client.rs, src/token.rs and the
-- endpoints).
use paratro_sdk_rust.Base.{ℕ, ◌≡◌, Option, none, List, ◌++◌, ◌⊎◌}
use paratro_sdk_rust.Base.Str.{Str, codes}
use paratro_sdk_rust.Config.{Config}
use paratro_sdk_rust.Query.Lookup.{lookup}
use paratro_sdk_rust.Session.{Env, Request, Session}
use paratro_sdk_rust.Token.{auth_request, header_api_key, header_api_secret}
use paratro_sdk_rust.Client.{MpcClient}
use paratro_sdk_rust.Api.Route.{Route, routed, path_of}

module _ {E : Env} (P : Str → Type 0) (client : MpcClient E) where
  -- The request of a route under a token of which P holds, and neither the key nor the secret in the
  -- headers that are theirs
  abbrev pub HasToken : Route → Request → Type 0
  HasToken p r =
      ((bytes : Option (List ℕ)) × (token : Str) × P token
        × (r ≡ routed client.config.base_url p bytes token))
      × (lookup header_api_key r.headers ≡ none)
      × (lookup header_api_secret r.headers ≡ none)

  abbrev pub IsConfined : Route → Request → Type 0
  IsConfined p r =
      ((r ≡ auth_request client.token_manager)
        × (r.url ≡ client.config.base_url ++ codes "/api/v1/auth/token"))
      ⊎ (HasToken p r × (r.url ≡ client.config.base_url ++ path_of p))
