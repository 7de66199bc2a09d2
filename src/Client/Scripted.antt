-- ===== src/Client/Scripted.antt =====
-- A client of the scripted gateway, for the runs of the tests.
use paratro_sdk_rust.Base.Str.{codes}
use paratro_sdk_rust.Config.{Config, default_timeout}
use paratro_sdk_rust.Session.Scripted.{scripted}
use paratro_sdk_rust.Client.{MpcClient}

abbrev pub client : MpcClient scripted
client = record {
  config = record { base_url = codes "https://g.io"; timeout = default_timeout };
  token_manager = record {
    api_key = codes "k";
    api_secret = codes "s";
    base_url = codes "https://g.io";
    http_client = tt;
  };
  http_client = tt;
}

-- The configuration that it is built with
abbrev pub given : Config
given = record { base_url = codes "https://g.io/"; timeout = default_timeout }
