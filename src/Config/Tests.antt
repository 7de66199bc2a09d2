-- ===== src/Config/Tests.antt =====
-- Base URLs that are accepted and refused (src/config.rs).
use paratro_sdk_rust.Base.{◌≡◌, refl, inl, inr, Result, ok, err, [], ◌∷◌, ◌++◌}
use paratro_sdk_rust.Base.Str.{Str, codes}
use paratro_sdk_rust.Base.Time.{from_secs}
use paratro_sdk_rust.Error.{Error, invalid_config}
use paratro_sdk_rust.Config.{Config, https, normalize_base_url, base_url_error, new, with_timeout}
use paratro_sdk_rust.Config.Normalize.{normalize_base_url_iff, normalize_base_url_idem}

abbrev normalize : Str → Result Str (Error (Unit {0}) (Unit {0}))
normalize = normalize_base_url

normalize_base_url_iff_example :
    normalize (codes "https://g.io/api//") ≡ ok (codes "https://g.io/api")
unfolding paratro_sdk_rust.Base.Str.is_whitespace
normalize_base_url_iff_example =
    (normalize_base_url_iff (codes "https://g.io/api//") (codes "https://g.io/api")).1 (
      codes "//",
      refl,
      (refl, (refl, tt)),
      refl,
      record {
        scheme = https;
        known = inl refl;
        host = codes "g.io";
        path = codes "/api";
        parts = refl;
        present = refl;
        no_slash = (refl, (refl, (refl, (refl, tt))));
        no_space = (refl, (refl, (refl, (refl, tt))));
        rooted = inr (codes "api", refl);
      },
    )

normalized_again : normalize (codes "http://g.io") ≡ ok (codes "http://g.io")
unfolding normalize_base_url paratro_sdk_rust.Config.has_host paratro_sdk_rust.Config.after_scheme
    paratro_sdk_rust.Base.Str.strip_prefix paratro_sdk_rust.Base.Str.trim_end_matches
    paratro_sdk_rust.Config.is_host paratro_sdk_rust.Base.Str.split_first
    paratro_sdk_rust.Base.Str.is_whitespace
normalized_again =
    normalize_base_url_idem {H = Unit {0}} {J = Unit {0}} (codes "http://g.io/")
      (codes "http://g.io") refl

refused : normalize (codes "ftp://g.io") ≡ err (invalid_config base_url_error)
unfolding normalize_base_url paratro_sdk_rust.Config.has_host paratro_sdk_rust.Config.after_scheme
    paratro_sdk_rust.Base.Str.strip_prefix paratro_sdk_rust.Base.Str.trim_end_matches
refused = refl

no_host : normalize (codes "https:///api") ≡ err (invalid_config base_url_error)
unfolding normalize_base_url paratro_sdk_rust.Config.has_host paratro_sdk_rust.Config.after_scheme
    paratro_sdk_rust.Base.Str.strip_prefix paratro_sdk_rust.Base.Str.trim_end_matches
    paratro_sdk_rust.Config.is_host paratro_sdk_rust.Base.Str.split_first
no_host = refl

timeout :
    with_timeout (new (codes "x")) (from_secs 30)
    ≡ record { base_url = codes "x"; timeout = from_secs 30 }
unfolding with_timeout new
timeout = refl
