-- ===== src/Config/Normalize.antt =====
-- Which base URLs are accepted, and what becomes of them (src/config.rs).
use paratro_sdk_rust.Base.{
  ℕ, Bool, true, false, ◌≡◌, refl, sym, ap, subst, ◌∙◌, ◌↔◌, ◌⊎◌, inl, inr, some, [], ◌∷◌, ◌++◌,
  append-nil, arith, ◌==◌, ok, All, any, is_empty, Option-cases,
}
use paratro_sdk_rust.Base.Str.{
  Str, strip_prefix, trim_end_matches, trim_end_by, split_first, is_whitespace,
}
use paratro_sdk_rust.Base.Str.Laws.{
  LastFails, trim_end_by-LastFails, trim_end_by-append, trim_end_by_of_LastFails,
  strip_prefix-append, append_of_strip_prefix, split_first-append, split_first_of_none,
  trim_end_by_append, split_first-split,
}
use paratro_sdk_rust.Config.{https, http, after_scheme, is_host, has_host, normalize_base_url}

-- An absolute URL: a scheme, a host that is not empty and has no slash and no white space, and a
-- path that is empty or starts with a slash.
pub record IsAbsolute (url : Str) : Type 0 where
  pub scheme : Str
  pub known : (scheme ≡ https) ⊎ (scheme ≡ http)
  pub host : Str
  pub path : Str
  pub parts : url ≡ scheme ++ (host ++ path)
  pub present : is_empty host ≡ false
  pub no_slash : All (λ c. (c == b'/') ≡ false) host
  pub no_space : All (λ c. is_whitespace c ≡ false) host
  pub rooted : (path ≡ []) ⊎ ((p : Str) × (path ≡ b'/' ∷ p))

All-of_any : (s : Str) → any is_whitespace s ≡ false → All (λ c. is_whitespace c ≡ false) s
All-of_any [] h = tt
All-of_any (c ∷ s) h = (ground arith, All-of_any s (ground arith))

any_of_All : (s : Str) → All (λ c. is_whitespace c ≡ false) s → any is_whitespace s ≡ false
any_of_All [] h = refl
any_of_All (c ∷ s) h = rw (h.0, any_of_All s h.1)

after_scheme-known :
    (url rest : Str)
    → after_scheme url ≡ some rest
    → (scheme : Str) × ((scheme ≡ https) ⊎ (scheme ≡ http)) × (url ≡ scheme ++ rest)
unfolding after_scheme
after_scheme-known url rest h = elim (Option-cases (strip_prefix https url)) [
  | inr (r, e) ↦ (https, inl refl, append_of_strip_prefix https url (ground arith))
  | inl e ↦ (http, inr refl, append_of_strip_prefix http url (ground arith))
]

is_host-parts :
    (host : Str)
    → is_host host ≡ true
    → (is_empty host ≡ false) × All (λ c. is_whitespace c ≡ false) host
unfolding is_host
is_host-parts host h = (ground arith, All-of_any host (ground arith))

has_host-IsAbsolute : (url : Str) → has_host url ≡ true → IsAbsolute url
unfolding has_host
has_host-IsAbsolute url h = elim (Option-cases (after_scheme url)) [
  | inl e ↦ cc (rw (e, has_host) at h)
  | inr (rest, e) ↦
      let (scheme, known, parts) = after_scheme-known url rest e in
      let (path, split, no_slash, rooted) = split_first-split b'/' rest in
      let (present, no_space) = is_host-parts (split_first b'/' rest) (rw (e, has_host) at h) in
      record {
        scheme = scheme;
        known = known;
        host = split_first b'/' rest;
        path = path;
        parts = parts ∙ ap (λ r. scheme ++ r) split;
        present = present;
        no_slash = no_slash;
        no_space = no_space;
        rooted = rooted;
      }
]

after_scheme-https : (rest : Str) → after_scheme (https ++ rest) ≡ some rest
unfolding after_scheme
after_scheme-https rest = rw (strip_prefix-append https rest, after_scheme)

after_scheme-http : (rest : Str) → after_scheme (http ++ rest) ≡ some rest
unfolding after_scheme strip_prefix
after_scheme-http rest = refl

after_scheme_of :
    (scheme rest : Str)
    → (scheme ≡ https) ⊎ (scheme ≡ http)
    → after_scheme (scheme ++ rest) ≡ some rest
after_scheme_of scheme rest (inl e) = rw e (after_scheme-https rest)
after_scheme_of scheme rest (inr e) = rw e (after_scheme-http rest)

split_first_of_path :
    (host path : Str)
    → All (λ c. (c == b'/') ≡ false) host
    → (path ≡ []) ⊎ ((p : Str) × (path ≡ b'/' ∷ p))
    → split_first b'/' (host ++ path) ≡ host
split_first_of_path host path h (inl e) = rw (e, append-nil) (split_first_of_none b'/' host h)
split_first_of_path host path h (inr (p, e)) = rw e (split_first-append b'/' host p h)

has_host_of :
    (url rest : Str) → after_scheme url ≡ some rest → has_host url ≡ is_host (split_first b'/' rest)
unfolding has_host
has_host_of url rest e = rw (e, has_host)

is_host_of :
    (host : Str)
    → is_empty host ≡ false
    → All (λ c. is_whitespace c ≡ false) host
    → is_host host ≡ true
unfolding is_host
is_host_of host h k = rw (h, any_of_All host k)

IsAbsolute-has_host : (url : Str) → IsAbsolute url → has_host url ≡ true
IsAbsolute-has_host url a =
    has_host_of url (a.host ++ a.path)
      (ap after_scheme a.parts ∙ after_scheme_of a.scheme (a.host ++ a.path) a.known)
    ∙ ap is_host (split_first_of_path a.host a.path a.no_slash a.rooted)
    ∙ is_host_of a.host a.present a.no_space

module _ {H J : Type 0} where
  ok_inv :
      (given v : Str)
      → normalize_base_url {H = H} {J = J} given ≡ ok v
      → (has_host v ≡ true) × (trim_end_matches b'/' given ≡ v)
  unfolding normalize_base_url
  ok_inv given v h = (ground arith, ground arith)

  ok_of :
      (given v : Str)
      → has_host v ≡ true
      → trim_end_matches b'/' given ≡ v
      → normalize_base_url {H = H} {J = J} given ≡ ok v
  unfolding normalize_base_url
  ok_of given v h e = ground arith

abbrev is_slash : ℕ → Bool
is_slash c = c == b'/'

trimmed_iff :
    (given v : Str)
    → (trim_end_matches b'/' given ≡ v)
      ↔ ((r : Str) × (given ≡ v ++ r) × All (λ c. is_slash c ≡ true) r × LastFails is_slash v)
unfolding trim_end_matches
trimmed_iff given v = (to, from)
  where
    to :
        trim_end_by is_slash given ≡ v
        → (r : Str) × (given ≡ v ++ r) × All (λ c. is_slash c ≡ true) r × LastFails is_slash v
    to e =
        let (r, parts, slashes) = trim_end_by-append is_slash given in
        (
          r,
          parts ∙ ap (λ t. t ++ r) e,
          slashes,
          subst (LastFails is_slash) e (trim_end_by-LastFails is_slash given),
        )

    from :
        ((r : Str) × (given ≡ v ++ r) × All (λ c. is_slash c ≡ true) r × LastFails is_slash v)
        → trim_end_by is_slash given ≡ v
    from (r, parts, slashes, last) =
        ap (trim_end_by is_slash) parts
        ∙ trim_end_by_append is_slash v r slashes
        ∙ trim_end_by_of_LastFails is_slash v last

-- `normalize_base_url` succeeds with `v` exactly when the given URL is `v` followed by slashes
-- only, `v` does not end in a slash, and `v` is absolute: it has the scheme `https://` or
-- `http://`, then a host that is not empty and has no slash and no white space.
pub normalize_base_url_iff :
    {H J : Type 0} (given v : Str)
    → (normalize_base_url {H = H} {J = J} given ≡ ok v) ↔ (
        (r : Str) × (given ≡ v ++ r)
        × All (λ c. is_slash c ≡ true) r
        × LastFails is_slash v
        × IsAbsolute v)
normalize_base_url_iff given v = (
  (λ h.
      let (host, e) = ok_inv given v h in
      let (r, parts, slashes, last) = (trimmed_iff given v).0 e in
      (r, parts, slashes, last, has_host-IsAbsolute v host)),
  (λ (r, parts, slashes, last, a).
      ok_of given v (IsAbsolute-has_host v a) ((trimmed_iff given v).1 (r, parts, slashes, last))),
)

-- Normalizing a second time changes nothing.
pub normalize_base_url_idem :
    {H J : Type 0} (given v : Str)
    → normalize_base_url {H = H} {J = J} given ≡ ok v
    → normalize_base_url {H = H} {J = J} v ≡ ok v
normalize_base_url_idem given v h =
    let (r, parts, slashes, last, a) = (normalize_base_url_iff given v).0 h in
    (normalize_base_url_iff v v).1 ([], sym (append-nil v), tt, last, a)
