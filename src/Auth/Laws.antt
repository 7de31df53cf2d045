-- ===== src/Auth/Laws.antt =====
-- Whom src/auth.rs lets in.
use tinyproxy_rust.Prelude.{
  ◌≡◌, ◌↔◌, refl, ap, subst, ◌∙◌, true, Option, none, some, ◌∷◌, ◌++◌, ==_iff, arith, ◌&&◌,
}
use tinyproxy_rust.Prelude.Results.{ok, ok_or, ok-inj, ok_or-eq-ok, >>=-eq-ok}
use tinyproxy_rust.Std.Text.{Str, codes, equal, strip_prefix}
use tinyproxy_rust.Std.Text.Laws.{
  IsFree, equal_iff, equal_refl, split_once-at, split_once-eq-some, strip_prefix_iff,
}
use tinyproxy_rust.Std.HashMap.{get}
use tinyproxy_rust.Std.Utf8.{Bytes, from_utf8}
use tinyproxy_rust.Config.{BasicAuthConfig}
use tinyproxy_rust.Error.{authentication_failed}
use tinyproxy_rust.External.{Crates}
use tinyproxy_rust.Http.{HttpRequest, is_colon}
use tinyproxy_rust.Auth.{
  Authenticator, read_credentials, check_header, authenticate_with, authenticate,
}

module _ ⦃x : Crates⦄ where
  -- The header holds, in base64, the user and the password with a colon between them.
  abbrev pub Carries : Str → Str → Str → Type 0
  Carries username password header =
      (encoded : Str) × (decoded : Bytes) × (header ≡ codes "Basic " ++ encoded)
      × (x.base64_decode encoded ≡ some decoded)
      × (from_utf8 decoded ≡ some (username ++ b':' ∷ password))

  read_credentials-Carries :
      (header username password : Str)
      → read_credentials header ≡ ok (username, password)
      → Carries username password header
  unfolding read_credentials
  read_credentials-Carries header username password e =
      let (encoded, e1, r1) =
        >>=-eq-ok (ok_or (strip_prefix (codes "Basic ") header) authentication_failed) _ e in
      let (decoded, e2, r2) =
        >>=-eq-ok (ok_or (x.base64_decode encoded) authentication_failed) _ r1 in
      let (credentials, e3, r3) =
        >>=-eq-ok (ok_or (from_utf8 decoded) authentication_failed) _ r2 in
      let (c, joined, is_sep, free) =
        split_once-eq-some is_colon credentials username password (ok_or-eq-ok _ _ r3) in
      let colon : c ≡ b':' = (==_iff c b':').0 is_sep in
      (
        encoded,
        decoded,
        (strip_prefix_iff (codes "Basic ") header encoded).0 (ok_or-eq-ok _ _ e1),
        ok_or-eq-ok _ _ e2,
        ok_or-eq-ok _ _ e3 ∙ ap some (joined ∙ ap (λ d. username ++ d ∷ password) colon),
      )

  Carries-read_credentials :
      (header username password : Str)
      → IsFree is_colon username
      → Carries username password header
      → read_credentials header ≡ ok (username, password)
  unfolding read_credentials
  Carries-read_credentials header username password free (encoded, decoded, e1, e2, e3) =
      let first = (strip_prefix_iff (codes "Basic ") header encoded).1 e1 in
      let last = split_once-at is_colon username b':' password free refl in
      rw (first, e2, e3, last) refl

  check_header_iff :
      (c : BasicAuthConfig) (header : Str)
      → IsFree is_colon c.username
      → (check_header c header ≡ ok true) ↔ Carries c.username c.password header
  unfolding check_header
  check_header_iff c header free = (
    (λ e.
        let (p, found, same) = >>=-eq-ok (read_credentials header) _ e in
        let test : (equal p.0 c.username && equal p.1 c.password) ≡ true = ok-inj same in
        let user : p.0 ≡ c.username = ground (arith, equal_iff p.0 c.username, test) in
        let word : p.1 ≡ c.password = ground (arith, equal_iff p.1 c.password, test) in
        subst (λ u. Carries u c.password header) user
          (subst (λ w. Carries p.0 w header) word (read_credentials-Carries header p.0 p.1 found))),
    (λ h.
        rw
          (
            Carries-read_credentials header c.username c.password free h,
            equal_refl c.username,
            equal_refl c.password,
          )
          refl),
  )

  authenticate_with_iff :
      (c : BasicAuthConfig) (request : HttpRequest) (o : Option Str)
      → get (codes "proxy-authorization") request.headers ≡ o
      → IsFree is_colon c.username
      → (authenticate_with (some c) request ≡ ok true)
        ↔ ((header : Str) × (o ≡ some header) × Carries c.username c.password header)
  unfolding authenticate_with
  authenticate_with_iff c request none found free =
      rw (found, authenticate_with) (λ e. cc, λ (header, e, carried). cc)
  authenticate_with_iff c request (some header) found free =
      rw (found, authenticate_with)
        (
          (λ e. (header, refl, (check_header_iff c header free).0 e)),
          (λ (other, e, carried).
              let same : other ≡ header = cc in
              (check_header_iff c header free).1
                (subst (Carries c.username c.password) same carried)),
        )

  -- With an account whose user name has no colon, a request is let in exactly when it has a
  -- Proxy-Authorization header that carries the user and the password of the account.
  pub authenticate_iff :
      (auth : Authenticator) (c : BasicAuthConfig) (request : HttpRequest)
      → auth.auth_config ≡ some c
      → IsFree is_colon c.username
      → (authenticate auth request ≡ ok true) ↔ (
          (header : Str) × (get (codes "proxy-authorization") request.headers ≡ some header)
          × Carries c.username c.password header)
  unfolding authenticate
  authenticate_iff auth c request e free = rw e (
      authenticate_with_iff c request (get (codes "proxy-authorization") request.headers) refl free)
