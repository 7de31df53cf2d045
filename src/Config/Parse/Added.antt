-- ===== src/Config/Parse/Added.antt =====
-- What each setting of a file adds to the access rules, for `parse_config` of src/config.rs.
use tinyproxy_rust.Prelude.{
  Bool, true, false, ◌≡◌, refl, ap, sym, ◌∙◌, Option, none, some, List, [], ◌∷◌, ◌++◌, is_empty,
  ◌||◌, append-nil, append_assoc, true, false, if◌then◌else◌,
}
use tinyproxy_rust.Prelude.Results.{Result, ok, err, ok_or, ok-inj, >>=-eq-ok, ◌>>=◌}
use tinyproxy_rust.Std.Text.{Str, codes, trim, is_whitespace, starts_with, split_once}
use tinyproxy_rust.Std.Text.Case.{Unicode, to_lowercase}
use tinyproxy_rust.Std.HashMap.{get}
use tinyproxy_rust.Std.Number.{u16_max, u64_max}
use tinyproxy_rust.Std.Net.{parse_ip}
use tinyproxy_rust.Config.{Config}
use tinyproxy_rust.Config.Parse.{
  Key, keys, key_port, key_bind, key_listen, key_bindsame, key_user, key_group, key_pidfile,
  key_timeout, key_maxclients, key_maxrequestsperchild, key_logfile, key_syslog, key_loglevel,
  key_allow, key_deny, key_basicauth, key_upstream, key_reverseonly, key_filter, key_filterurls,
  key_filterextended, key_filtercasesensitive, key_anonymous, key_viaproxyname, key_xtinyproxy,
  key_connectport, key_disableviaheader, key_stathost, key_statfile, key_errorfile,
  key_defaulterrorfile, number, parse_bool, apply, apply_known, apply_parts, parse_line,
  parse_lines,
}

pub data Side : Type 0 where
  allowing denying : Side

-- Whether a key gives its value to a side.
abbrev pub is_of : Side → Key → Bool
is_of allowing key_allow = true
is_of denying key_deny = true
is_of _ _ = false

-- What a setting gives to a side.
abbrev pub picks : Side → Key → Str → List Str
picks side key value = if is_of side key then value ∷ [] else []

abbrev pub gives : Side → Option (Key × Str) → List Str
gives side none = []
gives side (some (key, value)) = picks side key value

unchanged : (xs ys : List Str) → ys ≡ xs → ys ≡ xs ++ []
unchanged xs ys e = e ∙ sym (append-nil xs)

abbrev Same : Config → Config → Type 0
Same c d = (d.allow ≡ c.allow ++ []) × (d.deny ≡ c.deny ++ [])

keep_other :
    (c d s : Config)
    → s.allow ≡ c.allow
    → s.deny ≡ c.deny
    → ◌≡◌ {A = Result Str Config} (ok s) (ok d)
    → Same c d
keep_other c d s a b e =
    let same = sym (ok-inj e) in
    (
      unchanged c.allow d.allow (ap (λ k. k.allow) same ∙ a),
      unchanged c.deny d.deny (ap (λ k. k.deny) same ∙ b),
    )

set_other :
    {A : Type 0} (c d : Config) (r : Result Str A) (set : A → Config)
    → ((a : A) → (set a).allow ≡ c.allow)
    → ((a : A) → (set a).deny ≡ c.deny)
    → (r >>= λ a. ok (set a)) ≡ ok d
    → Same c d
set_other c d (ok a) set f g e = keep_other c d (set a) (f a) (g a) e
set_other c d (err x) set f g e = cc

module _ ⦃u : Unicode⦄ where
  abbrev Adds : Key → Str → Config → Config → Type 0
  Adds key value c d =
      (d.allow ≡ c.allow ++ picks allowing key value) × (d.deny ≡ c.deny ++ picks denying key value)

  apply-Adds :
      (key : Key) (value : Str) (c d : Config) → apply key value c ≡ ok d → Adds key value c d
  unfolding apply
  apply-Adds key_port value c d e =
      set_other c d (number u16_max (codes "Invalid port value: ") value)
        (λ n. record c { port = n }) (λ _. refl) (λ _. refl) e
  apply-Adds key_bind value c d e =
      set_other c d (ok_or (parse_ip value) (codes "Invalid bind address: " ++ value))
        (λ addr. record c { bind_address = addr }) (λ _. refl) (λ _. refl) e
  apply-Adds key_listen value c d e =
      set_other c d (ok_or (parse_ip value) (codes "Invalid listen address: " ++ value))
        (λ addr. record c { listen_addresses = c.listen_addresses ++ addr ∷ [] }) (λ _. refl)
        (λ _. refl) e
  apply-Adds key_bindsame value c d e =
      set_other c d (parse_bool value) (λ flag. record c { bind_same = flag }) (λ _. refl)
        (λ _. refl) e
  apply-Adds key_user value c d e = keep_other c d _ refl refl e
  apply-Adds key_group value c d e = keep_other c d _ refl refl e
  apply-Adds key_pidfile value c d e = keep_other c d _ refl refl e
  apply-Adds key_timeout value c d e =
      set_other c d (number u64_max (codes "Invalid timeout value: ") value)
        (λ n. record c { timeout = n }) (λ _. refl) (λ _. refl) e
  apply-Adds key_maxclients value c d e =
      set_other c d (number u64_max (codes "Invalid max clients value: ") value)
        (λ n. record c { max_clients = n }) (λ _. refl) (λ _. refl) e
  apply-Adds key_maxrequestsperchild value c d e =
      set_other c d (number u64_max (codes "Invalid max requests per child value: ") value)
        (λ n. record c { max_requests_per_child = n }) (λ _. refl) (λ _. refl) e
  apply-Adds key_logfile value c d e = keep_other c d _ refl refl e
  apply-Adds key_syslog value c d e =
      set_other c d (parse_bool value) (λ flag. record c { syslog = flag }) (λ _. refl) (λ _. refl)
        e
  apply-Adds key_loglevel value c d e = keep_other c d _ refl refl e
  apply-Adds key_allow value c d e =
      let same = ok-inj e in
      (ap (λ k. k.allow) (sym same), unchanged c.deny d.deny (ap (λ k. k.deny) (sym same)))
  apply-Adds key_deny value c d e =
      let same = ok-inj e in
      (unchanged c.allow d.allow (ap (λ k. k.allow) (sym same)), ap (λ k. k.deny) (sym same))
  apply-Adds key_basicauth value c d e = keep_other c d _ refl refl e
  apply-Adds key_upstream value c d e = keep_other c d _ refl refl e
  apply-Adds key_reverseonly value c d e =
      set_other c d (parse_bool value) (λ flag. record c { transparent_proxy = flag }) (λ _. refl)
        (λ _. refl) e
  apply-Adds key_filter value c d e = keep_other c d _ refl refl e
  apply-Adds key_filterurls value c d e =
      set_other c d (parse_bool value) (λ flag. record c { filter_urls = flag }) (λ _. refl)
        (λ _. refl) e
  apply-Adds key_filterextended value c d e =
      set_other c d (parse_bool value) (λ flag. record c { filter_extended = flag }) (λ _. refl)
        (λ _. refl) e
  apply-Adds key_filtercasesensitive value c d e =
      set_other c d (parse_bool value) (λ flag. record c { filter_casesensitive = flag })
        (λ _. refl) (λ _. refl) e
  apply-Adds key_anonymous value c d e = keep_other c d _ refl refl e
  apply-Adds key_viaproxyname value c d e = keep_other c d _ refl refl e
  apply-Adds key_xtinyproxy value c d e =
      set_other c d (parse_bool value) (λ flag. record c { x_tinyproxy = flag }) (λ _. refl)
        (λ _. refl) e
  apply-Adds key_connectport value c d e =
      set_other c d (number u16_max (codes "Invalid connect port value: ") value)
        (λ port. record c { connect_ports = c.connect_ports ++ port ∷ [] }) (λ _. refl) (λ _. refl)
        e
  apply-Adds key_disableviaheader value c d e =
      set_other c d (parse_bool value) (λ flag. record c { disable_via_header = flag }) (λ _. refl)
        (λ _. refl) e
  apply-Adds key_stathost value c d e = keep_other c d _ refl refl e
  apply-Adds key_statfile value c d e = keep_other c d _ refl refl e
  apply-Adds key_errorfile value c d e = keep_other c d _ refl refl e
  apply-Adds key_defaulterrorfile value c d e = keep_other c d _ refl refl e

  -- The key and the value of the two parts of a line.
  abbrev pub known : Option (Str × Str) → Option (Key × Str)
  known none = none
  known (some (key, value)) = elim (get (to_lowercase key) keys) [
    | none ↦ none
    | some k ↦ some (k, trim value)
  ]

  -- The setting that a line makes: none if it is empty, a comment, one word, or of an unknown key.
  abbrev pub setting : Str → Option (Key × Str)
  setting line =
      if is_empty (trim line) || starts_with (codes "#") (trim line)
      then none
      else known (split_once is_whitespace (trim line))

  -- What the lines give to a side, in their order.
  abbrev pub given : Side → List Str → List Str
  given side [] = []
  given side (line ∷ rest) = gives side (setting line) ++ given side rest

  abbrev Gives : Option (Key × Str) → Config → Config → Type 0
  Gives o c d = (d.allow ≡ c.allow ++ gives allowing o) × (d.deny ≡ c.deny ++ gives denying o)

  apply_parts-Gives :
      (o : Option (Str × Str)) (c d : Config) → apply_parts o c ≡ ok d → Gives (known o) c d
  unfolding apply_parts apply_known
  apply_parts-Gives none c d = λ e. keep_other c d c refl refl e
  apply_parts-Gives (some (key, value)) c d =
      elim (get (to_lowercase key) keys)
        as (λ o.
          apply_known o (trim value) c ≡ ok d
          → Gives (elim o [ none ↦ none | some k ↦ some (k, trim value) ]) c d) [
            | none ↦ λ e. keep_other c d c refl refl e
            | some k ↦ λ e. apply-Adds k (trim value) c d e
          ]

  parse_line-Gives :
      (line : Str) (c d : Config) → parse_line line c ≡ ok d → Gives (setting line) c d
  unfolding parse_line
  parse_line-Gives line c d =
      let parts = split_once is_whitespace (trim line) in
      elim (is_empty (trim line) || starts_with (codes "#") (trim line))
        as (λ b.
          (if b then ok c else apply_parts parts c) ≡ ok d
          → Gives (if b then none else known parts) c d) [
            | true ↦ λ e. keep_other c d c refl refl e
            | false ↦ λ e. apply_parts-Gives parts c d e
          ]

  pub parse_lines-given :
      (ls : List Str) (c d : Config)
      → parse_lines ls c ≡ ok d
      → (d.allow ≡ c.allow ++ given allowing ls) × (d.deny ≡ c.deny ++ given denying ls)
  unfolding parse_lines
  parse_lines-given [] c d e = keep_other c d c refl refl e
  parse_lines-given (line ∷ rest) c d e =
      let (c', first, later) = >>=-eq-ok (parse_line line c) (parse_lines rest) e in
      let (allow, deny) = parse_line-Gives line c c' first in
      let (allows, denies) = parse_lines-given rest c' d later in
      (
        allows
            ∙ (ap (λ l. l ++ given allowing rest) allow
                ∙ append_assoc c.allow (gives allowing (setting line)) (given allowing rest)),
        denies
            ∙ (ap (λ l. l ++ given denying rest) deny
                ∙ append_assoc c.deny (gives denying (setting line)) (given denying rest)),
      )
