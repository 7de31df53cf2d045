-- ===== src/Config/Parse/Options.antt =====
-- Every option of the `match` in `parse_config` of src/config.rs keeps a configuration well formed.
use tinyproxy_rust.Prelude.{◌≤◌, ◌≡◌, ap, subst, [], ◌∷◌, ◌++◌, All-append}
use tinyproxy_rust.Prelude.Results.{ok, ok_or, ok-inj, ok_or-eq-ok}
use tinyproxy_rust.Std.Text.{Str, codes, is_whitespace, split, split_once}
use tinyproxy_rust.Std.Text.Case.{Unicode}
use tinyproxy_rust.Std.Number.{u16_max, u64_max}
use tinyproxy_rust.Std.Net.{parse_ip}
use tinyproxy_rust.Std.Net.Bounds.{IsAddr, parse_ip-IsAddr}
use tinyproxy_rust.Http.{is_colon}
use tinyproxy_rust.Config.{Config}
use tinyproxy_rust.Config.Parse.{
  Key, key_port, key_bind, key_listen, key_bindsame, key_user, key_group, key_pidfile, key_timeout,
  key_maxclients, key_maxrequestsperchild, key_logfile, key_syslog, key_loglevel, key_allow,
  key_deny, key_basicauth, key_upstream, key_reverseonly, key_filter, key_filterurls,
  key_filterextended, key_filtercasesensitive, key_anonymous, key_viaproxyname, key_xtinyproxy,
  key_connectport, key_disableviaheader, key_stathost, key_statfile, key_errorfile,
  key_defaulterrorfile, number, parse_upstream, parse_bool, apply,
}
use tinyproxy_rust.Config.Parse.WellFormed.{
  IsWellFormed, set_ok, number-le, upstream_of-le, add_upstream-All, add_error_file-All,
}

module _ ⦃u : Unicode⦄ where
  pub apply-IsWellFormed :
      (key : Key) (value : Str) (c d : Config)
      → IsWellFormed c
      → apply key value c ≡ ok d
      → IsWellFormed d
  unfolding apply parse_upstream
  apply-IsWellFormed key_port value c d v e =
      let (
        port, timeout, clients, requests, bind, listen, ports, ups, files, listed, reverse, added,
      ) =
        v in
      set_ok (number u16_max (codes "Invalid port value: ") value) (λ n. record c { port = n }) d
        (λ n found. (
          number-le u16_max (codes "Invalid port value: ") value n found,
          timeout,
          clients,
          requests,
          bind,
          listen,
          ports,
          ups,
          files,
          listed,
          reverse,
          added,
        ))
        e
  apply-IsWellFormed key_bind value c d v e =
      let (
        port, timeout, clients, requests, bind, listen, ports, ups, files, listed, reverse, added,
      ) =
        v in
      set_ok (ok_or (parse_ip value) (codes "Invalid bind address: " ++ value))
        (λ n. record c { bind_address = n }) d
        (λ n found. (
          port,
          timeout,
          clients,
          requests,
          parse_ip-IsAddr value n (ok_or-eq-ok (parse_ip value) _ found),
          listen,
          ports,
          ups,
          files,
          listed,
          reverse,
          added,
        ))
        e
  apply-IsWellFormed key_listen value c d v e =
      let (
        port, timeout, clients, requests, bind, listen, ports, ups, files, listed, reverse, added,
      ) =
        v in
      set_ok (ok_or (parse_ip value) (codes "Invalid listen address: " ++ value))
        (λ n. record c { listen_addresses = c.listen_addresses ++ n ∷ [] }) d
        (λ n found. (
          port,
          timeout,
          clients,
          requests,
          bind,
          All-append IsAddr c.listen_addresses (n ∷ []) listen
              (parse_ip-IsAddr value n (ok_or-eq-ok (parse_ip value) _ found), tt),
          ports,
          ups,
          files,
          listed,
          reverse,
          added,
        ))
        e
  apply-IsWellFormed key_bindsame value c d v e =
      set_ok (parse_bool value) (λ b. record c { bind_same = b }) d (λ b found. v) e
  apply-IsWellFormed key_user value c d v e = subst IsWellFormed (ok-inj e) v
  apply-IsWellFormed key_group value c d v e = subst IsWellFormed (ok-inj e) v
  apply-IsWellFormed key_pidfile value c d v e = subst IsWellFormed (ok-inj e) v
  apply-IsWellFormed key_timeout value c d v e =
      let (
        port, timeout, clients, requests, bind, listen, ports, ups, files, listed, reverse, added,
      ) =
        v in
      set_ok (number u64_max (codes "Invalid timeout value: ") value)
        (λ n. record c { timeout = n }) d
        (λ n found. (
          port,
          number-le u64_max (codes "Invalid timeout value: ") value n found,
          clients,
          requests,
          bind,
          listen,
          ports,
          ups,
          files,
          listed,
          reverse,
          added,
        ))
        e
  apply-IsWellFormed key_maxclients value c d v e =
      let (
        port, timeout, clients, requests, bind, listen, ports, ups, files, listed, reverse, added,
      ) =
        v in
      set_ok (number u64_max (codes "Invalid max clients value: ") value)
        (λ n. record c { max_clients = n }) d
        (λ n found. (
          port,
          timeout,
          number-le u64_max (codes "Invalid max clients value: ") value n found,
          requests,
          bind,
          listen,
          ports,
          ups,
          files,
          listed,
          reverse,
          added,
        ))
        e
  apply-IsWellFormed key_maxrequestsperchild value c d v e =
      let (
        port, timeout, clients, requests, bind, listen, ports, ups, files, listed, reverse, added,
      ) =
        v in
      set_ok (number u64_max (codes "Invalid max requests per child value: ") value)
        (λ n. record c { max_requests_per_child = n }) d
        (λ n found. (
          port,
          timeout,
          clients,
          number-le u64_max (codes "Invalid max requests per child value: ") value n found,
          bind,
          listen,
          ports,
          ups,
          files,
          listed,
          reverse,
          added,
        ))
        e
  apply-IsWellFormed key_logfile value c d v e = subst IsWellFormed (ok-inj e) v
  apply-IsWellFormed key_syslog value c d v e =
      set_ok (parse_bool value) (λ b. record c { syslog = b }) d (λ b found. v) e
  apply-IsWellFormed key_loglevel value c d v e = subst IsWellFormed (ok-inj e) v
  apply-IsWellFormed key_allow value c d v e = subst IsWellFormed (ok-inj e) v
  apply-IsWellFormed key_deny value c d v e = subst IsWellFormed (ok-inj e) v
  apply-IsWellFormed key_basicauth value c d v e = subst IsWellFormed (ok-inj e) v
  apply-IsWellFormed key_upstream value c d v e =
      let (
        port, timeout, clients, requests, bind, listen, ports, ups, files, listed, reverse, added,
      ) =
        v in
      subst IsWellFormed (ok-inj e) (
        port,
        timeout,
        clients,
        requests,
        bind,
        listen,
        ports,
        add_upstream-All (parse_upstream value) c.upstream
            (λ w h. upstream_of-le value (split is_colon value) w h) ups,
        files,
        listed,
        reverse,
        added,
      )
  apply-IsWellFormed key_reverseonly value c d v e =
      set_ok (parse_bool value) (λ b. record c { transparent_proxy = b }) d (λ b found. v) e
  apply-IsWellFormed key_filter value c d v e = subst IsWellFormed (ok-inj e) v
  apply-IsWellFormed key_filterurls value c d v e =
      set_ok (parse_bool value) (λ b. record c { filter_urls = b }) d (λ b found. v) e
  apply-IsWellFormed key_filterextended value c d v e =
      set_ok (parse_bool value) (λ b. record c { filter_extended = b }) d (λ b found. v) e
  apply-IsWellFormed key_filtercasesensitive value c d v e =
      set_ok (parse_bool value) (λ b. record c { filter_casesensitive = b }) d (λ b found. v) e
  apply-IsWellFormed key_anonymous value c d v e = subst IsWellFormed (ok-inj e) v
  apply-IsWellFormed key_viaproxyname value c d v e = subst IsWellFormed (ok-inj e) v
  apply-IsWellFormed key_xtinyproxy value c d v e =
      set_ok (parse_bool value) (λ b. record c { x_tinyproxy = b }) d (λ b found. v) e
  apply-IsWellFormed key_connectport value c d v e =
      let (
        port, timeout, clients, requests, bind, listen, ports, ups, files, listed, reverse, added,
      ) =
        v in
      set_ok (number u16_max (codes "Invalid connect port value: ") value)
        (λ n. record c { connect_ports = c.connect_ports ++ n ∷ [] }) d
        (λ n found. (
          port,
          timeout,
          clients,
          requests,
          bind,
          listen,
          All-append (λ p. p ≤ u16_max) c.connect_ports (n ∷ []) ports
              (number-le u16_max (codes "Invalid connect port value: ") value n found, tt),
          ups,
          files,
          (listed.0 ++ n ∷ [], ap (λ l. l ++ n ∷ []) listed.1),
          reverse,
          added,
        ))
        e
  apply-IsWellFormed key_disableviaheader value c d v e =
      set_ok (parse_bool value) (λ b. record c { disable_via_header = b }) d (λ b found. v) e
  apply-IsWellFormed key_stathost value c d v e = subst IsWellFormed (ok-inj e) v
  apply-IsWellFormed key_statfile value c d v e = subst IsWellFormed (ok-inj e) v
  apply-IsWellFormed key_errorfile value c d v e =
      let (
        port, timeout, clients, requests, bind, listen, ports, ups, files, listed, reverse, added,
      ) =
        v in
      subst IsWellFormed (ok-inj e) (
        port,
        timeout,
        clients,
        requests,
        bind,
        listen,
        ports,
        ups,
        add_error_file-All (split_once is_whitespace value) c.error_files files,
        listed,
        reverse,
        added,
      )
  apply-IsWellFormed key_defaulterrorfile value c d v e = subst IsWellFormed (ok-inj e) v
