-- ===== src/Server/Run/Laws.antt =====
-- The listeners with which `run` of src/server.rs serves.
use tinyproxy_rust.Prelude.{
  ℕ, map, is_empty, if◌then◌else◌, ◌≡◌, ◌≢◌, ◌↔◌, refl, ap, subst, sym, ◌∙◌, inl, inr, none,
  Option-cases, List, [], ◌∷◌, ◌++◌, append-nil, append_assoc, arith,
}
use tinyproxy_rust.Prelude.Results.{ok, ok-inj, >>=-eq-ok, ◌>>=◌}
use tinyproxy_rust.Std.Net.{IpAddr, SocketAddr}
use tinyproxy_rust.Config.{Config, socket_addr, get_listen_addresses}
use tinyproxy_rust.Config.Addresses.{get_listen_addresses-ne_nil}
use tinyproxy_rust.Server.Run.{Binds, bind_all, listening, start}

-- Each address is free when its turn comes.
abbrev pub AllFree : Binds → List SocketAddr → List SocketAddr → Type 0
AllFree binds bound [] = Unit
AllFree binds bound (addr ∷ more) =
    (binds bound addr ≡ none) × AllFree binds (bound ++ addr ∷ []) more

bind_all-AllFree :
    (binds : Binds) (bound addrs listeners : List SocketAddr)
    → bind_all binds bound addrs ≡ ok listeners
    → AllFree binds bound addrs × (listeners ≡ bound ++ addrs)
unfolding bind_all
bind_all-AllFree binds bound [] listeners e = (tt, sym (ok-inj e) ∙ sym (append-nil bound))
bind_all-AllFree binds bound (addr ∷ more) listeners e = elim (Option-cases (binds bound addr)) [
  | inl free ↦
      let (all_free, eq) =
        bind_all-AllFree binds (bound ++ addr ∷ []) more listeners (ground (arith, free, e)) in
      ((free, all_free), eq ∙ append_assoc bound (addr ∷ []) more)
  | inr (x, taken) ↦ ground (arith, taken, e)
]

AllFree-bind_all :
    (binds : Binds) (bound addrs : List SocketAddr)
    → AllFree binds bound addrs
    → bind_all binds bound addrs ≡ ok (bound ++ addrs)
unfolding bind_all
AllFree-bind_all binds bound [] h = ap ok (sym (append-nil bound))
AllFree-bind_all binds bound (addr ∷ more) (free, h) =
    rw (free, bind_all)
      (AllFree-bind_all binds (bound ++ addr ∷ []) more h
        ∙ ap ok (append_assoc bound (addr ∷ []) more))

listening-ne_nil : (ls : List SocketAddr) → ls ≢ [] → listening ls ≡ ok ls
unfolding listening
listening-ne_nil [] ne = absurd (ne refl)
listening-ne_nil (l ∷ ls) ne = refl

start_addresses_iff :
    (binds : Binds) (config : Config) (listeners : List SocketAddr)
    → (start binds config ≡ ok listeners) ↔ (
        AllFree binds [] (get_listen_addresses config)
        × (listeners ≡ get_listen_addresses config)
        × (listeners ≢ []))
unfolding start
start_addresses_iff binds config listeners = (
  (λ e.
      let (ls, bound, checked) =
        >>=-eq-ok (bind_all binds [] (get_listen_addresses config)) listening e in
      let (free, all) = bind_all-AllFree binds [] (get_listen_addresses config) ls bound in
      let nonempty : ls ≢ [] = subst (λ l. l ≢ []) (sym all) (get_listen_addresses-ne_nil config) in
      let same : ls ≡ listeners = ok-inj (sym (listening-ne_nil ls nonempty) ∙ checked) in
      (free, sym same ∙ all, subst (λ l. l ≢ []) same nonempty)),
  (λ (free, eq, ne).
      ap (λ r. r >>= listening) (AllFree-bind_all binds [] (get_listen_addresses config) free)
      ∙ listening-ne_nil (get_listen_addresses config) (get_listen_addresses-ne_nil config)
      ∙ ap ok (sym eq)),
)

-- What is listened on: the addresses of the Listen lines, or without any the bind address.
abbrev pub interfaces : IpAddr → List IpAddr → List IpAddr
interfaces bind [] = bind ∷ []
interfaces bind (ip ∷ listen) = ip ∷ listen

-- Each of the addresses in its place, with the port.
abbrev pub AtPort : ℕ → List IpAddr → List SocketAddr → Type 0
AtPort port [] [] = Unit
AtPort port (ip ∷ ips) (addr ∷ addrs) = (addr.ip ≡ ip) × (addr.port ≡ port) × AtPort port ips addrs
AtPort port _ _ = ⊥

map-AtPort : (port : ℕ) (ips : List IpAddr) → AtPort port ips (map (socket_addr port) ips)
map-AtPort port [] = tt
map-AtPort port (ip ∷ ips) = (refl, refl, map-AtPort port ips)

listens-AtPort :
    (port : ℕ) (bind : IpAddr) (listen : List IpAddr)
    → AtPort port
        (interfaces bind listen)
        (if is_empty listen then socket_addr port bind ∷ [] else map (socket_addr port) listen)
listens-AtPort port bind [] = (refl, refl, tt)
listens-AtPort port bind (ip ∷ listen) = map-AtPort port (ip ∷ listen)

get_listen_addresses-AtPort :
    (c : Config)
    → AtPort c.port (interfaces c.bind_address c.listen_addresses) (get_listen_addresses c)
unfolding get_listen_addresses
get_listen_addresses-AtPort c = listens-AtPort c.port c.bind_address c.listen_addresses

AtPort-unique :
    (port : ℕ) (ips : List IpAddr) (xs ys : List SocketAddr)
    → AtPort port ips xs
    → AtPort port ips ys
    → xs ≡ ys
AtPort-unique port [] [] [] h k = refl
AtPort-unique port [] [] (y ∷ ys) h k = absurd k
AtPort-unique port [] (x ∷ xs) ys h k = absurd h
AtPort-unique port (ip ∷ ips) [] ys h k = absurd h
AtPort-unique port (ip ∷ ips) (x ∷ xs) [] h k = absurd k
AtPort-unique port (ip ∷ ips) (x ∷ xs) (y ∷ ys) (a, b, h) (c, d, k) =
    let same : x ≡ y =
      ap (λ i. record { ip = i; port = x.port }) (a ∙ sym c)
      ∙ ap (λ n. record { ip = y.ip; port = n }) (b ∙ sym d) in
    ap (λ z. z ∷ xs) same ∙ ap (◌∷◌ y) (AtPort-unique port ips xs ys h k)

-- `run` serves exactly when it has, at the configured port, a listener for each address of the Listen
-- lines in their order, or for the bind address if there is none, and each of them could be bound in
-- its turn; there is at least one, so the error that there is no listener is never given.
pub start_iff :
    (binds : Binds) (config : Config) (listeners : List SocketAddr)
    → (start binds config ≡ ok listeners) ↔ (
        AtPort config.port (interfaces config.bind_address config.listen_addresses) listeners
        × AllFree binds [] listeners
        × (listeners ≢ []))
start_iff binds config listeners =
    let addrs = get_listen_addresses config in
    let wanted = interfaces config.bind_address config.listen_addresses in
    let (to, from) = start_addresses_iff binds config listeners in
    (
      (λ e.
          let (free, same, ne) = to e in
          (
            subst (AtPort config.port wanted) (sym same) (get_listen_addresses-AtPort config),
            subst (AllFree binds []) (sym same) free,
            ne,
          )),
      (λ (at, free, ne).
          let same : listeners ≡ addrs =
            AtPort-unique config.port wanted listeners addrs at
              (get_listen_addresses-AtPort config) in
          from (subst (AllFree binds []) same free, same, ne)),
    )
