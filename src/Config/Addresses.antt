-- ===== src/Config/Addresses.antt =====
-- The addresses of src/config.rs that the server listens on.
use tinyproxy_rust.Prelude.{ℕ, ◌≢◌, List, [], ◌∷◌, map, is_empty, if◌then◌else◌}
use tinyproxy_rust.Std.Net.{IpAddr}
use tinyproxy_rust.Config.{Config, get_listen_addresses, socket_addr}

addresses-ne_nil :
    (port : ℕ) (bind : IpAddr) (listen : List IpAddr)
    → (if is_empty listen then socket_addr port bind ∷ [] else map (socket_addr port) listen) ≢ []
addresses-ne_nil port bind [] e = cc
addresses-ne_nil port bind (a ∷ listen) e = cc

-- There is always one.
pub get_listen_addresses-ne_nil : (c : Config) → get_listen_addresses c ≢ []
unfolding get_listen_addresses
get_listen_addresses-ne_nil c = addresses-ne_nil c.port c.bind_address c.listen_addresses
