-- ===== src/Server/Run/Tests.antt =====
-- Tests and examples for `run` of src/server.rs.
use tinyproxy_rust.Prelude.{◌≡◌, ◌≢◌, ◌↔◌, refl, false, none, some, List, [], ◌∷◌, length, arith}
use tinyproxy_rust.Prelude.Results.{ok, err}
use tinyproxy_rust.Std.Text.{codes}
use tinyproxy_rust.Std.Net.{v4, SocketAddr}
use tinyproxy_rust.Config.{Config, default, get_listen_addresses}
use tinyproxy_rust.Server
use tinyproxy_rust.Server.{Server, with_permits, abort_waiting}
use tinyproxy_rust.Server.Run.{
  Binds, start, Life, serving_with, started, serving, stopping, requesting, receiving,
  aborting_waiting, Lives, born, later,
}
use tinyproxy_rust.Server.Run.Laws.{interfaces, AtPort, AllFree, start_iff}
use tinyproxy_rust.Server.Run.Shutdown.{IsSound, Lives-IsSound}
use tinyproxy_rust.Server.Run.Stopping.{IsStopped, serving_stops}

-- A second listener at one address is refused.
abbrev once : Binds
once [] addr = none
once (b ∷ bound) addr = some (codes "Address already in use")

-- Any address can be bound.
abbrev free : Binds
free bound addr = none

abbrev all_addresses : List SocketAddr
all_addresses = record { ip = v4 0; port = 8888 } ∷ []

abbrev two : Config
two = record default { port = 80; listen_addresses = v4 1 ∷ v4 2 ∷ [] }

abbrev two_addresses : List SocketAddr
two_addresses = record { ip = v4 1; port = 80 } ∷ record { ip = v4 2; port = 80 } ∷ []

start_iff_example : (start free two ≡ ok two_addresses) ↔ (
    AtPort 80 (interfaces (v4 0) (v4 1 ∷ v4 2 ∷ [])) two_addresses
    × AllFree free [] two_addresses
    × (two_addresses ≢ []))
start_iff_example = start_iff free two two_addresses

start_two : start free two ≡ ok two_addresses
unfolding start get_listen_addresses
start_two = refl

start_twice :
    start once (record default { listen_addresses = v4 1 ∷ v4 1 ∷ [] })
    ≡ err (codes "Address already in use")
unfolding start get_listen_addresses
start_twice = refl

abbrev first : Life
first = serving_with (with_permits 100 1 0)

begun : started default all_addresses 0 ≡ some first
unfolding started Server.new
begun = refl

first_serving : first.phase ≡ serving
first_serving = refl

abbrev last : Life
last = record first {
  server = abort_waiting first.server;
  phase = stopping;
  queued = false;
  requests = 1;
}

short_life : Lives first last
unfolding abort_waiting
short_life =
    later (later (later born (requesting refl)) (receiving refl refl))
      (aborting_waiting refl (omega arith))

Lives-IsSound_example : IsSound default (length all_addresses) last
Lives-IsSound_example = Lives-IsSound default all_addresses 0 first last begun short_life

serving_stops_example : (k : Life) × Lives first k × IsStopped first.server.running k
serving_stops_example = serving_stops first first_serving
