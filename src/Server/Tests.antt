-- ===== src/Server/Tests.antt =====
-- Tests and examples for src/server.rs.
use tinyproxy_rust.Prelude.{◌≤◌, ◌≡◌, ◌-◌, ◌^◌, none, some, refl, arith}
use tinyproxy_rust.Config.{Config, default}
use tinyproxy_rust.Server.{
  Server, with_permits, new, accept, open_connection, close_connection, accepting, opening, closing,
  Steps, none_yet, and_then,
}
use tinyproxy_rust.Server.Invariant.{IsConsistent, reachable-IsConsistent}
use tinyproxy_rust.Server.Draining.{reachable_idle}

-- One client at a time.
abbrev small : Config
small = record default { max_clients = 1 }

abbrev fresh : Server
fresh = with_permits 1 2 0

made : new small 2 0 ≡ some fresh
unfolding new
made = refl

-- tokio's semaphore does not hold as many permits.
too_many : new (record default { max_clients = 2 ^ 64 - 1 }) 2 0 ≡ none
unfolding new
too_many = refl

-- A first connection runs, a second one is dropped, and the first one ends.
abbrev opened : Server
opened = open_connection (accept fresh)

abbrev closed : Server
closed = close_connection 5 (accept opened)

opened_running : opened.running ≡ 1
unfolding accept open_connection
opened_running = refl

second_dropped : accept opened ≡ opened
unfolding accept open_connection
second_dropped = refl

run_small : Steps fresh closed
unfolding accept open_connection
run_small =
    and_then
      (and_then (and_then (and_then none_yet (accepting (omega arith))) (opening (omega arith)))
        (accepting (omega arith)))
      (closing (omega arith) 5)

reachable-IsConsistent_example :
    IsConsistent small closed × (closed.stats.active_connections ≤ small.max_clients)
reachable-IsConsistent_example = reachable-IsConsistent small 2 0 fresh closed made run_small

reachable_idle_example :
    (t : Server) × Steps closed t × (t.permits ≡ 1) × (t.stats.active_connections ≡ 0)
reachable_idle_example = reachable_idle small 2 0 fresh closed made run_small
