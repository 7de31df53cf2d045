-- ===== src/Server.antt =====
-- src/server.rs: the accept loops and the tasks of the connections, as interleaved steps. A step is
-- what runs between two points at which the tasks of the server meet: an accept loop has taken a
-- connection and tried for a permit; it has updated the counters and started the task; a task whose
-- handler has returned updates the counters; it drops its permit.
pub mod Invariant
pub mod Draining
pub mod Run
mod Tests
use mathlib.Core.Option
use tinyproxy_rust.Prelude.{ℕ, ◌+◌, ◌-◌, ◌%◌, ◌^◌, ◌<◌, Option, none, some, leb, ltb, if◌then◌else◌}
use tinyproxy_rust.Config.{Config}
use tinyproxy_rust.Stats
use tinyproxy_rust.Stats.{Stats}

-- `permits` is what is left of the semaphore; `waiting` are accept loops that wait for a connection,
-- `accepted` those that hold a permit and have not counted it; `running` are the connections whose
-- handler runs; `finishing` are those that are counted as closed and still hold the permit.
pub record Server : Type 0 where
  pub stats : Stats
  pub permits : ℕ
  pub waiting : ℕ
  pub accepted : ℕ
  pub running : ℕ
  pub finishing : ℕ

-- `Semaphore::new` of tokio: above `Semaphore::MAX_PERMITS`, which is `usize::MAX >> 3`, it panics.
abbrev pub max_permits : ℕ
max_permits = 2 ^ 61 - 1

unfoldable pub semaphore : ℕ → Option ℕ
semaphore permits = if leb permits max_permits then some permits else none

abbrev pub with_permits : ℕ → ℕ → ℕ → Server
with_permits permits loops now = record {
  stats = Stats.new now;
  permits = permits;
  waiting = loops;
  accepted = 0;
  running = 0;
  finishing = 0;
}

-- The server with its accept loops, of which there is one for each listener; none if the semaphore
-- panics.
unfoldable pub new : Config → ℕ → ℕ → Option Server
unfolding semaphore
new config loops now =
    Option.map (λ permits. with_permits permits loops now) (semaphore config.max_clients)

-- An accept loop has taken a connection: with no permit left the connection is dropped.
unfoldable pub accept : Server → Server
accept s =
    if ltb 0 s.permits
    then record s { permits = s.permits - 1; waiting = s.waiting - 1; accepted = s.accepted + 1 }
    else s

-- The counters of a connection that is opened, on 64 bits, and its task.
unfoldable pub open_connection : Server → Server
open_connection s =
    let st = s.stats in
    record s {
      stats = record st {
        connections_opened = (st.connections_opened + 1) % 2 ^ 64;
        active_connections = (st.active_connections + 1) % 2 ^ 64;
      };
      waiting = s.waiting + 1;
      accepted = s.accepted - 1;
      running = s.running + 1;
    }

-- A handler returned, with a result or an error, after the time `elapsed`.
unfoldable pub close_connection : ℕ → Server → Server
close_connection elapsed s =
    let st = s.stats in
    record s {
      stats = record st {
        active_connections = (st.active_connections + 2 ^ 64 - 1) % 2 ^ 64;
        connections_closed = (st.connections_closed + 1) % 2 ^ 64;
        total_connection_time = st.total_connection_time + elapsed;
      };
      running = s.running - 1;
      finishing = s.finishing + 1;
    }

-- `drop(permit)`.
unfoldable pub release : Server → Server
release s = record s { permits = s.permits + 1; finishing = s.finishing - 1 }

-- `abort` on the task of an accept loop takes effect where the loop waits: for a connection, or for
-- the counters with a permit in its hand, which is given back.
unfoldable pub abort_waiting : Server → Server
abort_waiting s = record s { waiting = s.waiting - 1 }

unfoldable pub abort_accepted : Server → Server
abort_accepted s = record s { permits = s.permits + 1; accepted = s.accepted - 1 }

-- A running handler counts requests and bytes.
abbrev pub count : ℕ → ℕ → Server → Server
count requests bytes s =
    let st = s.stats in
    record s { stats = record st { requests_processed = requests; bytes_transferred = bytes } }

-- The steps, each where a task stands that can take it.
pub data Step (s : Server) : Server → Type 0 where
  accepting : 0 < s.waiting → Step s (accept s)
  opening : 0 < s.accepted → Step s (open_connection s)
  counting : 0 < s.running → (requests bytes : ℕ) → Step s (count requests bytes s)
  closing : 0 < s.running → (elapsed : ℕ) → Step s (close_connection elapsed s)
  releasing : 0 < s.finishing → Step s (release s)

pub data Steps (s : Server) : Server → Type 0 where
  none_yet : Steps s s
  and_then : {t u : Server} → Steps s t → Step t u → Steps s u
