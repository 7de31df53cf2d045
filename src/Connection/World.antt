-- ===== src/Connection/World.antt =====
-- The outside of a connection handler, and actions on it that may fail.
pub mod Effects
pub mod Conduct
use tinyproxy_rust.Prelude.{ℕ, ◌+◌, ◌%◌, ◌^◌, Option, none, some, List, [], ◌∷◌, ◌++◌, take}
use tinyproxy_rust.Prelude.Results.{Result, ok, err}
use tinyproxy_rust.Std.Text.{Str, codes}
use tinyproxy_rust.Std.Utf8.{Bytes}
use tinyproxy_rust.Error.{ProxyError, io, timeout, upstream, ProxyResult}
use tinyproxy_rust.Stats.{Stats}
use tinyproxy_rust.Connection.Reading.{Arrival}
use tinyproxy_rust.Tunnel.{
  Write, wrote, failed_after, Event, Outcome, finished, failed, waiting, copy_bidirectional,
}

-- The outcome of `timeout(30 s, TcpStream::connect(addr))`.
pub data Attempt : Type 0 where
  connected : Attempt
  refused : Str → Attempt
  timed_out : Attempt

-- What the handler did to the outside.
pub data Effect : Type 0 where
  to_client : Bytes → Effect
  connect_to : Str → Effect
  to_upstream : Bytes → Effect
  tunnelled : Bytes → Bytes → Effect

-- `reads` are the reads of the client's socket in order, each with the time that it takes, and none left
-- is silence; `writes` are the
-- outcomes of the writes to the client, and none left is success. `now` is the time of a page.
pub record World : Type 0 where
  pub reads : List Arrival
  pub writes : List Write
  pub attempt : Str → Attempt
  pub upstream_write : Write
  pub events : List Event
  pub stats : Stats
  pub now : ℕ
  pub trace : List Effect

-- `pending` is a call that waits for ever.
pub data Status {ℓ} (A : Type ℓ) : Type ℓ where
  returned : A → Status A
  raised : ProxyError → Status A
  pending : Status A

abbrev pub Exec {ℓ} : Type ℓ → Type ℓ
Exec A = World → Status A × World

module _ {ℓ} {A : Type ℓ} where
  abbrev pub pure : A → Exec A
  pure a w = (returned a, w)

  abbrev pub raise : ProxyError → Exec A
  raise e w = (raised e, w)

  abbrev pub of_result : ProxyResult A → Status A
  of_result (ok a) = returned a
  of_result (err e) = raised e

  abbrev pub lift : ProxyResult A → Exec A
  lift r w = (of_result r, w)

abbrev pub continue {ℓ κ} : {A : Type ℓ} {B : Type κ} → Status A → (A → Exec B) → Exec B
continue (returned a) f w = f a w
continue (raised e) f w = (raised e, w)
continue pending f w = (pending, w)

infixl 5 ◌>>=◌ ◌>>◌
unfoldable pub ◌>>=◌ {ℓ κ} : {A : Type ℓ} {B : Type κ} → Exec A → (A → Exec B) → Exec B
◌>>=◌ m f w = let (r, w') = m w in continue r f w'

abbrev pub ◌>>◌ {ℓ} : {B : Type ℓ} → Exec (Unit {0}) → Exec B → Exec B
m >> n = m >>= λ _. n

abbrev pub emit : Effect → World → World
emit e w = record w { trace = w.trace ++ e ∷ [] }

write_as : List Write → Bytes → Exec (Unit {0})
write_as [] bytes w = (returned tt, emit (to_client bytes) w)
write_as (wrote ∷ later) bytes w =
    (returned tt, emit (to_client bytes) (record w { writes = later }))
write_as (failed_after n e ∷ later) bytes w =
    (raised (io e), emit (to_client (take n bytes)) (record w { writes = later }))

-- `self.stream.write_all(…)`.
pub write_client : Bytes → Exec (Unit {0})
unfolding write_as
write_client bytes w = write_as w.writes bytes w

attempted : Str → Attempt → Exec (Unit {0})
attempted addr connected w = (returned tt, w)
attempted addr (refused e) w =
    (raised (upstream (codes "Failed to connect to " ++ (addr ++ (codes ": " ++ e)))), w)
attempted addr timed_out w = (raised timeout, w)

pub connect : Str → Exec (Unit {0})
unfolding attempted
connect addr w = attempted addr (w.attempt addr) (emit (connect_to addr) w)

upstream_as : Write → Bytes → Exec (Unit {0})
upstream_as wrote bytes w = (returned tt, emit (to_upstream bytes) w)
upstream_as (failed_after n e) bytes w = (raised (io e), emit (to_upstream (take n bytes)) w)

pub write_upstream : Bytes → Exec (Unit {0})
unfolding upstream_as
write_upstream bytes w = upstream_as w.upstream_write bytes w

status_of : Outcome → Status ℕ
status_of (finished n) = returned n
status_of (failed e) = raised e
status_of waiting = pending

-- `copy_bidirectional` between the client and the server: the first writer is the server's.
pub run_tunnel : Exec ℕ
unfolding status_of
run_tunnel w =
    let (outcome, relay) = copy_bidirectional w.events in
    (status_of outcome, emit (tunnelled relay.out1 relay.out2) w)

-- The updates of the shared counters, on 64 bits.
unfoldable pub count_request : Exec (Unit {0})
count_request w =
    let s = w.stats in
    (
      returned tt,
      record w { stats = record s { requests_processed = (s.requests_processed + 1) % 2 ^ 64 } },
    )

pub count_transferred : ℕ → Exec (Unit {0})
count_transferred n w =
    let s = w.stats in
    (
      returned tt,
      record w { stats = record s { bytes_transferred = (s.bytes_transferred + n) % 2 ^ 64 } },
    )

pub current_stats : Exec Stats
current_stats w = (returned w.stats, w)

pub current_time : Exec ℕ
current_time w = (returned w.now, w)
