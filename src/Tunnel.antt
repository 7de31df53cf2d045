-- ===== src/Tunnel.antt =====
-- `copy_bidirectional` of src/utils.rs: bytes are relayed in two directions until one side ends. The
-- schedule is a list of events, each what a finished read gave and how the write that follows went;
-- `select!` takes them in any order.
pub mod Laws
mod Tests
use tinyproxy_rust.Prelude.{
  ℕ, ◌+◌, ◌%◌, ◌^◌, List, [], ◌∷◌, ◌++◌, length, take, is_empty, Bool, true, false, if◌then◌else◌,
}
use tinyproxy_rust.Std.Text.{Str}
use tinyproxy_rust.Std.Utf8.{Bytes}
use tinyproxy_rust.Error.{ProxyError, io}

-- A read of no bytes is the end of the stream.
pub data Read : Type 0 where
  got : Bytes → Read
  broken : Str → Read

-- `write_all` and `flush`: all was written, or an error came after some bytes.
pub data Write : Type 0 where
  wrote : Write
  failed_after : ℕ → Str → Write

pub data Event : Type 0 where
  from1 from2 : Read → Write → Event

-- What the writers have received, and the count.
pub record Relay : Type 0 where
  pub out1 : Bytes
  pub out2 : Bytes
  pub total_bytes : ℕ

-- `waiting`: no event is left, and the loop would wait for one.
pub data Outcome : Type 0 where
  finished : ℕ → Outcome
  failed : ProxyError → Outcome
  waiting : Outcome

abbrev pub count_bytes : Relay → Bytes → Relay
count_bytes r bytes = record r { total_bytes = (r.total_bytes + length bytes) % 2 ^ 64 }

abbrev write1 : Relay → Bytes → Relay
write1 r bytes = record r { out1 = r.out1 ++ bytes }

abbrev write2 : Relay → Bytes → Relay
write2 r bytes = record r { out2 = r.out2 ++ bytes }

-- One turn of the loop: it goes on, or it ends with a result.
pub data Turn : Type 0 where
  again : Relay → Turn
  stop : Outcome → Relay → Turn

turn : Event → Relay → Turn
turn (from1 (got []) w) r = stop (finished r.total_bytes) r
turn (from1 (got (b ∷ bs)) wrote) r = again (count_bytes (write1 r (b ∷ bs)) (b ∷ bs))
turn (from1 (got (b ∷ bs)) (failed_after n e)) r = stop (failed (io e)) (write1 r (take n (b ∷ bs)))
turn (from1 (broken e) w) r = stop (finished r.total_bytes) r
turn (from2 (got []) w) r = stop (finished r.total_bytes) r
turn (from2 (got (b ∷ bs)) wrote) r = again (count_bytes (write2 r (b ∷ bs)) (b ∷ bs))
turn (from2 (got (b ∷ bs)) (failed_after n e)) r = stop (failed (io e)) (write2 r (take n (b ∷ bs)))
turn (from2 (broken e) w) r = stop (finished r.total_bytes) r

copy_loop : List Event → Relay → Outcome × Relay
copy_loop [] r = (waiting, r)
copy_loop (e ∷ es) r = elim (turn e r) [
  | again r' ↦ copy_loop es r'
  | stop outcome r' ↦ (outcome, r')
]

unfoldable pub copy_bidirectional : List Event → Outcome × Relay
unfolding copy_loop turn
copy_bidirectional es = copy_loop es (record { out1 = []; out2 = []; total_bytes = 0 })
