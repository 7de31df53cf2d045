-- ===== src/Connection/Reading.antt =====
-- The read loop of `handle` in src/connection.rs.
pub mod Laws
use tinyproxy_rust.Prelude.{
  ℕ, ◌+◌, ◌*◌, leb, Bool, true, false, Option, none, some, List, [], ◌∷◌, ◌++◌, length, take, drop,
  ltb, ◌==◌, if◌then◌else◌,
}
use tinyproxy_rust.Std.Text.{codes}
use tinyproxy_rust.Std.Utf8.{Bytes}
use tinyproxy_rust.Error.{ProxyError, io, timeout, invalid_request}
use tinyproxy_rust.Http.{find_end_of_headers}
use tinyproxy_rust.Tunnel.{Read, got, broken}

-- How the loop ends: the client left before it sent anything, or a head with what follows it, or an
-- error.
pub data Reading : Type 0 where
  closed : Reading
  complete : Bytes → Bytes → Reading
  rejected : ProxyError → Reading

abbrev pub max_head : ℕ
max_head = 16384

-- The end of the stream.
at_eof : ℕ → Reading
at_eof total_read =
    if total_read == 0 then closed else rejected (invalid_request (codes "Incomplete request"))

-- A read of the client's socket, and after how many milliseconds from its call it is ready.
abbrev pub Arrival : Type 0
Arrival = ℕ × Read

-- `timeout(Duration::from_secs(limit), …)` of tokio: the result if it is ready when the time is over,
-- else an error.
pub in_time : ℕ → ℕ → Reading → Reading
in_time limit after result = if leb after (limit * 1000) then result else rejected timeout

-- A call of `read_buf` that finds no read left runs into the timeout.
read_loop : ℕ → ℕ → Bytes → List Arrival → Reading
unfolding at_eof in_time
read_loop limit total_read buffer [] = rejected timeout
read_loop limit total_read buffer ((after, broken e) ∷ reads) =
    in_time limit after (rejected (io e))
read_loop limit total_read buffer ((after, got []) ∷ reads) =
    in_time limit after (at_eof total_read)
read_loop limit total_read buffer ((after, got (b ∷ bs)) ∷ reads) =
    let buffer' = buffer ++ b ∷ bs in
    let more = read_loop limit (total_read + length (b ∷ bs)) buffer' reads in
    in_time limit after (elim (find_end_of_headers buffer') [
      | some end_of_headers ↦
          complete (take (end_of_headers + 4) buffer') (drop (end_of_headers + 4) buffer')
      | none ↦
          if ltb max_head (length buffer')
          then rejected (invalid_request (codes "Request headers too large"))
          else more
    ])

-- `limit` is the timeout of the configuration, in seconds.
unfoldable pub read_request : ℕ → List Arrival → Reading
unfolding read_loop
read_request limit reads = read_loop limit 0 [] reads
