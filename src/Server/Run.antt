-- ===== src/Server/Run.antt =====
-- `run` and `shutdown` of src/server.rs: the listeners, and the life of a server that was started.
pub mod Laws
pub mod Shutdown
pub mod Stopping
mod Tests
use mathlib.Core.Option
use tinyproxy_rust.Prelude.{
  ℕ, suc, ◌≡◌, Bool, true, false, Option, none, some, List, [], ◌∷◌, ◌++◌, length, ◌<◌, is_empty,
  if◌then◌else◌,
}
use tinyproxy_rust.Prelude.Results.{Result, ok, err, ◌>>=◌}
use tinyproxy_rust.Std.Text.{Str, codes}
use tinyproxy_rust.Std.Net.{SocketAddr}
use tinyproxy_rust.Config.{Config, get_listen_addresses}
use tinyproxy_rust.Server
use tinyproxy_rust.Server.{Server, Step, abort_waiting, abort_accepted}

-- What the system answers when an address is bound while those of the list are: an error, or none.
abbrev pub Binds : Type 0
Binds = List SocketAddr → SocketAddr → Option Str

-- The loop over the addresses: the first failure ends it.
pub bind_all : Binds → List SocketAddr → List SocketAddr → Result Str (List SocketAddr)
bind_all binds bound [] = ok bound
bind_all binds bound (addr ∷ more) = elim (binds bound addr) [
  | none ↦ bind_all binds (bound ++ addr ∷ []) more
  | some e ↦ err e
]

listening : List SocketAddr → Result Str (List SocketAddr)
listening listeners =
    if is_empty listeners then err (codes "No listeners could be created") else ok listeners

-- `run` up to its wait: the listeners, or the error that it returns.
unfoldable pub start : Binds → Config → Result Str (List SocketAddr)
unfolding bind_all listening
start binds config = do
  listeners ← bind_all binds [] (get_listen_addresses config)
  listening listeners

-- `serving`: `run` waits for the shutdown message; `stopping`: it has told the accept loops to end,
-- and sleeps; `returned`: it gave `Ok(())`.
pub data Phase : Type 0 where
  serving stopping returned : Phase

-- `queued`: the channel, which has one place, holds a message; `requests` counts calls of `shutdown`.
pub record Life : Type 0 where
  pub server : Server
  pub phase : Phase
  pub queued : Bool
  pub requests : ℕ

abbrev pub serving_with : Server → Life
serving_with server = record { server = server; phase = serving; queued = false; requests = 0 }

-- None if the server cannot be made.
unfoldable pub started : Config → List SocketAddr → ℕ → Option Life
started config listeners now = Option.map serving_with (Server.new config (length listeners) now)

-- A step of the tasks, of a call of `shutdown` that finds room, or of `run`.
pub data LifeStep (l : Life) : Life → Type 0 where
  working : {s : Server} → Step l.server s → LifeStep l (record l { server = s })
  requesting : l.queued ≡ false → LifeStep l (record l { queued = true; requests = suc l.requests })
  receiving :
      l.phase ≡ serving
      → l.queued ≡ true
      → LifeStep l (record l { phase = stopping; queued = false })
  aborting_waiting :
      l.phase ≡ stopping
      → 0 < l.server.waiting
      → LifeStep l (record l { server = abort_waiting l.server })
  aborting_accepted :
      l.phase ≡ stopping
      → 0 < l.server.accepted
      → LifeStep l (record l { server = abort_accepted l.server })
  returning : l.phase ≡ stopping → LifeStep l (record l { phase = returned })

pub data Lives (l : Life) : Life → Type 0 where
  born : Lives l l
  later : {m n : Life} → Lives l m → LifeStep m n → Lives l n
