-- ===== src/Server/Invariant.antt =====
-- What holds of the server of src/server.rs after any interleaving of its tasks.
use mathlib.Core.Option
use tinyproxy_rust.Prelude.{
  ℕ, ◌+◌, ◌%◌, ◌^◌, ◌<◌, ◌≤◌, ◌≡◌, refl, ap, sym, ◌∙◌, subst, Bool-cases, inl, inr, none, some, leb,
  leb→le, if◌then◌else◌, arith,
}
use tinyproxy_rust.Config.{Config}
use tinyproxy_rust.Server.{
  Server, max_permits, semaphore, with_permits, new, accept, open_connection, close_connection,
  release, abort_waiting, abort_accepted, Step, accepting, opening, counting, closing, releasing,
  Steps, none_yet, and_then,
}

-- Every permit is free or held once; the active connections are those whose handler runs; and the
-- opened connections are those that were closed and those that are active, on 64 bits.
pub record IsConsistent (c : Config) (s : Server) : Type 0 where
  pub held : s.permits + (s.accepted + (s.running + s.finishing)) ≡ c.max_clients
  pub active : s.stats.active_connections ≡ s.running
  pub opened : s.stats.connections_opened ≡ (s.stats.connections_closed + s.running) % 2 ^ 64
  pub closed_bound : s.stats.connections_closed < 2 ^ 64

module _ (c : Config) (bound : c.max_clients < 2 ^ 64) where
  pub with_permits-IsConsistent :
      (loops now : ℕ) → IsConsistent c (with_permits c.max_clients loops now)
  with_permits-IsConsistent loops now = record {
    held = omega arith;
    active = refl;
    opened = refl;
    closed_bound = omega arith;
  }

  accept-IsConsistent : (s : Server) → IsConsistent c s → IsConsistent c (accept s)
  unfolding accept
  accept-IsConsistent s v = ground arith

  open_connection-IsConsistent :
      (s : Server) → 0 < s.accepted → IsConsistent c s → IsConsistent c (open_connection s)
  unfolding open_connection
  open_connection-IsConsistent s h v = ground arith

  close_connection-IsConsistent :
      (elapsed : ℕ) (s : Server)
      → 0 < s.running
      → IsConsistent c s
      → IsConsistent c (close_connection elapsed s)
  unfolding close_connection
  close_connection-IsConsistent elapsed s h v = ground arith

  release-IsConsistent :
      (s : Server) → 0 < s.finishing → IsConsistent c s → IsConsistent c (release s)
  unfolding release
  release-IsConsistent s h v = ground arith

  pub abort_waiting-IsConsistent :
      (s : Server) → IsConsistent c s → IsConsistent c (abort_waiting s)
  unfolding abort_waiting
  abort_waiting-IsConsistent s v = ground arith

  pub abort_accepted-IsConsistent :
      (s : Server) → 0 < s.accepted → IsConsistent c s → IsConsistent c (abort_accepted s)
  unfolding abort_accepted
  abort_accepted-IsConsistent s h v = ground arith

  pub Step-IsConsistent : {s t : Server} → Step s t → IsConsistent c s → IsConsistent c t
  Step-IsConsistent {s} (accepting h) v = accept-IsConsistent s v
  Step-IsConsistent {s} (opening h) v = open_connection-IsConsistent s h v
  Step-IsConsistent {s} (counting h requests bytes) v = record {
    held = v.held;
    active = v.active;
    opened = v.opened;
    closed_bound = v.closed_bound;
  }
  Step-IsConsistent {s} (closing h elapsed) v = close_connection-IsConsistent elapsed s h v
  Step-IsConsistent {s} (releasing h) v = release-IsConsistent s h v

  pub Steps-IsConsistent : {s t : Server} → Steps s t → IsConsistent c s → IsConsistent c t
  Steps-IsConsistent none_yet v = v
  Steps-IsConsistent (and_then before step) v = Step-IsConsistent step (Steps-IsConsistent before v)

some-inj : (s t : Server) → some s ≡ some t → s ≡ t
some-inj s t e = cc e

none-ne : (s : Server) → ¬ (none ≡ some s)
none-ne s e = cc e

-- A server that is made has no more permits than a semaphore can hold, and all of them are free.
pub new-eq-some :
    (c : Config) (loops now : ℕ) (s : Server)
    → new c loops now ≡ some s
    → (c.max_clients ≤ max_permits) × (s ≡ with_permits c.max_clients loops now)
unfolding new semaphore
new-eq-some c loops now s e =
    let made = λ (permits : ℕ). with_permits permits loops now in
    elim (Bool-cases (leb c.max_clients max_permits)) [
      | inl y ↦ (
        leb→le c.max_clients max_permits y,
        some-inj s (with_permits c.max_clients loops now)
            (sym e ∙ ap (λ b. Option.map made (if b then some c.max_clients else none)) y),
      )
      | inr n ↦ absurd (
          none-ne s
            (sym (ap (λ b. Option.map made (if b then some c.max_clients else none)) n) ∙ e))
    ]

-- If the server can be made, then after any interleaving of accept loops and connection tasks: free
-- and held permits make up `max_clients`, the counter of active connections is the number of handlers
-- that run, and no more than `max_clients`, and the opened connections are the closed and the active
-- ones on 64 bits.
pub reachable-IsConsistent :
    (c : Config) (loops now : ℕ) (start s : Server)
    → new c loops now ≡ some start
    → Steps start s
    → IsConsistent c s × (s.stats.active_connections ≤ c.max_clients)
reachable-IsConsistent c loops now start s made steps =
    let (small, fresh) = new-eq-some c loops now start made in
    let bound : c.max_clients < 2 ^ 64 = omega (arith, small) in
    let v =
      Steps-IsConsistent c bound steps
        (subst (IsConsistent c) (sym fresh) (with_permits-IsConsistent c bound loops now)) in
    (v, omega (arith, v.held, v.active))
