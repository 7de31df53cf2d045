-- ===== src/Server/Draining.antt =====
-- The server of src/server.rs can always get back all of its permits.
use tinyproxy_rust.Prelude.{ℕ, zero, suc, ◌+◌, ◌*◌, ◌<◌, ◌≤◌, ◌≡◌, refl, some, ◌⊎◌, inl, inr, arith}
use tinyproxy_rust.Config.{Config}
use tinyproxy_rust.Server.{
  Server, new, open_connection, close_connection, release, opening, closing, releasing, Steps,
  none_yet, and_then,
}
use tinyproxy_rust.Server.Invariant.{new-eq-some, reachable-IsConsistent, Steps-IsConsistent}

-- No task is left.
abbrev pub IsIdle : Server → Type 0
IsIdle s = (s.accepted ≡ 0) × (s.running ≡ 0) × (s.finishing ≡ 0)

abbrev work : Server → ℕ
work s = 3 * s.accepted + (2 * s.running + s.finishing)

positive_or_zero : (n : ℕ) → (0 < n) ⊎ (n ≡ 0)
positive_or_zero zero = inr refl
positive_or_zero (suc n) = inl (omega arith)

settles :
    (fuel : ℕ) (s t : Server) → Steps s t → work t ≤ fuel → (u : Server) × Steps s u × IsIdle u
unfolding open_connection close_connection release
settles zero s t steps h = (t, steps, (omega arith, omega arith, omega arith))
settles (suc fuel) s t steps h = elim (positive_or_zero t.accepted) [
  | inl p ↦ settles fuel s (open_connection t) (and_then steps (opening p)) (omega (arith, h, p))
  | inr p ↦ elim (positive_or_zero t.running) [
    | inl q ↦
        settles fuel s (close_connection 0 t) (and_then steps (closing q 0)) (omega (arith, h, q))
    | inr q ↦ elim (positive_or_zero t.finishing) [
      | inl r ↦ settles fuel s (release t) (and_then steps (releasing r)) (omega (arith, h, r))
      | inr r ↦ (t, steps, (p, q, r))
    ]
  ]
]

-- If the server can be made, then from every state that it can be in, the tasks that are there can run
-- to their end, and then every permit is free again and no connection is counted as active.
pub reachable_idle :
    (c : Config) (loops now : ℕ) (start s : Server)
    → new c loops now ≡ some start
    → Steps start s
    → (t : Server) × Steps s t × (t.permits ≡ c.max_clients) × (t.stats.active_connections ≡ 0)
reachable_idle c loops now start s made steps =
    let (t, on, idle) = settles (work s) s s none_yet (omega arith) in
    let small = (new-eq-some c loops now start made).0 in
    let v =
      Steps-IsConsistent c (omega (arith, small)) on
        (reachable-IsConsistent c loops now start s made steps).0 in
    (t, on, omega (arith, v.held, idle), omega (arith, v.active, idle))
