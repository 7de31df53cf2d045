-- ===== src/Server/Run/Stopping.antt =====
-- A server of src/server.rs can always be shut down.
use tinyproxy_rust.Prelude.{ℕ, zero, suc, ◌≡◌, refl, true, false, Bool-cases, inl, inr, arith}
use tinyproxy_rust.Server.{abort_waiting, abort_accepted}
use tinyproxy_rust.Server.Run.{
  serving, stopping, returned, Life, requesting, receiving, aborting_waiting, aborting_accepted,
  returning, Lives, born, later,
}

-- `run` has returned, no accept loop is left, and the connections that ran still run.
pub record IsStopped (running : ℕ) (l : Life) : Type 0 where
  pub done : l.phase ≡ returned
  pub no_waiting : l.server.waiting ≡ 0
  pub no_accepted : l.server.accepted ≡ 0
  pub kept : l.server.running ≡ running

-- The waiting loops are ended, then those with a permit, and then `run` returns.
stop_accepted :
    (n : ℕ) (l m : Life)
    → Lives l m
    → m.phase ≡ stopping
    → m.server.waiting ≡ 0
    → m.server.accepted ≡ n
    → (k : Life) × Lives l k × IsStopped m.server.running k
unfolding abort_accepted
stop_accepted zero l m lives p w a = (
  record m { phase = returned },
  later lives (returning p),
  record { done = refl; no_waiting = w; no_accepted = a; kept = refl },
)
stop_accepted (suc n) l m lives p w a =
    stop_accepted n l (record m { server = abort_accepted m.server })
      (later lives (aborting_accepted p (omega arith))) p w (omega (arith, a))

stop_waiting :
    (n : ℕ) (l m : Life)
    → Lives l m
    → m.phase ≡ stopping
    → m.server.waiting ≡ n
    → (k : Life) × Lives l k × IsStopped m.server.running k
unfolding abort_waiting
stop_waiting zero l m lives p w = stop_accepted m.server.accepted l m lives p w refl
stop_waiting (suc n) l m lives p w =
    stop_waiting n l (record m { server = abort_waiting m.server })
      (later lives (aborting_waiting p (omega arith))) p (omega (arith, w))

stop_queued :
    (l m : Life)
    → Lives l m
    → m.phase ≡ serving
    → m.queued ≡ true
    → (k : Life) × Lives l k × IsStopped m.server.running k
stop_queued l m lives p q =
    stop_waiting m.server.waiting l (record m { phase = stopping; queued = false })
      (later lives (receiving p q)) refl refl

-- From every state in which `run` serves there are steps, with at most one call of `shutdown`, to a
-- state in which `run` has returned, no accept loop is left, and as many handlers run as before.
pub serving_stops :
    (l : Life) → l.phase ≡ serving → (k : Life) × Lives l k × IsStopped l.server.running k
serving_stops l p = elim (Bool-cases l.queued) [
  | inl q ↦ stop_queued l l born p q
  | inr q ↦
      stop_queued l (record l { queued = true; requests = suc l.requests })
        (later born (requesting q)) p refl
]
