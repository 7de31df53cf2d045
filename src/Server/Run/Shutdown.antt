-- ===== src/Server/Run/Shutdown.antt =====
-- What holds of a server of src/server.rs from its start through its shutdown.
use mathlib.Core.Option
use tinyproxy_rust.Prelude.{
  ℕ, ◌+◌, ◌^◌, ◌<◌, ◌≤◌, ◌≡◌, ◌≢◌, refl, ap, sym, ◌∙◌, subst, some, none, Option-cases, inl, inr,
  true, List, length, arith,
}
use tinyproxy_rust.Std.Net.{SocketAddr}
use tinyproxy_rust.Config.{Config}
use tinyproxy_rust.Server.{
  Server, with_permits, new, Step, accepting, opening, counting, closing, releasing, accept,
  open_connection, close_connection, release, abort_waiting, abort_accepted,
}
use tinyproxy_rust.Server.Invariant.{
  IsConsistent, with_permits-IsConsistent, new-eq-some, Step-IsConsistent,
  abort_waiting-IsConsistent, abort_accepted-IsConsistent,
}
use tinyproxy_rust.Server.Run.{
  serving, serving_with, Life, started, LifeStep, working, requesting, receiving, aborting_waiting,
  aborting_accepted, returning, Lives, born, later,
}

loops-Step : {s t : Server} → Step s t → t.waiting + t.accepted ≡ s.waiting + s.accepted
unfolding accept open_connection close_connection release
loops-Step {s} (accepting h) = ground arith
loops-Step {s} (opening h) = omega (arith, h)
loops-Step {s} (counting h requests bytes) = refl
loops-Step {s} (closing h elapsed) = refl
loops-Step {s} (releasing h) = refl

-- The server's counters are consistent; while `run` serves, each of the `loops` listeners has its
-- accept loop, and later no more than these are left; and `run` leaves its wait only when a shutdown
-- was asked for.
pub record IsSound (c : Config) (loops : ℕ) (l : Life) : Type 0 where
  pub consistent : IsConsistent c l.server
  pub all_loops : l.phase ≡ serving → l.server.waiting + l.server.accepted ≡ loops
  pub some_loops : l.server.waiting + l.server.accepted ≤ loops
  pub queued_asked : l.queued ≡ true → 0 < l.requests
  pub asked : l.phase ≢ serving → 0 < l.requests

module _ (c : Config) (bound : c.max_clients < 2 ^ 64) (loops : ℕ) where
  LifeStep-IsSound : {l m : Life} → LifeStep l m → IsSound c loops l → IsSound c loops m
  unfolding abort_waiting abort_accepted
  LifeStep-IsSound {l} (working {s} step) v = record {
    consistent = Step-IsConsistent c bound step v.consistent;
    all_loops = λ p. omega (arith, loops-Step step, v.all_loops p);
    some_loops = omega (arith, loops-Step step, v.some_loops);
    queued_asked = v.queued_asked;
    asked = v.asked;
  }
  LifeStep-IsSound {l} (requesting free) v = record {
    consistent = v.consistent;
    all_loops = v.all_loops;
    some_loops = v.some_loops;
    queued_asked = λ _. omega arith;
    asked = λ _. omega arith;
  }
  LifeStep-IsSound {l} (receiving p q) v = record {
    consistent = v.consistent;
    all_loops = λ e. cc;
    some_loops = v.some_loops;
    queued_asked = λ e. cc;
    asked = λ _. v.queued_asked q;
  }
  LifeStep-IsSound {l} (aborting_waiting p h) v = record {
    consistent = abort_waiting-IsConsistent c bound l.server v.consistent;
    all_loops = λ e. cc;
    some_loops = omega (arith, v.some_loops);
    queued_asked = v.queued_asked;
    asked = v.asked;
  }
  LifeStep-IsSound {l} (aborting_accepted p h) v = record {
    consistent = abort_accepted-IsConsistent c bound l.server h v.consistent;
    all_loops = λ e. cc;
    some_loops = omega (arith, v.some_loops);
    queued_asked = v.queued_asked;
    asked = v.asked;
  }
  LifeStep-IsSound {l} (returning p) v = record {
    consistent = v.consistent;
    all_loops = λ e. cc;
    some_loops = v.some_loops;
    queued_asked = v.queued_asked;
    asked = λ _. v.asked (λ e. cc);
  }

  Lives-IsSound_from : {l m : Life} → Lives l m → IsSound c loops l → IsSound c loops m
  Lives-IsSound_from born v = v
  Lives-IsSound_from (later before step) v = LifeStep-IsSound step (Lives-IsSound_from before v)

some-inj : (s t : Life) → some s ≡ some t → s ≡ t
some-inj s t e = cc e

none-ne : (s : Life) → ¬ (none ≡ some s)
none-ne s e = cc e

started-eq-some :
    (c : Config) (listeners : List SocketAddr) (now : ℕ) (first : Life)
    → started c listeners now ≡ some first
    → (s : Server) × (new c (length listeners) now ≡ some s) × (first ≡ serving_with s)
unfolding started
started-eq-some c listeners now first e = elim (Option-cases (new c (length listeners) now)) [
  | inl x ↦ absurd (none-ne first (sym (ap (Option.map serving_with) x) ∙ e))
  | inr (s, x) ↦ (s, x, some-inj first (serving_with s) (sym e ∙ ap (Option.map serving_with) x))
]

-- Through every life of a server that was started: permits and counters stay consistent, each
-- listener keeps its accept loop while `run` serves, and `run` stops serving only after `shutdown` was
-- called.
pub Lives-IsSound :
    (c : Config) (listeners : List SocketAddr) (now : ℕ) (first l : Life)
    → started c listeners now ≡ some first
    → Lives first l
    → IsSound c (length listeners) l
Lives-IsSound c listeners now first l begun lives =
    let (s, made, fresh) = started-eq-some c listeners now first begun in
    let (small, free) = new-eq-some c (length listeners) now s made in
    let bound : c.max_clients < 2 ^ 64 = omega (arith, small) in
    let opening' : IsSound c (length listeners)
        (serving_with (with_permits c.max_clients (length listeners) now)) =
      record {
        consistent = with_permits-IsConsistent c bound (length listeners) now;
        all_loops = λ _. omega arith;
        some_loops = omega arith;
        queued_asked = λ e. cc;
        asked = λ ne. absurd (ne refl);
      } in
    Lives-IsSound_from c bound (length listeners) lives
      (subst (IsSound c (length listeners)) (sym (fresh ∙ ap serving_with free)) opening')
