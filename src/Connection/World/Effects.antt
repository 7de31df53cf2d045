-- ===== src/Connection/World/Effects.antt =====
-- Which servers an action of src/connection.rs may connect to, one rule for each way to build one.
use tinyproxy_rust.Prelude.{
  ℕ, ◌≡◌, refl, Bool, true, false, List, [], ◌∷◌, ◌++◌, All, All-append, if◌then◌else◌,
}
use tinyproxy_rust.Prelude.Results.{ok, err}
use tinyproxy_rust.Std.Text.{Str}
use tinyproxy_rust.Std.Utf8.{Bytes}
use tinyproxy_rust.Error.{ProxyError, ProxyResult}
use tinyproxy_rust.Tunnel.{Write, wrote, failed_after}
use tinyproxy_rust.Connection.World.{
  World, Exec, Status, returned, raised, pending, Effect, connect_to, Attempt, connected, refused,
  timed_out, pure, raise, lift, continue, write_as, attempted, upstream_as, write_client, connect,
  write_upstream, run_tunnel, count_request, count_transferred, current_stats, current_time, ◌>>=◌,
}

-- A connection goes only to an address that `G` admits.
abbrev pub OnlyTo : (Str → Type 0) → Effect → Type 0
OnlyTo G (connect_to addr) = G addr
OnlyTo G _ = Unit

-- The action makes no other connection: a trace with connections to addresses of `K`, a wider
-- predicate, stays one.
pub record Connects (G : Str → Type 0) {A : Type 0} (m : Exec A) : Type 1 where
  pub at :
      (K : Str → Type 0)
      → ((addr : Str) → G addr → K addr)
      → (w : World) → All (OnlyTo K) w.trace
      → All (OnlyTo K) (m w).1.trace

module _ (G : Str → Type 0) where
  emitted :
      (t : List Effect) (e : Effect) → All (OnlyTo G) t → OnlyTo G e → All (OnlyTo G) (t ++ e ∷ [])
  emitted t e h p = All-append (OnlyTo G) t (e ∷ []) h (p, tt)

  write_as-OnlyTo :
      (ws : List Write) (bytes : Bytes) (w : World)
      → All (OnlyTo G) w.trace
      → All (OnlyTo G) (write_as ws bytes w).1.trace
  unfolding write_as
  write_as-OnlyTo [] bytes w h = emitted w.trace _ h tt
  write_as-OnlyTo (wrote ∷ ws) bytes w h = emitted w.trace _ h tt
  write_as-OnlyTo (failed_after n e ∷ ws) bytes w h = emitted w.trace _ h tt

  upstream_as-OnlyTo :
      (o : Write) (bytes : Bytes) (w : World)
      → All (OnlyTo G) w.trace
      → All (OnlyTo G) (upstream_as o bytes w).1.trace
  unfolding upstream_as
  upstream_as-OnlyTo wrote bytes w h = emitted w.trace _ h tt
  upstream_as-OnlyTo (failed_after n e) bytes w h = emitted w.trace _ h tt

  attempted-OnlyTo :
      (addr : Str) (o : Attempt) (w : World)
      → All (OnlyTo G) w.trace
      → All (OnlyTo G) (attempted addr o w).1.trace
  unfolding attempted
  attempted-OnlyTo addr connected w h = h
  attempted-OnlyTo addr (refused e) w h = h
  attempted-OnlyTo addr timed_out w h = h

module _ (G K : Str → Type 0) (wider : (addr : Str) → G addr → K addr) where
  continue-OnlyTo :
      {A B : Type 0} (s : Status A) (f : A → Exec B) (w : World)
      → All (OnlyTo K) w.trace
      → ((a : A) → Connects G (f a))
      → All (OnlyTo K) (continue s f w).1.trace
  continue-OnlyTo (returned a) f w h k = (k a).at K wider w h
  continue-OnlyTo (raised e) f w h k = h
  continue-OnlyTo pending f w h k = h

module _ {G : Str → Type 0} where
  pub Connects-pure : {A : Type 0} (a : A) → Connects G (pure a)
  Connects-pure a = record { at = λ K wider w h. h }

  pub Connects-raise : {A : Type 0} (e : ProxyError) → Connects G (raise {A = A} e)
  Connects-raise e = record { at = λ K wider w h. h }

  pub Connects-lift : {A : Type 0} (r : ProxyResult A) → Connects G (lift r)
  Connects-lift r = record { at = λ K wider w h. h }

  pub Connects-count_request : Connects G count_request
  unfolding count_request
  Connects-count_request = record { at = λ K wider w h. h }

  pub Connects-count_transferred : (n : ℕ) → Connects G (count_transferred n)
  unfolding count_transferred
  Connects-count_transferred n = record { at = λ K wider w h. h }

  pub Connects-current_stats : Connects G current_stats
  unfolding current_stats
  Connects-current_stats = record { at = λ K wider w h. h }

  pub Connects-current_time : Connects G current_time
  unfolding current_time
  Connects-current_time = record { at = λ K wider w h. h }

  pub Connects-write_client : (bytes : Bytes) → Connects G (write_client bytes)
  unfolding write_client
  Connects-write_client bytes = record { at = λ K wider w h. write_as-OnlyTo K w.writes bytes w h }

  pub Connects-write_upstream : (bytes : Bytes) → Connects G (write_upstream bytes)
  unfolding write_upstream
  Connects-write_upstream bytes = record {
    at = λ K wider w h. upstream_as-OnlyTo K w.upstream_write bytes w h;
  }

  pub Connects-run_tunnel : Connects G run_tunnel
  unfolding run_tunnel
  Connects-run_tunnel = record { at = λ K wider w h. emitted K w.trace _ h tt }

  -- The one action that connects.
  pub Connects-connect : (addr : Str) → G addr → Connects G (connect addr)
  unfolding connect
  Connects-connect addr g = record {
    at = λ K wider w h.
        attempted-OnlyTo K addr (w.attempt addr) _
          (emitted K w.trace (connect_to addr) h (wider addr g));
  }

  pub Connects-if :
      {A : Type 0} (b : Bool) (m n : Exec A)
      → (b ≡ true → Connects G m)
      → (b ≡ false → Connects G n)
      → Connects G (if b then m else n)
  Connects-if true m n km kn = km refl
  Connects-if false m n km kn = kn refl

  -- Behind a result the rest may use that the result was no error.
  pub Connects-bind_lift :
      {A B : Type 0} (r : ProxyResult A) (f : A → Exec B)
      → ((a : A) → r ≡ ok a → Connects G (f a))
      → Connects G (lift r >>= f)
  unfolding ◌>>=◌
  Connects-bind_lift (ok a) f k = k a refl
  Connects-bind_lift (err e) f k = Connects-raise e

  pub Connects-bind :
      {A B : Type 0} (m : Exec A) (f : A → Exec B)
      → Connects G m
      → ((a : A) → Connects G (f a))
      → Connects G (m >>= f)
  unfolding ◌>>=◌
  Connects-bind m f km kf = record {
    at = λ K wider w h. continue-OnlyTo G K wider (m w).0 f (m w).1 (km.at K wider w h) kf;
  }

pub Connects-imp :
    {G : Str → Type 0} (H : Str → Type 0) {A : Type 0} {m : Exec A}
    → ((addr : Str) → G addr → H addr)
    → Connects G m
    → Connects H m
Connects-imp H imp c = record { at = λ K wider. c.at K (λ addr g. wider addr (imp addr g)) }

pub ruleset connect_rules = (
  Connects-pure, Connects-raise, Connects-lift, Connects-count_request, Connects-count_transferred,
  Connects-current_stats, Connects-current_time, Connects-write_client, Connects-write_upstream,
  Connects-run_tunnel, Connects-bind,
)
