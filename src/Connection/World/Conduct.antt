-- ===== src/Connection/World/Conduct.antt =====
-- What the actions of src/connection.rs leave in the trace and in the counters.
use tinyproxy_rust.Prelude.{
  ℕ, ◌+◌, ◌%◌, ◌^◌, ◌≡◌, refl, ap, sym, ◌∙◌, Bool, true, false, List, [], ◌∷◌, ◌++◌, append-nil,
  append_assoc, length, take, if◌then◌else◌,
}
use tinyproxy_rust.Prelude.Results.{ok, err}
use tinyproxy_rust.Std.Text.{Str}
use tinyproxy_rust.Std.Utf8.{Bytes}
use tinyproxy_rust.Error.{ProxyError, ProxyResult}
use tinyproxy_rust.Stats.{Stats}
use tinyproxy_rust.Tunnel.{
  Write, wrote, failed_after, Relay, Outcome, finished, failed, waiting, copy_bidirectional,
}
use tinyproxy_rust.Tunnel.Laws.{Reports, copy_bidirectional-Reports}
use tinyproxy_rust.Connection.World.{
  World, Exec, Status, returned, raised, pending, Effect, to_client, connect_to, to_upstream,
  tunnelled, Attempt, connected, refused, timed_out, pure, raise, lift, continue, emit, write_as,
  attempted, upstream_as, status_of, write_client, connect, write_upstream, run_tunnel,
  count_transferred, current_stats, current_time, ◌>>=◌,
}

-- The counters after `n` more bytes.
abbrev pub transferred : ℕ → Stats → Stats
transferred n s = record s { bytes_transferred = (s.bytes_transferred + n) % 2 ^ 64 }

-- How a tunnel that relayed `x` and `y` ends: only a tunnel that ends well counts its bytes.
abbrev pub TunnelEnds : Status (Unit {0}) → Stats → Bytes → Bytes → Stats → Type 0
TunnelEnds (returned _) s x y s' = s' ≡ transferred ((length x + length y) % 2 ^ 64) s
TunnelEnds (raised e) s x y s' = s' ≡ s
TunnelEnds pending s x y s' = s' ≡ s

-- The ways in which a handler may end, with what it did before: nothing; one answer; a connection that
-- failed; a connection and a first write; or a connection, a first write and a tunnel.
abbrev pub Conforms : Status (Unit {0}) → Stats → List Effect → Stats → Type 0
Conforms (returned _) s [] s' = s' ≡ s
Conforms (returned _) s (to_client b ∷ []) s' = s' ≡ s
Conforms (raised e) s [] s' = s' ≡ s
Conforms (raised e) s (to_client b ∷ []) s' = s' ≡ s
Conforms (raised e) s (connect_to a ∷ []) s' = s' ≡ s
Conforms (raised e) s (connect_to a ∷ to_client b ∷ []) s' = s' ≡ s
Conforms (raised e) s (connect_to a ∷ to_upstream b ∷ []) s' = s' ≡ s
Conforms r s (connect_to a ∷ to_client b ∷ tunnelled x y ∷ []) s' = TunnelEnds r s x y s'
Conforms r s (connect_to a ∷ to_upstream b ∷ tunnelled x y ∷ []) s' = TunnelEnds r s x y s'
Conforms _ s _ s' = ⊥

-- The action adds `t` to the trace, and conforms with it.
abbrev pub Conducts : Exec (Unit {0}) → World → Type 0
Conducts m w =
    (t : List Effect) × ((m w).1.trace ≡ w.trace ++ t) × Conforms (m w).0 w.stats t (m w).1.stats

pub Conducts-raise : (e : ProxyError) (w : World) → Conducts (raise e) w
Conducts-raise e w = ([], sym (append-nil w.trace), refl)

pub Conducts-pure : (w : World) → Conducts (pure tt) w
Conducts-pure w = ([], sym (append-nil w.trace), refl)

Conducts-write_as : (ws : List Write) (bytes : Bytes) (w : World) → Conducts (write_as ws bytes) w
unfolding write_as
Conducts-write_as [] bytes w = (to_client bytes ∷ [], refl, refl)
Conducts-write_as (wrote ∷ ws) bytes w = (to_client bytes ∷ [], refl, refl)
Conducts-write_as (failed_after n e ∷ ws) bytes w = (to_client (take n bytes) ∷ [], refl, refl)

pub Conducts-write_client : (bytes : Bytes) (w : World) → Conducts (write_client bytes) w
unfolding write_client
Conducts-write_client bytes w = Conducts-write_as w.writes bytes w

Conducts-refuse_as :
    (ws : List Write) (bytes : Bytes) (e : ProxyError) (w : World)
    → Conducts (write_as ws bytes >>= λ _. raise e) w
unfolding write_as ◌>>=◌
Conducts-refuse_as [] bytes e w = (to_client bytes ∷ [], refl, refl)
Conducts-refuse_as (wrote ∷ ws) bytes e w = (to_client bytes ∷ [], refl, refl)
Conducts-refuse_as (failed_after n x ∷ ws) bytes e w = (to_client (take n bytes) ∷ [], refl, refl)

-- An answer, and an error.
pub Conducts-refuse :
    (bytes : Bytes) (e : ProxyError) (w : World) → Conducts (write_client bytes >>= λ _. raise e) w
unfolding write_client ◌>>=◌
Conducts-refuse bytes e w = Conducts-refuse_as w.writes bytes e w

pub Conducts-if :
    (b : Bool) (m n : Exec (Unit {0})) (w : World)
    → Conducts m w
    → Conducts n w
    → Conducts (if b then m else n) w
Conducts-if true m n w p q = p
Conducts-if false m n w p q = q

pub Conducts-bind_lift :
    {A : Type 0} (r : ProxyResult A) (f : A → Exec (Unit {0})) (w : World)
    → ((a : A) → Conducts (f a) w)
    → Conducts (lift r >>= f) w
unfolding ◌>>=◌
Conducts-bind_lift (ok a) f w h = h a
Conducts-bind_lift (err e) f w h = Conducts-raise e w

pub Conducts-read_stats :
    (f : Stats → ℕ → Exec (Unit {0})) (w : World)
    → ((s : Stats) (n : ℕ) → Conducts (f s n) w)
    → Conducts (current_stats >>= λ s. current_time >>= f s) w
unfolding ◌>>=◌ current_stats current_time
Conducts-read_stats f w h = h w.stats w.now

-- The tunnel and its count, as the handler runs them.
abbrev pub relayed : Exec (Unit {0})
relayed = run_tunnel >>= λ n. count_transferred n

abbrev Relayed : Status (Unit {0}) → World → World → Type 0
Relayed r w w' =
    (x y : Bytes) × (w'.trace ≡ w.trace ++ tunnelled x y ∷ []) × TunnelEnds r w.stats x y w'.stats

Relayed-as :
    (o : Outcome) (r : Relay) (w : World)
    → Reports o r
    → let end = continue (status_of o) count_transferred (emit (tunnelled r.out1 r.out2) w) in
      Relayed end.0 w end.1
unfolding status_of count_transferred
Relayed-as (finished n) r w e = (r.out1, r.out2, refl, ap (λ k. transferred k w.stats) e)
Relayed-as (failed e) r w c = (r.out1, r.out2, refl, refl)
Relayed-as waiting r w c = (r.out1, r.out2, refl, refl)

relayed-Relayed : (w : World) → Relayed (relayed w).0 w (relayed w).1
unfolding ◌>>=◌ run_tunnel
relayed-Relayed w =
    Relayed-as (copy_bidirectional w.events).0 (copy_bidirectional w.events).1 w
      (copy_bidirectional-Reports w.events)

-- Behind a connection and a first write.
TunnelEnds-client :
    (r : Status (Unit {0})) (s : Stats) (a : Str) (b x y : Bytes) (s' : Stats)
    → TunnelEnds r s x y s'
    → Conforms r s (connect_to a ∷ to_client b ∷ tunnelled x y ∷ []) s'
TunnelEnds-client (returned _) s a b x y s' h = h
TunnelEnds-client (raised e) s a b x y s' h = h
TunnelEnds-client pending s a b x y s' h = h

TunnelEnds-upstream :
    (r : Status (Unit {0})) (s : Stats) (a : Str) (b x y : Bytes) (s' : Stats)
    → TunnelEnds r s x y s'
    → Conforms r s (connect_to a ∷ to_upstream b ∷ tunnelled x y ∷ []) s'
TunnelEnds-upstream (returned _) s a b x y s' h = h
TunnelEnds-upstream (raised e) s a b x y s' h = h
TunnelEnds-upstream pending s a b x y s' h = h

three :
    (l : List Effect) (c d e : Effect) → ((l ++ c ∷ []) ++ d ∷ []) ++ e ∷ [] ≡ l ++ c ∷ d ∷ e ∷ []
three l c d e = simp append_assoc

two : (l : List Effect) (c d : Effect) → (l ++ c ∷ []) ++ d ∷ [] ≡ l ++ c ∷ d ∷ []
two l c d = simp append_assoc

-- The world `w` after a connection, and `v` the same after a write of `d`.
client_then_relay :
    (ws : List Write) (a : Str) (b : Bytes) (w : World)
    → let end = (write_as ws b >>= λ _. relayed) (emit (connect_to a) w) in
      (t : List Effect) × (end.1.trace ≡ w.trace ++ t) × Conforms end.0 w.stats t end.1.stats
unfolding ◌>>=◌ write_as
client_then_relay [] a b w =
    let (x, y, e, h) = relayed-Relayed (emit (to_client b) (emit (connect_to a) w)) in
    (
      _,
      e ∙ three w.trace (connect_to a) (to_client b) (tunnelled x y),
      TunnelEnds-client _ w.stats a b x y _ h,
    )
client_then_relay (wrote ∷ ws) a b w =
    let (x, y, e, h) =
      relayed-Relayed (emit (to_client b) (record (emit (connect_to a) w) { writes = ws })) in
    (
      _,
      e ∙ three w.trace (connect_to a) (to_client b) (tunnelled x y),
      TunnelEnds-client _ w.stats a b x y _ h,
    )
client_then_relay (failed_after n e ∷ ws) a b w =
    (connect_to a ∷ to_client (take n b) ∷ [], two w.trace _ _, refl)

upstream_then_relay :
    (o : Write) (a : Str) (b : Bytes) (w : World)
    → let end = (upstream_as o b >>= λ _. relayed) (emit (connect_to a) w) in
      (t : List Effect) × (end.1.trace ≡ w.trace ++ t) × Conforms end.0 w.stats t end.1.stats
unfolding ◌>>=◌ upstream_as
upstream_then_relay wrote a b w =
    let (x, y, e, h) = relayed-Relayed (emit (to_upstream b) (emit (connect_to a) w)) in
    (
      _,
      e ∙ three w.trace (connect_to a) (to_upstream b) (tunnelled x y),
      TunnelEnds-upstream _ w.stats a b x y _ h,
    )
upstream_then_relay (failed_after n e) a b w =
    (connect_to a ∷ to_upstream (take n b) ∷ [], two w.trace _ _, refl)

-- A connection, and an action that conforms behind it.
connected_then :
    (o : Attempt) (a : Str) (m : Exec (Unit {0})) (w : World)
    → (let end = m (emit (connect_to a) w) in
        (t : List Effect) × (end.1.trace ≡ w.trace ++ t) × Conforms end.0 w.stats t end.1.stats)
    → let end = (attempted a o >>= λ _. m) (emit (connect_to a) w) in
      (t : List Effect) × (end.1.trace ≡ w.trace ++ t) × Conforms end.0 w.stats t end.1.stats
unfolding ◌>>=◌ attempted
connected_then connected a m w h = h
connected_then (refused e) a m w h = (connect_to a ∷ [], refl, refl)
connected_then timed_out a m w h = (connect_to a ∷ [], refl, refl)

pub Conducts-tunnel :
    (a : Str) (b : Bytes) (w : World)
    → Conducts (connect a >>= λ _. write_client b >>= λ _. relayed) w
unfolding ◌>>=◌ connect write_client
Conducts-tunnel a b w =
    connected_then (w.attempt a) a (write_client b >>= λ _. relayed) w
      (client_then_relay w.writes a b w)

pub Conducts-upstream :
    (a : Str) (b : Bytes) (w : World)
    → Conducts (connect a >>= λ _. write_upstream b >>= λ _. relayed) w
unfolding ◌>>=◌ connect write_upstream
Conducts-upstream a b w =
    connected_then (w.attempt a) a (write_upstream b >>= λ _. relayed) w
      (upstream_then_relay w.upstream_write a b w)
