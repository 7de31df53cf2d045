-- ===== src/Tunnel/Laws.antt =====
-- What `copy_bidirectional` of src/utils.rs has relayed when one side ends.
use tinyproxy_rust.Prelude.{
  ℕ, ◌+◌, ◌%◌, ◌^◌, ◌<◌, ◌≡◌, ◌≢◌, refl, ap, sym, ◌∙◌, List, [], ◌∷◌, ◌++◌, length, length-append,
  append-nil, append_assoc, take, All, arith,
}
use tinyproxy_rust.Error.{io}
use tinyproxy_rust.Std.Text.{Str}
use tinyproxy_rust.Std.Utf8.{Bytes}
use tinyproxy_rust.Tunnel.{
  got, broken, wrote, failed_after, Event, from1, from2, Relay, Outcome, finished, failed, waiting,
  turn, copy_loop, copy_bidirectional,
}

-- A read that gave something, all of which was written.
abbrev pub IsRelayed : Event → Type 0
IsRelayed (from1 (got (b ∷ bs)) wrote) = Unit
IsRelayed (from2 (got (b ∷ bs)) wrote) = Unit
IsRelayed _ = ⊥

-- A side that ended, or failed.
abbrev pub IsEnd : Event → Type 0
IsEnd (from1 (got []) w) = Unit
IsEnd (from2 (got []) w) = Unit
IsEnd (from1 (broken e) w) = Unit
IsEnd (from2 (broken e) w) = Unit
IsEnd _ = ⊥

-- What the first and the second side sent, in order.
abbrev pub sent1 : List Event → Bytes
sent1 [] = []
sent1 (from1 (got bs) w ∷ es) = bs ++ sent1 es
sent1 (_ ∷ es) = sent1 es

abbrev pub sent2 : List Event → Bytes
sent2 [] = []
sent2 (from2 (got bs) w ∷ es) = bs ++ sent2 es
sent2 (_ ∷ es) = sent2 es

-- All of what both sides sent, and its count.
abbrev pub relayed_all : List Event → Relay
relayed_all es = record {
  out1 = sent1 es;
  out2 = sent2 es;
  total_bytes = (length (sent1 es) + length (sent2 es)) % 2 ^ 64;
}

-- `r`, and then all that `es` sends.
abbrev after : Relay → List Event → Relay
after r es = record {
  out1 = r.out1 ++ sent1 es;
  out2 = r.out2 ++ sent2 es;
  total_bytes = (r.total_bytes + (length (sent1 es) + length (sent2 es))) % 2 ^ 64;
}

relay_eq : (r s : Relay) → r.out1 ≡ s.out1 → r.out2 ≡ s.out2 → r.total_bytes ≡ s.total_bytes → r ≡ s
relay_eq r s p q e = λ i. record { out1 = p i; out2 = q i; total_bytes = e i }

copy_loop-relayed :
    (es rest : List Event) (r : Relay)
    → r.total_bytes < 2 ^ 64
    → All IsRelayed es
    → copy_loop (es ++ rest) r ≡ copy_loop rest (after r es)
unfolding copy_loop turn
copy_loop-relayed [] rest r h k =
    ap (copy_loop rest)
      (relay_eq r (after r []) (sym (append-nil r.out1)) (sym (append-nil r.out2)) (omega arith))
copy_loop-relayed (from1 (got (b ∷ bs)) wrote ∷ es) rest r h (p, k) =
    copy_loop-relayed es rest _ (omega arith) k
    ∙ ap (copy_loop rest) (
        relay_eq _ _ (append_assoc r.out1 (b ∷ bs) (sent1 es)) refl
          (omega (arith, length-append bs (sent1 es))))
copy_loop-relayed (from2 (got (b ∷ bs)) wrote ∷ es) rest r h (p, k) =
    copy_loop-relayed es rest _ (omega arith) k
    ∙ ap (copy_loop rest) (
        relay_eq _ _ refl (append_assoc r.out2 (b ∷ bs) (sent2 es))
          (omega (arith, length-append bs (sent2 es))))
copy_loop-relayed (from1 (got []) _ ∷ es) rest r h (p, k) = absurd p
copy_loop-relayed (from1 (got (b ∷ bs)) (failed_after _ _) ∷ es) rest r h (p, k) = absurd p
copy_loop-relayed (from1 (broken _) _ ∷ es) rest r h (p, k) = absurd p
copy_loop-relayed (from2 (got []) _ ∷ es) rest r h (p, k) = absurd p
copy_loop-relayed (from2 (got (b ∷ bs)) (failed_after _ _) ∷ es) rest r h (p, k) = absurd p
copy_loop-relayed (from2 (broken _) _ ∷ es) rest r h (p, k) = absurd p

copy_loop-end :
    (e : Event) (rest : List Event) (r : Relay)
    → IsEnd e
    → copy_loop (e ∷ rest) r ≡ (finished r.total_bytes, r)
unfolding copy_loop turn
copy_loop-end (from1 (got []) w) rest r p = refl
copy_loop-end (from2 (got []) w) rest r p = refl
copy_loop-end (from1 (broken e) w) rest r p = refl
copy_loop-end (from2 (broken e) w) rest r p = refl
copy_loop-end (from1 (got (b ∷ bs)) w) rest r p = absurd p
copy_loop-end (from2 (got (b ∷ bs)) w) rest r p = absurd p

copy_bidirectional-relayed :
    (es rest : List Event)
    → All IsRelayed es
    → copy_bidirectional (es ++ rest) ≡ copy_loop rest (relayed_all es)
unfolding copy_bidirectional
copy_bidirectional-relayed es rest h =
    copy_loop-relayed es rest _ (omega arith) h
    ∙ ap (copy_loop rest) (relay_eq _ (relayed_all es) refl refl (omega arith))

-- When one side ends, or cannot be read, behind any interleaving of reads that were written, each
-- writer has exactly what the other side sent, in order, and the result is the number of bytes in
-- both directions modulo 2^64; what stands behind the end is not read.
pub copy_bidirectional-end :
    (es : List Event) (e : Event) (rest : List Event)
    → All IsRelayed es
    → IsEnd e
    → copy_bidirectional (es ++ e ∷ rest) ≡ (finished (relayed_all es).total_bytes, relayed_all es)
copy_bidirectional-end es e rest h p =
    copy_bidirectional-relayed es (e ∷ rest) h ∙ copy_loop-end e rest (relayed_all es) p

-- When a write fails, the error is the result, and the writer has in addition only the bytes that
-- were written before it failed.
pub copy_bidirectional_write_error :
    (es : List Event) (bs : Bytes) (n : ℕ) (e : Str) (rest : List Event)
    → All IsRelayed es
    → bs ≢ []
    → copy_bidirectional (es ++ from1 (got bs) (failed_after n e) ∷ rest)
      ≡ (failed (io e), record (relayed_all es) { out1 = sent1 es ++ take n bs })
unfolding copy_loop turn
copy_bidirectional_write_error es [] n e rest h ne = absurd (ne refl)
copy_bidirectional_write_error es (b ∷ bs) n e rest h ne = copy_bidirectional-relayed es _ h

-- The count goes with what the writers have.
abbrev Counted : Relay → Type 0
Counted r = r.total_bytes ≡ (length r.out1 + length r.out2) % 2 ^ 64

-- A result of the loop is that count.
abbrev pub Reports : Outcome → Relay → Type 0
Reports (finished n) r = n ≡ (length r.out1 + length r.out2) % 2 ^ 64
Reports (failed e) r = Unit
Reports waiting r = Unit

copy_loop-Reports :
    (es : List Event) (r : Relay) → Counted r → Reports (copy_loop es r).0 (copy_loop es r).1
unfolding copy_loop turn
copy_loop-Reports [] r c = tt
copy_loop-Reports (from1 (got []) w ∷ es) r c = c
copy_loop-Reports (from1 (got (b ∷ bs)) wrote ∷ es) r c =
    copy_loop-Reports es _ (omega (arith, c, length-append r.out1 (b ∷ bs)))
copy_loop-Reports (from1 (got (b ∷ bs)) (failed_after n e) ∷ es) r c = tt
copy_loop-Reports (from1 (broken e) w ∷ es) r c = c
copy_loop-Reports (from2 (got []) w ∷ es) r c = c
copy_loop-Reports (from2 (got (b ∷ bs)) wrote ∷ es) r c =
    copy_loop-Reports es _ (omega (arith, c, length-append r.out2 (b ∷ bs)))
copy_loop-Reports (from2 (got (b ∷ bs)) (failed_after n e) ∷ es) r c = tt
copy_loop-Reports (from2 (broken e) w ∷ es) r c = c

-- On every schedule, a result is the number of bytes that the writers have, modulo 2^64.
pub copy_bidirectional-Reports :
    (es : List Event) → Reports (copy_bidirectional es).0 (copy_bidirectional es).1
unfolding copy_bidirectional
copy_bidirectional-Reports es = copy_loop-Reports es _ refl
