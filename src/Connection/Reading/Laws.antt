-- ===== src/Connection/Reading/Laws.antt =====
-- What the read loop of src/connection.rs has read when it has a whole head.
use tinyproxy_rust.Prelude.{
  ◌*◌, ◌≤◌, ◌∙◌, leb, leb→le, Bool-cases, if◌then◌else◌, ℕ, ◌+◌, ◌≡◌, refl, ap, sym, some,
  Option-cases, inl, inr, List, [], ◌∷◌, ◌++◌, append_assoc, append-nil, subst, All, length, take,
  drop, length-take, take-append-drop, arith,
}
use tinyproxy_rust.Std.Utf8.{Bytes}
use tinyproxy_rust.Error.{timeout}
use tinyproxy_rust.Http.{find_end_of_headers}
use tinyproxy_rust.Http.Framing.{EndsAt-le, find_end_of_headers_iff}
use tinyproxy_rust.Tunnel.{got, broken}
use tinyproxy_rust.Connection.Reading.{
  Reading, Arrival, in_time, rejected, complete, at_eof, read_loop, read_request,
}

-- A read that was ready in time and gave bytes.
abbrev pub IsData : ℕ → Arrival → Type 0
IsData limit (after, got (b ∷ bs)) = after ≤ limit * 1000
IsData limit _ = ⊥

abbrev pub bytes_of : List Arrival → Bytes
bytes_of [] = []
bytes_of ((after, got bs) ∷ rs) = bs ++ bytes_of rs
bytes_of ((after, broken e) ∷ rs) = bytes_of rs

-- `buffer` is cut behind the first blank line.
pub record IsCut (buffer head rest : Bytes) : Type 0 where
  pub joined : buffer ≡ head ++ rest
  pub end_of_headers : ℕ
  pub found : find_end_of_headers buffer ≡ some end_of_headers
  pub size : length head ≡ end_of_headers + 4

IsCut-intro :
    (buffer : Bytes) (n : ℕ) (head rest : Bytes)
    → find_end_of_headers buffer ≡ some n
    → complete (take (n + 4) buffer) (drop (n + 4) buffer) ≡ complete head rest
    → IsCut buffer head rest
IsCut-intro buffer n head rest e h =
    let p : take (n + 4) buffer ≡ head = cc in
    let q : drop (n + 4) buffer ≡ rest = cc in
    rw (← p, ← q)
      (record {
        joined = sym (take-append-drop (n + 4) buffer);
        end_of_headers = n;
        found = e;
        size =
            length-take (n + 4) buffer
              (EndsAt-le buffer n ((find_end_of_headers_iff buffer n).0 e).0);
      })

-- `buffer`, then what the reads `used` gave, is cut, and `later` is not read.
abbrev pub IsRead : ℕ → Bytes → List Arrival → Bytes → Bytes → Type 0
IsRead limit buffer reads head rest =
    (used : List Arrival) × (later : List Arrival) × (reads ≡ used ++ later)
    × All (IsData limit) used
    × IsCut (buffer ++ bytes_of used) head rest

late-ne : (head rest : Bytes) → ¬ (rejected timeout ≡ complete head rest)
late-ne head rest e = cc e

in_time-eq-complete :
    (limit after : ℕ) (r : Reading) (head rest : Bytes)
    → in_time limit after r ≡ complete head rest
    → (after ≤ limit * 1000) × (r ≡ complete head rest)
unfolding in_time
in_time-eq-complete limit after r head rest e = elim (Bool-cases (leb after (limit * 1000))) [
  | inl y ↦ (leb→le after (limit * 1000) y, sym (ap (λ b. if b then r else rejected timeout) y) ∙ e)
  | inr n ↦ absurd (late-ne head rest (sym (ap (λ b. if b then r else rejected timeout) n) ∙ e))
]

read_loop-IsRead :
    (limit total_read : ℕ) (buffer : Bytes) (reads : List Arrival) (head rest : Bytes)
    → read_loop limit total_read buffer reads ≡ complete head rest
    → IsRead limit buffer reads head rest
unfolding read_loop at_eof
read_loop-IsRead limit total_read buffer [] head rest e = cc
read_loop-IsRead limit total_read buffer ((after, broken x) ∷ reads) head rest e =
    cc ((in_time-eq-complete limit after _ head rest e).1)
read_loop-IsRead limit total_read buffer ((after, got []) ∷ reads) head rest e =
    let ended = (in_time-eq-complete limit after (at_eof total_read) head rest e).1 in
    ground (arith, ended)
read_loop-IsRead limit total_read buffer ((after, got (b ∷ bs)) ∷ reads) head rest e =
    let (ready, e') = in_time-eq-complete limit after _ head rest e in
    elim (Option-cases (find_end_of_headers (buffer ++ b ∷ bs))) [
      | inl x ↦
          let later : read_loop limit (total_read + length (b ∷ bs)) (buffer ++ b ∷ bs) reads
              ≡ complete head rest =
            ground (arith, x, e') in
          let (used, unread, eq, all_data, cut) =
            read_loop-IsRead limit (total_read + length (b ∷ bs)) (buffer ++ b ∷ bs) reads head rest
              later in
          (
            (after, got (b ∷ bs)) ∷ used,
            unread,
            ap (◌∷◌ (after, got (b ∷ bs))) eq,
            (ready, all_data),
            subst (λ s. IsCut s head rest) (append_assoc buffer (b ∷ bs) (bytes_of used)) cut,
          )
      | inr (n, x) ↦
          let cut = IsCut-intro (buffer ++ b ∷ bs) n head rest x (ground (arith, x, e')) in
          (
            (after, got (b ∷ bs)) ∷ [],
            reads,
            refl,
            (ready, tt),
            subst (λ s. IsCut (buffer ++ s) head rest) (sym (append-nil (b ∷ bs))) cut,
          )
    ]

-- A head that was read whole is what the first reads gave, each of which was ready within the limit
-- and gave bytes, cut behind the first blank line; the other bytes of these reads follow it, and no
-- byte is lost.
pub read_request-IsRead :
    (limit : ℕ) (reads : List Arrival) (head rest : Bytes)
    → read_request limit reads ≡ complete head rest
    → IsRead limit [] reads head rest
unfolding read_request
read_request-IsRead limit reads = read_loop-IsRead limit 0 [] reads
