-- ===== src/Stats/Durations.antt =====
-- What `format_duration` of src/stats.rs shows.
use tinyproxy_rust.Prelude.{
  ℕ, ◌+◌, ◌-◌, ◌*◌, ◌/◌, ◌%◌, ◌≡◌, ap, ◌∙◌, if_intro, ◌&&◌, ◌++◌, ltb, leb, ◌==◌, if◌then◌else◌,
  arith,
}
use tinyproxy_rust.Std.Text.{Str, codes}
use tinyproxy_rust.Std.Number.{print_uint}
use tinyproxy_rust.Std.Number.RoundTrip.{IsDigit, run, run-print_uint}
use tinyproxy_rust.Stats.{format_duration}

-- The seconds that a text names: digits make up a number, and a letter says what it counts. The state
-- is the sum so far and the number that is being read.
abbrev pub name_seconds : ℕ × ℕ → ℕ → ℕ × ℕ
name_seconds (total, n) c =
    if c == b'd'
    then (total + n * 86400, 0)
    else if c == b'h'
    then (total + n * 3600, 0)
    else if c == b'm'
    then (total + n * 60, 0)
    else if c == b's'
    then (total + n, 0)
    else if leb b'0' c && leb c b'9'
    then (total, n * 10 + (c - b'0'))
    else (total, n)

abbrev pub seconds_of : Str → ℕ
seconds_of s = (run name_seconds (0, 0) s).0

name_seconds-digit :
    (total k c : ℕ) → IsDigit c → name_seconds (total, k) c ≡ (total, k * 10 + (c - b'0'))
name_seconds-digit total k c (low, high) = ground (arith, low, high)

part :
    (total n : ℕ) (rest : Str)
    → run name_seconds (total, 0) (print_uint n ++ rest) ≡ run name_seconds (total, n) rest
part total n rest = run-print_uint name_seconds (λ k. (total, k)) (name_seconds-digit total) n rest

abbrev seconds_text : ℕ → Str
seconds_text s = print_uint s ++ codes "s"

abbrev minutes_text : ℕ → ℕ → Str
minutes_text m s = print_uint m ++ (codes "m " ++ seconds_text s)

abbrev hours_text : ℕ → ℕ → ℕ → Str
hours_text h m s = print_uint h ++ (codes "h " ++ minutes_text m s)

abbrev days_text : ℕ → ℕ → ℕ → ℕ → Str
days_text d h m s = print_uint d ++ (codes "d " ++ hours_text h m s)

seconds_part : (t s : ℕ) → (run name_seconds (t, 0) (seconds_text s)).0 ≡ t + s
seconds_part t s = ap (λ p. p.0) (part t s (codes "s"))

minutes_part : (t m s : ℕ) → (run name_seconds (t, 0) (minutes_text m s)).0 ≡ t + m * 60 + s
minutes_part t m s =
    ap (λ p. p.0) (part t m (codes "m " ++ seconds_text s)) ∙ seconds_part (t + m * 60) s

hours_part :
    (t h m s : ℕ) → (run name_seconds (t, 0) (hours_text h m s)).0 ≡ t + h * 3600 + m * 60 + s
hours_part t h m s =
    ap (λ p. p.0) (part t h (codes "h " ++ minutes_text m s)) ∙ minutes_part (t + h * 3600) m s

days_part : (d h m s : ℕ) → seconds_of (days_text d h m s) ≡ 0 + d * 86400 + h * 3600 + m * 60 + s
days_part d h m s =
    ap (λ p. p.0) (part 0 d (codes "d " ++ hours_text h m s)) ∙ hours_part (0 + d * 86400) h m s

-- What is shown of a duration, in any of the four forms, names its number of whole seconds again.
pub format_duration_round_trip : (n : ℕ) → seconds_of (format_duration n) ≡ n
unfolding format_duration
format_duration_round_trip n =
    let d = n / 86400 in
    let h = n % 86400 / 3600 in
    let m = n % 3600 / 60 in
    let s = n % 60 in
    let Names : Str → Type 0 = λ text. seconds_of text ≡ n in
    if_intro Names (ltb 0 d) _ _ (λ _. days_part d h m s ∙ omega arith)
      (λ no_days.
        let d_zero : d ≡ 0 = ground arith in
        if_intro Names (ltb 0 h) _ _ (λ _. hours_part 0 h m s ∙ omega (arith, d_zero))
          (λ no_hours.
            let h_zero : h ≡ 0 = ground arith in
            if_intro Names (ltb 0 m) _ _ (λ _. minutes_part 0 m s ∙ omega (arith, d_zero, h_zero))
              (λ no_minutes.
                let m_zero : m ≡ 0 = ground arith in
                seconds_part 0 s ∙ omega (arith, d_zero, h_zero, m_zero))))
