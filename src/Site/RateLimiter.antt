-- ===== src/Site/RateLimiter.antt =====
-- crates/core/src/site/rate_limiter.rs. The atomics and the mutex are the fields of a record, each
-- call is one step on it, `now` is `Instant::now()` in milliseconds, and the waits of a call are
-- returned in their order.
pub mod Backoff
pub mod Waits
use pt_reseeder.Base.{
  ℕ, ◌+◌, ◌-◌, ◌*◌, ◌%◌, ◌^◌, Bool, true, false, ◌||◌, Option, none, some, List, [], ◌∷◌, min, max,
  ltb, leb, ◌==◌, if◌then◌else◌, and_then,
}
use pt_reseeder.Base.Int.{u64_mod}
use pt_reseeder.Base.Text.{Text, codes, after_first, contains, to_ascii_lowercase}
use pt_reseeder.Base.Decimal.{is_digit, parse_usize}
use pt_reseeder.Error.{site, circuit_open, Result, ok, err}

abbrev pub max_download_wait_secs : ℕ
max_download_wait_secs = 30

abbrev pub u32_mod : ℕ
u32_mod = 2 ^ 32

-- The two permit sources of the `governor` crate are named by the wait for them.
pub data Wait : Type 0 where
  api_permit download_permit : Wait
  sleep_ms : ℕ → Wait

pub record Limiter : Type 0 where
  pub consecutive_errors : ℕ
  pub current_interval_ms : ℕ
  pub base_interval_ms : ℕ
  pub extra_download_wait_ms : ℕ
  pub circuit_open_until : Option ℕ

unfoldable pub with_download_interval : ℕ → ℕ → ℕ → Limiter
with_download_interval interval_ms burst download_interval_ms =
    let interval : ℕ = max interval_ms 1 in
    record {
      consecutive_errors = 0;
      current_interval_ms = interval;
      base_interval_ms = interval;
      extra_download_wait_ms = 0;
      circuit_open_until = none;
    }

unfoldable pub new : ℕ → ℕ → Limiter
unfolding with_download_interval
new interval_ms burst = with_download_interval interval_ms burst interval_ms

unfoldable pub is_circuit_open : Limiter → ℕ → Bool
is_circuit_open l now = elim l.circuit_open_until [ none ↦ false | some until ↦ ltb now until ]

unfoldable pub ensure_circuit_closed : Limiter → ℕ → Result (Unit {0})
ensure_circuit_closed l now = elim l.circuit_open_until [
  | none ↦ ok tt
  | some until ↦ if ltb now until then err (site circuit_open) else ok tt
]

unfoldable pub sleep_error_backoff : Limiter → List Wait
sleep_error_backoff l =
    if ltb l.base_interval_ms l.current_interval_ms
    then sleep_ms (l.current_interval_ms - l.base_interval_ms) ∷ []
    else []

unfoldable pub acquire : Limiter → ℕ → Result (List Wait)
unfolding ensure_circuit_closed sleep_error_backoff
acquire l now = elim (ensure_circuit_closed l now) [
  | err e ↦ err e
  | ok _ ↦ ok (api_permit ∷ sleep_error_backoff l)
]

append_wait : List Wait → ℕ → List Wait
append_wait [] extra = if ltb 0 extra then sleep_ms extra ∷ [] else []
append_wait (w ∷ ws) extra = w ∷ append_wait ws extra

-- The extra wait is taken out by a swap.
unfoldable pub acquire_download : Limiter → ℕ → Limiter × Result (List Wait)
unfolding ensure_circuit_closed sleep_error_backoff append_wait
acquire_download l now = elim (ensure_circuit_closed l now) [
  | err e ↦ (l, err e)
  | ok _ ↦ (
    record l { extra_download_wait_ms = 0 },
    ok (download_permit ∷ append_wait (sleep_error_backoff l) l.extra_download_wait_ms),
  )
]

abbrev pub clamp : ℕ → ℕ → ℕ → ℕ
clamp lo hi n = if ltb n lo then lo else if ltb hi n then hi else n

unfoldable pub record_extra_wait : Limiter → ℕ → Limiter
record_extra_wait l seconds = record l {
  extra_download_wait_ms = clamp 1 max_download_wait_secs seconds * 1000;
}

abbrev pub circuit_ms : ℕ
circuit_ms = 30 * 60 * 1000

unfoldable pub record_error : Limiter → ℕ → Limiter × Bool
record_error l now =
    let stored : ℕ = (l.consecutive_errors + 1) % u32_mod in
    let new_interval : ℕ = min (l.current_interval_ms * 2 % u64_mod) 60_000 in
    let counted : Limiter = record l {
      consecutive_errors = stored;
      current_interval_ms = new_interval;
    } in
    if leb 5 stored
    then (record counted { circuit_open_until = some (now + circuit_ms) }, true)
    else (counted, false)

unfoldable pub record_success : Limiter → Limiter
record_success l = record l {
  consecutive_errors = 0;
  current_interval_ms = l.base_interval_ms;
  extra_download_wait_ms = 0;
}

-- `skip_while(!digit).take_while(digit)`.
unfoldable pub first_digits : Text → Text
first_digits [] = []
first_digits (c ∷ cs) = elim (is_digit c) [ true ↦ c ∷ digit_run cs | false ↦ first_digits cs ]
  where
    digit_run : Text → Text
    digit_run [] = []
    digit_run (d ∷ ds) = let run = digit_run ds in if is_digit d then d ∷ run else []

unfoldable pub parse_wait_seconds_after : Text → Text → Option ℕ
unfolding first_digits
parse_wait_seconds_after body marker = and_then (after_first marker body) λ rest.
    and_then (parse_usize (first_digits rest))
      λ secs. if ltb 0 secs then some (clamp 1 max_download_wait_secs secs) else none

unfoldable pub first_some : List Text → (Text → Option ℕ) → Option ℕ
first_some [] f = none
first_some (m ∷ ms) f = elim (f m) [ some n ↦ some n | none ↦ first_some ms f ]

unfoldable pub parse_wait_seconds_after_ascii : Text → Option ℕ
unfolding first_some
parse_wait_seconds_after_ascii body =
    first_some
      (codes "please wait" ∷ codes "wait " ∷ codes "retry after" ∷ codes "retry-after" ∷ [])
      (parse_wait_seconds_after (to_ascii_lowercase body))

-- The UTF-8 bytes of 请等待 and 等待, and of 过于频繁, 下载过于频繁 and 访问过于频繁.
abbrev please_wait : Text
please_wait = 0xE8 ∷ 0xAF ∷ 0xB7 ∷ 0xE7 ∷ 0xAD ∷ 0x89 ∷ 0xE5 ∷ 0xBE ∷ 0x85 ∷ []

abbrev wait_marker : Text
wait_marker = 0xE7 ∷ 0xAD ∷ 0x89 ∷ 0xE5 ∷ 0xBE ∷ 0x85 ∷ []

abbrev too_often : Text
too_often = 0xE8 ∷ 0xBF ∷ 0x87 ∷ 0xE4 ∷ 0xBA ∷ 0x8E ∷ 0xE9 ∷ 0xA2 ∷ 0x91 ∷ 0xE7 ∷ 0xB9 ∷ 0x81 ∷ []

abbrev downloads_too_often : Text
downloads_too_often = 0xE4 ∷ 0xB8 ∷ 0x8B ∷ 0xE8 ∷ 0xBD ∷ 0xBD ∷ too_often

abbrev visits_too_often : Text
visits_too_often = 0xE8 ∷ 0xAE ∷ 0xBF ∷ 0xE9 ∷ 0x97 ∷ 0xAE ∷ too_often

unfoldable pub parse_wait_seconds : Text → Option ℕ
unfolding parse_wait_seconds_after parse_wait_seconds_after_ascii
parse_wait_seconds body = elim (parse_wait_seconds_after body please_wait) [
  | some n ↦ some n
  | none ↦ elim (parse_wait_seconds_after body wait_marker) [
    | some n ↦ some n
    | none ↦ parse_wait_seconds_after_ascii body
  ]
]

unfoldable pub is_download_rate_limited : ℕ → Text → Bool
is_download_rate_limited status body =
    let lower = to_ascii_lowercase body in
    if status == 429
    then true
    else contains body too_often
      || contains body downloads_too_often
      || contains body visits_too_often
      || contains body please_wait
      || contains lower (codes "too frequent")
      || contains lower (codes "too many requests")
      || contains lower (codes "rate limit")
      || contains lower (codes "please wait")
