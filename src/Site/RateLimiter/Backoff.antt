-- ===== src/Site/RateLimiter/Backoff.antt =====
-- The backoff and the circuit breaker of crates/core/src/site/rate_limiter.rs.
use pt_reseeder.Base.{
  ℕ, ◌+◌, ◌*◌, ◌≤◌, ◌<◌, ◌≡◌, ◌↔◌, refl, true, false, List, [], ◌∷◌, min, arith, leb, ltb, length,
  ◌∙◌, if◌then◌else◌,
}
use pt_reseeder.Base.Int.{u64_mod}
use pt_reseeder.Error.{ok, err, site, SiteError}
use pt_reseeder.Site.RateLimiter.{
  Limiter, record_error, record_success, acquire, acquire_download, is_circuit_open, circuit_ms,
  u32_mod, sleep_error_backoff, Wait, append_wait, api_permit, download_permit,
  ensure_circuit_closed,
}

-- Errors one after the other, at the given times.
abbrev pub errors : Limiter → List ℕ → Limiter
errors l [] = l
errors l (now ∷ times) = errors (record_error l now).0 times

count-errors :
    (l : Limiter) (times : List ℕ)
    → l.consecutive_errors + length times < u32_mod
    → (errors l times).consecutive_errors ≡ l.consecutive_errors + length times
count-errors l [] h = omega arith
count-errors l (now ∷ times) h =
    ground (arith, count-errors (record_error l now).0 times, count_step)
  where
    count_step : (record_error l now).0.consecutive_errors ≡ l.consecutive_errors + 1
    count_step = unfold record_error in ground arith

trip_flag :
    (l : Limiter) (now : ℕ)
    → l.consecutive_errors + 1 < u32_mod
    → (record_error l now).1 ≡ leb 5 (l.consecutive_errors + 1)
unfolding record_error
trip_flag l now h = ground arith

-- After a success, and errors at any times and of any number below 2^32, the next error trips the
-- breaker exactly when it is the fifth or a later one in the row.
pub trip-errors :
    (l : Limiter) (times : List ℕ) (now : ℕ)
    → length times + 1 < u32_mod
    → ((record_error (errors (record_success l) times) now).1 ≡ true) ↔ (5 ≤ length times + 1)
trip-errors l times now h = ground (
  arith,
  count-errors (record_success l) times,
  trip_flag (errors (record_success l) times) now,
  fresh,
)
  where
    fresh : (record_success l).consecutive_errors ≡ 0
    fresh = unfold record_success in refl

-- An error that trips the breaker closes the API and the downloads for thirty minutes, and no
-- longer: a request at time `t` is refused, and leaves the limiter as it was, when `t` is before their
-- end, and is permitted otherwise.
pub tripped_refuses :
    (l : Limiter) (now t : ℕ)
    → (record_error l now).1 ≡ true
    → let q = (record_error l now).0 in
      (is_circuit_open q t ≡ ltb t (now + circuit_ms))
      × (acquire q t ≡ (
          if ltb t (now + circuit_ms)
          then err (site SiteError.circuit_open)
          else ok (api_permit ∷ sleep_error_backoff q)))
      × (t < now + circuit_ms → acquire_download q t ≡ (q, err (site SiteError.circuit_open)))
      × (now + circuit_ms ≤ t
          → (waits : List Wait) × ((acquire_download q t).1 ≡ ok (download_permit ∷ waits)))
unfolding record_error acquire acquire_download is_circuit_open ensure_circuit_closed
tripped_refuses l now t h = (
  ground arith,
  ground arith,
  λ early. ground arith,
  λ late. (
    append_wait (sleep_error_backoff (record_error l now).0)
        (record_error l now).0.extra_download_wait_ms,
    ground arith,
  ),
)

-- An error doubles the interval up to a minute, and one that does not trip the breaker leaves the
-- circuit as it was.
pub record_error_lem :
    (l : Limiter) (now : ℕ)
    → l.current_interval_ms * 2 < u64_mod
    → let (q, tripped) = record_error l now in
      (q.current_interval_ms ≡ min (2 * l.current_interval_ms) 60_000)
      × (q.base_interval_ms ≡ l.base_interval_ms)
      × (q.extra_download_wait_ms ≡ l.extra_download_wait_ms)
      × (tripped ≡ false → q.circuit_open_until ≡ l.circuit_open_until)
unfolding record_error
record_error_lem l now h = ground arith

interval-errors_le :
    (l : Limiter) (times : List ℕ)
    → l.current_interval_ms ≤ 60_000
    → (errors l times).current_interval_ms ≤ 60_000
interval-errors_le l [] h = h
interval-errors_le l (now ∷ times) h =
    interval-errors_le (record_error l now).0 times (unfold record_error in ground arith)

base-errors :
    (l : Limiter) (times : List ℕ) → (errors l times).base_interval_ms ≡ l.base_interval_ms
base-errors l [] = refl
base-errors l (now ∷ times) =
    base-errors (record_error l now).0 times ∙ (unfold record_error in ground arith)

-- However many errors came before, a success takes the interval back to its base, forgets the
-- errors and the extra wait, and so leaves no backoff to sleep.
pub success-errors :
    (l : Limiter) (times : List ℕ)
    → let q = record_success (errors l times) in
      (q.current_interval_ms ≡ l.base_interval_ms)
      × (q.consecutive_errors ≡ 0)
      × (q.extra_download_wait_ms ≡ 0)
      × (sleep_error_backoff q ≡ [])
unfolding record_success sleep_error_backoff
success-errors l times = ground (arith, base-errors l times)
