-- ===== src/Site/RateLimiter/Waits.antt =====
-- The waits that crates/core/src/site/rate_limiter.rs asks for, and where they come from.
use pt_reseeder.Base.{
  ℕ, zero, suc, ◌*◌, ◌≤◌, ◌≡◌, inl, inr, false, Option, none, some, List, [], ◌∷◌, arith, ltb,
  Option-cases, if◌then◌else◌,
}
use pt_reseeder.Base.Text.{Text, codes, after_first, to_ascii_lowercase}
use pt_reseeder.Base.Decimal.{parse_usize}
use pt_reseeder.Error.{ok}
use pt_reseeder.Site.RateLimiter.{
  Limiter, download_permit, sleep_ms, record_extra_wait, acquire_download, is_circuit_open,
  parse_wait_seconds, parse_wait_seconds_after, parse_wait_seconds_after_ascii, clamp, first_some,
  first_digits, please_wait, wait_marker, max_download_wait_secs,
}

-- A wait that a site asks for is slept by the next download, held to between 1 and 30 seconds, and
-- the download after that does not sleep it again; here with no backoff to sleep as well.
pub extra_wait_once :
    (l : Limiter) (seconds now later : ℕ)
    → is_circuit_open l now ≡ false
    → is_circuit_open l later ≡ false
    → l.current_interval_ms ≤ l.base_interval_ms
    → let q = record_extra_wait l seconds in
      let (q', first) = acquire_download q now in
      let (q'', second) = acquire_download q' later in
      (first ≡ ok (download_permit ∷ sleep_ms (clamp 1 30 seconds * 1000) ∷ []))
      × (second ≡ ok (download_permit ∷ []))
      × (q'' ≡ record l { extra_download_wait_ms = 0 })
unfolding is_circuit_open acquire_download record_extra_wait
extra_wait_once l seconds now later closed closed' h = ground arith

abbrev InRange : Option ℕ → Type 0
InRange none = Unit
InRange (some n) = (1 ≤ n) × (n ≤ max_download_wait_secs)

after_range : (body marker : Text) → InRange (parse_wait_seconds_after body marker)
unfolding parse_wait_seconds_after
after_range body marker = elim (Option-cases (after_first marker body)) [
  | inl e ↦ rw e tt
  | inr (rest, e) ↦ rw e (elim (Option-cases (parse_usize (first_digits rest))) [
    | inl e' ↦ rw e' tt
    | inr (secs, e') ↦ rw e' (positive secs)
  ])
]
  where
    positive : (n : ℕ) → InRange (if ltb 0 n then some (clamp 1 max_download_wait_secs n) else none)
    positive zero = tt
    positive (suc n) = ground arith

first_range :
    (ms : List Text) (f : Text → Option ℕ)
    → ((m : Text) → InRange (f m))
    → InRange (first_some ms f)
unfolding first_some
first_range [] f h = tt
first_range (m ∷ ms) f h = elim (Option-cases (f m)) [
  | inl e ↦ rw (e, first_some) (first_range ms f h)
  | inr (n, e) ↦ rw (e, first_some) (rw e at (h m))
]

ascii_range : (body : Text) → InRange (parse_wait_seconds_after_ascii body)
unfolding parse_wait_seconds_after_ascii
ascii_range body =
    first_range
      (codes "please wait" ∷ codes "wait " ∷ codes "retry after" ∷ codes "retry-after" ∷ [])
      (parse_wait_seconds_after (to_ascii_lowercase body))
      (λ m. after_range (to_ascii_lowercase body) m)

parse_wait_range : (body : Text) → InRange (parse_wait_seconds body)
unfolding parse_wait_seconds
parse_wait_range body = elim (Option-cases (parse_wait_seconds_after body please_wait)) [
  | inl e ↦
      rw (e, parse_wait_seconds)
        (elim (Option-cases (parse_wait_seconds_after body wait_marker)) [
          | inl e' ↦ rw e' (ascii_range body)
          | inr (n, e') ↦ rw e' (rw e' at (after_range body wait_marker))
        ])
  | inr (n, e) ↦ rw (e, parse_wait_seconds) (rw e at (after_range body please_wait))
]

-- A wait that is read from any response body, in Chinese or English, is between 1 and 30 seconds.
pub parse_wait_seconds_bounds :
    (body : Text) (n : ℕ)
    → parse_wait_seconds body ≡ some n
    → (1 ≤ n) × (n ≤ max_download_wait_secs)
parse_wait_seconds_bounds body n e = rw e at (parse_wait_range body)
