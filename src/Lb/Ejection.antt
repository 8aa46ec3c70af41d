-- ===== src/Lb/Ejection.antt =====
-- Passive ejection in src/lb.rs: when a failure ejects, for how long, and what a success resets.
use hypershunt.Prelude.{
  ℕ, zero, suc, ◌+◌, ◌-◌, ◌*◌, ◌≤◌, ◌<◌, ◌≡◌, refl, true, false, Option, none, arith, ltb, ◌==◌,
  if◌then◌else◌,
}
use hypershunt.Lb.Defs.{
  Upstream, PassiveHealthConfig, Metrics, is_ejected, ejected_remaining_ms, record_success,
  record_failure, crosses_threshold, eject_until, u32_values, u64_values,
}

-- A failure that crosses the threshold ejects the upstream until exactly the configured seconds
-- later, if that time fits 64 bits.
pub record_failure-is_ejected :
    (passive : PassiveHealthConfig) (now_ms t : ℕ) (u : Upstream) (metrics : Option Metrics)
    → crosses_threshold passive u ≡ true
    → now_ms + passive.eject_for_secs * 1000 < u64_values
    → is_ejected (record_failure passive now_ms u metrics).0 t
      ≡ ltb t (now_ms + passive.eject_for_secs * 1000)
unfolding record_failure is_ejected eject_until
record_failure-is_ejected passive now_ms t u metrics h small = ground arith

-- The failing requests of an upstream, one after the other, each at its own time.
unfoldable pub fail_times : PassiveHealthConfig → (ℕ → ℕ) → ℕ → Upstream → Upstream
unfolding record_failure
fail_times passive time zero u = u
fail_times passive time (suc n) u =
    (record_failure passive (time n) (fail_times passive time n u) none).0

fail_times-below :
    (passive : PassiveHealthConfig) (time : ℕ → ℕ) (n : ℕ) (u : Upstream)
    → n < u32_values
    → n < passive.eject_after
    → ((fail_times passive time n (record_success u)).consecutive_errors ≡ n)
      × ((fail_times passive time n (record_success u)).ejected_until_ms ≡ u.ejected_until_ms)
unfolding fail_times record_success record_failure crosses_threshold
fail_times-below passive time zero u h k = (refl, refl)
fail_times-below passive time (suc n) u h k =
    let (errors, until) = fail_times-below passive time n u (omega arith) (omega arith) in
    (ground arith, ground arith)

-- After a success, n + 1 failures in a row, with n + 1 at most the threshold and below the largest
-- 32-bit number: the first n leave the ejection deadline as it was, and the last one sets it
-- exactly if n + 1 is the threshold.
pub fail_times-threshold :
    (passive : PassiveHealthConfig) (time : ℕ → ℕ) (n : ℕ) (u : Upstream)
    → suc n < u32_values - 1
    → suc n ≤ passive.eject_after
    → ((fail_times passive time n (record_success u)).ejected_until_ms ≡ u.ejected_until_ms)
      × ((fail_times passive time (suc n) (record_success u)).ejected_until_ms ≡ (
          if passive.eject_after == suc n
          then eject_until passive (time n)
          else u.ejected_until_ms))
unfolding fail_times record_failure crosses_threshold
fail_times-threshold passive time n u h k =
    let (errors, until) = fail_times-below passive time n u (omega arith) (omega arith) in
    (until, ground arith)

-- The remaining time that is reported is positive exactly while the upstream is ejected, and once it
-- has passed the upstream no longer is.
pub is_ejected-remaining :
    (u : Upstream) (now_ms : ℕ)
    → (is_ejected u now_ms ≡ ltb 0 (ejected_remaining_ms u now_ms))
      × (is_ejected u (now_ms + ejected_remaining_ms u now_ms) ≡ false)
unfolding is_ejected ejected_remaining_ms
is_ejected-remaining u now_ms = (ground arith, ground arith)
