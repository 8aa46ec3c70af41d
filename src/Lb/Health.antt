-- ===== src/Lb/Health.antt =====
-- The active health checks of src/lb.rs: one probe's verdict moves an upstream's streak counters and
-- its `healthy` flag.
use hypershunt.Prelude.{
  ℕ, suc, ◌+◌, ◌-◌, ◌<◌, ◌≡◌, Bool, true, false, not, ◌&&◌, List, [], ◌∷◌, arith, leb,
  if◌then◌else◌, min,
}
use hypershunt.Lb.Defs.{Upstream, Metrics, add64, u32_values}

pub record ActiveHealthConfig : Type 0 where
  pub interval_secs : ℕ
  pub unhealthy_after : ℕ
  pub healthy_after : ℕ

pub record ProbeState : Type 0 where
  pub failures : ℕ
  pub successes : ℕ

-- `saturating_add(1)` on 32 bits.
abbrev pub saturating_suc : ℕ → ℕ
saturating_suc n = min (n + 1) (u32_values - 1)

-- The streaks after a probe.
unfoldable pub next_state : Bool → ProbeState → ProbeState
next_state true s = record { failures = 0; successes = saturating_suc s.successes }
next_state false s = record { failures = saturating_suc s.failures; successes = 0 }

-- Whether a probe's verdict flips the flag, given the streaks after it.
unfoldable pub recovers : ActiveHealthConfig → Bool → Bool → ProbeState → Bool
recovers cfg ok healthy s = ok && (not healthy && leb cfg.healthy_after s.successes)

unfoldable pub sickens : ActiveHealthConfig → Bool → Bool → ProbeState → Bool
sickens cfg ok healthy s = not ok && (healthy && leb cfg.unhealthy_after s.failures)

abbrev count_check : Metrics → Metrics
count_check m = record m { proxy_lb_health_checks_total = add64 m.proxy_lb_health_checks_total 1 }

abbrev count_recovery : Metrics → Metrics
count_recovery m = record m { proxy_lb_health_recoveries = add64 m.proxy_lb_health_recoveries 1 }

abbrev count_sickening : Metrics → Metrics
count_sickening m = record m { proxy_lb_health_failures = add64 m.proxy_lb_health_failures 1 }

-- What the loop holds for one upstream.
pub record Probed : Type 0 where
  pub upstream : Upstream
  pub state : ProbeState
  pub metrics : Metrics

-- The body of the loop for one upstream, after its probe.
unfoldable pub probe_step : ActiveHealthConfig → Bool → Probed → Probed
unfolding next_state recovers sickens
probe_step cfg ok p =
    let state = next_state ok p.state in
    let counted = count_check p.metrics in
    if recovers cfg ok p.upstream.healthy state
    then record {
      upstream = record (p.upstream) { healthy = true };
      state = state;
      metrics = count_recovery counted;
    }
    else if sickens cfg ok p.upstream.healthy state
    then record {
      upstream = record (p.upstream) { healthy = false };
      state = state;
      metrics = count_sickening counted;
    }
    else record { upstream = p.upstream; state = state; metrics = counted }

-- One tick of the loop: every upstream's probe in turn.
unfoldable pub probe_all : ActiveHealthConfig → (Upstream → Bool) → List Probed → List Probed
unfolding probe_step
probe_all cfg probe [] = []
probe_all cfg probe (p ∷ ps) = probe_step cfg (probe p.upstream) p ∷ probe_all cfg probe ps

-- The verdicts of successive ticks on one upstream, the latest first.
unfoldable pub probe_run : ActiveHealthConfig → List Bool → Probed → Probed
unfolding probe_step
probe_run cfg [] p = p
probe_run cfg (ok ∷ oks) p = probe_step cfg ok (probe_run cfg oks p)

-- The length of the latest run of a verdict, and its cap.
unfoldable pub streak : Bool → List Bool → ℕ
streak b [] = 0
streak true (true ∷ oks) = suc (streak true oks)
streak true (false ∷ oks) = 0
streak false (false ∷ oks) = suc (streak false oks)
streak false (true ∷ oks) = 0

-- Before its first tick an upstream is healthy and has no streak.
pub record IsFresh (p : Probed) : Type 0 where
  pub healthy : p.upstream.healthy ≡ true
  pub failures : p.state.failures ≡ 0
  pub successes : p.state.successes ≡ 0

probe_run-streak :
    (cfg : ActiveHealthConfig) (oks : List Bool) (p : Probed)
    → IsFresh p
    → ((probe_run cfg oks p).state.failures ≡ min (streak false oks) (u32_values - 1))
      × ((probe_run cfg oks p).state.successes ≡ min (streak true oks) (u32_values - 1))
unfolding probe_run streak
probe_run-streak cfg [] p h = (omega (arith, h.failures), omega (arith, h.successes))
probe_run-streak cfg (true ∷ oks) p h =
    let (f, s) = probe_run-streak cfg oks p h in (ground arith, ground arith)
probe_run-streak cfg (false ∷ oks) p h =
    let (f, s) = probe_run-streak cfg oks p h in (ground arith, ground arith)

-- The flag with hysteresis, as a machine over the verdicts alone: a healthy upstream turns sick when
-- the latest run of failures is long enough, a sick one recovers when the latest run of successes is.
unfoldable pub hysteresis : ActiveHealthConfig → List Bool → Bool
hysteresis cfg [] = true
hysteresis cfg (ok ∷ oks) =
    if hysteresis cfg oks
    then not (not ok && leb cfg.unhealthy_after (streak false (ok ∷ oks)))
    else ok && leb cfg.healthy_after (streak true (ok ∷ oks))

-- With thresholds that fit 32 bits, an upstream that starts healthy and with no streaks has, after
-- any sequence of verdicts, the flag of the machine with hysteresis.
pub probe_run-hysteresis :
    (cfg : ActiveHealthConfig) (oks : List Bool) (p : Probed)
    → cfg.unhealthy_after < u32_values
    → cfg.healthy_after < u32_values
    → IsFresh p
    → (probe_run cfg oks p).upstream.healthy ≡ hysteresis cfg oks
unfolding probe_run hysteresis streak
probe_run-hysteresis cfg [] p a b h = h.healthy
probe_run-hysteresis cfg (true ∷ oks) p a b h =
    let (f, s) = probe_run-streak cfg oks p h in
    let ih = probe_run-hysteresis cfg oks p a b h in ground arith
probe_run-hysteresis cfg (false ∷ oks) p a b h =
    let (f, s) = probe_run-streak cfg oks p h in
    let ih = probe_run-hysteresis cfg oks p a b h in ground arith
