-- ===== src/Tests/Balancing.antt =====
-- src/lb.rs on a pool of two upstreams, the second of weight two and in a group.
use hypershunt.Prelude.{
  ℕ, ◌+◌, ◌*◌, ◌%◌, List, ◌<◌, ◌≡◌, refl, true, false, none, some, [], ◌∷◌, get_or, arith, ◌==◌,
  if◌then◌else◌,
}
use hypershunt.Prelude.Text.{codes, eq_text}
use hypershunt.Net.{v4}
use hypershunt.Lb.{
  Upstream, new_upstream, round_robin, ip_hash, UpstreamPool, new_pool, PickCtx,
  PassiveHealthConfig, is_available, acquire, release, record_success, eject_until, u32_values,
  u64_values, crosses_threshold,
}
use hypershunt.Lb.{
  Clock, Hasher, choose_start, pick_where, pick, is_eligible, eligible_at, ring_at, scan_ring,
}
use hypershunt.Lb.Choice.{Holds}
use hypershunt.Lb.Scan.{scan_ring_complete}
use hypershunt.Lb.Total.{IsRinged, HasRoom}
use hypershunt.Lb.Outcome.{IsServed, whole_pass_pool, pick_sound, pick_total}
use hypershunt.Lb.Group.{pick_group}
use hypershunt.Lb.Ejection.{fail_times, fail_times-threshold}
use hypershunt.Lb.Counters.{
  sum, record_all, IsCounted, record_all-IsCounted, Guarded, Guarded-in_flight,
}
use hypershunt.Lb.Health.{
  ActiveHealthConfig, Probed, probe_run, hysteresis, IsFresh, probe_run-hysteresis,
}

abbrev light : Upstream
light = new_upstream (codes "http://a") 1 none

abbrev heavy : Upstream
heavy = new_upstream (codes "http://b") 2 (some (codes "eu"))

abbrev passive : PassiveHealthConfig
passive = record { eject_after = 2; eject_for_secs = 30 }

abbrev pool : UpstreamPool
pool = new_pool (light ∷ heavy ∷ []) round_robin none passive none

-- A 64-bit hash: each byte is added, and the sum multiplied by the prime of FNV-1.
abbrev hash_bytes : ℕ → List ℕ → ℕ
hash_bytes h [] = h
hash_bytes h (b ∷ bs) = hash_bytes ((h + b) * 1_099_511_628_211 % u64_values) bs

abbrev hasher : Hasher
hasher = record {
  bytes = hash_bytes 14_695_981_039_346_656_037;
  pair = λ a b. hash_bytes 14_695_981_039_346_656_037 (a ∷ b ∷ []);
}

abbrev ctx : PickCtx
ctx = record { peer_ip = none; headers = λ n. none; group = some (codes "eu") }

abbrev client_ctx : PickCtx
client_ctx = record {
  peer_ip = some (v4 3_232_235_777);
  headers = λ n. none;
  group = some (codes "eu");
}

abbrev by_address : UpstreamPool
by_address = new_pool (light ∷ heavy ∷ []) ip_hash none passive none

abbrev clock : Clock
clock = record { now_ms = 1_000; nanos = 0 }

-- The first pick of the group `eu`.
pick_first : (pick hasher pool ctx clock clock).0 ≡ some 1
unfolding pick new_pool new_upstream eq_text is_available
pick_first = refl

by_address-IsRinged : IsRinged by_address
unfolding new_pool
by_address-IsRinged = refl

by_address-HasRoom : HasRoom hasher client_ctx clock by_address
unfolding new_pool new_upstream choose_start
by_address-HasRoom = omega arith

-- The address decides both starts, so the pass over the whole pool has the same room.
whole_pass-HasRoom :
    HasRoom hasher client_ctx clock (whole_pass_pool hasher client_ctx clock clock by_address)
unfolding new_pool new_upstream choose_start pick_where eq_text is_available
whole_pass-HasRoom = omega arith

heavy-Holds : Holds by_address.upstreams (λ u. is_available u clock.now_ms) 1
unfolding is_available new_upstream new_pool
heavy-Holds = (heavy, refl, refl)

heavy-Holds_eu : Holds by_address.upstreams (is_eligible clock.now_ms (some (codes "eu"))) 1
unfolding is_eligible is_available new_upstream new_pool eq_text
heavy-Holds_eu = (heavy, refl, refl)

pick_total_example : (i : ℕ) × ((pick hasher by_address client_ctx clock clock).0 ≡ some i)
pick_total_example =
    pick_total hasher client_ctx clock clock by_address 1 by_address-IsRinged whole_pass-HasRoom
      heavy-Holds

pick_sound_example : IsServed hasher ctx clock clock pool.upstreams 1
pick_sound_example = pick_sound hasher ctx clock clock pool 1 pick_first

pick_group_example :
    (i : ℕ) × ((pick hasher by_address client_ctx clock clock).0 ≡ some i)
    × Holds by_address.upstreams (is_eligible clock.now_ms (some (codes "eu"))) i
pick_group_example =
    pick_group hasher client_ctx clock clock by_address (codes "eu") 1 refl by_address-IsRinged
      by_address-HasRoom heavy-Holds_eu

scan_misses : scan_ring pool.upstreams (λ u. false) (0 ∷ 1 ∷ 1 ∷ []) 7 3 0 ≡ none
unfolding scan_ring new_pool eligible_at ring_at
scan_misses = refl

scan_ring_complete_example :
    eligible_at pool.upstreams (λ u. false) (get_or (0 ∷ 1 ∷ 1 ∷ []) 2 0) ≡ false
scan_ring_complete_example =
    scan_ring_complete pool.upstreams (λ u. false) (0 ∷ 1 ∷ 1 ∷ []) 7 (omega arith) scan_misses 2
      (omega arith)

crossing : crosses_threshold passive (record light { consecutive_errors = 1 }) ≡ true
unfolding crosses_threshold
crossing = refl

fail_times-threshold_example :
    ((fail_times passive (λ n. n) 1 (record_success light)).ejected_until_ms
      ≡ light.ejected_until_ms)
    × ((fail_times passive (λ n. n) 2 (record_success light)).ejected_until_ms
        ≡ (if passive.eject_after == 2 then eject_until passive 1 else light.ejected_until_ms))
fail_times-threshold_example =
    fail_times-threshold passive (λ n. n) 1 light (omega arith) (omega arith)

light-IsCounted : IsCounted light
unfolding new_upstream sum
light-IsCounted = record { buckets = refl; total = refl; errors = omega arith }

requests_few : light.requests_total + 2 < u64_values
unfolding new_upstream
requests_few = omega arith

record_all-IsCounted_example : IsCounted (record_all ((true, 400) ∷ (false, 7_000) ∷ []) light)
record_all-IsCounted_example =
    record_all-IsCounted ((true, 400) ∷ (false, 7_000) ∷ []) light requests_few light-IsCounted

guarded : Guarded (release (acquire (acquire light))) 1
guarded =
    Guarded.dropped (Guarded.acquired (Guarded.acquired (Guarded.fresh (codes "http://a") 1 none)))

Guarded-in_flight_example : (release (acquire (acquire light))).in_flight ≡ 1 % u32_values
Guarded-in_flight_example = Guarded-in_flight guarded

abbrev checks : ActiveHealthConfig
checks = record { interval_secs = 5; unhealthy_after = 2; healthy_after = 1 }

abbrev probed : Probed
probed = record {
  upstream = light;
  state = record { failures = 0; successes = 0 };
  metrics = record {
    proxy_lb_picks = 0;
    proxy_lb_no_upstream = 0;
    proxy_lb_ejections = 0;
    proxy_lb_health_checks_total = 0;
    proxy_lb_health_recoveries = 0;
    proxy_lb_health_failures = 0;
  };
}

probed-IsFresh : IsFresh probed
unfolding new_upstream
probed-IsFresh = record { healthy = refl; failures = refl; successes = refl }

probe_run-hysteresis_example :
    (probe_run checks (false ∷ false ∷ true ∷ []) probed).upstream.healthy
    ≡ hysteresis checks (false ∷ false ∷ true ∷ [])
probe_run-hysteresis_example =
    probe_run-hysteresis checks (false ∷ false ∷ true ∷ []) probed (omega arith) (omega arith)
      probed-IsFresh
