-- ===== src/Lb/Defs.antt =====
-- src/lb.rs: upstreams, pools and the operations on one upstream (with the latency buckets of
-- src/metrics.rs and the configuration types of src/config/mod.rs).
use hypershunt.Prelude.{
  ℕ, suc, ◌+◌, ◌-◌, ◌*◌, ◌%◌, min, Bool, true, not, ◌&&◌, Option, none, some, List, [], ◌∷◌, ◌++◌,
  replicate, get_or, set, ltb, leb, ◌==◌, if◌then◌else◌,
}
use hypershunt.Prelude.Text.{Text, to_ascii_lowercase}
use hypershunt.Net.{IpAddr}

abbrev pub u32_values : ℕ
u32_values = 4_294_967_296

abbrev pub u64_values : ℕ
u64_values = 18_446_744_073_709_551_616

-- Wrapping `fetch_add(1)` on a 64-bit and on a 32-bit atomic.
abbrev pub add64 : ℕ → ℕ → ℕ
add64 a b = (a + b) % u64_values

abbrev pub add32 : ℕ → ℕ → ℕ
add32 a b = (a + b) % u32_values

pub record Upstream : Type 0 where
  pub url : Text
  pub weight : ℕ
  pub group : Option Text
  pub in_flight : ℕ
  pub consecutive_errors : ℕ
  pub ejected_until_ms : ℕ
  pub healthy : Bool
  pub requests_total : ℕ
  pub errors_total : ℕ
  pub latency : List ℕ
  pub latency_sum_us : ℕ
  pub bytes_in_total : ℕ
  pub bytes_out_total : ℕ

abbrev pub latency_buckets : ℕ
latency_buckets = 13

abbrev pub latency_bounds_us : List ℕ
latency_bounds_us =
    500 ∷ 1_000 ∷ 5_000 ∷ 10_000 ∷ 25_000 ∷ 50_000 ∷ 100_000 ∷ 200_000 ∷ 500_000 ∷ 1_000_000
    ∷ 2_500_000 ∷ 10_000_000 ∷ []

-- `iter().position(|b| us < b)`, or the number of bounds.
unfoldable pub position_below : List ℕ → ℕ → ℕ
position_below [] us = 0
position_below (b ∷ bs) us = let rest = position_below bs us in if ltb us b then 0 else suc rest

unfoldable pub latency_bucket_us : ℕ → ℕ
unfolding position_below
latency_bucket_us us = position_below latency_bounds_us us

-- `Upstream::new`.
unfoldable pub new_upstream : Text → ℕ → Option Text → Upstream
new_upstream url weight group = record {
  url = url;
  weight = weight;
  group = group;
  in_flight = 0;
  consecutive_errors = 0;
  ejected_until_ms = 0;
  healthy = true;
  requests_total = 0;
  errors_total = 0;
  latency = replicate latency_buckets 0;
  latency_sum_us = 0;
  bytes_in_total = 0;
  bytes_out_total = 0;
}

-- `self.latency[i].fetch_add(1)`.
unfoldable pub bump_bucket : List ℕ → ℕ → List ℕ
bump_bucket latency i = set latency i (add64 (get_or latency i 0) 1)

unfoldable pub record_request : Upstream → Bool → ℕ → Upstream
unfolding bump_bucket latency_bucket_us
record_request u ok us = record u {
  requests_total = add64 u.requests_total 1;
  errors_total = if ok then u.errors_total else add64 u.errors_total 1;
  latency = bump_bucket u.latency (latency_bucket_us us);
  latency_sum_us = add64 u.latency_sum_us (min us (u64_values - 1));
}

unfoldable pub record_bytes : Upstream → ℕ → ℕ → Upstream
record_bytes u bytes_out bytes_in = record u {
  bytes_out_total = add64 u.bytes_out_total bytes_out;
  bytes_in_total = add64 u.bytes_in_total bytes_in;
}

unfoldable pub is_ejected : Upstream → ℕ → Bool
is_ejected u now_ms = not (u.ejected_until_ms == 0) && ltb now_ms u.ejected_until_ms

unfoldable pub ejected_remaining_ms : Upstream → ℕ → ℕ
ejected_remaining_ms u now_ms =
    if ltb now_ms u.ejected_until_ms then u.ejected_until_ms - now_ms else 0

unfoldable pub is_available : Upstream → ℕ → Bool
unfolding is_ejected
is_available u now_ms = ltb 0 u.weight && (u.healthy && not (is_ejected u now_ms))

-- `in_flight_guard`, and the drop of the guard.
unfoldable pub acquire : Upstream → Upstream
acquire u = record u { in_flight = add32 u.in_flight 1 }

unfoldable pub release : Upstream → Upstream
release u = record u { in_flight = (u.in_flight + u32_values - 1) % u32_values }

pub data LbPolicy : Type 0 where
  round_robin least_conn random ip_hash header_hash : LbPolicy

pub record PassiveHealthConfig : Type 0 where
  pub eject_after : ℕ
  pub eject_for_secs : ℕ

-- The counters of src/metrics.rs that a pool adds to.
pub record Metrics : Type 0 where
  pub proxy_lb_picks : ℕ
  pub proxy_lb_no_upstream : ℕ
  pub proxy_lb_ejections : ℕ
  pub proxy_lb_health_checks_total : ℕ
  pub proxy_lb_health_recoveries : ℕ
  pub proxy_lb_health_failures : ℕ

pub record UpstreamPool : Type 0 where
  pub upstreams : List Upstream
  pub policy : LbPolicy
  pub hash_header : Option Text
  pub weighted_ring : List ℕ
  pub rr_counter : ℕ
  pub passive : PassiveHealthConfig
  pub metrics : Option Metrics

-- The inputs of a pick; `headers` is the header map's `get`, as bytes.
pub record PickCtx : Type 0 where
  pub peer_ip : Option IpAddr
  pub headers : Text → Option (List ℕ)
  pub group : Option Text

-- `upstreams[i]` repeated `weight[i]` times; `idx` is the counter of `enumerate`.
unfoldable pub ring_from : ℕ → List Upstream → List ℕ
ring_from idx [] = []
ring_from idx (u ∷ us) = replicate u.weight idx ++ ring_from (idx + 1) us

-- `UpstreamPool::new`.
unfoldable pub new_pool :
    List Upstream → LbPolicy → Option Text → PassiveHealthConfig → Option Metrics → UpstreamPool
unfolding ring_from
new_pool upstreams policy hash_header passive metrics = record {
  upstreams = upstreams;
  policy = policy;
  hash_header = elim hash_header [ some s ↦ some (to_ascii_lowercase s) | none ↦ none ];
  weighted_ring = ring_from 0 upstreams;
  rr_counter = 0;
  passive = passive;
  metrics = metrics;
}

pub record UpstreamConfig : Type 0 where
  pub url : Text
  pub weight : ℕ
  pub group : Option Text

unfoldable pub build_upstreams : List UpstreamConfig → List Upstream
unfolding new_upstream
build_upstreams [] = []
build_upstreams (c ∷ cs) = new_upstream c.url c.weight c.group ∷ build_upstreams cs

-- `record_success` and `record_failure`, on the failing upstream and the pool's counters.
unfoldable pub record_success : Upstream → Upstream
record_success u = record u { consecutive_errors = 0 }

-- The ejection's deadline: a saturating sum, of a product that wraps.
unfoldable pub eject_until : PassiveHealthConfig → ℕ → ℕ
eject_until passive now_ms =
    min (now_ms + (passive.eject_for_secs * 1000) % u64_values) (u64_values - 1)

unfoldable pub crosses_threshold : PassiveHealthConfig → Upstream → Bool
crosses_threshold passive u =
    not (passive.eject_after == u32_values - 1)
    && leb passive.eject_after (add32 u.consecutive_errors 1)

abbrev pub count_ejection : Option Metrics → Option Metrics
count_ejection none = none
count_ejection (some m) = some (record m { proxy_lb_ejections = add64 m.proxy_lb_ejections 1 })

unfoldable pub record_failure :
    PassiveHealthConfig → ℕ → Upstream → Option Metrics → Upstream × Option Metrics
unfolding eject_until crosses_threshold
record_failure passive now_ms u metrics =
    let counted = record u { consecutive_errors = add32 u.consecutive_errors 1 } in
    if crosses_threshold passive u
    then (record counted { ejected_until_ms = eject_until passive now_ms }, count_ejection metrics)
    else (counted, metrics)
