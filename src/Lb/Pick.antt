-- ===== src/Lb/Pick.antt =====
-- `UpstreamPool::pick` of src/lb.rs with its passes and policies.
use hypershunt.Prelude.{
  ℕ, zero, suc, ◌+◌, ◌-◌, ◌*◌, ◌/◌, ◌%◌, min, Bool, false, ◌&&◌, ◌||◌, Option, none, some, List, [],
  ◌∷◌, length, get_elem?, get_or, any, ltb, ◌==◌, if◌then◌else◌, is_empty,
}
use hypershunt.Prelude.Text.{Text, eq_text}
use hypershunt.Net.{octets, IpAddr, v4, v6, to_ipv4_mapped}
use hypershunt.Lb.Defs.{
  Upstream, is_available, LbPolicy, round_robin, least_conn, random, ip_hash, header_hash, Metrics,
  UpstreamPool, PickCtx, add64, u64_values,
}

-- `u.group.as_deref() == Some(g)`.
unfoldable pub has_group : Text → Upstream → Bool
has_group g u = elim u.group [ none ↦ false | some h ↦ eq_text h g ]

-- The closure `eligible` of a pass.
unfoldable pub is_eligible : ℕ → Option Text → Upstream → Bool
unfolding has_group
is_eligible now_ms none u = is_available u now_ms
is_eligible now_ms (some g) u = is_available u now_ms && has_group g u

-- What a clock shows in a pass: the time, and the nanoseconds of the current second.
pub record Clock : Type 0 where
  pub now_ms : ℕ
  pub nanos : ℕ

-- `DefaultHasher` over a slice of bytes, and over two numbers.
pub record Hasher : Type 0 where
  pub bytes : List ℕ → ℕ
  pub pair : ℕ → ℕ → ℕ

-- A start, or the old value of the counter, which then moves on.
unfoldable pub or_next : Option ℕ → ℕ → ℕ × ℕ
or_next none counter = (counter, add64 counter 1)
or_next (some start) counter = (start, counter)

module _ (hasher : Hasher) where
  unfoldable pub hash_ip : Option IpAddr → Option ℕ
  unfolding octets
  hash_ip none = none
  hash_ip (some (v4 a)) = some (hasher.bytes (octets 4 a))
  hash_ip (some (v6 a)) = elim (to_ipv4_mapped a) [
    | some b ↦ some (hasher.bytes (octets 4 b))
    | none ↦ some (hasher.bytes (octets 16 a))
  ]

  unfoldable pub hash_header : Text → (Text → Option (List ℕ)) → Option ℕ
  hash_header name headers = elim (headers name) [
    | none ↦ none
    | some value ↦ some (hasher.bytes value)
  ]

  -- The header's hash, if the pool names a header and the request has it.
  unfoldable pub header_start : UpstreamPool → PickCtx → Option ℕ
  unfolding hash_header
  header_start pool ctx = elim pool.hash_header [ none ↦ none | some h ↦ hash_header h ctx.headers ]

  -- The starting index, and the counter after it. (`LeastConn` has no start.)
  unfoldable pub choose_start : UpstreamPool → PickCtx → Clock → LbPolicy → ℕ × ℕ
  unfolding or_next hash_ip header_start
  choose_start pool ctx clock round_robin = or_next none pool.rr_counter
  choose_start pool ctx clock random =
      (hasher.pair pool.rr_counter clock.nanos, add64 pool.rr_counter 1)
  choose_start pool ctx clock ip_hash = or_next (hash_ip ctx.peer_ip) pool.rr_counter
  choose_start pool ctx clock header_hash = or_next (header_start pool ctx) pool.rr_counter
  choose_start pool ctx clock least_conn = or_next none pool.rr_counter

-- The test on the upstream with an index. (Out of range the code would panic; `Ring` shows that no
-- index of a ring is.)
unfoldable pub eligible_at : List Upstream → (Upstream → Bool) → ℕ → Bool
eligible_at upstreams eligible i = elim (get_elem? upstreams i) [
  | none ↦ false
  | some u ↦ eligible u
]

-- The index at a position of the ring, counted from a start with wrapping addition.
unfoldable pub ring_at : List ℕ → ℕ → ℕ → ℕ
ring_at ring start offset = get_or ring (add64 start offset % length ring) 0

-- The scan: `rounds` rounds from an offset.
unfoldable pub scan_ring : List Upstream → (Upstream → Bool) → List ℕ → ℕ → ℕ → ℕ → Option ℕ
scan_ring upstreams eligible ring start zero offset = none
scan_ring upstreams eligible ring start (suc rounds) offset =
    let rest = scan_ring upstreams eligible ring start rounds (offset + 1) in
    if eligible_at upstreams eligible (ring_at ring start offset)
    then some (ring_at ring start offset)
    else rest

-- In-flight requests per weight, in thousandths; the product saturates.
unfoldable pub cost : Upstream → ℕ
cost u = min (u.in_flight * 1000) (u64_values - 1) / u.weight

-- Whether a candidate replaces the best so far: a lower cost, or the same at an even salted index.
unfoldable pub takes_over : ℕ → ℕ × ℕ → ℕ → ℕ → Bool
takes_over salt (best, j) c i = ltb c best || (c == best && add64 i salt % 2 == 0)

unfoldable pub better : ℕ → Option (ℕ × ℕ) → ℕ → ℕ → Option (ℕ × ℕ)
unfolding takes_over
better salt none c i = some (c, i)
better salt (some cur) c i = if takes_over salt cur c i then some (c, i) else some cur

-- The loop of `pick_least_conn`; `i` is the counter of `enumerate`.
unfoldable pub least_from :
    ℕ → (Upstream → Bool) → ℕ → Option (ℕ × ℕ) → List Upstream → Option (ℕ × ℕ)
unfolding better cost
least_from salt eligible i best [] = best
least_from salt eligible i best (u ∷ us) =
    least_from salt eligible (i + 1) (if eligible u then better salt best (cost u) i else best) us

unfoldable pub pick_least_conn : UpstreamPool → (Upstream → Bool) → Option ℕ × UpstreamPool
unfolding least_from
pick_least_conn pool eligible = (
  elim (least_from pool.rr_counter eligible 0 none pool.upstreams) [
    | none ↦ none
    | some (c, i) ↦ some i
  ],
  record pool { rr_counter = add64 pool.rr_counter 1 },
)

module _ (hasher : Hasher) where
  unfoldable pub pick_ring :
      UpstreamPool → PickCtx → Clock → (Upstream → Bool) → Option ℕ × UpstreamPool
  unfolding scan_ring choose_start eligible_at ring_at
  pick_ring pool ctx clock eligible =
      let (start, counter) = choose_start hasher pool ctx clock pool.policy in
      if is_empty pool.weighted_ring then (none, pool) else (
        scan_ring pool.upstreams eligible pool.weighted_ring start (length pool.weighted_ring) 0,
        record pool { rr_counter = counter },
      )

  unfoldable pub pick_by :
      LbPolicy → UpstreamPool → PickCtx → Clock → (Upstream → Bool) → Option ℕ × UpstreamPool
  unfolding pick_ring pick_least_conn
  pick_by least_conn pool ctx clock eligible = pick_least_conn pool eligible
  pick_by round_robin pool ctx clock eligible = pick_ring pool ctx clock eligible
  pick_by random pool ctx clock eligible = pick_ring pool ctx clock eligible
  pick_by ip_hash pool ctx clock eligible = pick_ring pool ctx clock eligible
  pick_by header_hash pool ctx clock eligible = pick_ring pool ctx clock eligible

  unfoldable pub pick_where : UpstreamPool → PickCtx → Clock → Option Text → Option ℕ × UpstreamPool
  unfolding pick_by is_eligible
  pick_where pool ctx clock group =
      pick_by pool.policy pool ctx clock (is_eligible clock.now_ms group)

abbrev pub count_pick : Option Metrics → Option Metrics
count_pick none = none
count_pick (some m) = some (record m { proxy_lb_picks = add64 m.proxy_lb_picks 1 })

abbrev pub count_no_upstream : Option Metrics → Option Metrics
count_no_upstream none = none
count_no_upstream (some m) =
    some (record m { proxy_lb_no_upstream = add64 m.proxy_lb_no_upstream 1 })

-- The last lines of `pick`: a failure is counted.
abbrev pub finish_pick : Option ℕ × UpstreamPool → Option ℕ × UpstreamPool
finish_pick (some i, pool) = (some i, pool)
finish_pick (none, pool) = (none, record pool { metrics = count_no_upstream pool.metrics })

module _ (hasher : Hasher) where
  -- The pass over the whole pool.
  unfoldable pub pick_whole : UpstreamPool → PickCtx → Clock → Option ℕ × UpstreamPool
  unfolding pick_where
  pick_whole pool ctx clock = finish_pick (pick_where hasher pool ctx clock none)

  -- The pass over a group, with the whole pool to fall back on.
  abbrev pub or_whole : PickCtx → Clock → Option ℕ × UpstreamPool → Option ℕ × UpstreamPool
  or_whole ctx clock (some i, pool) = (some i, pool)
  or_whole ctx clock (none, pool) = pick_whole pool ctx clock

  -- A group that no upstream declares is passed over.
  unfoldable pub pick_grouped :
      Option Text → UpstreamPool → PickCtx → Clock → Clock → Option ℕ × UpstreamPool
  unfolding pick_where
  pick_grouped none pool ctx first second = pick_whole pool ctx second
  pick_grouped (some g) pool ctx first second =
      if any (has_group g) pool.upstreams
      then or_whole ctx second (pick_where hasher pool ctx first (some g))
      else pick_whole pool ctx second

  -- `first` and `second` are the clock's readings in the two passes.
  unfoldable pub pick : UpstreamPool → PickCtx → Clock → Clock → Option ℕ × UpstreamPool
  unfolding pick_grouped pick_whole
  pick pool ctx first second =
      let counted = record pool { metrics = count_pick pool.metrics } in
      if is_empty pool.upstreams
      then (none, counted)
      else pick_grouped ctx.group counted ctx first second
