-- ===== src/Cache/Policy/Serving.antt =====
-- `lookup` of src/cache/policy.rs: what each of its answers means for the entry and for the client.
use hypershunt.Prelude.{
  ℕ, ◌+◌, ◌-◌, sym, subst, ◌∙◌, ◌≤◌, ◌<◌, ◌≡◌, ◌≢◌, ◌⊎◌, inl, inr, refl, true, false, not, ◌&&◌,
  ◌||◌, Option, none, some, arith, Bool-cases, Option-cases,
}
use hypershunt.Prelude.Text.{Text}
use hypershunt.Http.{HeaderMaps}
use hypershunt.Cache.Entry.{
  StoredResponse, as_secs, is_fresh, current_age, remaining_freshness, staleness, add_duration,
  duration_values, has_validators, vary_matches, to_response, not_modified_response,
}
use hypershunt.Cache.Control.{RequestCacheControl}
use hypershunt.Cache.Store.{Lru, CacheStore, store_get}
use hypershunt.Cache.Store.Assoc as Assoc
use hypershunt.Cache.Policy.{
  Lookup, hit, stale_while_revalidate, revalidate, miss, too_old, min_fresh_unmet, accepts_stale,
  within, size, serve_fresh, lookup_stale, lookup_entry, lookup,
}

-- The time that an entry has been in the store.
abbrev pub elapsed : {Map : Type 0} → StoredResponse Map → ℕ → ℕ
elapsed entry now = now - entry.stored_at

-- A fresh entry that no directive of the client excludes.
pub record IsUsable {Map : Type 0} (rcc : RequestCacheControl) (entry : StoredResponse Map)
    (now : ℕ) : Type 0 where
  pub fresh : elapsed entry now < entry.freshness_lifetime
  pub allowed : rcc.no_cache ≡ false
  pub young : (m : ℕ) → rcc.max_age ≡ some m → as_secs (entry.initial_age + elapsed entry now) ≤ m
  pub lasting :
      (m : ℕ) → rcc.min_fresh ≡ some m → m ≤ as_secs (entry.freshness_lifetime - elapsed entry now)

-- A `max-stale` that is there, and accepts a staleness in seconds.
abbrev pub Limited : Option (Option ℕ) → ℕ → Type 0
Limited none secs = ⊥
Limited (some none) secs = Unit
Limited (some (some n)) secs = secs ≤ n

-- A stale entry that the client's `max-stale` accepts.
pub record IsAccepted {Map : Type 0} (rcc : RequestCacheControl) (entry : StoredResponse Map)
    (now : ℕ) : Type 0 where
  pub stale : entry.freshness_lifetime ≤ elapsed entry now
  pub allowed : rcc.no_cache ≡ false
  pub limit : Limited rcc.max_stale (as_secs (elapsed entry now - entry.freshness_lifetime))

module _ {Map : Type 0} (rcc : RequestCacheControl) (entry : StoredResponse Map) (now : ℕ) where
  too_old-false :
      too_old rcc entry now ≡ some false
      → (m : ℕ) → rcc.max_age ≡ some m
      → as_secs (entry.initial_age + elapsed entry now) ≤ m
  unfolding too_old current_age
  too_old-false h m e = ground arith

  usable :
      too_old rcc entry now ≡ some false
      → is_fresh entry now ≡ true
      → rcc.no_cache ≡ false
      → min_fresh_unmet rcc entry now ≡ false
      → IsUsable rcc entry now
  unfolding is_fresh min_fresh_unmet remaining_freshness
  usable old fresh nc mf = record {
    fresh = ground arith;
    allowed = nc;
    young = too_old-false old;
    lasting = λ m e. ground arith;
  }

  accepted :
      is_fresh entry now ≡ false
      → accepts_stale rcc (staleness entry now) ≡ true
      → IsAccepted rcc entry now
  unfolding is_fresh accepts_stale staleness
  accepted fresh h = record {
    stale = ground arith;
    allowed = ground arith;
    limit = elim (Option-cases rcc.max_stale) [
      | inl e ↦ absurd (ground arith)
      | inr (l, e) ↦ elim (Option-cases l) [
        | inl e' ↦ rw (e, e') tt
        | inr (n, e') ↦ rw (e, e') (ground arith)
      ]
    ];
  }

  within_window :
      (window : ℕ)
      → is_fresh entry now ≡ false
      → within (staleness entry now) window ≡ true
      → (entry.freshness_lifetime ≤ elapsed entry now)
        × (elapsed entry now ≤ entry.freshness_lifetime + window)
        × (0 < window)
  unfolding is_fresh staleness
  within_window window fresh h = (ground arith, ground arith, ground arith)

module _ (H : HeaderMaps) (rcc : RequestCacheControl) (req_headers : H.Map) (now : ℕ) where
  -- What an answer says of the entry that the store has and whose variant matches.
  abbrev pub Explained : StoredResponse H.Map → Lookup H.Map → Type 0
  Explained entry (hit r) =
      IsUsable rcc entry now × (serve_fresh H entry req_headers now ≡ some r)
      ⊎ IsAccepted rcc entry now × (to_response H entry now ≡ some r)
  Explained entry (stale_while_revalidate e) =
      (e ≡ entry)
      × (rcc.no_cache ≡ false)
      × (entry.freshness_lifetime ≤ elapsed entry now)
      × (elapsed entry now ≤ entry.freshness_lifetime + entry.swr)
      × (0 < entry.swr)
  Explained entry (revalidate e sie_ok) =
      (e ≡ entry)
      × ((has_validators entry ≡ true) ⊎ (sie_ok ≡ true))
      × (sie_ok ≡ true
          → (entry.freshness_lifetime ≤ elapsed entry now)
            × (elapsed entry now ≤ entry.freshness_lifetime + entry.sie)
            × (0 < entry.sie))
  Explained entry miss = has_validators entry ≡ false

  module _ (lru : Lru (StoredResponse H.Map)) where
    lookup_stale-Explained :
        (s : CacheStore lru.Map) (key : Text) (entry : StoredResponse H.Map) (l : Lookup H.Map)
        (t : CacheStore lru.Map)
        → is_fresh entry now ≡ false
        → lookup_stale H lru s key entry now rcc ≡ some (l, t)
        → Explained entry l
    unfolding lookup_stale
    lookup_stale-Explained s key entry l t fresh h =
        let stale = staleness entry now in
        let refresh = within stale entry.sie in
        let yes = λ (x : Lookup H.Map) (same : x ≡ l) (e : Explained entry x).
          subst (λ y. Explained entry y) same e in
        elim (Bool-cases (accepts_stale rcc stale)) [
          | inl a ↦ elim (Option-cases (to_response H entry now)) [
            | inl n ↦ absurd (ground arith)
            | inr (r, e) ↦ yes (hit r) (ground arith) (inr (accepted rcc entry now fresh a, e))
          ]
          | inr a ↦ elim (Bool-cases (not rcc.no_cache && within stale entry.swr)) [
            | inl b ↦
                let window = within_window rcc entry now entry.swr fresh (ground arith) in
                yes (stale_while_revalidate entry) (ground arith)
                  (refl, ground arith, window.0, window.1, window.2)
            | inr b ↦ elim (Bool-cases (has_validators entry || refresh)) [
              | inl c ↦
                  yes (revalidate entry refresh) (ground arith)
                    (refl, ground arith, within_window rcc entry now entry.sie fresh)
              | inr c ↦ yes miss (ground arith) (ground arith)
            ]
          ]
        ]

    lookup_entry-Explained :
        (s : CacheStore lru.Map) (key : Text) (entry : StoredResponse H.Map) (l : Lookup H.Map)
        (t : CacheStore lru.Map)
        → lookup_entry H lru s key entry req_headers now rcc ≡ some (l, t)
        → Explained entry l
    unfolding lookup_entry
    lookup_entry-Explained s key entry l t h =
        let yes = λ (x : Lookup H.Map) (same : x ≡ l) (e : Explained entry x).
          subst (λ y. Explained entry y) same e in
        elim (Option-cases (too_old rcc entry now)) [
          | inl n ↦ absurd (ground arith)
          | inr (old, o) ↦
              elim (Bool-cases (
                is_fresh entry now
                && not rcc.no_cache
                && not old
                && not (min_fresh_unmet rcc entry now))) [
                  | inl u ↦ elim (Option-cases (serve_fresh H entry req_headers now)) [
                    | inl n ↦ absurd (ground arith)
                    | inr (r, e) ↦
                        let young : too_old rcc entry now ≡ some false = ground arith in
                        yes (hit r) (ground arith) (
                          inl (
                            usable rcc entry now young (ground arith) (ground arith) (ground arith),
                            e,
                          ))
                  ]
                  | inr u ↦ elim (Bool-cases (is_fresh entry now)) [
                    | inl f ↦ elim (Bool-cases (has_validators entry)) [
                      | inl v ↦
                          yes (revalidate entry false) (ground arith)
                            (refl, inl v, λ never. absurd (ground arith))
                      | inr v ↦ yes miss (ground arith) v
                    ]
                    | inr f ↦ lookup_stale-Explained s key entry l t f (ground arith)
                  ]
                ]
        ]

    current_age_total :
        (entry : StoredResponse H.Map)
        → entry.initial_age + elapsed entry now < duration_values
        → current_age entry now ≡ some (entry.initial_age + elapsed entry now)
    unfolding current_age add_duration
    current_age_total entry h = ground arith

    -- With an age that a duration can hold, an entry is served, in full or as a 304, and its age is
    -- compared.
    pub serve_total :
        (entry : StoredResponse H.Map)
        → entry.initial_age + elapsed entry now < duration_values
        → (to_response H entry now ≢ none)
          × (serve_fresh H entry req_headers now ≢ none)
          × (too_old rcc entry now ≢ none)
    unfolding to_response serve_fresh not_modified_response too_old
    serve_total entry h =
        rw (current_age_total entry h)
          ((λ q. ground arith), (λ q. ground arith), (λ q. ground arith))

    lookup_stale_total :
        (s : CacheStore lru.Map) (key : Text) (entry : StoredResponse H.Map)
        → entry.initial_age + elapsed entry now < duration_values
        → lookup_stale H lru s key entry now rcc ≢ none
    unfolding lookup_stale
    lookup_stale_total s key entry h q =
        let served = (serve_total entry h).0 in
        elim (Bool-cases (accepts_stale rcc (staleness entry now))) [
          | inl a ↦ elim (Option-cases (to_response H entry now)) [
            | inl n ↦ served n
            | inr (r, e) ↦ ground arith
          ]
          | inr a ↦ ground arith
        ]

    lookup_entry_total :
        (s : CacheStore lru.Map) (key : Text) (entry : StoredResponse H.Map)
        → entry.initial_age + elapsed entry now < duration_values
        → lookup_entry H lru s key entry req_headers now rcc ≢ none
    unfolding lookup_entry
    lookup_entry_total s key entry h q =
        let served = serve_total entry h in
        let stale = lookup_stale_total s key entry h in
        elim (Option-cases (too_old rcc entry now)) [
          | inl n ↦ served.2 n
          | inr (old, o) ↦ elim (Option-cases (serve_fresh H entry req_headers now)) [
            | inl n ↦ served.1 n
            | inr (r, e) ↦ ground arith
          ]
        ]

    -- What `lookup` may answer, by what the store has under the key.
    abbrev pub Answers : Option (StoredResponse H.Map) → Lookup H.Map → Type 0
    Answers none l = l ≡ miss
    Answers (some entry) l =
        (vary_matches H entry req_headers ≡ false) × (l ≡ miss)
        ⊎ (vary_matches H entry req_headers ≡ true) × Explained entry l

    -- Whatever `lookup` answers is justified by the entry that the store has under the key. It misses
    -- where there is none or its variant differs. It serves an entry only while that is fresh and no
    -- directive of the client (`no-cache`, `max-age`, `min-fresh`) excludes it, or while the client's
    -- `max-stale` accepts its staleness. It serves stale with a refresh only within the entry's
    -- `stale-while-revalidate` window and not against `no-cache`. It asks for revalidation only with a
    -- validator or within the `stale-if-error` window, and allows the fallback on an error only
    -- there. It misses on a matching entry only where that has no validator.
    pub lookup-Answers :
        (s : CacheStore lru.Map) (key : Text) (l : Lookup H.Map) (t : CacheStore lru.Map)
        → lookup H lru s key req_headers now rcc ≡ some (l, t)
        → Answers (Assoc.lookup key (lru.entries s.map)) l
    unfolding lookup store_get
    lookup-Answers s key l t h =
        rw (← lru.get_value s.map key) (elim (Option-cases ((lru.get s.map key).0)) [
          | inl e ↦ rw e (ground arith)
          | inr (entry, e) ↦ rw e (elim (Bool-cases (vary_matches H entry req_headers)) [
            | inl v ↦ inr (
              v,
              lookup_entry-Explained (store_get size lru s key).1 key entry l t (ground arith),
            )
            | inr v ↦ inl (v, ground arith)
          ])
        ])

    -- `lookup` answers, without a panic, whenever the entry under the key has an age that a duration
    -- can hold.
    pub lookup_total :
        (s : CacheStore lru.Map) (key : Text)
        → ((entry : StoredResponse H.Map)
            → Assoc.lookup key (lru.entries s.map) ≡ some entry
            → entry.initial_age + elapsed entry now < duration_values)
        → lookup H lru s key req_headers now rcc ≢ none
    unfolding lookup store_get
    lookup_total s key bounded q = elim (Option-cases ((lru.get s.map key).0)) [
      | inl e ↦ ground arith
      | inr (entry, e) ↦
          let small = bounded entry (sym (lru.get_value s.map key) ∙ e) in
          let found = lookup_entry_total (store_get size lru s key).1 key entry small in
          ground arith
    ]
