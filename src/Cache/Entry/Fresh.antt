-- ===== src/Cache/Entry/Fresh.antt =====
-- Freshness and the refresh of a stored response, of src/cache/entry.rs.
use hypershunt.Prelude.{
  ℕ, ◌+◌, ◌-◌, ◌<◌, ◌≡◌, ◌≢◌, ◌↔◌, inl, inr, refl, subst, sym, true, Option, none, some, List, [],
  ◌∷◌, if◌then◌else◌, arith, Bool-cases, Option-cases,
}
use hypershunt.Prelude.Text.{Text, eq_text, eq_text_iff, contains_text}
use hypershunt.Http.{
  HeaderMaps, cache_control, date_name, etag_name, expires, last_modified_name, vary_name,
}
use hypershunt.Cache.Entry.Ops.{
  StoredResponse, is_fresh, remaining_freshness, staleness, copy_headers, refreshed,
}

-- An entry is fresh exactly while it has freshness left, and stale by nothing; the lifetime and the
-- staleness together are the elapsed time and what remains.
pub freshness_balance :
    {Map : Type 0} (r : StoredResponse Map) (now : ℕ)
    → (is_fresh r now ≡ true ↔ 0 < remaining_freshness r now)
      × (is_fresh r now ≡ true → staleness r now ≡ 0)
      × (r.freshness_lifetime + staleness r now ≡ now - r.stored_at + remaining_freshness r now)
unfolding is_fresh remaining_freshness staleness
freshness_balance r now =
    (((λ h. ground arith), (λ h. ground arith)), (λ h. ground arith), omega arith)

abbrev pub refreshed_names : List Text
refreshed_names =
    cache_control ∷ date_name ∷ expires ∷ etag_name ∷ last_modified_name ∷ vary_name ∷ []

abbrev pub or_else : Option Text → Option Text → Option Text
or_else none old = old
or_else (some v) old = some v

module _ (H : HeaderMaps) where
  copy_one :
      (from to : H.Map) (n k : Text)
      → H.get (elim (H.get from n) [ none ↦ to | some v ↦ H.insert to n v ]) k
        ≡ (if eq_text n k then or_else (H.get from k) (H.get to k) else H.get to k)
  copy_one from to n k = elim (Bool-cases (eq_text n k)) [
    | inl e ↦
        let same = (eq_text_iff n k).0 e in
        rw e (
          subst
            (λ m.
              H.get (elim (H.get from m) [ none ↦ to | some v ↦ H.insert to m v ]) k
              ≡ or_else (H.get from k) (H.get to k))
            (sym same)
            (elim (Option-cases (H.get from k)) [
              | inl f ↦ rw f refl
              | inr (v, f) ↦ rw f (H.get-insert to k v)
            ]))
    | inr e ↦
        let differs : k ≢ n = λ q. ground (arith, eq_text_iff n k) in
        rw e (elim (Option-cases (H.get from n)) [
          | inl f ↦ rw f refl
          | inr (v, f) ↦ rw f (H.get-insert_ne to n k v differs)
        ])
  ]

  copy_headers-get :
      (from to : H.Map) (names : List Text) (k : Text)
      → H.get (copy_headers H H.insert from to names) k
        ≡ (if contains_text names k then or_else (H.get from k) (H.get to k) else H.get to k)
  unfolding copy_headers contains_text
  copy_headers-get from to [] k = refl
  copy_headers-get from to (n ∷ names) k =
      let one = copy_one from to n k in
      let next = elim (H.get from n) as (λ _. H.Map) [ none ↦ to | some v ↦ H.insert to n v ] in
      let rest = copy_headers-get from next names k in ground arith

  -- A refresh takes each of the six freshness and validator headers from the 304 where that has it,
  -- and leaves every other header, the status, the body and the selecting request headers alone; the
  -- entry then counts as stored at the moment of the refresh.
  pub refreshed-get :
      (r : StoredResponse H.Map) (update : H.Map) (lifetime initial_age now : ℕ) (k : Text)
      → let renewed = refreshed H r update lifetime initial_age now in
        (H.get renewed.headers k ≡ (
          if contains_text refreshed_names k
          then or_else (H.get update k) (H.get r.headers k)
          else H.get r.headers k))
        × (renewed.body ≡ r.body)
        × (renewed.vary ≡ r.vary)
        × (remaining_freshness renewed now ≡ lifetime)
  unfolding refreshed remaining_freshness
  refreshed-get r update lifetime initial_age now k =
      (copy_headers-get update r.headers refreshed_names k, refl, refl, omega arith)
