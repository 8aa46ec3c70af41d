-- ===== src/Vars/Coverage.antt =====
-- What the needs of src/vars.rs name: all references of the templates that they are taken from.
use hypershunt.Prelude.{◌≡◌, subst, true, List, [], ◌∷◌, ◌++◌, All, arith, Bool-cases, inl, inr}
use hypershunt.Prelude.Text.{
  Text, eq_text_iff, contains_text, contains_text-append_left, contains_text-snoc, eq_text,
}
use hypershunt.Headers.{Part}
use hypershunt.Headers.Refs.{TemplateRefs, refs}
use hypershunt.Vars.Needs.{VarNeeds, add_headers, merge, take_refs, take_templates}

add_headers-contains_text :
    (hs ks : List Text) (n : Text)
    → (contains_text hs n ≡ true → contains_text (add_headers hs ks) n ≡ true)
      × (contains_text ks n ≡ true → contains_text (add_headers hs ks) n ≡ true)
unfolding add_headers contains_text
add_headers-contains_text hs [] n = (λ h. h, λ h. absurd (ground arith))
add_headers-contains_text hs (k ∷ ks) n = elim (Bool-cases (contains_text hs k)) [
  | inl c ↦
      let (kept, added) = add_headers-contains_text hs ks n in
      rw c (
        kept,
        λ h. elim (Bool-cases (eq_text k n)) [
          | inl e ↦ kept (subst (λ m. contains_text hs m ≡ true) ((eq_text_iff k n).0 e) c)
          | inr e ↦ added (ground arith)
        ],
      )
  | inr c ↦
      let (kept, added) = add_headers-contains_text (hs ++ k ∷ []) ks n in
      rw c (
        λ h. kept (contains_text-append_left hs (k ∷ []) n h),
        λ h. elim (Bool-cases (eq_text k n)) [
          | inl e ↦ kept (
              subst (λ m. contains_text (hs ++ k ∷ []) m ≡ true) ((eq_text_iff k n).0 e)
                (contains_text-snoc hs k))
          | inr e ↦ added (ground arith)
        ],
      )
]

-- All that the first needs name, the second name too.
pub record Sub (a b : VarNeeds) : Type 0 where
  pub principal : a.principal ≡ true → b.principal ≡ true
  pub geoip : a.geoip ≡ true → b.geoip ≡ true
  pub headers : (n : Text) → contains_text a.headers n ≡ true → contains_text b.headers n ≡ true

pub Sub-refl : (a : VarNeeds) → Sub a a
Sub-refl a = record { principal = λ h. h; geoip = λ h. h; headers = λ n h. h }

pub Sub-trans : {a b c : VarNeeds} → Sub a b → Sub b c → Sub a c
Sub-trans s t = record {
  principal = λ h. t.principal (s.principal h);
  geoip = λ h. t.geoip (s.geoip h);
  headers = λ n h. t.headers n (s.headers n h);
}

pub merge-Sub : (a b : VarNeeds) → Sub a (merge a b) × Sub b (merge a b)
unfolding merge
merge-Sub a b = (
  record {
    principal = ground arith;
    geoip = ground arith;
    headers = λ n h. (add_headers-contains_text a.headers b.headers n).0 h;
  },
  record {
    principal = ground arith;
    geoip = ground arith;
    headers = λ n h. (add_headers-contains_text a.headers b.headers n).1 h;
  },
)

-- The needs name all of a template's references but its variables.
pub record Covers (r : TemplateRefs) (b : VarNeeds) : Type 0 where
  pub principal : r.principal ≡ true → b.principal ≡ true
  pub geoip : r.geoip ≡ true → b.geoip ≡ true
  pub headers : (n : Text) → contains_text r.headers n ≡ true → contains_text b.headers n ≡ true

pub Covers-Sub : {r : TemplateRefs} {a b : VarNeeds} → Covers r a → Sub a b → Covers r b
Covers-Sub s t = record {
  principal = λ h. t.principal (s.principal h);
  geoip = λ h. t.geoip (s.geoip h);
  headers = λ n h. t.headers n (s.headers n h);
}

pub take_refs-Sub :
    (a : VarNeeds) (r : TemplateRefs) → Sub a (take_refs a r) × Covers r (take_refs a r)
unfolding take_refs
take_refs-Sub a r = (
  record {
    principal = ground arith;
    geoip = ground arith;
    headers = λ n h. (add_headers-contains_text a.headers r.headers n).0 h;
  },
  record {
    principal = ground arith;
    geoip = ground arith;
    headers = λ n h. (add_headers-contains_text a.headers r.headers n).1 h;
  },
)

pub take_templates-Covers :
    (nd : VarNeeds) (ts : List (List Part))
    → Sub nd (take_templates nd ts) × All (λ t. Covers (refs t) (take_templates nd ts)) ts
unfolding take_templates
take_templates-Covers nd [] = (Sub-refl nd, tt)
take_templates-Covers nd (t ∷ ts) =
    let (a, b) = take_refs-Sub nd (refs t) in
    let (c, d) = take_templates-Covers (take_refs nd (refs t)) ts in
    (Sub-trans a c, (Covers-Sub b c, d))
