-- ===== src/Headers/Ops.antt =====
-- The header rules of src/headers.rs: `HeaderOp`, `HeaderRules::new` and `apply`.
use hypershunt.Prelude.{
  ◌≡◌, refl, ap, ap₂, ◌∙◌, Bool, false, none, List, [], ◌∷◌, ◌++◌, any, is_empty, if◌then◌else◌,
  arith,
}
use hypershunt.Prelude.Text.{Text}
use hypershunt.Http.{HeaderMaps}
use hypershunt.Headers.Defs.{
  client_ip, username, groups, method, path, query, path_and_query, host, scheme,
  client_cert_subject, client_cert_sans, country, Part, literal, var, custom, header, capture,
  unknown, RequestContext, header_value,
}
use hypershunt.Headers.Render.{render, render_inner, render_part, known_value}
use hypershunt.Headers.Refs.{references_principal, is_principal}

pub data HeaderOp : Type 0 where
  set_header add_header : Text → List Part → HeaderOp
  remove_header : Text → HeaderOp

pub record HeaderRules : Type 0 where
  pub request : List HeaderOp
  pub response : List HeaderOp
  pub needs_principal : Bool

unfoldable pub op_needs_principal : HeaderOp → Bool
unfolding references_principal
op_needs_principal (set_header name template) = references_principal template
op_needs_principal (add_header name template) = references_principal template
op_needs_principal (remove_header name) = false

unfoldable pub new_rules : List HeaderOp → List HeaderOp → HeaderRules
unfolding op_needs_principal
new_rules request response = record {
  request = request;
  response = response;
  needs_principal = any op_needs_principal (request ++ response);
}

module _ (H : HeaderMaps) where
  -- A rendered value is written unless it is empty or no valid header value.
  unfoldable pub write_value : (H.Map → Text → Text → H.Map) → H.Map → Text → Text → H.Map
  write_value write headers name rendered =
      if is_empty rendered
      then headers
      else if H.valid_value rendered
      then write headers name rendered
      else headers

  unfoldable pub apply_op : H.Map → HeaderOp → RequestContext → H.Map
  unfolding write_value render
  apply_op headers (set_header name template) ctx =
      write_value H.insert headers name (render ctx template)
  apply_op headers (add_header name template) ctx =
      write_value H.append headers name (render ctx template)
  apply_op headers (remove_header name) ctx = H.remove headers name

  unfoldable pub apply : H.Map → List HeaderOp → RequestContext → H.Map
  unfolding apply_op
  apply headers [] ctx = headers
  apply headers (op ∷ ops) ctx = apply (apply_op headers op ctx) ops ctx

any-append_false :
    {A : Type 0} (test : A → Bool) (xs ys : List A)
    → any test (xs ++ ys) ≡ false
    → (any test xs ≡ false) × (any test ys ≡ false)
any-append_false test [] ys h = (refl, h)
any-append_false test (x ∷ xs) ys h =
    let (l, r) = any-append_false test xs ys (ground arith) in (ground arith, r)

module _ (ctx : RequestContext) (name joined : Text) where
  -- The same request of another user.
  abbrev pub other_user : RequestContext
  other_user = record ctx { username = name; groups = joined }

  render_part-other_user :
      (p : Part) → is_principal p ≡ false → render_part ctx none p ≡ render_part other_user none p
  unfolding render_part known_value header_value
  render_part-other_user (literal s) h = refl
  render_part-other_user (unknown s) h = refl
  render_part-other_user (capture i fb) h = refl
  render_part-other_user (var client_ip fb) h = refl
  render_part-other_user (var username fb) h = absurd (ground (arith, h))
  render_part-other_user (var groups fb) h = absurd (ground (arith, h))
  render_part-other_user (var method fb) h = refl
  render_part-other_user (var path fb) h = refl
  render_part-other_user (var query fb) h = refl
  render_part-other_user (var path_and_query fb) h = refl
  render_part-other_user (var host fb) h = refl
  render_part-other_user (var scheme fb) h = refl
  render_part-other_user (var client_cert_subject fb) h = refl
  render_part-other_user (var client_cert_sans fb) h = refl
  render_part-other_user (var country fb) h = refl
  render_part-other_user (header n fb) h = refl
  render_part-other_user (custom id fb) h = refl

  render-other_user :
      (parts : List Part)
      → references_principal parts ≡ false
      → render ctx parts ≡ render other_user parts
  unfolding render render_inner references_principal
  render-other_user [] h = refl
  render-other_user (p ∷ parts) h =
      ap₂ ◌++◌ (render_part-other_user p (ground arith)) (render-other_user parts (ground arith))

  module _ (H : HeaderMaps) where
    apply_op-other_user :
        (headers : H.Map) (op : HeaderOp)
        → op_needs_principal op ≡ false
        → apply_op H headers op ctx ≡ apply_op H headers op other_user
    unfolding apply_op op_needs_principal
    apply_op-other_user headers (set_header n t) h =
        ap (write_value H H.insert headers n) (render-other_user t h)
    apply_op-other_user headers (add_header n t) h =
        ap (write_value H H.append headers n) (render-other_user t h)
    apply_op-other_user headers (remove_header n) h = refl

    apply-other_user :
        (headers : H.Map) (ops : List HeaderOp)
        → any op_needs_principal ops ≡ false
        → apply H headers ops ctx ≡ apply H headers ops other_user
    unfolding apply
    apply-other_user headers [] h = refl
    apply-other_user headers (op ∷ ops) h =
        ap (λ hs. apply H hs ops ctx) (apply_op-other_user headers op (ground arith))
        ∙ apply-other_user (apply_op H headers op other_user) ops (ground arith)

    -- Rules that report that they need no principal make the same headers whatever the user's name and
    -- groups are, on a request and on a response, as long as the variables' values are the same.
    pub apply-needs_principal :
        (headers : H.Map) (request response : List HeaderOp)
        → (new_rules request response).needs_principal ≡ false
        → (apply H headers request ctx ≡ apply H headers request other_user)
          × (apply H headers response ctx ≡ apply H headers response other_user)
    unfolding new_rules
    apply-needs_principal headers request response h =
        let (r, s) = any-append_false op_needs_principal request response h in
        (apply-other_user headers request r, apply-other_user headers response s)
