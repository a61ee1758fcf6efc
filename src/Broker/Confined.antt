-- ===== src/Broker/Confined.antt =====
-- What the controller's token of Access.antt can reach.
use gpt_trace_extractor_for.Base.{
  ℕ, String, ◌≢◌, ◌≡◌, refl, sym, ◌∙◌, subst, Option, none, some, Bool, true, false, not, ◌&&◌,
  ◌||◌, List, [], ◌∷◌, All, ltb, ◌==◌, string_eq, eq_iff, contains, if◌then◌else◌, arith,
}
use package.text.Mathlib.Text.{starts_with}
use gpt_trace_extractor_for.Exceptions.{Outcome, ok, raised}
use gpt_trace_extractor_for.Json.{Value, Fields, end, field, text, get, get_default, as_object}
use gpt_trace_extractor_for.Broker.Access.{
  Forms, Identity, Action, inspect_attempt, capture_screen, send_input, artifact_stage_begin,
  artifact_stage_chunk, artifact_stage_end, artifact_stage_abort, artifact_export, artifact_import,
  artifact_read, rpc, Operation, on, Answer, respond, perform, is_evaluator, identity, attempt_call,
  admin_call, controller_actions, Request, Access, max_body, route_identity, route, route_fields,
  route_payload, dispatch,
}

abbrev pub template_prefix : String
template_prefix = "template_import_"

-- what the controller is there for: no administration, and no method of the guest that takes templates
abbrev pub IsControllerAction : Forms → Action → Type 0
IsControllerAction f inspect_attempt = Unit
IsControllerAction f capture_screen = Unit
IsControllerAction f send_input = Unit
IsControllerAction f artifact_stage_begin = Unit
IsControllerAction f artifact_stage_chunk = Unit
IsControllerAction f artifact_stage_end = Unit
IsControllerAction f artifact_stage_abort = Unit
IsControllerAction f artifact_export = Unit
IsControllerAction f artifact_import = Unit
IsControllerAction f artifact_read = Unit
IsControllerAction f (rpc method) =
    (s : String) → method ≡ text s → starts_with (f.str (text s)) template_prefix ≡ false
IsControllerAction f _ = ⊥

-- an operation on an attempt that is no evaluator
abbrev pub IsConfined : Forms → Operation → Type 0
IsConfined f (on action i) = IsControllerAction f action × (is_evaluator i ≡ false)
IsConfined f _ = ⊥

found_here :
    (P : String → Type 0) (e : Bool) (x a : String) (rest : Bool)
    → (e ≡ true → x ≡ a)
    → P x
    → (rest ≡ true → P a)
    → (e || rest) ≡ true
    → P a
found_here P true x a rest f p k h = subst P (f refl) p
found_here P false x a rest f p k h = k h

contains-All :
    (P : String → Type 0) (xs : List String) (a : String) → All P xs → contains xs a ≡ true → P a
contains-All P [] a all h = (let bad : ⊥ = ground arith in elim bad [ ])
contains-All P (x ∷ xs) a all h =
    found_here P (x == a) x a (contains xs a) (λ e. (eq_iff x a).0 e) all.0
      (contains-All P xs a all.1) h

same_if :
    (e : Bool) (v x y : Value) (s : String)
    → (if e then v else x) ≡ text s
    → (x ≡ text s → y ≡ text s)
    → (if e then v else y) ≡ text s
same_if true v x y s h k = h
same_if false v x y s h k = k h

get-get_default :
    (fields : Fields) (key s : String) (default : Value)
    → get fields key ≡ text s
    → get_default fields key default ≡ text s
get-get_default end key s default h = (let bad : ⊥ = ground arith in elim bad [ ])
get-get_default (field k v fields) key s default h =
    same_if (k == key) v (get fields key) (get_default fields key default) s h
      (get-get_default fields key s default)

beq_false : (x y : String) → x ≢ y → (x == y) ≡ false
beq_false x y n = ground (arith, eq_iff x y, n)

perform-injective : {a c : Operation} → perform a ≡ perform c → a ≡ c
perform-injective h = cc

not_denied :
    (d : Bool) (n : ℕ) (o : Operation) (a : Answer)
    → (if d then respond n else a) ≡ perform o
    → (d ≡ false) × (a ≡ perform o)
not_denied true n o a h = (let bad : ⊥ = ground arith in elim bad [ ])
not_denied false n o a h = (refl, h)

module _ (b : Access) where
  route_identity-IsConfined :
      (name : String) (fields : Fields) (o : Outcome Identity) (action : Action) (op : Operation)
      → ((i : Identity) → admin_call name fields i ≡ perform (on action i))
      → ((name == "rpc"
              && starts_with (b.forms.str (get_default fields "method" (text ""))) template_prefix)
            ≡ false
          → IsControllerAction b.forms action)
      → route_identity b true name fields o ≡ perform op
      → IsConfined b.forms op
  route_identity-IsConfined name fields (raised e) action op k d h =
      (let bad : ⊥ = ground arith in elim bad [ ])
  route_identity-IsConfined name fields (ok i) action op k d h =
      let n = not_denied _ 403 op (admin_call name fields i) h in
      subst (IsConfined b.forms) (perform-injective (sym (k i) ∙ n.1))
        (d (ground arith), ground arith)

  IsReached : String → Type 0
  IsReached name =
      (fields : Fields) (op : Operation)
      → route b true name fields ≡ perform op
      → IsConfined b.forms op

  rpc-IsReached : IsReached "rpc"
  unfolding IsReached route admin_call attempt_call
  rpc-IsReached fields op h =
      route_identity-IsConfined "rpc" fields (identity b.forms fields) (rpc (get fields "method"))
        op (λ i. refl)
        (λ e s m.
          subst (λ x. starts_with (b.forms.str x) template_prefix ≡ false)
            (get-get_default fields "method" s (text "") m) e)
        h

  simple :
      (name : String) (action : Action) (fields : Fields) (op : Operation)
      → ((i : Identity) → admin_call name fields i ≡ perform (on action i))
      → IsControllerAction b.forms action
      → route_identity b true name fields (identity b.forms fields) ≡ perform op
      → IsConfined b.forms op
  simple name action fields op k c h =
      route_identity-IsConfined name fields (identity b.forms fields) action op k (λ e. c) h

  actions-IsReached : All IsReached controller_actions
  unfolding IsReached route admin_call attempt_call controller_actions
  actions-IsReached = (
    λ fields op. simple "inspect_attempt" inspect_attempt fields op (λ i. refl) tt,
    (
      rpc-IsReached,
      (
        λ fields op. simple "capture_screen" capture_screen fields op (λ i. refl) tt,
        (
          λ fields op. simple "send_input" send_input fields op (λ i. refl) tt,
          (
            λ fields op.
                simple "artifact_stage_begin" artifact_stage_begin fields op (λ i. refl) tt,
            (
              λ fields op.
                  simple "artifact_stage_chunk" artifact_stage_chunk fields op (λ i. refl) tt,
              (
                λ fields op.
                    simple "artifact_stage_end" artifact_stage_end fields op (λ i. refl) tt,
                (
                  λ fields op.
                      simple "artifact_stage_abort" artifact_stage_abort fields op (λ i. refl) tt,
                  (
                    λ fields op. simple "artifact_export" artifact_export fields op (λ i. refl) tt,
                    (
                      λ fields op.
                          simple "artifact_import" artifact_import fields op (λ i. refl) tt,
                      (
                        λ fields op. simple "artifact_read" artifact_read fields op (λ i. refl) tt,
                        tt,
                      ),
                    ),
                  ),
                ),
              ),
            ),
          ),
        ),
      ),
    ),
  )

  payload-IsConfined :
      (name : String) (o : Outcome Value) (op : Operation)
      → IsReached name
      → route_payload b true name o ≡ perform op
      → IsConfined b.forms op
  unfolding IsReached
  payload-IsConfined name (raised e) op k h = (let bad : ⊥ = ground arith in elim bad [ ])
  payload-IsConfined name (ok v) op k h = fields-IsConfined (as_object v) h
    where
      fields-IsConfined :
          (o : Option Fields) → route_fields b true name o ≡ perform op → IsConfined b.forms op
      fields-IsConfined none h = (let bad : ⊥ = ground arith in elim bad [ ])
      fields-IsConfined (some fields) h = k fields op h

  limited-IsConfined :
      (admin controller contained big : Bool) (name : String) (o : Outcome Value) (op : Operation)
      → admin ≡ false
      → (contained ≡ true → IsReached name)
      → (if not admin && not controller
          then respond 401
          else if (controller && not admin) && not contained
          then respond 403
          else if big
          then respond 409
          else route_payload b (controller && not admin) name o)
        ≡ perform op
      → (controller ≡ true) × IsConfined b.forms op
  limited-IsConfined true controller contained big name o op a k h =
      (let bad : ⊥ = ground arith in elim bad [ ])
  limited-IsConfined false false contained big name o op a k h =
      (let bad : ⊥ = ground arith in elim bad [ ])
  limited-IsConfined false true false big name o op a k h =
      (let bad : ⊥ = ground arith in elim bad [ ])
  limited-IsConfined false true true true name o op a k h =
      (let bad : ⊥ = ground arith in elim bad [ ])
  limited-IsConfined false true true false name o op a k h =
      (refl, payload-IsConfined name o op (k refl) h)

  -- A request without the administrator's token that makes the broker do something has the
  -- controller's, and what is done is one of the controller's actions, on an attempt that is no
  -- evaluator, and no method of the guest that takes templates.
  pub controller-IsConfined :
      (r : Request) (op : Operation)
      → r.authorization ≢ b.admin_bearer
      → dispatch b r ≡ perform op
      → (r.authorization ≡ b.controller_bearer) × IsConfined b.forms op
  unfolding dispatch
  controller-IsConfined r op a h =
      let done =
        limited-IsConfined (r.authorization == b.admin_bearer)
          (r.authorization == b.controller_bearer) (contains controller_actions r.action)
          (ltb max_body r.body_bytes) r.action r.payload op
          (beq_false r.authorization b.admin_bearer a)
          (contains-All IsReached controller_actions r.action actions-IsReached) h in
      ((eq_iff r.authorization b.controller_bearer).0 done.0, done.1)
