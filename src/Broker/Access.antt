-- ===== src/Broker/Access.antt =====
-- `identity` and `dispatch` of apps/workstation-broker/src/workstation_broker/server.py: what a request
-- with one of the two tokens makes the broker do. The forms of ids are regular expressions that the
-- broker is given, and an authorization header is text in ASCII.
use package.text.Mathlib.Text.{starts_with}
use Prim.Native.String.{len, slice}
use gpt_trace_extractor_for.Base.{
  ℕ, String, Option, none, some, Bool, true, false, not, ◌&&◌, ◌||◌, List, [], ◌∷◌, ltb, ◌==◌,
  string_eq, contains, if◌then◌else◌,
}
use gpt_trace_extractor_for.Exceptions.{value_error, Outcome, ok, raised}
use gpt_trace_extractor_for.Json.{
  Value, null, text, int, bool, Fields, get, get_default, as_object, as_text,
}

pub record Forms : Type 0 where
  pub is_safe_id : String → Bool
  pub is_sha256 : String → Bool
  pub is_retry : String → Bool
  -- `str(value)`
  pub str : Value → String

-- `evaluator_retry` is there exactly with `purpose`
pub record Identity : Type 0 where
  pub task_id : String
  pub attempt : ℕ
  pub environment_id : String
  pub fingerprint : String
  pub evaluator_retry : Option String

abbrev has_form : (String → Bool) → Option String → Bool
has_form is none = false
has_form is (some s) = is s

-- `type(value) is int and 1 <= value <= 1000000`
abbrev valid_attempt : Value → Option ℕ
valid_attempt (int n) = if ltb 0 n && ltb n 1000001 then some n else none
valid_attempt null = none
valid_attempt _ = none

abbrev or_empty : Option String → String
or_empty none = ""
or_empty (some s) = s

module _ (f : Forms) where
  -- the retry of an evaluator, where the payload has a purpose
  unfoldable pub read_purpose : Value → Value → Outcome (Option String)
  read_purpose null retry = ok none
  read_purpose purpose retry =
      if has_form (λ s. s == "evaluator") (as_text purpose) && has_form f.is_retry (as_text retry)
      then ok (as_text retry)
      else raised (value_error "invalid isolated evaluator identity")

  abbrev with_retry : String → ℕ → String → String → Outcome (Option String) → Outcome Identity
  with_retry task attempt environment fingerprint (raised e) = raised e
  with_retry task attempt environment fingerprint (ok retry) = ok (record {
    task_id = task;
    attempt = attempt;
    environment_id = environment;
    fingerprint = fingerprint;
    evaluator_retry = retry;
  })

  abbrev with_attempt : Fields → Option ℕ → Outcome Identity
  with_attempt fields none = raised (value_error "invalid attempt")
  with_attempt fields (some n) =
      if not (has_form f.is_sha256 (as_text (get fields "fingerprint")))
      then raised (value_error "invalid fingerprint")
      else with_retry (or_empty (as_text (get fields "task_id"))) n
          (or_empty (as_text (get fields "environment_id")))
          (or_empty (as_text (get fields "fingerprint")))
          (read_purpose (get fields "purpose") (get fields "evaluator_retry"))

  unfoldable pub identity : Fields → Outcome Identity
  identity fields =
      if not (
        has_form f.is_safe_id (as_text (get fields "task_id"))
        && has_form f.is_safe_id (as_text (get fields "environment_id")))
      then raised (value_error "invalid task or environment identity")
      else with_attempt fields (valid_attempt (get fields "attempt"))

-- what the broker does for an attempt or an evaluator
pub data Action : Type 0 where
  create_attempt create_evaluator inspect_evaluators destroy_evaluator abandon_evaluators : Action
  materialize_template_artifact inspect_attempt destroy_attempt abandon_attempt assert_absent :
      Action
  capture_screen send_input artifact_stage_begin artifact_stage_chunk artifact_stage_end : Action
  artifact_stage_abort artifact_export artifact_import artifact_read : Action
  rpc : Value → Action

pub data Operation : Type 0 where
  probe destroy_all preflight_templates : Operation
  on : Action → Identity → Operation
  -- of the evaluator that the teacher attempt has
  on_evaluator : Action → Identity → Operation

-- a status, or the operation whose result or failure is the answer
pub data Answer : Type 0 where
  respond : ℕ → Answer
  perform : Operation → Answer

abbrev pub is_evaluator : Identity → Bool
is_evaluator i = elim i.evaluator_retry [ none ↦ false | some retry ↦ true ]

abbrev is_bool : Value → Bool
is_bool (bool b) = true
is_bool null = false
is_bool _ = false

-- `action.startswith("evaluator_")`, with the operation behind it
unfoldable pub evaluator_call : String → Fields → Identity → Answer
evaluator_call operation fields i =
    if operation == "rpc"
    then perform (on_evaluator (rpc (get fields "method")) i)
    else if operation == "materialize_template_artifact"
    then perform (on_evaluator materialize_template_artifact i)
    else if operation == "artifact_export"
    then perform (on_evaluator artifact_export i)
    else if operation == "artifact_read"
    then perform (on_evaluator artifact_read i)
    else if operation == "artifact_stage_begin"
    then perform (on_evaluator artifact_stage_begin i)
    else if operation == "artifact_stage_chunk"
    then perform (on_evaluator artifact_stage_chunk i)
    else if operation == "artifact_stage_end"
    then perform (on_evaluator artifact_stage_end i)
    else if operation == "artifact_stage_abort"
    then perform (on_evaluator artifact_stage_abort i)
    else if operation == "artifact_import"
    then perform (on_evaluator artifact_import i)
    else respond 409

-- behind the administration of attempts and evaluators
unfoldable pub attempt_call : String → Fields → Identity → Answer
attempt_call action fields i =
    if action == "inspect_attempt"
    then perform (on inspect_attempt i)
    else if action == "destroy_attempt"
    then perform (on destroy_attempt i)
    else if action == "abandon_attempt"
    then perform (on abandon_attempt i)
    else if action == "assert_absent"
    then perform (on assert_absent i)
    else if action == "rpc"
    then perform (on (rpc (get fields "method")) i)
    else if action == "capture_screen"
    then perform (on capture_screen i)
    else if action == "send_input"
    then perform (on send_input i)
    else if action == "artifact_stage_begin"
    then perform (on artifact_stage_begin i)
    else if action == "artifact_stage_chunk"
    then perform (on artifact_stage_chunk i)
    else if action == "artifact_stage_end"
    then perform (on artifact_stage_end i)
    else if action == "artifact_stage_abort"
    then perform (on artifact_stage_abort i)
    else if action == "artifact_export"
    then perform (on artifact_export i)
    else if action == "artifact_import"
    then perform (on artifact_import i)
    else if action == "artifact_read"
    then perform (on artifact_read i)
    else respond 404

unfoldable pub admin_call : String → Fields → Identity → Answer
admin_call action fields i =
    if action == "create_attempt"
    then (if is_evaluator i then respond 409 else perform (on create_attempt i))
    else if action == "create_evaluator"
    then (if is_bool (get_default fields "abandon_stale" (bool false))
        then perform (on create_evaluator i)
        else respond 409)
    else if action == "inspect_evaluators"
    then perform (on inspect_evaluators i)
    else if action == "destroy_evaluator"
    then perform (on destroy_evaluator i)
    else if action == "abandon_evaluators"
    then perform (on abandon_evaluators i)
    else if action == "materialize_template_artifact"
    then perform (on materialize_template_artifact i)
    else if starts_with action "evaluator_"
    then evaluator_call (slice action (len "evaluator_") (len action)) fields i
    else attempt_call action fields i

unfoldable pub controller_actions : List String
controller_actions =
    "inspect_attempt" ∷ "rpc" ∷ "capture_screen" ∷ "send_input" ∷ "artifact_stage_begin"
    ∷ "artifact_stage_chunk" ∷ "artifact_stage_end" ∷ "artifact_stage_abort" ∷ "artifact_export"
    ∷ "artifact_import" ∷ "artifact_read" ∷ []

pub record Request : Type 0 where
  pub authorization : String
  pub action : String
  pub body_bytes : ℕ
  -- `json.loads` of the body
  pub payload : Outcome Value

-- the headers that the two tokens make
pub record Access : Type 0 where
  pub forms : Forms
  pub admin_bearer : String
  pub controller_bearer : String

abbrev pub max_body : ℕ
max_body = 33554432

module _ (b : Access) where
  -- `limited` is a request that has the controller's token only
  abbrev is_trusted_only : Bool → String → Fields → Identity → Bool
  is_trusted_only limited action fields i =
      limited
      && (is_evaluator i
          || (action == "rpc"
              && starts_with (b.forms.str (get_default fields "method" (text "")))
                  "template_import_"))

  abbrev pub route_identity : Bool → String → Fields → Outcome Identity → Answer
  route_identity limited action fields (raised e) = respond 409
  route_identity limited action fields (ok i) =
      if is_trusted_only limited action fields i then respond 403 else admin_call action fields i

  unfoldable pub route : Bool → String → Fields → Answer
  route limited action fields =
      if action == "probe"
      then perform probe
      else if action == "destroy_all"
      then perform destroy_all
      else if action == "preflight_templates"
      then perform preflight_templates
      else route_identity limited action fields (identity b.forms fields)

  abbrev pub route_fields : Bool → String → Option Fields → Answer
  route_fields limited action none = respond 409
  route_fields limited action (some fields) = route limited action fields

  abbrev pub route_payload : Bool → String → Outcome Value → Answer
  route_payload limited action (raised e) = respond 409
  route_payload limited action (ok value) = route_fields limited action (as_object value)

  unfoldable pub dispatch : Request → Answer
  dispatch r =
      let admin : Bool = r.authorization == b.admin_bearer in
      let controller : Bool = r.authorization == b.controller_bearer in
      if not admin && not controller
      then respond 401
      else if (controller && not admin) && not (contains controller_actions r.action)
      then respond 403
      else if ltb max_body r.body_bytes
      then respond 409
      else route_payload (controller && not admin) r.action r.payload
