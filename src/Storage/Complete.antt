-- ===== src/Storage/Complete.antt =====
-- `complete_run` and `_validated_evaluation` of storage/repository.py. `same` is Python's `==` on
-- documents and `to_float` is `float` on a number.
use gpt_trace_extractor_for.Base.{
  ℕ, String, Option, none, some, Bool, true, false, not, ◌&&◌, ◌||◌, [], ◌∷◌, ◌==◌, string_eq,
  option_eq, is_subset, if◌then◌else◌,
}
use gpt_trace_extractor_for.Json.{
  Value, Fields, null, int, negative, float, object, field, end, get, get_default, keys, is_object,
  is_null, is_text,
}
use gpt_trace_extractor_for.Storage.{
  Run, running, completed, Table, Decision, conflicts, returns, updates, Reply, Completion,
  is_stale, has_other_conversation, or_empty, on_row,
}

abbrev is_number : Value → Bool
is_number (int n) = true
is_number (negative n) = true
is_number (float s) = true
is_number null = false
is_number _ = false

pub data Validated : Type 0 where
  valid : Option Value → Validated
  refused : String → Validated

module _ (same : Value → Value → Bool) (to_float : Value → Value) where
  abbrev score_value : Value → Value
  score_value null = null
  score_value v = to_float v

  -- the dictionary that `_validated_evaluation` returns
  abbrev normalized : Fields → Value
  normalized fields = object (
      field "verdict" (get fields "verdict") (
        field "score" (score_value (get fields "score")) (
          field "details" (get_default fields "details" (object end))
            (field "metadata" (get_default fields "metadata" (object end)) end))))

  unfoldable pub validated_fields : Fields → Validated
  validated_fields fields =
      if not (is_subset (keys fields) ("verdict" ∷ "score" ∷ "details" ∷ "metadata" ∷ []))
      then refused "evaluation contains unsupported fields"
      else if not (is_text (get fields "verdict") "pass" || is_text (get fields "verdict") "fail")
      then refused "evaluation.verdict must be 'pass' or 'fail'"
      else if not (is_null (get fields "score")) && not (is_number (get fields "score"))
      then refused "evaluation.score must be numeric or null"
      else if not (is_object (get_default fields "details" (object end)))
          || not (is_object (get_default fields "metadata" (object end)))
      then refused "evaluation details/metadata must be objects"
      else valid (some (normalized fields))

  -- `_validated_evaluation`
  unfoldable pub validated_evaluation : Option Value → Validated
  unfolding validated_fields
  validated_evaluation none = valid none
  validated_evaluation (some (object fields)) = validated_fields fields
  validated_evaluation (some null) = valid none
  validated_evaluation (some _) = refused "evaluation must be an object or null"

  abbrev same_option : Option Value → Option Value → Bool
  same_option none none = true
  same_option none (some v) = false
  same_option (some u) none = false
  same_option (some u) (some v) = same u v

  abbrev pub is_none : Option Value → Bool
  is_none none = true
  is_none (some v) = false

  -- the row after a completion at the time `now`
  unfoldable pub completed_run : Completion → Option Value → ℕ → Run → Run
  completed_run c evaluation now run = record run {
    status = completed;
    conversation_id = some c.conversation_id;
    messages = some c.messages;
    runtime_metadata = some c.runtime_metadata;
    evaluation = evaluation;
    error_type = none;
    error_message = none;
    completed_at = some now;
  }

  unfoldable pub completion_decision : Completion → Option Value → ℕ → Run → Decision
  unfolding completed_run has_other_conversation
  completion_decision c evaluation now run = elim run.status [
    | completed ↦
        if not (
          run.conversation_id == some c.conversation_id
          && same_option run.messages (some c.messages)
          && same (or_empty run.runtime_metadata) c.runtime_metadata)
        then conflicts "completed run is immutable"
        else if not (same_option run.evaluation evaluation)
        then conflicts "completed run evaluation differs from immutable label"
        else returns run
    | running ↦
        if has_other_conversation run.conversation_id c.conversation_id
        then conflicts "completion conversation_id differs from running attempt"
        else updates (completed_run c evaluation now run)
    | _ ↦ conflicts "cannot complete"
  ]

  unfoldable pub complete_decision : Completion → ℕ → Run → Decision
  unfolding is_stale
  complete_decision c now run =
      if is_stale run c.caller
      then conflicts "stale mutation"
      else if is_none run.app_provenance
      then conflicts "cannot complete a run without App provenance"
      else elim (validated_evaluation c.evaluation) [
        | refused m ↦ conflicts m
        | valid evaluation ↦ completion_decision c evaluation now run
      ]

  -- `complete_run` at the time `now`
  unfoldable pub complete_run : Completion → ℕ → Table → Reply × Table
  unfolding complete_decision on_row
  complete_run c now table = on_row c.caller.task_id (complete_decision c now) table
