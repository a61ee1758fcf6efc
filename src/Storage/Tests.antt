-- ===== src/Storage/Tests.antt =====
-- Calls on a small runs table, and the theorems at them.
use gpt_trace_extractor_for.Base.{◌≡◌, refl, inl, none, some, Bool, true, List, [], ◌∷◌, arith}
use gpt_trace_extractor_for.Json.{Value, null, array, nil, object, end, text, field}
use gpt_trace_extractor_for.Storage.{
  Run, running, completed, get_run, done, run_conflict, Caller, StartRequest, Completion,
}
use gpt_trace_extractor_for.Storage.Start.{start_run}
use gpt_trace_extractor_for.Storage.Complete.{
  complete_run, completion_decision, validated_evaluation,
}
use gpt_trace_extractor_for.Storage.Rows.{Call, starts, sets_conversation, completes, fails, serve}
use gpt_trace_extractor_for.Storage.Guarantees.{
  IsExclusive, IsUnshared, Follows, serve-Follows, serve_all, serve_all_sound, completed_immutable,
}
use gpt_trace_extractor_for.Storage.Stale.{stale_refused}
use gpt_trace_extractor_for.Storage.Retries.{complete_again}

abbrev all_same : Value → Value → Bool
all_same u v = true

abbrev keep_value : Value → Value
keep_value v = v

abbrev caller : Caller
caller = record { task_id = "t"; attempt = 1; runner_id = "r" }

abbrev request : StartRequest
request = record {
  caller = caller;
  logical_task_id = none;
  task_fingerprint = "f";
  app_provenance = array nil;
  dataset_metadata = none;
}

abbrev completion : Completion
completion = record {
  caller = caller;
  conversation_id = "c";
  messages = array nil;
  runtime_metadata = object end;
  evaluation = some (object (field "verdict" (text "pass") end));
}

abbrev started : Run
started = record {
  task_id = "t";
  logical_task_id = "t";
  status = running;
  runner_id = some "r";
  task_fingerprint = some "f";
  attempt = 1;
  conversation_id = none;
  messages = none;
  runtime_metadata = none;
  app_provenance = some (array nil);
  dataset_metadata = object end;
  evaluation = none;
  error_type = none;
  error_message = none;
  started_at = some 7;
  completed_at = none;
}

abbrev finished : Run
finished = record started {
  status = completed;
  conversation_id = some "c";
  messages = some (array nil);
  runtime_metadata = some (object end);
  evaluation = some (
      object (
        field "verdict" (text "pass")
          (field "score" null (field "details" (object end) (field "metadata" (object end) end)))));
  completed_at = some 9;
}

starting : start_run all_same request 7 [] ≡ (done started, started ∷ [])
unfolding start_run
starting = refl

completing :
    complete_run all_same keep_value completion 9 (started ∷ []) ≡ (done finished, finished ∷ [])
unfolding complete_run completion_decision validated_evaluation
completing = refl

empty-IsExclusive : IsExclusive []
unfolding get_run
empty-IsExclusive = record { one_running = λ i j a b p q u v. ground arith }

empty-IsUnshared : IsUnshared []
unfolding get_run
empty-IsUnshared = record { one_owner = λ i j c a b p q u v. ground arith }

abbrev life : List Call
life = starts request 7 ∷ sets_conversation caller "c" ∷ completes completion 9 ∷ []

serve-Follows_example :
    Follows started
      (get_run "t" (serve all_same keep_value (completes completion 9) (started ∷ [])).1)
unfolding get_run
serve-Follows_example =
    serve-Follows all_same keep_value (completes completion 9) (started ∷ []) "t" started refl

serve_all_sound_example :
    IsExclusive (serve_all all_same keep_value life [])
    × IsUnshared (serve_all all_same keep_value life [])
serve_all_sound_example =
    serve_all_sound all_same keep_value life [] empty-IsExclusive empty-IsUnshared

completed_immutable_example :
    get_run "t"
      (serve_all all_same keep_value (fails caller "e" "m" ∷ starts request 8 ∷ []) (finished ∷ []))
    ≡ some finished
unfolding get_run
completed_immutable_example =
    completed_immutable all_same keep_value (fails caller "e" "m" ∷ starts request 8 ∷ [])
      (finished ∷ []) "t" finished refl refl

abbrev stale_caller : Caller
stale_caller = record caller { attempt = 2 }

stale_refused_example :
    serve all_same keep_value (fails stale_caller "e" "m") (finished ∷ [])
    ≡ (run_conflict "stale mutation", finished ∷ [])
unfolding get_run
stale_refused_example =
    stale_refused all_same keep_value (fails stale_caller "e" "m") stale_caller (finished ∷ [])
      finished refl refl (inl (omega arith))

complete_again_example :
    complete_run all_same keep_value completion 12 (finished ∷ []) ≡ (done finished, finished ∷ [])
complete_again_example =
    complete_again all_same keep_value completion 9 12 (started ∷ []) (finished ∷ []) finished
      (λ v. refl) completing
