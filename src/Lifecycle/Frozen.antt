-- ===== src/Lifecycle/Frozen.antt =====
-- What `validate_frozen` of superbench/lifecycle.py has checked when it returns, and the record that
-- `execute_active` starts a run with.
use gpt_trace_extractor_for.Base.{
  All, String, ◌≡◌, refl, ap, subst, not, Option, none, some, true, false, List, [], ◌∷◌, arith,
  if◌then◌else◌, eq_iff, string_eq,
}
use gpt_trace_extractor_for.Exceptions.{Outcome, ok, raised, recovery_incomplete, ◌>>◌}
use gpt_trace_extractor_for.RunControl.{PlannedTask, ActiveRun, selected_ids}
use gpt_trace_extractor_for.RunControl.Store.{RunFile}
use gpt_trace_extractor_for.RunControl.Progress.{IsConsistent}
use gpt_trace_extractor_for.Lifecycle.Active.{may_start}
use gpt_trace_extractor_for.Lifecycle.{
  Surroundings, settings_agree, planned_task, is_same_task, is_frozen, check_frozen,
  validate_frozen,
}

same_task-eq : (a b : PlannedTask) → is_same_task a b ≡ true → a ≡ b
unfolding is_same_task
same_task-eq a b h = ground (
  arith,
  eq_iff a.run_task_id b.run_task_id,
  eq_iff a.logical_task_id b.logical_task_id,
  eq_iff a.adapter_id b.adapter_id,
  eq_iff a.adapter_version b.adapter_version,
  eq_iff a.task_spec_fingerprint b.task_spec_fingerprint,
  eq_iff a.task_contract_fingerprint b.task_contract_fingerprint,
)

-- the current plan has the task as it was frozen
abbrev pub IsPlanned : List PlannedTask → PlannedTask → Type 0
IsPlanned current task = planned_task current task.run_task_id ≡ some task

found-IsPlanned :
    (found : Option PlannedTask) (task : PlannedTask)
    → (elim found [ none ↦ false | some other ↦ is_same_task other task ]) ≡ true
    → found ≡ some task
found-IsPlanned none task h = cc
found-IsPlanned (some other) task h = ap some (same_task-eq other task h)

frozen-IsPlanned :
    (current : List PlannedTask) (task : PlannedTask)
    → is_frozen current task ≡ true
    → IsPlanned current task
unfolding is_frozen
frozen-IsPlanned current task h = found-IsPlanned (planned_task current task.run_task_id) task h

check_frozen-IsPlanned :
    (current tasks : List PlannedTask)
    → check_frozen current tasks ≡ ok tt
    → All (IsPlanned current) tasks
unfolding check_frozen
check_frozen-IsPlanned current [] h = tt
check_frozen-IsPlanned current (task ∷ tasks) h = (
  frozen-IsPlanned current task (ground arith),
  check_frozen-IsPlanned current tasks (ground arith),
)

-- what the settings and the plan have to do with the frozen run
pub record IsUnchanged (w : Surroundings) (state : ActiveRun) (campaign_id : String)
    (current : List PlannedTask) : Type 0 where
  pub same_campaign : campaign_id ≡ state.campaign_id
  pub same_model : w.expected_model ≡ state.expected_model
  pub same_configuration : w.configuration_fingerprint ≡ state.configuration_fingerprint
  pub same_tasks : All (IsPlanned current) state.selected_tasks

abbrev planned_result :
    Surroundings → ActiveRun → Outcome (String × List PlannedTask) → Outcome (List String)
planned_result w state planned = elim planned [
  | raised e ↦ raised e
  | ok (campaign_id, current) ↦
      if not (settings_agree w campaign_id state)
      then raised (recovery_incomplete "active-run campaign/model/config drift")
      else check_frozen current state.selected_tasks >> ok (selected_ids state)
]

checked_parts :
    (w : Surroundings) (state : ActiveRun) (campaign_id : String) (current : List PlannedTask)
    (ids : List String) (check : Outcome (Unit {0}))
    → check_frozen current state.selected_tasks ≡ check
    → (if not (settings_agree w campaign_id state)
        then raised (recovery_incomplete "active-run campaign/model/config drift")
        else check >> ok (selected_ids state))
      ≡ ok ids
    → (ids ≡ selected_ids state) × IsUnchanged w state campaign_id current
checked_parts w state campaign_id current ids (raised e) c h = ground arith
checked_parts w state campaign_id current ids (ok u) c h = (
  ground arith,
  record {
    same_campaign = ground (arith, eq_iff campaign_id state.campaign_id);
    same_model = ground (arith, eq_iff w.expected_model state.expected_model);
    same_configuration =
        ground (arith, eq_iff w.configuration_fingerprint state.configuration_fingerprint);
    same_tasks = check_frozen-IsPlanned current state.selected_tasks c;
  },
)

-- When the plan for the adapters of the frozen tasks is made and `validate_frozen` returns, it
-- returns the ids of the frozen tasks, campaign, model and configuration are those of the run, and
-- the plan has each frozen task under its id with the same contract.
pub validate_frozen_sound :
    (w : Surroundings) (state : ActiveRun) (campaign_id : String) (current : List PlannedTask)
    (ids : List String)
    → w.plan state.selected_tasks ≡ ok (campaign_id, current)
    → validate_frozen w state ≡ ok ids
    → (ids ≡ selected_ids state) × IsUnchanged w state campaign_id current
unfolding validate_frozen
validate_frozen_sound w state campaign_id current ids p h =
    checked_parts w state campaign_id current ids (check_frozen current state.selected_tasks) refl
      (subst (λ o. planned_result w state o ≡ ok ids) p h)

-- The record that `execute_active` creates for a new run is consistent: nothing is finished, and
-- there is no current task.
pub may_start-IsConsistent :
    (w : Surroundings) (file : RunFile) (state : ActiveRun)
    → may_start w file ≡ ok state
    → IsConsistent state
unfolding may_start
may_start-IsConsistent w file state h = ground arith
