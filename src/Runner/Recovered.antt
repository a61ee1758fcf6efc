-- ===== src/Runner/Recovered.antt =====
-- What the recoveries of Recovery.antt keep, from a journal in any phase but one that an attempt is
-- resumed from.
use gpt_trace_extractor_for.Base.{ℕ, String, ◌≡◌, refl, Option, none, some, Bool, true, ◌&&◌}
use native.Mathlib.Omega.{arith}
use gpt_trace_extractor_for.Exec.{Exec}
use gpt_trace_extractor_for.Exec.Keeps.{
  Keeps, keeping, Leads, Leads-Keeps, Leads-if, Keeps-throw, Keeps-if,
}
use gpt_trace_extractor_for.Json.{Value}
use gpt_trace_extractor_for.Journal.{absent, SubmissionJournal, CapturedConversation}
use gpt_trace_extractor_for.Runner.{
  Task, World, StoredRun, RowStatus, Services, clear_journal, clear_capture,
}
use gpt_trace_extractor_for.Runner.Recovery.{
  is_preparing, with_message_id, pend_cleanup, clear_all, reset, reset_or_abandon,
  delete_conversation, finish_recovery, complete_recovery, recover_candidate, reconcile_submitted,
  finish_checkpoint, reconcile_checkpoint, drop_early, reconcile_other, reconcile_open,
  resume_attempt, reconcile_status, reconcile_row, check_entry, abandon_row, abandon_entry,
  abandon_recovery,
}
use gpt_trace_extractor_for.Runner.Phases.{
  IsStable, request-Keeps, write-Keeps, load-Keeps, evaluate_capture-Keeps,
}

and_right : (a b : Bool) → (a && b) ≡ true → b ≡ true
and_right a b h = ground arith

module _ {P : World → Type 0} (st : IsStable P)
    (free : (s : World) → P s → P (record s { journal = absent })) where
  clear_journal-Keeps : Keeps P clear_journal
  unfolding clear_journal
  clear_journal-Keeps = record { keep = λ s p. free s p }

  clear_capture-Keeps : Keeps P clear_capture
  unfolding clear_capture
  clear_capture-Keeps = record { keep = λ s p. st.capture s none p }

  with_message_id-Keeps :
      (o : Option String) (f : String → Exec World (Unit {0}))
      → ((id : String) → Keeps P (f id))
      → Keeps P (with_message_id o f)
  with_message_id-Keeps none f h = Keeps-throw _
  with_message_id-Keeps (some id) f h = Keeps-if _ _ _ (Keeps-throw _) (h id)

  pend_cleanup-Keeps : (e : Option SubmissionJournal) → Keeps P (pend_cleanup e)
  pend_cleanup-Keeps none = Keeps-throw _
  pend_cleanup-Keeps (some e) = write-Keeps st _ refl

  module _ (v : Services) where
    clear_all-Keeps : Keeps P (clear_all v)
    unfolding clear_all
    clear_all-Keeps = search (keeping, clear_journal-Keeps, clear_capture-Keeps)

    reset-Keeps : Keeps P (reset v)
    unfolding reset
    reset-Keeps = search (request-Keeps)

    reset_or_abandon-Keeps : (task : Task) → Keeps P (reset_or_abandon v task)
    unfolding reset_or_abandon
    reset_or_abandon-Keeps task = search (keeping, request-Keeps, reset-Keeps)

    delete_conversation-Keeps : Keeps P (delete_conversation v)
    unfolding delete_conversation
    delete_conversation-Keeps = search (request-Keeps)

    module _ (id : String) (task recovery : Task) (fingerprint : String)
        (environments : Value) where
      finish_recovery-Keeps :
          (identity : String) (n : ℕ) (c : String) (captured : CapturedConversation) (u : String)
          → Keeps P
              (finish_recovery v id task recovery fingerprint environments identity n c captured u)
      unfolding finish_recovery
      finish_recovery-Keeps identity n c captured u =
          search
            (
              keeping, evaluate_capture-Keeps, request-Keeps, write-Keeps,
              delete_conversation-Keeps, reset-Keeps, clear_all-Keeps,
            )
            depth 9

      complete_recovery-Keeps :
          (row : StoredRun) (u : String)
          → Keeps P (complete_recovery v id task recovery fingerprint environments row u)
      unfolding complete_recovery
      complete_recovery-Keeps row u = search (keeping, request-Keeps, finish_recovery-Keeps) depth 9

      recover_candidate-Keeps :
          (entry : SubmissionJournal) (u : String)
          → Keeps P (recover_candidate v id task recovery fingerprint environments entry u)
      unfolding recover_candidate
      recover_candidate-Keeps entry u =
          search (keeping, request-Keeps, write-Keeps, finish_recovery-Keeps) depth 9

      reconcile_submitted-Keeps :
          (entry : SubmissionJournal) (row : Option StoredRun)
          → Keeps P (reconcile_submitted v id task recovery fingerprint environments entry row)
      unfolding reconcile_submitted
      reconcile_submitted-Keeps entry none = Keeps-throw _
      reconcile_submitted-Keeps entry (some row) =
          search (keeping, with_message_id-Keeps, complete_recovery-Keeps, recover_candidate-Keeps)
            depth 9

      finish_checkpoint-Keeps :
          (entry : SubmissionJournal) (captured : CapturedConversation)
          → Keeps P (finish_checkpoint v id task recovery fingerprint environments entry captured)
      unfolding finish_checkpoint
      finish_checkpoint-Keeps entry captured =
          search
            (
              keeping, evaluate_capture-Keeps, request-Keeps, load-Keeps, pend_cleanup-Keeps,
              delete_conversation-Keeps, reset-Keeps, clear_all-Keeps,
            )
            depth 9

      reconcile_checkpoint-Keeps :
          (entry : SubmissionJournal) (row : Option StoredRun)
          → Keeps P (reconcile_checkpoint v id task recovery fingerprint environments entry row)
      unfolding reconcile_checkpoint
      reconcile_checkpoint-Keeps entry row = search (keeping, finish_checkpoint-Keeps)

      drop_early-Keeps :
          (entry : SubmissionJournal) (row : Option StoredRun)
          → Keeps P (drop_early v id task recovery fingerprint environments entry row)
      unfolding drop_early
      drop_early-Keeps entry none = clear_journal-Keeps
      drop_early-Keeps entry (some row) = search (keeping, request-Keeps, clear_journal-Keeps)

      reconcile_other-Keeps :
          (entry : SubmissionJournal) (row : Option StoredRun)
          → Keeps P (reconcile_other v id task recovery fingerprint environments entry row)
      unfolding reconcile_other
      reconcile_other-Keeps entry row = search (
        keeping, reconcile_checkpoint-Keeps, reset-Keeps, drop_early-Keeps,
        reconcile_submitted-Keeps,
      )

    pub check_entry-Keeps :
        (task : Task) (entry : SubmissionJournal) → Keeps P (check_entry v task entry)
    unfolding check_entry
    check_entry-Keeps task entry = search (keeping, request-Keeps) depth 14

    abandon_row-Keeps :
        (task : Task) (entry : SubmissionJournal) (fingerprint : String) (row : Option StoredRun)
        → Keeps P (abandon_row v task entry fingerprint row)
    unfolding abandon_row
    abandon_row-Keeps task entry fingerprint none = Keeps-throw _
    abandon_row-Keeps task entry fingerprint (some row) =
        search (keeping, request-Keeps, reset_or_abandon-Keeps, clear_all-Keeps) depth 9

    abandon_entry-Keeps :
        (task : Task) (entry : Option SubmissionJournal) → Keeps P (abandon_entry v task entry)
    unfolding abandon_entry
    abandon_entry-Keeps task none = Keeps-throw _
    abandon_entry-Keeps task (some entry) =
        search (keeping, request-Keeps, abandon_row-Keeps) depth 14

    pub abandon_recovery-Keeps : (task : Task) → Keeps P (abandon_recovery v task)
    unfolding abandon_recovery
    abandon_recovery-Keeps task = search (keeping, load-Keeps, abandon_entry-Keeps)

    -- an attempt that is resumed may do more
    module _ {R : World → Type 0} (weak : (s : World) → P s → R s) where
      module _ (id : String) (task recovery : Task) (fingerprint : String) (environments : Value)
          (entry : SubmissionJournal) where
        reconcile_open-Leads :
            (row : Option StoredRun)
            → (is_preparing entry.phase ≡ true
                → Leads P R (resume_attempt v id task recovery fingerprint environments entry row))
            → Leads P R (reconcile_open v id task recovery fingerprint environments entry row)
        unfolding reconcile_open
        reconcile_open-Leads row h =
            Leads-if (v.has_runtime_hooks task.task_id && is_preparing entry.phase) _ _
              (λ e. h (and_right _ _ e))
              (Leads-Keeps weak _
                (reconcile_other-Keeps id task recovery fingerprint environments entry row))

        reconcile_status-Leads :
            (row : StoredRun) (status : RowStatus)
            → (is_preparing entry.phase ≡ true
                → Leads P R
                    (resume_attempt v id task recovery fingerprint environments entry (some row)))
            → Leads P R
                (reconcile_status v id task recovery fingerprint environments entry row status)
        unfolding reconcile_status
        reconcile_status-Leads row RowStatus.completed h =
            Leads-Keeps weak _
              (search (keeping, delete_conversation-Keeps, reset-Keeps, clear_all-Keeps))
        reconcile_status-Leads row RowStatus.failed h = search (
          keeping, Leads-if, Leads-Keeps, weak, reset_or_abandon-Keeps, clear_all-Keeps,
          reconcile_open-Leads, h,
        )
        reconcile_status-Leads row RowStatus.running h = reconcile_open-Leads (some row) h
        reconcile_status-Leads row RowStatus.pending h = reconcile_open-Leads (some row) h

        pub reconcile_row-Leads :
            (row : Option StoredRun)
            → (is_preparing entry.phase ≡ true
                → Leads P R (resume_attempt v id task recovery fingerprint environments entry row))
            → Leads P R (reconcile_row v id task recovery fingerprint environments entry row)
        unfolding reconcile_row
        reconcile_row-Leads none h = reconcile_open-Leads none h
        reconcile_row-Leads (some row) h = reconcile_status-Leads row row.status h
