-- ===== src/RunControl/Atomic.antt =====
-- What the methods of `RunControlStore` of superbench/run_control.py write to the file.
use gpt_trace_extractor_for.Base.{
  ◌≡◌, refl, sym, ◌∙◌, ◌⊎◌, inl, inr, Bool, true, false, arith, string_eq, nat_beq, Bool-cases,
}
use gpt_trace_extractor_for.Exceptions.{Outcome, ok, raised}
use gpt_trace_extractor_for.RunControl.{ActiveRun, is_completed}
use gpt_trace_extractor_for.RunControl.Store.{
  RunFile, absent, unreadable, holds, Write, written, not_written, not_synced, Operation, creates,
  defers_rate_limit, requests_pause, pauses_if_requested, begins_resume, confirms_running,
  starts_task, finishes_task, intervenes, pauses_on_error, completes, seconds, invalid, body,
  body_transitions, mutate, write_file, write_result, create, defer_rate_limit,
}

-- A property of the file that the transition keeps is kept by `mutate`.
pub mutate_keeps {ℓ} :
    (w : Write) (P : RunFile → Type ℓ) (fn : ActiveRun → Outcome ActiveRun)
    → ((a b : ActiveRun) → P (holds a) → fn a ≡ ok b → P (holds b))
    → (file : RunFile) → P file
    → P (mutate w fn file).1
unfolding mutate write_file
mutate_keeps w P fn k absent h = h
mutate_keeps w P fn k unreadable h = h
mutate_keeps w P fn k (holds a) h = elim (Bool-cases (nat_beq a.schema_version 3)) [
  | inr e ↦ rw (e, mutate) h
  | inl e ↦ rw (e, mutate) (left w (fn a) refl)
]
  where
    left : (w : Write) (r : Outcome ActiveRun) → fn a ≡ r → P (write_result w r (holds a)).1
    left written (ok b) e = k a b h e
    left not_written (ok b) e = h
    left not_synced (ok b) e = k a b h e
    left w (raised x) e = h

-- What a method leaves behind, where `full` is the file behind a write that succeeds: the record
-- that it returns, which is then that of `full`, or on an exception the file of before, except that a write that fails behind
-- the replacement leaves `full`.
abbrev pub Commits : Write → RunFile → Outcome ActiveRun → RunFile → RunFile → Type 0
Commits w full (ok state) before after = (after ≡ holds state) × (after ≡ full)
Commits w full (raised e) before after = (after ≡ before) ⊎ ((w ≡ not_synced) × (after ≡ full))

write_result-Commits :
    (w : Write) (r : Outcome ActiveRun) (file : RunFile)
    → Commits w
        (write_result written r file).1
        (write_result w r file).0
        file
        (write_result w r file).1
unfolding write_file
write_result-Commits written (ok s) file = (refl, refl)
write_result-Commits not_written (ok s) file = inl refl
write_result-Commits not_synced (ok s) file = inr (refl, refl)
write_result-Commits w (raised e) file = inl refl

mutate-Commits :
    (w : Write) (fn : ActiveRun → Outcome ActiveRun) (file : RunFile)
    → Commits w (mutate written fn file).1 (mutate w fn file).0 file (mutate w fn file).1
unfolding mutate
mutate-Commits w fn absent = inl refl
mutate-Commits w fn unreadable = inl refl
mutate-Commits w fn (holds a) = elim (Bool-cases (nat_beq a.schema_version 3)) [
  | inr e ↦ rw (e, mutate) (inl refl)
  | inl e ↦ rw (e, mutate) (write_result-Commits w (fn a) (holds a))
]

create-Commits :
    (w : Write) (state : ActiveRun) (file : RunFile)
    → Commits w (create written state file).1 (create w state file).0 file (create w state file).1
unfolding create
create-Commits w state absent = write_result-Commits w (ok state) absent
create-Commits w state unreadable = inl refl
create-Commits w state (holds a) = elim (Bool-cases (nat_beq a.schema_version 3)) [
  | inr e ↦ rw (e, create) (inl refl)
  | inl e ↦ elim (Bool-cases (is_completed a.status)) [
    | inl d ↦ rw (e, d, create) (write_result-Commits w (ok state) (holds a))
    | inr d ↦ rw (e, d, create) (inl refl)
  ]
]

pub body-Commits :
    (w : Write) (op : Operation) (file : RunFile)
    → Commits w (body written op file).1 (body w op file).0 file (body w op file).1
unfolding body defer_rate_limit
body-Commits w (creates state) file = create-Commits w state file
body-Commits w (defers_rate_limit (seconds d) now) file = mutate-Commits w _ file
body-Commits w (defers_rate_limit invalid now) file = inl refl
body-Commits w requests_pause file = mutate-Commits w _ file
body-Commits w pauses_if_requested file = mutate-Commits w _ file
body-Commits w begins_resume file = mutate-Commits w _ file
body-Commits w confirms_running file = mutate-Commits w _ file
body-Commits w (starts_task id) file = mutate-Commits w _ file
body-Commits w (finishes_task id) file = mutate-Commits w _ file
body-Commits w (intervenes r t m) file = mutate-Commits w _ file
body-Commits w (pauses_on_error r t m) file = mutate-Commits w _ file
body-Commits w (completes stored) file = mutate-Commits w _ file

-- Whatever the write does, the file of before stays or that of a successful write is there.
pub body_write :
    (w : Write) (op : Operation) (file : RunFile)
    → ((body w op file).1 ≡ file) ⊎ ((body w op file).1 ≡ (body written op file).1)
body_write w op file = file_left (body w op file).0 (body-Commits w op file)
  where
    file_left :
        (r : Outcome ActiveRun) {full before after : RunFile}
        → Commits w full r before after
        → (after ≡ before) ⊎ (after ≡ full)
    file_left (ok state) c = inr c.1
    file_left (raised e) (inl c) = inl c
    file_left (raised e) (inr c) = inr c.1

-- The identity of a run: what only `create` sets.
pub record IsSameRun (a b : ActiveRun) : Type 0 where
  pub schema_version : a.schema_version ≡ b.schema_version
  pub run_id : a.run_id ≡ b.run_id
  pub campaign_id : a.campaign_id ≡ b.campaign_id
  pub selected_tasks : a.selected_tasks ≡ b.selected_tasks
  pub expected_model : a.expected_model ≡ b.expected_model
  pub configuration_fingerprint : a.configuration_fingerprint ≡ b.configuration_fingerprint

abbrev pub is_create : Operation → Bool
is_create (creates state) = true
is_create requests_pause = false
is_create _ = false

written-IsSameRun :
    (op : Operation) (a b : ActiveRun)
    → is_create op ≡ false
    → (body written op (holds a)).1 ≡ holds b
    → IsSameRun a b
unfolding body_transitions
written-IsSameRun (creates state) a b n h = cc
written-IsSameRun (defers_rate_limit (seconds d) now) a b n h = ground arith
written-IsSameRun (defers_rate_limit invalid now) a b n h = ground arith
written-IsSameRun requests_pause a b n h = ground arith
written-IsSameRun _ a b n h = ground arith

-- No method but `create` changes the identity of the run or its frozen selection, whether its
-- write succeeds or not.
pub body-IsSameRun :
    (w : Write) (op : Operation) (a b : ActiveRun)
    → is_create op ≡ false
    → (body w op (holds a)).1 ≡ holds b
    → IsSameRun a b
body-IsSameRun w op a b n h = elim (body_write w op (holds a)) [
  | inl same ↦ unchanged (sym same ∙ h)
  | inr full ↦ written-IsSameRun op a b n (sym full ∙ h)
]
  where
    unchanged : holds a ≡ holds b → IsSameRun a b
    unchanged e = ground arith
