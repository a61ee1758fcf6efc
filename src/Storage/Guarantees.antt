-- ===== src/Storage/Guarantees.antt =====
-- The table of storage/repository.py as a whole, through any calls.
use gpt_trace_extractor_for.Base.{
  String, ◌≡◌, refl, ◌⊎◌, inl, inr, subst, Option, none, some, Bool, true, false, List, [], ◌∷◌,
  ◌++◌, ◌==◌, string_eq, option_eq, eq_iff, arith, if◌then◌else◌, Bool-cases,
}
use gpt_trace_extractor_for.Json.{Value}
use gpt_trace_extractor_for.Storage.{
  Run, completed, is_running, Table, get_run, put_run, conversation_taken,
}
use gpt_trace_extractor_for.Storage.Rows.{
  task_id-get_run, get_run-append, get_run-put_run, other_running-none, conversation_taken-false,
  Call, call_id, serve,
}
use gpt_trace_extractor_for.Storage.Lifetime.{IsNextRow, Inserts, Updates, serve_cases}

-- what became of the row `a`
abbrev pub Follows : Run → Option Run → Type 0
Follows a none = ⊥
Follows a (some b) = (b ≡ a) ⊎ IsNextRow a b

-- Two rows that are running are the row of one task.
pub record IsExclusive (table : Table) : Type 0 where
  pub one_running :
      (i j : String) (a b : Run)
      → get_run i table ≡ some a
      → get_run j table ≡ some b
      → is_running a.status ≡ true
      → is_running b.status ≡ true
      → i ≡ j

-- Two rows of one conversation are the row of one task.
pub record IsUnshared (table : Table) : Type 0 where
  pub one_owner :
      (i j c : String) (a b : Run)
      → get_run i table ≡ some a
      → get_run j table ≡ some b
      → a.conversation_id ≡ some c
      → b.conversation_id ≡ some c
      → i ≡ j

-- the row of a call's task after `b` was added or written
after_insert :
    (call : Call) (table : Table) (b : Run) (j : String)
    → Inserts call table b
    → get_run j (table ++ b ∷ []) ≡ (if call_id call == j then some b else get_run j table)
after_insert call table b j h = ground (arith, get_run-append j table b)

after_update :
    (call : Call) (table : Table) (b : Run) (j : String)
    → Updates call table b
    → get_run j (put_run b table) ≡ (if call_id call == j then some b else get_run j table)
after_update call table b j (a, found, next, _) =
    ground (arith, get_run-put_run j table b a, task_id-get_run (call_id call) table a)

insert-IsExclusive :
    (call : Call) (table : Table) (b : Run)
    → IsExclusive table
    → Inserts call table b
    → IsExclusive (table ++ b ∷ [])
insert-IsExclusive call table b x h = record {
  one_running = λ i j r s p q u v. ground (
    arith,
    after_insert call table b i h,
    after_insert call table b j h,
    eq_iff (call_id call) i,
    eq_iff (call_id call) j,
    x.one_running i j r s,
    other_running-none (call_id call) i table r h.alone,
    other_running-none (call_id call) j table s h.alone,
  );
}

update-IsExclusive :
    (call : Call) (table : Table) (b : Run)
    → IsExclusive table
    → Updates call table b
    → IsExclusive (put_run b table)
update-IsExclusive call table b x h = record {
  one_running = λ i j r s p q u v. ground (
    arith,
    h,
    after_update call table b i h,
    after_update call table b j h,
    eq_iff (call_id call) i,
    eq_iff (call_id call) j,
    x.one_running i j r s,
    x.one_running (call_id call) j h.0 s,
    x.one_running i (call_id call) r h.0,
    other_running-none (call_id call) i table r,
    other_running-none (call_id call) j table s,
  );
}

insert-IsUnshared :
    (call : Call) (table : Table) (b : Run)
    → IsUnshared table
    → Inserts call table b
    → IsUnshared (table ++ b ∷ [])
insert-IsUnshared call table b x h = record {
  one_owner = λ i j c r s p q u v. ground (
    arith,
    after_insert call table b i h,
    after_insert call table b j h,
    eq_iff (call_id call) i,
    eq_iff (call_id call) j,
    x.one_owner i j c r s,
  );
}

update-IsUnshared :
    (call : Call) (table : Table) (b : Run)
    → IsUnshared table
    → Updates call table b
    → conversation_taken b table ≡ false
    → IsUnshared (put_run b table)
update-IsUnshared call table b x h f = record {
  one_owner = λ i j c r s p q u v. ground (
    arith,
    h,
    after_update call table b i h,
    after_update call table b j h,
    eq_iff (call_id call) i,
    eq_iff (call_id call) j,
    x.one_owner i j c r s,
    task_id-get_run (call_id call) table h.0,
    conversation_taken-false b i c table r f,
    conversation_taken-false b j c table s f,
  );
}

written_row :
    (call : Call) (table : Table) (j : String) (a b : Run)
    → get_run j table ≡ some a
    → (w : Updates call table b) → (call_id call == j) ≡ true
    → w.0 ≡ a
written_row call table j a b h w e = ground (arith, w.1, eq_iff (call_id call) j)

module _ (same : Value → Value → Bool) (to_float : Value → Value) where
  -- No call removes a row, and a call changes a row at most by one step of its life: the task and
  -- its specification stay; a running attempt keeps its number and runner, and runs on, completes
  -- or fails; a failed run goes on as the attempt with the next number; nothing else moves.
  pub serve-Follows :
      (call : Call) (table : Table) (j : String) (a : Run)
      → get_run j table ≡ some a
      → Follows a (get_run j (serve same to_float call table).1)
  serve-Follows call table j a h =
      serve_cases same to_float (λ t. Follows a (get_run j t)) call table (rw h (inl refl))
        (λ b added. rw (after_insert call table b j added) (elim (Bool-cases (call_id call == j)) [
          | inl e ↦ absurd (ground (arith, eq_iff (call_id call) j, added.absent))
          | inr e ↦ rw (e, h) (inl refl)
        ]))
        (λ b wrote _.
          rw (after_update call table b j wrote) (elim (Bool-cases (call_id call == j)) [
            | inl e ↦
                rw e (
                  inr (subst (λ r. IsNextRow r b) (written_row call table j a b h wrote e) wrote.2))
            | inr e ↦ rw (e, h) (inl refl)
          ]))

  -- At every moment at most one task is running.
  pub serve-IsExclusive :
      (call : Call) (table : Table)
      → IsExclusive table
      → IsExclusive (serve same to_float call table).1
  serve-IsExclusive call table x =
      serve_cases same to_float IsExclusive call table x
        (λ b added. insert-IsExclusive call table b x added)
        (λ b wrote _. update-IsExclusive call table b x wrote)

  -- No conversation is recorded for two tasks.
  pub serve-IsUnshared :
      (call : Call) (table : Table)
      → IsUnshared table
      → IsUnshared (serve same to_float call table).1
  serve-IsUnshared call table x =
      serve_cases same to_float IsUnshared call table x
        (λ b added. insert-IsUnshared call table b x added)
        (λ b wrote free. update-IsUnshared call table b x wrote free)

  -- A sequence of calls, one after the other.
  unfoldable pub serve_all : List Call → Table → Table
  serve_all [] table = table
  serve_all (call ∷ calls) table = serve_all calls (serve same to_float call table).1

  completed_stays :
      (call : Call) (table : Table) (j : String) (a : Run)
      → get_run j table ≡ some a
      → a.status ≡ completed
      → get_run j (serve same to_float call table).1 ≡ some a
  completed_stays call table j a h c =
      kept (get_run j (serve same to_float call table).1) refl (serve-Follows call table j a h)
    where
      kept :
          (o : Option Run)
          → get_run j (serve same to_float call table).1 ≡ o
          → Follows a o
          → get_run j (serve same to_float call table).1 ≡ some a
      kept none e f = absurd f
      kept (some b) e (inl p) = rw (e, p)
      kept (some b) e (inr next) = absurd (ground (arith, next.moves))

  -- A completed run is never changed or removed again, whatever calls follow.
  pub completed_immutable :
      (calls : List Call) (table : Table) (j : String) (a : Run)
      → get_run j table ≡ some a
      → a.status ≡ completed
      → get_run j (serve_all calls table) ≡ some a
  unfolding serve_all
  completed_immutable [] table j a h c = h
  completed_immutable (call ∷ calls) table j a h c =
      completed_immutable calls (serve same to_float call table).1 j a
        (completed_stays call table j a h c) c

  -- After any calls at most one task is running and no conversation is recorded for two tasks, if
  -- that was so before.
  pub serve_all_sound :
      (calls : List Call) (table : Table)
      → IsExclusive table
      → IsUnshared table
      → IsExclusive (serve_all calls table) × IsUnshared (serve_all calls table)
  unfolding serve_all
  serve_all_sound [] table x u = (x, u)
  serve_all_sound (call ∷ calls) table x u =
      serve_all_sound calls (serve same to_float call table).1 (serve-IsExclusive call table x)
        (serve-IsUnshared call table u)
