-- ===== src/Conversation/Paced.antt =====
-- When `delete` of conversation.py asks again.
use gpt_trace_extractor_for.Base.{
  ℕ, zero, suc, ◌+◌, ◌*◌, ◌≤◌, ◌&&◌, String, Option, none, some, Option-cases, Bool, true, false,
  List, [], ◌∷◌, arith, nat_beq, if◌then◌else◌,
}
use gpt_trace_extractor_for.Exceptions.{Outcome, ok, raised, retry_delay}
use gpt_trace_extractor_for.Conversation.Client.{
  Page, Clock, Exchange, asked_session, requested, got, Evaluated, failed, invalid, answered,
  Verdict, accepts, refuses, limits, waited, makes_request, note_request, script_log, judge,
  limit_of, check_session, ask_behind, ask, deleted, delay_of, retried, delete_from, delete,
}

-- what a 429 asks to wait: its `Retry-After`, or ten seconds where it has none that can be read
abbrev pub wait_of : Option ℕ → ℕ
wait_of none = 10000000
wait_of (some wait) = wait

module _ (p : Page) where
  abbrev pub asked_wait : Evaluated → ℕ
  asked_wait (answered r) =
      if nat_beq r.session_status 429
      then wait_of (p.parse_retry_after r.session_retry_after)
      else if r.token_present && nat_beq r.status 429
      then wait_of (p.parse_retry_after r.retry_after)
      else 0
  asked_wait (failed made) = 0
  asked_wait (invalid made) = 0

  -- at the time, every wait that an answer asked for is over
  abbrev pub IsOver : ℕ → List Exchange → Type 0
  IsOver t [] = Unit
  IsOver t (asked_session s ∷ log) = IsOver t log
  IsOver t (requested s ∷ log) = IsOver t log
  IsOver t (got s answer ∷ log) = (s + asked_wait answer ≤ t) × IsOver t log

  -- No request was made before every wait that an earlier answer asked for was over.
  abbrev pub IsPaced : List Exchange → Type 0
  IsPaced [] = Unit
  IsPaced (asked_session t ∷ log) = IsOver t log × IsPaced log
  IsPaced (requested t ∷ log) = IsOver t log × IsPaced log
  IsPaced (got t answer ∷ log) = IsPaced log

abbrev pub count_sessions : List Exchange → ℕ
count_sessions [] = 0
count_sessions (asked_session t ∷ log) = 1 + count_sessions log
count_sessions (requested t ∷ log) = count_sessions log
count_sessions (got t answer ∷ log) = count_sessions log

abbrev pub count_requests : List Exchange → ℕ
count_requests [] = 0
count_requests (requested t ∷ log) = 1 + count_requests log
count_requests (asked_session t ∷ log) = count_requests log
count_requests (got t answer ∷ log) = count_requests log

module _ (p : Page) where
  IsOver-later : (s t : ℕ) (log : List Exchange) → s ≤ t → IsOver p s log → IsOver p t log
  IsOver-later s t [] le h = tt
  IsOver-later s t (asked_session r ∷ log) le h = IsOver-later s t log le h
  IsOver-later s t (requested r ∷ log) le h = IsOver-later s t log le h
  IsOver-later s t (got r answer ∷ log) le h =
      ((let e = h.0 in omega arith), IsOver-later s t log le h.1)

  -- a log that is paced, with at most so many requests of each kind
  abbrev Within : ℕ → List Exchange → Type 0
  Within n log = IsPaced p log × (count_sessions log ≤ n) × (count_requests log ≤ n)

  Within-more : (m n : ℕ) (log : List Exchange) → m ≤ n → Within m log → Within n log
  Within-more m n log le (paced, sessions, requests) = (paced, omega arith, omega arith)

  script-Within :
      (e : Evaluated) (now gap duration n : ℕ) (log : List Exchange)
      → IsOver p now log
      → Within n log
      → Within (suc n) (script_log e now gap duration log)
  script-Within e now gap duration n log over (paced, sessions, requests) = noted (makes_request e)
    where
      noted :
          (made : Bool) → Within (suc n) (note_request made (now + gap) (asked_session now ∷ log))
      noted true = (
        (IsOver-later now (now + gap) log (omega arith) over, (over, paced)),
        omega arith,
        omega arith,
      )
      noted false = ((over, paced), omega arith, omega arith)

  note_request-IsOver :
      (made : Bool) (s now t : ℕ) (log : List Exchange)
      → IsOver p t log
      → IsOver p t (note_request made s (asked_session now ∷ log))
  note_request-IsOver true s now t log h = h
  note_request-IsOver false s now t log h = h

  -- the client waits as long as the answer asks
  delay-covers :
      (endpoint : String) (e : Evaluated) (fallback : ℕ)
      → 10000000 ≤ fallback
      → asked_wait p e ≤ delay_of p (judge p (deleted p endpoint) e) fallback
  unfolding judge deleted check_session limit_of retry_delay
  delay-covers endpoint (failed made) fallback h = omega arith
  delay-covers endpoint (invalid made) fallback h = omega arith
  delay-covers endpoint (answered r) fallback h = ground (
    arith,
    Option-cases (p.parse_retry_after r.session_retry_after),
    Option-cases (p.parse_retry_after r.retry_after),
  )

  abbrev Asked : ℕ → ℕ → Verdict (Unit {0}) × Clock → Type 0
  Asked n fallback (v, c) = IsOver p (c.now + delay_of p v fallback) c.log × Within (suc n) c.log

  asks-Asked :
      (endpoint : String) (r : Outcome ℕ) (c : Clock) (n fallback : ℕ)
      → 10000000 ≤ fallback
      → IsOver p c.now c.log
      → Within n c.log
      → Asked n fallback (ask_behind p (deleted p endpoint) r c)
  asks-Asked endpoint (raised e) c n fallback h over w =
      (IsOver-later c.now _ c.log (omega arith) over, Within-more n (suc n) c.log (omega arith) w)
  asks-Asked endpoint (ok t) c n fallback h over w =
      let d = waited t c in
      let e = p.evaluate d in
      let covers = delay-covers endpoint e fallback h in
      (
        (
          omega arith,
          note_request-IsOver (makes_request e) (d.now + p.gap d) d.now _ c.log
              (IsOver-later c.now _ c.log (omega arith) over),
        ),
        script-Within e d.now (p.gap d) (p.duration d) n c.log
            (IsOver-later c.now d.now c.log (omega arith) over) w,
      )

  ask-Asked :
      (endpoint : String) (c : Clock) (n fallback : ℕ)
      → 10000000 ≤ fallback
      → IsOver p c.now c.log
      → Within n c.log
      → Asked n fallback (ask p (deleted p endpoint) c)
  unfolding ask
  ask-Asked endpoint c n fallback h over w = asks-Asked endpoint (p.pace c) c n fallback h over w

  retried-Within :
      (last in_window : Bool) (v : Verdict (Unit {0})) (c : Clock)
      (rest : Outcome (Unit {0}) × Clock) (n : ℕ)
      → Within n c.log
      → Within n rest.1.log
      → Within n (retried p last in_window (v, c) rest).1.log
  retried-Within last in_window (accepts u) c rest n h k = h
  retried-Within last in_window (refuses e) c rest n h k = h
  retried-Within true in_window (limits m limit) c rest n h k = h
  retried-Within false false (limits m limit) c rest n h k = h
  retried-Within false true (limits m limit) c rest n h k = k

  delete_from-Within :
      (endpoint : String) (deadline fallback left : ℕ) (c : Clock) (n : ℕ)
      → 10000000 ≤ fallback
      → IsOver p c.now c.log
      → Within n c.log
      → Within (n + left) (delete_from p endpoint deadline fallback left c).1.log
  unfolding delete_from
  delete_from-Within endpoint deadline fallback zero c n h over w =
      Within-more n (n + 0) c.log (omega arith) w
  delete_from-Within endpoint deadline fallback (suc left) c n h over w =
      let a = ask p (deleted p endpoint) c in
      let (later, asked) = ask-Asked endpoint c n fallback h over w in
      let next = waited (delay_of p a.0 fallback) a.1 in
      retried-Within _ _ a.0 a.1 _ (n + suc left)
        (Within-more (suc n) (n + suc left) a.1.log (omega arith) asked)
        (Within-more (suc n + left) (n + suc left)
          (delete_from p endpoint deadline (2 * fallback) left next).1.log (omega arith)
          (delete_from-Within endpoint deadline (2 * fallback) left next (suc n) (omega (arith, h))
            later asked))

-- However `delete` ends, it asked for the session at most three times and sent the deletion at most
-- three times, and made each of these requests after every wait that an answer before it asked
-- for with a 429, from the session or from the deletion, by its `Retry-After` in full or else of
-- ten seconds.
pub delete-IsPaced :
    (p : Page) (endpoint : String) (now : ℕ)
    → let log = (delete p endpoint (record { now = now; log = [] })).1.log in
      IsPaced p log × (count_sessions log ≤ 3) × (count_requests log ≤ 3)
unfolding delete
delete-IsPaced p endpoint now =
    delete_from-Within p endpoint _ _ 3 (record { now = now; log = [] }) 0 (omega arith) tt
      (tt, omega arith, omega arith)
