-- ===== src/Traffic/Earlier.antt =====
-- What the requests of an earlier task leave in the state of traffic.py.
use gpt_trace_extractor_for.Base.{
  ℕ, suc, ◌≤◌, String, ltb, Option, none, some, Bool, true, false, not, ◌&&◌, ◌||◌, ◌≡◌, refl, sym,
  ap, ◌∙◌, subst, List, [], ◌∷◌, nat_beq, All, arith, if◌then◌else◌, string_eq,
}
use gpt_trace_extractor_for.Json.{Fields}
use gpt_trace_extractor_for.Traffic.{
  Request, Response, TrafficStats, new_monitor, TrafficMonitor, Settings, is_chatgpt_host,
  begin_task,
}
use gpt_trace_extractor_for.Traffic.Observe.{
  Signal, begins, requested, responded, failed, generation_of, without, belongs_to_current,
  note_429, note_session, note_me, note_status, note_snapshot, note_response, forget, on_response,
  on_request_failed, on_request, observe, observe_all, note_hints, note_payload, count_request,
  read_hints, count_stream, read_submission, keep_snapshot,
}

-- what a task is judged by
pub record Judged : Type 0 where
  pub stats : TrafficStats
  pub task_403 : Bool
  pub sticky_429 : Bool
  pub snapshots : List (String × Response)
  pub submitted_user_messages : List Fields

abbrev pub judged : TrafficMonitor → Judged
judged m = record {
  stats = m.stats;
  task_403 = m.task_403;
  sticky_429 = m.sticky_429;
  snapshots = m.snapshots;
  submitted_user_messages = m.submitted_user_messages;
}

abbrev is_recorded : List (ℕ × ℕ) → ℕ → Bool
is_recorded [] identity = false
is_recorded ((key, generation) ∷ rest) identity = nat_beq key identity || is_recorded rest identity

-- the requests on record were made in no later generation
abbrev AllUpTo : ℕ → List (ℕ × ℕ) → Type 0
AllUpTo g record_ = All (λ entry. entry.1 ≤ g) record_

without-AllUpTo :
    (g : ℕ) (record_ : List (ℕ × ℕ)) (k : ℕ) → AllUpTo g record_ → AllUpTo g (without record_ k)
without-AllUpTo g [] k h = tt
without-AllUpTo g ((key, generation) ∷ rest) k h =
    dropped (nat_beq key k) (without-AllUpTo g rest k h.1)
  where
    dropped :
        (b : Bool)
        → AllUpTo g (without rest k)
        → AllUpTo g (if b then without rest k else (key, generation) ∷ without rest k)
    dropped true t = t
    dropped false t = (h.0, t)

AllUpTo-more : (g : ℕ) (record_ : List (ℕ × ℕ)) → AllUpTo g record_ → AllUpTo (suc g) record_
AllUpTo-more g [] h = tt
AllUpTo-more g (entry ∷ rest) h = ((let e = h.0 in omega arith), AllUpTo-more g rest h.1)

earlier_generation :
    (g : ℕ) (record_ : List (ℕ × ℕ)) (k : ℕ)
    → AllUpTo g record_
    → is_recorded record_ k ≡ true
    → nat_beq (generation_of record_ k (suc g)) (suc g) ≡ false
earlier_generation g [] k h r = cc
earlier_generation g ((key, generation) ∷ rest) k h r =
    ground (arith, h.0, earlier_generation g rest k h.1)

if_same :
    {A : Type 0} (b : Bool) (x y : TrafficMonitor) (f : TrafficMonitor → A) (a : A)
    → f x ≡ a
    → f y ≡ a
    → f (if b then x else y) ≡ a
if_same true x y f a h k = h
if_same false x y f a h k = k

-- what the handlers leave alone but where they say so
abbrev Frame : Type 0
Frame = ℕ × List (ℕ × ℕ)

abbrev frame : TrafficMonitor → Frame
frame m = (m.generation, m.request_generation)

unless :
    {A : Type 0} (b : Bool) (x y : TrafficMonitor) (f : TrafficMonitor → A)
    → f (if b && false then x else y) ≡ f y
unless true x y f = refl
unless false x y f = refl

note_hints-frame : (p : Option Fields) (m : TrafficMonitor) → frame (note_hints p m) ≡ frame m
unfolding note_hints
note_hints-frame none m = refl
note_hints-frame (some p) m = refl

note_payload-frame : (p : Option Fields) (m : TrafficMonitor) → frame (note_payload p m) ≡ frame m
unfolding note_payload
note_payload-frame none m = refl
note_payload-frame (some p) m = refl

module _ (w : Settings) where
  -- The signals only end requests that are on record, each a different one.
  abbrev pub EndsRecorded : List (ℕ × ℕ) → List Signal → Type 0
  EndsRecorded requests [] = Unit
  EndsRecorded requests (begins ∷ signals) = ⊥
  EndsRecorded requests (requested r now ∷ signals) = ⊥
  EndsRecorded requests (responded r ∷ signals) =
      (is_chatgpt_host w r.url ≡ true)
      × (is_recorded requests r.request.identity ≡ true)
      × EndsRecorded (without requests r.request.identity) signals
  EndsRecorded requests (failed r ∷ signals) =
      (is_recorded requests r.identity ≡ true) × EndsRecorded (without requests r.identity) signals

  on_request_read :
      (r : Request) (m : TrafficMonitor) → frame (read_submission w r (read_hints w r m)) ≡ frame m
  unfolding read_submission read_hints count_stream
  on_request_read r m = if_same _ _ _ frame (frame m) (note_payload-frame _ _ ∙ hints) hints
    where
      hints : frame (read_hints w r m) ≡ frame m
      hints = if_same _ _ m frame (frame m) (note_hints-frame _ m) refl

  note_me-judged : (r : Response) (m : TrafficMonitor) → judged (note_me w r m) ≡ judged m
  unfolding note_me
  note_me-judged r m =
      if_same _ _ m judged (judged m)
        (if_same (nat_beq r.status 200) _ _ judged (judged m) refl
          (if_same (nat_beq r.status 429) _ _ judged (judged m) refl refl))
        refl

  note_me-frame : (r : Response) (m : TrafficMonitor) → frame (note_me w r m) ≡ frame m
  unfolding note_me
  note_me-frame r m =
      if_same _ _ m frame (frame m)
        (if_same (nat_beq r.status 200) _ _ frame (frame m) refl
          (if_same (nat_beq r.status 429) _ _ frame (frame m) refl refl))
        refl

  note_status-frame :
      (c : Bool) (r : Response) (m : TrafficMonitor) → frame (note_status w c r m) ≡ frame m
  unfolding note_status
  note_status-frame c r m =
      let n = frame m in
      if_same _ m _ frame n refl (
        if_same (nat_beq r.status 429) _ _ frame n (if_same _ _ m frame n refl refl) (
          if_same (nat_beq r.status 403 && c) _ _ frame n refl
            (if_same (not (ltb r.status 500) && c) _ m frame n refl refl)))

  kept_snapshot-frame :
      (id : Option String) (r : Response) (m : TrafficMonitor)
      → frame (keep_snapshot w id r m) ≡ frame m
  kept_snapshot-frame none r m = refl
  kept_snapshot-frame (some id) r m = refl

  note_response-frame :
      (c : Bool) (r : Response) (m : TrafficMonitor) → frame (note_response w c r m) ≡ frame m
  unfolding note_response note_snapshot note_session note_429
  note_response-frame c r m =
      if_same _ _ _ frame _ (kept_snapshot-frame _ r _) refl
      ∙ note_status-frame c r _
      ∙ note_me-frame r _
      ∙ if_same _ _ _ frame _ refl refl
      ∙ if_same _ _ m frame (frame m) refl refl

  note_status_late :
      (r : Response) (m : TrafficMonitor) → judged (note_status w false r m) ≡ judged m
  unfolding note_status
  note_status_late r m =
      let n = judged m in
      if_same _ m _ judged n refl (
        if_same (nat_beq r.status 429) _ _ judged n refl
          (unless (nat_beq r.status 403) _ _ judged ∙ unless (not (ltb r.status 500)) _ m judged))

  note_response_late :
      (r : Response) (m : TrafficMonitor) → judged (note_response w false r m) ≡ judged m
  unfolding note_response note_snapshot note_session note_429
  note_response_late r m = note_status_late r _ ∙ note_me-judged r m

  abbrev Dated : Frame → Type 0
  Dated (g, requests) = AllUpTo g requests

  if_Dated :
      (b : Bool) (x y : TrafficMonitor)
      → Dated (frame x)
      → Dated (frame y)
      → Dated (frame (if b then x else y))
  if_Dated true x y h k = h
  if_Dated false x y h k = k

  observe-Dated :
      (signal : Signal) (m : TrafficMonitor) → Dated (frame m) → Dated (frame (observe w signal m))
  unfolding observe begin_task on_request on_response on_request_failed forget count_request
  observe-Dated begins m h = AllUpTo-more m.generation m.request_generation h
  observe-Dated (requested r now) m h = if_Dated _ m _ h (
      subst Dated (sym (on_request_read r _)) (
        (let e : m.generation ≤ m.generation = omega arith in e),
        without-AllUpTo m.generation m.request_generation r.identity h,
      ))
  observe-Dated (responded r) m h =
      if_Dated _ m _ h
        (without-AllUpTo _ _ r.request.identity (subst Dated (sym (note_response-frame _ r m)) h))
  observe-Dated (failed r) m h = without-AllUpTo _ _ r.identity (if_Dated _ _ m h h)

  observe_all-Dated :
      (signals : List Signal) (m : TrafficMonitor)
      → Dated (frame m)
      → Dated (frame (observe_all w signals m))
  unfolding observe_all
  observe_all-Dated [] m h = h
  observe_all-Dated (signal ∷ signals) m h = observe_all-Dated signals _ (observe-Dated signal m h)

  belongs_not :
      (r : Request) (m : TrafficMonitor) (g : ℕ) (requests : List (ℕ × ℕ))
      → frame m ≡ (suc g, requests)
      → AllUpTo g requests
      → is_recorded requests r.identity ≡ true
      → belongs_to_current r m ≡ false
  unfolding belongs_to_current
  belongs_not r m g requests e h k =
      ap (λ f. nat_beq (generation_of f.1 r.identity f.0) f.0) e
      ∙ earlier_generation g requests r.identity h k

  on_response_late :
      (r : Response) (m : TrafficMonitor)
      → is_chatgpt_host w r.url ≡ true
      → belongs_to_current r.request m ≡ false
      → on_response w r m ≡ forget r.request (note_response w false r m)
  unfolding on_response
  on_response_late r m h b = rw (h, b) refl

  on_request_failed_late :
      (r : Request) (m : TrafficMonitor)
      → belongs_to_current r m ≡ false
      → on_request_failed w r m ≡ forget r m
  unfolding on_request_failed
  on_request_failed_late r m b = rw (b) (unless (is_chatgpt_host w r.url) _ m (forget r))

  forget-frame :
      (r : Request) (m : TrafficMonitor) (g : ℕ) (requests : List (ℕ × ℕ))
      → frame m ≡ (g, requests)
      → frame (forget r m) ≡ (g, without requests r.identity)
  unfolding forget
  forget-frame r m g requests e = ap (λ f. (f.0, without f.1 r.identity)) e

  forget-judged : (r : Request) (m : TrafficMonitor) → judged (forget r m) ≡ judged m
  unfolding forget
  forget-judged r m = refl

  observe_all_late :
      (signals : List Signal) (m : TrafficMonitor) (g : ℕ) (requests : List (ℕ × ℕ))
      → frame m ≡ (suc g, requests)
      → AllUpTo g requests
      → EndsRecorded requests signals
      → judged (observe_all w signals m) ≡ judged m
  unfolding observe_all observe
  observe_all_late [] m g requests e h k = refl
  observe_all_late (begins ∷ signals) m g requests e h k = elim k [ ]
  observe_all_late (requested r now ∷ signals) m g requests e h k = elim k [ ]
  observe_all_late (responded r ∷ signals) m g requests e h k =
      let same = on_response_late r m k.0 (belongs_not r.request m g requests e h k.1) in
      observe_all_late signals _ g (without requests r.request.identity)
        (ap frame same
          ∙ forget-frame r.request _ (suc g) requests (note_response-frame false r m ∙ e))
        (without-AllUpTo g requests r.request.identity h) k.2
      ∙ ap judged same
      ∙ forget-judged r.request _
      ∙ note_response_late r m
  observe_all_late (failed r ∷ signals) m g requests e h k =
      let same = on_request_failed_late r m (belongs_not r m g requests e h k.0) in
      observe_all_late signals _ g (without requests r.identity)
        (ap frame same ∙ forget-frame r m (suc g) requests e)
        (without-AllUpTo g requests r.identity h) k.1
      ∙ ap judged same
      ∙ forget-judged r m

-- Whatever a monitor observed since it was made, a task that begins then is not judged by how the
-- requests on record end, each once and with no new request between: its counters, its 403 and 429
-- signals, its snapshots and its submitted messages stay as at the beginning of a task.
pub earlier_ignored :
    (w : Settings) (history late : List Signal)
    → EndsRecorded w (observe_all w history new_monitor).request_generation late
    → judged (observe_all w late (begin_task (observe_all w history new_monitor)))
      ≡ judged new_monitor
unfolding begin_task
earlier_ignored w history late h =
    let m = observe_all w history new_monitor in
    observe_all_late w late (begin_task m) m.generation m.request_generation refl
      (observe_all-Dated w history new_monitor tt) h
