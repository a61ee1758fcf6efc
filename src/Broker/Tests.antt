-- ===== src/Broker/Tests.antt =====
-- Requests to a broker with a small limit, and the theorems at them.
use gpt_trace_extractor_for.Base.{
  ℕ, ◌+◌, String, ◌≡◌, refl, ap, none, some, true, false, not, ◌&&◌, List, [], ◌∷◌, arith, eq_iff,
}
use gpt_trace_extractor_for.Exceptions.{raised, Outcome, ok}
use gpt_trace_extractor_for.Exec.{from, return, modify, throw, ◌>>=◌}
use gpt_trace_extractor_for.Broker.{
  Bytes, Folder, Setting, read_all, find, put, remove, stage_begin, stage_chunk, stage_end,
  find_upload, find_artifact, open_upload, append_chunk, end_upload, place,
}
use gpt_trace_extractor_for.Broker.Stored.{IsSound}
use gpt_trace_extractor_for.Broker.Requests.{
  Request, begin, chunk, finish, serve_all, serve_all-IsSound,
}
use gpt_trace_extractor_for.Broker.Reading.{read_all_ends}
use gpt_trace_extractor_for.Broker.Transfer.{download, ask_broker}
use gpt_trace_extractor_for.Json.{Value, Fields, text, int, object, field, end}
use gpt_trace_extractor_for.Broker.Access.{
  Forms, Identity, Access, Operation, perform, respond, dispatch, on, rpc, admin_call, attempt_call,
  identity, route, controller_actions, read_purpose,
}
use gpt_trace_extractor_for.Broker.Access
use gpt_trace_extractor_for.Broker.Confined.{IsConfined, controller-IsConfined}
use gpt_trace_extractor_for.Broker.Host.{
  Host, Paths, Command, lookup, without, set_state, is_there, running, active, undefine, is_listed,
  undo_network, refuse_unowned, remaining, command, destroy, tear_down, destroy_domain,
  destroy_network, remove_firewall, unmount, remove_folder, assert_absent,
}
use gpt_trace_extractor_for.Broker.Frame.{Untouched}
use gpt_trace_extractor_for.Broker.Others.{destroy_leaves_others, IsGone, destroy_removes}
use gpt_trace_extractor_for.Broker.Exact.{Offers, download_exact}

abbrev digest : Bytes → String
digest [] = "e"
digest (b ∷ bs) = "d"

abbrev setting : Setting
setting = record {
  sha256 = digest;
  is_upload_id = λ id. true;
  is_digest = λ d. true;
  max_transfer_bytes = 4;
  owned = λ s. ok tt;
}

abbrev nothing : Folder
nothing = record { uploads = []; artifacts = [] }

nothing-IsSound : IsSound setting nothing
unfolding find
nothing-IsSound = record {
  uploads = record { at = λ n bytes h. ground arith };
  artifacts = record { at = λ n bytes h. ground arith };
}

abbrev upload : List Request
upload =
    begin "u"
    ∷ chunk "u" (ok (7 ∷ 8 ∷ []))
    ∷ chunk "u" (ok (9 ∷ []))
    ∷ chunk "u" (ok (1 ∷ 2 ∷ []))
    ∷ finish "u" "d" 3
    ∷ []

abbrev kept : Folder
kept = record { uploads = []; artifacts = ("d", 7 ∷ 8 ∷ 9 ∷ []) ∷ [] }

-- the chunk beyond the limit is refused, and the others are the artifact
upload_kept : serve_all setting upload nothing ≡ kept
unfolding stage_begin stage_chunk stage_end find_upload find_artifact open_upload append_chunk
    end_upload place find put remove from return modify throw ◌>>=◌
upload_kept = refl

serve_all-IsSound_example : IsSound setting (serve_all setting upload nothing)
serve_all-IsSound_example = serve_all-IsSound setting upload nothing nothing-IsSound

abbrev sevens : ℕ → Outcome Bytes
sevens offset = ok (7 ∷ [])

read_all_ends_example :
    read_all (λ offset. from (λ s. sevens offset)) 3 (3 + 5) [] nothing
    ≡ read_all (λ offset. from (λ s. sevens offset)) 3 3 [] nothing
read_all_ends_example = read_all_ends (λ offset. from (λ s. sevens offset)) 3 5 nothing

kept-Offers : Offers setting kept "d" (7 ∷ 8 ∷ 9 ∷ [])
unfolding find
kept-Offers = record {
  stored = refl;
  named = refl;
  digest = refl;
  owned = refl;
  small = omega arith;
  wanted = omega arith;
}

download_exact_example :
    download digest (ask_broker setting) 3 "d" "d" kept ≡ (ok (7 ∷ 8 ∷ 9 ∷ []), kept)
download_exact_example = download_exact setting kept "d" (7 ∷ 8 ∷ 9 ∷ []) kept-Offers

abbrev text_of : Value → String
text_of (text s) = s
text_of (int n) = "1"
text_of _ = "None"

abbrev access : Access
access = record {
  forms = record {
    is_safe_id = λ s. true;
    is_sha256 = λ s. true;
    is_retry = λ s. true;
    str = text_of;
  };
  admin_bearer = "Bearer a";
  controller_bearer = "Bearer c";
}

abbrev payload : String → Fields
payload method = field "task_id" (text "t") (
    field "environment_id" (text "e")
      (field "attempt" (int 1) (field "fingerprint" (text "f") (field "method" (text method) end))))

abbrev caller : String → String → String → Access.Request
caller token action method = record {
  authorization = token;
  action = action;
  body_bytes = 100;
  payload = ok (object (payload method));
}

abbrev who : Identity
who = record {
  task_id = "t";
  attempt = 1;
  environment_id = "e";
  fingerprint = "f";
  evaluator_retry = none;
}

health_asked :
    dispatch access (caller "Bearer c" "rpc" "health") ≡ perform (on (rpc (text "health")) who)
unfolding dispatch identity route controller_actions admin_call attempt_call read_purpose
health_asked = refl

template_denied : dispatch access (caller "Bearer c" "rpc" "template_import_begin") ≡ respond 403
unfolding dispatch identity route controller_actions admin_call attempt_call read_purpose
template_denied = refl

destruction_denied : dispatch access (caller "Bearer c" "destroy_all" "") ≡ respond 403
unfolding dispatch controller_actions
destruction_denied = refl

no_token : dispatch access (caller "Bearer x" "rpc" "health") ≡ respond 401
unfolding dispatch
no_token = refl

controller-IsConfined_example :
    ((caller "Bearer c" "rpc" "health").authorization ≡ access.controller_bearer)
    × IsConfined access.forms (on (rpc (text "health")) who)
controller-IsConfined_example =
    controller-IsConfined access (caller "Bearer c" "rpc" "health") (on (rpc (text "health")) who)
      (λ h. ground (arith, eq_iff "Bearer c" "Bearer a", h)) health_asked

abbrev host : Host
host = record {
  domains = ("ws-1", running) ∷ ("ws-2", active) ∷ [];
  networks = ("net-1", true) ∷ ("net-2", false) ∷ [];
  tables = ("gt-1", true) ∷ [];
  folders = ("1", true) ∷ ("2", true) ∷ [];
}

abbrev paths : Paths
paths = record { name = "ws-1"; network = some "net-1"; table = "gt-1"; directory = "1" }

-- every command succeeds
abbrev succeeds : Command → Host → Outcome (Unit {0})
succeeds c s = ok tt

abbrev is_own : Host → Outcome (Unit {0})
is_own s = ok tt

destroyed_host : destroy succeeds is_own true paths host ≡ (
  ok tt,
  record {
    domains = ("ws-2", active) ∷ [];
    networks = ("net-2", false) ∷ [];
    tables = [];
    folders = ("2", true) ∷ [];
  },
)
unfolding destroy tear_down destroy_domain destroy_network remove_firewall unmount remove_folder
    assert_absent refuse_unowned is_listed undo_network command lookup without undefine set_state
    from return modify throw ◌>>=◌
destroyed_host = refl

destroy_leaves_others_example : Untouched paths host (destroy succeeds is_own true paths host).1
destroy_leaves_others_example = destroy_leaves_others succeeds paths host is_own true

folder_there : (not (is_there (lookup paths.directory host.folders)) && true) ≡ false
unfolding lookup
folder_there = refl

-- the domain is paused: it is undefined but stays, and the call raises
abbrev paused_host : Host
paused_host = record host { domains = ("ws-1", active) ∷ [] }

paused_domain_stays : destroy succeeds is_own true paths paused_host ≡ (
  raised remaining,
  record {
    domains = ("ws-1", active) ∷ [];
    networks = ("net-2", false) ∷ [];
    tables = [];
    folders = ("2", true) ∷ [];
  },
)
unfolding destroy tear_down destroy_domain destroy_network remove_firewall unmount remove_folder
    assert_absent refuse_unowned is_listed undo_network command lookup without undefine set_state
    from return modify throw ◌>>=◌
paused_domain_stays = refl

destroy_removes_example : IsGone paths (destroy succeeds is_own true paths host).1
destroy_removes_example =
    destroy_removes succeeds paths host is_own true (ap (λ r. r.0) destroyed_host) folder_there
      (λ s. refl)
