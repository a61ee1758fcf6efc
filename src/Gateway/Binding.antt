-- ===== src/Gateway/Binding.antt =====
-- Requests to mcp_gateway/server.py that may change the binding of the gateway, one and many.
use mathlib.Core.Option.{some-injective}
use gpt_trace_extractor_for.Base.{
  ◌≡◌, refl, sym, ap, subst, ◌∙◌, ◌⊎◌, inl, inr, Option, none, some, true, List, [], ◌∷◌, arith,
  eq_iff, nat_beq_iff, Bool-cases, Option-cases,
}
use gpt_trace_extractor_for.Gateway.{
  TextTools, ActiveBackend, Identity, identity_of, GatewayState, Request, Response, authorized,
  Checked, checked, value_error, same_identity, candidate,
}
use gpt_trace_extractor_for.Gateway.Control.{
  same_backend, bind, activate, read_identity, release, deactivate,
}

pub data Command : Type 0 where
  activates deactivates : Request → Command

same_backend_eq : (a b : ActiveBackend) → same_backend a b ≡ true → a ≡ b
same_backend_eq a b h = ground (
  arith,
  eq_iff a.task_id b.task_id,
  nat_beq_iff a.attempt b.attempt,
  eq_iff a.environment_id b.environment_id,
  eq_iff a.task_fingerprint b.task_fingerprint,
  eq_iff a.backend_url b.backend_url,
  eq_iff a.backend_token b.backend_token,
)

same_identity_eq : (i : Identity) (b : ActiveBackend) → same_identity i b ≡ true → i ≡ identity_of b
same_identity_eq i b h = ground (
  arith,
  eq_iff i.task_id b.task_id,
  nat_beq_iff i.attempt b.attempt,
  eq_iff i.environment_id b.environment_id,
  eq_iff i.task_fingerprint b.task_fingerprint,
)

bind_cases :
    (state : GatewayState) (b : ActiveBackend)
    → ((bind state b).1.active ≡ state.active)
      ⊎ ((state.active ≡ none) × ((bind state b).1.active ≡ some b))
unfolding bind
bind_cases state b = elim (Option-cases state.active) [
  | inl e ↦ inr (e, ground arith)
  | inr (a, e) ↦ inl (ground (arith, same_backend_eq a b))
]

release_cases :
    (state : GatewayState) (i : Identity)
    → ((release state i).1.active ≡ state.active)
      ⊎ ((b : ActiveBackend) × (state.active ≡ some b)
          × (i ≡ identity_of b)
          × ((release state i).1.active ≡ none))
unfolding release
release_cases state i = elim (Option-cases state.active) [
  | inl e ↦ inl (ground arith)
  | inr (b, e) ↦ elim (Bool-cases (same_identity i b)) [
    | inl m ↦ inr (b, e, same_identity_eq i b m, ground arith)
    | inr m ↦ inl (ground arith)
  ]
]

module _ (tools : TextTools) where
  unfoldable pub run : Command → GatewayState → Response × GatewayState
  run (activates request) state = activate tools state request
  run (deactivates request) state = deactivate tools state request

  abbrev pub request_of : Command → Request
  request_of (activates request) = request
  request_of (deactivates request) = request

  -- what a command that leaves another binding behind than it found has shown
  abbrev pub Justified : Command → GatewayState → Option ActiveBackend → Type 0
  Justified (activates request) state none = ⊥
  Justified (activates request) state (some b) =
      (state.active ≡ none) × (candidate tools request ≡ checked b)
  Justified (deactivates request) state (some b) = ⊥
  Justified (deactivates request) state none =
      (b : ActiveBackend) × (state.active ≡ some b)
      × (read_identity tools request ≡ checked (identity_of b))

  activate_cases :
      (request : Request) (state : GatewayState)
      → ((activate tools state request).1.active ≡ state.active)
        ⊎ ((b : ActiveBackend) × (authorized state request ≡ true)
            × (state.active ≡ none)
            × (candidate tools request ≡ checked b)
            × ((activate tools state request).1.active ≡ some b))
  unfolding activate
  activate_cases request state = elim (Bool-cases (authorized state request)) [
    | inr u ↦ inl (rw (u, activate))
    | inl u ↦ by_candidate u (candidate tools request) refl
  ]
    where
      by_candidate :
          authorized state request ≡ true
          → (c : Checked ActiveBackend) → candidate tools request ≡ c
          → ((activate tools state request).1.active ≡ state.active)
            ⊎ ((b : ActiveBackend) × (authorized state request ≡ true)
                × (state.active ≡ none)
                × (candidate tools request ≡ checked b)
                × ((activate tools state request).1.active ≡ some b))
      by_candidate u (value_error e) c = inl (rw (u, c, activate))
      by_candidate u (checked b) c = elim (bind_cases state b) [
        | inl same ↦ inl (rw (u, c, activate) same)
        | inr (unbound, bound) ↦ inr (b, u, unbound, c, rw (u, c, activate) bound)
      ]

  deactivate_cases :
      (request : Request) (state : GatewayState)
      → ((deactivate tools state request).1.active ≡ state.active)
        ⊎ ((b : ActiveBackend) × (authorized state request ≡ true)
            × (state.active ≡ some b)
            × (read_identity tools request ≡ checked (identity_of b))
            × ((deactivate tools state request).1.active ≡ none))
  unfolding deactivate
  deactivate_cases request state = elim (Bool-cases (authorized state request)) [
    | inr u ↦ inl (rw (u, deactivate))
    | inl u ↦ by_identity u (read_identity tools request) refl
  ]
    where
      by_identity :
          authorized state request ≡ true
          → (c : Checked Identity) → read_identity tools request ≡ c
          → ((deactivate tools state request).1.active ≡ state.active)
            ⊎ ((b : ActiveBackend) × (authorized state request ≡ true)
                × (state.active ≡ some b)
                × (read_identity tools request ≡ checked (identity_of b))
                × ((deactivate tools state request).1.active ≡ none))
      by_identity u (value_error e) c = inl (rw (u, c, deactivate))
      by_identity u (checked i) c = elim (release_cases state i) [
        | inl same ↦ inl (rw (u, c, deactivate) same)
        | inr (b, bound, owner, unbound) ↦
            inr (b, u, bound, c ∙ ap checked owner, rw (u, c, deactivate) unbound)
      ]

  -- A request changes the binding of the gateway only with the control token, and only so: an
  -- activation binds an unbound gateway to the backend that it names, and a deactivation unbinds
  -- the backend whose whole identity it names.
  pub binding-Justified :
      (command : Command) (state : GatewayState)
      → ((run command state).1.active ≡ state.active)
        ⊎ ((authorized state (request_of command) ≡ true)
            × Justified command state (run command state).1.active)
  unfolding run
  binding-Justified (activates request) state = elim (activate_cases request state) [
    | inl same ↦ inl same
    | inr (b, u, unbound, c, after) ↦
        inr (u, subst (Justified (activates request) state) (sym after) (unbound, c))
  ]
  binding-Justified (deactivates request) state = elim (deactivate_cases request state) [
    | inl same ↦ inl same
    | inr (b, u, bound, owner, after) ↦
        inr (u, subst (Justified (deactivates request) state) (sym after) (b, bound, owner))
  ]

  -- A sequence of requests, one after the other.
  unfoldable pub run_all : List Command → GatewayState → GatewayState
  run_all [] state = state
  run_all (command ∷ commands) state = run_all commands (run command state).1

  -- the request is authorised and names the whole identity of the backend
  abbrev pub ReleasedBy : GatewayState → ActiveBackend → List Command → Type 0
  ReleasedBy state b [] = ⊥
  ReleasedBy state b (command ∷ commands) =
      ((authorized state (request_of command) ≡ true)
        × (read_identity tools (request_of command) ≡ checked (identity_of b)))
      ⊎ ReleasedBy state b commands

  run-control_token :
      (command : Command) (state : GatewayState)
      → (run command state).1.control_token ≡ state.control_token
  unfolding run activate deactivate bind release
  run-control_token (activates request) state = ground arith
  run-control_token (deactivates request) state = ground arith

  authorized_stays :
      (a b : GatewayState) (request : Request)
      → a.control_token ≡ b.control_token
      → authorized a request ≡ true
      → authorized b request ≡ true
  unfolding authorized
  authorized_stays a b request e h = rw (← e) h

  ReleasedBy-stays :
      (a b : GatewayState) (held : ActiveBackend) (commands : List Command)
      → a.control_token ≡ b.control_token
      → ReleasedBy a held commands
      → ReleasedBy b held commands
  ReleasedBy-stays a b held [] e h = h
  ReleasedBy-stays a b held (command ∷ commands) e (inl (u, i)) =
      inl (authorized_stays a b (request_of command) e u, i)
  ReleasedBy-stays a b held (command ∷ commands) e (inr h) =
      inr (ReleasedBy-stays a b held commands e h)

  held_or_released :
      (command : Command) (state : GatewayState) (b : ActiveBackend)
      → state.active ≡ some b
      → ((run command state).1.active ≡ some b)
        ⊎ ((authorized state (request_of command) ≡ true)
            × (read_identity tools (request_of command) ≡ checked (identity_of b)))
  unfolding run
  held_or_released (activates request) state b h = elim (activate_cases request state) [
    | inl same ↦ inl (same ∙ h)
    | inr (c, u, unbound, named, after) ↦ absurd (ground arith)
  ]
  held_or_released (deactivates request) state b h = elim (deactivate_cases request state) [
    | inl same ↦ inl (same ∙ h)
    | inr (c, u, bound, owner, after) ↦
        inr (u, owner ∙ ap (λ x. checked (identity_of x)) (some-injective c b (sym bound ∙ h)))
  ]

  -- A bound gateway stays bound to the same backend through any requests, or one of the requests
  -- carried the control token and named the whole identity of that backend.
  pub binding_held :
      (commands : List Command) (state : GatewayState) (b : ActiveBackend)
      → state.active ≡ some b
      → ((run_all commands state).active ≡ some b) ⊎ ReleasedBy state b commands
  unfolding run_all
  binding_held [] state b h = inl h
  binding_held (command ∷ commands) state b h = elim (held_or_released command state b h) [
    | inr released ↦ inr (inl released)
    | inl held ↦ elim (binding_held commands (run command state).1 b held) [
      | inl still ↦ inl still
      | inr later ↦ inr (
          inr (
            ReleasedBy-stays (run command state).1 state b commands
              (run-control_token command state) later))
    ]
  ]
