-- ===== src/Gateway/Safe.antt =====
-- The headers that `mcp_proxy` of mcp_gateway/server.py forwards.
use Prim.Native.String.{◌++◌}
use gpt_trace_extractor_for.Base.{
  All, String, some, ◌≡◌, ◌≢◌, refl, sym, ◌∙◌, subst, ◌⊎◌, inl, inr, Bool, true, false, ◌==◌,
  string_eq, [], ◌∷◌, arith, eq_iff, if◌then◌else◌, contains, Bool-cases,
}
use gpt_trace_extractor_for.Gateway.{ActiveBackend}
use gpt_trace_extractor_for.Gateway.Proxy.{bearer}
use gpt_trace_extractor_for.Gateway.Mcp.{
  Headers, is_hop_by_hop, end_to_end, set_header, header, forwarded_headers,
}

-- No name stands twice.
abbrev IsNew : String → Headers → Type 0
IsNew name = All (λ e. e.0 ≢ name)

abbrev IsDict : Headers → Type 0
IsDict [] = Unit
IsDict ((n, v) ∷ headers) = IsNew n headers × IsDict headers

-- What holds of all entries and of the new one holds behind the assignment.
set_header-All {ℓ} :
    (P : String × String → Type ℓ) (name value : String) (headers : Headers)
    → P (name, value)
    → All P headers
    → All P (set_header name value headers)
unfolding set_header
set_header-All P name value [] p h = (p, tt)
set_header-All P name value ((n, v) ∷ headers) p h = elim (Bool-cases (n == name)) [
  | inl e ↦ rw e (subst (λ x. P (x, value)) (sym (same n name e)) p, h.1)
  | inr d ↦ rw d (h.0, set_header-All P name value headers p h.1)
]
  where
    same : (n name : String) → (n == name) ≡ true → n ≡ name
    same n name e = ground (arith, eq_iff n name)

set_header-IsNew :
    (other name value : String) (headers : Headers)
    → name ≢ other
    → IsNew other headers
    → IsNew other (set_header name value headers)
set_header-IsNew other name value headers n h =
    set_header-All (λ e. e.0 ≢ other) name value headers n h

set_header-IsDict :
    (name value : String) (headers : Headers)
    → IsDict headers
    → IsDict (set_header name value headers)
unfolding set_header
set_header-IsDict name value [] h = (tt, tt)
set_header-IsDict name value ((n, v) ∷ headers) h = elim (Bool-cases (n == name)) [
  | inl e ↦ rw e h
  | inr d ↦ rw d (
    set_header-IsNew n name value headers (differs n name d) h.0,
    set_header-IsDict name value headers h.1,
  )
]
  where
    differs : (n name : String) → (n == name) ≡ false → name ≢ n
    differs n name d e = ground (arith, eq_iff n name)

end_to_end-IsDict : (own headers : Headers) → IsDict own → IsDict (end_to_end own headers)
unfolding end_to_end
end_to_end-IsDict own [] h = h
end_to_end-IsDict own ((n, v) ∷ headers) h = elim (Bool-cases (is_hop_by_hop n)) [
  | inl d ↦ rw d (end_to_end-IsDict own headers h)
  | inr k ↦ rw k (end_to_end-IsDict (set_header n v own) headers (set_header-IsDict n v own h))
]

-- the headers that a proxy must not pass on
abbrev pub ends_at_proxy : String → Bool
ends_at_proxy = contains (
    "connection" ∷ "keep-alive" ∷ "proxy-authenticate" ∷ "proxy-authorization" ∷ "te" ∷ "trailers"
    ∷ "transfer-encoding" ∷ "upgrade" ∷ "content-length" ∷ "host" ∷ [])

abbrev PassesOn : String × String → Type 0
PassesOn e = ends_at_proxy e.0 ≡ false

end_to_end-PassesOn :
    (own headers : Headers) → All PassesOn own → All PassesOn (end_to_end own headers)
unfolding end_to_end is_hop_by_hop
end_to_end-PassesOn own [] h = h
end_to_end-PassesOn own ((n, v) ∷ headers) h = elim (Bool-cases (is_hop_by_hop n)) [
  | inl d ↦ rw d (end_to_end-PassesOn own headers h)
  | inr k ↦
      rw k (end_to_end-PassesOn (set_header n v own) headers (set_header-All PassesOn n v own k h))
]

-- An entry of the name has the value.
abbrev pub HasValue : String → String → String × String → Type 0
HasValue name value e = (e.0 ≢ name) ⊎ (e.1 ≡ value)

new-HasValue :
    (name value : String) (headers : Headers)
    → IsNew name headers
    → All (HasValue name value) headers
new-HasValue name value [] h = tt
new-HasValue name value (e ∷ headers) h = (inl h.0, new-HasValue name value headers h.1)

set_header-HasValue :
    (name value : String) (headers : Headers)
    → IsDict headers
    → All (HasValue name value) (set_header name value headers)
unfolding set_header
set_header-HasValue name value [] h = (inr refl, tt)
set_header-HasValue name value ((n, v) ∷ headers) h = elim (Bool-cases (n == name)) [
  | inl e ↦
      rw e (
        inr refl,
        new-HasValue name value headers (subst (λ x. IsNew x headers) (same n name e) h.0),
      )
  | inr d ↦ rw d (inl (differs n name d), set_header-HasValue name value headers h.1)
]
  where
    same : (n name : String) → (n == name) ≡ true → n ≡ name
    same n name e = ground (arith, eq_iff n name)

    differs : (n name : String) → (n == name) ≡ false → n ≢ name
    differs n name d e = ground (arith, eq_iff n name)

header-set_header :
    (name other value : String) (headers : Headers)
    → header other (set_header name value headers)
      ≡ (if name == other then some value else header other headers)
unfolding header set_header
header-set_header name other value [] = refl
header-set_header name other value ((n, v) ∷ headers) = ground (
  arith,
  eq_iff n name,
  eq_iff n other,
  eq_iff name other,
  header-set_header name other value headers,
)

-- A forwarded entry: `authorization` carries the token of the backend, and the name does not end
-- at a proxy, but for the `host` of a backend that is reached by its IP address.
abbrev pub IsSafe : ActiveBackend → String × String → Type 0
IsSafe active e =
    HasValue "authorization" ("Bearer " ++ active.backend_token) e
    × ((ends_at_proxy e.0 ≡ false) ⊎ (e ≡ ("host", "localhost:8000")))

both-IsSafe :
    (active : ActiveBackend) (headers : Headers)
    → All (HasValue "authorization" ("Bearer " ++ active.backend_token)) headers
    → All PassesOn headers
    → All (IsSafe active) headers
both-IsSafe active [] h k = tt
both-IsSafe active (e ∷ headers) h k = ((h.0, inl k.0), both-IsSafe active headers h.1 k.1)

authorized-IsSafe :
    (active : ActiveBackend) (headers : Headers)
    → All
        (IsSafe active)
        (set_header "authorization" ("Bearer " ++ active.backend_token) (end_to_end [] headers))
authorized-IsSafe active headers =
    both-IsSafe active _
      (set_header-HasValue "authorization" ("Bearer " ++ active.backend_token)
        (end_to_end [] headers) (end_to_end-IsDict [] headers tt))
      (set_header-All PassesOn "authorization" ("Bearer " ++ active.backend_token)
        (end_to_end [] headers) refl (end_to_end-PassesOn [] headers tt))

host-ne-authorization : ◌≢◌ {A = String} "host" "authorization"
host-ne-authorization = ground (arith, eq_iff "host" "authorization")

-- The backend never sees an `authorization` header of the client, nor a header that ends at a
-- proxy, however often the request has them: in the forwarded headers `authorization` stands and
-- carries the token of the backend, every entry of that name does, and no entry ends at a proxy,
-- but for the `host` of a backend that is reached by its IP address.
pub forwarded_headers-IsSafe :
    (is_ip_address : String → Bool) (active : ActiveBackend) (headers : Headers)
    → (header "authorization" (forwarded_headers is_ip_address active headers) ≡ bearer active)
      × All (IsSafe active) (forwarded_headers is_ip_address active headers)
unfolding forwarded_headers
forwarded_headers-IsSafe is_ip_address active headers =
    let token = "Bearer " ++ active.backend_token in
    let own = set_header "authorization" token (end_to_end [] headers) in
    let sent = authorized-IsSafe active headers in
    let found = header-set_header "authorization" "authorization" token (end_to_end [] headers) in
    elim (Bool-cases (is_ip_address active.backend_url)) [
      | inl ip ↦ rw ip (
        header-set_header "host" "authorization" "localhost:8000" own ∙ found,
        set_header-All (IsSafe active) "host" "localhost:8000" own
            (inl host-ne-authorization, inr refl) sent,
      )
      | inr name ↦ rw name (found, sent)
    ]
