-- ===== src/Gateway/Mcp.antt =====
-- `mcp_proxy` of mcp_gateway/server.py: MCP traffic to the bound backend. The headers of a request
-- are a list of pairs with names in lower case, as Starlette gives them, in which a name may stand
-- twice, and a dictionary is such a list without repetition; `is_ip_address` is whether the
-- backend's host is an IP address.
use Prim.Native.String.{◌++◌}
use gpt_trace_extractor_for.Base.{
  String, Option, none, some, Bool, List, [], ◌∷◌, ◌==◌, string_eq, contains, if◌then◌else◌,
}
use gpt_trace_extractor_for.Gateway.{ActiveBackend, GatewayState}

abbrev pub Headers : Type 0
Headers = List (String × String)

abbrev pub hop_by_hop : List String
hop_by_hop =
    "connection" ∷ "keep-alive" ∷ "proxy-authenticate" ∷ "proxy-authorization" ∷ "te" ∷ "trailers"
    ∷ "transfer-encoding" ∷ "upgrade" ∷ "content-length" ∷ "host" ∷ []

-- `name.casefold() in HOP_BY_HOP`, of a name in lower case
unfoldable pub is_hop_by_hop : String → Bool
is_hop_by_hop name = contains hop_by_hop name

-- `headers[name] = value`
unfoldable pub set_header : String → String → Headers → Headers
set_header name value [] = (name, value) ∷ []
set_header name value ((n, v) ∷ headers) =
    if n == name then (n, value) ∷ headers else (n, v) ∷ set_header name value headers

-- the comprehension over `items()`, from the entries so far; the last value of a name wins
unfoldable pub end_to_end : Headers → Headers → Headers
unfolding set_header
end_to_end own [] = own
end_to_end own ((name, value) ∷ headers) =
    end_to_end (if is_hop_by_hop name then own else set_header name value own) headers

-- `headers.get(name)`
unfoldable pub header : String → Headers → Option String
header name [] = none
header name ((n, v) ∷ headers) = if n == name then some v else header name headers

-- `/mcp` is `/mcp/` at the backend
abbrev pub backend_path : String → String
backend_path path = if path == "/mcp" then "/mcp/" else path

abbrev with_query : String → String → String
with_query target query = if query == "" then target else target ++ ("?" ++ query)

pub record McpRequest : Type 0 where
  pub method : String
  pub path : String
  pub query : String
  pub headers : Headers
  pub content : String

pub record Forwarded : Type 0 where
  pub method : String
  pub target : String
  pub headers : Headers
  pub content : String

module _ (is_ip_address : String → Bool) where
  -- the headers of the forwarded request
  unfoldable pub forwarded_headers : ActiveBackend → Headers → Headers
  unfolding end_to_end set_header
  forwarded_headers active headers =
      let own =
        set_header "authorization" ("Bearer " ++ active.backend_token) (end_to_end [] headers) in
      if is_ip_address active.backend_url then set_header "host" "localhost:8000" own else own

  -- the forwarded request, or `none` for the answer 503
  unfoldable pub mcp_proxy : GatewayState → McpRequest → Option Forwarded
  unfolding forwarded_headers
  mcp_proxy state request = elim state.active [
    | none ↦ none
    | some active ↦ some (record {
      method = request.method;
      target = with_query (active.backend_url ++ backend_path request.path) request.query;
      headers = forwarded_headers active request.headers;
      content = request.content;
    })
  ]
