-- ===== src/Mcp/Calls/Headers.antt =====
-- The middlewares of pkg/mcp/middleware.go that put values into the context of a request:
-- `sessionInjectionMiddleware`, `authHeaderPropagationMiddleware` and
-- `userAgentPropagationMiddleware` with `getMcpReqUserAgent`. Header names are looked up by the
-- header's own `Get`. The values are those that the exchange of tokens reads.
use Prim.Native.String as Str
use kube_mcp_server.Base.{String, ◌&&◌, Option, none, some, ◌==◌, ◌!=◌, if◌then◌else◌}
use kube_mcp_server.Base.Text.{trim_space}
use kube_mcp_server.Exchange.Chain.{Context}

-- What the middlewares read of a request: the headers of its extra part, if they are there; the
-- session; and the name and version with which the client introduced itself.
pub record Request (S : Type 0) : Type 0 where
  pub header : Option (String → String)
  pub session : Option S
  pub client_info : Option (String × String)

pub record SessionContext (S : Type 0) : Type 0 where
  pub values : Context
  pub session : Option S

abbrev pub Next : Type 0 → Type 0 → Type 0
Next S A = SessionContext S → Request S → A

-- Without a session the context is left alone.
unfoldable pub session_injection_middleware : {S A : Type 0} → Next S A → Next S A
session_injection_middleware next ctx req = elim req.session [
  | none ↦ next ctx req
  | some session ↦ next (record ctx { session = some session }) req
]

abbrev pub with_authorization : {S : Type 0} → String → SessionContext S → SessionContext S
with_authorization header ctx = record ctx {
  values = record (ctx.values) { authorization = some header };
}

-- The standard header comes first, then the custom one; without both the context is left alone.
unfoldable pub auth_header_propagation_middleware : {S A : Type 0} → Next S A → Next S A
auth_header_propagation_middleware next ctx req = elim req.header [
  | none ↦ next ctx req
  | some get ↦
      if get "Authorization" != ""
      then next (with_authorization (get "Authorization") ctx) req
      else if get "kubernetes-authorization" != ""
      then next (with_authorization (get "kubernetes-authorization") ctx) req
      else next ctx req
]

abbrev pub client_user_agent : {S : Type 0} → Option S → Option (String × String) → String
client_user_agent none info = ""
client_user_agent (some s) none = ""
client_user_agent (some s) (some (name, version)) =
    if name == "" && version == "" then "" else Str.◌++◌ name (Str.◌++◌ "/" version)

-- getMcpReqUserAgent
unfoldable pub get_mcp_req_user_agent : {S : Type 0} → Request S → String
get_mcp_req_user_agent req = elim req.header [
  | none ↦ client_user_agent req.session req.client_info
  | some get ↦
      if get "User-Agent" != ""
      then get "User-Agent"
      else client_user_agent req.session req.client_info
]

-- With the server's name and version, the operating system and the architecture.
unfoldable pub user_agent_propagation_middleware :
    {S A : Type 0} → String → String → String → String → Next S A → Next S A
unfolding get_mcp_req_user_agent trim_space
user_agent_propagation_middleware server_name server_version os arch next ctx req =
    let header = trim_space (
      Str.◌++◌ server_name (
        Str.◌++◌ "/" (
          Str.◌++◌ server_version (
            Str.◌++◌ " (" (
              Str.◌++◌ os
                (Str.◌++◌ "/" (Str.◌++◌ arch (Str.◌++◌ ") " (get_mcp_req_user_agent req))))))))) in
    next (record ctx { values = record (ctx.values) { user_agent = some header } }) req
