-- ===== src/Daemon/Access.antt =====
-- internal/daemon/server.go and mcp.go: who may send a request.
pub mod Laws
mod Examples
use game_forge.Prelude.{
  strip_prefix, ℕ, Bool, true, false, ◌||◌, not, [], ◌∷◌, Option, none, some, Text, codes, is_empty,
  text_eq, if◌then◌else◌, has, ◌==◌ as ◌==ₙ◌, reverse,
}
use game_forge.Op.{internal, unauthorized, forbidden, Error}
use game_forge.Daemon.Dispatch.{Server, fault}

-- Whether an Authorization header carries a token as "Bearer <token>".
bears : Text → Text → Bool
unfolding strip_prefix
bears header token = elim (strip_prefix (codes "Bearer ") header) [
  | none ↦ false
  | some t ↦ text_eq t token
]

-- `auth`: `next` is the handler behind it.
pub auth : {V A : Type 0} → Server V → Text → (Error → A) → A → A
unfolding bears
auth s header reject next =
    if bears header s.token
    then next
    else reject (fault unauthorized "missing or invalid bearer token")

-- `localOrigin`; `hostname` is `url.Parse` with `Hostname`.
local_host : Text → Bool
local_host h =
    text_eq h (codes "localhost")
    || text_eq h (codes "127.0.0.1")
    || text_eq h (codes "::1")
    || has (strip_prefix (reverse (codes ".localhost")) (reverse h))

pub local_origin : (Text → Option Text) → Text → Bool
unfolding local_host
local_origin hostname origin =
    if is_empty origin
    then true
    else elim (hostname origin) [ none ↦ false | some h ↦ local_host h ]

-- `mcpAuth` with the handler that `mcpHandler` mounts.
pub mcp_auth :
    {V A : Type 0} → (Text → Option Text) → Server V → Text → Text → (ℕ → Error → A) → A → A
unfolding bears local_origin
mcp_auth hostname s origin header reject next =
    if not (local_origin hostname origin)
    then reject 403 (fault forbidden "non-local Origin rejected")
    else if s.mcp_err || is_empty s.mcp_tok || not (bears header s.mcp_tok)
    then reject 401 (fault unauthorized "missing or invalid MCP credential")
    else if s.mcp_mounted
    then next
    else reject 503 (fault internal "MCP frontend not mounted")
