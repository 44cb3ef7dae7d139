-- ===== src/Daemon/Credential.antt =====
-- internal/daemon/endpoint.go: the durable credential of MCP clients, in a file of its own.
pub mod Stable
mod Examples
use game_forge.Prelude.{
  Bool, true, false, not, List, [], ◌∷◌, ◌++◌, Option, none, some, Text, codes, is_empty, trim_both,
  Result, ok, err, if◌then◌else◌,
}
use game_forge.Contract.{is_space}
use game_forge.Storage.{IoError, dir_failed, encode_failed, temp_failed, close_failed, read_failed}

-- The file mcp.token.
pub data TokenFile : Type 0 where
  absent unreadable : TokenFile
  content : Text → TokenFile

-- How the calls of one creation turn out: `rival` is what another process has put there between the load
-- and the exclusive open, `torn` what a failed write leaves behind.
pub record TokenIo : Type 0 where
  pub dir_ok : Bool
  pub random_ok : Bool
  pub rival : Option TokenFile
  pub open_ok : Bool
  pub write_ok : Bool
  pub torn : Text
  pub close_ok : Bool

-- `LoadMCPToken`: empty while there is none.
pub load_mcp_token : TokenFile → Result IoError Text
unfolding trim_both is_space
load_mcp_token absent = ok []
load_mcp_token unreadable = err read_failed
load_mcp_token (content s) = ok (trim_both is_space s)

-- The write of a new token. The `err` of the write and of the sync ends with the `if` that declares it.
write_token : TokenIo → Text → TokenFile × Result IoError Text
write_token io token =
    let file = content (if io.write_ok then token ++ codes "\n" else io.torn) in
    (file, (if io.close_ok then ok token else err close_failed))

-- The exclusive open of a file that is missing, or that another process has just made.
open_token : TokenIo → Text → Option TokenFile → TokenFile × Result IoError Text
unfolding load_mcp_token write_token
open_token io token (some file) = (file, load_mcp_token file)
open_token io token none = if io.open_ok then write_token io token else (absent, err temp_failed)

create_token : TokenIo → Text → TokenFile → TokenFile × Result IoError Text
unfolding open_token load_mcp_token
create_token io token absent = open_token io token io.rival
create_token io token unreadable = (unreadable, load_mcp_token unreadable)
create_token io token (content s) = (content s, load_mcp_token (content s))

-- `DurableMCPToken`; `token` is what the random bytes spell.
pub durable_mcp_token : TokenIo → Text → TokenFile → TokenFile × Result IoError Text
unfolding load_mcp_token create_token
durable_mcp_token io token file = elim (load_mcp_token file) [
  | err e ↦ (file, err e)
  | ok t ↦
      if not (is_empty t)
      then (file, ok t)
      else if not io.dir_ok
      then (file, err dir_failed)
      else if not io.random_ok
      then (file, err encode_failed)
      else create_token io token file
]
