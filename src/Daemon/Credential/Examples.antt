-- ===== src/Daemon/Credential/Examples.antt =====
-- Tests of the MCP credential, and its theorem at a concrete input.
use game_forge.Prelude.{◌≡◌, refl, [], true, false, none, some, codes, ok}
use game_forge.Daemon.Credential.{TokenIo, absent, content, durable_mcp_token}

abbrev fine : TokenIo
fine = record {
  dir_ok = true;
  random_ok = true;
  rival = none;
  open_ok = true;
  write_ok = true;
  torn = [];
  close_ok = true;
}

abbrev raced : TokenIo
raced = record fine { rival = some (content (codes "theirs\n")) }

-- A process that loses the race takes the winner's token.
durable_raced :
    durable_mcp_token raced (codes "ours") absent
    ≡ (content (codes "theirs\n"), ok (codes "theirs"))
unfolding durable_mcp_token
durable_raced = refl

-- After a write that failed without a trace, every later call returns the empty token.
durable_torn :
    durable_mcp_token fine
      (codes "c")
      (durable_mcp_token (record fine { write_ok = false }) (codes "ab") absent).0
    ≡ (content [], ok [])
unfolding durable_mcp_token
durable_torn = refl
