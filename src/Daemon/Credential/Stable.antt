-- ===== src/Daemon/Credential/Stable.antt =====
-- The MCP credential, once made, stays.
use game_forge.Prelude.{
  ◌≡◌, refl, true, false, ◌++◌, Option, none, some, Text, codes, is_empty, trim_both, ok, arith,
  Result-cases, Bool-cases, inl, inr,
}
use game_forge.Contract.{is_space}
use game_forge.Daemon.Credential.{
  TokenFile, absent, unreadable, content, TokenIo, load_mcp_token, write_token, open_token,
  create_token, durable_mcp_token,
}

durable_of_load :
    (io : TokenIo) (token : Text) (file : TokenFile) (t : Text)
    → load_mcp_token file ≡ ok t
    → is_empty t ≡ false
    → durable_mcp_token io token file ≡ (file, ok t)
unfolding durable_mcp_token
durable_of_load io token file t e full = rw (e, full, durable_mcp_token) refl

module _ (io : TokenIo) (token : Text) (wrote : io.write_ok ≡ true)
    (clean : trim_both is_space (token ++ codes "\n") ≡ token) where
  write_token-load :
      (t : Text) → (write_token io token).1 ≡ ok t → load_mcp_token (write_token io token).0 ≡ ok t
  unfolding write_token load_mcp_token
  write_token-load t h = ground (arith, wrote, clean)

  open_token-load :
      (rival : Option TokenFile) (t : Text)
      → (open_token io token rival).1 ≡ ok t
      → load_mcp_token (open_token io token rival).0 ≡ ok t
  unfolding open_token
  open_token-load (some file) t h = h
  open_token-load none t h = elim (Bool-cases io.open_ok) [
    | inl e ↦ rw (e, open_token) (write_token-load t (rw (e, open_token) at h))
    | inr e ↦ ground (arith, rw (e, open_token) at h)
  ]

  create_token-load :
      (file : TokenFile) (t : Text)
      → (create_token io token file).1 ≡ ok t
      → load_mcp_token (create_token io token file).0 ≡ ok t
  unfolding create_token
  create_token-load absent t h = open_token-load io.rival t h
  create_token-load unreadable t h = h
  create_token-load (content s) t h = h

  durable-load :
      (file : TokenFile) (t : Text)
      → (durable_mcp_token io token file).1 ≡ ok t
      → load_mcp_token (durable_mcp_token io token file).0 ≡ ok t
  unfolding durable_mcp_token
  durable-load file t h = elim (Result-cases (load_mcp_token file)) [
    | inl (x, e) ↦ ground (arith, rw (e, durable_mcp_token) at h)
    | inr (s, e) ↦ ground (arith, e, create_token-load file t)
  ]

  -- When `DurableMCPToken` has returned a token that is not empty, with an untorn write, every later call,
  -- whatever it draws and whichever of its calls fail, returns the same token and leaves the file alone;
  -- a token is supposed not to begin or end with a blank.
  durable_mcp_token_stable :
      (file : TokenFile) (t : Text) (io' : TokenIo) (token' : Text)
      → (durable_mcp_token io token file).1 ≡ ok t
      → is_empty t ≡ false
      → durable_mcp_token io' token' (durable_mcp_token io token file).0
        ≡ ((durable_mcp_token io token file).0, ok t)
  durable_mcp_token_stable file t io' token' h full =
      durable_of_load io' token' (durable_mcp_token io token file).0 t (durable-load file t h) full
