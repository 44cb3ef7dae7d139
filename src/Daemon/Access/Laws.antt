-- ===== src/Daemon/Access/Laws.antt =====
-- internal/daemon/server.go and mcp.go: who passes `auth` and `mcpAuth`.
use game_forge.Prelude.{
  strip_prefix, true, false, [], ◌∷◌, ◌++◌, Option, some, Text, codes, is_empty, text_eq_refl,
  text_eq→eq, ◌≡◌, ◌↔◌, refl, ◌∙◌, ap, Option-cases, Bool-cases, inl, inr, arith, ◌==◌ as ◌==ₙ◌,
  ==_iff,
}
use game_forge.Daemon.Dispatch.{Server}
use game_forge.Daemon.Access.{bears, auth, mcp_auth, local_origin}

strip_prefix-some : (p s t : Text) → strip_prefix p s ≡ some t → s ≡ p ++ t
unfolding strip_prefix
strip_prefix-some [] s t h = ground arith
strip_prefix-some (a ∷ p) [] t h = ground arith
strip_prefix-some (a ∷ p) (b ∷ s) t h = elim (Bool-cases (a ==ₙ b)) [
  | inl e ↦ ground (arith, ==_iff a b, strip_prefix-some p s t (rw (e) at h))
  | inr e ↦ ground (arith, rw (e) at h)
]

strip_prefix_append : (p t : Text) → strip_prefix p (p ++ t) ≡ some t
unfolding strip_prefix
strip_prefix_append [] t = refl
strip_prefix_append (a ∷ p) t = rw ((==_iff a a).1 refl) (strip_prefix_append p t)

bears_iff :
    (header token : Text) → (bears header token ≡ true) ↔ (header ≡ codes "Bearer " ++ token)
unfolding bears
bears_iff header token = (
  λ h. elim (Option-cases (strip_prefix (codes "Bearer ") header)) [
    | inl e ↦ ground (arith, rw (e, bears) at h)
    | inr (t, e) ↦
        strip_prefix-some (codes "Bearer ") header t e
        ∙ ap (λ x. codes "Bearer " ++ x) (text_eq→eq t token (rw (e, bears) at h))
  ],
  λ h. ground (arith, h, strip_prefix_append (codes "Bearer ") token, text_eq_refl token),
)

-- `auth` calls the handler behind it exactly when the header is "Bearer " followed by the token.
auth_iff :
    {V : Type 0} (s : Server V) (header : Text)
    → (auth s header (λ e. false) true ≡ true) ↔ (header ≡ codes "Bearer " ++ s.token)
unfolding auth
auth_iff s header = ground (arith, bears_iff header s.token)

-- `mcpAuth` calls the frontend exactly when the Origin is local or missing, the MCP credential could be
-- read and is not empty, the header is "Bearer " followed by it, and the frontend is mounted.
mcp_auth_iff :
    {V : Type 0} (hostname : Text → Option Text) (s : Server V) (origin header : Text)
    → (mcp_auth hostname s origin header (λ n e. false) true ≡ true) ↔ (
        (local_origin hostname origin ≡ true)
        × (s.mcp_err ≡ false)
        × (is_empty s.mcp_tok ≡ false)
        × (header ≡ codes "Bearer " ++ s.mcp_tok)
        × (s.mcp_mounted ≡ true))
unfolding mcp_auth
mcp_auth_iff hostname s origin header = ground (arith, bears_iff header s.mcp_tok)
