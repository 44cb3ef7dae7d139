-- ===== src/Daemon/Access/Examples.antt =====
-- Tests of the two authentications.
use game_forge.Prelude.{strip_prefix, ◌≡◌, refl, true, false, some, codes}
use game_forge.Daemon.Dispatch.Samples.{server}
use game_forge.Daemon.Access.{auth, local_origin}

auth_lower_case : auth server (codes "bearer secret") (λ e. false) true ≡ false
unfolding auth
auth_lower_case = refl

local_subdomain : local_origin (λ o. some o) (codes "app.localhost") ≡ true
unfolding local_origin strip_prefix
local_subdomain = refl

remote_origin : local_origin (λ o. some o) (codes "localhost.example.com") ≡ false
unfolding local_origin strip_prefix
remote_origin = refl
