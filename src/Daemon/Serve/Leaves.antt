-- ===== src/Daemon/Serve/Leaves.antt =====
-- internal/daemon/server.go, Serve: what a daemon leaves behind when it is stopped.
use game_forge.Prelude.{◌≡◌}
use game_forge.Resource.{Resource}
use game_forge.Daemon.Discovery.{Discovery}
use game_forge.Daemon.Serve.{World}

abbrev Keeps : World → World → Type 0
Keeps v u = (u.endpoint ≡ v.endpoint) × (u.resources ≡ v.resources)
