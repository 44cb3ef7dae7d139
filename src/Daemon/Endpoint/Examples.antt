-- ===== src/Daemon/Endpoint/Examples.antt =====
-- Tests of the endpoint's port, and its theorem at a concrete input.
use game_forge.Prelude.{ℕ, ◌≡◌, refl, Bool, ok, ltb}
use game_forge.Project.Samples.{good_io}
use game_forge.Storage.{store, missing, holds}
use game_forge.Daemon.Endpoint.{bind_endpoint}

-- The ports above 50010 are free.
abbrev high : ℕ → Bool
high p = ltb 50010 p

bind_endpoint_wraps :
    bind_endpoint (λ p. ltb p 50002) good_io 9998 missing ≡ (holds 50000, ok 50000)
unfolding bind_endpoint store
bind_endpoint_wraps = refl
