-- ===== src/Config/Examples.antt =====
-- Tests of the machine's configuration, and its theorem at a concrete input.
use game_forge.Prelude.{some, ok, err, ◌≡◌, refl}
use game_forge.Prelude.Int.{pos}
use game_forge.Config.{Config, bytes, bad_version, default_config, load}

-- A file without a version.
load_unversioned :
    load (λ (b : Config) d. some b) (bytes (record default_config { version = pos 0 }))
    ≡ ok default_config
unfolding load
load_unversioned = refl

load_newer :
    load (λ (b : Config) d. some b) (bytes (record default_config { version = pos 2 }))
    ≡ err (bad_version (pos 2))
unfolding load
load_newer = refl
