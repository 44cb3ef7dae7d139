-- ===== src/Cli/Schemas.antt =====
-- schemas/ops: the input schemas of the operations that the command line calls. No schema allows a property
-- that it does not name.
use game_forge.Prelude.{String, ◌==ₛ◌, List, [], ◌∷◌, if◌then◌else◌}

pub data Kind : Type 0 where
  -- A text, with a least length of one in the second case; the name of a server, "dev" or "prod"; milliseconds and
  -- counts, at least zero; an integer of at least one; pairs of integers of at least zero, one at least.
  a_text some_text a_server a_duration a_count a_positive a_bool texts params points : Kind

-- The properties of an operation's input.
unfoldable pub properties : String → List (String × Kind)
properties op =
    if op ==ₛ "doctor.run"
    then ("noCleanup", a_bool)
      ∷ ("leaseMs", a_duration)
      ∷ ("timeoutMs", a_duration)
      ∷ ("unmuted", a_bool)
      ∷ []
    else if op ==ₛ "resource.gc"
    then ("timeoutMs", a_duration) ∷ []
    else if op ==ₛ "server.start"
    then ("server", a_server) ∷ ("leaseMs", a_duration) ∷ []
    else if op ==ₛ "server.stop"
    then ("server", a_server) ∷ []
    else if op ==ₛ "server.status"
    then ("server", a_server) ∷ []
    else if op ==ₛ "scenario.describe"
    then ("id", some_text) ∷ []
    else if op ==ₛ "scenario.run"
    then ("id", some_text)
      ∷ ("seed", a_text)
      ∷ ("world", a_text)
      ∷ ("ticks", a_count)
      ∷ ("browser", a_bool)
      ∷ ("unmuted", a_bool)
      ∷ ("params", params)
      ∷ []
    else if op ==ₛ "scenario.compare"
    then ("ids", texts)
      ∷ ("all", a_bool)
      ∷ ("seed", a_text)
      ∷ ("world", a_text)
      ∷ ("ticks", a_count)
      ∷ ("params", params)
      ∷ ("unmuted", a_bool)
      ∷ []
    else if op ==ₛ "visual.shot"
    then ("case", a_text)
      ∷ ("ticks", a_count)
      ∷ ("seed", a_text)
      ∷ ("world", a_text)
      ∷ ("out", a_text)
      ∷ ("region", a_text)
      ∷ ("expr", a_text)
      ∷ ("unmuted", a_bool)
      ∷ ("leaseMs", a_duration)
      ∷ []
    else if op ==ₛ "visual.sweep"
    then ("ticks", a_count) ∷ ("unmuted", a_bool) ∷ []
    else if op ==ₛ "visual.pixel"
    then ("points", points)
      ∷ ("case", a_text)
      ∷ ("ticks", a_count)
      ∷ ("seed", a_text)
      ∷ ("world", a_text)
      ∷ ("region", a_text)
      ∷ ("image", a_text)
      ∷ ("out", a_text)
      ∷ []
    else if op ==ₛ "browser.eval"
    then ("expr", a_text)
      ∷ ("case", a_text)
      ∷ ("ticks", a_count)
      ∷ ("seed", a_text)
      ∷ ("world", a_text)
      ∷ ("click", a_text)
      ∷ ("press", a_text)
      ∷ ("reload", a_bool)
      ∷ ("unmuted", a_bool)
      ∷ ("leaseMs", a_duration)
      ∷ []
    else if op ==ₛ "browser.errors"
    then ("case", a_text) ∷ ("ticks", a_count) ∷ ("unmuted", a_bool) ∷ []
    else if op ==ₛ "gpu.run"
    then ("scenario", a_text)
      ∷ ("ticks", a_count)
      ∷ ("frames", a_positive)
      ∷ ("unmuted", a_bool)
      ∷ []
    else if op ==ₛ "profile.run"
    then ("profile", some_text) ∷ ("verbose", a_bool) ∷ ("unmuted", a_bool) ∷ ("extra", texts) ∷ []
    else []

-- The properties that it must have.
unfoldable pub required : String → List String
required op =
    if op ==ₛ "scenario.describe"
    then "id" ∷ []
    else if op ==ₛ "scenario.run"
    then "id" ∷ []
    else if op ==ₛ "visual.pixel"
    then "points" ∷ []
    else if op ==ₛ "profile.run"
    then "profile" ∷ []
    else []

-- The operations with a schema that the command line calls.
unfoldable pub op_names : List String
op_names =
    "doctor.run" ∷ "resource.list" ∷ "resource.gc" ∷ "resource.tick" ∷ "server.start"
    ∷ "server.stop" ∷ "server.status" ∷ "project.info" ∷ "scenario.list" ∷ "scenario.describe"
    ∷ "scenario.run" ∷ "scenario.compare" ∷ "visual.shot" ∷ "visual.sweep" ∷ "visual.pixel"
    ∷ "browser.eval" ∷ "browser.errors" ∷ "gpu.run" ∷ "profile.run" ∷ []
