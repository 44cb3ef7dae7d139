-- ===== src/Project/Samples.antt =====
-- Data for the tests: a machine with one project, in the directory /home/game.
use game_forge.Prelude.{◌==ₛ◌, Bool, true, false, [], ◌∷◌, none, some, codes, if◌then◌else◌}
use game_forge.Prelude.Int.{pos}
use game_forge.Storage.{Io, malformed, holds}
use game_forge.Project.Key.{Machine}
use game_forge.Project.Manifest.{FilePath, Files, Manifest, Stage, Server}
use game_forge.Project.Registry.{RegistryFile, RegistryDisk, Registration}

abbrev pub smoke_stage : Stage
smoke_stage = record {
  name = "smoke";
  uses = "";
  command = "true" ∷ [];
  browser = false;
  eval = "";
  click = "";
  sweep = false;
  prod = false;
  ticks = pos 0;
  console = false;
  timeout = pos 0;
}

abbrev pub all_stage : Stage
all_stage = record {
  name = "all";
  uses = "quick";
  command = [];
  browser = false;
  eval = "";
  click = "";
  sweep = false;
  prod = false;
  ticks = pos 0;
  console = false;
  timeout = pos 0;
}

abbrev no_server : Server
no_server = record { build = []; command = []; url = ""; ready_timeout = pos 0 }

abbrev pub game : Manifest
game = record {
  contract = codes "game-forge/v1";
  project_id = codes "spin";
  project_type = "web";
  capabilities = [];
  adapters = [];
  server = record { dev = no_server; prod = no_server };
  default_ticks = pos 60;
  default_case = "";
  gpu_scenario = "";
  gpu_ticks = pos 0;
  gpu_frames = pos 0;
  profiles = ("quick", smoke_stage ∷ []) ∷ ("full", all_stage ∷ []) ∷ [];
  root = [];
}

abbrev pub home : FilePath
home = "game" ∷ "home" ∷ []

abbrev is_game : FilePath → Bool
is_game [] = false
is_game (n ∷ p) = n ==ₛ "game"

abbrev pub files : Files
files = record {
  manifest_at = is_game;
  dir_at = is_game;
  decoded = λ p. if is_game p then some game else none;
  eval_symlinks = λ p. some p;
  absolute = λ p. some p;
  clean = λ p. p;
}

abbrev pub machine : Machine
machine = record { files = files; upper = λ c. c; lower = λ c. c; digest = λ p. codes "a81c92" }

abbrev pub good_io : {D : Type 0} → Io D
good_io = record {
  dir_ok = true;
  encode_ok = true;
  temp_ok = true;
  write_ok = true;
  torn = malformed;
  sync_ok = true;
  close_ok = true;
  rename_ok = true;
}

abbrev full_disk : Io RegistryFile
full_disk = record {
  dir_ok = true;
  encode_ok = true;
  temp_ok = true;
  write_ok = false;
  torn = malformed;
  sync_ok = true;
  close_ok = true;
  rename_ok = true;
}

abbrev pub spin : Registration
spin = record {
  code = codes "SP1";
  root = home;
  project_id = codes "spin";
  project_key = codes "spin-a81c92";
}

-- The machine's registry with this project.
abbrev pub one_project : RegistryDisk
one_project = holds (record { version = 1; projects = spin ∷ [] })
