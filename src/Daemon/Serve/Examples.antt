-- ===== src/Daemon/Serve/Examples.antt =====
-- Tests of the daemon's life, and its theorems at concrete inputs.
use game_forge.Resource.{Resource, Files}
use game_forge.Prelude.{[], ◌∷◌, none, ok, true, false, codes, some}
use game_forge.Prelude.Int.{pos}
use game_forge.Project.Samples.{good_io}
use game_forge.Storage.{missing, holds}
use game_forge.Daemon.Serve.{World, stopped, Surroundings, serve}
use game_forge.Daemon.Serve.Ends.{IsServed, serve-Life}

abbrev surroundings : Surroundings
surroundings = record {
  lock = (1, ok tt);
  token = codes "secret";
  fresh = none;
  free_port = λ p. true;
  endpoint_io = good_io;
  start = 7;
  url = λ p. "http://127.0.0.1";
  pid = pos 42;
  discovery_io = good_io;
  core_builds = true;
  host = record {
    arrange = λ rs. rs;
    lists = true;
    removes = λ n. true;
    closes_browser = λ n. true;
  };
  now = 100;
  runs = [];
  while_serving = λ fs. fs;
  ending = stopped;
  startup_free = true;
  unlinks = true;
}

abbrev tab : Resource
tab = record {
  id = "browser-a";
  run_id = "r1";
  project = "spin";
  project_key = "spin-a";
  kind = "browser";
  provider = "agent-browser";
  namespace = "ns";
  pid = pos 0;
  host = "";
  created = 2;
  expires = 500;
  metadata = [];
}

abbrev files : Files
files = ("browser-a", some tab) ∷ []

abbrev world : World
world = record {
  endpoint = holds 50001;
  discovery = missing;
  resources = files;
  removed_locks = 0;
  lock_held = false;
  trace = [];
}

serve-Life_example : IsServed surroundings world (serve surroundings world)
serve-Life_example = serve-Life surroundings world
