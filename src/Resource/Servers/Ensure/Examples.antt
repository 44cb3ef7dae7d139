-- ===== src/Resource/Servers/Ensure/Examples.antt =====
-- A test of Ensure, and its theorem at a concrete input.
use game_forge.Prelude.{ℕ, true, false, none, some, err, ◌≡◌, refl, [], ◌∷◌, Option, arith}
use game_forge.Prelude.Int.{pos}
use game_forge.Storage.{missing, Io}
use game_forge.Polling.{Round, wait_until}
use game_forge.Resource.{Resource, Host}
use game_forge.Resource.Servers.Ensure.{
  timeout_of, Options, System, Ensured, not_ready, started, killed, ensure,
}
use game_forge.Resource.Servers.Ensure.Handover.{HandsOver, ensure-HandsOver}

abbrev works : Io Resource
works = record {
  dir_ok = true;
  encode_ok = true;
  temp_ok = true;
  write_ok = true;
  torn = missing;
  sync_ok = true;
  close_ok = true;
  rename_ok = true;
}

abbrev registry : Host
registry = record {
  arrange = λ rs. rs;
  lists = true;
  removes = λ n. true;
  closes_browser = λ n. true;
}

abbrev dev_server : Options
dev_server = record {
  name = "dev";
  command = "npm" ∷ "run" ∷ [];
  url = "http://h";
  ready_timeout = pos 300;
  run_id = "r1";
  project = "spin";
  project_key = "spin-a";
  lease = pos 0;
  registry = some registry;
}

abbrev round_at : ℕ → Option (Unit {0}) → Round (Unit {0})
round_at t seen = record { now = t; seen = seen; done = false }

-- A server that answers in the second round, or never.
abbrev machine : Option (Unit {0}) → System
machine seen = record {
  reachable = false;
  log_ok = true;
  process = some (pos 7);
  group = pos 7;
  rounds = round_at 10 none ∷ round_at 260 seen ∷ round_at 510 none ∷ [];
  io = works;
  now = 10;
  itoa = λ n. "7";
}

ensure_silent :
    ensure (machine none) dev_server []
    ≡ some (record {
      answer = err not_ready;
      files = [];
      events = started (pos 7) ∷ killed (pos 7) ∷ [];
    })
unfolding ensure wait_until
ensure_silent = refl

ensure-HandsOver_example :
    (r : Ensured) × (ensure (machine (some tt)) dev_server [] ≡ some r)
    × HandsOver (machine (some tt)) dev_server [] r
unfolding timeout_of
ensure-HandsOver_example =
    ensure-HandsOver (machine (some tt)) dev_server []
      ((omega arith, (omega arith, (omega arith, tt))), omega arith, omega arith)
