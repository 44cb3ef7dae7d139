-- ===== src/Config.antt =====
-- internal/config/config.go: the machine's configuration file. The YAML package is an argument: a decoder
-- sets fields of the value that it is given, and an encoder writes one.
pub mod Laws
mod Examples
use game_forge.Prelude.{
  ℕ, zero, suc, Bool, true, false, String, ◌==ₛ◌, Option, none, some, Result, ok, err,
  if◌then◌else◌, List, [], ◌∷◌, ◌++◌, not,
}
use game_forge.Prelude.Int.{ℤ, pos}
use game_forge.Project.Manifest.{FilePath}

pub record AgentBrowser : Type 0 where
  pub cli : String
  pub chrome : String
  pub headless : Bool
  pub unmuted : Bool
  pub namespace_prefix : String

pub record Browser : Type 0 where
  pub provider : String
  pub host : String
  pub agent_browser : AgentBrowser

pub record Config : Type 0 where
  pub version : ℤ
  pub browser : Browser
  pub compat_text : Bool

abbrev pub current_version : ℤ
current_version = pos 1

pub data ConfigError : Type 0 where
  no_home dir_failed encode_failed write_failed unreadable_file parse_failed : ConfigError
  bad_version : ℤ → ConfigError

-- `Dir`: GAME_FORGE_HOME, or a folder of the home directory.
pub dir : Option FilePath → Option FilePath → Result ConfigError FilePath
dir (some v) home = ok v
dir none none = err no_home
dir none (some home) = ok (home ++ ".game-forge" ∷ [])

-- `Path` and `StateDir`.
pub path : Option FilePath → Option FilePath → Result ConfigError FilePath
unfolding dir
path env home = elim (dir env home) [ err e ↦ err e | ok d ↦ ok (d ++ "config.yaml" ∷ []) ]

state_dir : Option FilePath → Option FilePath → Result ConfigError FilePath
unfolding dir
state_dir env home = elim (dir env home) [ err e ↦ err e | ok d ↦ ok (d ++ "state" ∷ []) ]

-- `Default`.
unfoldable pub default_config : Config
default_config = record {
  version = current_version;
  browser = record {
    provider = "agent-browser";
    host = "";
    agent_browser = record {
      cli = "";
      chrome = "";
      headless = true;
      unmuted = false;
      namespace_prefix = "game-forge";
    };
  };
  compat_text = false;
}

pub is_zero : ℤ → Bool
is_zero (pos zero) = true
is_zero (pos (suc n)) = false
is_zero (ℤ.negsuc n) = false

pub is_current : ℤ → Bool
is_current (pos (suc zero)) = true
is_current v = false

-- A file without a version, or with version 0, has the current one.
pub checked : Config → Result ConfigError Config
unfolding is_zero is_current
checked c =
    let c' = record c { version = if is_zero c.version then current_version else c.version } in
    if is_current c'.version then ok c' else err (bad_version c'.version)

-- What the path holds: nothing, a file that cannot be read, or bytes.
pub data ConfigFile (B : Type 0) : Type 0 where
  missing unreadable : ConfigFile B
  bytes : B → ConfigFile B

-- `Load`: the file is decoded into the defaults.
unfoldable pub load :
    {B : Type 0} → (B → Config → Option Config) → ConfigFile B → Result ConfigError Config
unfolding checked default_config
load decode missing = ok default_config
load decode unreadable = err unreadable_file
load decode (bytes b) = elim (decode b default_config) [
  | none ↦ err parse_failed
  | some c ↦ checked c
]

-- `Save`: what the path holds afterwards, and the error. A write that fails half-way leaves `torn`.
unfoldable pub save :
    {B : Type 0}
    → (Config → Option B)
    → Bool
    → Bool
    → B
    → Config
    → ConfigFile B
    → ConfigFile B × Option ConfigError
save encode dir_ok write_ok torn c file =
    if not dir_ok then (file, some dir_failed) else elim (encode c) [
      | none ↦ (file, some encode_failed)
      | some b ↦ if write_ok then (bytes b, none) else (bytes torn, some write_failed)
    ]
