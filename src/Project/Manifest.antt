-- ===== src/Project/Manifest.antt =====
-- internal/project/project.go: the manifest game-forge.yaml, its discovery and its validation.
-- A Go map is an association list in the order in which `range` happens to visit it. A path is the list
-- of its components, the innermost first, and the file system below it is the record `Files`.
pub mod Laws
pub mod Validity
pub mod Search
mod Examples
unfoldable pub use game_forge.Prelude.{lookup}
pub use game_forge.Prelude.{has, is_nil}
use game_forge.Contract.{ContractError, parse}
use game_forge.Prelude.Int.{ℤ}
use game_forge.Prelude.{
  ℕ, zero, suc, ◌+◌, Bool, true, false, ◌&&◌, ◌||◌, not, String, ◌==ₛ◌, List, [], ◌∷◌, Option, none,
  some, Text, is_empty, Result, ok, err, ◌>>=◌, ◌==◌, if◌then◌else◌,
}

abbrev pub FilePath : Type 0
FilePath = List String

pub record Adapter : Type 0 where
  pub command : List String
  pub protocol : String

pub record Server : Type 0 where
  pub build : List String
  pub command : List String
  pub url : String
  pub ready_timeout : ℤ

pub record Servers : Type 0 where
  pub dev : Server
  pub prod : Server

pub record Stage : Type 0 where
  pub name : String
  pub uses : String
  pub command : List String
  pub browser : Bool
  pub eval : String
  pub click : String
  pub sweep : Bool
  pub prod : Bool
  pub ticks : ℤ
  pub console : Bool
  pub timeout : ℤ

pub record Manifest : Type 0 where
  pub contract : Text
  pub project_id : Text
  pub project_type : String
  pub capabilities : List (String × Bool)
  pub adapters : List (String × Adapter)
  pub server : Servers
  pub default_ticks : ℤ
  pub default_case : String
  pub gpu_scenario : String
  pub gpu_ticks : ℤ
  pub gpu_frames : ℤ
  pub profiles : List (String × List Stage)
  pub root : FilePath

pub data StageError : Type 0 where
  no_name unknown_profile browser_needs_check prod_needs_eval not_one_mode : StageError

pub data ManifestError : Type 0 where
  bad_contract : ContractError → ManifestError
  no_project_id : ManifestError
  adapter_command adapter_protocol no_stages : String → ManifestError
  bad_stage : String → ℕ → StageError → ManifestError

abbrev one_if : Bool → ℕ
one_if true = 1
one_if false = 0

-- The count `modes` of validateStage.
modes : Stage → ℕ
modes s =
    one_if (not (s.uses ==ₛ ""))
    + one_if (not (is_nil s.command))
    + one_if s.browser
    + one_if s.prod
    + one_if s.sweep

pub validate_stage : Manifest → Stage → Option StageError
unfolding modes lookup
validate_stage m s =
    if s.name ==ₛ ""
    then some no_name
    else if not (s.uses ==ₛ "") && not (has (lookup s.uses m.profiles))
    then some unknown_profile
    else if s.browser && (s.eval ==ₛ "" && not s.sweep)
    then some browser_needs_check
    else if s.prod && s.eval ==ₛ ""
    then some prod_needs_eval
    else if modes s == 1
    then none
    else some not_one_mode

validate_adapters : List (String × Adapter) → Option ManifestError
validate_adapters [] = none
validate_adapters ((name, a) ∷ rest) =
    if is_nil a.command
    then some (adapter_command name)
    else if a.protocol ==ₛ ""
    then some (adapter_protocol name)
    else validate_adapters rest

-- The loop over the stages of one profile, from index `i`.
validate_stages : Manifest → String → ℕ → List Stage → Option ManifestError
unfolding validate_stage
validate_stages m profile i [] = none
validate_stages m profile i (s ∷ rest) =
    let later = validate_stages m profile (i + 1) rest in
    elim (validate_stage m s) [ none ↦ later | some e ↦ some (bad_stage profile i e) ]

validate_profiles : Manifest → List (String × List Stage) → Option ManifestError
unfolding validate_stages
validate_profiles m [] = none
validate_profiles m ((name, stages) ∷ rest) =
    let later = validate_profiles m rest in
    if is_nil stages
    then some (no_stages name)
    else elim (validate_stages m name 0 stages) [ none ↦ later | some e ↦ some e ]

-- The checks behind the one of the contract.
validate_parts : Manifest → Option ManifestError
unfolding validate_adapters validate_profiles
validate_parts m =
    if is_empty m.project_id then some no_project_id else elim (validate_adapters m.adapters) [
      | none ↦ validate_profiles m m.profiles
      | some e ↦ some e
    ]

after_contract : Manifest → Result ContractError ℤ → Option ManifestError
unfolding validate_parts
after_contract m (err e) = some (bad_contract e)
after_contract m (ok major) = validate_parts m

unfoldable pub validate : Manifest → Option ManifestError
unfolding after_contract
validate m = after_contract m (parse m.contract)

-- What the package asks of the file system: `os.Stat` of a manifest and of a directory, the decoded
-- manifest (`none`: it cannot be read or is no YAML), and the three functions of `path/filepath`.
pub record Files : Type 0 where
  pub manifest_at : FilePath → Bool
  pub dir_at : FilePath → Bool
  pub decoded : FilePath → Option Manifest
  pub eval_symlinks : FilePath → Option FilePath
  pub absolute : FilePath → Option FilePath
  pub clean : FilePath → FilePath

pub data LoadError : Type 0 where
  no_manifest unresolved unreadable : LoadError
  invalid : ManifestError → LoadError

-- The loop of `Discover`: the parent of the root is the root itself.
walk_up : Files → FilePath → Result LoadError FilePath
walk_up fs [] = if fs.manifest_at [] then ok [] else err no_manifest
walk_up fs (d ∷ parent) =
    let rest = walk_up fs parent in if fs.manifest_at (d ∷ parent) then ok (d ∷ parent) else rest

unfoldable pub discover : Files → FilePath → Result LoadError FilePath
unfolding walk_up
discover fs start = elim (fs.absolute start) [ none ↦ err unresolved | some dir ↦ walk_up fs dir ]

check_manifest : FilePath → Manifest → Option ManifestError → Result LoadError Manifest
check_manifest root m none = ok (record m { root = root })
check_manifest root m (some e) = err (invalid e)

unfoldable pub load : Files → FilePath → Result LoadError Manifest
unfolding check_manifest validate
load fs root = elim (fs.decoded root) [
  | none ↦ err unreadable
  | some m ↦ check_manifest root m (validate m)
]

unfoldable pub discover_and_load : Files → FilePath → Result LoadError Manifest
unfolding discover load
discover_and_load fs start = do root ← discover fs start; load fs root

adapter : Manifest → String → Option Adapter
unfolding lookup
adapter m capability = lookup capability m.adapters

unfoldable pub profile : Manifest → String → Option (List Stage)
unfolding lookup
profile m name = lookup name m.profiles

-- A missing key of a Go map reads as `false`.
supports : Manifest → String → Bool
unfolding lookup
supports m capability = elim (lookup capability m.capabilities) [ none ↦ false | some b ↦ b ]
