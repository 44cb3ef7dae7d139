-- ===== src/Browser.antt =====
-- internal/browser/agentbrowser.go: the provider that drives the agent-browser command. This file has the
-- command lines: the options before every command, and the commands. A number in a command is the text that
-- strconv.Itoa gives.
mod Examples
pub mod Quoting
pub mod WindowsPaths
pub mod Options
pub mod Output
pub mod Process
use game_forge.Prelude.{
  Bool, true, false, not, List, [], ◌∷◌, ◌++◌, Text, codes, is_empty, if◌then◌else◌, join,
}

pub record AgentBrowser : Type 0 where
  pub cli : Text
  pub chrome : Text
  pub headless : Bool
  pub unmuted : Bool
  pub namespace : Text
  pub host : Text

abbrev pub managed_flags : List Text
managed_flags =
    codes "--no-sandbox"
    ∷ codes "--disable-dev-shm-usage"
    ∷ codes "--disable-background-networking"
    ∷ codes "--disable-sync"
    ∷ codes "--disable-default-apps"
    ∷ codes "--disable-translate"
    ∷ codes "--disable-component-update"
    ∷ codes "--no-first-run"
    ∷ []

-- The flags that `LaunchArgs` joins.
unfoldable pub launch_flags : Bool → List Text
launch_flags unmuted =
    if not unmuted then managed_flags ++ codes "--mute-audio" ∷ [] else managed_flags

-- `LaunchArgs`
unfoldable pub launch_args : Bool → Text
unfolding launch_flags join
launch_args unmuted = join (codes ",") (launch_flags unmuted)

-- The three conditional parts of `baseArgs`.
unfoldable pub chrome_option : Text → List Text
chrome_option chrome = if not (is_empty chrome) then codes "--executable-path" ∷ chrome ∷ [] else []

unfoldable pub launch_option : Text → List Text
launch_option la = if not (is_empty la) then codes "--args" ∷ la ∷ [] else []

unfoldable pub headed_option : Bool → List Text
headed_option headless = if not headless then codes "--headed" ∷ [] else []

-- `baseArgs`
base_args : AgentBrowser → List Text
unfolding chrome_option launch_option headed_option launch_args
base_args a =
    codes "--namespace" ∷ a.namespace ∷ chrome_option a.chrome
    ++ (launch_option (launch_args a.unmuted) ++ headed_option a.headless)

-- The methods of the provider that run a command.
pub data Command : Type 0 where
  reload page_errors console clear_errors clear_console close : Command
  open_page click press eval screenshot : Text → Command
  set_viewport : Text → Text → Command

-- The arguments that each of them passes to `run`.
unfoldable pub words : Command → List Text
words (open_page url) = if not (is_empty url) then codes "open" ∷ url ∷ [] else codes "open" ∷ []
words reload = codes "reload" ∷ []
words (set_viewport width height) = codes "set" ∷ codes "viewport" ∷ width ∷ height ∷ []
words (click selector) = codes "click" ∷ selector ∷ []
words (press key) = codes "press" ∷ key ∷ []
words page_errors = codes "errors" ∷ []
words console = codes "console" ∷ []
words clear_errors = codes "errors" ∷ codes "--clear" ∷ []
words clear_console = codes "console" ∷ codes "--clear" ∷ []
words (eval js) = codes "eval" ∷ js ∷ []
words (screenshot path) = codes "screenshot" ∷ path ∷ []
words close = codes "close" ∷ codes "--all" ∷ []

-- The arguments that `run` makes of them.
unfoldable pub full_args : AgentBrowser → List Text → List Text
unfolding base_args
full_args a args = base_args a ++ (args ++ codes "--json" ∷ [])
