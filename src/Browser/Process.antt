-- ===== src/Browser/Process.antt =====
-- internal/browser/agentbrowser.go, resolveCLI and runRaw: one invocation of agent-browser. The process writes
-- to a temporary file, which is removed at the end; the loop runs over what its `select` picks, and `none` means
-- that the list was too short.
pub mod Settled
use game_forge.Prelude.{
  ℕ, Bool, true, false, not, ◌&&◌, List, [], ◌∷◌, ◌++◌, Text, codes, is_empty, if◌then◌else◌,
  Option, none, some, Result, ok, err, replace, trim_both, join,
}
use game_forge.Contract.{is_space}
use game_forge.Browser.{AgentBrowser, full_args}
use game_forge.Browser.Quoting.{ps_quote, ps_join}
use game_forge.Browser.Output.{Decoders, Envelope, decode_output, is_complete}

pub data ProviderError : Type 0 where
  not_on_path host_failed not_on_host no_temp no_start unreadable : ProviderError
  exit_failed canceled timed_out : ProviderError

-- What `select` picks: the end of the process, with whether it failed; a tick; the end of the context; the timer.
-- The first two come with the content of the output file, if it can be read.
pub data Moment : Type 0 where
  exited : Bool → Option (List ℕ) → Moment
  ticked : Option (List ℕ) → Moment
  done expired : Moment

-- How the wait ended: its answer, and whether the process was killed. It was waited for in either case.
pub record Waited : Type 0 where
  pub answer : Result ProviderError Text
  pub killed : Bool

module _ (d : Decoders) (json : Text → Option Envelope) where
  on_exit : Bool → Option (List ℕ) → Result ProviderError Text
  unfolding decode_output is_complete
  on_exit failed none = err unreadable
  on_exit failed (some bytes) =
      let text = decode_output d bytes in
      if failed && not (is_complete json text) then err exit_failed else ok text

  -- `readCompleteResponse`
  read_complete_response : Option (List ℕ) → Option Text
  unfolding decode_output is_complete
  read_complete_response none = none
  read_complete_response (some bytes) =
      let text = decode_output d bytes in if is_complete json text then some text else none

  -- The loop of runRaw.
  wait : List Moment → Option Waited
  unfolding on_exit read_complete_response
  wait [] = none
  wait (exited failed output ∷ ms) =
      some (record { answer = on_exit failed output; killed = false })
  wait (ticked output ∷ ms) =
      let later = wait ms in
      elim (read_complete_response output) [
        | none ↦ later
        | some text ↦ some (record { answer = ok text; killed = true })
      ]
  wait (done ∷ ms) = some (record { answer = err canceled; killed = true })
  wait (expired ∷ ms) = some (record { answer = err timed_out; killed = true })

-- What the system answers: whether the program itself runs on Windows, strings.EqualFold of the host with
-- "windows", the command on the path, what the Windows host prints, PowerShell and the directory it is started in,
-- and whether a temporary file and a process can be had.
pub record System : Type 0 where
  pub on_windows : Bool
  pub is_windows_host : Text → Bool
  pub look_path : Option Text
  pub host_answer : Option Text
  pub shell : Text
  pub work_dir : Text
  pub temp_ok : Bool
  pub start_ok : Bool
  pub moments : List Moment

pub use_interop : System → AgentBrowser → Bool
use_interop y a = y.is_windows_host a.host && not y.on_windows

found_on_host : Option Text → Result ProviderError Text
unfolding is_space
found_on_host none = err host_failed
found_on_host (some out) =
    let p = trim_both is_space (replace b'\r' [] out) in
    if is_empty p then err not_on_host else ok p

found_on_path : Option Text → Result ProviderError Text
found_on_path none = err not_on_path
found_on_path (some p) = ok p

-- `resolveCLI`: the path, which the provider keeps.
pub resolve_cli : System → AgentBrowser → Result ProviderError Text
unfolding use_interop found_on_host found_on_path
resolve_cli y a =
    if not (is_empty a.cli)
    then ok a.cli
    else if not (use_interop y a)
    then found_on_path y.look_path
    else found_on_host y.host_answer

-- A program with its arguments, and the directory it is started in if one is set.
pub record Invocation : Type 0 where
  pub program : Text
  pub args : List Text
  pub dir : Option Text

pub invocation : System → AgentBrowser → Text → List Text → Invocation
unfolding use_interop ps_quote ps_join
invocation y a cli args =
    if use_interop y a
    then record {
      program = y.shell;
      args =
          codes "-NoProfile"
          ∷ codes "-ExecutionPolicy"
          ∷ codes "Bypass"
          ∷ codes "-Command"
          ∷ (codes "& " ++ (ps_quote cli ++ (codes " " ++ ps_join args)))
          ∷ [];
      dir = some y.work_dir;
    }
    else record { program = cli; args = args; dir = none }

-- The process that `resolveCLI` runs to its end before, when it has to ask the Windows host.
pub host_query : System → Invocation
host_query y = record {
  program = y.shell;
  args =
      codes "-NoProfile"
      ∷ codes "-Command"
      ∷ codes "(Get-Command agent-browser -ErrorAction SilentlyContinue).Source"
      ∷ [];
  dir = none;
}

resolving : System → AgentBrowser → Option Invocation
unfolding use_interop host_query
resolving y a =
    if not (is_empty a.cli)
    then none
    else if not (use_interop y a)
    then none
    else some (host_query y)

-- The answer of runRaw, what asked the host, what was started, and whether it was killed.
pub record Ran : Type 0 where
  pub asked : Option Invocation
  pub answer : Result ProviderError Text
  pub started : Option Invocation
  pub killed : Bool

refused : Option Invocation → ProviderError → Ran
refused q e = record { asked = q; answer = err e; started = none; killed = false }

ran : Option Invocation → Invocation → Waited → Ran
ran q i w = record { asked = q; answer = w.answer; started = some i; killed = w.killed }

module _ (d : Decoders) (json : Text → Option Envelope) (y : System) where
  run_with : AgentBrowser → List Text → Text → Option Ran
  unfolding refused ran invocation wait resolving
  run_with a args cli =
      if not y.temp_ok
      then some (refused (resolving y a) no_temp)
      else if not y.start_ok
      then some (refused (resolving y a) no_start)
      else elim (wait d json y.moments) [
        | none ↦ none
        | some w ↦ some (ran (resolving y a) (invocation y a cli args) w)
      ]

  unfoldable pub run_raw : AgentBrowser → List Text → Option Ran
  unfolding run_with resolve_cli resolving
  run_raw a args = elim (resolve_cli y a) [
    | err e ↦ some (refused (resolving y a) e)
    | ok cli ↦ run_with a args cli
  ]

  unfoldable pub run : AgentBrowser → List Text → Option Ran
  unfolding run_raw full_args
  run a args = run_raw a (full_args a args)
