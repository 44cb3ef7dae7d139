-- ===== src/Browser/Process/Settled.antt =====
-- internal/browser/agentbrowser.go, runRaw: every invocation comes to an end, and how.
use game_forge.Prelude.{
  is_empty, ℕ, Bool, true, false, not, ◌&&◌, List, [], ◌∷◌, Text, if◌then◌else◌, Option, none, some,
  Result, ok, err, ◌≡◌, ◌⊎◌, In,
}
use game_forge.Browser.{AgentBrowser}
use game_forge.Browser.Output.{Decoders, Envelope, is_complete}
use game_forge.Browser.Process.{
  ProviderError, canceled, timed_out, Moment, exited, ticked, done, expired, System, Invocation,
  Ran, host_query,
}

-- The process, the context or the timer ends in the list.
unfoldable pub Ends : List Moment → Type 0
Ends [] = ⊥
Ends (exited failed output ∷ ms) = Unit
Ends (ticked output ∷ ms) = Ends ms
Ends (done ∷ ms) = Unit
Ends (expired ∷ ms) = Unit

module _ (d : Decoders) (json : Text → Option Envelope) (ms : List Moment) where
  -- The answer of a process that was killed: a complete response, or that it took too long.
  IsCut : Result ProviderError Text → Type 0
  IsCut r =
      ((text : Text) × (r ≡ ok text) × (is_complete json text ≡ true))
      ⊎ (r ≡ err canceled)
      ⊎ (r ≡ err timed_out)

  -- The answer of a process that ended: its output, which is complete if it failed, or an error.
  IsExit : Result ProviderError Text → Type 0
  IsExit r =
      (failed : Bool) × (output : Option (List ℕ)) × In (exited failed output) ms
      × (((text : Text) × (r ≡ ok text) × ((failed ≡ false) ⊎ (is_complete json text ≡ true)))
          ⊎ ((e : ProviderError) × (r ≡ err e)))

  IsWaited : Result ProviderError Text → Bool → Type 0
  unfolding IsCut IsExit
  IsWaited r killed = ((killed ≡ true) × IsCut r) ⊎ ((killed ≡ false) × IsExit r)

module _ (d : Decoders) (json : Text → Option Envelope) (y : System) where
  -- The Windows host is asked if there is no command yet and it is to run there.
  asks : AgentBrowser → Option Invocation
  asks a =
      if is_empty a.cli && (y.is_windows_host a.host && not y.on_windows)
      then some (host_query y)
      else none

  -- No command was started; or one was, and the wait for it ended.
  pub IsSettled : AgentBrowser → Ran → Type 0
  unfolding IsWaited asks
  IsSettled a r =
      (r.asked ≡ asks a)
      × (((e : ProviderError) × (r.answer ≡ err e) × (r.started ≡ none) × (r.killed ≡ false))
          ⊎ ((i : Invocation) × (r.started ≡ some i) × IsWaited d json y.moments r.answer r.killed))
