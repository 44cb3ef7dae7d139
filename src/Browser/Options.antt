-- ===== src/Browser/Options.antt =====
-- internal/browser/agentbrowser.go, baseArgs and run: what a command reads that knows the global options only in
-- front of the subcommand, and splits --args at its commas, as the comments there describe agent-browser.
use game_forge.Prelude.{
  Bool, true, false, not, List, [], ◌∷◌, ◌++◌, Text, codes, text_eq, ◌==◌, if◌then◌else◌, ◌≡◌, refl,
  ap, ◌∙◌,
}
use mathlib.Core.List.{append_assoc}
use game_forge.Browser.{
  AgentBrowser, Command, open_page, reload, set_viewport, click, press, page_errors, console,
  clear_errors, clear_console, eval, screenshot, close, launch_flags, launch_args, chrome_option,
  launch_option, headed_option, words, full_args,
}

pub record Seen : Type 0 where
  pub namespace : Text
  pub chrome : Text
  pub launch : List Text
  pub headed : Bool
  pub command : List Text

-- The parts of a text between its commas.
fields : Text → List Text
fields [] = [] ∷ []
fields (c ∷ s) =
    let rest = fields s in
    if c == b',' then [] ∷ rest else elim rest [ [] ↦ (c ∷ []) ∷ [] | w ∷ ws ↦ (c ∷ w) ∷ ws ]

-- No options, and the subcommand with its arguments.
only : List Text → Seen
only args = record { namespace = []; chrome = []; launch = []; headed = false; command = args }

-- The options in front of the subcommand.
pub read_options : List Text → Seen
unfolding only fields
read_options [] = only []
read_options (a ∷ []) =
    if text_eq a (codes "--headed") then record (only []) { headed = true } else only (a ∷ [])
read_options (a ∷ b ∷ args) =
    let after_one = read_options (b ∷ args) in
    let after_two = read_options args in
    if text_eq a (codes "--headed")
    then record after_one { headed = true }
    else if text_eq a (codes "--namespace")
    then record after_two { namespace = b }
    else if text_eq a (codes "--executable-path")
    then record after_two { chrome = b }
    else if text_eq a (codes "--args")
    then record after_two { launch = fields b }
    else only (a ∷ b ∷ args)

read_options-words :
    (c : Command)
    → read_options (words c ++ codes "--json" ∷ []) ≡ only (words c ++ codes "--json" ∷ [])
unfolding read_options words
read_options-words (open_page []) = refl
read_options-words (open_page (x ∷ url)) = refl
read_options-words reload = refl
read_options-words (set_viewport width height) = refl
read_options-words (click selector) = refl
read_options-words (press key) = refl
read_options-words page_errors = refl
read_options-words console = refl
read_options-words clear_errors = refl
read_options-words clear_console = refl
read_options-words (eval js) = refl
read_options-words (screenshot path) = refl
read_options-words close = refl

read_options-headed :
    (headless : Bool) (rest : List Text)
    → read_options rest ≡ only rest
    → read_options (headed_option headless ++ rest) ≡ record (only rest) { headed = not headless }
unfolding read_options headed_option only
read_options-headed true rest h = h
read_options-headed false [] h = refl
read_options-headed false (a ∷ rest) h = ap {A = Seen} (λ x. record x { headed = true }) h

read_options-launch :
    (unmuted : Bool) (rest : List Text)
    → read_options (launch_option (launch_args unmuted) ++ rest)
      ≡ record (read_options rest) { launch = launch_flags unmuted }
unfolding read_options launch_option launch_args fields
read_options-launch true rest = refl
read_options-launch false rest = refl

read_options-chrome :
    (chrome : Text) (rest : List Text)
    → (read_options rest).chrome ≡ []
    → read_options (chrome_option chrome ++ rest) ≡ record (read_options rest) { chrome = chrome }
unfolding read_options chrome_option
read_options-chrome [] rest h = ap (λ x. record (read_options rest) { chrome = x }) h
read_options-chrome (c ∷ chrome) rest h = refl

-- The managed flags, and the one that depends on the settings.
flags_seen : Bool → List Text
flags_seen unmuted =
    let managed =
      codes "--no-sandbox"
      ∷ codes "--disable-dev-shm-usage"
      ∷ codes "--disable-background-networking"
      ∷ codes "--disable-sync"
      ∷ codes "--disable-default-apps"
      ∷ codes "--disable-translate"
      ∷ codes "--disable-component-update"
      ∷ codes "--no-first-run"
      ∷ [] in
    if unmuted then managed else managed ++ codes "--mute-audio" ∷ []

launch_flags_seen : (unmuted : Bool) → launch_flags unmuted ≡ flags_seen unmuted
unfolding launch_flags flags_seen
launch_flags_seen true = refl
launch_flags_seen false = refl

-- What is to be seen of a provider's settings in front of a command.
pub settings : AgentBrowser → List Text → Seen
unfolding flags_seen
settings a command = record {
  namespace = a.namespace;
  chrome = a.chrome;
  launch = flags_seen a.unmuted;
  headed = not a.headless;
  command = command;
}

-- In the arguments of every command, the options in front of the subcommand say the namespace, the
-- browser, each of the managed launch flags of its own, --mute-audio after them unless the browser is unmuted, and whether
-- the browser is headed; the subcommand and its arguments follow as they are, with --json behind them.
pub read_options-full_args :
    (a : AgentBrowser) (c : Command)
    → read_options (full_args a (words c)) ≡ settings a (words c ++ codes "--json" ∷ [])
unfolding full_args settings only read_options flags_seen
read_options-full_args a c =
    let rest = words c ++ codes "--json" ∷ [] in
    let headed = read_options-headed a.headless rest (read_options-words c) in
    let launch =
      read_options-launch a.unmuted (headed_option a.headless ++ rest)
      ∙ ap {A = Seen} (λ x. record x { launch = launch_flags a.unmuted }) headed
      ∙ ap (λ fs. record (only rest) { headed = not a.headless; launch = fs })
          (launch_flags_seen a.unmuted) in
    let chrome =
      read_options-chrome a.chrome
        (launch_option (launch_args a.unmuted) ++ (headed_option a.headless ++ rest))
        (ap (λ x. x.chrome) launch)
      ∙ ap {A = Seen} (λ x. record x { chrome = a.chrome }) launch in
    ap {A = List Text} (λ x. record (read_options x) { namespace = a.namespace })
      (append_assoc (chrome_option a.chrome)
          (launch_option (launch_args a.unmuted) ++ headed_option a.headless) rest
        ∙ ap (λ x. chrome_option a.chrome ++ x)
            (append_assoc (launch_option (launch_args a.unmuted)) (headed_option a.headless) rest))
    ∙ ap {A = Seen} (λ x. record x { namespace = a.namespace }) chrome
