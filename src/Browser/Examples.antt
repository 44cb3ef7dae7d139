-- ===== src/Browser/Examples.antt =====
-- Tests of the browser provider, and its theorems at concrete inputs.
use game_forge.Prelude.{
  trim_both, true, false, [], ◌∷◌, ◌++◌, Text, codes, text_eq, Option, none, some, ok, ◌≡◌, refl,
  if◌then◌else◌, arith,
}
use game_forge.Contract.{is_space}
use game_forge.Browser.{AgentBrowser, click, words, full_args}
use game_forge.Browser.Quoting.{ps_quote, ps_join}
use game_forge.Browser.WindowsPaths.{
  to_windows_path, from_windows_path, below_mnt, from-to_windows_path,
}
use game_forge.Browser.Options.{read_options, settings, read_options-full_args}
use game_forge.Browser.Output.{
  Envelope, Decoders, brace_open, brace_close, is_complete, parse_envelope, extract_json,
  decode_output,
}
use game_forge.Browser.Output.Noise.{parse_envelope_noise}
use game_forge.Browser.Process.{System, ticked, expired}

ps_quote_apostrophe : ps_quote (codes "it's") ≡ codes "'it''s'"
unfolding ps_quote
ps_quote_apostrophe = refl

ps_join_quotes : ps_join (codes "eval" ∷ codes "a(\"b\")" ∷ []) ≡ codes "'eval' 'a(\\\"b\\\")'"
unfolding ps_join
ps_join_quotes = refl

to_windows_path_tmp : to_windows_path (λ p. p) (codes "/tmp/a.png") ≡ none
unfolding to_windows_path
to_windows_path_tmp = refl

to_windows_path_drive :
    to_windows_path (λ p. p) (codes "/mnt/c/Users/a.png") ≡ some (codes "C:\\Users\\a.png")
unfolding to_windows_path
to_windows_path_drive = refl

from-to_windows_path_example :
    (w : Text) × (to_windows_path (λ p. p) (below_mnt b'c' (codes "a b/c")) ≡ some w)
    × (from_windows_path w ≡ some (below_mnt b'c' (codes "a b/c")))
unfolding is_space
from-to_windows_path_example =
    from-to_windows_path (λ p. p) b'c' (codes "a b/c") refl (omega arith, omega arith)
      (refl, (refl, (refl, (refl, (refl, tt))))) refl

abbrev provider : AgentBrowser
provider = record {
  cli = codes "ab";
  chrome = [];
  headless = true;
  unmuted = false;
  namespace = codes "ns";
  host = [];
}

read_options-full_args_example :
    read_options (full_args provider (words (click (codes "#go"))))
    ≡ settings provider (words (click (codes "#go")) ++ codes "--json" ∷ [])
read_options-full_args_example = read_options-full_args provider (click (codes "#go"))

abbrev success : Envelope
success = record { success = true; payload = codes "1"; error = none }

abbrev json : Text → Option Envelope
json s = if text_eq s (codes "{ok}") then some success else none

extract_json_reversed : extract_json (codes "} warning {") ≡ []
unfolding extract_json trim_both
extract_json_reversed = refl

parse_envelope_noise_example :
    (is_complete json (codes "warn} " ++ brace_open ∷ (codes "ok" ++ brace_close ∷ codes " {"))
      ≡ true)
    × (parse_envelope json (codes "warn} " ++ brace_open ∷ (codes "ok" ++ brace_close ∷ codes " {"))
        ≡ ok success)
parse_envelope_noise_example =
    parse_envelope_noise json (codes "warn} ") (codes "ok") (codes " {") success
      (refl, (refl, (refl, (refl, (refl, (refl, tt)))))) (refl, (refl, tt)) refl refl

abbrev decoders : Decoders
decoders = record { utf16 = λ us. us; utf8 = λ bs. bs }

-- A mark, and two units of which the second has a high byte.
decode_units : decode_output decoders (0xff ∷ 0xfe ∷ 0x7b ∷ 0 ∷ 0 ∷ 1 ∷ 7 ∷ []) ≡ 0x7b ∷ 256 ∷ []
unfolding decode_output
decode_units = refl

abbrev machine : System
machine = record {
  on_windows = false;
  is_windows_host = λ h. false;
  look_path = none;
  host_answer = none;
  shell = codes "ps";
  work_dir = codes "/";
  temp_ok = true;
  start_ok = true;
  moments = ticked (some (codes "{")) ∷ ticked (some (codes "{ok}")) ∷ expired ∷ [];
}
