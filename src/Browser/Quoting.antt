-- ===== src/Browser/Quoting.antt =====
-- internal/browser/agentbrowser.go, psQuote and psJoin: an argument list as a PowerShell command line.
pub mod Reader
use game_forge.Prelude.{ℕ, List, [], ◌∷◌, ◌++◌, map, Text, replace, join}

abbrev pub quote : ℕ
quote = 39

abbrev pub double : ℕ
double = 34

abbrev pub backslash : ℕ
backslash = 92

abbrev pub space : ℕ
space = 32

-- `psQuote`
unfoldable pub ps_quote : Text → Text
unfolding replace
ps_quote s = (quote ∷ []) ++ replace quote (quote ∷ quote ∷ []) s ++ quote ∷ []

-- The escaping of the double quotes.
unfoldable pub escaped : Text → Text
unfolding replace
escaped a = replace double (backslash ∷ double ∷ []) a

-- `psJoin`
unfoldable pub ps_join : List Text → Text
unfolding ps_quote escaped join
ps_join args = join (space ∷ []) (map (λ a. ps_quote (escaped a)) args)
