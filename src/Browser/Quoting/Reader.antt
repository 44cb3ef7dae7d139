-- ===== src/Browser/Quoting/Reader.antt =====
-- internal/browser/agentbrowser.go, psJoin: the arguments can be read back from the command line.
use game_forge.Prelude.{
  ◌%◌, ◌/◌, true, not, leb, ◌||◌, Bool, all_by, ℕ, zero, suc, List, [], ◌∷◌, ◌++◌, map, Text, false,
  ◌==◌, if◌then◌else◌, Option, none, some, ◌≡◌, refl, arith, ◌&&◌, head_is,
}
use mathlib.Core.Option
use game_forge.Browser.Quoting.{quote, double, backslash, space, escaped}

-- The characters that PowerShell takes for a single quote: the one of ASCII, and U+2018 to U+201B.
is_curly : ℕ → Bool
is_curly c = leb 0x2018 c && leb c 0x201b

is_quote : ℕ → Bool
unfolding is_curly
is_quote c = (c == quote) || is_curly c

-- The rest of a text in single quotes, in which two of them stand for the second, and what follows it.
unquote : Text → Option (Text × Text)
unfolding is_quote
unquote [] = none
unquote (c ∷ []) = if is_quote c then some ([], []) else none
unquote (c ∷ d ∷ s) =
    let shorter = unquote s in
    let longer = unquote (d ∷ s) in
    if is_quote c
    then (if is_quote d then Option.map (λ (w, rest). (d ∷ w, rest)) shorter else some ([], d ∷ s))
    else Option.map (λ (w, rest). (c ∷ w, rest)) longer

backslashes : ℕ → Text
backslashes zero = []
backslashes (suc n) = backslash ∷ backslashes n

-- The rule of the C runtime of MSVC, after `n` backslashes: before a double quote two backslashes stand for one, and
-- one that is left over makes the quote a character; else the quote is dropped. Elsewhere a backslash is itself.
unescape : ℕ → Text → Text
unfolding backslashes
unescape n [] = backslashes n
unescape n (c ∷ s) =
    let more = unescape (suc n) s in
    let rest = unescape 0 s in
    if c == backslash
    then more
    else if c == double
    then (if n % 2 == 1 then backslashes (n / 2) ++ double ∷ rest else backslashes (n / 2) ++ rest)
    else backslashes n ++ c ∷ rest

-- No backslash stands directly before a double quote.
is_unescaped : Text → Bool
is_unescaped [] = true
is_unescaped (c ∷ s) = not ((c == backslash) && head_is (λ d. d == double) s) && is_unescaped s

-- What an argument must be for the two readers: no curly quote, and no backslash before a double quote.
unfoldable pub is_plain : Text → Bool
unfolding is_curly is_unescaped
is_plain a = all_by (λ c. not (is_curly c)) a && is_unescaped a

-- The words of a command line, each in single quotes.
quoted_words : ℕ → Text → Option (List Text)
unfolding unquote
quoted_words n [] = some []
quoted_words zero (c ∷ s) = none
quoted_words (suc n) (c ∷ s) =
    let skipped = quoted_words n s in
    if c == quote
    then elim (unquote s) [
      | none ↦ none
      | some (w, rest) ↦ Option.map (λ ws. w ∷ ws) (quoted_words n rest)
    ]
    else if c == space
    then skipped
    else none

-- What the shell reads of the line, and the runtime of the program of each word.
pub read_line : ℕ → Text → Option (List Text)
unfolding quoted_words unescape
read_line n line = Option.map (map (unescape 0)) (quoted_words n line)

has_no_curly : Text → Bool
unfolding is_curly
has_no_curly a = all_by (λ c. not (is_curly c)) a

head_is-escaped : (s : Text) → head_is (λ d. d == double) (escaped s) ≡ false
unfolding escaped
head_is-escaped [] = refl
head_is-escaped (c ∷ s) = ground arith
