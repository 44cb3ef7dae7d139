-- ===== src/Project/Code.antt =====
-- internal/project: `NormalizeCode` of registry.go and `sanitize` of key.go. Both first map the text
-- rune by rune through Go's `unicode` tables. The ASCII half of those tables is written out; the
-- half above 127 is the argument `other`.
pub mod Laws
mod Examples
use game_forge.Contract.{is_space}
use game_forge.Prelude.{
  ℕ, ◌+◌, ◌-◌, Bool, true, false, ◌&&◌, ◌||◌, List, [], ◌∷◌, map, ltb, leb, ◌==◌, if◌then◌else◌,
  Text, codes, is_empty, ◌++◌, all_by, trim_both, Result, ok, err,
}

-- unicode.ToUpper, unicode.ToLower
unfoldable pub upper : (ℕ → ℕ) → ℕ → ℕ
upper other c = if ltb c 128 then (if leb b'a' c && leb c b'z' then c - 32 else c) else other c

unfoldable pub lower : (ℕ → ℕ) → ℕ → ℕ
lower other c = if ltb c 128 then (if leb b'A' c && leb c b'Z' then c + 32 else c) else other c

-- The number of bytes of a rune in UTF-8; Go's `len` counts bytes.
rune_len : ℕ → ℕ
rune_len c = if ltb c 0x80 then 1 else if ltb c 0x800 then 2 else if ltb c 0x10000 then 3 else 4

pub byte_len : Text → ℕ
unfolding rune_len
byte_len [] = 0
byte_len (c ∷ s) = rune_len c + byte_len s

abbrev pub max_code_len : ℕ
max_code_len = 16

-- The `ok` of the loop: an upper-case letter, a digit, '-' or '_'.
pub code_char : ℕ → Bool
code_char r = (leb b'A' r && leb r b'Z') || (leb b'0' r && leb r b'9') || r == b'-' || r == b'_'

-- The three messages of `NormalizeCode`.
pub data CodeError : Type 0 where
  code_required code_too_long code_bad_char : CodeError

-- The three checks, in the order of the source.
check_code : Text → Result CodeError Text
unfolding byte_len code_char
check_code c =
    if is_empty c
    then err code_required
    else if ltb max_code_len (byte_len c)
    then err code_too_long
    else if all_by code_char c
    then ok c
    else err code_bad_char

unfoldable pub normalize_code : (ℕ → ℕ) → Text → Result CodeError Text
unfolding is_space upper check_code trim_both
normalize_code other code = check_code (map (upper other) (trim_both is_space code))

-- A rune that `sanitize` writes as it is.
pub name_char : ℕ → Bool
name_char r = (leb b'a' r && leb r b'z') || (leb b'0' r && leb r b'9') || r == b'-'

write_rune : ℕ → ℕ
unfolding name_char
write_rune r = if name_char r then r else b'-'

or_project : Text → Text
or_project out = if is_empty out then codes "project" else out

unfoldable pub sanitize : (ℕ → ℕ) → Text → Text
unfolding lower write_rune trim_both or_project
sanitize other s = or_project (trim_both (λ c. c == b'-') (map write_rune (map (lower other) s)))
