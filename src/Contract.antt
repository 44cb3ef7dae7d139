-- ===== src/Contract.antt =====
-- Package internal/contract: `Parse` of contract.go. An identifier is walked rune by rune; of Go's
-- `fmt.Sscanf` the verb `%d` is written out, which stops behind the digits.
pub mod Laws
mod Examples
use mathlib.Core.Option
use game_forge.Prelude.Int.{ℤ, pos, negsuc}
use game_forge.Prelude.{
  ℕ, zero, suc, ◌+◌, ◌-◌, ◌*◌, ◌^◌, Bool, true, false, ◌&&◌, ◌||◌, List, [], ◌∷◌, ltb, leb, ◌==◌,
  if◌then◌else◌, Text, codes, is_empty, text_eq, trim_both, Result, ok, err, Option, none, some,
  not, ◌>>=◌,
}

-- unicode.IsSpace
unfoldable pub is_space : ℕ → Bool
is_space c =
    c == 32
    || (leb 9 c && leb c 13)
    || c == 0x85
    || c == 0xa0
    || c == 0x1680
    || (leb 0x2000 c && leb c 0x200a)
    || c == 0x2028
    || c == 0x2029
    || c == 0x202f
    || c == 0x205f
    || c == 0x3000

pub data ContractError : Type 0 where
  empty_contract malformed_contract unknown_contract malformed_version unsupported : ContractError

-- strings.Cut(id, "/")
cut : Text → Option (Text × Text)
cut [] = none
cut (c ∷ s) =
    let rest = cut s in
    if c == b'/' then some ([], s) else elim rest [ none ↦ none | some p ↦ some (c ∷ p.0, p.1) ]

pub is_digit : ℕ → Bool
is_digit c = leb b'0' c && leb c b'9'

-- The blanks before a number; a newline is an error there.
skip_space : Text → Option Text
skip_space [] = some []
skip_space (c ∷ s) =
    let rest = skip_space s in if c == 10 then none else if is_space c then rest else some (c ∷ s)

-- The value of the leading digits.
scan_digits : ℕ → Text → ℕ
unfolding is_digit
scan_digits acc [] = acc
scan_digits acc (c ∷ s) =
    let rest = scan_digits (acc * 10 + (c - b'0')) s in if is_digit c then rest else acc

-- A number needs a digit, and has to fit an `int64`.
unsigned : ℕ → Text → Option ℕ
unfolding scan_digits is_digit
unsigned limit [] = none
unsigned limit (c ∷ s) =
    if is_digit c
    then (let n = scan_digits 0 (c ∷ s) in if leb n limit then some n else none)
    else none

negated : ℕ → ℤ
negated zero = pos 0
negated (suc n) = negsuc n

signed : Text → Option ℤ
unfolding unsigned negated
signed [] = none
signed (c ∷ s) =
    if c == b'-'
    then Option.map negated (unsigned (2 ^ 63) s)
    else if c == b'+'
    then Option.map pos (unsigned (2 ^ 63 - 1) s)
    else Option.map pos (unsigned (2 ^ 63 - 1) (c ∷ s))

-- fmt.Sscanf(s, "%d", &major)
unfoldable pub scan_decimal : Text → Option ℤ
unfolding skip_space signed
scan_decimal s = elim (skip_space s) [ none ↦ none | some t ↦ signed t ]

is_one : ℤ → Bool
is_one (pos n) = n == 1
is_one (negsuc n) = false

check_major : Option ℤ → Result ContractError ℤ
unfolding is_one
check_major none = err malformed_version
check_major (some major) = if is_one major then ok major else err unsupported

check_version : Text → Result ContractError ℤ
unfolding scan_decimal check_major
check_version [] = err malformed_version
check_version (c ∷ rest) =
    if c == b'v' then check_major (scan_decimal rest) else err malformed_version

check_parts : Option (Text × Text) → Result ContractError ℤ
unfolding check_version
check_parts none = err malformed_contract
check_parts (some (name, version)) =
    if is_empty name || is_empty version
    then err malformed_contract
    else if text_eq name (codes "game-forge")
    then check_version version
    else err unknown_contract

check_id : Text → Result ContractError ℤ
unfolding cut check_parts
check_id [] = err empty_contract
check_id (c ∷ s) = check_parts (cut (c ∷ s))

unfoldable pub parse : Text → Result ContractError ℤ
unfolding check_id is_space trim_both
parse id = check_id (trim_both is_space id)

supported : Text → Bool
supported id = elim (parse id) [ ok _ ↦ true | err _ ↦ false ]
