-- ===== src/Contract/Laws.antt =====
-- Which contract identifiers `parse` accepts.
use game_forge.Prelude.Int.{ℤ, pos}
use game_forge.Prelude.{
  ◌≡◌, refl, ap, ◌∙◌, false, [], ◌∷◌, ◌++◌, reverse, arith, Text, codes, ok, head_is, trim_both,
  trim_both_tight, Option, some, none,
}
use game_forge.Contract.{
  parse, check_id, check_parts, check_version, check_major, scan_decimal, scan_digits, cut,
  is_space, is_digit, is_one,
}

check_major_ok : (o : Option ℤ) (m : ℤ) → check_major o ≡ ok m → m ≡ pos 1
unfolding check_major is_one
check_major_ok none m h = cc
check_major_ok (some (pos n)) m h = ground arith
check_major_ok (some (ℤ.negsuc n)) m h = cc

check_version_ok : (s : Text) (m : ℤ) → check_version s ≡ ok m → m ≡ pos 1
unfolding check_version
check_version_ok [] m h = cc
check_version_ok (c ∷ s) m h = ground (arith, check_major_ok (scan_decimal s) m)

check_parts_ok : (o : Option (Text × Text)) (m : ℤ) → check_parts o ≡ ok m → m ≡ pos 1
unfolding check_parts
check_parts_ok none m h = cc
check_parts_ok (some (name, version)) m h = ground (arith, check_version_ok version m)

check_id_ok : (s : Text) (m : ℤ) → check_id s ≡ ok m → m ≡ pos 1
unfolding check_id
check_id_ok [] m h = cc
check_id_ok (c ∷ s) m h = check_parts_ok (cut (c ∷ s)) m h

-- The only major version that `parse` returns is 1.
pub parse_major : (id : Text) (m : ℤ) → parse id ≡ ok m → m ≡ pos 1
unfolding parse
parse_major id m h = check_id_ok (trim_both is_space id) m h

stop_digits : (s : Text) → head_is is_digit s ≡ false → scan_digits 1 s ≡ 1
unfolding scan_digits
stop_digits [] h = refl
stop_digits (c ∷ s) h = ground arith

check_id_trailing :
    (s : Text) → head_is is_digit s ≡ false → check_id (codes "game-forge/v1" ++ s) ≡ ok (pos 1)
unfolding check_id is_digit is_space
check_id_trailing s h = rw (stop_digits s h) refl

-- Behind "game-forge/v1" the parser ignores whatever text follows, if it does not go on with a digit
-- and does not end in a blank.
parse_trailing :
    (s : Text)
    → head_is is_digit s ≡ false
    → head_is is_space (reverse (codes "game-forge/v1" ++ s)) ≡ false
    → parse (codes "game-forge/v1" ++ s) ≡ ok (pos 1)
unfolding parse is_space
parse_trailing s digit blank =
    ap check_id (trim_both_tight is_space (codes "game-forge/v1" ++ s) refl blank)
    ∙ check_id_trailing s digit
