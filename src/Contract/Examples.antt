-- ===== src/Contract/Examples.antt =====
-- Tests of the contract identifiers.
use game_forge.Prelude.Int.{pos}
use game_forge.Prelude.{◌≡◌, refl, codes, ok}
use game_forge.Contract.{parse}

parse_blanks : parse (codes " game-forge/v1 ") ≡ ok (pos 1)
unfolding parse
parse_blanks = refl
