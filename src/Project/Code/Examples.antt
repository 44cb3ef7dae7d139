-- ===== src/Project/Code/Examples.antt =====
-- Tests of codes and names.
use game_forge.Prelude.{◌≡◌, refl, codes, err}
use game_forge.Project.Code.{normalize_code, sanitize, code_too_long}

normalize_code_long : normalize_code (λ c. c) (codes "ABCDEFGHIJKLMNOPQ") ≡ err code_too_long
unfolding normalize_code
normalize_code_long = refl

sanitize_id : sanitize (λ c. c) (codes "_Spin Tower!") ≡ codes "spin-tower"
unfolding sanitize
sanitize_id = refl

sanitize_empty : sanitize (λ c. c) (codes "..") ≡ codes "project"
unfolding sanitize
sanitize_empty = refl
