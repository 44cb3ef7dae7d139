-- ===== src/Project/Key.antt =====
-- internal/project/key.go: the identity of a checkout.
use game_forge.Prelude.{ℕ, ◌++◌, Option, none, some, Text, codes}
use game_forge.Project.Code.{sanitize}
use game_forge.Project.Manifest.{FilePath, Files, Manifest}

-- Where the program runs: the file system, the half above 127 of Go's `unicode` tables, and the first
-- three bytes, in hexadecimal, of the SHA-256 digest of a path.
pub record Machine : Type 0 where
  pub files : Files
  pub upper : ℕ → ℕ
  pub lower : ℕ → ℕ
  pub digest : FilePath → Text

abbrev or_else : Option FilePath → FilePath → FilePath
or_else none p = p
or_else (some q) p = q

unfoldable pub canonical_root : Files → FilePath → FilePath
canonical_root fs root =
    let resolved = or_else (fs.eval_symlinks root) root in
    fs.clean (or_else (fs.absolute resolved) resolved)

unfoldable pub key_for : Machine → Manifest → Text
key_for w m = sanitize w.lower m.project_id ++ codes "-" ++ w.digest (canonical_root w.files m.root)
