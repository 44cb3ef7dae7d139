-- ===== src/Project/Manifest/Search.antt =====
-- The search for the nearest manifest.
use game_forge.Project.Manifest.{
  Files, FilePath, LoadError, Manifest, walk_up, discover, no_manifest, load, discover_and_load,
  validate, check_manifest,
}
use game_forge.Prelude.{
  ◌≡◌, inl, inr, refl, String, true, false, [], ◌∷◌, arith, none, some, ok, err, subst, Bool-cases,
  ◌↔◌, sym, Option-cases, ok_injective, >>=-ok,
}

-- `IsNearest fs start dir`: `dir` holds a manifest, and it is `start` or the first of its ancestors to
-- hold one.
pub data IsNearest (fs : Files) : FilePath → FilePath → Type 0 where
  here : {dir : FilePath} → fs.manifest_at dir ≡ true → IsNearest fs dir dir
  up :
      {name : String} {parent dir : FilePath}
      → fs.manifest_at (name ∷ parent) ≡ false
      → IsNearest fs parent dir
      → IsNearest fs (name ∷ parent) dir

-- Neither the directory nor any of its ancestors holds a manifest.
abbrev NoneAbove : Files → FilePath → Type 0
NoneAbove fs [] = fs.manifest_at [] ≡ false
NoneAbove fs (name ∷ parent) = (fs.manifest_at (name ∷ parent) ≡ false) × NoneAbove fs parent

module _ (fs : Files) where
  walk_up-IsNearest : (start dir : FilePath) → walk_up fs start ≡ ok dir → IsNearest fs start dir
  unfolding walk_up
  walk_up-IsNearest [] dir h = elim (Bool-cases (fs.manifest_at [])) [
    | inl p ↦ subst (IsNearest fs []) (ground arith) (here p)
    | inr p ↦ ground arith
  ]
  walk_up-IsNearest (n ∷ q) dir h = elim (Bool-cases (fs.manifest_at (n ∷ q))) [
    | inl p ↦ subst (IsNearest fs (n ∷ q)) (ground arith) (here p)
    | inr p ↦ up p (walk_up-IsNearest q dir (ground arith))
  ]

  walk_up_of_IsNearest : (start dir : FilePath) → IsNearest fs start dir → walk_up fs start ≡ ok dir
  unfolding walk_up
  walk_up_of_IsNearest [] _ (here p) = ground arith
  walk_up_of_IsNearest (n ∷ q) _ (here p) = ground arith
  walk_up_of_IsNearest (n ∷ q) dir (up p r) = ground (arith, walk_up_of_IsNearest q dir r)

  walk_up-NoneAbove :
      (start : FilePath) {e : LoadError} → walk_up fs start ≡ err e → NoneAbove fs start
  unfolding walk_up
  walk_up-NoneAbove [] h = ground arith
  walk_up-NoneAbove (n ∷ q) {e} h = (ground arith, walk_up-NoneAbove q {e = e} (ground arith))

  walk_up_of_NoneAbove :
      (start : FilePath) → NoneAbove fs start → walk_up fs start ≡ err no_manifest
  unfolding walk_up
  walk_up_of_NoneAbove [] h = ground arith
  walk_up_of_NoneAbove (n ∷ q) h = ground (arith, h.0, walk_up_of_NoneAbove q h.1)

discover_of_absolute :
    (fs : Files) (start abs : FilePath)
    → fs.absolute start ≡ some abs
    → discover fs start ≡ walk_up fs abs
unfolding discover
discover_of_absolute fs start abs h = ground arith

-- From a directory with an absolute path, `discover` returns the nearest directory at or above it that
-- holds a manifest, and fails exactly if there is none up to the root.
discover-IsNearest :
    (fs : Files) (start abs : FilePath)
    → fs.absolute start ≡ some abs
    → ((dir : FilePath) → (discover fs start ≡ ok dir) ↔ IsNearest fs abs dir)
      × ((discover fs start ≡ err no_manifest) ↔ NoneAbove fs abs)
discover-IsNearest fs start abs h = rw (discover_of_absolute fs start abs h) (
  λ dir. (walk_up-IsNearest fs abs dir, walk_up_of_IsNearest fs abs dir),
  (walk_up-NoneAbove fs abs, walk_up_of_NoneAbove fs abs),
)

-- `load` is the decoded manifest, if it is valid, with its root set.
pub load_parts :
    (fs : Files) (root : FilePath) (m : Manifest)
    → load fs root ≡ ok m
    → (m₀ : Manifest) × (fs.decoded root ≡ some m₀)
      × (validate m₀ ≡ none)
      × (m ≡ record m₀ { root = root })
unfolding load check_manifest
load_parts fs root m h = elim (Option-cases (fs.decoded root)) [
  | inl e ↦ ground arith
  | inr (m₀, e) ↦ elim (Option-cases (validate m₀)) [
    | inl v ↦ (m₀, e, v, ok_injective (sym (rw (e, v, load) at h)))
    | inr (x, v) ↦ ground arith
  ]
]

pub load_of_parts :
    (fs : Files) (root : FilePath) (m₀ : Manifest)
    → fs.decoded root ≡ some m₀
    → validate m₀ ≡ none
    → load fs root ≡ ok (record m₀ { root = root })
unfolding load check_manifest
load_of_parts fs root m₀ e v = rw (e, v, load) refl

pub discover_and_load_parts :
    (fs : Files) (start : FilePath) (m : Manifest)
    → discover_and_load fs start ≡ ok m
    → (dir : FilePath) × (discover fs start ≡ ok dir) × (load fs dir ≡ ok m)
unfolding discover_and_load
discover_and_load_parts fs start m h = >>=-ok (load fs) (discover fs start) h
