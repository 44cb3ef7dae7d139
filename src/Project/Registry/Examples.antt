-- ===== src/Project/Registry/Examples.antt =====
-- Tests of the project registry, and its theorems at concrete inputs.
use game_forge.Contract.{parse}
use game_forge.Prelude.{◌≡◌, ◌↔◌, refl, false, [], ◌∷◌, none, some, codes, ok, err}
use game_forge.Project.Code.{sanitize, normalize_code, code_required}
use game_forge.Project.Manifest.{FilePath, load, discover_and_load}
use game_forge.Project.Key.{key_for, canonical_root}
use game_forge.Project.Samples.{machine, home, spin, one_project, good_io, files}
use game_forge.Storage.{store, missing}
use game_forge.Project.Registry.{
  RegistryError, bad_code, add, remove, get, resolve, unknown_project,
}
use game_forge.Project.Registry.Changes.{contents}
use game_forge.Project.Registry.Laws.{add_never_remaps}
use game_forge.Project.Registry.Invariant.{
  IsRegistry, Reach, start, next, adds, removes, Reach-IsRegistry,
}
use game_forge.Project.Registry.Resolution.{AnswersWith, resolve_iff, resolve-add}

-- " sp1 " is registered as "SP1", with the key of its directory.
add_fresh : add machine good_io (codes " sp1 ") home false missing ≡ (one_project, some spin, none)
unfolding add normalize_code discover_and_load parse store canonical_root key_for sanitize
add_fresh = refl

add_no_code :
    add machine good_io (codes "  ") home false missing
    ≡ (missing, none, some (bad_code code_required))
unfolding add normalize_code
add_no_code = refl

resolve_registered : resolve machine (codes "SP1") one_project ≡ ok home
unfolding resolve normalize_code load parse key_for sanitize
resolve_registered = refl

resolve_unknown : resolve machine (codes "other") one_project ≡ err unknown_project
unfolding resolve normalize_code
resolve_unknown = refl

add_never_remaps_example :
    ((add machine good_io (codes "sp1") ("other" ∷ []) false one_project).0 ≡ one_project)
    × ((e : RegistryError) × ((add machine good_io (codes "sp1") ("other" ∷ []) false one_project).2
          ≡ some e))
unfolding get normalize_code
add_never_remaps_example =
    add_never_remaps machine good_io (codes "sp1") ("other" ∷ []) one_project spin refl

added_then_removed :
    Reach machine
      (remove machine good_io
        (codes "SP1")
        (add machine good_io (codes " sp1 ") home false missing).0).0
added_then_removed =
    next (next start (adds good_io (codes " sp1 ") home false missing refl)) (
      removes good_io (codes "SP1") (add machine good_io (codes " sp1 ") home false missing).0 refl)

Reach-IsRegistry_example : IsRegistry (
    contents
      (remove machine good_io
        (codes "SP1")
        (add machine good_io (codes " sp1 ") home false missing).0).0)
Reach-IsRegistry_example = Reach-IsRegistry added_then_removed

resolve-add_example :
    resolve machine (codes "Sp1") (add machine good_io (codes " sp1 ") home false missing).0
    ≡ ok (canonical_root files home)
unfolding add normalize_code discover_and_load canonical_root parse store
resolve-add_example =
    resolve-add machine good_io (codes " sp1 ") (codes "Sp1") home home false missing refl
      (record { there = refl; same_manifest = refl; canonical = refl }) refl refl refl

resolve_iff_example :
    ((root : FilePath)
      → (resolve machine (codes "sp1") one_project ≡ ok root)
        ↔ AnswersWith machine root (get machine (codes "sp1") one_project))
    × ((resolve machine (codes "sp1") one_project ≡ err unknown_project)
        ↔ (get machine (codes "sp1") one_project ≡ none))
resolve_iff_example = resolve_iff machine (codes "sp1") one_project
