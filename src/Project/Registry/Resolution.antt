-- ===== src/Project/Registry/Resolution.antt =====
-- What `Resolve` answers, and that it finds what `Add` registered.
use game_forge.Prelude.{
  ◌≡◌, refl, ◌∙◌, ap, sym, subst, Bool, true, ◌↔◌, ◌≢◌, Option, none, some, Text, text_eq_refl,
  text_eq_iff, Result, ok, err, arith, Result-cases, ok_injective, inl, inr,
}
use game_forge.Project.Code.{normalize_code}
use game_forge.Project.Code.Laws.{normalize_code_idem}
use game_forge.Project.Key.{Machine, canonical_root, key_for}
use game_forge.Project.Manifest.{FilePath, Files, Manifest, load, discover, discover_and_load}
use game_forge.Project.Manifest.Search.{load_parts, load_of_parts, discover_and_load_parts}
use game_forge.Storage.{Io}
use game_forge.Project.Registry.{
  Registration, RegistryFile, RegistryDisk, LookupError, find, unknown_project, add, get, verify,
  verify_found, resolve, to_register, registration,
}
use game_forge.Project.Registry.Entries.{find-put}
use game_forge.Project.Registry.Changes.{contents}
use game_forge.Project.Registry.Laws.{
  contents_after_add, registered_of_add, code_of_registered, get_of_code,
}

-- The registration still describes the directory that it names.
pub record IsCurrent (w : Machine) (reg : Registration) : Type 0 where
  pub there : w.files.dir_at reg.root ≡ true
  pub manifest : Manifest
  pub loads : load w.files reg.root ≡ ok manifest
  pub same_id : manifest.project_id ≡ reg.project_id
  pub same_key : key_for w manifest ≡ reg.project_key

get_normalized :
    (w : Machine) (code c : Text) (disk : RegistryDisk)
    → normalize_code w.upper code ≡ ok c
    → get w c disk ≡ get w code disk
unfolding get
get_normalized w code c disk e = rw (e, normalize_code_idem w.upper code c e, get) refl

verify-IsCurrent :
    (w : Machine) (reg : Registration) (root : FilePath)
    → verify w reg ≡ ok root
    → (root ≡ reg.root) × IsCurrent w reg
unfolding verify
verify-IsCurrent w reg root h = elim (Result-cases (load w.files reg.root)) [
  | inl (x, e) ↦ ground arith
  | inr (m, e) ↦ (
    ground arith,
    record {
      there = ground arith;
      manifest = m;
      loads = e;
      same_id = ground (arith, text_eq_iff m.project_id reg.project_id);
      same_key = ground (arith, text_eq_iff (key_for w m) reg.project_key);
    },
  )
]

verify_of_IsCurrent :
    (w : Machine) (reg : Registration) → IsCurrent w reg → verify w reg ≡ ok reg.root
unfolding verify
verify_of_IsCurrent w reg h =
    rw (h.there, h.loads)
      (ground (
        arith,
        h.same_id,
        h.same_key,
        text_eq_iff h.manifest.project_id reg.project_id,
        text_eq_iff (key_for w h.manifest) reg.project_key,
      ))

resolve_found :
    (w : Machine) (code : Text) (disk : RegistryDisk)
    → resolve w code disk ≡ verify_found w (get w code disk)
unfolding resolve
resolve_found w code disk = elim (Result-cases (normalize_code w.upper code)) [
  | inl (x, e) ↦ rw (e, get, resolve) refl
  | inr (c, e) ↦ rw (e, resolve) (ap (verify_found w) (get_normalized w code c disk e))
]

-- What it takes for a found registration to be answered with `root`.
abbrev pub AnswersWith : Machine → FilePath → Option Registration → Type 0
AnswersWith w root found =
    (reg : Registration) × (found ≡ some reg) × (root ≡ reg.root) × IsCurrent w reg

answered_of_AnswersWith :
    (w : Machine) (found : Option Registration) (root : FilePath)
    → AnswersWith w root found
    → verify_found w found ≡ ok root
unfolding verify_found
answered_of_AnswersWith w found root (r, e, same, current) =
    ap (verify_found w) e ∙ verify_of_IsCurrent w r current ∙ ap ok (sym same)

verify_found_iff :
    (w : Machine) (found : Option Registration) (root : FilePath)
    → (verify_found w found ≡ ok root) ↔ AnswersWith w root found
unfolding verify_found
verify_found_iff w none root = (λ h. ground arith, λ a. ground (arith, a.1))
verify_found_iff w (some reg) root = (
  λ h. let (same, current) = verify-IsCurrent w reg root h in (reg, refl, same, current),
  answered_of_AnswersWith w (some reg) root,
)

verify-ne-unknown : (w : Machine) (reg : Registration) → verify w reg ≢ err unknown_project
unfolding verify
verify-ne-unknown w reg h = ground arith

unknown_iff :
    (w : Machine) (found : Option Registration)
    → (verify_found w found ≡ err unknown_project) ↔ (found ≡ none)
unfolding verify_found
unknown_iff w none = (λ h. refl, λ h. refl)
unknown_iff w (some reg) = (λ h. absurd (verify-ne-unknown w reg h), λ h. ground arith)

-- `Resolve` returns a root exactly if the code is registered with that root and the registration is
-- current: the root is a directory whose manifest loads and has the registered project id and key. It
-- answers "unknown project" exactly if the code is not registered.
pub resolve_iff :
    (w : Machine) (code : Text) (disk : RegistryDisk)
    → ((root : FilePath) → (resolve w code disk ≡ ok root) ↔ AnswersWith w root (get w code disk))
      × ((resolve w code disk ≡ err unknown_project) ↔ (get w code disk ≡ none))
resolve_iff w code disk =
    rw (resolve_found w code disk)
      (λ root. verify_found_iff w (get w code disk) root, unknown_iff w (get w code disk))

root_of_registration :
    (w : Machine) (c : Text) (dir : FilePath) (m : Manifest)
    → load w.files dir ≡ ok m
    → ◌≡◌ {A = Result LookupError FilePath}
        (ok (registration w c m).root)
        (ok (canonical_root w.files dir))
unfolding registration
root_of_registration w c dir m l =
    let (m₀, decoded, valid, e) = load_parts w.files dir m l in
    ap (λ (n : Manifest). ok (canonical_root w.files n.root)) e

-- What `Add` relies on in the file system below a project's directory: its canonical path leads to the
-- same directory and is canonical itself.
pub record IsSettled (fs : Files) (dir : FilePath) : Type 0 where
  pub there : fs.dir_at (canonical_root fs dir) ≡ true
  pub same_manifest : fs.decoded (canonical_root fs dir) ≡ fs.decoded dir
  pub canonical : canonical_root fs (canonical_root fs dir) ≡ canonical_root fs dir

registered_parts :
    (w : Machine) (code : Text) (folder : FilePath) (reg : Registration)
    → to_register w code folder ≡ ok reg
    → (m : Manifest) × (discover_and_load w.files folder ≡ ok m) × (reg ≡ registration w reg.code m)
unfolding to_register registration
registered_parts w code folder reg h = elim (Result-cases (normalize_code w.upper code)) [
  | inl (x, e) ↦ ground arith
  | inr (c, e) ↦ elim (Result-cases (discover_and_load w.files folder)) [
    | inl (y, l) ↦ ground arith
    | inr (m, l) ↦ (
      m,
      l,
      let p = ok_injective (rw (e, l, to_register) at h) in
          sym p ∙ ap (λ k. registration w k m) (ap (λ (r : Registration). r.code) p),
    )
  ]
]

registration-IsCurrent :
    (w : Machine) (c : Text) (dir : FilePath) (m : Manifest)
    → load w.files dir ≡ ok m
    → IsSettled w.files dir
    → IsCurrent w (registration w c m)
unfolding registration key_for
registration-IsCurrent w c dir m l s =
    let (m₀, decoded, valid, e) = load_parts w.files dir m l in
    rw e (record {
      there = s.there;
      manifest = record m₀ { root = canonical_root w.files dir };
      loads =
          load_of_parts w.files (canonical_root w.files dir) m₀ (s.same_manifest ∙ decoded) valid;
      same_id = refl;
      same_key = rw s.canonical refl;
    })

verify_registered :
    (w : Machine) (reg : Registration) (dir : FilePath) (m : Manifest)
    → reg ≡ registration w reg.code m
    → load w.files dir ≡ ok m
    → IsSettled w.files dir
    → verify_found w (some reg) ≡ ok (canonical_root w.files dir)
unfolding verify_found
verify_registered w reg dir m shape loads settled =
    let fresh = registration w reg.code m in
    ap (verify w) shape
    ∙ verify_of_IsCurrent w fresh (registration-IsCurrent w reg.code dir m loads settled)
    ∙ root_of_registration w reg.code dir m loads

-- After an `Add` without an error, whose write was not torn, `Resolve` under any spelling of the code
-- returns the canonical root of the project that was found from the folder, on a file system in which
-- that root stays settled.
pub resolve-add :
    (w : Machine) (io : Io RegistryFile) (code d : Text) (folder dir : FilePath) (replace : Bool)
    (disk : RegistryDisk)
    → discover w.files folder ≡ ok dir
    → IsSettled w.files dir
    → io.write_ok ≡ true
    → (add w io code folder replace disk).2 ≡ none
    → normalize_code w.upper d ≡ normalize_code w.upper code
    → resolve w d (add w io code folder replace disk).0 ≡ ok (canonical_root w.files dir)
resolve-add w io code d folder dir replace disk found settled wrote h same =
    let (reg, e) = registered_of_add w io code folder replace disk h in
    let (m, loaded, shape) = registered_parts w code folder reg e in
    let (dir', found', l) = discover_and_load_parts w.files folder m loaded in
    let here : dir' ≡ dir = ok_injective (sym found' ∙ found) in
    let loads : load w.files dir ≡ ok m = subst (λ p. load w.files p ≡ ok m) here l in
    let (returned, shown) = contents_after_add w io code folder replace disk reg e wrote h in
    let disk' = (add w io code folder replace disk).0 in
    let spelled = same ∙ code_of_registered w io code folder reg e in
    let got : get w d disk' ≡ some reg =
      get_of_code w io d reg.code disk' spelled
      ∙ ap (find reg.code) shown
      ∙ find-put reg reg.code (contents disk)
      ∙ rw (text_eq_refl reg.code) refl in
    resolve_found w d disk'
    ∙ ap (verify_found w) got
    ∙ verify_registered w reg dir m shape loads settled
