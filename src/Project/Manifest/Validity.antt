-- ===== src/Project/Manifest/Validity.antt =====
-- `validate` accepts exactly the well-formed manifests.
use game_forge.Contract.{ContractError, parse}
use game_forge.Contract.Laws.{parse_major}
use game_forge.Prelude.Int.{ℤ}
use game_forge.Prelude.{
  ℕ, ◌+◌, ◌≡◌, ◌∙◌, ap, ◌↔◌, refl, List, [], ◌∷◌, none, ok, err, arith, All, String, Result,
}
use game_forge.Project.Manifest.{
  Stage, Manifest, Adapter, validate, validate_parts, validate_stages, validate_profiles,
  validate_adapters, after_contract,
}
use game_forge.Project.Manifest.Laws.{
  IsStage, IsAdapter, IsProfile, IsManifest, validate_stage-IsStage, validate_stage_of_IsStage,
}

adapters_valid : (l : List (String × Adapter)) → validate_adapters l ≡ none → All IsAdapter l
unfolding validate_adapters
adapters_valid [] h = tt
adapters_valid ((n, a) ∷ l) h =
    (record { started = ground arith; spoken = ground arith }, adapters_valid l (ground arith))

valid_adapters : (l : List (String × Adapter)) → All IsAdapter l → validate_adapters l ≡ none
unfolding validate_adapters
valid_adapters [] h = refl
valid_adapters ((n, a) ∷ l) h = ground (arith, h.0.started, h.0.spoken, valid_adapters l h.1)

module _ (m : Manifest) where
  stages_valid :
      (p : String) (i : ℕ) (ss : List Stage) → validate_stages m p i ss ≡ none → All (IsStage m) ss
  unfolding validate_stages
  stages_valid p i [] h = tt
  stages_valid p i (s ∷ ss) h =
      (validate_stage-IsStage m s (ground arith), stages_valid p (i + 1) ss (ground arith))

  valid_stages :
      (p : String) (i : ℕ) (ss : List Stage) → All (IsStage m) ss → validate_stages m p i ss ≡ none
  unfolding validate_stages
  valid_stages p i [] h = refl
  valid_stages p i (s ∷ ss) h =
      ground (arith, validate_stage_of_IsStage m s h.0, valid_stages p (i + 1) ss h.1)

  profiles_valid :
      (ps : List (String × List Stage)) → validate_profiles m ps ≡ none → All (IsProfile m) ps
  unfolding validate_profiles
  profiles_valid [] h = tt
  profiles_valid ((n, ss) ∷ ps) h = (
    record { given = ground arith; stages = stages_valid n 0 ss (ground arith) },
    profiles_valid ps (ground arith),
  )

  valid_profiles :
      (ps : List (String × List Stage)) → All (IsProfile m) ps → validate_profiles m ps ≡ none
  unfolding validate_profiles
  valid_profiles [] h = refl
  valid_profiles ((n, ss) ∷ ps) h =
      ground (arith, h.0.given, valid_stages n 0 ss h.0.stages, valid_profiles ps h.1)

accepted_contract :
    (m : Manifest) (r : Result ContractError ℤ)
    → after_contract m r ≡ none
    → ((v : ℤ) × (r ≡ ok v)) × (validate_parts m ≡ none)
unfolding after_contract
accepted_contract m (ok v) h = ((v, refl), h)
accepted_contract m (err e) h = cc

-- `validate` returns no error exactly for a manifest with an accepted contract of major version 1, a
-- project id, adapters with a command and a protocol, and profiles of at least one stage each, every
-- stage having a name, exactly one of its five modes, a declared profile where it refers to one, and an
-- expression where it runs in a browser or against the production server.
pub validate_iff : (m : Manifest) → (validate m ≡ none) ↔ IsManifest m
unfolding validate validate_parts
validate_iff m = (forth, back)
  where
    forth : after_contract m (parse m.contract) ≡ none → IsManifest m
    forth h =
        let ((v, e), parts) = accepted_contract m (parse m.contract) h in
        record {
          contract = e ∙ ap ok (parse_major m.contract v e);
          named = ground arith;
          adapters = adapters_valid m.adapters (ground arith);
          profiles = profiles_valid m m.profiles (ground arith);
        }

    back : IsManifest m → after_contract m (parse m.contract) ≡ none
    back h = rw h.contract (
        ground (
          arith,
          h.named,
          valid_adapters m.adapters h.adapters,
          valid_profiles m m.profiles h.profiles,
        ))
