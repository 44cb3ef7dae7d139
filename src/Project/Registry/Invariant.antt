-- ===== src/Project/Registry/Invariant.antt =====
-- What holds of the registry file whatever is done through `Add` and `Remove`.
use game_forge.Prelude.{
  ◌≡◌, sym, subst, Bool, true, List, [], ◌∷◌, Text, text_eq, All, Result-cases, Option-cases, inl,
  inr, if_both,
}
use game_forge.Project.Code.{normalize_code}
use game_forge.Project.Code.Laws.{IsCode, normalize_code-IsCode}
use game_forge.Project.Key.{Machine}
use game_forge.Project.Manifest.{FilePath}
use game_forge.Storage.{Io, missing}
use game_forge.Project.Registry.{
  Registration, RegistryFile, RegistryDisk, put, delete, add, add_locked, remove, remove_locked,
  to_register,
}
use game_forge.Project.Registry.Entries.{Distinct, Distinct-put, Distinct-delete}
use game_forge.Project.Registry.Changes.{
  contents, add_locked_ok, add_locked_error, remove_locked_ok, remove_locked_error,
}
use game_forge.Project.Registry.Laws.{code_of_registered}

-- Every code is in its canonical form, and no two registrations have one.
pub record IsRegistry (ps : List Registration) : Type 0 where
  pub codes : All (λ p. IsCode p.code) ps
  pub distinct : Distinct ps

put_codes :
    (reg : Registration) (ps : List Registration)
    → IsCode reg.code
    → All (λ p. IsCode p.code) ps
    → All (λ p. IsCode p.code) (put reg ps)
unfolding put
put_codes reg [] c h = (c, tt)
put_codes reg (p ∷ ps) c h =
    if_both (All (λ p. IsCode p.code)) (text_eq p.code reg.code) (c, h.1)
      (h.0, put_codes reg ps c h.1)

delete_codes :
    (c : Text) (ps : List Registration)
    → All (λ p. IsCode p.code) ps
    → All (λ p. IsCode p.code) (delete c ps)
unfolding delete
delete_codes c [] h = h
delete_codes c (p ∷ ps) h =
    if_both (All (λ p. IsCode p.code)) (text_eq p.code c) h.1 (h.0, delete_codes c ps h.1)

-- One call of an operation that writes, on one machine, with any arguments; only its `Write` is not torn.
pub data Step (w : Machine) : RegistryDisk → RegistryDisk → Type 0 where
  adds :
      (io : Io RegistryFile) (code : Text) (folder : FilePath) (replace : Bool)
      (disk : RegistryDisk)
      → io.write_ok ≡ true
      → Step w disk (add w io code folder replace disk).0
  removes :
      (io : Io RegistryFile) (code : Text) (disk : RegistryDisk)
      → io.write_ok ≡ true
      → Step w disk (remove w io code disk).0

pub data Reach (w : Machine) : RegistryDisk → Type 0 where
  start : Reach w missing
  next : {a b : RegistryDisk} → Reach w a → Step w a b → Reach w b

module _ (w : Machine) (io : Io RegistryFile) where
  add_locked-IsRegistry :
      (reg : Registration) (replace : Bool) (disk : RegistryDisk)
      → io.write_ok ≡ true
      → IsCode reg.code
      → IsRegistry (contents disk)
      → IsRegistry (contents (add_locked io reg replace disk).0)
  add_locked-IsRegistry reg replace disk wrote c h =
      elim (Option-cases (add_locked io reg replace disk).2) [
        | inl e ↦ subst IsRegistry (sym (add_locked_ok io reg replace disk wrote e).1) (record {
          codes = put_codes reg (contents disk) c h.codes;
          distinct = Distinct-put reg (contents disk) h.distinct;
        })
        | inr (x, e) ↦
            subst (λ d. IsRegistry (contents d))
              (sym (add_locked_error io reg replace disk {e = x} e)) h
      ]

  remove_locked-IsRegistry :
      (c : Text) (disk : RegistryDisk)
      → io.write_ok ≡ true
      → IsRegistry (contents disk)
      → IsRegistry (contents (remove_locked io c disk).0)
  remove_locked-IsRegistry c disk wrote h = elim (Option-cases (remove_locked io c disk).1) [
    | inl e ↦ subst IsRegistry (sym (remove_locked_ok io c disk wrote e)) (record {
      codes = delete_codes c (contents disk) h.codes;
      distinct = Distinct-delete c (contents disk) h.distinct;
    })
    | inr (x, e) ↦
        subst (λ d. IsRegistry (contents d)) (sym (remove_locked_error io c disk {e = x} e)) h
  ]

  add-IsRegistry :
      (code : Text) (folder : FilePath) (replace : Bool) (disk : RegistryDisk)
      → io.write_ok ≡ true
      → IsRegistry (contents disk)
      → IsRegistry (contents (add w io code folder replace disk).0)
  unfolding add
  add-IsRegistry code folder replace disk wrote h =
      elim (Result-cases (to_register w code folder)) [
        | inl (x, e) ↦ rw (e, add) h
        | inr (reg, e) ↦
            rw (e, add)
              (add_locked-IsRegistry reg replace disk wrote
                (normalize_code-IsCode w.upper code reg.code
                  (code_of_registered w io code folder reg e))
                h)
      ]

  remove-IsRegistry :
      (code : Text) (disk : RegistryDisk)
      → io.write_ok ≡ true
      → IsRegistry (contents disk)
      → IsRegistry (contents (remove w io code disk).0)
  unfolding remove
  remove-IsRegistry code disk wrote h = elim (Result-cases (normalize_code w.upper code)) [
    | inl (x, e) ↦ rw (e, remove) h
    | inr (c, e) ↦ rw (e, remove) (remove_locked-IsRegistry c disk wrote h)
  ]

-- In every registry file that calls of `Add` and `Remove` with untorn writes produce from a missing one,
-- failing calls included, every code is canonical and no two registrations share one.
pub Reach-IsRegistry :
    {w : Machine} {disk : RegistryDisk} → Reach w disk → IsRegistry (contents disk)
Reach-IsRegistry start = record { codes = tt; distinct = tt }
Reach-IsRegistry {w} (next r (adds io code folder replace disk wrote)) =
    add-IsRegistry w io code folder replace disk wrote (Reach-IsRegistry r)
Reach-IsRegistry {w} (next r (removes io code disk wrote)) =
    remove-IsRegistry w io code disk wrote (Reach-IsRegistry r)
