-- ===== src/Project/Registry/Entries.antt =====
-- The list of registrations under the edits of `Add` and `Remove`.
use game_forge.Prelude.{
  ◌≡◌, refl, ◌∙◌, List, [], ◌∷◌, none, some, Text, text_eq, text_eq_iff, arith, if◌then◌else◌,
  Bool-cases, inl, inr, subst,
}
use game_forge.Project.Registry.{Registration, find, put, delete}

pub find-put :
    (reg : Registration) (d : Text) (ps : List Registration)
    → find d (put reg ps) ≡ (if text_eq reg.code d then some reg else find d ps)
unfolding find put
find-put reg d [] = refl
find-put reg d (p ∷ ps) = ground (
  arith,
  find-put reg d ps,
  text_eq_iff p.code reg.code,
  text_eq_iff p.code d,
  text_eq_iff reg.code d,
)

-- No two registrations have one code.
abbrev pub Distinct : List Registration → Type 0
Distinct [] = Unit
Distinct (p ∷ ps) = (find p.code ps ≡ none) × Distinct ps

pub Distinct-put :
    (reg : Registration) (ps : List Registration) → Distinct ps → Distinct (put reg ps)
unfolding find put
Distinct-put reg [] h = (refl, tt)
Distinct-put reg (p ∷ ps) h = elim (Bool-cases (text_eq p.code reg.code)) [
  | inl e ↦ rw e ((subst (λ c. find c ps ≡ none) ((text_eq_iff p.code reg.code).0 e) h.0), h.1)
  | inr e ↦ rw e (
    find-put reg p.code ps
        ∙ ground (arith, h.0, text_eq_iff p.code reg.code, text_eq_iff reg.code p.code),
    Distinct-put reg ps h.1,
  )
]

pub find-delete :
    (c d : Text) (ps : List Registration)
    → Distinct ps
    → find d (delete c ps) ≡ (if text_eq c d then none else find d ps)
unfolding find delete
find-delete c d [] h = ground arith
find-delete c d (p ∷ ps) h = ground (
  arith,
  find-delete c d ps h.1,
  h.0,
  text_eq_iff p.code c,
  text_eq_iff p.code d,
  text_eq_iff c d,
)

pub Distinct-delete : (c : Text) (ps : List Registration) → Distinct ps → Distinct (delete c ps)
unfolding delete
Distinct-delete c [] h = tt
Distinct-delete c (p ∷ ps) h = elim (Bool-cases (text_eq p.code c)) [
  | inl e ↦ rw e h.1
  | inr e ↦ rw e (rw (find-delete c p.code ps h.1) (ground (arith, h.0)), Distinct-delete c ps h.1)
]
