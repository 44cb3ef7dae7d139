-- ===== src/Project/Code/Laws.antt =====
-- What `normalize_code` and `sanitize` promise.
use game_forge.Prelude.{
  ℕ, ◌≤◌, ◌≡◌, ◌≢◌, refl, ◌∙◌, ap, subst, Bool, true, false, [], ◌∷◌, map, reverse, arith, Text, ok,
  All, all_by, head_is, trim_both, trim_both_fixed, head_is-trim_both, head_is-reverse-trim_both,
  All-trim_both, ◌==◌, codes, codes,
}
use game_forge.Contract.{is_space}
use game_forge.Project.Code.{
  normalize_code, sanitize, code_char, name_char, upper, lower, byte_len, max_code_len, write_rune,
  check_code, or_project,
}

-- A project code as the registry keeps it: 1 to 16 bytes, all of them allowed characters.
pub record IsCode (c : Text) : Type 0 where
  pub given : c ≢ []
  pub short : byte_len c ≤ max_code_len
  pub chars : All (λ r. code_char r ≡ true) c

code_char-not_space : (r : ℕ) → code_char r ≡ true → is_space r ≡ false
unfolding code_char is_space
code_char-not_space r h = ground arith

upper-code_char : (other : ℕ → ℕ) (r : ℕ) → code_char r ≡ true → upper other r ≡ r
unfolding code_char upper
upper-code_char other r h = ground arith

all_by-All : (p : ℕ → Bool) (s : Text) → all_by p s ≡ true → All (λ r. p r ≡ true) s
all_by-All p [] h = tt
all_by-All p (c ∷ s) h = (ground arith, all_by-All p s (ground arith))

All-all_by : (p : ℕ → Bool) (s : Text) → All (λ r. p r ≡ true) s → all_by p s ≡ true
All-all_by p [] h = refl
All-all_by p (c ∷ s) h = ground (arith, All-all_by p s)

All-map_fixed : (f : ℕ → ℕ) (s : Text) → All (λ r. f r ≡ r) s → map f s ≡ s
All-map_fixed f [] h = refl
All-map_fixed f (c ∷ s) h = cc (h.0, All-map_fixed f s h.1)

All-imp : (P Q : ℕ → Type 0) (s : Text) → ((r : ℕ) → P r → Q r) → All P s → All Q s
All-imp P Q [] f h = tt
All-imp P Q (c ∷ s) f h = (f c h.0, All-imp P Q s f h.1)

check_code-IsCode : (c d : Text) → check_code c ≡ ok d → (c ≡ d) × IsCode c
unfolding check_code
check_code-IsCode [] d h = ground arith
check_code-IsCode (r ∷ c) d h =
    let passed : all_by code_char (r ∷ c) ≡ true = ground arith in
    (
      ground arith,
      record { given = λ e. cc; short = ground arith; chars = all_by-All code_char (r ∷ c) passed },
    )

check_code_of_IsCode : (c : Text) → IsCode c → check_code c ≡ ok c
unfolding check_code
check_code_of_IsCode [] h = absurd (h.given refl)
check_code_of_IsCode (r ∷ c) h = ground (arith, All-all_by code_char (r ∷ c) h.chars, h.short)

-- A code that `normalize_code` accepts has 1 to 16 bytes, all of them upper-case letters, digits, '-'
-- or '_', whatever the input and the Unicode tables.
pub normalize_code-IsCode : (other : ℕ → ℕ) (s c : Text) → normalize_code other s ≡ ok c → IsCode c
unfolding normalize_code
normalize_code-IsCode other s c h =
    let (e, valid) = check_code-IsCode (map (upper other) (trim_both is_space s)) c h in
    subst IsCode e valid

normalize_code_of_IsCode : (other : ℕ → ℕ) (c : Text) → IsCode c → normalize_code other c ≡ ok c
unfolding normalize_code
normalize_code_of_IsCode other c h =
    ap (λ t. check_code (map (upper other) t))
      (trim_both_fixed is_space c (All-imp _ _ c code_char-not_space h.chars))
    ∙ ap check_code (All-map_fixed (upper other) c (All-imp _ _ c (upper-code_char other) h.chars))
    ∙ check_code_of_IsCode c h

-- Normalizing an accepted code again gives the same code.
pub normalize_code_idem :
    (other : ℕ → ℕ) (s c : Text) → normalize_code other s ≡ ok c → normalize_code other c ≡ ok c
normalize_code_idem other s c h =
    normalize_code_of_IsCode other c (normalize_code-IsCode other s c h)

-- A name that is safe in a provider namespace.
pub record IsName (s : Text) : Type 0 where
  pub given : s ≢ []
  pub chars : All (λ r. name_char r ≡ true) s
  pub no_leading_dash : head_is (λ c. c == b'-') s ≡ false
  pub no_trailing_dash : head_is (λ c. c == b'-') (reverse s) ≡ false

write_rune-name_char : (r : ℕ) → name_char (write_rune r) ≡ true
unfolding write_rune name_char
write_rune-name_char r = ground arith

All-write_rune : (s : Text) → All (λ r. name_char r ≡ true) (map write_rune s)
All-write_rune [] = tt
All-write_rune (r ∷ s) = (write_rune-name_char r, All-write_rune s)

or_project-IsName :
    (s : Text)
    → All (λ r. name_char r ≡ true) s
    → head_is (λ c. c == b'-') s ≡ false
    → head_is (λ c. c == b'-') (reverse s) ≡ false
    → IsName (or_project s)
unfolding or_project name_char
or_project-IsName [] h first last = record {
  given = λ e. cc;
  chars = all_by-All name_char (codes "project") refl;
  no_leading_dash = refl;
  no_trailing_dash = refl;
}
or_project-IsName (r ∷ s) h first last = record {
  given = λ e. cc;
  chars = h;
  no_leading_dash = first;
  no_trailing_dash = last;
}

-- A sanitized project id is a nonempty text of lower-case letters, digits and inner dashes, whatever
-- the id and the Unicode tables.
sanitize-IsName : (other : ℕ → ℕ) (s : Text) → IsName (sanitize other s)
unfolding sanitize
sanitize-IsName other s =
    let t = map write_rune (map (lower other) s) in
    or_project-IsName _
      (All-trim_both (λ r. name_char r ≡ true) (λ c. c == b'-') t (All-write_rune _))
      (head_is-trim_both (λ c. c == b'-') t) (head_is-reverse-trim_both (λ c. c == b'-') t)
