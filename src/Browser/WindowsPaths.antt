-- ===== src/Browser/WindowsPaths.antt =====
-- internal/browser/agentbrowser.go, toWindowsPath and fromWindowsPath: a path below /mnt as Windows names it,
-- and back. The two error messages are left out; filepath.Clean is the argument `clean`.
use game_forge.Prelude.{
  ℕ, ◌≤◌, true, false, ◌&&◌, ◌||◌, [], ◌∷◌, ◌++◌, Text, codes, ◌==◌, ltb, if◌then◌else◌, Option,
  none, some, ◌≡◌, refl, arith, ap, ◌∙◌, sym, strip_prefix, cut_at, replace, trim_both,
  trim_both_tight, head_is-reverse, map, Bool-cases, inl, inr, ==_iff, last_is, All,
}
use game_forge.Contract.{is_space}
use game_forge.Project.Code.{upper, lower}

windows_drive : Text → Text → Option Text
unfolding upper replace
windows_drive [] tail = none
windows_drive (c ∷ []) tail =
    if ltb c 128
    then some (upper (λ x. x) c ∷ b':' ∷ b'\\' ∷ replace b'/' (b'\\' ∷ []) tail)
    else none
windows_drive (c ∷ d ∷ s) tail = none

unfoldable pub to_windows_path : (Text → Text) → Text → Option Text
unfolding windows_drive strip_prefix cut_at
to_windows_path clean p = elim (strip_prefix (codes "/mnt/") (clean p)) [
  | none ↦ none
  | some rest ↦ elim (cut_at b'/' rest) [
    | none ↦ none
    | some (drive, tail) ↦ windows_drive drive tail
  ]
]

mounted : Text → Option Text
unfolding lower replace
mounted (c ∷ d ∷ e ∷ tail) =
    if ltb c 128 && ((d == b':') && ((e == b'\\') || (e == b'/')))
    then some (codes "/mnt/" ++ lower (λ x. x) c ∷ b'/' ∷ replace b'\\' (b'/' ∷ []) tail)
    else none
mounted _ = none

unfoldable pub from_windows_path : Text → Option Text
unfolding mounted is_space
from_windows_path p = mounted (trim_both is_space p)

replace-replace :
    (s : Text)
    → All (λ c. (c == b'\\') ≡ false) s
    → replace b'\\' (b'/' ∷ []) (replace b'/' (b'\\' ∷ []) s) ≡ s
unfolding replace
replace-replace [] h = refl
replace-replace (c ∷ s) h =
    let rest = replace-replace s h.1 in
    elim (Bool-cases (c == b'/')) [
      | inl e ↦ rw e (ap (λ t. b'/' ∷ t) rest ∙ ap (λ x. x ∷ s) (sym ((==_iff c b'/').0 e)))
      | inr e ↦ rw e (rw h.0 (ap (λ t. c ∷ t) rest))
    ]

backslashed : ℕ → ℕ
backslashed c = if c == b'/' then b'\\' else c

replace-map : (s : Text) → replace b'/' (b'\\' ∷ []) s ≡ map backslashed s
unfolding replace backslashed
replace-map [] = refl
replace-map (c ∷ s) = ground (arith, replace-map s)

is_space-backslashed : (c : ℕ) → is_space (backslashed c) ≡ is_space c
unfolding is_space backslashed
is_space-backslashed c = ground arith

last_is-map : (s : Text) → last_is is_space (map backslashed s) ≡ last_is is_space s
last_is-map [] = refl
last_is-map (c ∷ []) = is_space-backslashed c
last_is-map (c ∷ d ∷ s) = last_is-map (d ∷ s)

last_is_cons :
    (a b : ℕ) (s : Text)
    → is_space b ≡ false
    → last_is is_space s ≡ false
    → last_is is_space (a ∷ b ∷ s) ≡ false
last_is_cons a b [] h l = h
last_is_cons a b (c ∷ s) h l = l

abbrev IsLetter : ℕ → Type 0
IsLetter c = (b'a' ≤ c) × (c ≤ b'z')

abbrev pub below_mnt : ℕ → Text → Text
below_mnt c tail = codes "/mnt/" ++ c ∷ b'/' ∷ tail

abbrev windows_name : ℕ → Text → Text
windows_name c tail = upper (λ x. x) c ∷ b':' ∷ b'\\' ∷ replace b'/' (b'\\' ∷ []) tail

windows_name-trim :
    (c : ℕ) (tail : Text)
    → IsLetter c
    → last_is is_space tail ≡ false
    → trim_both is_space (windows_name c tail) ≡ windows_name c tail
unfolding upper is_space
windows_name-trim c tail h l =
    let body = replace b'/' (b'\\' ∷ []) tail in
    trim_both_tight is_space (windows_name c tail) (ground (arith, h)) (
      head_is-reverse is_space (windows_name c tail)
      ∙ last_is_cons b':' b'\\' body refl
          (ap (last_is is_space) (replace-map tail) ∙ last_is-map tail ∙ l))

lower-upper : (c : ℕ) → IsLetter c → lower (λ x. x) (upper (λ x. x) c) ≡ c
unfolding upper lower
lower-upper c h = ground (arith, h)

upper_ascii : (c : ℕ) → IsLetter c → ltb (upper (λ x. x) c) 128 ≡ true
unfolding upper
upper_ascii c h = ground (arith, h)

letter_ascii : (c : ℕ) → IsLetter c → ltb c 128 ≡ true
letter_ascii c h = ground (arith, h)

letter_not_slash : (c : ℕ) → IsLetter c → (c == b'/') ≡ false
letter_not_slash c h = ground (arith, h)

mounted_drive :
    (u : ℕ) (t : Text)
    → ltb u 128 ≡ true
    → mounted (u ∷ b':' ∷ b'\\' ∷ t)
      ≡ some (codes "/mnt/" ++ lower (λ x. x) u ∷ b'/' ∷ replace b'\\' (b'/' ∷ []) t)
unfolding mounted
mounted_drive u t h =
    ap
      (λ b.
        if b && true
        then some (codes "/mnt/" ++ lower (λ x. x) u ∷ b'/' ∷ replace b'\\' (b'/' ∷ []) t)
        else none)
      h

-- A path below the mount of a drive with a lower-case letter, that filepath.Clean leaves as it is, without
-- backslashes and white space at its end, has a name in Windows, which stands for the same path.
pub from-to_windows_path :
    (clean : Text → Text) (c : ℕ) (tail : Text)
    → clean (below_mnt c tail) ≡ below_mnt c tail
    → IsLetter c
    → All (λ d. (d == b'\\') ≡ false) tail
    → last_is is_space tail ≡ false
    → (w : Text) × (to_windows_path clean (below_mnt c tail) ≡ some w)
      × (from_windows_path w ≡ some (below_mnt c tail))
unfolding to_windows_path from_windows_path
from-to_windows_path clean c tail k h plain l = (
  windows_name c tail,
  rw k (rw (letter_not_slash c h) (rw (letter_ascii c h) refl)),
  ap mounted (windows_name-trim c tail h l)
      ∙ mounted_drive (upper (λ x. x) c) (replace b'/' (b'\\' ∷ []) tail) (upper_ascii c h)
      ∙ ap
          (λ x. some (
            codes "/mnt/" ++ x ∷ b'/' ∷ replace b'\\' (b'/' ∷ []) (replace b'/' (b'\\' ∷ []) tail)))
          (lower-upper c h)
      ∙ ap (λ t. some (below_mnt c t)) (replace-replace tail plain),
)
