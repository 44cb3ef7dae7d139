-- ===== src/Prelude/Trim.antt =====
-- Trimming both ends of a text by a test on runes (`strings.TrimSpace`, `strings.Trim`).
use game_forge.Prelude.Lists.{All, All-reverse}
use game_forge.Prelude.Tests.{if◌then◌else◌, if_both}
use game_forge.Prelude.Texts.{Text, is_empty}
use Prim.Native.Nat.{ℕ}
use mathlib.Core.Path.{◌≡◌, refl, sym, ap, ◌∙◌}
use mathlib.Core.Bool.{Bool, true, false}
use mathlib.Core.List.{
  [], ◌∷◌, ◌++◌, reverse, reverse-append, reverse-reverse, reverse-cons, append_assoc, append-nil,
}
use native.Mathlib.Omega.{arith}

unfoldable pub trim_left : (ℕ → Bool) → Text → Text
trim_left p [] = []
trim_left p (c ∷ s) = let rest = trim_left p s in if p c then rest else c ∷ s

unfoldable pub trim_both : (ℕ → Bool) → Text → Text
unfolding trim_left
trim_both p s = reverse (trim_left p (reverse (trim_left p s)))

-- Whether the first rune of a text passes the test.
abbrev pub head_is : (ℕ → Bool) → Text → Bool
head_is p [] = false
head_is p (c ∷ s) = p c

head_is-append : (p : ℕ → Bool) (s t : Text) → head_is p (s ++ t) ≡ false → head_is p s ≡ false
head_is-append p [] t h = refl
head_is-append p (c ∷ s) t h = h

pub reverse-around :
    (s : Text) (c : ℕ) (t : Text) → reverse (s ++ c ∷ t) ≡ reverse t ++ c ∷ reverse s
reverse-around [] c t = reverse-cons c t
reverse-around (d ∷ s) c t =
    reverse-cons d (s ++ c ∷ t)
    ∙ ap (λ u. u ++ d ∷ []) (reverse-around s c t)
    ∙ append_assoc (reverse t) (c ∷ reverse s) (d ∷ [])
    ∙ ap (λ u. reverse t ++ c ∷ u) (sym (reverse-cons d s))

-- Whether the last rune of a text passes the test.
abbrev pub last_is : (ℕ → Bool) → Text → Bool
last_is p [] = false
last_is p (c ∷ []) = p c
last_is p (c ∷ d ∷ s) = last_is p (d ∷ s)

module _ (p : ℕ → Bool) where
  head_is-reverse-append :
      (s t : Text) → head_is p (reverse s ++ t) ≡ (if is_empty s then head_is p t else last_is p s)
  head_is-reverse-append [] t = refl
  head_is-reverse-append (c ∷ s) t =
      ap (λ u. head_is p (u ++ t)) (reverse-cons c s)
      ∙ ap (head_is p) (append_assoc (reverse s) (c ∷ []) t)
      ∙ head_is-reverse-append s (c ∷ t)
      ∙ last s
    where
      last : (s : Text) → (if is_empty s then p c else last_is p s) ≡ last_is p (c ∷ s)
      last [] = refl
      last (d ∷ s) = refl

  pub head_is-reverse : (s : Text) → head_is p (reverse s) ≡ last_is p s
  head_is-reverse s =
      ap (head_is p) (sym (append-nil (reverse s))) ∙ head_is-reverse-append s [] ∙ same s
    where
      same : (s : Text) → (if is_empty s then false else last_is p s) ≡ last_is p s
      same [] = refl
      same (c ∷ s) = refl

module _ (p : ℕ → Bool) where
  head_is-trim_left : (s : Text) → head_is p (trim_left p s) ≡ false
  unfolding trim_left
  head_is-trim_left [] = refl
  head_is-trim_left (c ∷ s) = ground (arith, head_is-trim_left s)

  -- What is trimmed on the left is a prefix of the text.
  trim_left-suffix : (s : Text) → (cut : Text) × (cut ++ trim_left p s ≡ s)
  unfolding trim_left
  trim_left-suffix [] = ([], refl)
  trim_left-suffix (c ∷ s) = step (p c) (trim_left-suffix s)
    where
      step :
          (b : Bool)
          → ((cut : Text) × (cut ++ trim_left p s ≡ s))
          → (cut : Text) × (cut ++ (if b then trim_left p s else c ∷ s) ≡ c ∷ s)
      step true (cut, e) = (c ∷ cut, ap (λ t. c ∷ t) e)
      step false h = ([], refl)

  -- Trimming stops at a rune that is kept.
  trim_left-append :
      (s : Text) (c : ℕ) (t : Text)
      → p c ≡ false
      → trim_left p (s ++ c ∷ t) ≡ trim_left p s ++ c ∷ t
  unfolding trim_left
  trim_left-append [] c t h = ground (arith, h)
  trim_left-append (d ∷ s) c t h = ground (arith, trim_left-append s c t h)

  -- Between two runes that are kept nothing is trimmed.
  pub trim_both-around :
      (before : Text) (x : ℕ) (body : Text) (y : ℕ) (after : Text)
      → p x ≡ false
      → p y ≡ false
      → trim_both p (before ++ x ∷ (body ++ y ∷ after))
        ≡ (trim_left p before ++ x ∷ body) ++ y ∷ reverse (trim_left p (reverse after))
  unfolding trim_both
  trim_both-around before x body y after hx hy =
      let front = trim_left p before ++ x ∷ body in
      ap (λ t. reverse (trim_left p (reverse t)))
        (trim_left-append before x (body ++ y ∷ after) hx
          ∙ sym (append_assoc (trim_left p before) (x ∷ body) (y ∷ after)))
      ∙ ap (λ t. reverse (trim_left p t)) (reverse-around front y after)
      ∙ ap reverse (trim_left-append (reverse after) y (reverse front) hy)
      ∙ reverse-around (trim_left p (reverse after)) y (reverse front)
      ∙ ap (λ t. t ++ y ∷ reverse (trim_left p (reverse after))) (reverse-reverse front)

  trim_left_fixed : (s : Text) → All (λ c. p c ≡ false) s → trim_left p s ≡ s
  unfolding trim_left
  trim_left_fixed [] h = refl
  trim_left_fixed (c ∷ s) h = ground arith

  -- A text with nothing to trim stays as it is.
  pub trim_both_fixed : (s : Text) → All (λ c. p c ≡ false) s → trim_both p s ≡ s
  unfolding trim_both
  trim_both_fixed s h =
      ap (λ t. reverse (trim_left p (reverse t))) (trim_left_fixed s h)
      ∙ ap reverse (trim_left_fixed (reverse s) (All-reverse _ s h))
      ∙ reverse-reverse s

  trim_left_tight : (s : Text) → head_is p s ≡ false → trim_left p s ≡ s
  unfolding trim_left
  trim_left_tight [] h = refl
  trim_left_tight (c ∷ s) h = ground arith

  -- Only the two ends matter to it.
  pub trim_both_tight :
      (s : Text) → head_is p s ≡ false → head_is p (reverse s) ≡ false → trim_both p s ≡ s
  unfolding trim_both
  trim_both_tight s first last =
      ap (λ t. reverse (trim_left p (reverse t))) (trim_left_tight s first)
      ∙ ap reverse (trim_left_tight (reverse s) last)
      ∙ reverse-reverse s

  -- The trimmed text does not end in a rune that was to be trimmed.
  pub head_is-reverse-trim_both : (s : Text) → head_is p (reverse (trim_both p s)) ≡ false
  unfolding trim_both
  head_is-reverse-trim_both s =
      ap (head_is p) (reverse-reverse (trim_left p (reverse (trim_left p s))))
      ∙ head_is-trim_left (reverse (trim_left p s))

  -- Nor does it begin with one.
  pub head_is-trim_both : (s : Text) → head_is p (trim_both p s) ≡ false
  unfolding trim_both
  head_is-trim_both s =
      let t = trim_left p s in
      let u = trim_left p (reverse t) in
      let (cut, e) = trim_left-suffix (reverse t) in
      head_is-append p (reverse u) (reverse cut) (
        ap (head_is p) (sym (reverse-append cut u) ∙ ap reverse e ∙ reverse-reverse t)
        ∙ head_is-trim_left s)

module _ {κ} (P : ℕ → Type κ) (p : ℕ → Bool) where
  pub All-trim_left : (s : Text) → All P s → All P (trim_left p s)
  unfolding trim_left
  All-trim_left [] h = h
  All-trim_left (c ∷ s) h = if_both (All P) (p c) (All-trim_left s h.1) h

  -- Trimming keeps whatever holds of every rune.
  pub All-trim_both : (s : Text) → All P s → All P (trim_both p s)
  unfolding trim_both
  All-trim_both s h = All-reverse P _ (All-trim_left _ (All-reverse P _ (All-trim_left s h)))
