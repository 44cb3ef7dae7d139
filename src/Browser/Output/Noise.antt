-- ===== src/Browser/Output/Noise.antt =====
-- internal/browser/agentbrowser.go, extractJSON and parseEnvelope: what stands around the object is passed over.
use game_forge.Prelude.{
  ℕ, true, false, [], ◌∷◌, ◌++◌, Text, ◌==◌, if◌then◌else◌, reverse, ◌≡◌, refl, ap, ◌∙◌, All, arith,
  trim_both-around, trim_left, reverse-around, All-trim_left, All-reverse, Option, some, ok, err,
}
use mathlib.Core.List.{append_assoc, reverse-reverse, reverse-cons}
use game_forge.Contract.{is_space}
use game_forge.Browser.Output.{
  from_first, up_to_last, extract_json, brace_open, brace_close, parse_envelope, is_complete,
  Envelope, failure_of,
}

-- No character of a text is `x`.
abbrev Lacks : ℕ → Text → Type 0
Lacks x s = All (λ c. (c == x) ≡ false) s

from_first-append : (x : ℕ) (noise s : Text) → Lacks x noise → from_first x (noise ++ x ∷ s) ≡ x ∷ s
unfolding from_first
from_first-append x [] s h = ground arith
from_first-append x (c ∷ noise) s h = ground (arith, h.0, from_first-append x noise s h.1)

-- Noise with no opening brace before an object and none that closes one behind it is passed over.
extract_json_noise :
    (before body after : Text)
    → Lacks brace_open before
    → Lacks brace_close after
    → extract_json (before ++ brace_open ∷ (body ++ brace_close ∷ after))
      ≡ brace_open ∷ (body ++ brace_close ∷ [])
unfolding extract_json is_space
extract_json_noise before body after b a =
    let front = trim_left is_space before in
    let back = trim_left is_space (reverse after) in
    ap (λ t. from_first brace_open (up_to_last brace_close t))
      (trim_both-around is_space before brace_open body brace_close after refl refl)
    ∙ ap (λ t. from_first brace_open (reverse (from_first brace_close t)))
        (reverse-around (front ++ brace_open ∷ body) brace_close (reverse back)
          ∙ ap (λ t. t ++ brace_close ∷ reverse (front ++ brace_open ∷ body))
              (reverse-reverse back))
    ∙ ap (λ t. from_first brace_open (reverse t))
        (from_first-append brace_close back (reverse (front ++ brace_open ∷ body))
          (All-trim_left _ is_space (reverse after) (All-reverse _ after a)))
    ∙ ap (from_first brace_open) (
        reverse-cons brace_close (reverse (front ++ brace_open ∷ body))
        ∙ ap (λ t. t ++ brace_close ∷ []) (reverse-reverse (front ++ brace_open ∷ body))
        ∙ append_assoc front (brace_open ∷ body) (brace_close ∷ []))
    ∙ from_first-append brace_open front (body ++ brace_close ∷ [])
        (All-trim_left _ is_space before b)

-- A response in which json.Unmarshal finds an envelope of success is complete, and is read as that envelope,
-- whatever stands before it without an opening brace and behind it without a closing one.
pub parse_envelope_noise :
    (json : Text → Option Envelope) (before body after : Text) (env : Envelope)
    → Lacks brace_open before
    → Lacks brace_close after
    → json (brace_open ∷ (body ++ brace_close ∷ [])) ≡ some env
    → env.success ≡ true
    → let raw = before ++ brace_open ∷ (body ++ brace_close ∷ after) in
      (is_complete json raw ≡ true) × (parse_envelope json raw ≡ ok env)
unfolding is_complete parse_envelope
parse_envelope_noise json before body after env b a h s =
    let found = extract_json_noise before body after b a in
    (
      rw found (rw h refl),
      rw found (rw h (ap (λ x. if x then ok env else err (failure_of env.error)) s)),
    )
