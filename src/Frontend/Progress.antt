-- ===== src/Frontend/Progress.antt =====
-- internal/mcpfrontend/frontend.go: the progress messages and the error text of a tool call. A text is the
-- list of its bytes.
use game_forge.Prelude.{
  ℕ, zero, suc, ◌≤◌, ◌+◌, ◌/◌, ◌%◌, ltb, Bool, true, false, String, ◌++ₛ◌, ◌==ₛ◌, List, [], ◌∷◌,
  ◌++◌, Option, none, some, if◌then◌else◌, Text, text_eq, codes, leb, length, any_by, text_eq_refl,
  text_eq→eq, ◌≢◌, ◌↔◌, ◌⊎◌, ap, sym, subst, ◌≡◌, refl, arith, All, Bool-cases, inl, inr,
}
use game_forge.Op.{
  Code, invalid_request, unsupported_version, unknown_op, invalid_args, invalid_output, canceled,
  failed, internal, unknown_project, project_unavailable, project_changed, unauthorized, forbidden,
  other, Error, Status, pass, fail, Progress, stage, artifact,
}

abbrev max_error_text : ℕ
max_error_text = 512

abbrev max_progress_text : ℕ
max_progress_text = 200

pub take : {A : Type 0} → ℕ → List A → List A
take zero xs = []
take (suc n) [] = []
take (suc n) (x ∷ xs) = x ∷ take n xs

-- A character in UTF-8.
utf8 : ℕ → Text
utf8 c =
    if ltb c 0x80
    then c ∷ []
    else if ltb c 0x800
    then (0xc0 + c / 64) ∷ (0x80 + c % 64) ∷ []
    else if ltb c 0x10000
    then (0xe0 + c / 4096) ∷ (0x80 + (c / 64) % 64) ∷ (0x80 + c % 64) ∷ []
    else (0xf0 + c / 262144)
      ∷ (0x80 + (c / 4096) % 64)
      ∷ (0x80 + (c / 64) % 64)
      ∷ (0x80 + c % 64)
      ∷ []

-- The bytes of a string, on which `len` and slices work.
unfoldable pub bytes_of : Text → Text
unfolding utf8
bytes_of [] = []
bytes_of (c ∷ s) = utf8 c ++ bytes_of s

-- `if len(msg) > n { msg = msg[:n] }`
pub capped : ℕ → Text → Text
unfolding take
capped n s = if leb (length s) n then s else take n s

status_text : Status → String
status_text pass = "pass"
status_text fail = "fail"

-- The message of `Stage` and of `Artifact`.
pub message : Progress → Text
unfolding status_text bytes_of
message (stage name status ms detail) = bytes_of (
    codes (
      if detail ==ₛ ""
      then name ++ₛ " " ++ₛ status_text status
      else name ++ₛ " " ++ₛ status_text status ++ₛ " " ++ₛ detail))
message (artifact kind ref path) = bytes_of (codes (kind ++ₛ " " ++ₛ ref))

-- `p.last.Load() == msg`
is_last : Option Text → Text → Bool
is_last none msg = false
is_last (some prev) msg = text_eq prev msg

-- `emit`: the last message, and the one that is sent, if any.
pub emit : Option Text → Text → Option Text × List Text
unfolding capped is_last
emit last msg =
    let msg' = capped max_progress_text msg in
    if is_last last msg' then (last, []) else (some msg', msg' ∷ [])

-- The notifications of a call.
unfoldable pub emit_all : Option Text → List Progress → List Text
unfolding emit message
emit_all last [] = []
emit_all last (p ∷ ps) = let (last', sent) = emit last (message p) in sent ++ emit_all last' ps

code_text : Code → String
code_text invalid_request = "invalid_request"
code_text unsupported_version = "unsupported_version"
code_text unknown_op = "unknown_op"
code_text invalid_args = "invalid_args"
code_text invalid_output = "invalid_output"
code_text canceled = "canceled"
code_text failed = "failed"
code_text internal = "internal"
code_text unknown_project = "unknown_project"
code_text project_unavailable = "project_unavailable"
code_text project_changed = "project_changed"
code_text unauthorized = "unauthorized"
code_text forbidden = "forbidden"
code_text (other s) = s

error_line : Error → Text
unfolding code_text bytes_of
error_line e = bytes_of (
    codes (
      if e.path ==ₛ ""
      then code_text e.code ++ₛ ": " ++ₛ e.msg
      else code_text e.code ++ₛ ": " ++ₛ e.msg ++ₛ " (" ++ₛ e.path ++ₛ ")"))

-- `errText`.
unfoldable pub err_text : Error → Text
unfolding error_line capped
err_text e = capped max_error_text (error_line e)

option_injective : {a b : Text} → ◌≡◌ {A = Option Text} (some a) (some b) → a ≡ b
option_injective h = cc

length-take : (n : ℕ) (s : Text) → length (take n s) ≤ n
unfolding take
length-take zero s = omega arith
length-take (suc n) [] = omega arith
length-take (suc n) (x ∷ s) = omega (arith, length-take n s)

length-capped : (n : ℕ) (s : Text) → length (capped n s) ≤ n
unfolding capped
length-capped n s = ground (arith, length-take n s)

-- No message is the one before it.
abbrev pub Changes : Option Text → List Text → Type 0
Changes last [] = Unit
Changes last (m ∷ ms) = (last ≢ some m) × Changes (some m) ms

abbrev pub IsShort : Text → Type 0
IsShort m = length m ≤ max_progress_text

-- The message of the progress was sent, or is what was sent last before.
abbrev pub IsTold : Option Text → List Text → Progress → Type 0
IsTold last sent p =
    (last ≡ some (capped max_progress_text (message p)))
    ⊎ (any_by (text_eq (capped max_progress_text (message p))) sent ≡ true)

abbrev IsReport : Option Text → List Progress → List Text → Type 0
IsReport last ps sent = Changes last sent × All IsShort sent × All (IsTold last sent) ps

is_last_iff : (last : Option Text) (m : Text) → (is_last last m ≡ true) ↔ (last ≡ some m)
unfolding is_last
is_last_iff none m = (λ h. cc, λ h. cc)
is_last_iff (some l) m = (
  λ h. ap some (text_eq→eq l m h),
  λ h. ground (arith, text_eq_refl m, ap (λ (o : Option Text). is_last o m) h),
)

IsTold-later :
    (last : Option Text) (msg : Text) (sent : List Text) (ps : List Progress)
    → All (IsTold (some msg) sent) ps
    → All (IsTold last (msg ∷ sent)) ps
IsTold-later last msg sent [] h = tt
IsTold-later last msg sent (p ∷ ps) (inl e, hs) = (
  inr (rw (option_injective e, text_eq_refl (capped max_progress_text (message p))) refl),
  IsTold-later last msg sent ps hs,
)
IsTold-later last msg sent (p ∷ ps) (inr e, hs) =
    (inr (ground arith), IsTold-later last msg sent ps hs)

emit_all_same :
    (last : Option Text) (p : Progress) (ps : List Progress)
    → is_last last (capped max_progress_text (message p)) ≡ true
    → emit_all last (p ∷ ps) ≡ emit_all last ps
unfolding emit_all emit
emit_all_same last p ps h = rw h refl

emit_all_new :
    (last : Option Text) (p : Progress) (ps : List Progress)
    → let msg = capped max_progress_text (message p) in
      is_last last msg ≡ false → emit_all last (p ∷ ps) ≡ msg ∷ emit_all (some msg) ps
unfolding emit_all emit
emit_all_new last p ps h = rw h refl

emit_step :
    (last : Option Text) (p : Progress) (ps : List Progress)
    → ((l : Option Text) → IsReport l ps (emit_all l ps))
    → IsReport last (p ∷ ps) (emit_all last (p ∷ ps))
emit_step last p ps ih =
    let msg = capped max_progress_text (message p) in
    elim (Bool-cases (is_last last msg)) [
      | inl same ↦
          let rest = ih last in
          subst (IsReport last (p ∷ ps)) (sym (emit_all_same last p ps same))
            (rest.0, rest.1, (inl ((is_last_iff last msg).0 same), rest.2))
      | inr new ↦
          let rest = ih (some msg) in
          subst (IsReport last (p ∷ ps)) (sym (emit_all_new last p ps new)) (
            (λ e. ground (arith, new, (is_last_iff last msg).1 e), rest.0),
            (length-capped max_progress_text (message p), rest.1),
            (
              inr (rw (text_eq_refl msg) refl),
              IsTold-later last msg (emit_all (some msg) ps) ps rest.2,
            ),
          )
    ]

-- The notifications of a call: no two consecutive ones are equal, and the first differs from what was
-- sent last before; none has more bytes than the cap; and the message of every progress is among them, or is
-- what was sent last before.
pub emit_all-Changes :
    (last : Option Text) (ps : List Progress)
    → Changes last (emit_all last ps)
      × All IsShort (emit_all last ps)
      × All (IsTold last (emit_all last ps)) ps
unfolding emit_all
emit_all-Changes last [] = (tt, tt, tt)
emit_all-Changes last (p ∷ ps) = emit_step last p ps (λ l. emit_all-Changes l ps)

-- An error text never has more bytes than the cap.
length-err_text : (e : Error) → length (err_text e) ≤ max_error_text
unfolding err_text
length-err_text e = length-capped max_error_text (error_line e)
