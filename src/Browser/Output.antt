-- ===== src/Browser/Output.antt =====
-- internal/browser/agentbrowser.go: what the provider reads from the output of agent-browser. The decoders of
-- UTF-16, of UTF-8 and of JSON are arguments. A text of the output is the list of its code points.
pub mod Noise
use game_forge.Prelude.{
  ℕ, ◌+◌, ◌*◌, Bool, true, false, ◌&&◌, List, [], ◌∷◌, Text, ◌==◌, is_empty, if◌then◌else◌, reverse,
  Option, none, some, Result, ok, err, trim_both,
}
use game_forge.Contract.{is_space}

-- `uint16(lo) | uint16(hi)<<8`, for bytes; a last odd byte is not read.
units : List ℕ → List ℕ
units (lo ∷ hi ∷ s) = (lo + 256 * hi) ∷ units s
units _ = []

-- bytes.TrimPrefix(b, []byte{0xEF, 0xBB, 0xBF})
trim_mark : List ℕ → List ℕ
trim_mark (a ∷ b ∷ c ∷ s) = if (a == 0xef) && ((b == 0xbb) && (c == 0xbf)) then s else a ∷ b ∷ c ∷ s
trim_mark s = s

-- What the standard library decodes.
pub record Decoders : Type 0 where
  pub utf16 : List ℕ → Text
  pub utf8 : List ℕ → Text

unfoldable pub decode_output : Decoders → List ℕ → Text
unfolding units trim_mark
decode_output d (a ∷ b ∷ s) =
    if (a == 0xff) && (b == 0xfe) then d.utf16 (units s) else d.utf8 (trim_mark (a ∷ b ∷ s))
decode_output d s = d.utf8 (trim_mark s)

-- What begins with the first occurrence of a character.
unfoldable pub from_first : ℕ → Text → Text
from_first x [] = []
from_first x (c ∷ s) = let rest = from_first x s in if c == x then c ∷ s else rest

-- What ends with the last.
unfoldable pub up_to_last : ℕ → Text → Text
unfolding from_first
up_to_last x s = reverse (from_first x (reverse s))

abbrev pub brace_open : ℕ
brace_open = 0x7b

abbrev pub brace_close : ℕ
brace_close = 0x7d

-- `extractJSON`: `s[i : j+1]` from the first opening brace to the last closing one, if that is behind it.
unfoldable pub extract_json : Text → Text
unfolding from_first up_to_last is_space
extract_json raw = from_first brace_open (up_to_last brace_close (trim_both is_space raw))

pub record Envelope : Type 0 where
  pub success : Bool
  pub payload : Text
  pub error : Option Text

pub data EnvelopeError : Type 0 where
  no_response bad_response reported_failure : EnvelopeError
  provider_error : Text → EnvelopeError

pub failure_of : Option Text → EnvelopeError
failure_of none = reported_failure
failure_of (some e) = if is_empty e then reported_failure else provider_error e

enveloped : Option Envelope → Result EnvelopeError Envelope
unfolding failure_of
enveloped none = err bad_response
enveloped (some env) = if env.success then ok env else err (failure_of env.error)

-- `json` is json.Unmarshal into an envelope.
module _ (json : Text → Option Envelope) where
  unfoldable pub parse_envelope : Text → Result EnvelopeError Envelope
  unfolding extract_json enveloped
  parse_envelope raw =
      let j = extract_json raw in if is_empty j then err no_response else enveloped (json j)

  parses : Option Envelope → Bool
  parses none = false
  parses (some env) = true

  unfoldable pub is_complete : Text → Bool
  unfolding extract_json parses
  is_complete raw = let j = extract_json raw in if is_empty j then false else parses (json j)
