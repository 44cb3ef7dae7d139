-- ===== src/Client.antt =====
-- internal/client/client.go: the HTTP client of the daemon. What a request by HTTP comes to is a value
-- (`Sent`), a body is what its decoder makes of it, and the encoded data of a reply is the value itself,
-- with `none` for null.
pub mod Connect
pub mod Pipeline
mod Examples
use game_forge.Prelude.{
  ℕ, ◌+◌, Bool, true, false, String, List, [], ◌∷◌, ◌++◌, Option, none, some, Result, ok, err,
  if◌then◌else◌, ◌==◌ as ◌==ₙ◌,
}
use game_forge.Prelude.Int.{ℤ, pos}
use game_forge.Project.Manifest.{FilePath}
use game_forge.Op.{Error, internal, failed, Ident, Status, Progress, Request, Response}
use game_forge.Daemon.Dispatch.{Event, started, progressed, done, protocol_version, fault}
use game_forge.Daemon.Run.InProcess.{Meta}

-- What repeated decoding makes of a body: events, and the end of the body or an error.
pub data Lines (V : Type 0) : Type 0 where
  eof : Lines V
  broken : String → Lines V
  line : Event V → Lines V → Lines V

-- A reply to /v1/run, by its content type, with its status and what the decoder makes of it.
pub data HttpReply (V : Type 0) : Type 0 where
  plain : ℕ → Result String (Response V) → HttpReply V
  ndjson : ℕ → Lines V → HttpReply V

-- The request could not be encoded or built, there was no answer, or there was one.
pub data Sent (A : Type 0) : Type 0 where
  unencodable no_answer : String → Sent A
  answered : A → Sent A

-- The fields of `Client` that requests read, and the counter behind `reqs`.
pub record Client : Type 0 where
  pub cwd : Option FilePath
  pub reqs : ℕ

-- `do`, which counts the requests that are sent.
unfoldable pub counted : {A : Type 0} → Client → Sent A → Client
counted c (unencodable m) = c
counted c (no_answer m) = record c { reqs = c.reqs + 1 }
counted c (answered a) = record c { reqs = c.reqs + 1 }

with_cwd : Client → FilePath → Client
with_cwd c dir = record c { cwd = some dir }

is_unversioned : ℤ → Bool
is_unversioned (pos n) = n ==ₙ 0
is_unversioned (ℤ.negsuc n) = false

module _ {V : Type 0} where
  unfoldable pub reply_result : Result String (Response V) → Result Error (Option V)
  reply_result (err m) = err (fault internal "decode reply")
  reply_result (ok r) = elim r.error [ some e ↦ err e | none ↦ ok r.value ]

  -- The data and the error of the last terminal event.
  last_of : Event V → Option (Option V × Option Error) → Option (Option V × Option Error)
  last_of ev last = elim ev.body [
    | done run st code value error ↦ some (value, error)
    | started run ↦ last
    | progressed run p ↦ last
  ]

  stream_end : Option (Option V × Option Error) → Result Error (Option V)
  stream_end none = err (fault internal "stream ended without a done event")
  stream_end (some (value, some e)) = err e
  stream_end (some (value, none)) = ok value

  -- The loop over the events: those that `onEvent` saw, and the result.
  unfoldable pub scan :
      Lines V → Option (Option V × Option Error) → List (Event V) × Result Error (Option V)
  unfolding stream_end last_of
  scan eof last = ([], stream_end last)
  scan (broken m) last = ([], err (fault internal "decode event"))
  scan (line ev rest) last = let (seen, result) = scan rest (last_of ev last) in (ev ∷ seen, result)

  stream_answer : HttpReply V → List (Event V) × Result Error (Option V)
  unfolding scan reply_result
  stream_answer (plain status r) = ([], reply_result r)
  stream_answer (ndjson status lines) = scan lines none

  pub stream_request : Sent (HttpReply V) → List (Event V) × Result Error (Option V)
  unfolding stream_answer
  stream_request (unencodable m) = ([], err (fault internal m))
  stream_request (no_answer m) = ([], err (fault failed "daemon request"))
  stream_request (answered r) = stream_answer r

  -- What the caller's sink gets of an event.
  forwarded : Event V → List Progress
  forwarded ev = elim ev.body [
    | progressed run p ↦ p ∷ []
    | started run ↦ []
    | done run st code value error ↦ []
  ]

  forwarded_all : List (Event V) → List Progress
  unfolding forwarded
  forwarded_all [] = []
  forwarded_all (ev ∷ evs) = forwarded ev ++ forwarded_all evs

  -- A request without a version gets the protocol's.
  pub versioned : Request V → Request V
  unfolding is_unversioned
  versioned req = if is_unversioned req.v then record req { v = protocol_version } else req

  -- `RunRequest`: the progress that the sink got, and the result.
  unfoldable pub run_request :
      (Request V → Sent (HttpReply V))
      → Client
      → Request V
      → Client × (List Progress × Result Error (Option V))
  unfolding stream_request forwarded_all versioned counted
  run_request post c req =
      let sent = post (versioned req) in
      let (events, result) = stream_request sent in (counted c sent, (forwarded_all events, result))

  -- The envelope of `marshalRequest`: the pinned directory, or that of the process.
  request_for : Client → Option FilePath → Ident → String → V → Request V
  request_for c wd id name args = record {
    v = protocol_version;
    id = id;
    op = name;
    cwd = elim c.cwd [ some dir ↦ some dir | none ↦ wd ];
    project = [];
    args = args;
  }

  -- `Run`, without a stream; the reply is decoded whatever its status.
  pub run :
      (Request V → Sent (Result String (Response V)))
      → Option FilePath
      → Client
      → String
      → V
      → Client × Result Error (Option V)
  unfolding request_for reply_result counted
  run post wd c name args =
      let sent = post (request_for c wd (Ident.given "") name args) in
      (
        counted c sent,
        elim sent [
          | unencodable m ↦ err (fault internal m)
          | no_answer m ↦ err (fault failed "daemon request")
          | answered r ↦ reply_result r
        ],
      )

  -- `Stream`.
  pub stream :
      (Request V → Sent (HttpReply V))
      → Option FilePath
      → Client
      → String
      → V
      → Client × (List (Event V) × Result Error (Option V))
  unfolding request_for stream_request counted
  stream post wd c name args =
      let sent = post (request_for c wd (Ident.given "") name args) in
      (counted c sent, stream_request sent)

-- The document of /v1/catalog.
pub record Catalog (V : Type 0) : Type 0 where
  pub v : ℤ
  pub protocol : String
  pub ops : List (Meta V)

pub data CatalogError : Type 0 where
  unsent : String → CatalogError
  too_old : CatalogError
  reported : Error → CatalogError
  bad_status : ℕ → CatalogError
  undecodable : String → CatalogError

-- A reply to /v1/catalog: its status, and what decoding it as an error reply or a catalog gives.
pub record CatalogReply (V : Type 0) : Type 0 where
  pub status : ℕ
  pub failure : Result String (Response V)
  pub document : Result String (Catalog V)

reported_or : {V : Type 0} → ℕ → Result String (Response V) → CatalogError
reported_or status (err m) = bad_status status
reported_or status (ok r) = elim r.error [ some e ↦ reported e | none ↦ bad_status status ]

catalog_of : {V : Type 0} → CatalogReply V → Result CatalogError (Catalog V)
unfolding reported_or
catalog_of r =
    if r.status ==ₙ 404
    then err too_old
    else if r.status ==ₙ 200
    then elim r.document [ err m ↦ err (undecodable m) | ok d ↦ ok d ]
    else err (reported_or r.status r.failure)

-- `Catalog`.
unfoldable pub catalog :
    {V : Type 0} → Client → Sent (CatalogReply V) → Client × Result CatalogError (Catalog V)
unfolding catalog_of counted
catalog c sent = (
  counted c sent,
  elim sent [
    | unencodable m ↦ err (unsent m)
    | no_answer m ↦ err (unsent m)
    | answered r ↦ catalog_of r
  ],
)
