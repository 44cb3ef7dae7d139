-- ===== src/Resource/Housekeeping.antt =====
-- internal/core/core.go: which runs are in flight, and how expired resources are reclaimed. One pass is
-- modelled as a step of its own, from the snapshots that it takes at its start.
pub mod Passes
pub mod Acts
pub mod Drain
use game_forge.Prelude.{
  ℕ, ◌+◌, Bool, true, false, not, ◌&&◌, String, ◌==ₛ◌, List, [], ◌∷◌, ◌++◌, Option, none, some,
  Result, ok, err, if◌then◌else◌, any_by, lookup,
}
use game_forge.Prelude.Int.{ℤ}
use game_forge.Storage.{IoError}
use game_forge.Resource.{
  Resource, Files, Host, kind_browser, kind_server, expired_resources, remove, list,
}

-- `runs` of the Runtime: the ids of the runs in flight.
abbrev pub Runs : Type 0
Runs = List String

pub is_active : Runs → String → Bool
is_active runs id = any_by (λ r. r ==ₛ id) runs

-- `beginRun`, and the function that it returns.
begin_run : String → Runs → Runs
unfolding is_active
begin_run id runs = if is_active runs id then runs else id ∷ runs

end_run : String → Runs → Runs
end_run id [] = []
end_run id (r ∷ rs) = if r ==ₛ id then end_run id rs else r ∷ end_run id rs

-- What is done to a resource: its browser session is closed, or its process and group are terminated (the
-- group by the text that the metadata hold).
pub data Act : Type 0 where
  closed : String → Act
  killed : ℤ → Option String → Act

pub record Reclaimed : Type 0 where
  pub id : String
  pub kind : String
  pub provider : String
  pub namespace : String

pub record ReclaimResult : Type 0 where
  pub reclaimed : List Reclaimed
  pub failed : ℕ

-- A pass: the directory, what was done, and the result so far.
pub record Pass : Type 0 where
  pub files : Files
  pub acts : List Act
  pub result : ReclaimResult

reclaimed_of : Resource → Reclaimed
reclaimed_of r = record { id = r.id; kind = r.kind; provider = r.provider; namespace = r.namespace }

-- `reclaimResource`: what it does, and whether it succeeds.
pub reclaim_resource : Host → Resource → List Act × Bool
unfolding lookup
reclaim_resource h r =
    if r.kind ==ₛ kind_browser
    then (closed r.namespace ∷ [], h.closes_browser r.namespace)
    else if r.kind ==ₛ kind_server
    then (killed r.pid (lookup "pgid" r.metadata) ∷ [], true)
    else ([], false)

failure : ReclaimResult → ReclaimResult
failure res = record res { failed = res.failed + 1 }

success : Resource → ReclaimResult → ReclaimResult
unfolding reclaimed_of
success r res = record res { reclaimed = res.reclaimed ++ reclaimed_of r ∷ [] }

-- The body of both loops.
release_one : Host → Resource → Pass → Pass
unfolding reclaim_resource remove failure success
release_one h r p =
    let (acts, done) = reclaim_resource h r in
    let (files, error) = remove h r.id p.files in
    if not done
    then record { files = p.files; acts = p.acts ++ acts; result = failure p.result }
    else elim error [
      | some e ↦ record { files = files; acts = p.acts ++ acts; result = failure p.result }
      | none ↦ record { files = files; acts = p.acts ++ acts; result = success r p.result }
    ]

release_all : Host → List Resource → Pass → Pass
unfolding release_one
release_all h [] p = p
release_all h (r ∷ rs) p = release_all h rs (release_one h r p)

-- The loop of `tick`, over records that have expired.
pub release_idle : Host → Runs → List Resource → Pass → Pass
unfolding release_one is_active
release_idle h runs [] p = p
release_idle h runs (r ∷ rs) p =
    release_idle h runs rs (if is_active runs r.run_id then p else release_one h r p)

started : Files → Pass
started fs = record { files = fs; acts = []; result = record { reclaimed = []; failed = 0 } }

-- `tick`
unfoldable pub tick : Host → ℕ → Runs → Files → Result IoError Pass
unfolding release_idle started
tick h now runs fs = elim (expired_resources h now fs) [
  | err e ↦ err e
  | ok rs ↦ ok (release_idle h runs rs (started fs))
]

-- `ReleaseOwned`
pub release_owned : Host → Files → Result IoError Pass
unfolding release_all started
release_owned h fs = elim (list h fs) [ err e ↦ err e | ok rs ↦ ok (release_all h rs (started fs)) ]
