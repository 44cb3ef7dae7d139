-- ===== src/Daemon/Serve/Ends.antt =====
-- internal/daemon/server.go, Serve: the order in which a daemon takes and gives up what it shares, and what
-- it leaves behind.
use game_forge.Prelude.{
  ◌+◌, true, false, ℕ, List, [], ◌∷◌, ◌++◌, Option, none, some, ok, err, ◌≡◌, refl, sym, ◌⊎◌, inl,
  inr, if_both, Result, Bool-cases, Text, is_empty,
}
use mathlib.Core.List.{append_assoc, append-nil}
use game_forge.Storage.{Disk, IoError}
use game_forge.Daemon.Endpoint.{EndpointDisk, BindError}
use game_forge.Daemon.Discovery.{Discovery}
use game_forge.Daemon.Ownership.{LockError}
use game_forge.Daemon.Serve.{
  Phase, owned, listening, published, reconciled, closed, startup_held, withdrawn, drained,
  startup_freed, freed, World, Ending, stopped, closed_listener, broken, Surroundings, ServeError,
  enters, live, withdraw, drain, hold_startup, free_startup, shut_down, ended, ended_by,
  published_by, bound_by, locked_by, clears, not_owned, no_token, serve_with, serve_owned, serve,
}

-- The lives of a process inside its ownership.
pub data Life : List Phase → Type 0 where
  -- no token or no port
  unbound : Life []
  -- the endpoint could not be published
  unpublished : Life (listening ∷ closed ∷ [])
  -- the listener ended by itself
  aborted : Life (listening ∷ published ∷ reconciled ∷ withdrawn ∷ [])
  -- stopped, while another process held the startup lock
  stopped_alone :
      Life (listening ∷ published ∷ reconciled ∷ closed ∷ withdrawn ∷ drained ∷ withdrawn ∷ [])
  -- stopped, holding the startup lock
  stopped_held : Life (
      listening ∷ published ∷ reconciled ∷ closed ∷ startup_held ∷ withdrawn ∷ drained
      ∷ startup_freed ∷ withdrawn ∷ [])

-- The phases that were added are those of a life.
abbrev Lives : World → World → Type 0
Lives w v = (ps : List Phase) × (v.trace ≡ w.trace ++ ps) × Life ps

ended_by-Lives :
    (a : Surroundings) (w v : World) (e : Ending)
    → v.trace ≡ w.trace ++ listening ∷ published ∷ reconciled ∷ []
    → Lives w (ended_by a v e).0
unfolding ended_by shut_down withdraw drain hold_startup free_startup enters
ended_by-Lives a w v stopped h = elim (Bool-cases a.startup_free) [
  | inl s ↦ (_, rw (s, h) (simp append_assoc), stopped_held)
  | inr s ↦ (_, rw (s, h) (simp append_assoc), stopped_alone)
]
ended_by-Lives a w v closed_listener h = (_, rw h (simp append_assoc), aborted)
ended_by-Lives a w v (broken m) h = (_, rw h (simp append_assoc), aborted)

published_by-Lives :
    (a : Surroundings) (w : World) (r : Disk Discovery × Option IoError)
    → Lives w (published_by a w r).0
unfolding published_by live enters ended
published_by-Lives a w (disc, some e) = (_, simp append_assoc, unpublished)
published_by-Lives a w (disc, none) =
    ended_by-Lives a w
      (live a (enters published (record (enters listening w) { discovery = disc }))) a.ending
      (simp append_assoc)

bound_by-Lives :
    (a : Surroundings) (token : Text) (w : World) (r : EndpointDisk × Result BindError ℕ)
    → Lives w (bound_by a token w r).0
unfolding bound_by
bound_by-Lives a token w (disk, err e) = ([], sym (append-nil w.trace), unbound)
bound_by-Lives a token w (disk, ok port) = published_by-Lives a (record w { endpoint = disk }) _

serve_owned-Lives : (a : Surroundings) (w : World) → Lives w (serve_owned a w).0
unfolding serve_owned serve_with
serve_owned-Lives a w =
    if_both (λ (r : World × Option ServeError). Lives w r.0) (is_empty a.token) (with_fresh a.fresh)
      (bound_by-Lives a a.token w _)
  where
    with_fresh :
        (f : Option Text)
        → Lives w
            (let r : World × Option ServeError = elim f [
              | none ↦ (w, some no_token)
              | some t ↦ serve_with a t w
            ] in
              r).0
    with_fresh none = ([], sym (append-nil w.trace), unbound)
    with_fresh (some t) = bound_by-Lives a t w _

-- A process that does not get the ownership has only removed lock files; one that does has led a life.
pub IsServed : Surroundings → World → World × Option ServeError → Type 0
IsServed a w r =
    ((e : LockError) × (a.lock.1 ≡ err e)
      × (r.1 ≡ some (not_owned e))
      × (r.0 ≡ record w { removed_locks = w.removed_locks + a.lock.0 }))
    ⊎ ((a.lock.1 ≡ ok tt)
        × (r.0.lock_held ≡ false)
        × ((ps : List Phase) × Life ps × (r.0.trace ≡ w.trace ++ owned ∷ (ps ++ freed ∷ []))))

locked_by-IsServed :
    (a : Surroundings) (w : World) (l : Result LockError (Unit {0}))
    → a.lock.1 ≡ l
    → IsServed a w (locked_by a (clears a.lock.0 w) l)
unfolding locked_by enters clears IsServed
locked_by-IsServed a w (err e) h = inl (e, h, refl, refl)
locked_by-IsServed a w (ok u) h =
    let (ps, e, life) =
      serve_owned-Lives a (enters owned (record (clears a.lock.0 w) { lock_held = true })) in
    inr (h, refl, (ps, life, rw e (simp append_assoc)))

-- A process that does not get the ownership returns that error and enters no phase; the port, the published
-- record and the resources stay as they were, and the lock files that it removed as stale are counted. One
-- that gets it leads one of the five lives between taking the ownership and giving it up: so it listens and
-- publishes only as the owner, it gives the ownership up last on every path and does not hold it at the end,
-- and it drains the resources only after it has closed the listener and withdrawn the published record.
pub serve-Life : (a : Surroundings) (w : World) → IsServed a w (serve a w)
unfolding serve
serve-Life a w = locked_by-IsServed a w a.lock.1 refl
