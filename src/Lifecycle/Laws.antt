-- ===== src/Lifecycle/Laws.antt =====
-- internal/lifecycle/lifecycle.go: when a stop is over, and who is asked to start and stop.
use game_forge.Prelude.{
  ℕ, ◌+◌, ◌<◌, true, false, List, [], ◌∷◌, Option, none, some, Result, ok, err, ◌≡◌, refl, ◌⊎◌, inl,
  inr, arith, All, All-append, if_both, Bool-cases, Option-cases,
}
use game_forge.Polling.{Round, WaitError, wait_until, SeenIn, wait_until-SeenIn}
use game_forge.Daemon.Discovery.{Discovery}
use game_forge.Lifecycle.{
  Manager, StartFinds, StopFinds, Look, Act, manager_start, manager_stop, manager_restart, shutdown,
  ensured, is_installed, start, stop, restart, then_start, wait_gone, gone_timeout, waited, gone,
  gone_rounds, LifecycleError,
}

-- A look in time at which no daemon answered and the ownership lock was free.
abbrev pub GoneIn : ℕ → List (Round Look) → Type 0
GoneIn deadline [] = ⊥
GoneIn deadline (r ∷ rs) =
    ((r.now < deadline) × (r.seen ≡ some (record { answers = false; free = true })))
    ⊎ GoneIn deadline rs

seen_gone :
    (r : Round Look)
    → (gone r).seen ≡ some tt
    → r.seen ≡ some (record { answers = false; free = true })
unfolding gone
seen_gone r h = ground arith

gone_rounds-GoneIn :
    (deadline : ℕ) (rs : List (Round Look))
    → SeenIn deadline tt (gone_rounds rs)
    → GoneIn deadline rs
unfolding gone_rounds gone
gone_rounds-GoneIn deadline [] h = h
gone_rounds-GoneIn deadline (r ∷ rs) (inl (early, s)) = inl (early, seen_gone r s)
gone_rounds-GoneIn deadline (r ∷ rs) (inr later) = inr (gone_rounds-GoneIn deadline rs later)

waited_ok : (r : Option (Result WaitError (Unit {0}))) → waited r ≡ some (ok tt) → r ≡ some (ok tt)
unfolding waited
waited_ok none h = ground arith
waited_ok (some (ok u)) h = refl
waited_ok (some (err e)) h = ground arith

wait_gone-GoneIn :
    (t : ℕ) (rs : List (Round Look)) → wait_gone t rs ≡ some (ok tt) → GoneIn (t + gone_timeout) rs
unfolding wait_gone waited
wait_gone-GoneIn t rs h =
    gone_rounds-GoneIn _ rs
      (wait_until-SeenIn _ (gone_rounds rs) tt (waited_ok (wait_until _ (gone_rounds rs)) h))

-- `Stop` returns without an error only if, in time, a look found that no daemon answered and that the
-- ownership lock was free, or if no service is installed and no daemon answered in the first place; in
-- that case it has not looked at the lock.
pub stop-GoneIn :
    (m : Manager) (f : StopFinds)
    → (stop m f).1 ≡ some (ok tt)
    → GoneIn (f.since + gone_timeout) f.rounds
      ⊎ ((is_installed m ≡ false) × (f.running ≡ none) × ((stop m f).0 ≡ []))
unfolding stop
stop-GoneIn m f h = elim (Bool-cases (is_installed m)) [
  | inl i ↦ elim (Bool-cases m.stop_fails) [
    | inl x ↦ ground arith
    | inr x ↦ inl (wait_gone-GoneIn f.since f.rounds (ground arith))
  ]
  | inr i ↦ elim (Option-cases f.running) [
    | inl n ↦ inr (i, n, ground arith)
    | inr (d, n) ↦ elim (Bool-cases f.shutdown_fails) [
      | inl x ↦ ground arith
      | inr x ↦ inl (wait_gone-GoneIn f.since f.rounds (ground arith))
    ]
  ]
]

abbrev ByManager : Act → Type 0
ByManager a = (a ≡ manager_start) ⊎ (a ≡ manager_stop) ⊎ (a ≡ manager_restart)

abbrev Direct : Act → Type 0
Direct a = (a ≡ shutdown) ⊎ (a ≡ ensured)

-- Who may be asked.
abbrev Routed : Manager → List Act → Type 0
Routed m acts =
    ((is_installed m ≡ true) × All ByManager acts) ⊎ ((is_installed m ≡ false) × All Direct acts)

start-ByManager :
    (m : Manager) (f : StartFinds) → is_installed m ≡ true → All ByManager (start m f).0
unfolding start
start-ByManager m f h = elim (Option-cases f.running) [
  | inr (d, e) ↦ rw (h, e) tt
  | inl e ↦
      rw (h, e)
        (if_both (λ (r : List Act × Option (Result LifecycleError Discovery)). All ByManager r.0)
          m.start_fails (inl refl, tt) (inl refl, tt))
]

start-Direct : (m : Manager) (f : StartFinds) → is_installed m ≡ false → All Direct (start m f).0
unfolding start
start-Direct m f h = rw h (inr refl, tt)

stop-ByManager : (m : Manager) (f : StopFinds) → is_installed m ≡ true → All ByManager (stop m f).0
unfolding stop
stop-ByManager m f h = rw h (
    if_both (λ (r : List Act × Option (Result LifecycleError (Unit {0}))). All ByManager r.0)
      m.stop_fails (inr (inl refl), tt) (inr (inl refl), tt))

stop-Direct : (m : Manager) (f : StopFinds) → is_installed m ≡ false → All Direct (stop m f).0
unfolding stop
stop-Direct m f h = elim (Option-cases f.running) [
  | inl e ↦ rw (h, e) tt
  | inr (d, e) ↦
      rw (h, e)
        (if_both (λ (r : List Act × Option (Result LifecycleError (Unit {0}))). All Direct r.0)
          f.shutdown_fails (inl refl, tt) (inl refl, tt))
]

restart-ByManager :
    (m : Manager) (g : StopFinds) (f : StartFinds)
    → is_installed m ≡ true
    → All ByManager (restart m g f).0
unfolding restart
restart-ByManager m g f h = rw h (
    if_both (λ (r : List Act × Option (Result LifecycleError Discovery)). All ByManager r.0)
      m.restart_fails (inr (inr refl), tt) (inr (inr refl), tt))

then_start-Direct :
    (m : Manager) (f : StartFinds) (r : List Act × Option (Result LifecycleError (Unit {0})))
    → is_installed m ≡ false
    → All Direct r.0
    → All Direct (then_start m f r).0
unfolding then_start
then_start-Direct m f (acts, none) h d = d
then_start-Direct m f (acts, some (err e)) h d = d
then_start-Direct m f (acts, some (ok u)) h d =
    All-append Direct acts (start m f).0 d (start-Direct m f h)

restart-Direct :
    (m : Manager) (g : StopFinds) (f : StartFinds)
    → is_installed m ≡ false
    → All Direct (restart m g f).0
unfolding restart
restart-Direct m g f h = rw h (then_start-Direct m f (stop m g) h (stop-Direct m g h))

-- Every command asks the service manager alone where a service is installed, and never otherwise: an
-- installed service is not bypassed.
restart-Routed :
    (m : Manager) (g : StopFinds) (f : StartFinds)
    → Routed m (start m f).0 × Routed m (stop m g).0 × Routed m (restart m g f).0
restart-Routed m g f = elim (Bool-cases (is_installed m)) [
  | inl h ↦ (
    inl (h, start-ByManager m f h),
    inl (h, stop-ByManager m g h),
    inl (h, restart-ByManager m g f h),
  )
  | inr h ↦
      (inr (h, start-Direct m f h), inr (h, stop-Direct m g h), inr (h, restart-Direct m g f h))
]
