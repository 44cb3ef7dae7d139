-- ===== src/Resource/Servers/Ensure/Handover.antt =====
-- internal/server/server.go, Ensure: which processes it leaves behind.
use game_forge.Prelude.{
  ◌+◌, ◌*◌, ◌<◌, ◌≤◌, Bool, true, false, not, String, ◌==ₛ◌, [], ◌∷◌, Option, none, some, Result,
  ok, err, if◌then◌else◌, is_nil, length, ◌≡◌, refl, ◌⊎◌, inl, inr, subst, sym, arith,
}
use game_forge.Prelude.Int.{ℤ}
use game_forge.Polling.{WaitError, timed_out, canceled, Advances, wait_until_ends}
use game_forge.Resource.{Files, Host, remove}
use game_forge.Resource.Servers.{check_foreign_owned}
use game_forge.Resource.Servers.Ensure.{
  Options, Server, EnsureError, started, killed, System, Ensured, timeout_of, stop, spawned,
  given_up, waited, refused, reused, launched, ensure,
}

-- A server without an id is not removed from the registry.
unregistered :
    (reg : Option Host) (fs : Files)
    → (elim reg [ none ↦ fs | some h ↦ if "" ==ₛ "" then fs else (remove h "" fs).0 ]) ≡ fs
unregistered none fs = refl
unregistered (some h) fs = refl

if_cases :
    {A : Type 0} (Q : A → Type 0) (b : Bool) {x z : A}
    → (b ≡ true → Q x)
    → (b ≡ false → Q z)
    → Q (if b then x else z)
if_cases Q true f g = f refl
if_cases Q false f g = g refl

module _ (y : System) (o : Options) (fs : Files) where
  -- The server that was there: nothing starts, nothing is written, and no other project is found
  -- to own the URL.
  IsReuse : Ensured → Type 0
  IsReuse r =
      (s : Server) × (r.answer ≡ ok s)
      × (s.owned ≡ false)
      × (check_foreign_owned o.registry o.url o.project_key fs ≡ none)
      × (r.events ≡ [])
      × (r.files ≡ fs)

  -- A server of its own: one process starts, which `Stop` of the server kills.
  pub IsOwn : Ensured → Type 0
  IsOwn r =
      (s : Server) × (p : ℤ) × (r.answer ≡ ok s)
      × (y.process ≡ some p)
      × (r.events ≡ started p ∷ [])
      × ((stop o.registry s r.files).0 ≡ killed p ∷ [])

  -- An error: nothing is written, and a process that was started is killed.
  IsRefusal : Ensured → Type 0
  IsRefusal r =
      (e : EnsureError) × (r.answer ≡ err e)
      × (r.files ≡ fs)
      × ((r.events ≡ []) ⊎ ((p : ℤ) × (r.events ≡ started p ∷ killed p ∷ [])))

  pub HandsOver : Ensured → Type 0
  unfolding IsReuse IsOwn IsRefusal
  HandsOver r = ((y.reachable ≡ true) × IsReuse r) ⊎ ((y.reachable ≡ false) × IsOwn r) ⊎ IsRefusal r

  Ends : Option Ensured → Type 0
  unfolding HandsOver
  Ends x = (r : Ensured) × (x ≡ some r) × HandsOver r

  refused-Ends : (e : EnsureError) → Ends (some (refused e fs))
  unfolding Ends refused
  refused-Ends e = (refused e fs, refl, inr (inr (e, refl, refl, inl refl)))

  reused-Ends :
      (k : Option String)
      → y.reachable ≡ true
      → check_foreign_owned o.registry o.url o.project_key fs ≡ k
      → Ends (some (reused o fs k))
  unfolding Ends reused
  reused-Ends none u h = (_, refl, inl (u, (_, refl, refl, h, refl, refl)))
  reused-Ends (some key) u h = refused-Ends _

  given_up-IsRefusal : (p : ℤ) (e : EnsureError) → IsRefusal (given_up o p e fs)
  unfolding given_up IsRefusal stop spawned
  given_up-IsRefusal p e = (e, refl, unregistered o.registry fs, inr (p, refl))

  waited-HandsOver :
      (p : ℤ) (w : Result WaitError (Unit {0}))
      → y.reachable ≡ false
      → y.process ≡ some p
      → HandsOver (waited y o p fs w)
  unfolding waited HandsOver stop spawned
  waited-HandsOver p (err timed_out) n h = inr (inr (given_up-IsRefusal p _))
  waited-HandsOver p (err canceled) n h = inr (inr (given_up-IsRefusal p _))
  waited-HandsOver p (ok u) n h = inr (inl (n, (_, p, refl, h, refl, refl)))

  -- The rounds of the wait are 250 ms apart and take up its whole time.
  abbrev IsPaced : Type 0
  IsPaced =
      Advances 250 y.now y.rounds
      × (0 < length y.rounds)
      × (timeout_of o.ready_timeout + 250 ≤ 250 * length y.rounds)

  launched-Ends :
      IsPaced → y.reachable ≡ false → (q : Option ℤ) → y.process ≡ q → Ends (launched y o fs q)
  unfolding launched Ends
  launched-Ends paced n none h = refused-Ends _
  launched-Ends (advances, some_round, enough) n (some p) h =
      let (w, ended) =
        wait_until_ends (y.now + timeout_of o.ready_timeout) 250 y.now y.rounds advances some_round
          (omega (arith, enough)) in
      subst (λ x. Ends (elim x [ none ↦ none | some r ↦ some (waited y o p fs r) ])) (sym ended)
        (_, refl, waited-HandsOver p w n h)

  -- If the rounds of the wait are 250 ms apart and take up its whole time, `Ensure` comes to an end, in one
  -- of three ways. It returns a server that was reachable and that is not owned: then
  -- `checkForeignOwned` found no other project that owns the URL, no process was started, and the
  -- registry is as before. Or the URL was not reachable, and it returns a server of its own: then one
  -- process was started, which `Stop` of that server kills. Or it returns an error: then the registry is
  -- as before, and a process that was started, if any, was killed.
  pub ensure-HandsOver : IsPaced → (r : Ensured) × (ensure y o fs ≡ some r) × HandsOver r
  unfolding ensure Ends
  ensure-HandsOver paced =
      if_cases Ends (o.url ==ₛ "") (λ _. refused-Ends _)
        (λ _.
          if_cases Ends y.reachable (λ u. reused-Ends _ u refl)
            (λ n.
              if_cases Ends (is_nil o.command) (λ _. refused-Ends _)
                (λ _.
                  if_cases Ends (not y.log_ok) (λ _. refused-Ends _)
                    (λ _. launched-Ends paced n y.process refl))))
