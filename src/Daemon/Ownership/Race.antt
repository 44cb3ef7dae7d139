-- ===== src/Daemon/Ownership/Race.antt =====
-- internal/daemon/server.go, acquireLifetimeLock: several processes over one lock file, call by call.
pub mod Exclusive
use game_forge.Prelude.{
  ℕ, Bool, true, false, Option, none, some, ◌≡◌, ◌≢◌, ◌⊎◌, inl, inr, refl, sym, ap, ◌∙◌, arith,
  subst, if◌then◌else◌, Bool-cases, ==_iff, ◌==◌ as ◌==ₙ◌,
}

-- Where a process is: outside, before its next attempt, between the creation of the file and the write of
-- its pid, after it has judged the file stale, or the owner.
pub data Place : Type 0 where
  outside trying opened judged owner : Place

-- The file at the path: who created it, and whether the pid is written.
pub record Lock : Type 0 where
  pub creator : ℕ
  pub is_written : Bool

-- Processes are known by their pids.
pub record World : Type 0 where
  pub place : ℕ → Place
  pub lock : Option Lock

unfoldable pub at : (ℕ → Place) → ℕ → Place → ℕ → Place
at f p x q = if p ==ₙ q then x else f q

-- The pid that a reader finds is 0 before the write.
pub reads_dead : (ℕ → Bool) → Lock → Bool
reads_dead alive l = if l.is_written then (if alive l.creator then false else true) else true

-- The write goes to the file that was created, which may no longer be the one at the path.
unfoldable pub write_pid : ℕ → Option Lock → Option Lock
write_pid p none = none
write_pid p (some l) = if l.creator ==ₙ p then some (record l { is_written = true }) else some l

-- One call of one process, while `alive` says which processes live.
pub data Step (alive : ℕ → Bool) : World → World → Type 0 where
  begin :
      (w : World) (p : ℕ)
      → w.place p ≡ outside
      → Step alive w (record w { place = at w.place p trying })
  create :
      (w : World) (p : ℕ)
      → w.place p ≡ trying
      → w.lock ≡ none
      → Step alive w (record {
        place = at w.place p opened;
        lock = some (record { creator = p; is_written = false });
      })
  write :
      (w : World) (p : ℕ)
      → w.place p ≡ opened
      → Step alive w (record { place = at w.place p owner; lock = write_pid p w.lock })
  judge :
      (w : World) (p : ℕ) (l : Lock)
      → w.place p ≡ trying
      → w.lock ≡ some l
      → reads_dead alive l ≡ true
      → Step alive w (record w { place = at w.place p judged })
  discard :
      (w : World) (p : ℕ)
      → w.place p ≡ judged
      → Step alive w (record { place = at w.place p trying; lock = none })
  release :
      (w : World) (p : ℕ)
      → w.place p ≡ owner
      → Step alive w (record { place = at w.place p outside; lock = none })

pub data Reach (alive : ℕ → Bool) (w : World) : World → Type 0 where
  here : Reach alive w w
  next : {u v : World} → Reach alive w u → Step alive u v → Reach alive w v

at_self : (f : ℕ → Place) (p : ℕ) (x : Place) → at f p x p ≡ x
unfolding at
at_self f p x = ground (arith, ==_iff p p)

at_other : (f : ℕ → Place) (p q : ℕ) (x : Place) → p ≢ q → at f p x q ≡ f q
unfolding at
at_other f p q x h = ground (arith, ==_iff p q)

-- From any state without a lock in which two processes are at the start of their attempts, the calls of
-- `acquireLifetimeLock` can be ordered so that both become owners: one reads the file of the other
-- between its creation and the write of the pid.
pub two_owners :
    (alive : ℕ → Bool) (w : World) (p q : ℕ)
    → p ≢ q
    → w.lock ≡ none
    → w.place p ≡ trying
    → w.place q ≡ trying
    → (u : World) × Reach alive w u × (u.place p ≡ owner) × (u.place q ≡ owner)
unfolding reads_dead write_pid
two_owners alive w p q diff free hp hq =
    let made : Lock = record { creator = p; is_written = false } in
    let made' : Lock = record { creator = q; is_written = false } in
    let p₁ = at w.place p opened in
    let p₂ = at p₁ q judged in
    let p₃ = at p₂ q trying in
    let p₄ = at p₃ q opened in
    let p₅ = at p₄ p owner in
    let p₆ = at p₅ q owner in
    let back : q ≢ p = λ e. diff (sym e) in
    let w₁ : World = record { place = p₁; lock = some made } in
    let w₂ : World = record { place = p₂; lock = some made } in
    let w₃ : World = record { place = p₃; lock = none } in
    let w₄ : World = record { place = p₄; lock = some made' } in
    let w₅ : World = record { place = p₅; lock = write_pid p (some made') } in
    let w₆ : World = record { place = p₆; lock = write_pid q (write_pid p (some made')) } in
    let s₁ : Step alive w w₁ = create w p hp free in
    let s₂ : Step alive w₁ w₂ = judge w₁ q made (at_other w.place p q opened diff ∙ hq) refl refl in
    let s₃ : Step alive w₂ w₃ = discard w₂ q (at_self p₁ q judged) in
    let s₄ : Step alive w₃ w₄ = create w₃ q (at_self p₂ q trying) refl in
    let s₅ : Step alive w₄ w₅ = write w₄ p (
      at_other p₃ q p opened back
      ∙ at_other p₂ q p trying back
      ∙ at_other p₁ q p judged back
      ∙ at_self w.place p opened) in
    let s₆ : Step alive w₅ w₆ = write w₅ q (at_other p₄ p q owner diff ∙ at_self p₃ q opened) in
    (
      w₆,
      next (next (next (next (next (next here s₁) s₂) s₃) s₄) s₅) s₆,
      at_other p₅ q p owner back ∙ at_self p₄ p owner,
      at_self p₅ q owner,
    )
