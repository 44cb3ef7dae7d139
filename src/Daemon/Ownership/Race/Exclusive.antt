-- ===== src/Daemon/Ownership/Race/Exclusive.antt =====
-- internal/daemon/server.go, acquireLifetimeLock: one owner at a time, while no file is taken for stale.
use game_forge.Prelude.{
  ℕ, Bool, true, false, Option, none, some, ◌≡◌, inl, inr, refl, sym, ap, ◌∙◌, arith, subst,
  Bool-cases, ==_iff, ◌==◌ as ◌==ₙ◌,
}
use game_forge.Daemon.Ownership.Race.{
  Place, outside, trying, opened, judged, owner, Lock, World, at, write_pid, Step, begin, create,
  write, judge, discard, release,
}

-- A process has the file open or owns it.
abbrev Holds : Place → Type 0
Holds opened = Unit
Holds owner = Unit
Holds _ = ⊥

-- Whoever holds has created the file that is there.
abbrev IsExclusive : World → Type 0
IsExclusive w = (p : ℕ) → Holds (w.place p) → (l : Lock) × (w.lock ≡ some l) × (l.creator ≡ p)

-- A call other than the removal of a file that was judged stale.
abbrev KeepsFile : {alive : ℕ → Bool} {u v : World} → Step alive u v → Type 0
KeepsFile (discard w p h) = ⊥
KeepsFile (begin w p h) = Unit
KeepsFile (create w p h n) = Unit
KeepsFile (write w p h) = Unit
KeepsFile (judge w p l h e d) = Unit
KeepsFile (release w p h) = Unit

pub data Quiet (alive : ℕ → Bool) (w : World) : World → Type 0 where
  still : Quiet alive w w
  more : {u v : World} → Quiet alive w u → (s : Step alive u v) → KeepsFile s → Quiet alive w v

at_same : (f : ℕ → Place) (p q : ℕ) (x : Place) → (p ==ₙ q) ≡ true → at f p x q ≡ x
unfolding at
at_same f p q x e = rw e refl

at_else : (f : ℕ → Place) (p q : ℕ) (x : Place) → (p ==ₙ q) ≡ false → at f p x q ≡ f q
unfolding at
at_else f p q x e = rw e refl

none_ne_some : {l : Lock} → ◌≡◌ {A = Option Lock} none (some l) → ⊥
none_ne_some h = cc

write_keeps :
    (lock : Option Lock) (p q : ℕ) (l : Lock)
    → lock ≡ some l
    → l.creator ≡ q
    → (l' : Lock) × (write_pid p lock ≡ some l') × (l'.creator ≡ q)
unfolding write_pid
write_keeps none p q l e c = absurd (none_ne_some e)
write_keeps (some m) p q l e c = elim (Bool-cases (m.creator ==ₙ p)) [
  | inl s ↦ (record m { is_written = true }, rw s refl, ground arith)
  | inr s ↦ (m, rw s refl, ground arith)
]

one_creator : (w : World) (p q : ℕ) → IsExclusive w → Holds (w.place p) → Holds (w.place q) → p ≡ q
one_creator w p q inv hp hq =
    let (l, e, c) = inv p hp in
    let (l', e', c') = inv q hq in ground (arith, ap (λ (o : Option Lock). o) (sym e ∙ e'))

judged_keeps :
    (w : World) (p : ℕ) (x : Place)
    → IsExclusive w
    → (Holds x → ⊥)
    → IsExclusive (record w { place = at w.place p x })
judged_keeps w p x inv empty q h = elim (Bool-cases (p ==ₙ q)) [
  | inl e ↦ absurd (empty (subst Holds (at_same w.place p q x e) h))
  | inr e ↦ inv q (subst Holds (at_else w.place p q x e) h)
]

Step-IsExclusive :
    {alive : ℕ → Bool} {u v : World} (s : Step alive u v)
    → KeepsFile s
    → IsExclusive u
    → IsExclusive v
Step-IsExclusive (begin w p h) k inv = judged_keeps w p trying inv (λ n. n)
Step-IsExclusive (judge w p l h e d) k inv = judged_keeps w p judged inv (λ n. n)
Step-IsExclusive (discard w p h) k inv = absurd k
Step-IsExclusive (create w p h n) k inv = λ q held. elim (Bool-cases (p ==ₙ q)) [
  | inl e ↦ (record { creator = p; is_written = false }, refl, (==_iff p q).0 e)
  | inr e ↦
      let (l, has_lock, c) = inv q (subst Holds (at_else w.place p q opened e) held) in
      absurd (none_ne_some (sym n ∙ has_lock))
]
Step-IsExclusive (write w p h) k inv = λ q held. elim (Bool-cases (p ==ₙ q)) [
  | inl e ↦
      let (l, has_lock, c) = inv p (subst Holds (sym h) tt) in
      write_keeps w.lock p q l has_lock (c ∙ (==_iff p q).0 e)
  | inr e ↦
      let (l, has_lock, c) = inv q (subst Holds (at_else w.place p q owner e) held) in
      write_keeps w.lock p q l has_lock c
]
Step-IsExclusive (release w p h) k inv = λ q held. elim (Bool-cases (p ==ₙ q)) [
  | inl e ↦ absurd (subst Holds (at_same w.place p q outside e) held)
  | inr e ↦
      let same =
        one_creator w p q inv (subst Holds (sym h) tt)
          (subst Holds (at_else w.place p q outside e) held) in
      ground (arith, e, (==_iff p q).1 same)
]

Quiet-IsExclusive :
    {alive : ℕ → Bool} {w u : World} → Quiet alive w u → IsExclusive w → IsExclusive u
Quiet-IsExclusive still inv = inv
Quiet-IsExclusive (more r s k) inv = Step-IsExclusive s k (Quiet-IsExclusive r inv)

-- From a state in which no process holds the lock, as long as no file is removed as stale, two processes
-- are never owners at once, and the file of the owner is at the path.
pub Quiet-owner :
    {alive : ℕ → Bool} {w u : World} (p q : ℕ)
    → ((r : ℕ) → w.place r ≡ outside)
    → Quiet alive w u
    → u.place p ≡ owner
    → u.place q ≡ owner
    → (p ≡ q) × ((l : Lock) × (u.lock ≡ some l) × (l.creator ≡ p))
Quiet-owner {w} {u} p q start r hp hq =
    let inv = Quiet-IsExclusive r (λ x held. absurd (subst Holds (start x) held)) in
    (
      one_creator u p q inv (subst Holds (sym hp) tt) (subst Holds (sym hq) tt),
      inv p (subst Holds (sym hp) tt),
    )
