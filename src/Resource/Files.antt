-- ===== src/Resource/Files.antt =====
-- The files of the resource directory: which records they hold, and which of them a test keeps.
use game_forge.Prelude.{
  Bool, true, false, not, ◌&&◌, String, ◌==ₛ◌, List, [], ◌∷◌, Option, none, some, ◌≡◌, ◌↔◌, inl,
  inr, subst, refl, sym, ap, arith, if◌then◌else◌, any_by, All, In, Bool-cases, ℕ,
}
use game_forge.Resource.{Resource, Files, records, drop_file, filter_expired, expired}

-- A file is called after the record in it, and no two files have the same name.
pub record IsDirectory (fs : Files) : Type 0 where
  pub one : (n : String) (c d : Option Resource) → In (n, c) fs → In (n, d) fs → c ≡ d
  pub named : (n : String) (r : Resource) → In (n, some r) fs → r.id ≡ n

pub keep : (String × Option Resource → Bool) → Files → Files
keep p [] = []
keep p (f ∷ fs) = if p f then f ∷ keep p fs else keep p fs

pub keep-keep :
    (p q : String × Option Resource → Bool) (fs : Files)
    → keep p (keep q fs) ≡ keep (λ f. q f && p f) fs
unfolding keep
keep-keep p q [] = refl
keep-keep p q (f ∷ fs) = ground (arith, keep-keep p q fs)

pub keep-true : (fs : Files) → keep (λ f. true) fs ≡ fs
unfolding keep
keep-true [] = refl
keep-true (f ∷ fs) = ap (λ t. f ∷ t) (keep-true fs)

pub keep_cong :
    (p q : String × Option Resource → Bool) (fs : Files)
    → All (λ f. p f ≡ q f) fs
    → keep p fs ≡ keep q fs
unfolding keep
keep_cong p q [] h = refl
keep_cong p q (f ∷ fs) (e, h) = ground (arith, e, keep_cong p q fs h)

pub drop_file-keep : (n : String) (fs : Files) → drop_file n fs ≡ keep (λ f. not (f.0 ==ₛ n)) fs
unfolding keep drop_file
drop_file-keep n [] = refl
drop_file-keep n ((m, c) ∷ fs) = ground (arith, drop_file-keep n fs)

-- What holds of every member holds of all.
pub All_of_In : {A : Type 0} (P : A → Type 0) (xs : List A) → ((a : A) → In a xs → P a) → All P xs
All_of_In P [] h = tt
All_of_In P (x ∷ xs) h = (h x (inl refl), All_of_In P xs (λ a i. h a (inr i)))

pub any_by_iff :
    {A : Type 0} (p : A → Bool) (xs : List A)
    → (any_by p xs ≡ true) ↔ ((a : A) × In a xs × (p a ≡ true))
any_by_iff p [] = (λ h. ground arith, λ (a, i, e). ground arith)
any_by_iff p (x ∷ xs) = (
  λ h. elim (Bool-cases (p x)) [
    | inl e ↦ (x, inl refl, e)
    | inr e ↦ let (a, i, q) = (any_by_iff p xs).0 (ground arith) in (a, inr i, q)
  ],
  λ (a, i, q). elim i [
    | inl e ↦ ground (arith, subst (λ y. p y ≡ true) (sym e) q)
    | inr j ↦ ground (arith, (any_by_iff p xs).1 (a, j, q))
  ],
)

pub In-records :
    (r : Resource) (fs : Files) → In r (records fs) ↔ ((n : String) × In (n, some r) fs)
unfolding records
In-records r [] = (λ i. elim i [ ], λ (n, i). i)
In-records r ((m, none) ∷ fs) = (
  λ i. let (n, j) = (In-records r fs).0 i in (n, inr j),
  λ (n, i). elim i [ inl e ↦ ground arith | inr j ↦ (In-records r fs).1 (n, j) ],
)
In-records r ((m, some s) ∷ fs) = (
  λ i. elim i [
    | inl e ↦ (m, inl (ap (λ x. (m, some x)) e))
    | inr j ↦ let (n, k) = (In-records r fs).0 j in (n, inr k)
  ],
  λ (n, i). elim i [ inl e ↦ inl (cc) | inr j ↦ inr ((In-records r fs).1 (n, j)) ],
)

pub In-filter_expired :
    (now : ℕ) (r : Resource) (rs : List Resource)
    → In r (filter_expired now rs) ↔ (In r rs × (expired now r ≡ true))
unfolding filter_expired
In-filter_expired now r [] = (λ i. elim i [ ], λ (i, e). i)
In-filter_expired now r (s ∷ rs) = elim (Bool-cases (expired now s)) [
  | inl e ↦ rw (e) (
    λ i. elim i [
      | inl q ↦ (inl q, subst (λ x. expired now x ≡ true) q e)
      | inr j ↦ let (k, t) = (In-filter_expired now r rs).0 j in (inr k, t)
    ],
    λ (i, t). elim i [ inl q ↦ inl q | inr j ↦ inr ((In-filter_expired now r rs).1 (j, t)) ],
  )
  | inr e ↦ rw (e) (
    λ i. let (k, t) = (In-filter_expired now r rs).0 i in (inr k, t),
    λ (i, t). elim i [
      | inl q ↦ ground (arith, subst (λ x. expired now x ≡ false) q e)
      | inr j ↦ (In-filter_expired now r rs).1 (j, t)
    ],
  )
]
