-- ===== src/Resource/Housekeeping/Passes.antt =====
-- internal/core/core.go, tick and ReleaseOwned: which files a pass removes, and to what it does something.
use game_forge.Prelude.{
  Bool, true, false, not, ◌&&◌, ◌||◌, String, ◌==ₛ◌, eq_iff, eq_refl, List, [], ◌∷◌, Option, none,
  some, ◌≡◌, ◌↔◌, inl, inr, refl, sym, ◌∙◌, ap, subst, arith, if◌then◌else◌, any_by, In, Bool-cases,
  ℕ, ok,
}
use game_forge.Resource.{
  Resource, Files, Host, records, expired, expired_resources, filter_expired, list, remove,
  drop_file,
}
use game_forge.Resource.Files.{
  IsDirectory, keep, keep-keep, keep-true, keep_cong, drop_file-keep, All_of_In, any_by_iff,
  In-records, In-filter_expired,
}
use game_forge.Resource.Housekeeping.{
  Runs, is_active, Pass, reclaim_resource, release_one, release_idle, started, tick,
}

-- Whether a record is reclaimed and its file can be unlinked.
unfoldable pub takes : Host → Resource → Bool
takes h r = (reclaim_resource h r).1 && h.removes r.id

-- Whether one of the records that are not in flight is taken, and bears the name.
unfoldable pub takes_name : Host → Runs → List Resource → String → Bool
takes_name h runs rs n =
    any_by (λ r. (not (is_active runs r.run_id) && takes h r) && (n ==ₛ r.id)) rs

release_one_files :
    (h : Host) (r : Resource) (p : Pass)
    → (release_one h r p).files ≡ (if takes h r then drop_file r.id p.files else p.files)
unfolding release_one takes remove
release_one_files h r p = ground arith

step_files :
    (h : Host) (runs : Runs) (r : Resource) (p : Pass)
    → (if is_active runs r.run_id then p else release_one h r p).files
      ≡ (if not (is_active runs r.run_id) && takes h r then drop_file r.id p.files else p.files)
step_files h runs r p = elim (Bool-cases (is_active runs r.run_id)) [
  | inl e ↦ rw (e) refl
  | inr e ↦ rw (e) (release_one_files h r p)
]

drop_if :
    (b : Bool) (n : String) (fs : Files)
    → (if b then drop_file n fs else fs) ≡ keep (λ f. not (b && (f.0 ==ₛ n))) fs
drop_if true n fs = drop_file-keep n fs
drop_if false n fs = sym (keep-true fs)

not_or : (a b : Bool) → (not a && not b) ≡ not (a || b)
not_or true b = refl
not_or false b = refl

pub release_idle_files :
    (h : Host) (runs : Runs) (rs : List Resource) (p : Pass)
    → (release_idle h runs rs p).files ≡ keep (λ f. not (takes_name h runs rs f.0)) p.files
unfolding release_idle takes_name
release_idle_files h runs [] p = sym (keep-true p.files)
release_idle_files h runs (r ∷ rs) p =
    let b = not (is_active runs r.run_id) && takes h r in
    release_idle_files h runs rs (if is_active runs r.run_id then p else release_one h r p)
    ∙ ap (keep (λ f. not (takes_name h runs rs f.0)))
        (step_files h runs r p ∙ drop_if b r.id p.files)
    ∙ keep-keep (λ f. not (takes_name h runs rs f.0)) (λ f. not (b && (f.0 ==ₛ r.id))) p.files
    ∙ keep_cong _ _ p.files
        (All_of_In _ p.files (λ f i. not_or (b && (f.0 ==ₛ r.id)) (takes_name h runs rs f.0)))

-- What a pass leaves: a file that is no record, and a record that has not expired, is of a run in flight, or
-- cannot be taken.
pub spared : Host → ℕ → Runs → String × Option Resource → Bool
spared h now runs (n, none) = true
spared h now runs (n, some r) = not (expired now r && (not (is_active runs r.run_id) && takes h r))

bool_ext : (a b : Bool) → (a ≡ true → b ≡ true) → (b ≡ true → a ≡ true) → a ≡ b
bool_ext a b f g = ground arith

module _ (h : Host) (now : ℕ) (runs : Runs) (fs : Files)
    (arranged : (r : Resource) (rs : List Resource) → In r (h.arrange rs) ↔ In r rs)
    (dir : IsDirectory fs) where
  -- The record that takes a name away stands in the file of that name.
  taken_record :
      (n : String)
      → takes_name h runs (filter_expired now (h.arrange (records fs))) n ≡ true
      → (r : Resource) × In (n, some r) fs × (spared h now runs (n, some r) ≡ false)
  unfolding takes_name spared
  taken_record n t =
      let (r, i, e) = (any_by_iff _ (filter_expired now (h.arrange (records fs)))).0 t in
      let (j, x) = (In-filter_expired now r (h.arrange (records fs))).0 i in
      let (m, k) = (In-records r fs).0 ((arranged r (records fs)).0 j) in
      let same : n ≡ m = (eq_iff n r.id).0 (ground arith) ∙ dir.named m r k in
      (r, subst (λ l. In (l, some r) fs) (sym same) k, ground arith)

  record_taken :
      (n : String) (r : Resource)
      → In (n, some r) fs
      → spared h now runs (n, some r) ≡ false
      → takes_name h runs (filter_expired now (h.arrange (records fs))) n ≡ true
  unfolding takes_name spared
  record_taken n r i s = (any_by_iff _ (filter_expired now (h.arrange (records fs)))).1 (
    r,
    (In-filter_expired now r (h.arrange (records fs))).1
        ((arranged r (records fs)).1 ((In-records r fs).1 (n, i)), ground arith),
    subst (λ l. ((not (is_active runs r.run_id) && takes h r) && (n ==ₛ l)) ≡ true)
        (sym (dir.named n r i)) (ground (arith, eq_refl n)),
  )

  spared_file :
      (f : String × Option Resource)
      → In f fs
      → not (takes_name h runs (filter_expired now (h.arrange (records fs))) f.0)
        ≡ spared h now runs f
  unfolding spared
  spared_file (n, none) i =
      elim (Bool-cases (takes_name h runs (filter_expired now (h.arrange (records fs))) n)) [
        | inl t ↦ let (r, j, e) = taken_record n t in ground (arith, dir.one n none (some r) i j)
        | inr t ↦ rw (t) refl
      ]
  spared_file (n, some r) i =
      elim (Bool-cases (takes_name h runs (filter_expired now (h.arrange (records fs))) n)) [
        | inl t ↦
            let (s, j, e) = taken_record n t in
            let q : s ≡ r = ground (arith, dir.one n (some s) (some r) j i) in
            rw (t) (sym (subst (λ x. spared h now runs (n, some x) ≡ false) q e))
        | inr t ↦ elim (Bool-cases (spared h now runs (n, some r))) [
          | inl e ↦ rw (t) (sym e)
          | inr e ↦ ground (arith, record_taken n r i e)
        ]
      ]

  -- When no two files have the same name, each is called after its record, and the directory can be listed,
  -- a housekeeping pass succeeds. It removes exactly the files of records that have expired, belong to no
  -- run in flight, were reclaimed, and could be unlinked. Sorting keeps the elements of a list.
  pub tick_files :
      h.lists ≡ true
      → (p : Pass) × (tick h now runs fs ≡ ok p) × (p.files ≡ keep (spared h now runs) fs)
  unfolding tick expired_resources list started
  tick_files l = (
    release_idle h runs (filter_expired now (h.arrange (records fs))) (started fs),
    rw (l) refl,
    release_idle_files h runs (filter_expired now (h.arrange (records fs))) (started fs)
        ∙ keep_cong _ _ fs (All_of_In _ fs spared_file),
  )
