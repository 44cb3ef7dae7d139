-- ===== src/Resource/Housekeeping/Drain.antt =====
-- internal/core/core.go, ReleaseOwned: what is left when a daemon has stopped.
use game_forge.Prelude.{
  Bool, true, not, ◌&&◌, String, ◌==ₛ◌, eq_iff, eq_refl, List, [], ◌∷◌, Option, none, some, ◌≡◌,
  ◌↔◌, inl, inr, refl, sym, ◌∙◌, ap, subst, arith, In, Bool-cases, ok,
}
use game_forge.Resource.{Resource, Files, Host, records, list}
use game_forge.Resource.Files.{IsDirectory, keep, keep_cong, All_of_In, any_by_iff, In-records}
use game_forge.Resource.Housekeeping.{
  is_active, Pass, release_one, release_idle, release_all, started, release_owned,
}
use game_forge.Resource.Housekeeping.Passes.{takes, takes_name, release_idle_files}

-- With no run in flight the loop of `tick` passes nothing over.
release_all_idle :
    (h : Host) (rs : List Resource) (p : Pass) → release_all h rs p ≡ release_idle h [] rs p
unfolding release_all release_idle is_active
release_all_idle h [] p = refl
release_all_idle h (r ∷ rs) p = release_all_idle h rs (release_one h r p)

-- What a drain leaves: a file that is no record, and a record that cannot be taken.
unfoldable pub stays : Host → String × Option Resource → Bool
stays h (n, none) = true
stays h (n, some r) = not (takes h r)

listed :
    (h : Host) (fs : Files)
    → h.lists ≡ true
    → release_owned h fs ≡ ok (release_all h (h.arrange (records fs)) (started fs))
unfolding release_owned list
listed h fs l = rw (l) refl

module _ (h : Host) (fs : Files)
    (arranged : (r : Resource) (rs : List Resource) → In r (h.arrange rs) ↔ In r rs)
    (dir : IsDirectory fs) where
  drained_record :
      (n : String)
      → takes_name h [] (h.arrange (records fs)) n ≡ true
      → (r : Resource) × In (n, some r) fs × (takes h r ≡ true)
  unfolding takes_name is_active
  drained_record n t =
      let (r, i, e) = (any_by_iff _ (h.arrange (records fs))).0 t in
      let (m, k) = (In-records r fs).0 ((arranged r (records fs)).0 i) in
      let same : n ≡ m = (eq_iff n r.id).0 (ground arith) ∙ dir.named m r k in
      (r, subst (λ l. In (l, some r) fs) (sym same) k, ground arith)

  record_drained :
      (n : String) (r : Resource)
      → In (n, some r) fs
      → takes h r ≡ true
      → takes_name h [] (h.arrange (records fs)) n ≡ true
  unfolding takes_name is_active
  record_drained n r i s = (any_by_iff _ (h.arrange (records fs))).1 (
    r,
    (arranged r (records fs)).1 ((In-records r fs).1 (n, i)),
    subst (λ l. (takes h r && (n ==ₛ l)) ≡ true) (sym (dir.named n r i))
        (ground (arith, eq_refl n)),
  )

  stays_file :
      (f : String × Option Resource)
      → In f fs
      → not (takes_name h [] (h.arrange (records fs)) f.0) ≡ stays h f
  unfolding stays
  stays_file (n, none) i = elim (Bool-cases (takes_name h [] (h.arrange (records fs)) n)) [
    | inl t ↦ let (r, j, e) = drained_record n t in ground (arith, dir.one n none (some r) i j)
    | inr t ↦ rw (t) refl
  ]
  stays_file (n, some r) i = elim (Bool-cases (takes_name h [] (h.arrange (records fs)) n)) [
    | inl t ↦
        let (s, j, e) = drained_record n t in
        let q : s ≡ r = ground (arith, dir.one n (some s) (some r) j i) in
        rw (t, subst (λ x. takes h x ≡ true) q e) refl
    | inr t ↦ elim (Bool-cases (takes h r)) [
      | inr e ↦ rw (t, e) refl
      | inl e ↦ ground (arith, record_drained n r i e)
    ]
  ]

  -- When no two files have the same name, each is called after its record, and the directory can be
  -- listed, ReleaseOwned succeeds and removes exactly the records that it could reclaim and unlink,
  -- whatever their lease and their run. Sorting keeps the elements of a list.
  pub release_owned_files :
      h.lists ≡ true → (p : Pass) × (release_owned h fs ≡ ok p) × (p.files ≡ keep (stays h) fs)
  unfolding started
  release_owned_files l = (
    release_idle h [] (h.arrange (records fs)) (started fs),
    listed h fs l ∙ ap ok (release_all_idle h (h.arrange (records fs)) (started fs)),
    release_idle_files h [] (h.arrange (records fs)) (started fs)
        ∙ keep_cong _ _ fs (All_of_In _ fs stays_file),
  )
