-- ===== src/Resource/Housekeeping/Acts.antt =====
-- internal/core/core.go, tick: to which resources a pass does something.
use game_forge.Prelude.{
  true, false, String, List, [], ◌∷◌, ◌++◌, some, ◌≡◌, ◌⊎◌, inl, inr, sym, subst, arith, All,
  All-append, In, Bool-cases, ℕ, ok, ok_injective,
}
use game_forge.Resource.{
  Resource, Files, Host, records, expired, filter_expired, expired_resources, list,
}
use game_forge.Resource.Files.{All_of_In, In-records, In-filter_expired}
use game_forge.Resource.Housekeeping.{
  Runs, is_active, Act, Pass, reclaim_resource, release_one, release_idle, started, tick,
}

-- An act on the resource of a record that has expired and belongs to no run in flight.
pub record IsDueAct (h : Host) (now : ℕ) (runs : Runs) (fs : Files) (a : Act) : Type 0 where
  pub name : String
  pub resource : Resource
  pub registered : In (name, some resource) fs
  pub lapsed : expired now resource ≡ true
  pub idle : is_active runs resource.run_id ≡ false
  pub done : In a (reclaim_resource h resource).0

release_one_acts :
    (h : Host) (r : Resource) (p : Pass)
    → (release_one h r p).acts ≡ p.acts ++ (reclaim_resource h r).0
unfolding release_one
release_one_acts h r p = ground arith

release_idle_acts :
    (P : Act → Type 0) (h : Host) (runs : Runs) (rs : List Resource) (p : Pass)
    → All (λ r. (is_active runs r.run_id ≡ true) ⊎ All P (reclaim_resource h r).0) rs
    → All P p.acts
    → All P (release_idle h runs rs p).acts
unfolding release_idle
release_idle_acts P h runs [] p all hp = hp
release_idle_acts P h runs (r ∷ rs) p (inl e, all) hp =
    release_idle_acts P h runs rs _ all (rw (e) hp)
release_idle_acts P h runs (r ∷ rs) p (inr a, all) hp =
    release_idle_acts P h runs rs _ all (elim (Bool-cases (is_active runs r.run_id)) [
      | inl e ↦ rw (e) hp
      | inr e ↦ rw (e) (subst (All P) (sym (release_one_acts h r p)) (All-append P p.acts _ hp a))
    ])

-- A housekeeping pass closes browsers and terminates processes only of records of the directory that have
-- expired and belong to no run in flight. Sorting adds no element to a list.
pub tick_acts :
    (h : Host) (now : ℕ) (runs : Runs) (fs : Files) (p : Pass)
    → ((r : Resource) (rs : List Resource) → In r (h.arrange rs) → In r rs)
    → tick h now runs fs ≡ ok p
    → All (IsDueAct h now runs fs) p.acts
unfolding tick expired_resources list started
tick_acts h now runs fs p arranged t = elim (Bool-cases h.lists) [
  | inr e ↦ ground (arith, rw (e) at t)
  | inl e ↦
      let q = ok_injective (rw (e) at t) in
      subst (λ (x : Pass). All (IsDueAct h now runs fs) x.acts) q
        (release_idle_acts (IsDueAct h now runs fs) h runs
          (filter_expired now (h.arrange (records fs))) (started fs)
          (All_of_In _ (filter_expired now (h.arrange (records fs))) due_acts) tt)
]
  where
    due_acts :
        (r : Resource)
        → In r (filter_expired now (h.arrange (records fs)))
        → (is_active runs r.run_id ≡ true) ⊎ All (IsDueAct h now runs fs) (reclaim_resource h r).0
    due_acts r i = elim (Bool-cases (is_active runs r.run_id)) [
      | inl e ↦ inl e
      | inr e ↦
          let (j, x) = (In-filter_expired now r (h.arrange (records fs))).0 i in
          let (n, k) = (In-records r fs).0 (arranged r (records fs) j) in
          inr (
            All_of_In _ (reclaim_resource h r).0 (λ a d. record {
              name = n;
              resource = r;
              registered = k;
              lapsed = x;
              idle = e;
              done = d;
            }))
    ]
