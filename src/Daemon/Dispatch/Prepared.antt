-- ===== src/Daemon/Dispatch/Prepared.antt =====
-- internal/daemon/server.go, prepare: what it has checked and selected when it succeeds.
use game_forge.Prelude.{
  true, false, none, some, ◌≡◌, ◌↔◌, ◌⊎◌, refl, sym, ◌∙◌, subst, ap, is_empty, [], Option-cases,
  Result-cases, Bool-cases, inl, inr, arith, ok, ok_injective,
}
use game_forge.Project.Manifest.{FilePath}
use game_forge.Project.Registry.{resolve}
use game_forge.Op.{Request, Operation, lookup_op, validate_args}
use game_forge.Daemon.Dispatch.{Server, prepare, select_project, checked_args}

module _ {V : Type 0} where
  -- The request runs where it says, or in the checkout that its project resolves to.
  unfoldable pub IsSelected : Server V → Request V → Request V → Type 0
  IsSelected s req out =
      ((is_empty req.project ≡ true) × (out ≡ req))
      ⊎ ((is_empty req.project ≡ false)
          × (req.cwd ≡ none)
          × (s.proj_err ≡ none)
          × ((root : FilePath) × (resolve s.machine req.project s.projects ≡ ok root)
              × (out ≡ record req { cwd = some root; project = [] })))

  unfoldable pub IsPrepared : Server V → Request V → Operation V × Request V → Type 0
  IsPrepared s req p =
      (lookup_op s.reg req.op ≡ some p.0)
      × IsSelected s req p.1
      × (validate_args p.0 p.1.args ≡ none)

  select_project-IsSelected :
      (s : Server V) (req out : Request V) → select_project s req ≡ ok out → IsSelected s req out
  unfolding select_project IsSelected
  select_project-IsSelected s req out h = elim (Bool-cases (is_empty req.project)) [
    | inl e ↦ inl (e, sym (ok_injective (rw (e, select_project) at h)))
    | inr e ↦ elim (Option-cases req.cwd) [
      | inr (d, c) ↦ ground (arith, rw (e, c, select_project) at h)
      | inl c ↦ elim (Option-cases s.proj_err) [
        | inr (x, q) ↦ ground (arith, rw (e, c, q, select_project) at h)
        | inl q ↦ elim (Result-cases (resolve s.machine req.project s.projects)) [
          | inl (x, t) ↦ ground (arith, rw (e, c, q, t, select_project) at h)
          | inr (root, t) ↦
              inr (e, c, q, (root, t, sym (ok_injective (rw (e, c, q, t, select_project) at h))))
        ]
      ]
    ]
  ]

  select_project_of :
      (s : Server V) (req out : Request V) → IsSelected s req out → select_project s req ≡ ok out
  unfolding select_project IsSelected
  select_project_of s req out (inl (e, o)) = rw (e, o, select_project) refl
  select_project_of s req out (inr (e, c, q, (root, t, o))) =
      rw (e, c, q, t, o, select_project) refl

  checked_args_iff :
      (o : Operation V) (req : Request V) (p : Operation V × Request V)
      → (checked_args o req ≡ ok p) ↔ ((p ≡ (o, req)) × (validate_args p.0 p.1.args ≡ none))
  unfolding checked_args
  checked_args_iff o req p = (
    λ h. elim (Option-cases (validate_args o req.args)) [
      | inr (x, v) ↦ ground (arith, rw (v, checked_args) at h)
      | inl v ↦
          let e = sym (ok_injective (rw (v, checked_args) at h)) in
          (e, subst (λ (q : Operation V × Request V). validate_args q.0 q.1.args ≡ none) (sym e) v)
    ],
    λ (e, v).
        let w = subst (λ (q : Operation V × Request V). validate_args q.0 q.1.args ≡ none) e v in
        rw (w, e, checked_args) refl,
  )

  -- `prepare` succeeds with an operation and a request exactly when the operation has the requested name,
  -- the arguments satisfy its input schema, and the request is the one that came, if it names no
  -- project, or else names no directory, and the machine's registry is readable and resolves the
  -- project to the directory that the request has now.
  pub prepare_iff :
      (s : Server V) (req : Request V) (p : Operation V × Request V)
      → (prepare s req ≡ ok p) ↔ IsPrepared s req p
  unfolding prepare IsPrepared
  prepare_iff s req (o, out) = (
    λ h. elim (Option-cases (lookup_op s.reg req.op)) [
      | inl e ↦ ground (arith, rw (e, prepare) at h)
      | inr (o', e) ↦ elim (Result-cases (select_project s req)) [
        | inl (x, t) ↦ ground (arith, rw (e, t, prepare) at h)
        | inr (out', t) ↦
            let (q, v) = (checked_args_iff o' out' (o, out)).0 (rw (e, t, prepare) at h) in
            (
              e ∙ ap (λ (x : Operation V × Request V). some x.0) (sym q),
              select_project-IsSelected s req out
                  (t ∙ ap (λ (x : Operation V × Request V). ok x.1) (sym q)),
              v,
            )
      ]
    ],
    λ (e, t, v).
        rw (e, select_project_of s req out t, prepare)
          ((checked_args_iff o out (o, out)).1 (refl, v)),
  )
