-- ===== src/Op/Catalog.antt =====
-- The operation registry: its list and its map hold the same operations, under distinct names.

use game_forge.Prelude.{
  ◌⊎◌, lookup, has, eq_iff, All-append, ◌≡◌, refl, ◌∙◌, ap, sym, subst, false, String, ◌==ₛ◌, List,
  [], ◌∷◌, ◌++◌, Option, none, some, arith, All, Option-cases, inl, inr, if◌then◌else◌,
}
use game_forge.Op.{
  Registry, Operation, Candidate, Schema, Handler, AddError, new_registry, add_raw, compiled, enter,
  operation_of, lookup_op,
}

module _ {V : Type 0} where
  -- The first operation of the list with the name.
  abbrev pub find_op : String → List (Operation V) → Option (Operation V)
  find_op n [] = none
  find_op n (o ∷ ops) = if o.name ==ₛ n then some o else find_op n ops

  abbrev DistinctNames : List (Operation V) → Type 0
  DistinctNames [] = Unit
  DistinctNames (o ∷ ops) = (find_op o.name ops ≡ none) × DistinctNames ops

  -- The two views of the registry agree, and each name is nonempty and stands once.
  pub record IsCatalog (r : Registry V) : Type 0 where
    pub agree : (n : String) → lookup_op r n ≡ find_op n r.order
    pub distinct : DistinctNames r.order
    pub named : All (λ (o : Operation V). (o.name ==ₛ "") ≡ false) r.order

  find_op-append :
      (n : String) (ops : List (Operation V)) (o : Operation V)
      → find_op n (ops ++ o ∷ [])
        ≡ (if has (find_op n ops) then find_op n ops else if o.name ==ₛ n then some o else none)
  find_op-append n [] o = refl
  find_op-append n (p ∷ ops) o = ground (arith, find_op-append n ops o)

  DistinctNames-append :
      (ops : List (Operation V)) (o : Operation V)
      → DistinctNames ops
      → find_op o.name ops ≡ none
      → DistinctNames (ops ++ o ∷ [])
  DistinctNames-append [] o h fresh = (refl, tt)
  DistinctNames-append (p ∷ ops) o h fresh = (
    find_op-append p.name ops o ∙ ground (arith, h.0, eq_iff p.name o.name, eq_iff o.name p.name),
    DistinctNames-append ops o h.1 (ground arith),
  )

  enter-IsCatalog :
      (r : Registry V) (o : Operation V)
      → IsCatalog r
      → (o.name ==ₛ "") ≡ false
      → lookup_op r o.name ≡ none
      → IsCatalog (enter r o)
  unfolding enter lookup_op lookup
  enter-IsCatalog r o h name fresh = record {
    agree = λ n. sym (
        find_op-append n r.order o
        ∙ ground (arith, h.agree n, fresh, eq_iff o.name n, h.agree o.name));
    distinct = DistinctNames-append r.order o h.distinct (sym (h.agree o.name) ∙ fresh);
    named = All-append _ r.order (o ∷ []) h.named (name, tt);
  }

  add_raw_error :
      (compile : V → Option (Schema V)) (r : Registry V) (c : Candidate V) (input output : V)
      {e : AddError}
      → (add_raw compile r c input output).1 ≡ some e
      → (add_raw compile r c input output).0 ≡ r
  unfolding add_raw compiled
  add_raw_error compile r c input output h = ground arith

  -- What an `AddRaw` without an error has checked and entered.
  pub record IsEntered (compile : V → Option (Schema V)) (r : Registry V) (c : Candidate V)
      (input output : V) (o : Operation V) : Type 0 where
    pub named : (c.name ==ₛ "") ≡ false
    pub handler : c.handler ≡ some o.handler
    pub fresh : lookup_op r c.name ≡ none
    pub in_schema : compile input ≡ some o.in_schema
    pub out_schema : compile output ≡ some o.out_schema
    pub shape : o ≡ operation_of c o.handler input output o.in_schema o.out_schema
    pub entered : (add_raw compile r c input output).0 ≡ enter r o

  add_raw_ok :
      (compile : V → Option (Schema V)) (r : Registry V) (c : Candidate V) (input output : V)
      → (add_raw compile r c input output).1 ≡ none
      → (o : Operation V) × IsEntered compile r c input output o
  unfolding add_raw compiled lookup_op operation_of
  add_raw_ok compile r c input output h = elim (Option-cases c.handler) [
    | inl e ↦ ground arith
    | inr (f, ef) ↦ elim (Option-cases (compile input)) [
      | inl e ↦ ground arith
      | inr (i, ei) ↦ elim (Option-cases (compile output)) [
        | inl e ↦ ground arith
        | inr (o, eo) ↦ (
          operation_of c f input output i o,
          record {
            named = ground arith;
            handler = ef;
            fresh = ground arith;
            in_schema = ei;
            out_schema = eo;
            shape = refl;
            entered = ground arith;
          },
        )
      ]
    ]
  ]

  lookup_op-enter :
      (r : Registry V) (o : Operation V) (n : String)
      → lookup_op (enter r o) n ≡ (if o.name ==ₛ n then some o else lookup_op r n)
  unfolding lookup_op enter lookup
  lookup_op-enter r o n = refl

  name_of_entered :
      (c : Candidate V) (h : Handler V) (input output : V) (i s : Schema V) (o : Operation V)
      → o ≡ operation_of c h input output i s
      → o.name ≡ c.name
  unfolding operation_of
  name_of_entered c h input output i s o e = ap (λ (x : Operation V). x.name) e

-- An `AddRaw` either returns an error and leaves the registry as it was, or it returns none and has entered
-- an operation with the candidate's name, handler and compiled schemas under a name that was free. In
-- the second case `Lookup` finds that operation under its name from then on, and what it found before
-- under any other.
add_raw_lookup :
    {V : Type 0} (compile : V → Option (Schema V)) (r : Registry V) (c : Candidate V)
    (input output : V)
    → ((e : AddError) × ((add_raw compile r c input output).1 ≡ some e)
        × ((add_raw compile r c input output).0 ≡ r))
      ⊎ (((add_raw compile r c input output).1 ≡ none)
          × ((o : Operation V) × IsEntered compile r c input output o
              × ((n : String)
                  → lookup_op (add_raw compile r c input output).0 n
                    ≡ (if c.name ==ₛ n then some o else lookup_op r n))))
add_raw_lookup compile r c input output = elim (Option-cases (add_raw compile r c input output).1) [
  | inr (e, p) ↦ inl (e, p, add_raw_error compile r c input output {e = e} p)
  | inl p ↦
      let (o, d) = add_raw_ok compile r c input output p in
      inr (
        p,
        (
          o,
          d,
          λ n.
              ap (λ s. lookup_op s n) d.entered
              ∙ lookup_op-enter r o n
              ∙ ap (λ m. if m ==ₛ n then some o else lookup_op r n)
                  (name_of_entered c o.handler input output o.in_schema o.out_schema o d.shape),
        ),
      )
]

new_registry-IsCatalog : {V : Type 0} → IsCatalog (new_registry {V = V})
unfolding new_registry lookup_op lookup
new_registry-IsCatalog = record { agree = λ n. refl; distinct = tt; named = tt }

-- Every `AddRaw`, whether it succeeds or fails, keeps the list and the map of the registry in agreement
-- and the names nonempty and distinct.
add_raw-IsCatalog :
    {V : Type 0} (compile : V → Option (Schema V)) (r : Registry V) (c : Candidate V)
    (input output : V)
    → IsCatalog r
    → IsCatalog (add_raw compile r c input output).0
add_raw-IsCatalog compile r c input output h =
    elim (Option-cases (add_raw compile r c input output).1) [
      | inr (e, p) ↦ subst IsCatalog (sym (add_raw_error compile r c input output {e = e} p)) h
      | inl p ↦
          let (o, d) = add_raw_ok compile r c input output p in
          let name = name_of_entered c o.handler input output o.in_schema o.out_schema o d.shape in
          subst IsCatalog (sym d.entered) (
            enter-IsCatalog r o h (ap (λ m. m ==ₛ "") name ∙ d.named)
              (ap (lookup_op r) name ∙ d.fresh))
    ]
