-- ===== src/Cli/Conforms.antt =====
-- internal/cli/dispatch.go and schemas/ops: when a call of the command line fits its schema.
pub mod Commands
pub mod Pages
pub mod Dispatched
use game_forge.Prelude.{
  ℕ, zero, suc, Bool, true, false, String, ◌==ₛ◌, List, [], ◌∷◌, ◌++◌, Text, codes, text_eq,
  is_empty, if◌then◌else◌, Option, none, some, Result, ok, err, ◌>>=◌, ◌≡◌, refl, All, All-append,
  subst, sym, lookup, has, any_by, all_by, is_nil, Bool-cases, Option-cases, if_both, inl, inr, ◌⊎◌,
  ◌||◌, ◌&&◌,
}
use game_forge.Prelude.Int.{ℤ, pos, negsuc}
use game_forge.Cli.{
  Values, Parser, Arg, text_arg, int_arg, bool_arg, texts_arg, params_arg, points_arg, Args, Call,
  call_of, Renderer, opt_text, opt_count, opt_positive, opt_flag, opt_texts, opt_params, exit_usage,
  first, param_map,
}
use mathlib.Core.List.{append-nil, append_assoc}
use game_forge.Cli.Commands.{Outcome}
use game_forge.Cli.Pages.{opt_seeds}
use game_forge.Cli.Schemas.{
  Kind, a_text, some_text, a_server, a_duration, a_count, a_positive, a_bool, texts, params, points,
  properties, required, op_names,
}

is_natural : ℤ → Bool
is_natural (pos n) = true
is_natural (negsuc n) = false

-- Whether a value is of a kind.
unfoldable pub IsOf : Kind → Arg → Type 0
unfolding is_natural
IsOf a_text (text_arg s) = Unit
IsOf some_text (text_arg s) = is_empty s ≡ false
IsOf a_server (text_arg s) = (text_eq s (codes "dev") || text_eq s (codes "prod")) ≡ true
IsOf a_duration (int_arg (pos n)) = Unit
IsOf a_count (int_arg (pos n)) = Unit
IsOf a_positive (int_arg (pos (suc n))) = Unit
IsOf a_bool (bool_arg b) = Unit
IsOf texts (texts_arg xs) = Unit
IsOf params (params_arg pm) = Unit
IsOf points (points_arg ps) =
    (is_nil ps ≡ false) × (all_by (λ p. is_natural p.0 && is_natural p.1) ps ≡ true)
IsOf _ _ = ⊥

-- What the command line sends without a test that the schema has: any name of a server, any duration, and any
-- coordinates.
unfoldable pub IsUntested : Kind → Arg → Type 0
IsUntested a_server (text_arg s) = Unit
IsUntested a_duration (int_arg n) = Unit
IsUntested points (points_arg ps) = is_nil ps ≡ false
IsUntested _ _ = ⊥

-- The kind that the operation's schema says of a property.
unfoldable pub kind_of : String → String → Option Kind
unfolding lookup properties
kind_of op key = lookup key (properties op)

pub Fits : String → String × Arg → Type 0
unfolding IsOf IsUntested kind_of
Fits op (key, v) = (k : Kind) × (kind_of op key ≡ some k) × (IsOf k v ⊎ IsUntested k v)

-- Every argument is a property that the schema names, of its kind, or of one that is not tested.
pub record FitAll (op : String) (args : Args) : Type 0 where
  pub all : All (Fits op) args

-- A call of an operation with a schema: each argument fits, and those that are required are there.
pub Conforms : Call → Type 0
unfolding required op_names lookup
Conforms c =
    (any_by (λ op. op ==ₛ c.op) op_names ≡ true)
    × FitAll c.op c.args
    × (all_by (λ key. has (lookup key c.args)) (required c.op) ≡ true)

pub AllOk : Result ℕ Call → Type 0
unfolding Conforms
AllOk (err code) = Unit
AllOk (ok c) = Conforms c

-- A call, if one is made, conforms.
pub record ConformsIf (r : Result ℕ Call) : Type 0 where
  pub holds : AllOk r

-- An optional argument in front of others.
module _ {op : String} {rest : Args} where
  pub add :
      {key : String} {v : Arg} (k : Kind)
      → kind_of op key ≡ some k
      → IsOf k v
      → FitAll op rest
      → FitAll op ((key, v) ∷ rest)
  unfolding Fits
  add k e h r = record { all = ((k, e, inl h), r.all) }

  pub add_untested :
      {key : String} {v : Arg} (k : Kind)
      → kind_of op key ≡ some k
      → IsUntested k v
      → FitAll op rest
      → FitAll op ((key, v) ∷ rest)
  unfolding Fits
  add_untested k e h r = record { all = ((k, e, inr h), r.all) }

  pub add_text :
      (key : String) (v : Text)
      → kind_of op key ≡ some a_text
      → FitAll op rest
      → FitAll op (opt_text key v ++ rest)
  unfolding opt_text IsOf
  add_text key [] e r = r
  add_text key (c ∷ v) e r = add a_text e tt r

  pub add_count :
      (key : String) (n : ℤ)
      → kind_of op key ≡ some a_count
      → FitAll op rest
      → FitAll op (opt_count key n ++ rest)
  unfolding opt_count IsOf
  add_count key (pos n) e r = add a_count e tt r
  add_count key (negsuc n) e r = r

  pub add_positive :
      (key : String) (n : ℤ)
      → kind_of op key ≡ some a_positive
      → FitAll op rest
      → FitAll op (opt_positive key n ++ rest)
  unfolding opt_positive IsOf
  add_positive key (pos zero) e r = r
  add_positive key (pos (suc n)) e r = add a_positive e tt r
  add_positive key (negsuc n) e r = r

  pub add_flag :
      (key : String) (b : Bool)
      → kind_of op key ≡ some a_bool
      → FitAll op rest
      → FitAll op (opt_flag key b ++ rest)
  unfolding opt_flag IsOf
  add_flag key true e r = add a_bool e tt r
  add_flag key false e r = r

  pub add_texts :
      (key : String) (xs : List Text)
      → kind_of op key ≡ some texts
      → FitAll op rest
      → FitAll op (opt_texts key xs ++ rest)
  unfolding opt_texts IsOf
  add_texts key [] e r = r
  add_texts key (x ∷ xs) e r = add texts e tt r

module _ {op : String} where
  pub no_more : FitAll op []
  no_more = record { all = tt }

  pub last : (args : Args) → FitAll op (args ++ []) → FitAll op args
  last args h = subst (FitAll op) (append-nil args) h

  pub only_params :
      (pm : List (Text × Text)) → kind_of op "params" ≡ some params → FitAll op (opt_params pm)
  unfolding opt_params IsOf
  only_params [] e = no_more
  only_params (x ∷ pm) e = add params e tt no_more

pub add_seeds :
    {op : String} {rest : Args} (v : Values)
    → kind_of op "seed" ≡ some a_text
    → kind_of op "world" ≡ some a_text
    → FitAll op rest
    → FitAll op (opt_seeds v ++ rest)
unfolding opt_seeds
add_seeds {op} {rest} v s w r =
    subst (FitAll op)
      (sym
        (append_assoc (opt_text "seed" (v.text "seed")) (opt_text "world" (v.text "world")) rest))
      (add_text _ _ s (add_text _ _ w r))

-- A call is made.
pub made :
    {c : Call}
    → any_by (λ op. op ==ₛ c.op) op_names ≡ true
    → FitAll c.op c.args
    → all_by (λ key. has (lookup key c.args)) (required c.op) ≡ true
    → ConformsIf (ok c)
unfolding AllOk Conforms
made n f r = record { holds = (n, f, r) }

pub none_made : {code : ℕ} → ConformsIf (err code)
unfolding AllOk
none_made = record { holds = tt }

-- A call that is made if a text is not empty.
pub if_some :
    (t : Text) {c : Outcome}
    → (is_empty t ≡ false → ConformsIf c)
    → ConformsIf (if is_empty t then err exit_usage else c)
if_some [] h = none_made
if_some (x ∷ t) h = h refl

-- A call that is made if the parameters can be read.
pub with_params :
    (o : Option (List (Text × Text))) {f : List (Text × Text) → Outcome}
    → ((pm : List (Text × Text)) → ConformsIf (f pm))
    → ConformsIf (elim o [ none ↦ err exit_usage | some pm ↦ f pm ])
with_params none h = none_made
with_params (some pm) h = h pm
