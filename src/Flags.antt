-- ===== src/Flags.antt =====
-- internal/cli/flags.go, reorder: flags are moved ahead of positional arguments before the standard flag
-- package parses them. `bools` says which names are Boolean flags.
pub mod Counts
mod Examples
use game_forge.Prelude.{
  ℕ, Bool, true, false, not, ◌&&◌, List, [], ◌∷◌, ◌++◌, Text, codes, text_eq, any_by, ◌==◌,
  if◌then◌else◌,
}

-- The flags with their values, the positional arguments, and whether a "--" ended the flags.
pub record Groups : Type 0 where
  pub flags : List Text
  pub positionals : List Text
  pub terminated : Bool

abbrev pub terminator : Text
terminator = codes "--"

-- strings.HasPrefix(a, "-") && a != "-"
is_flag : Text → Bool
is_flag [] = false
is_flag (c ∷ []) = false
is_flag (c ∷ d ∷ s) = c == b'-'

-- strings.TrimLeft(a, "-")
flag_name : Text → Text
flag_name [] = []
flag_name (c ∷ s) = if c == b'-' then flag_name s else c ∷ s

-- A flag that is not Boolean and has no "=" takes the next argument.
takes_value : (Text → Bool) → Text → Bool
unfolding flag_name
takes_value bools a = not (any_by (λ c. c == b'=') (flag_name a)) && not (bools (flag_name a))

push_flag : Text → Groups → Groups
push_flag a g = record g { flags = a ∷ g.flags }

push_positional : Text → Groups → Groups
push_positional a g = record g { positionals = a ∷ g.positionals }

abbrev pub nothing : Groups
nothing = record { flags = []; positionals = []; terminated = false }

-- The loop of `reorder`.
pub group : (Text → Bool) → List Text → Groups
unfolding is_flag takes_value push_flag push_positional
group bools [] = nothing
group bools (a ∷ []) =
    if text_eq a terminator
    then record nothing { terminated = true }
    else if is_flag a
    then push_flag a nothing
    else push_positional a nothing
group bools (a ∷ b ∷ rest) =
    let skipped = group bools rest in
    let next = group bools (b ∷ rest) in
    if text_eq a terminator
    then record { flags = []; positionals = b ∷ rest; terminated = true }
    else if is_flag a
    then (if takes_value bools a then push_flag a (push_flag b skipped) else push_flag a next)
    else push_positional a next

joined : Groups → List Text
joined g = if g.terminated then g.flags ++ terminator ∷ g.positionals else g.flags ++ g.positionals

pub reorder : (Text → Bool) → List Text → List Text
unfolding group joined
reorder bools args = joined (group bools args)
