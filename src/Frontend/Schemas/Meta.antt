-- ===== src/Frontend/Schemas/Meta.antt =====
-- internal/mcpfrontend/frontend.go, compactSchema: what is stripped and what is kept.
use game_forge.Prelude.{
  Bool, true, false, String, Option, none, some, ◌≡◌, refl, ◌⊎◌, inl, inr, arith, eq_iff,
  Bool-cases, ap, if◌then◌else◌,
}
use game_forge.Frontend.Json.{
  Value, null, boolean, number, text, array, object, Items, nil, item, Fields, end, field, get,
}
use game_forge.Frontend.Schemas.{
  is_meta, has_ref, strip_meta, strip_items, strip_fields, compact_schema,
}

-- No object of the document has a key `$schema` or `$id`.
mutual
  pub IsClean : Value → Type 0
  IsClean null = Unit
  IsClean (boolean b) = Unit
  IsClean (number n) = Unit
  IsClean (text s) = Unit
  IsClean (array xs) = IsCleanItems xs
  IsClean (object fs) = IsCleanFields fs

  pub IsCleanItems : Items → Type 0
  IsCleanItems nil = Unit
  IsCleanItems (item v xs) = IsClean v × IsCleanItems xs

  pub IsCleanFields : Fields → Type 0
  IsCleanFields end = Unit
  IsCleanFields (field k v fs) = (is_meta k ≡ false) × IsClean v × IsCleanFields fs

kept-IsClean :
    (b : Bool) (k : String) (v : Value) (rest : Fields)
    → is_meta k ≡ b
    → IsClean v
    → IsCleanFields rest
    → IsCleanFields (if b then rest else field k v rest)
unfolding IsClean
kept-IsClean true k v rest h c cs = cs
kept-IsClean false k v rest h c cs = (h, c, cs)

mutual
  unfolding strip_meta IsClean

  strip_meta-IsClean : (v : Value) → IsClean (strip_meta v)
  strip_meta-IsClean null = tt
  strip_meta-IsClean (boolean b) = tt
  strip_meta-IsClean (number n) = tt
  strip_meta-IsClean (text s) = tt
  strip_meta-IsClean (array xs) = strip_items-IsClean xs
  strip_meta-IsClean (object fs) = strip_fields-IsClean fs

  strip_items-IsClean : (xs : Items) → IsCleanItems (strip_items xs)
  strip_items-IsClean nil = tt
  strip_items-IsClean (item v xs) = (strip_meta-IsClean v, strip_items-IsClean xs)

  strip_fields-IsClean : (fs : Fields) → IsCleanFields (strip_fields fs)
  strip_fields-IsClean end = tt
  strip_fields-IsClean (field k v fs) =
      kept-IsClean (is_meta k) k (strip_meta v) (strip_fields fs) refl (strip_meta-IsClean v)
        (strip_fields-IsClean fs)

-- What is stripped in a field's value.
stripped : Option Value → Option Value
stripped none = none
stripped (some v) = some (strip_meta v)

get-strip_fields :
    (k : String) (fs : Fields) → is_meta k ≡ false → get k (strip_fields fs) ≡ stripped (get k fs)
unfolding strip_meta get stripped
get-strip_fields k end h = refl
get-strip_fields k (field j v fs) h =
    ground (arith, get-strip_fields k fs h, eq_iff j k, ap is_meta ((eq_iff j k).0 _))

-- The schema of an object with a `$ref` anywhere in it stays as it is. Of any other, the projection has
-- no key `$schema` or `$id` at any depth, and has every other field of the object, with its value
-- stripped in the same way.
compact_schema-IsClean :
    (fs : Fields)
    → ((has_ref (object fs) ≡ true) × (compact_schema (object fs) ≡ object fs))
      ⊎ ((kept : Fields) × (has_ref (object fs) ≡ false)
          × (compact_schema (object fs) ≡ object kept)
          × IsCleanFields kept
          × ((k : String) → is_meta k ≡ false → get k kept ≡ stripped (get k fs)))
unfolding compact_schema
compact_schema-IsClean fs = elim (Bool-cases (has_ref (object fs))) [
  | inl e ↦ inl (e, rw e)
  | inr e ↦ inr (strip_fields fs, e, rw e, strip_fields-IsClean fs, λ k h. get-strip_fields k fs h)
]
