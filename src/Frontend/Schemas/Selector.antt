-- ===== src/Frontend/Schemas/Selector.antt =====
-- internal/mcpfrontend/frontend.go, injectProjectCode: what the selector of the project adds to a schema.
use game_forge.Prelude.{
  true, false, String, ◌==ₛ◌, some, ◌≡◌, refl, arith, ap, sym, ◌∙◌, eq_refl, Bool-cases,
  if◌then◌else◌, inl, inr, ◌||◌, Bool, eq_iff, subst,
}
use game_forge.Frontend.Json.{
  text, array, object, Items, nil, item, Fields, get, put, get-put, put-get,
}
use game_forge.Frontend.Schemas.{
  properties_of, required_of, as_array, as_object, is_text, requires, append_item, with_property,
  with_required, inject_project_code, project_code_schema,
}

-- A schema whose calls name their project: the property is declared and required.
pub record IsSelecting (fs : Fields) : Type 0 where
  pub props : get "properties" fs ≡ some (object (properties_of fs))
  pub property : get "project_code" (properties_of fs) ≡ some project_code_schema
  pub required : requires "project_code" (required_of fs) ≡ true

requires-append_item : (s : String) (xs : Items) → requires s (append_item xs (text s)) ≡ true
unfolding requires append_item is_text
requires-append_item s nil = rw (eq_refl s) refl
requires-append_item s (item v xs) = ground (arith, requires-append_item s xs)

-- A name is required after the addition if it was before, or if it is the one added.
requires-append :
    (key s : String) (xs : Items)
    → requires key (append_item xs (text s)) ≡ (requires key xs || (s ==ₛ key))
unfolding requires append_item is_text
requires-append key s nil = ground arith
requires-append key s (item v xs) = ground (arith, requires-append key s xs)

abbrev new_props : Fields → Fields
new_props fs = put "project_code" project_code_schema (properties_of fs)

get-with_property :
    (k : String) (fs : Fields)
    → get k (with_property fs)
      ≡ (if "properties" ==ₛ k then some (object (new_props fs)) else get k fs)
unfolding with_property
get-with_property k fs = get-put "properties" k (object (new_props fs)) fs

abbrev new_required : Fields → Items
new_required fs = append_item (required_of fs) (text "project_code")

get-with_required :
    (k : String) (fs : Fields) → ("required" ==ₛ k) ≡ false → get k (with_required fs) ≡ get k fs
unfolding with_required
get-with_required k fs h = ground (arith, get-put "required" k (array (new_required fs)) fs)

with_required-requires :
    (fs : Fields) → requires "project_code" (required_of (with_required fs)) ≡ true
unfolding with_required required_of
with_required-requires fs = elim (Bool-cases (requires "project_code" (required_of fs))) [
  | inl e ↦ rw e e
  | inr e ↦
      rw (e, get-put "required" "required" (array (new_required fs)) fs)
        (requires-append_item "project_code" (required_of fs))
]

-- The fields that a call's schema has.
pub selected : Fields → Fields
unfolding with_required with_property
selected fs = with_required (with_property fs)

selected_props : (fs : Fields) → get "properties" (selected fs) ≡ some (object (new_props fs))
unfolding selected
selected_props fs =
    get-with_required "properties" (with_property fs) refl ∙ get-with_property "properties" fs

selected-IsSelecting : (fs : Fields) → IsSelecting (selected fs)
unfolding selected properties_of
selected-IsSelecting fs =
    let same : properties_of (selected fs) ≡ new_props fs = ap as_object (selected_props fs) in
    record {
      props = selected_props fs ∙ ap (λ x. some (object x)) (sym same);
      property =
          ap (get "project_code") same
          ∙ get-put "project_code" "project_code" project_code_schema (properties_of fs);
      required = with_required-requires (with_property fs);
    }

-- A selecting schema is left alone.
selected_again : (fs : Fields) → IsSelecting fs → selected fs ≡ fs
unfolding selected with_property with_required
selected_again fs h =
    let same : with_property fs ≡ fs = put-get "properties" _ fs (
      h.props
      ∙ ap (λ x. some (object x))
          (sym (put-get "project_code" project_code_schema (properties_of fs) h.property))) in
    ap with_required same ∙ rw h.required

other_props :
    (k : String) (fs : Fields)
    → get k (properties_of (selected fs))
      ≡ (if "project_code" ==ₛ k then some project_code_schema else get k (properties_of fs))
unfolding properties_of
other_props k fs =
    ap (λ o. get k (as_object o)) (selected_props fs)
    ∙ get-put "project_code" k project_code_schema (properties_of fs)

requires-with_required :
    (key : String) (fs : Fields)
    → requires key (required_of (with_required fs))
      ≡ (requires key (required_of fs) || ("project_code" ==ₛ key))
unfolding with_required required_of
requires-with_required key fs = elim (Bool-cases (requires "project_code" (required_of fs))) [
  | inl e ↦ rw e (already (("project_code" ==ₛ key)) refl e)
  | inr e ↦
      rw (e, get-put "required" "required" (array (new_required fs)) fs)
        (requires-append key "project_code" (required_of fs))
]
  where
    already :
        (b : Bool)
        → ("project_code" ==ₛ key) ≡ b
        → requires "project_code" (required_of fs) ≡ true
        → requires key (required_of fs) ≡ (requires key (required_of fs) || b)
    already true same e =
        let r : requires key (required_of fs) ≡ true =
          subst (λ k. requires k (required_of fs) ≡ true) ((eq_iff "project_code" key).0 same) e in
        ground (arith, r)
    already false same e = ground arith

-- The declaration of the property leaves what is required alone.
required_all :
    (key : String) (fs : Fields)
    → requires key (required_of (selected fs))
      ≡ (requires key (required_of fs) || ("project_code" ==ₛ key))
unfolding selected required_of
required_all key fs =
    requires-with_required key (with_property fs)
    ∙ ap (λ o. requires key (as_array o) || ("project_code" ==ₛ key))
        (get-with_property "required" fs)

-- The schema of a tool declares and requires the project code; it has every other field of the schema
-- of the operation unchanged, and every other property; it requires each name that the schema of the
-- operation requires, the project code, and nothing else; a second injection changes nothing.
pub inject_project_code-IsSelecting :
    (fs : Fields)
    → (made : Fields) × (inject_project_code (object fs) ≡ object made)
      × IsSelecting made
      × ((k : String)
          → ("properties" ==ₛ k) ≡ false
          → ("required" ==ₛ k) ≡ false
          → get k made ≡ get k fs)
      × ((k : String)
          → ("project_code" ==ₛ k) ≡ false
          → get k (properties_of made) ≡ get k (properties_of fs))
      × ((key : String)
          → requires key (required_of made)
            ≡ (requires key (required_of fs) || ("project_code" ==ₛ key)))
      × (inject_project_code (object made) ≡ object made)
unfolding inject_project_code selected requires
inject_project_code-IsSelecting fs = (
  selected fs,
  refl,
  selected-IsSelecting fs,
  λ k h h'. get-with_required k (with_property fs) h' ∙ get-with_property k fs ∙ rw h refl,
  λ k h. other_props k fs ∙ rw h refl,
  λ key. required_all key fs,
  ap object (selected_again (selected fs) (selected-IsSelecting fs)),
)
