-- ===== src/Frontend/Schemas.antt =====
-- internal/mcpfrontend/frontend.go: the projection of a canonical schema onto a tool's input schema. A
-- schema is the document that its bytes decode to.
pub mod Meta
pub mod Selector
use game_forge.Prelude.{Bool, true, false, ◌||◌, String, ◌==ₛ◌, Option, none, some, if◌then◌else◌}
use game_forge.Frontend.Json.{
  Value, null, boolean, number, text, array, object, Items, nil, item, Fields, end, field, get, put,
}

pub is_meta : String → Bool
is_meta k = k ==ₛ "$schema" || k ==ₛ "$id"

-- `hasRef`.
mutual
  pub has_ref : Value → Bool
  has_ref null = false
  has_ref (boolean b) = false
  has_ref (number n) = false
  has_ref (text s) = false
  has_ref (array xs) = has_ref_items xs
  has_ref (object fs) = has_ref_fields fs

  pub has_ref_items : Items → Bool
  has_ref_items nil = false
  has_ref_items (item v xs) = has_ref v || has_ref_items xs

  pub has_ref_fields : Fields → Bool
  has_ref_fields end = false
  has_ref_fields (field k v fs) = k ==ₛ "$ref" || has_ref v || has_ref_fields fs

-- `stripMeta`.
mutual
  unfolding is_meta

  pub strip_meta : Value → Value
  strip_meta null = null
  strip_meta (boolean b) = boolean b
  strip_meta (number n) = number n
  strip_meta (text s) = text s
  strip_meta (array xs) = array (strip_items xs)
  strip_meta (object fs) = object (strip_fields fs)

  pub strip_items : Items → Items
  strip_items nil = nil
  strip_items (item v xs) = item (strip_meta v) (strip_items xs)

  pub strip_fields : Fields → Fields
  strip_fields end = end
  strip_fields (field k v fs) =
      let rest = strip_fields fs in if is_meta k then rest else field k (strip_meta v) rest

-- `compactSchema`: a document that is no object stays as it is.
pub compact_schema : Value → Value
unfolding has_ref strip_meta
compact_schema (object fs) = if has_ref (object fs) then object fs else strip_meta (object fs)
compact_schema v = v

abbrev pub project_code_schema : Value
project_code_schema = object (field "type" (text "string") end)

-- `x, _ := v.(map[string]any)`, with nil as the empty map.
as_object : Option Value → Fields
as_object (some (object fs)) = fs
as_object _ = end

-- `x, _ := v.([]any)`, with nil as the empty slice.
pub as_array : Option Value → Items
as_array (some (array xs)) = xs
as_array _ = nil

is_text : String → Value → Bool
is_text s (text t) = t ==ₛ s
is_text s _ = false

-- The loop over `required`.
pub requires : String → Items → Bool
unfolding is_text
requires s nil = false
requires s (item v xs) = is_text s v || requires s xs

append_item : Items → Value → Items
append_item nil v = item v nil
append_item (item w xs) v = item w (append_item xs v)

-- doc["properties"] and doc["required"].
pub properties_of : Fields → Fields
unfolding as_object
properties_of fs = as_object (get "properties" fs)

pub required_of : Fields → Items
unfolding as_array
required_of fs = as_array (get "required" fs)

with_property : Fields → Fields
with_property fs =
    put "properties" (object (put "project_code" project_code_schema (properties_of fs))) fs

with_required : Fields → Fields
unfolding append_item
with_required fs =
    if requires "project_code" (required_of fs)
    then fs
    else put "required" (array (append_item (required_of fs) (text "project_code"))) fs

-- `injectProjectCode`.
pub inject_project_code : Value → Value
unfolding with_property with_required
inject_project_code (object fs) = object (with_required (with_property fs))
inject_project_code v = v
