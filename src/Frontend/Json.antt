-- ===== src/Frontend/Json.antt =====
-- JSON documents as encoding/json decodes them into `any`. The fields of an object stand in a list, since
-- the code never reads their order.
use game_forge.Prelude.{
  ℕ, Bool, String, ◌==ₛ◌, Option, none, some, if◌then◌else◌, ◌≡◌, refl, arith, eq_iff,
}

mutual
  pub data Value : Type 0 where
    null : Value
    boolean : Bool → Value
    number : ℕ → Value
    text : String → Value
    array : Items → Value
    object : Fields → Value

  pub data Items : Type 0 where
    nil : Items
    item : Value → Items → Items

  pub data Fields : Type 0 where
    end : Fields
    field : String → Value → Fields → Fields

-- `m[k]`, with `ok`.
unfoldable pub get : String → Fields → Option Value
get k end = none
get k (field j v fs) = if j ==ₛ k then some v else get k fs

-- `m[k] = v`.
unfoldable pub put : String → Value → Fields → Fields
put k v end = field k v end
put k v (field j w fs) = if j ==ₛ k then field k v fs else field j w (put k v fs)

-- `delete(m, k)`.
unfoldable pub delete : String → Fields → Fields
delete k end = end
delete k (field j v fs) = let rest = delete k fs in if j ==ₛ k then rest else field j v rest

pub get-put :
    (k j : String) (v : Value) (fs : Fields)
    → get j (put k v fs) ≡ (if k ==ₛ j then some v else get j fs)
unfolding get put
get-put k j v end = refl
get-put k j v (field i w fs) = ground (arith, eq_iff k j, eq_iff i k, eq_iff i j, get-put k j v fs)

get-delete :
    (k j : String) (fs : Fields) → get j (delete k fs) ≡ (if k ==ₛ j then none else get j fs)
unfolding get delete
get-delete k j end = ground arith
get-delete k j (field i v fs) =
    ground (arith, eq_iff k j, eq_iff i k, eq_iff i j, get-delete k j fs)

-- Writing what is there already changes nothing.
pub put-get : (k : String) (v : Value) (fs : Fields) → get k fs ≡ some v → put k v fs ≡ fs
unfolding get put
put-get k v end h = ground arith
put-get k v (field i w fs) h = ground (arith, eq_iff i k, put-get k v fs)
