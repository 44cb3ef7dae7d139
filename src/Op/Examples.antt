-- ===== src/Op/Examples.antt =====
-- Tests of the operation registry, and its theorems at concrete inputs; JSON values are numbers.
use game_forge.Prelude.{ℕ, ◌≡◌, refl, false, [], Option, none, some, if◌then◌else◌, ◌==◌}
use game_forge.Op.{Candidate, Handler, Schema, registered_twice, bad_output, new_registry, add_raw}

abbrev echo : Handler ℕ
echo = λ ctx v. record { progress = []; value = some v; error = none }

abbrev ping : Candidate ℕ
ping = record { name = "ping"; summary = "answer"; stream = false; handler = some echo }

-- The value 0 is no schema; any other accepts everything.
abbrev compile : ℕ → Option (Schema ℕ)
compile raw = if raw == 0 then none else some (λ v. none)

add_raw_twice :
    (add_raw compile (add_raw compile new_registry ping 1 1).0 ping 1 1).1
    ≡ some (registered_twice "ping")
unfolding add_raw new_registry
add_raw_twice = refl

add_raw_no_schema : (add_raw compile new_registry ping 1 0).1 ≡ some (bad_output "ping")
unfolding add_raw new_registry
add_raw_no_schema = refl
