-- ===== src/Coordinator/Names.antt =====
-- The names that pkg/coordinator/coordinator.go builds from others: map keys and segment ids.
pub mod Keys
use Prim.Native.Char.{nul, code}
use Prim.Native.String.{String, ◌++◌}
use stark8s.Prelude.{ℕ, zero, suc, ◌/◌, ◌%◌, ltb, nat_beq, if◌then◌else◌}

-- `fmt.Sprintf("%d", n)` for a number that is not negative.
abbrev digit : ℕ → String
digit zero = "0"
digit (suc zero) = "1"
digit (suc (suc zero)) = "2"
digit (suc (suc (suc zero))) = "3"
digit (suc (suc (suc (suc zero)))) = "4"
digit (suc (suc (suc (suc (suc zero))))) = "5"
digit (suc (suc (suc (suc (suc (suc zero)))))) = "6"
digit (suc (suc (suc (suc (suc (suc (suc zero))))))) = "7"
digit (suc (suc (suc (suc (suc (suc (suc (suc zero)))))))) = "8"
digit _ = "9"

decimal_from : ℕ → ℕ → String
decimal_from zero n = ""
decimal_from (suc fuel) n =
    let front = decimal_from fuel (n / 10) ++ digit (n % 10) in if ltb n 10 then digit n else front

unfoldable pub decimal : ℕ → String
unfolding decimal_from
decimal n = decimal_from (suc n) n

unfoldable pub owner_key : ℕ → ℕ → String
unfolding decimal
owner_key partitions p = decimal partitions ++ "/" ++ decimal p

-- `segment.key` of a holder and an id.
unfoldable pub segment_key : String → String → String
segment_key holder id = holder ++ "/" ++ id

unfoldable pub external_id : ℕ → String
unfolding decimal
external_id n = "ext-" ++ decimal n

unfoldable pub coordinator_id : ℕ → String
unfolding decimal
coordinator_id n = "coordinator-" ++ decimal n

unfoldable pub delivery_key : String → String → String
delivery_key pod_name incarnation = pod_name ++ String.◌∷◌ nul incarnation

-- The part of a delivery key before its first NUL.
unfoldable pub delivery_pod : String → String
delivery_pod String.[] = ""
delivery_pod (String.◌∷◌ c s) =
    let rest = String.◌∷◌ c (delivery_pod s) in if nat_beq (code c) 0 then "" else rest

unfoldable pub cohort_key : ℕ → String
unfolding decimal
cohort_key slot = "slot:" ++ decimal slot
