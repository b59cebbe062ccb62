-- ===== src/Prelude/Show.antt =====
-- `${n}` of a natural number: its decimal digits.
use Prim.Native.String.{◌++◌}
use mathlib.Core.Path.{◌≡◌, refl}
use task_schedular.Prelude.{ℕ, zero, suc, ◌/◌, ◌%◌, String, ltb, if◌then◌else◌}

abbrev digit : ℕ → String
digit zero = "0"
digit (suc zero) = "1"
digit (suc (suc zero)) = "2"
digit (suc (suc (suc zero))) = "3"
digit (suc (suc (suc (suc zero)))) = "4"
digit (suc (suc (suc (suc (suc zero))))) = "5"
digit (suc (suc (suc (suc (suc (suc zero)))))) = "6"
digit (suc (suc (suc (suc (suc (suc (suc zero))))))) = "7"
digit (suc (suc (suc (suc (suc (suc (suc (suc zero)))))))) = "8"
digit _ = "9"

-- Fuel `n + 1` is enough, since each round divides by ten.
show_fuel : ℕ → ℕ → String
show_fuel zero n = ""
show_fuel (suc fuel) n =
    let front = show_fuel fuel (n / 10) in if ltb n 10 then digit n else front ++ digit (n % 10)

unfoldable pub show : ℕ → String
unfolding show_fuel
show n = show_fuel (suc n) n

-- `String(n).padStart(2, '0')`
unfoldable pub pad2 : ℕ → String
unfolding show
pad2 n = if ltb n 10 then "0" ++ show n else show n

show_runs : show 1307 ++ pad2 7 ≡ "130707"
unfolding show pad2
show_runs = refl
