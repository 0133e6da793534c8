-- ===== src/Scan/Text.antt =====
-- `std::to_string` of an integer: its decimal digits, with a minus sign before a negative one.
use Prim.Native.String.{◌++◌}
use pi_scan.Base.{ℕ, zero, suc, ◌+◌, ◌/◌, ◌%◌, String, ℤ, pos, negsuc, ltb, ◌==◌, if◌then◌else◌}

unfoldable pub digit : ℕ → String
digit d =
    if d == 0
    then "0"
    else if d == 1
    then "1"
    else if d == 2
    then "2"
    else if d == 3
    then "3"
    else if d == 4
    then "4"
    else if d == 5
    then "5"
    else if d == 6
    then "6"
    else if d == 7
    then "7"
    else if d == 8
    then "8"
    else "9"

-- A number has at most as many digits as its value plus one, which is the fuel given below.
unfoldable pub digits : ℕ → ℕ → String
unfolding digit
digits zero n = ""
digits (suc fuel) n =
    let rest = digits fuel (n / 10) ++ digit (n % 10) in if ltb n 10 then digit n else rest

unfoldable pub to_string : ℤ → String
unfolding digits
to_string (pos n) = digits (n + 1) n
to_string (negsuc n) = "-" ++ digits (n + 2) (n + 1)
