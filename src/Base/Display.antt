-- ===== src/Base/Display.antt =====
-- `format!` of an unsigned integer.
use Prim.Native.String.{◌++◌ as append}
use polymarket_watch_rust.Base.Tests.{String, if◌then◌else◌, ltb, suc, zero, ℕ, ◌%◌, ◌/◌, ◌==◌}

digit : ℕ → String
digit n =
    if n == 0
    then "0"
    else if n == 1
    then "1"
    else if n == 2
    then "2"
    else if n == 3
    then "3"
    else if n == 4
    then "4"
    else if n == 5
    then "5"
    else if n == 6
    then "6"
    else if n == 7
    then "7"
    else if n == 8
    then "8"
    else "9"

-- A number is fuel enough for its own digits.
show_from : ℕ → ℕ → String → String
unfolding digit
show_from zero n out = append (digit n) out
show_from (suc fuel) n out =
    let rest = show_from fuel (n / 10) (append (digit (n % 10)) out) in
    if ltb n 10 then append (digit n) out else rest

unfoldable pub show_ℕ : ℕ → String
unfolding show_from
show_ℕ n = show_from n n ""
