-- ===== src/Base/Text.antt =====
-- Text as the code builds and reads it: `%d` of fmt.Sprintf and fmt.Sscanf, and strings.Split on a
-- dash, of which only the last part is used.
pub mod Digits
use Prim.Native.Nat.{ℕ, zero, suc, ◌+◌, ◌-◌, ◌*◌, ◌/◌, ◌%◌, ◌^◌, ◌≤◌, ◌<◌}
use Prim.Native.Char.{Char, code}
use Prim.Native.String.{String, ◌++◌}
use mathlib.Core.Path.{◌≡◌, refl, ◌∙◌, ap}
use mathlib.Core.Bool.{Bool, true, false, ◌&&◌, ◌||◌}
use mathlib.Core.Option.{Option, none, some}
use native.Mathlib.Omega.{arith}
use text.Mathlib.TextLemmas.{nil-append, cons-append, append-nil, append_assoc}
use patroni_postgres_operato.Base.Tests.{ltb, leb, ◌==◌, if◌then◌else◌, Bool-cases}

-- One decimal digit.
unfoldable pub digit : ℕ → String
digit zero = "0"
digit (suc zero) = "1"
digit (suc (suc zero)) = "2"
digit (suc (suc (suc zero))) = "3"
digit (suc (suc (suc (suc zero)))) = "4"
digit (suc (suc (suc (suc (suc zero))))) = "5"
digit (suc (suc (suc (suc (suc (suc zero)))))) = "6"
digit (suc (suc (suc (suc (suc (suc (suc zero))))))) = "7"
digit (suc (suc (suc (suc (suc (suc (suc (suc zero)))))))) = "8"
digit _ = "9"

-- `%d` of a number that is not negative; a number has fewer digits than itself plus one.
show_fuel : ℕ → ℕ → String
show_fuel zero n = ""
show_fuel (suc f) n =
    let high = show_fuel f (n / 10) in if ltb n 10 then digit n else high ++ digit (n % 10)

unfoldable pub show : ℕ → String
unfolding show_fuel digit
show n = show_fuel (suc n) n

-- The last element of strings.Split(s, "-").
last_from : String → String → String
last_from acc String.[] = acc
last_from acc (String.◌∷◌ c s) =
    if code c == b'-' then last_from "" s else last_from (acc ++ (String.◌∷◌ c "")) s

unfoldable pub last_part : String → String
unfolding last_from
last_part s = last_from "" s

-- The space table of fmt's scanner, without the newline, which stops a scan with an error.
is_space : ℕ → Bool
is_space c =
    c == 9
    || leb 11 c && leb c 13
    || c == 32
    || c == 0x85
    || c == 0xa0
    || c == 0x1680
    || leb 0x2000 c && leb c 0x200a
    || c == 0x2028
    || c == 0x2029
    || c == 0x202f
    || c == 0x205f
    || c == 0x3000

is_digit : ℕ → Bool
is_digit c = leb b'0' c && leb c b'9'

-- The longest run of digits that begins the text is the token; what follows it is left unread.
scan_digits : ℕ → String → ℕ
scan_digits acc String.[] = acc
scan_digits acc (String.◌∷◌ c s) =
    let rest = scan_digits (acc * 10 + (code c - 48)) s in if is_digit (code c) then rest else acc

-- A token with no digit and a value that does not fit in an `int` are errors.
scan_token : String → Option ℕ
unfolding is_digit scan_digits
scan_token String.[] = none
scan_token (String.◌∷◌ c s) =
    if is_digit (code c)
    then (let n = scan_digits 0 (String.◌∷◌ c s) in if ltb n (2 ^ 63) then some n else none)
    else none

scan_sign : String → Option ℕ
unfolding scan_token
scan_sign String.[] = none
scan_sign (String.◌∷◌ c s) = if code c == b'+' then scan_token s else scan_token (String.◌∷◌ c s)

-- fmt.Sscanf(s, "%d", &index) on a text with no dash, so no minus sign; none is an error.
unfoldable pub scan_int : String → Option ℕ
unfolding scan_sign is_space
scan_int String.[] = none
scan_int (String.◌∷◌ c s) =
    let rest = scan_int s in
    if code c == 10 then none else if is_space (code c) then rest else scan_sign (String.◌∷◌ c s)

-- strings.ReplaceAll of a text of one character, given by its code.
unfoldable pub replace_all : String → ℕ → String → String
replace_all String.[] old new = ""
replace_all (String.◌∷◌ c s) old new =
    let rest = replace_all s old new in if code c == old then new ++ rest else String.◌∷◌ c rest
