-- ===== src/Envconfig/Parse.antt =====
-- `strconv.ParseInt` in base 10 and `strconv.ParseBool`, as pkg/envconfig/envconfig.go uses them.
use Prim.Native.Char.{code}
use admin_api.Base.{
  ℕ, zero, suc, ◌+◌, ◌*◌, ◌-◌, ◌^◌, String, Bool, true, false, ◌&&◌, Option, none, some, List, [],
  ◌∷◌, ltb, leb, str_eq, any, if◌then◌else◌,
}
use admin_api.Base.Int.{ℤ, pos, negsuc}

digits_value : ℕ → String → Option ℕ
digits_value acc String.[] = some acc
digits_value acc (String.◌∷◌ c s) =
    let rest = digits_value (10 * acc + (code c - 48)) s in
    if leb 48 (code c) && leb (code c) 57 then rest else none

abbrev negated : ℕ → ℤ
negated zero = pos 0
negated (suc n) = negsuc n

-- In the range of the width: the magnitude is below 2^(bits - 1), or that number below zero.
positive_int : ℕ → Option ℕ → Option ℤ
positive_int bits none = none
positive_int bits (some n) = if ltb n (2 ^ (bits - 1)) then some (pos n) else none

negative_int : ℕ → Option ℕ → Option ℤ
negative_int bits none = none
negative_int bits (some n) = if leb n (2 ^ (bits - 1)) then some (negated n) else none

digits : String → Option ℕ
unfolding digits_value
digits String.[] = none
digits (String.◌∷◌ c s) = digits_value 0 (String.◌∷◌ c s)

unfoldable pub parse_int : ℕ → String → Option ℤ
unfolding digits positive_int negative_int
parse_int bits String.[] = none
parse_int bits (String.◌∷◌ c s) =
    if str_eq (String.◌∷◌ c "") "-"
    then negative_int bits (digits s)
    else if str_eq (String.◌∷◌ c "") "+"
    then positive_int bits (digits s)
    else positive_int bits (digits (String.◌∷◌ c s))

abbrev is_one_of : List String → String → Bool
is_one_of names s = any (λ n. str_eq s n) names

unfoldable pub parse_bool : String → Option Bool
parse_bool s =
    if is_one_of ("1" ∷ "t" ∷ "T" ∷ "true" ∷ "TRUE" ∷ "True" ∷ []) s
    then some true
    else if is_one_of ("0" ∷ "f" ∷ "F" ∷ "false" ∷ "FALSE" ∷ "False" ∷ []) s
    then some false
    else none
