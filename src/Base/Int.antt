-- ===== src/Base/Int.antt =====
-- The signed integers, as Go's `int64` and `time.Duration` hold them, and their decimal text.
use Prim.Native.Nat.{ℕ, zero, suc, ◌-◌, ◌^◌, ◌/◌, ◌%◌}
use Prim.Native.String.{String}
use Prim.Native.String
use mathlib.Core.Bool.{Bool, false}
use admin_api.Base.Tests.{ltb, ◌==◌, if◌then◌else◌}

-- `negsuc n` is -(n + 1).
pub data ℤ : Type 0 where
  pos : ℕ → ℤ
  negsuc : ℕ → ℤ

abbrev pub is_zero : ℤ → Bool
is_zero (pos n) = n == 0
is_zero (negsuc n) = false

digit_text : ℕ → String
digit_text zero = "0"
digit_text (suc zero) = "1"
digit_text (suc (suc zero)) = "2"
digit_text (suc (suc (suc zero))) = "3"
digit_text (suc (suc (suc (suc zero)))) = "4"
digit_text (suc (suc (suc (suc (suc zero))))) = "5"
digit_text (suc (suc (suc (suc (suc (suc zero)))))) = "6"
digit_text (suc (suc (suc (suc (suc (suc (suc zero))))))) = "7"
digit_text (suc (suc (suc (suc (suc (suc (suc (suc zero)))))))) = "8"
digit_text _ = "9"

-- The number has fewer digits than the fuel, which is one more than the number.
digits_from : ℕ → ℕ → String → String
digits_from zero n tail = tail
digits_from (suc f) n tail =
    let shown = String.◌++◌ (digit_text (n % 10)) tail in
    let rest = digits_from f (n / 10) shown in if ltb n 10 then shown else rest

unfoldable pub format_nat : ℕ → String
unfolding digits_from digit_text
format_nat n = digits_from (suc n) n ""

-- `fmt.Sprintf("%d", n)`
unfoldable pub format_int : ℤ → String
unfolding format_nat
format_int (pos n) = format_nat n
format_int (negsuc n) = String.◌++◌ "-" (format_nat (suc n))

-- `int32(n)` of an `int` that is not negative.
unfoldable pub to_int32 : ℕ → ℤ
to_int32 n = let low = n % 2 ^ 32 in if ltb low (2 ^ 31) then pos low else negsuc (2 ^ 32 - low - 1)
