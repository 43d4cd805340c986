-- ===== src/Kernel/Print/Decimal.antt =====
-- The decimals of kernel/print.c and those of user/services/terminal.c.
use burrit_osprivate.Prelude.{
  ℕ, zero, suc, ◌/◌, ◌^◌, ◌<◌, ◌≡◌, refl, true, false, ltb, leb, List, ◌++◌, arith,
}
use burrit_osprivate.String.{stratoui}
use burrit_osprivate.String.Number.{stops}
use burrit_osprivate.User.Format.{digits, print_decimal}
use burrit_osprivate.User.Format.Decimal.{stratoui-print_decimal}
use burrit_osprivate.Kernel.Print.{digits_u32, print_decimal_u32}

digits-u32 : (n v : ℕ) → v < 2 ^ 31 → digits_u32 n v ≡ digits n v
unfolding digits_u32 digits
digits-u32 zero v h = refl
digits-u32 (suc n) v h =
    let small : ltb v (2 ^ 31) ≡ true = ground arith in
    rw (small, digits-u32 n (v / 10) (omega arith)) refl

-- Below 2 ^ 31 printDecimal writes what _printDecimal writes.
print_decimal-u32 :
    (v width delim comma : ℕ)
    → v < 2 ^ 31
    → print_decimal_u32 v width delim comma ≡ print_decimal v width delim comma
unfolding print_decimal_u32 print_decimal
print_decimal-u32 v width delim comma h =
    let positive : leb (2 ^ 31) v ≡ false = ground arith in rw (positive, digits-u32 16 v h) refl

-- Such a number, padded with zeros and without commas, is read back by stratoui.
stratoui-print_decimal_u32 :
    (v width : ℕ) (rest : List ℕ)
    → v < 2 ^ 31
    → stops rest ≡ true
    → stratoui (print_decimal_u32 v width 48 0 ++ rest) ≡ (v, rest)
stratoui-print_decimal_u32 v width rest h end =
    rw (print_decimal-u32 v width 48 0 h) (stratoui-print_decimal v width rest h end)
