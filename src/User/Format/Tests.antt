-- ===== src/User/Format/Tests.antt =====
-- Formatted text.
use burrit_osprivate.Prelude.{◌≡◌, refl, [], ◌∷◌, ◌++◌, arith, true}
use burrit_osprivate.Prelude.Outcome.{done}
use burrit_osprivate.String.{stratoui}
use burrit_osprivate.String.Number.{stops}
use burrit_osprivate.User.Format.{
  number, text, digits, emit, print_decimal, print_hex, print_string, convert, write, vsprintf,
}
use burrit_osprivate.User.Format.Decimal.{stratoui-print_decimal}

-- -1234567 with commas in a width of 10
grouped :
    print_decimal 4293732729 10 32 1 ≡ 45 ∷ 32 ∷ 49 ∷ 44 ∷ 50 ∷ 51 ∷ 52 ∷ 44 ∷ 53 ∷ 54 ∷ 55 ∷ []
unfolding print_decimal digits emit
grouped = refl

-- 0xbeef
hexadecimal : print_hex 48879 ≡ 48 ∷ 120 ∷ 48 ∷ 48 ∷ 48 ∷ 48 ∷ 98 ∷ 101 ∷ 101 ∷ 102 ∷ []
unfolding print_hex
hexadecimal = refl

-- "%2d%s" of 7 and "ab": a string without a width is not written.
converted :
    vsprintf (37 ∷ 50 ∷ 100 ∷ 37 ∷ 115 ∷ []) (number 7 ∷ text (97 ∷ 98 ∷ []) ∷ [])
    ≡ done (48 ∷ 55 ∷ [])
unfolding vsprintf write convert print_decimal digits emit print_string
converted = refl

end_stops : stops [] ≡ true
unfolding stops
end_stops = refl

stratoui-print_decimal_example :
    stratoui (print_decimal 2147483647 12 48 0 ++ []) ≡ (2147483647, [])
stratoui-print_decimal_example = stratoui-print_decimal 2147483647 12 [] (omega arith) end_stops

-- "Hi"
copied : vsprintf (72 ∷ 105 ∷ []) (number 3 ∷ []) ≡ done (72 ∷ 105 ∷ [])
unfolding vsprintf write
copied = refl
