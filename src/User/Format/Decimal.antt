-- ===== src/User/Format/Decimal.antt =====
-- The decimals that user/services/terminal.c writes, and those that common/string.c reads.
use burrit_osprivate.Prelude.{
  ℕ, zero, suc, ◌+◌, ◌-◌, ◌/◌, ◌%◌, ◌^◌, ◌<◌, ◌≡◌, refl, sym, ap, ap₂, ◌∙◌, Bool, true, false, not,
  ◌&&◌, List, [], ◌∷◌, ◌++◌, append_assoc, ◌==◌, ltb, leb, if◌then◌else◌, get_or, length, replicate,
  arith, Bool-cases, inl, inr,
}
use burrit_osprivate.String.{isdigit, stratoui, stratoui_loop}
use burrit_osprivate.String.Number.{decimal, stops, loop-decimal, loop-stops}
use burrit_osprivate.User.Format.{x2c, rem_10, div_10, digits, emit, print_decimal}

-- A list backwards, before another.
abbrev rev_onto : List ℕ → List ℕ → List ℕ
rev_onto [] s = s
rev_onto (x ∷ b) s = rev_onto b (x ∷ s)

digits-decimal : (n v : ℕ) (s : List ℕ) → v < 2 ^ 31 → rev_onto (digits n v) s ≡ decimal n v s
unfolding digits decimal
digits-decimal zero v s small = refl
digits-decimal (suc n) v s small =
    let tenth : div_10 v ≡ v / 10 = ground arith in
    let digit : x2c (rem_10 v) ≡ v % 10 + 48 = ground arith in
    elim (Bool-cases (ltb v 10)) [
      | inl one ↦
          let none : (div_10 v == 0) ≡ true = ground (arith, tenth, one) in
          let same : x2c (rem_10 v) ≡ v + 48 = ground (arith, digit, one) in
          rw (none, one) (ap (λ (d : ℕ). d ∷ s) same)
      | inr many ↦
          let more : (div_10 v == 0) ≡ false = ground (arith, tenth, many) in
          rw (more, many)
            (digits-decimal n (div_10 v) (x2c (rem_10 v) ∷ s) (omega (arith, tenth))
              ∙ ap₂ (λ (t d : ℕ). decimal n t (d ∷ s)) tenth digit)
    ]

no_group : (p q : Bool) → (p && q && false) ≡ false
no_group true true = refl
no_group true false = refl
no_group false true = refl
no_group false false = refl

-- Without commas the digits leave last first.
emit-suc : (k : ℕ) (b : List ℕ) → emit (suc k) b 0 ≡ get_or b k 0 ∷ emit k b 0
unfolding emit
emit-suc k b =
    ap (λ (g : Bool). get_or b k 0 ∷ (if g then 44 ∷ emit k b 0 else emit k b 0))
      (no_group (not (k == 0)) (k % 3 == 0))

emit-cons : (k x : ℕ) (b : List ℕ) → emit (suc k) (x ∷ b) 0 ≡ emit k b 0 ++ (x ∷ [])
unfolding emit
emit-cons zero x b = refl
emit-cons (suc k) x b =
    emit-suc (suc k) (x ∷ b)
    ∙ ap (λ (l : List ℕ). get_or b k 0 ∷ l) (emit-cons k x b)
    ∙ ap (λ (l : List ℕ). l ++ (x ∷ [])) (sym (emit-suc k b))

emit-rev_onto : (b s : List ℕ) → emit (length b) b 0 ++ s ≡ rev_onto b s
unfolding emit
emit-rev_onto [] s = refl
emit-rev_onto (x ∷ b) s =
    ap (λ (l : List ℕ). l ++ s) (emit-cons (length b) x b)
    ∙ append_assoc (emit (length b) b 0) (x ∷ []) s
    ∙ emit-rev_onto b (x ∷ s)

-- Zeros in front.
read-replicate : (k : ℕ) (s : List ℕ) → stratoui_loop (replicate k 48 ++ s) 0 ≡ stratoui_loop s 0
unfolding stratoui_loop isdigit
read-replicate zero s = refl
read-replicate (suc k) s = read-replicate k s

-- `stratoui` reads what `_printDecimal` writes for a number that is not negative, with any width,
-- padded with zeros and without commas, as that number, and stops after it.
pub stratoui-print_decimal :
    (v width : ℕ) (s : List ℕ)
    → v < 2 ^ 31
    → stops s ≡ true
    → stratoui (print_decimal v width 48 0 ++ s) ≡ (v, s)
unfolding print_decimal stratoui
stratoui-print_decimal v width s small end =
    let positive : leb (2 ^ 31) v ≡ false = ground arith in
    let b = digits 16 v in
    let pad : List ℕ = replicate (width - (length b + (length b - 1) / 3)) 48 in
    let below : v < 10 ^ 16 = omega (arith, small) in
    let word : v < 2 ^ 32 = omega (arith, small) in
    let joined : emit (length b) b 0 ++ s ≡ decimal 16 v s =
      emit-rev_onto b s ∙ digits-decimal 16 v s small in
    rw positive (
      ap (λ (l : List ℕ). stratoui_loop l 0) (append_assoc pad (emit (length b) b 0) s)
      ∙ read-replicate (width - (length b + (length b - 1) / 3)) (emit (length b) b 0 ++ s)
      ∙ ap (λ (l : List ℕ). stratoui_loop l 0) joined
      ∙ loop-decimal 15 v s below word
      ∙ loop-stops s v end)
