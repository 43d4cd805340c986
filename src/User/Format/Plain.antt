-- ===== src/User/Format/Plain.antt =====
-- What `vsprintf` of user/services/terminal.c makes of a format.
use burrit_osprivate.Prelude.{
  ℕ, ◌≤◌, ◌≡◌, ◌≢◌, refl, sym, ap, ◌∙◌, true, List, [], ◌∷◌, ◌++◌, append-nil, leb, length, arith,
  ==-eq_false,
}
use burrit_osprivate.Prelude.Outcome.{done}
use burrit_osprivate.User.Format.{Arg, State, plain, write, vsprintf}

-- No character of a text is '%'.
abbrev pub Literal : List ℕ → Type 0
Literal [] = Unit
Literal (c ∷ s) = (c ≢ 37) × Literal s

write-append :
    (s fmt : List ℕ) (args : List Arg) {out : List ℕ} {state : State}
    → Literal s
    → write fmt plain args ≡ done (out, state)
    → write (s ++ fmt) plain args ≡ done (s ++ out, state)
unfolding write
write-append [] fmt args l e = e
write-append (c ∷ s) fmt args (ne, l) e = rw (==-eq_false c 37 ne, write-append s fmt args l e) refl

-- `vsprintf` copies a text without '%' that has at most 512 characters.
vsprintf-Literal :
    (s : List ℕ) (args : List Arg) → Literal s → length s ≤ 512 → vsprintf s args ≡ done s
unfolding vsprintf write
vsprintf-Literal s args l short =
    let fits : leb (length s) 512 ≡ true = ground arith in
    let written =
      ap (λ (f : List ℕ). write f plain args) (sym (append-nil s))
      ∙ write-append s [] args l refl
      ∙ ap (λ (o : List ℕ). done (o, plain)) (append-nil s) in
    rw (fits, written, fits) refl
