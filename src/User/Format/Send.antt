-- ===== src/User/Format/Send.antt =====
-- `tprintf` of user/services/terminal.c, whose loop is that of `vsprintf`, and the strings that it
-- sends to the terminal driver (user/servers/TerminalDriver.c).
use burrit_osprivate.Prelude.{ℕ, ◌≤◌, ◌≡◌, ◌≢◌, ap, List, [], leb, length, arith}
use burrit_osprivate.Prelude.Outcome.{Outcome, done, ◌>>=◌, assert->>, >>=-eq_done, done-injective}
use burrit_osprivate.User.Format.{Arg, plain, is_plain, write, vsprintf}
use burrit_osprivate.User.Terminal.{Mail}
use burrit_osprivate.User.Terminal.Step.{Proper}

-- `putStr`: the message, of type MESSAGE_IO_PUTSTR (18). `body` is what the envelope holds before.
unfoldable pub put_str : ℕ → List ℕ → Mail
put_str body str = record { type = 18; body = body; text = str }

unfoldable pub tprintf : ℕ → List ℕ → List Arg → Outcome Mail
tprintf body fmt args = vsprintf fmt args >>= λ out. done (put_str body out)

vsprintf-short :
    (fmt : List ℕ) (args : List Arg) {out : List ℕ}
    → vsprintf fmt args ≡ done out
    → length out ≤ 512
unfolding vsprintf
vsprintf-short fmt args e =
    let (_, e₁) = assert->> (leb (length fmt) 512) _ e in
    let ((o, state), _, e₂) = >>=-eq_done (write fmt plain args) _ e₁ in
    let (fits, e₃) = assert->> (leb (length o) 512) _ e₂ in
    let (_, e₄) = assert->> (is_plain state) _ e₃ in
    let same = ap (λ (l : List ℕ). length l) (done-injective e₄) in ground (arith, fits, same)

-- What `tprintf` sends, if it writes any character, is a message as the terminal driver is to get
-- them, from a task that is not the output notifier.
pub tprintf-Proper :
    (body : ℕ) (fmt : List ℕ) (args : List Arg) (sender output_id : ℕ) {m : Mail}
    → sender ≢ output_id
    → tprintf body fmt args ≡ done m
    → m.text ≢ []
    → Proper output_id (record { sender = sender; mail = m })
unfolding tprintf put_str
tprintf-Proper body fmt args sender output_id {m} other e some =
    let (out, e₁, e₂) = >>=-eq_done (vsprintf fmt args) _ e in
    let sent = done-injective e₂ in
    let kind : 18 ≡ m.type = ap (λ (m : Mail). m.type) sent in
    let size : length out ≡ length m.text = ap (λ (m : Mail). length m.text) sent in
    record {
      text = λ h. some;
      short = omega (arith, vsprintf-short fmt args e₁, size);
      asks = λ h. absurd (other h);
      notifier = λ h. absurd (omega (arith, kind, h));
    }
