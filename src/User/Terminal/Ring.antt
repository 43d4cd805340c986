-- ===== src/User/Terminal/Ring.antt =====
-- The ring of `TerminalDriver`: what a string adds to it, and what leaves it.
use burrit_osprivate.Prelude.{
  ℕ, suc, ◌+◌, ◌%◌, ◌<◌, ◌≡◌, refl, sym, ap, ap₂, ◌∙◌, List, [], ◌∷◌, ◌++◌, append-nil,
  append_assoc, arith, length, length-set, set,
}
use burrit_osprivate.Prelude.Word.{to_u8, to_u16}
use burrit_osprivate.Prelude.Bits.{bit_and-mask}
use burrit_osprivate.Prelude.Window.{window, window-push}
use burrit_osprivate.User.Terminal.{advance, copy}

-- The bytes that lie in the ring.
abbrev pub held : List ℕ → ℕ → ℕ → List ℕ
held buf head n = window 0 4096 buf head n

-- The characters of a string as bytes.
abbrev pub bytes : List ℕ → List ℕ
bytes [] = []
bytes (c ∷ s) = to_u8 c ∷ bytes s

pub bytes-append : (s t : List ℕ) → bytes (s ++ t) ≡ bytes s ++ bytes t
bytes-append [] t = refl
bytes-append (c ∷ s) t = ap (λ (l : List ℕ). to_u8 c ∷ l) (bytes-append s t)

pub bytes-bytes : (s : List ℕ) → bytes (bytes s) ≡ bytes s
bytes-bytes [] = refl
bytes-bytes (c ∷ s) = ap₂ (λ (b : ℕ) (l : List ℕ). b ∷ l) (omega arith) (bytes-bytes s)

pub advance-eq : (i : ℕ) → i < 4096 → advance i ≡ (i + 1) % 4096
advance-eq i lt = bit_and-mask 12 (to_u16 (i + 1)) ∙ omega arith

-- What `copy` leaves.
pub record Copied (s buf : List ℕ) (head tail n : ℕ) (out : List ℕ × ℕ) : Type 0 where
  pub size : length out.0 ≡ 4096
  pub held_now : held out.0 head (n + length s) ≡ held buf head n ++ bytes s
  pub tail_at : out.1 ≡ (head + (n + length s)) % 4096

pub copy-Copied :
    (s buf : List ℕ) (head tail n : ℕ)
    → length buf ≡ 4096
    → head < 4096
    → n + length s < 4096
    → tail ≡ (head + n) % 4096
    → Copied s buf head tail n (copy s buf tail)
unfolding copy
copy-Copied [] buf head tail n size lt room at = record {
  size = size;
  held_now =
      ap (held buf head) {x = n + 0} {y = n} (omega arith) ∙ sym (append-nil (held buf head n));
  tail_at = omega (arith, at);
}
copy-Copied (c ∷ s) buf head tail n size lt room at =
    let pushed : held (set buf tail (to_u8 c)) head (n + 1) ≡ held buf head n ++ (to_u8 c ∷ []) =
      ap (λ i. held (set buf i (to_u8 c)) head (n + 1)) {x = tail} {y = 0 + (head + n) % 4096}
        (omega (arith, at))
      ∙ window-push 0 4096 buf (to_u8 c) head n (omega (arith, size)) lt (omega (arith, room)) in
    let r =
      copy-Copied s (set buf tail (to_u8 c)) head (advance tail) (n + 1)
        (length-set buf tail (to_u8 c) ∙ size) lt (omega (arith, room))
        (advance-eq tail (omega (arith, at)) ∙ omega (arith, at)) in
    record {
      size = r.size;
      held_now =
          ap (held (copy (c ∷ s) buf tail).0 head) {x = n + suc (length s)} {y = n + 1 + length s}
            (omega arith)
          ∙ r.held_now
          ∙ ap (λ (l : List ℕ). l ++ bytes s) pushed
          ∙ append_assoc (held buf head n) (to_u8 c ∷ []) (bytes s);
      tail_at =
          r.tail_at
          ∙ ap (λ k. k % 4096) {x = head + (n + 1 + length s)} {y = head + (n + suc (length s))}
              (omega arith);
    }
