-- ===== src/User/Sensors/Wakes.antt =====
-- Which sensors wake a task.
use burrit_osprivate.Prelude.{
  ℕ, zero, suc, ◌+◌, ◌-◌, ◌*◌, ◌^◌, ◌<◌, ◌≤◌, ◌≡◌, ◌⊎◌, refl, sym, ap, subst, ◌∙◌, Bool, true, not,
  ◌&&◌, List, [], ◌∷◌, ◌++◌, append_assoc, append-nil, arith, ◌==◌, ltb, if◌then◌else◌, Bool-cases,
  inl, inr, get_or, get_or-set, set, length, length-set, ==_iff, ==-eq_false,
}
use Prim.Native.Nat.{bit_and, bit_xor}
use burrit_osprivate.Prelude.Word.{to_u8}
use burrit_osprivate.Prelude.Bits.{bit, bit-le, bit-bit_xor, bit-pow, bit_and-pow, pow_pos}
use burrit_osprivate.Kernel.Data.{MessageEnvelope}
use burrit_osprivate.User.Messages.{reply}
use burrit_osprivate.User.Sensors.{Effect, replied, Scan, no_task, wake, scan}

-- A task waits for the sensor, and it is triggered.
abbrev pub wakes : ℕ → List ℕ → ℕ → ℕ → Bool
wakes g b i c = not (get_or b (16 * i + c) no_task == no_task) && not (bit g (15 - c) == 0)

-- The tasks that the sensors from `c` on of a group wake, with what is told them.
abbrev pub woken : ℕ → MessageEnvelope → ℕ → List ℕ → ℕ → ℕ → List Effect
woken zero m g b i c = []
woken (suc k) m g b i c =
    let rest = woken k m g b i (c + 1) in
    if wakes g b i c then replied (reply (get_or b (16 * i + c) no_task) m) ∷ rest else rest

-- The table after the sensors before `c` of a group.
abbrev pub entry : ℕ → List ℕ → ℕ → ℕ → ℕ → ℕ
entry g b i c j = if ltb j c && wakes g b i j then no_task else get_or b (16 * i + j) no_task

-- The group after them.
abbrev pub left : ℕ → List ℕ → ℕ → ℕ → ℕ → ℕ
left g b i c j = if ltb j c && wakes g b i j then 0 else bit g (15 - j)

-- The loop has handled the sensors before `c` of the group `g` with the table `b`.
pub record Handled (g : ℕ) (b : List ℕ) (i c : ℕ) (s : Scan) : Type 0 where
  pub size : length s.blocked ≡ length b
  pub entries : (j : ℕ) → j < 16 → get_or s.blocked (16 * i + j) no_task ≡ entry g b i c j
  pub others :
      (id : ℕ)
      → (id < 16 * i) ⊎ (16 * i + 16 ≤ id)
      → get_or s.blocked id no_task ≡ get_or b id no_task
  pub bits : (j : ℕ) → j < 16 → bit s.group (15 - j) ≡ left g b i c j

-- A mask of one bit is 0 where the bit is.
mask : (x p : ℕ) → (bit_and x (2 ^ p) == 0) ≡ (bit x p == 0)
mask x p = elim (Bool-cases (bit x p == 0)) [
  | inl z ↦
      let zero_bit : bit x p ≡ 0 = (==_iff (bit x p) 0).0 z in
      rw z (
        (==_iff (bit_and x (2 ^ p)) 0).1
          (omega (arith, bit_and-pow p x, ap (λ (t : ℕ). t * 2 ^ p) zero_bit)))
  | inr nz ↦
      let one_bit : bit x p ≡ 1 = ground (arith, nz, bit-le x p) in
      let masked = bit_and-pow p x ∙ ap (λ (t : ℕ). t * 2 ^ p) one_bit in
      rw nz (==-eq_false (bit_and x (2 ^ p)) 0 (λ e. omega (arith, e, masked, pow_pos p)))
]

module _ (g : ℕ) (b : List ℕ) (i : ℕ) (group : i < 5) (size : length b ≡ 80) where
  module _ (c : ℕ) (s : Scan) (low : c < 16) (h : Handled g b i c s) where
    same_id : to_u8 (16 * i + c) ≡ 16 * i + c
    same_id = omega (arith, group, low)

    test :
        (not (get_or s.blocked (to_u8 (16 * i + c)) no_task == no_task)
          && not (bit_and s.group (2 ^ (15 - c)) == 0))
        ≡ wakes g b i c
    test = rw (same_id, mask s.group (15 - c)) (ground (arith, h.entries c low, h.bits c low))

    wake_entry :
        wakes g b i c ≡ true
        → (j : ℕ) → j < 16
        → get_or (set s.blocked (16 * i + c) no_task) (16 * i + j) no_task ≡ entry g b i (c + 1) j
    wake_entry w j lt = ground (
      arith,
      h.entries j lt,
      get_or-set s.blocked (16 * i + c) (16 * i + j) no_task no_task
          (omega (arith, h.size, size, group, low)),
      w,
    )

    wake_bit :
        wakes g b i c ≡ true
        → (j : ℕ) → j < 16
        → bit (bit_xor s.group (2 ^ (15 - c))) (15 - j) ≡ left g b i (c + 1) j
    wake_bit w j lt = ground (
      arith,
      h.bits j lt,
      bit-le s.group (15 - j),
      bit-bit_xor s.group (2 ^ (15 - c)) (15 - j),
      bit-pow (15 - c) (15 - j),
      bit-le g (15 - j),
      w,
    )

    wake-Handled :
        (m : MessageEnvelope)
        → (record s.message { type = 192 }) ≡ m
        → Handled g b i (c + 1) (wake i c s)
          × ((record (wake i c s).message { type = 192 }) ≡ m)
          × ((wake i c s).out ≡ s.out ++ woken 1 m g b i c)
    unfolding wake
    wake-Handled m e = elim (Bool-cases (wakes g b i c)) [
      | inl w ↦
          rw (test, w, same_id)
            (
              record {
                size = length-set s.blocked (16 * i + c) no_task ∙ h.size;
                entries = wake_entry w;
                others = λ id lt. ground (
                  arith,
                  h.others id lt,
                  get_or-set s.blocked (16 * i + c) id no_task no_task
                      (omega (arith, h.size, size, group, low)),
                );
                bits = wake_bit w;
              },
              e,
              rw (h.entries c low) (ground (arith, w, e)),
            )
      | inr n ↦
          rw (test, n)
            (
              record {
                size = h.size;
                entries = λ j lt. ground (arith, h.entries j lt, n);
                others = h.others;
                bits = λ j lt. ground (arith, h.bits j lt, n);
              },
              e,
              sym (append-nil s.out),
            )
    ]

  woken-cons :
      (k : ℕ) (m : MessageEnvelope) (c : ℕ)
      → woken 1 m g b i c ++ woken k m g b i (c + 1) ≡ woken (suc k) m g b i c
  woken-cons k m c = elim (Bool-cases (wakes g b i c)) [ inl w ↦ rw w refl | inr n ↦ rw n refl ]

  scan-Handled :
      (k c : ℕ) (s : Scan) (m : MessageEnvelope)
      → c + k ≡ 16
      → Handled g b i c s
      → (record s.message { type = 192 }) ≡ m
      → Handled g b i 16 (scan k i c s) × ((scan k i c s).out ≡ s.out ++ woken k m g b i c)
  unfolding scan
  scan-Handled zero c s m e h told =
      let all : c ≡ 16 = omega (arith, e) in
      (subst (λ n. Handled g b i n s) all h, sym (append-nil s.out))
  scan-Handled (suc k) c s m e h told =
      let (h', told', first) = wake-Handled c s (omega (arith, e)) h m told in
      let (h'', rest) = scan-Handled k (c + 1) (wake i c s) m (omega (arith, e)) h' told' in
      (
        h'',
        rest
            ∙ ap (λ (o : List Effect). o ++ woken k m g b i (c + 1)) first
            ∙ append_assoc s.out (woken 1 m g b i c) (woken k m g b i (c + 1))
            ∙ ap (λ (o : List Effect). s.out ++ o) (woken-cons k m c),
      )

-- The loop over the 16 sensors of a group, with the word of those that are triggered, sends, after
-- what was sent before, a reply to each task that waits for a triggered sensor of the group, in the
-- order of the sensors, and nothing else. In the table, these sensors have no task then, and all
-- other entries are as they were; of the word, those bits are left that are set and whose sensor no
-- task waited for.
pub scan-woken :
    (g : ℕ) (b : List ℕ) (i : ℕ) (m : MessageEnvelope) (out : List Effect)
    → i < 5
    → length b ≡ 80
    → (s : Scan) × (scan 16 i 0 (record { group = g; message = m; blocked = b; out = out }) ≡ s)
      × Handled g b i 16 s
      × (s.out ≡ out ++ woken 16 (record m { type = 192 }) g b i 0)
scan-woken g b i m out group size =
    let start : Scan = record { group = g; message = m; blocked = b; out = out } in
    let (h, sent) =
      scan-Handled g b i group size 16 0 start (record m { type = 192 }) refl
        (record {
          size = refl;
          entries = λ j lt. ground arith;
          others = λ id lt. refl;
          bits = λ j lt. ground arith;
        })
        refl in
    (scan 16 i 0 start, refl, h, sent)
