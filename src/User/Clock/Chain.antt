-- ===== src/User/Clock/Chain.antt =====
-- Chains of nodes in a buffer.
use burrit_osprivate.Prelude.{
  ℕ, suc, ◌+◌, ◌-◌, ◌<◌, ◌≡◌, ◌≢◌, refl, sym, ap, ap₂, ◌∙◌, List, [], ◌∷◌, ◌==◌, if◌then◌else◌,
  arith, length, get_or-set, subst, Bool-cases, ==_iff, inl, inr,
}
use burrit_osprivate.Prelude.Count.{count}
use burrit_osprivate.User.Clock.{
  DelayedTask, Buffer, node_at, put_node, set_next, set_tid, set_delay, unset,
}
use burrit_osprivate.User.Clock.Sleepers.{Sleepers}

-- From `p` the pointers lead through the nodes `ps` to the null pointer.
unfoldable pub Chain : Buffer → ℕ → List ℕ → Type 0
Chain b p [] = p ≡ 0
Chain b p (q ∷ ps) = (p ≡ q) × (q ≢ 0) × Chain b (node_at b q).next ps

pub Chain-frame :
    (b b' : Buffer) (p : ℕ) (ps : List ℕ)
    → ((i : ℕ) → i ≢ 0 → count i ps ≢ 0 → (node_at b' i).next ≡ (node_at b i).next)
    → Chain b p ps
    → Chain b' p ps
unfolding Chain
Chain-frame b b' p [] same c = c
Chain-frame b b' p (q ∷ ps) same (e, ne, c) = (
  e,
  ne,
  subst (λ (n : ℕ). Chain b' n ps) (sym (same q ne (ground arith)))
      (Chain-frame b b' (node_at b q).next ps (λ i n h. same i n (omega (arith, h))) c),
)

-- The tasks of a chain, with the ticks that come before the first.
unfoldable pub sleepers : Buffer → ℕ → List ℕ → Sleepers
sleepers b before [] = []
sleepers b before (p ∷ ps) =
    let n = node_at b p in (n.tid, before + n.delay) ∷ sleepers b (before + n.delay) ps

pub sleepers-frame :
    (b b' : Buffer) (before : ℕ) (ps : List ℕ)
    → ((i : ℕ) → count i ps ≢ 0 → (node_at b' i).tid ≡ (node_at b i).tid)
    → ((i : ℕ) → count i ps ≢ 0 → (node_at b' i).delay ≡ (node_at b i).delay)
    → sleepers b' before ps ≡ sleepers b before ps
unfolding sleepers
sleepers-frame b b' before [] tids delays = refl
sleepers-frame b b' before (p ∷ ps) tids delays =
    let one : count p (p ∷ ps) ≢ 0 = ground arith in
    let d = ap (λ (n : ℕ). before + n) (delays p one) in
    ap₂ (λ (x : ℕ × ℕ) (s : Sleepers). x ∷ s) (ap₂ (λ (t u : ℕ). (t, u)) (tids p one) d)
      (ap (λ (n : ℕ). sleepers b' n ps) d
        ∙ sleepers-frame b b' (before + (node_at b p).delay) ps (λ i h. tids i (omega (arith, h)))
            (λ i h. delays i (omega (arith, h))))

pub length-sleepers :
    (b : Buffer) (before : ℕ) (ps : List ℕ) → length (sleepers b before ps) ≡ length ps
unfolding sleepers
length-sleepers b before [] = refl
length-sleepers b before (p ∷ ps) = ap suc (length-sleepers b (before + (node_at b p).delay) ps)

pub node-put :
    (b : Buffer) (p q : ℕ) (d : DelayedTask)
    → length b ≡ 32
    → p ≢ 0
    → p < 33
    → q ≢ 0
    → node_at (put_node b p d) q ≡ (if p == q then d else node_at b q)
node-put b p q d size ne lt ne' =
    get_or-set b (p - 1) (q - 1) d unset (omega (arith, size, ne, lt))
    ∙ ap (λ c. if c then d else node_at b q) (ground arith)

-- A field after a write: the written one is new at the pointer, every other stays.
module _ (b : Buffer) (p : ℕ) (size : length b ≡ 32) (ne : p ≢ 0) (lt : p < 33) where
  field-put :
      (d : DelayedTask) (f : DelayedTask → ℕ) (q : ℕ)
      → q ≢ 0
      → f (node_at (put_node b p d) q) ≡ (if p == q then f d else f (node_at b q))
  field-put d f q ne' = elim (Bool-cases (p == q)) [
    | inl e ↦ rw e (ap f (node-put b p q d size ne lt ne' ∙ rw e refl))
    | inr e ↦ rw e (ap f (node-put b p q d size ne lt ne' ∙ rw e refl))
  ]

  field-kept :
      (d : DelayedTask) (f : DelayedTask → ℕ) (q : ℕ)
      → q ≢ 0
      → f d ≡ f (node_at b p)
      → f (node_at (put_node b p d) q) ≡ f (node_at b q)
  field-kept d f q ne' same = elim (Bool-cases (p == q)) [
    | inl e ↦ field-put d f q ne' ∙ rw e (same ∙ ap (λ i. f (node_at b i)) ((==_iff p q).0 e))
    | inr e ↦ field-put d f q ne' ∙ rw e refl
  ]

  module _ (v q : ℕ) (ne' : q ≢ 0) where
    pub next-set_next :
        (node_at (set_next b p v) q).next ≡ (if p == q then v else (node_at b q).next)
    next-set_next = field-put (record (node_at b p) { next = v }) (λ d. d.next) q ne'

    pub tid-set_next : (node_at (set_next b p v) q).tid ≡ (node_at b q).tid
    tid-set_next = field-kept (record (node_at b p) { next = v }) (λ d. d.tid) q ne' refl

    pub delay-set_next : (node_at (set_next b p v) q).delay ≡ (node_at b q).delay
    delay-set_next = field-kept (record (node_at b p) { next = v }) (λ d. d.delay) q ne' refl

    pub next-set_delay : (node_at (set_delay b p v) q).next ≡ (node_at b q).next
    next-set_delay = field-kept (record (node_at b p) { delay = v }) (λ d. d.next) q ne' refl

    pub tid-set_delay : (node_at (set_delay b p v) q).tid ≡ (node_at b q).tid
    tid-set_delay = field-kept (record (node_at b p) { delay = v }) (λ d. d.tid) q ne' refl

    pub delay-set_delay :
        (node_at (set_delay b p v) q).delay ≡ (if p == q then v else (node_at b q).delay)
    delay-set_delay = field-put (record (node_at b p) { delay = v }) (λ d. d.delay) q ne'

    pub next-set_tid : (node_at (set_tid b p v) q).next ≡ (node_at b q).next
    next-set_tid = field-kept (record (node_at b p) { tid = v }) (λ d. d.next) q ne' refl

    pub tid-set_tid : (node_at (set_tid b p v) q).tid ≡ (if p == q then v else (node_at b q).tid)
    tid-set_tid = field-put (record (node_at b p) { tid = v }) (λ d. d.tid) q ne'

    pub delay-set_tid : (node_at (set_tid b p v) q).delay ≡ (node_at b q).delay
    delay-set_tid = field-kept (record (node_at b p) { tid = v }) (λ d. d.delay) q ne' refl

-- No node of a chain is the null pointer.
pub Chain-real :
    (b : Buffer) (p : ℕ) (ps : List ℕ) → Chain b p ps → (i : ℕ) → count i ps ≢ 0 → i ≢ 0
unfolding Chain
Chain-real b p [] c i h = absurd (h refl)
Chain-real b p (q ∷ ps) (e, ne, c) i h = ground (arith, Chain-real b (node_at b q).next ps c i)
