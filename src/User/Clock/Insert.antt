-- ===== src/User/Clock/Insert.antt =====
-- One node more in a chain, in the place that `delayQueuePush` looks for.
use burrit_osprivate.Prelude.{
  ℕ, suc, ◌+◌, ◌-◌, ◌^◌, ◌≤◌, ◌<◌, ◌≡◌, ◌≢◌, refl, sym, ap, ap₂, ◌∙◌, subst, true, false, List, [],
  ◌∷◌, ltb, arith, length, ==_iff,
}
use burrit_osprivate.Prelude.Count.{count}
use burrit_osprivate.User.Clock.{Buffer, node_at}
use burrit_osprivate.User.Clock.Chain.{Chain, Chain-frame, sleepers, sleepers-frame}
use burrit_osprivate.User.Clock.Link.{Linked}
use burrit_osprivate.User.Clock.Sleepers.{Sleepers, put}

-- A chain that `delayQueuePush` can work on, which `node` is not part of.
pub record Apart (b : Buffer) (node : ℕ) (ps : List ℕ) : Type 0 where
  pub once : (i : ℕ) → count i ps ≤ 1
  pub inside : (i : ℕ) → count i ps ≢ 0 → i < 33
  pub small : (i : ℕ) → count i ps ≢ 0 → (node_at b i).delay < 2 ^ 31
  pub absent : count node ps ≡ 0

-- `b'` has `node` among the nodes `ps` that follow `previous`, and the new chain starts at `first`.
pub record Inserted (b b' : Buffer) (node previous first before ticks : ℕ) (ps ps' : List ℕ)
    : Type 0 where
  pub size : length b' ≡ 32
  pub chain : Chain b' first ps'
  pub asleep : sleepers b' before ps' ≡ put (node_at b node).tid ticks (sleepers b before ps)
  pub counts : (i : ℕ) → count i ps' ≡ count i (node ∷ ps)
  pub one_more : length ps' ≡ suc (length ps)
  pub small : (i : ℕ) → count i ps' ≢ 0 → (node_at b' i).delay < 2 ^ 31
  pub tid : (i : ℕ) → i ≢ 0 → (node_at b' i).tid ≡ (node_at b i).tid
  pub next :
      (i : ℕ)
      → i ≢ 0
      → i ≢ previous
      → count i (node ∷ ps) ≡ 0
      → (node_at b' i).next ≡ (node_at b i).next
  pub delay : (i : ℕ) → i ≢ 0 → count i (node ∷ ps) ≡ 0 → (node_at b' i).delay ≡ (node_at b i).delay

cells :
    {t t' u u' x x' y y' : ℕ} {s s' : Sleepers}
    → t ≡ t'
    → u ≡ u'
    → x ≡ x'
    → y ≡ y'
    → s ≡ s'
    → ◌≡◌ {A = Sleepers} ((t, u) ∷ (x, y) ∷ s) ((t', u') ∷ (x', y') ∷ s')
cells e₁ e₂ e₃ e₄ e = cc

module _ {b b' : Buffer} {node previous delay : ℕ} (before : ℕ) (ne : node ≢ 0)
    (bound : delay < 2 ^ 31) where
  pub last-Inserted :
      Linked b b' node previous 0 delay
      → Inserted b b' node previous node before (before + delay) [] (node ∷ [])
  unfolding sleepers Chain
  last-Inserted l = record {
    size = l.size;
    chain = (refl, ne, l.next node ne ∙ rw ((==_iff node node).1 refl) refl);
    asleep =
        ap₂ (λ (t d : ℕ). (t, before + d) ∷ []) (l.tid node ne)
          (l.delay node ne ∙ rw ((==_iff node node).1 refl) refl);
    counts = λ i. refl;
    one_more = refl;
    small = λ i h. let e : node ≡ i = ground arith in ground (arith, l.delay i (λ z. ne (e ∙ z)));
    tid = l.tid;
    next = λ i h h' c. ground (arith, l.next i h);
    delay = λ i h c. ground (arith, l.delay i h);
  }

  -- Before the node `q`, which waits at least as long.
  pub here-Inserted :
      (q : ℕ) (ps : List ℕ)
      → q ≢ 0
      → Apart b node (q ∷ ps)
      → count previous (q ∷ ps) ≡ 0
      → Chain b (node_at b q).next ps
      → ltb (node_at b q).delay delay ≡ false
      → ((i : ℕ) → count i ps ≢ 0 → i ≢ 0)
      → Linked b b' node previous q delay
      → Inserted b b' node previous node before (before + delay) (q ∷ ps) (node ∷ q ∷ ps)
  unfolding sleepers Chain
  here-Inserted q ps qne a away c le real l =
      let keep : (i : ℕ) → count i ps ≢ 0 → (node_at b' i).delay ≡ (node_at b i).delay =
        λ i h. ground (arith, l.delay i (real i h), a.once i, a.absent) in
      let at_node : (node_at b' node).delay ≡ delay =
        l.delay node ne ∙ rw ((==_iff node node).1 refl) refl in
      let at_q : (node_at b' q).delay ≡ (node_at b q).delay - delay =
        ground (arith, l.delay q qne, a.small q, a.absent) in
      let at_q_next : (node_at b' q).next ≡ (node_at b q).next =
        ground (arith, l.next q qne, a.absent, away) in
      let sum' : before + (node_at b' node).delay + (node_at b' q).delay
          ≡ before + (node_at b q).delay =
        ground (arith, at_q, at_node) in
      let later : ltb (before + (node_at b q).delay) (before + delay) ≡ false = ground arith in
      record {
        size = l.size;
        chain = (
          refl,
          ne,
          (
            l.next node ne ∙ rw ((==_iff node node).1 refl) refl,
            qne,
            subst (λ n. Chain b' n ps) (sym at_q_next)
                (Chain-frame b b' _ ps
                  (λ i h h'. ground (arith, l.next i h, a.absent, a.once i, away)) c),
          ),
        );
        asleep = rw (later) (
            cells (l.tid node ne) (ap (λ d. before + d) at_node) (l.tid q qne) sum' (
              ap (λ t. sleepers b' t ps) sum'
              ∙ sleepers-frame b b' _ ps (λ i h. l.tid i (real i h)) keep));
        counts = λ i. refl;
        one_more = refl;
        small = λ i h. ground (arith, at_node, at_q, keep i, a.small i, a.small q);
        tid = l.tid;
        next = λ i h h' c. ground (arith, l.next i h);
        delay = λ i h c. ground (arith, l.delay i h);
      }

  -- After the node `q`, which wakes earlier.
  pub step-Inserted :
      (q : ℕ) (ps : List ℕ) {ps' : List ℕ}
      → q ≢ 0
      → Apart b node (q ∷ ps)
      → (node_at b q).delay < delay
      → Inserted b b' node q
          (node_at b' q).next
          (before + (node_at b q).delay)
          (before + delay)
          ps
          ps'
      → Inserted b b' node previous q before (before + delay) (q ∷ ps) (q ∷ ps')
  unfolding sleepers Chain
  step-Inserted q ps {ps'} qne a lt r =
      let at_q : (node_at b' q).delay ≡ (node_at b q).delay =
        r.delay q qne (ground (arith, a.absent, a.once q)) in
      let earlier : ltb (before + (node_at b q).delay) (before + delay) ≡ true = ground arith in
      record {
        size = r.size;
        chain = (refl, qne, r.chain);
        asleep = rw earlier (
            ap₂ (λ (x : ℕ × ℕ) (s : Sleepers). x ∷ s)
              (ap₂ (λ (t d : ℕ). (t, before + d)) (r.tid q qne) at_q)
              (ap (λ d. sleepers b' (before + d) ps') at_q ∙ r.asleep));
        counts = λ i. omega (arith, r.counts i);
        one_more = ap suc r.one_more;
        small = λ i h. ground (arith, r.small i, at_q, a.small q);
        tid = r.tid;
        next = λ i h h' c. ground (arith, r.next i h);
        delay = λ i h c. ground (arith, r.delay i h);
      }

pub tail-Apart : {b : Buffer} {node q : ℕ} {ps : List ℕ} → Apart b node (q ∷ ps) → Apart b node ps
tail-Apart a = record {
  once = λ i. omega (arith, a.once i);
  inside = λ i h. a.inside i (omega (arith, h));
  small = λ i h. a.small i (omega (arith, h));
  absent = omega (arith, a.absent);
}
