-- ===== src/User/Clock/Place.antt =====
-- The loop of `delayQueuePush` and what follows it, from a node on that is not the first.
use burrit_osprivate.Prelude.{
  ℕ, zero, suc, ◌+◌, ◌-◌, ◌^◌, ◌<◌, ◌≡◌, ◌≢◌, refl, sym, ap, ◌∙◌, subst, true, false, List, [], ◌∷◌,
  ◌==◌, ltb, arith, length, ==-eq_false, ==_iff, Bool-cases, inl, inr, ltb→lt,
}
use burrit_osprivate.Prelude.Count.{count}
use burrit_osprivate.Prelude.Outcome.{done}
use burrit_osprivate.User.Clock.{Buffer, node_at, fuel, find, link}
use burrit_osprivate.User.Clock.Chain.{Chain, Chain-real}
use burrit_osprivate.User.Clock.Link.{link-head, link-last, link-inner}
use burrit_osprivate.User.Clock.Insert.{
  Apart, Inserted, last-Inserted, here-Inserted, step-Inserted, tail-Apart,
}

module _ (n : ℕ) (b : Buffer) (previous current delay : ℕ) where
  pub find-stop :
      ltb (node_at b current).delay delay ≡ false
      → find (suc n) b previous current delay ≡ done (previous, current, delay)
  unfolding find
  find-stop stop = elim (Bool-cases (current == 0)) [
    | inl z ↦ rw z refl
    | inr z ↦ rw (z, stop) refl
  ]

  pub find-null :
      current ≡ 0 → find (suc n) b previous current delay ≡ done (previous, current, delay)
  unfolding find
  find-null z = rw ((==_iff current 0).1 z) refl

  pub find-step :
      delay < 2 ^ 32
      → current ≢ 0
      → ltb (node_at b current).delay delay ≡ true
      → find (suc n) b previous current delay
        ≡ find n b current (node_at b current).next (delay - (node_at b current).delay)
  unfolding find
  find-step bound ne go =
      rw (==-eq_false current 0 ne, go)
        (ap (find n b current (node_at b current).next) (ground (arith, ltb→lt _ _ go)))

-- The loop ends, and what follows puts the node among `ps`.
unfoldable pub Placed : ℕ → Buffer → ℕ → ℕ → ℕ → ℕ → ℕ → ℕ → List ℕ → Type 0
Placed n b queue node previous current before delay ps =
    (p : ℕ) × (c : ℕ) × (l : ℕ) × (find n b previous current delay ≡ done (p, c, l))
    × ((link b queue node p c l).1 ≡ queue)
    × (ps' : List ℕ) × Inserted b (link b queue node p c l).0 node previous
        (node_at (link b queue node p c l).0 previous).next before (before + delay) ps ps'

module _ (b : Buffer) (queue node : ℕ) (size : length b ≡ 32) (ne : node ≢ 0) (lt : node < 33)
    (null : (node_at b node).next ≡ 0) where
  pub place :
      (n previous current before delay : ℕ) (ps : List ℕ)
      → Apart b node ps
      → previous ≢ 0
      → previous < 33
      → node ≢ previous
      → count previous ps ≡ 0
      → (node_at b previous).next ≡ current
      → delay < 2 ^ 31
      → Chain b current ps
      → length ps < n
      → Placed n b queue node previous current before delay ps
  unfolding Placed Chain
  place zero previous current before delay ps a pne plt apart away now bound c fuel =
      absurd (omega arith)
  place (suc n) previous current before delay [] a pne plt apart away now bound c fuel =
      let (l, e) = link-last b queue node previous 0 delay size ne lt pne plt apart refl null in
      let first : (node_at (link b queue node previous 0 delay).0 previous).next ≡ node =
        l.next previous pne ∙ ground arith in
      subst (λ cur. Placed (suc n) b queue node previous cur before delay []) (sym c)
        (
          previous,
          0,
          delay,
          find-null n b previous 0 delay refl,
          e,
          node ∷ [],
          subst
              (λ f.
                Inserted b (link b queue node previous 0 delay).0 node previous f before
                  (before + delay) [] (node ∷ []))
              (sym first) (last-Inserted before ne bound l),
        )
  place (suc n) previous current before delay (q ∷ ps) a pne plt apart away now bound (e, qne, c)
        fuel =
      subst (λ cur. Placed (suc n) b queue node previous cur before delay (q ∷ ps)) (sym e)
        (elim (Bool-cases (ltb (node_at b q).delay delay)) [
          | inl go ↦
              let left = delay - (node_at b q).delay in
              let (p, c', l, found, kept, ps', r) =
                place n q (node_at b q).next (before + (node_at b q).delay) left ps (tail-Apart a)
                  qne (a.inside q (ground arith)) (ground (arith, a.absent))
                  (ground (arith, a.once q)) refl (ground arith) c (omega (arith, fuel)) in
              let total : before + (node_at b q).delay + left ≡ before + delay =
                ground (arith, ltb→lt _ _ go) in
              let first : (node_at (link b queue node p c' l).0 previous).next ≡ q =
                r.next previous pne (ground (arith, away)) (ground (arith, away)) ∙ now ∙ e in
              (
                p,
                c',
                l,
                find-step n b previous q delay (omega (arith, bound)) qne go ∙ found,
                kept,
                q ∷ ps',
                subst
                    (λ f.
                      Inserted b (link b queue node p c' l).0 node previous f before
                        (before + delay) (q ∷ ps) (q ∷ ps'))
                    (sym first)
                    (step-Inserted before ne bound q ps qne a (ltb→lt _ _ go) (
                      subst
                        (λ t.
                          Inserted b (link b queue node p c' l).0 node q
                            (node_at (link b queue node p c' l).0 q).next
                            (before + (node_at b q).delay) t ps ps')
                        total r)),
              )
          | inr stop ↦
              let (l, e') =
                link-inner b queue node previous q delay size ne lt pne plt apart qne
                  (a.inside q (ground arith)) (ground (arith, a.absent)) in
              let first : (node_at (link b queue node previous q delay).0 previous).next ≡ node =
                ground (arith, l.next previous pne) in
              (
                previous,
                q,
                delay,
                find-stop n b previous q delay stop,
                e',
                node ∷ q ∷ ps,
                subst
                    (λ f.
                      Inserted b (link b queue node previous q delay).0 node previous f before
                        (before + delay) (q ∷ ps) (node ∷ q ∷ ps))
                    (sym first)
                    (here-Inserted before ne bound q ps qne a away c stop (Chain-real b _ ps c) l),
              )
        ])

-- The whole loop, on a chain that is not empty, and what follows it.
module _ (b : Buffer) (node : ℕ) (size : length b ≡ 32) (ne : node ≢ 0) (lt : node < 33)
    (null : (node_at b node).next ≡ 0) where
  unfoldable pub HeadPlaced : ℕ → ℕ → List ℕ → Type 0
  HeadPlaced queue delay ps =
      (p : ℕ) × (c : ℕ) × (l : ℕ) × (find fuel b 0 queue delay ≡ done (p, c, l))
      × (ps' : List ℕ) × Inserted b (link b queue node p c l).0 node 0 (link b queue node p c l).1 0
          (0 + delay) ps ps'

  pub place_head :
      (q delay : ℕ) (ps : List ℕ)
      → Apart b node (q ∷ ps)
      → delay < 2 ^ 31
      → q ≢ 0
      → Chain b (node_at b q).next ps
      → length ps < 33
      → HeadPlaced q delay (q ∷ ps)
  unfolding HeadPlaced Placed
  place_head q delay ps a bound qne c few = elim (Bool-cases (ltb (node_at b q).delay delay)) [
    | inl go ↦
        let left = delay - (node_at b q).delay in
        let (p, c', l, found, kept, ps', r) =
          place b q node size ne lt null 33 q (node_at b q).next (0 + (node_at b q).delay) left ps
            (tail-Apart a) qne (a.inside q (ground arith)) (ground (arith, a.absent))
            (ground (arith, a.once q)) refl (ground arith) c few in
        let total : 0 + (node_at b q).delay + left ≡ 0 + delay = ground (arith, ltb→lt _ _ go) in
        let b' = (link b q node p c' l).0 in
        (
          p,
          c',
          l,
          find-step 33 b 0 q delay (omega (arith, bound)) qne go ∙ found,
          q ∷ ps',
          subst (λ f. Inserted b b' node 0 f 0 (0 + delay) (q ∷ ps) (q ∷ ps')) (sym kept)
              (step-Inserted 0 ne bound q ps qne a (ltb→lt _ _ go) (
                subst
                  (λ t. Inserted b b' node q (node_at b' q).next (0 + (node_at b q).delay) t ps ps')
                  total r)),
        )
    | inr stop ↦
        let (l, e) =
          link-head b q node 0 q delay size ne lt refl qne (a.inside q (ground arith))
            (ground (arith, a.absent)) in
        let null_absent : count 0 (q ∷ ps) ≡ 0 = ground (arith, Chain-real b _ ps c 0) in
        (
          0,
          q,
          delay,
          find-stop 33 b 0 q delay stop,
          node ∷ q ∷ ps,
          subst
              (λ f.
                Inserted b (link b q node 0 q delay).0 node 0 f 0 (0 + delay) (q ∷ ps)
                  (node ∷ q ∷ ps))
              (sym e)
              (here-Inserted 0 ne bound q ps qne a null_absent c stop (Chain-real b _ ps c) l),
        )
  ]
