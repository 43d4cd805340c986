-- ===== src/User/Clock/Link.antt =====
-- What `link` does to the fields of the nodes.
use burrit_osprivate.Prelude.{
  ℕ, ◌-◌, ◌<◌, ◌≡◌, ◌≢◌, refl, sym, ap, ◌∙◌, ◌==◌, if◌then◌else◌, arith, length, length-set, ==_iff,
  ==-eq_false,
}
use burrit_osprivate.Prelude.Word.{sub32}
use burrit_osprivate.User.Clock.{Buffer, node_at, set_next, set_delay, link}
use burrit_osprivate.User.Clock.Chain.{
  next-set_next, tid-set_next, delay-set_next, next-set_delay, tid-set_delay, delay-set_delay,
}

-- `b'` is `b` with `node` linked between `previous` and `current`, of which one may be null.
pub record Linked (b b' : Buffer) (node previous current ticks : ℕ) : Type 0 where
  pub size : length b' ≡ 32
  pub next :
      (i : ℕ)
      → i ≢ 0
      → (node_at b' i).next
        ≡ (if i == node then current else if i == previous then node else (node_at b i).next)
  pub tid : (i : ℕ) → i ≢ 0 → (node_at b' i).tid ≡ (node_at b i).tid
  pub delay :
      (i : ℕ)
      → i ≢ 0
      → (node_at b' i).delay ≡ (
          if i == node
          then ticks
          else if i == current
          then sub32 (node_at b i).delay ticks
          else (node_at b i).delay)

module _ (b : Buffer) (queue node previous current delay : ℕ) (size : length b ≡ 32) (ne : node ≢ 0)
    (lt : node < 33) where
  size₁ : length (set_delay b node delay) ≡ 32
  size₁ = length-set b (node - 1) _ ∙ size

  last-Linked :
      previous ≢ 0
      → previous < 33
      → node ≢ previous
      → current ≡ 0
      → (node_at b node).next ≡ 0
      → Linked b (set_next (set_delay b node delay) previous node) node previous current delay
  last-Linked pne plt apart null end = record {
    size = length-set (set_delay b node delay) (previous - 1) _ ∙ size₁;
    next = λ i h. ground (
      arith,
      next-set_next (set_delay b node delay) previous size₁ pne plt node i h,
      next-set_delay b node size ne lt delay i h,
    );
    tid = λ i h.
        tid-set_next (set_delay b node delay) previous size₁ pne plt node i h
        ∙ tid-set_delay b node size ne lt delay i h;
    delay = λ i h. ground (
      arith,
      delay-set_next (set_delay b node delay) previous size₁ pne plt node i h,
      delay-set_delay b node size ne lt delay i h,
    );
  }

  -- The writes that follow where `current` is a node: to `b₃`, which has the first ones.
  between-Linked :
      (b₃ : Buffer)
      → length b₃ ≡ 32
      → ((i : ℕ)
          → i ≢ 0
          → (node_at b₃ i).next ≡ (if i == previous then node else (node_at b i).next))
      → ((i : ℕ) → i ≢ 0 → (node_at b₃ i).tid ≡ (node_at b i).tid)
      → ((i : ℕ)
          → i ≢ 0
          → (node_at b₃ i).delay ≡ (if i == node then delay else (node_at b i).delay))
      → current ≢ 0
      → current < 33
      → node ≢ current
      → Linked b
          (set_delay
            (set_next b₃ node current)
            current
            (sub32 (node_at (set_next b₃ node current) current).delay delay))
          node
          previous
          current
          delay
  between-Linked b₃ size₃ next₃ tid₃ delay₃ cne clt apart =
      let b₄ = set_next b₃ node current in
      let left = sub32 (node_at b₄ current).delay delay in
      let size₄ : length b₄ ≡ 32 = length-set b₃ (node - 1) _ ∙ size₃ in
      let was : (node_at b₄ current).delay ≡ (node_at b current).delay =
        delay-set_next b₃ node size₃ ne lt current current cne
        ∙ delay₃ current cne
        ∙ rw (==-eq_false current node (λ e. apart (sym e))) refl in
      record {
        size = length-set b₄ (current - 1) _ ∙ size₄;
        next = λ i h. ground (
          arith,
          next-set_delay b₄ current size₄ cne clt left i h,
          next-set_next b₃ node size₃ ne lt current i h,
          next₃ i h,
        );
        tid = λ i h.
            tid-set_delay b₄ current size₄ cne clt left i h
            ∙ tid-set_next b₃ node size₃ ne lt current i h
            ∙ tid₃ i h;
        delay = λ i h. ground (
          arith,
          delay-set_delay b₄ current size₄ cne clt left i h,
          delay-set_next b₃ node size₃ ne lt current i h,
          delay₃ i h,
          ap (λ d. sub32 d delay) was,
        );
      }

  -- The end of the queue.
  pub link-last :
      previous ≢ 0
      → previous < 33
      → node ≢ previous
      → current ≡ 0
      → (node_at b node).next ≡ 0
      → Linked b (link b queue node previous current delay).0 node previous current delay
        × ((link b queue node previous current delay).1 ≡ queue)
  unfolding link
  link-last pne plt apart null end =
      rw ((==_iff current 0).1 null) (last-Linked pne plt apart null end, refl)

  -- Before a node, where there is one before it.
  pub link-inner :
      previous ≢ 0
      → previous < 33
      → node ≢ previous
      → current ≢ 0
      → current < 33
      → node ≢ current
      → Linked b (link b queue node previous current delay).0 node previous current delay
        × ((link b queue node previous current delay).1 ≡ queue)
  unfolding link
  link-inner pne plt apart cne clt apart' =
      rw (==-eq_false current 0 cne, ==-eq_false previous 0 pne)
        (
          let b₁ = set_delay b node delay in
              between-Linked (set_next b₁ previous node) (length-set b₁ (previous - 1) _ ∙ size₁)
                (λ i h. ground (
                  arith,
                  next-set_next b₁ previous size₁ pne plt node i h,
                  next-set_delay b node size ne lt delay i h,
                ))
                (λ i h.
                  tid-set_next b₁ previous size₁ pne plt node i h
                  ∙ tid-set_delay b node size ne lt delay i h)
                (λ i h. ground (
                  arith,
                  delay-set_next b₁ previous size₁ pne plt node i h,
                  delay-set_delay b node size ne lt delay i h,
                ))
                cne clt apart',
          refl,
        )

  -- Before the first node.
  pub link-head :
      previous ≡ 0
      → current ≢ 0
      → current < 33
      → node ≢ current
      → Linked b (link b queue node previous current delay).0 node previous current delay
        × ((link b queue node previous current delay).1 ≡ node)
  unfolding link
  link-head pe cne clt apart' =
      rw (==-eq_false current 0 cne, (==_iff previous 0).1 pe)
        (
          between-Linked (set_delay b node delay) size₁
              (λ i h. ground (arith, next-set_delay b node size ne lt delay i h))
              (λ i h. tid-set_delay b node size ne lt delay i h)
              (λ i h. ground (arith, delay-set_delay b node size ne lt delay i h)) cne clt apart',
          refl,
        )
