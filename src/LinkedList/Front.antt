-- ===== src/LinkedList/Front.antt =====
-- What goes in at the front of a list of common/list.c, and what comes out.
use burrit_osprivate.Prelude.{
  ℕ, ◌-◌, ◌≤◌, ◌≡◌, ◌≢◌, refl, sym, ap, ap₂, subst, ◌∙◌, List, [], ◌∷◌, length, length-set,
  get_or-set_self, get_or-set_ne, ◌==◌, ==-eq_false, Bool-cases, inl, inr, arith,
}
use burrit_osprivate.Prelude.Result.{ok}
use burrit_osprivate.LinkedList.{
  ListNode, ListU32, unset_node, node_at, put_node, link_to, push_front, pop_front,
}

-- A read at the pointer of a write, and at another.
node-same :
    (nodes : List ListNode) (p : ℕ) (n : ListNode)
    → p ≢ 0
    → p ≤ length nodes
    → node_at (put_node nodes p n) p ≡ n
node-same nodes p n ne le = get_or-set_self nodes (p - 1) n unset_node (omega arith)

node-other :
    (nodes : List ListNode) (p q : ℕ) (n : ListNode)
    → p ≢ q
    → p ≢ 0
    → q ≢ 0
    → node_at (put_node nodes p n) q ≡ node_at nodes q
node-other nodes p q n ne pne qne = get_or-set_ne nodes (p - 1) (q - 1) n unset_node (omega arith)

-- The nodes `qs` are linked from `p` on, and the last of them has no next one.
abbrev pub Linked : List ListNode → ℕ → List ℕ → Type 0
Linked nodes p [] = p ≡ 0
Linked nodes p (q ∷ qs) = (p ≡ q) × (q ≢ 0) × Linked nodes (node_at nodes q).next qs

-- The words of the nodes `qs`.
abbrev pub words : List ListNode → List ℕ → List ℕ
words nodes [] = []
words nodes (q ∷ qs) = (node_at nodes q).word ∷ words nodes qs

-- The node `p` is none of `qs`.
abbrev pub Apart : ℕ → List ℕ → Type 0
Apart p [] = Unit
Apart p (q ∷ qs) = (p ≢ q) × Apart p qs

-- A write to a node that is not in a list leaves the list.
Linked-put_node :
    (nodes : List ListNode) (p : ℕ) (n : ListNode) (h : ℕ) (qs : List ℕ)
    → p ≢ 0
    → Apart p qs
    → Linked nodes h qs
    → Linked (put_node nodes p n) h qs × (words (put_node nodes p n) qs ≡ words nodes qs)
Linked-put_node nodes p n h [] pne apart e = (e, refl)
Linked-put_node nodes p n h (q ∷ qs) pne (ne, apart) (e, qne, linked) =
    let same = node-other nodes p q n ne pne qne in
    let (linked', words') = Linked-put_node nodes p n (node_at nodes q).next qs pne apart linked in
    (
      (e, qne, subst (λ (m : ListNode). Linked (put_node nodes p n) m.next qs) (sym same) linked'),
      ap₂ (λ (w : ℕ) (ws : List ℕ). w ∷ ws) (ap (λ (m : ListNode). m.word) same) words',
    )

-- In a list of the nodes `qs` with a free node, where neither that node nor the free one after it is
-- in `qs`, what is pushed on the front comes first, then the words that were there;
-- `listU32PopFront` returns it next, and then the list has the nodes `qs` with their words again.
pub pop_front-push_front :
    (l : ListU32) (value : ℕ) (qs : List ℕ)
    → l.free_list ≢ 0
    → l.free_list ≤ length l.nodes
    → Linked l.nodes l.head qs
    → Apart l.free_list qs
    → Apart (node_at l.nodes l.free_list).next qs
    → (l' : ListU32) × (push_front l value ≡ ok l')
      × Linked l'.nodes l'.head (l.free_list ∷ qs)
      × (words l'.nodes (l.free_list ∷ qs) ≡ value ∷ words l.nodes qs)
      × (l'' : ListU32) × (pop_front l' ≡ ok (value, l''))
      × (l''.head ≡ l.head)
      × Linked l''.nodes l''.head qs
      × (words l''.nodes qs ≡ words l.nodes qs)
unfolding push_front pop_front
pop_front-push_front l value qs ne le linked apart beyond =
    let f = l.free_list in
    let node : ListNode = record { word = value; next = l.head } in
    let pushed : ListU32 = record {
      nodes = put_node l.nodes f node;
      free_list = (node_at l.nodes f).next;
      head = f;
    } in
    let read = node-same l.nodes f node ne le in
    let word = ap (λ (n : ListNode). n.word) read in
    let next = ap (λ (n : ListNode). n.next) read in
    let taken = ==-eq_false f 0 ne in
    let cleared = link_to pushed.nodes f 0 in
    let rest = (node_at pushed.nodes f).next in
    let alone : ListU32 = record { nodes = cleared; free_list = f; head = rest } in
    let behind : ListU32 = record pushed {
      nodes = link_to cleared pushed.free_list f;
      head = rest;
    } in
    let (linked₁, words₁) = Linked-put_node l.nodes f node l.head qs ne apart linked in
    let (linked₂, words₂) =
      Linked-put_node pushed.nodes f (record (node_at pushed.nodes f) { next = 0 }) l.head qs ne
        apart linked₁ in
    let front : Linked pushed.nodes f (f ∷ qs) =
      (refl, ne, subst (λ h. Linked pushed.nodes h qs) (sym next) linked₁) in
    let first : words pushed.nodes (f ∷ qs) ≡ value ∷ words l.nodes qs =
      ap₂ (λ (w : ℕ) (ws : List ℕ). w ∷ ws) word words₁ in
    elim (Bool-cases (pushed.free_list == 0)) [
      | inl z ↦ (
        pushed,
        rw taken refl,
        front,
        first,
        alone,
        rw (taken, z) (ap (λ (w : ℕ). ok (w, alone)) word),
        next,
        subst (λ h. Linked cleared h qs) (sym next) linked₂,
        words₂ ∙ words₁,
      )
      | inr z ↦
          let (linked₃, words₃) =
            Linked-put_node cleared pushed.free_list
              (record (node_at cleared pushed.free_list) { next = f }) l.head qs (ground (arith, z))
              beyond linked₂ in
          (
            pushed,
            rw taken refl,
            front,
            first,
            behind,
            rw (taken, z) (ap (λ (w : ℕ). ok (w, behind)) word),
            next,
            subst (λ h. Linked behind.nodes h qs) (sym next) linked₃,
            words₃ ∙ words₂ ∙ words₁,
          )
    ]

-- After `listU32PopFront` of a list with a free node, the free nodes that can be reached are that
-- one and the one that was freed: the second is linked in place of what followed the first.
pub pop_front-free :
    (l : ListU32)
    → l.head ≢ 0
    → l.head ≤ length l.nodes
    → l.free_list ≢ 0
    → l.free_list ≤ length l.nodes
    → l.free_list ≢ l.head
    → (l' : ListU32) × (pop_front l ≡ ok ((node_at l.nodes l.head).word, l'))
      × (l'.free_list ≡ l.free_list)
      × ((node_at l'.nodes l.free_list).next ≡ l.head)
      × ((node_at l'.nodes l.head).next ≡ 0)
unfolding pop_front
pop_front-free l hne hle fne fle apart =
    let cleared = link_to l.nodes l.head 0 in
    let size : length cleared ≡ length l.nodes = length-set l.nodes (l.head - 1) _ in
    let l' : ListU32 = record l {
      nodes = link_to cleared l.free_list l.head;
      head = (node_at l.nodes l.head).next;
    } in
    let first =
      node-same cleared l.free_list (record (node_at cleared l.free_list) { next = l.head }) fne
        (omega (arith, fle, size)) in
    let second =
      node-other cleared l.free_list l.head (record (node_at cleared l.free_list) { next = l.head })
        apart fne hne
      ∙ node-same l.nodes l.head (record (node_at l.nodes l.head) { next = 0 }) hne hle in
    (
      l',
      rw (==-eq_false l.head 0 hne, ==-eq_false l.free_list 0 fne) refl,
      refl,
      ap (λ (n : ListNode). n.next) first,
      ap (λ (n : ListNode). n.next) second,
    )
