-- ===== src/User/Track/Owners.antt =====
-- The passes of `TrackManagerServer` over the table and over a path.
use burrit_osprivate.Prelude.{
  ℕ, zero, suc, ◌<◌, ◌≡◌, ◌≢◌, refl, ap, subst, ◌∙◌, true, false, Bool, not, ◌&&◌, ◌||◌, List, [],
  ◌∷◌, ◌==◌, if◌then◌else◌, arith, length, length-set, set, get_or-set_self, get_or-set_ne,
  Bool-cases, ==_iff, inl, inr, ◌⊎◌, if-true, if-false,
}
use burrit_osprivate.User.Track.{Graph, owner, index, conflict, revoke, allocate}

-- Whether a path uses an entry of the table.
abbrev pub uses : ℕ → List ℕ → Bool
uses i [] = false
uses i (d ∷ ds) = index d == i || uses i ds

owner-set :
    (g : Graph) (j i v : ℕ) → i < length g → owner (set g j v) i ≡ (if j == i then v else owner g i)
owner-set g j i v lt = elim (Bool-cases (j == i)) [
  | inl e ↦
      let same = (==_iff j i).0 e in
      rw e (ap (λ k. owner (set g k v) i) same ∙ get_or-set_self g i v 0 lt)
  | inr e ↦ rw e (get_or-set_ne g j i v 0 (ground arith))
]

pub owner-revoke :
    (t : ℕ) (g : Graph) (i : ℕ) → owner (revoke t g) i ≡ (if owner g i == t then 0 else owner g i)
unfolding revoke
owner-revoke t [] i = ground arith
owner-revoke t (x ∷ g) zero = refl
owner-revoke t (x ∷ g) (suc i) = owner-revoke t g i

pub length-revoke : (t : ℕ) (g : Graph) → length (revoke t g) ≡ length g
unfolding revoke
length-revoke t [] = refl
length-revoke t (x ∷ g) = ap suc (length-revoke t g)

pub length-allocate : (t : ℕ) (ds : List ℕ) (g : Graph) → length (allocate g t ds) ≡ length g
unfolding allocate
length-allocate t [] g = refl
length-allocate t (d ∷ ds) g = length-allocate t ds (set g (index d) t) ∙ length-set g (index d) t

pub owner-allocate :
    (t : ℕ) (ds : List ℕ) (g : Graph) (i : ℕ)
    → i < length g
    → owner (allocate g t ds) i ≡ (if uses i ds then t else owner g i)
unfolding allocate
owner-allocate t [] g i lt = refl
owner-allocate t (d ∷ ds) g i lt = ground (
  arith,
  owner-allocate t ds (set g (index d) t) i (omega (arith, lt, length-set g (index d) t)),
  owner-set g (index d) i t lt,
)

cons_ne : {A : Type 0} {x : ℕ} {xs : List ℕ} → x ∷ xs ≡ [] → A
cons_ne e = cc

head_eq : {x y : ℕ} {xs ys : List ℕ} → x ∷ xs ≡ y ∷ ys → x ≡ y
head_eq e = cc

-- Where pass 1 finds no conflict, what the path uses is free or the train's.
pub conflict-none :
    (g : Graph) (t : ℕ) (ds : List ℕ) (i : ℕ)
    → conflict g t ds ≡ []
    → uses i ds ≡ true
    → (owner g i ≡ t) ⊎ (owner g i ≡ 0)
unfolding conflict
conflict-none g t [] i e h = cc
conflict-none g t (d ∷ ds) i e h =
    elim (Bool-cases (not (owner g (index d) == t) && not (owner g (index d) == 0))) [
      | inl c ↦ cons_ne (
          if-true (not (owner g (index d) == t) && not (owner g (index d) == 0)) (d ∷ ds)
            (conflict g t ds) c e)
      | inr c ↦
          let rest =
            if-false (not (owner g (index d) == t) && not (owner g (index d) == 0)) (d ∷ ds)
              (conflict g t ds) c e in
          elim (Bool-cases (index d == i)) [
            | inl s ↦
                let same = (==_iff (index d) i).0 s in
                subst (λ k. (owner g k ≡ t) ⊎ (owner g k ≡ 0)) same (ground (arith, c))
            | inr s ↦ conflict-none g t ds i rest (ground (arith, h, s))
          ]
    ]

-- Where it finds one, the path uses a node of another train.
pub conflict-some :
    (g : Graph) (t : ℕ) (ds : List ℕ) {f : ℕ} {fs : List ℕ}
    → conflict g t ds ≡ f ∷ fs
    → (uses (index f) ds ≡ true) × (owner g (index f) ≢ t) × (owner g (index f) ≢ 0)
unfolding conflict
conflict-some g t [] e = cc
conflict-some g t (d ∷ ds) {f} {fs} e =
    elim (Bool-cases (not (owner g (index d) == t) && not (owner g (index d) == 0))) [
      | inl c ↦
          let same : d ≡ f = head_eq (
            if-true (not (owner g (index d) == t) && not (owner g (index d) == 0)) (d ∷ ds)
              (conflict g t ds) c e) in
          subst
            (λ k.
              (uses (index k) (d ∷ ds) ≡ true) × (owner g (index k) ≢ t) × (owner g (index k) ≢ 0))
            same (ground arith, ground (arith, c), ground (arith, c))
      | inr c ↦
          let (u, other, taken) = conflict-some g t ds (
            if-false (not (owner g (index d) == t) && not (owner g (index d) == 0)) (d ∷ ds)
              (conflict g t ds) c e) in
          (ground (arith, u), other, taken)
    ]
