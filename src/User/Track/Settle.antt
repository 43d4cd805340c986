-- ===== src/User/Track/Settle.antt =====
-- How `TrackManagerServer` answers a request for track, and what that does to the owners.
use burrit_osprivate.Prelude.{
  ℕ, ◌<◌, ◌≡◌, ◌≢◌, refl, ap, ◌∙◌, true, List, [], ◌∷◌, ◌==◌, if◌then◌else◌, arith, length, ◌⊎◌,
  inl, inr, ==_iff, ==-eq_false,
}
use burrit_osprivate.Prelude.Outcome.{done}
use burrit_osprivate.User.Track.{
  Graph, Envelope, owner, index, train, conflict, revoke, allocate, settle, request, serve, run,
}
use burrit_osprivate.User.Track.Owners.{
  uses, owner-revoke, length-revoke, owner-allocate, length-allocate, conflict-none, conflict-some,
}

List-cases : (l : List ℕ) → (l ≡ []) ⊎ ((x : ℕ) × (xs : List ℕ) × (l ≡ x ∷ xs))
List-cases [] = inl refl
List-cases (x ∷ xs) = inr (x, xs, refl)

-- The train of the first node gets its path, and nothing else.
pub record Granted (g g' : Graph) (t : ℕ) (path : List ℕ) : Type 0 where
  pub size : length g' ≡ length g
  pub free : (i : ℕ) → uses i path ≡ true → (owner g i ≡ t) ⊎ (owner g i ≡ 0)
  pub owners :
      (i : ℕ)
      → i < length g
      → owner g' i ≡ (if uses i path then t else if owner g i == t then 0 else owner g i)

pub serve-request :
    (address : ℕ) (g : Graph) (env : Envelope) (d : ℕ) (ds : List ℕ)
    → env.type ≡ 1
    → env.path ≡ d ∷ ds
    → serve address g env ≡ settle g env (train d) (d ∷ ds) (conflict g (train d) (d ∷ ds))
unfolding serve request
serve-request address g env d ds one path =
    rw (==-eq_false env.type 3 (ground (arith, one)), (==_iff env.type 1).1 one)
      (ap (request g env) path)

-- A request for track is granted or refused. Granted, it is answered as it came, everything on
-- its path was free or the train's and is now the train's, the train owns nothing else, and the
-- other entries keep their owners. Refused, the table stays, and the answer points to a node of the
-- path that another train owns.
pub serve-Settled :
    (address : ℕ) (g : Graph) (env : Envelope) (d : ℕ) (ds : List ℕ)
    → env.type ≡ 1
    → env.path ≡ d ∷ ds
    → ((g' : Graph) × (serve address g env ≡ done (env, g')) × Granted g g' (train d) (d ∷ ds))
      ⊎ ((f : ℕ) × (fs : List ℕ) × (serve address g env
            ≡ done (record env { type = 30; path = f ∷ fs }, g))
          × (uses (index f) (d ∷ ds) ≡ true)
          × (owner g (index f) ≢ train d)
          × (owner g (index f) ≢ 0))
unfolding settle
serve-Settled address g env d ds one path =
    let t = train d in
    let asked = serve-request address g env d ds one path in
    elim (List-cases (conflict g t (d ∷ ds))) [
      | inl e ↦ inl (
        allocate (revoke t g) t (d ∷ ds),
        asked ∙ ap (settle g env t (d ∷ ds)) e,
        record {
          size = length-allocate t (d ∷ ds) (revoke t g) ∙ length-revoke t g;
          free = λ i h. conflict-none g t (d ∷ ds) i e h;
          owners = λ i lt.
              owner-allocate t (d ∷ ds) (revoke t g) i (omega (arith, lt, length-revoke t g))
              ∙ ap (λ o. if uses i (d ∷ ds) then t else o) (owner-revoke t g i);
        },
      )
      | inr (f, fs, e) ↦ inr (
        f,
        fs,
        asked ∙ ap (settle g env t (d ∷ ds)) e,
        (conflict-some g t (d ∷ ds) e).0,
        (conflict-some g t (d ∷ ds) e).1,
        (conflict-some g t (d ∷ ds) e).2,
      )
    ]

-- A message of a known type; one of type 1 has a path, whose train is not `t`.
abbrev pub Foreign : ℕ → Envelope → Type 0
Foreign t env =
    ((d : ℕ) × (ds : List ℕ) × (env.type ≡ 1) × (env.path ≡ d ∷ ds) × (train d ≢ t))
    ⊎ ((env.type ≡ 2) ⊎ (env.type ≡ 3))

abbrev pub AllForeign : ℕ → List Envelope → Type 0
AllForeign t [] = Unit
AllForeign t (env ∷ envs) = Foreign t env × AllForeign t envs

serve-known :
    (address : ℕ) (g : Graph) (env : Envelope)
    → (env.type ≡ 2) ⊎ (env.type ≡ 3)
    → (reply : Envelope) × (serve address g env ≡ done (reply, g))
unfolding serve
serve-known address g env (inl two) =
    rw
      (
        ==-eq_false env.type 3 (ground (arith, two)),
        ==-eq_false env.type 1 (ground (arith, two)),
        (==_iff env.type 2).1 two,
      )
      (_, refl)
serve-known address g env (inr three) = rw ((==_iff env.type 3).1 three) (_, refl)

serve-keeps :
    (address : ℕ) (g : Graph) (env : Envelope) (t i : ℕ)
    → t ≢ 0
    → i < length g
    → owner g i ≡ t
    → Foreign t env
    → (reply : Envelope) × (g' : Graph) × (serve address g env ≡ done (reply, g'))
      × (length g' ≡ length g)
      × (owner g' i ≡ t)
serve-keeps address g env t i ne lt own (inl (d, ds, one, path, other)) =
    elim (serve-Settled address g env d ds one path) [
      | inl (g', e, r) ↦ (env, g', e, r.size, r.owners i lt ∙ ground (arith, r.free i))
      | inr (f, fs, e, u, o, o') ↦ (_, g, e, refl, own)
    ]
serve-keeps address g env t i ne lt own (inr k) =
    let (reply, e) = serve-known address g env k in (reply, g, e, refl, own)

-- Whatever else the other trains ask for, the server gets through it, and a train keeps the track
-- that it owns.
pub run-keeps :
    (address : ℕ) (g : Graph) (envs : List Envelope) (t i : ℕ)
    → t ≢ 0
    → i < length g
    → owner g i ≡ t
    → AllForeign t envs
    → (replies : List Envelope) × (g' : Graph) × (run address g envs ≡ done (replies, g'))
      × (owner g' i ≡ t)
unfolding run
run-keeps address g [] t i ne lt own f = ([], g, refl, own)
run-keeps address g (env ∷ envs) t i ne lt own (f, fs) =
    let (reply, g₁, e, size, own₁) = serve-keeps address g env t i ne lt own f in
    let (replies, g₂, e', own₂) =
      run-keeps address g₁ envs t i ne (omega (arith, lt, size)) own₁ fs in
    (reply ∷ replies, g₂, rw (e, e') refl, own₂)
