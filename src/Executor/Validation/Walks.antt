-- ===== src/Executor/Validation/Walks.antt =====
-- crates/jaiba-runtime/src/engine/executor/validation.rs: the depths against the paths of a flow.
use jaiva.Prelude.{
  ℕ, zero, suc, ◌+◌, ◌≤◌, ◌<◌, ◌≡◌, ◌⊎◌, refl, ap, subst, ◌∙◌, ltb, inl, inr, String, true, some,
  List, [], ◌∷◌, arith, str_eq, str_eq_iff, is_some, contains, max, Bool-cases, Option-cases, get,
  insert, get-insert, u64_max, saturating_add,
}
use mathlib.Core.Option.{some-injective}
use jaiva.Config.{ConnectionConfig}
use jaiva.Executor.Validation.{Depths, deepest, visit}

abbrev pub In : ConnectionConfig → List ConnectionConfig → Type 0
In c [] = ⊥
In c (d ∷ ds) = (d ≡ c) ⊎ In c ds

-- A path of connections, by the processor it starts from and how many connections it takes.
pub data Walk (connections : List ConnectionConfig) : String → ℕ → Type 0 where
  stays : (p : String) → Walk connections p 0
  goes :
      (c : ConnectionConfig) (n : ℕ)
      → In c connections
      → Walk connections c.target n
      → Walk connections c.source (suc n)

-- The most connections that a path from a processor takes.
abbrev pub Longest : List ConnectionConfig → String → ℕ → Type 0
Longest connections p n = Walk connections p n × ((k : ℕ) → Walk connections p k → k ≤ n)

abbrev pub Sound : List ConnectionConfig → Depths → Type 0
Sound connections memo = (q : String) (n : ℕ) → get memo q ≡ some n → Longest connections q n

-- Nothing that is noted is lost.
abbrev pub Keeps : Depths → Depths → Type 0
Keeps memo after = (q : String) → is_some (get memo q) ≡ true → is_some (get after q) ≡ true

insert-Keeps : (memo : Depths) (p : String) (depth : ℕ) → Keeps memo (insert memo p depth)
insert-Keeps memo p depth q h = ground (arith, h, get-insert memo p q depth)

insert-Sound :
    (connections : List ConnectionConfig) (memo : Depths) (p : String) (depth : ℕ)
    → Sound connections memo
    → Longest connections p depth
    → Sound connections (insert memo p depth)
insert-Sound connections memo p depth sound longest q n found = elim (Bool-cases (str_eq p q)) [
  | inl same ↦
      let depth_ : depth ≡ n =
        some-injective depth n (ground (arith, found, same, get-insert memo p q depth)) in
      rw⁻¹ ((str_eq_iff p q).0 same) (rw⁻¹ depth_ longest)
  | inr other ↦ sound q n (ground (arith, found, other, get-insert memo p q depth))
]

-- The connections climb, and no rank is beyond a bound.
module _ (connections : List ConnectionConfig) (rank : String → ℕ) (bound : ℕ)
    (climbs : (c : ConnectionConfig) → In c connections → rank c.source < rank c.target)
    (bounded : (p : String) → rank p ≤ bound) (small : bound < u64_max) where
  pub Walk-bounded : (p : String) (n : ℕ) → Walk connections p n → n + rank p ≤ bound
  Walk-bounded p n (stays q) = omega (arith, bounded q)
  Walk-bounded p n (goes c m inside more) =
      omega (arith, climbs c inside, Walk-bounded c.target m more)

  -- What a visit answers, from what is noted before.
  pub record Visits (p : String) (memo : Depths) (result : ℕ × Depths) : Type 0 where
    pub longest : Longest connections p result.0
    pub sound : Sound connections result.1
    pub keeps : Keeps memo result.1
    pub noted : is_some (get result.1 p) ≡ true

  -- The same over some of the connections of a processor.
  record Deepest (p : String) (cs : List ConnectionConfig) (memo : Depths) (result : ℕ × Depths)
      : Type 0 where
    walk : Walk connections p result.0
    most :
        (c : ConnectionConfig)
        → In c cs
        → c.source ≡ p
        → (k : ℕ) → Walk connections c.target k
        → suc k ≤ result.0
    pub sound : Sound connections result.1
    pub keeps : Keeps memo result.1

  -- The longer of two paths.
  longer :
      (p : String) (a b : ℕ)
      → Walk connections p a
      → Walk connections p b
      → Walk connections p (max a b)
  longer p a b walk_a walk_b = elim (Bool-cases (ltb a b)) [
    | inl less ↦ subst (Walk connections p) (ground (arith, less)) walk_b
    | inr not_less ↦ subst (Walk connections p) (ground (arith, not_less)) walk_a
  ]

  deepest-Deepest :
      (v : String → Depths → ℕ × Depths) (p : String) (cs : List ConnectionConfig) (memo : Depths)
      → ((c : ConnectionConfig) → In c cs → In c connections)
      → ((c : ConnectionConfig)
          → In c cs
          → c.source ≡ p
          → (m : Depths) → Sound connections m
          → Visits c.target m (v c.target m))
      → Sound connections memo
      → Deepest p cs memo (deepest v p cs memo)
  unfolding deepest
  deepest-Deepest v p [] memo inside each sound = record {
    walk = stays p;
    most = λ c h. absurd h;
    sound = sound;
    keeps = λ q h. h;
  }
  deepest-Deepest v p (c ∷ cs) memo inside each sound = elim (Bool-cases (str_eq c.source p)) [
    | inr other ↦
        let rest =
          deepest-Deepest v p cs memo (λ d h. inside d (inr h)) (λ d h. each d (inr h)) sound in
        rw other (record {
          walk = rest.walk;
          most = λ d h from k more. elim h [
            | inl same ↦
                absurd (cc (other, (str_eq_iff c.source p).1 (ap (λ x. x.source) same ∙ from)))
            | inr later ↦ rest.most d later from k more
          ];
          sound = rest.sound;
          keeps = rest.keeps;
        })
    | inl own ↦
        let from : c.source ≡ p = (str_eq_iff c.source p).0 own in
        let first = each c (inl refl) from memo sound in
        let depth = (v c.target memo).0 in
        let rest =
          deepest-Deepest v p cs (v c.target memo).1 (λ d h. inside d (inr h))
            (λ d h. each d (inr h)) first.sound in
        let exact : saturating_add u64_max 1 depth ≡ suc depth =
          omega (arith, small, Walk-bounded c.target depth first.longest.0) in
        let through : Walk connections p (suc depth) =
          subst (λ q. Walk connections q (suc depth)) from
            (goes c depth (inside c (inl refl)) first.longest.0) in
        rw own (record {
          walk =
              rw exact
                (longer p (suc depth) (deepest v p cs (v c.target memo).1).0 through rest.walk);
          most = λ d h from_d k more. elim h [
            | inl same ↦ omega (arith, exact, first.longest.1 k (rw (ap (λ x. x.target) same) more))
            | inr later ↦ omega (arith, rest.most d later from_d k more)
          ];
          sound = rest.sound;
          keeps = λ q h. rest.keeps q (first.keeps q h);
        })
  ]

  Walk-most :
      (p : String) (best : ℕ)
      → ((c : ConnectionConfig)
          → In c connections
          → c.source ≡ p
          → (k : ℕ) → Walk connections c.target k
          → suc k ≤ best)
      → (k : ℕ) → Walk connections p k
      → k ≤ best
  Walk-most p best most k (stays q) = omega arith
  Walk-most p best most k (goes c m inside more) = most c inside refl m more

  pub visit-Visits :
      (fuel : ℕ) (visiting : List String) (p : String) (memo : Depths)
      → bound < fuel + rank p
      → ((q : String) → contains visiting q ≡ true → rank q < rank p)
      → Sound connections memo
      → Visits p memo (visit fuel connections visiting p memo)
  unfolding visit
  visit-Visits zero visiting p memo enough above sound = absurd (omega (arith, enough, bounded p))
  visit-Visits (suc fuel) visiting p memo enough above sound = elim (Option-cases (get memo p)) [
    | inr (depth, found) ↦ rw found (record {
      longest = sound p depth found;
      sound = sound;
      keeps = λ q h. h;
      noted = rw found refl;
    })
    | inl missing ↦ elim (Bool-cases (contains visiting p)) [
      | inl again ↦ absurd (omega (arith, above p again))
      | inr fresh ↦
          let inner = visit fuel connections (p ∷ visiting) in
          let d =
            deepest-Deepest inner p connections memo (λ c h. h)
              (λ c h from m sound_m.
                let up : rank p < rank c.target =
                  subst (λ q. rank q < rank c.target) from (climbs c h) in
                visit-Visits fuel (p ∷ visiting) c.target m (omega (arith, enough, up))
                  (λ q in_. visited q c up in_) sound_m)
              sound in
          let depth = (deepest inner p connections memo).0 in
          let after = (deepest inner p connections memo).1 in
          let longest : Longest connections p depth = (d.walk, Walk-most p depth d.most) in
          rw missing (
            rw fresh (record {
              longest = longest;
              sound = insert-Sound connections after p depth d.sound longest;
              keeps = λ q h. insert-Keeps after p depth q (d.keeps q h);
              noted = ground (arith, get-insert after p p depth, str_eq_iff p p);
            }))
    ]
  ]
    where
      visited :
          (q : String) (c : ConnectionConfig)
          → rank p < rank c.target
          → contains (p ∷ visiting) q ≡ true
          → rank q < rank c.target
      visited q c up in_ = elim (Bool-cases (str_eq p q)) [
        | inl same ↦ subst (λ x. rank x < rank c.target) ((str_eq_iff p q).0 same) up
        | inr other ↦ omega (arith, up, above q (ground (arith, in_, other)))
      ]
