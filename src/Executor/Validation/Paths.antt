-- ===== src/Executor/Validation/Paths.antt =====
-- crates/jaiba-runtime/src/engine/executor/validation.rs: the depths of all processors.
use jaiva.Prelude.{
  ℕ, ◌+◌, ◌≤◌, ◌<◌, ◌≡◌, ◌⊎◌, ap, subst, inl, inr, String, true, some, List, [], ◌∷◌, arith, str_eq,
  is_some, length, All, Bool-cases, Option-cases, get, values, u64_max,
}
use mathlib.Core.Option.{some-injective}
use jaiva.Config.{FlowConfig, ProcessorConfig, ConnectionConfig}
use jaiva.Graph.Spec.{IsRanking}
use jaiva.Executor.Validation.{Depths, visit, visit_all, processor_downstream_depths, max_of}
use jaiva.Executor.Validation.Walks.{In, Longest, Sound, Keeps, visit-Visits}

abbrev pub InProcessors : ProcessorConfig → List ProcessorConfig → Type 0
InProcessors p [] = ⊥
InProcessors p (q ∷ qs) = (q ≡ p) ⊎ InProcessors p qs

visit_all-Sound :
    (fuel : ℕ) (connections : List ConnectionConfig) (rank : String → ℕ) (bound : ℕ)
    → ((c : ConnectionConfig) → In c connections → rank c.source < rank c.target)
    → ((p : String) → rank p ≤ bound)
    → bound < u64_max
    → bound < fuel
    → (processors : List ProcessorConfig) (memo : Depths) → Sound connections memo
    → Sound connections (visit_all fuel connections processors memo)
      × Keeps memo (visit_all fuel connections processors memo)
      × ((p : ProcessorConfig)
          → InProcessors p processors
          → is_some (get (visit_all fuel connections processors memo) p.id) ≡ true)
visit_all-Sound fuel connections rank bound climbs bounded small enough [] memo sound =
    (sound, λ q h. h, λ p h. absurd h)
visit_all-Sound fuel connections rank bound climbs bounded small enough (p ∷ processors) memo
      sound =
    let first =
      visit-Visits connections rank bound climbs bounded small fuel [] p.id memo
        (omega (arith, enough)) (λ q h. absurd (cc)) sound in
    let (last, keeps, noted) =
      visit_all-Sound fuel connections rank bound climbs bounded small enough processors
        (visit fuel connections [] p.id memo).1 first.sound in
    (
      last,
      λ q h. keeps q (first.keeps q h),
      λ q h. elim h [
        | inl same ↦ keeps q.id (
            subst (λ i. is_some (get (visit fuel connections [] p.id memo).1 i) ≡ true)
              (ap (λ x. x.id) same) first.noted)
        | inr later ↦ noted q later
      ],
    )

pub get-max_of :
    (memo : Depths) (q : String) (n : ℕ) → get memo q ≡ some n → n ≤ max_of (values memo)
unfolding get
get-max_of [] q n h = absurd (cc)
get-max_of ((k, m) ∷ memo) q n h = elim (Bool-cases (str_eq k q)) [
  | inl same ↦
      let value : m ≡ n = some-injective m n (ground (arith, h, same)) in omega (arith, value)
  | inr other ↦ omega (arith, get-max_of memo q n (ground (arith, h, other)))
]

pub In-climbs :
    (connections : List ConnectionConfig) (rank : String → ℕ)
    → All (λ c. rank c.source < rank c.target) connections
    → (c : ConnectionConfig) → In c connections
    → rank c.source < rank c.target
In-climbs [] rank h c inside = absurd inside
In-climbs (d ∷ ds) rank h c (inl same) = subst (λ x. rank x.source < rank x.target) same h.0
In-climbs (d ∷ ds) rank h c (inr later) = In-climbs ds rank h.1 c later

nothing_noted-Sound : (connections : List ConnectionConfig) → Sound connections []
unfolding get
nothing_noted-Sound connections q n h = absurd (cc)

-- In a flow whose connections climb some ranking within its number of processors, the depth that is
-- noted for a processor is the number of connections on the longest path from it.
pub processor_depth :
    (config : FlowConfig) (rank : String → ℕ)
    → IsRanking config rank
    → ((p : String) → rank p ≤ length config.processors)
    → length config.processors < u64_max
    → (p : ProcessorConfig) → InProcessors p config.processors
    → (n : ℕ) × (get (processor_downstream_depths config) p.id ≡ some n)
      × Longest config.connections p.id n
unfolding processor_downstream_depths
processor_depth config rank ranked bounded small p inside =
    let fuel = length config.processors + 2 in
    let depths = visit_all fuel config.connections config.processors [] in
    let (sound, keeps, noted) =
      visit_all-Sound fuel config.connections rank (length config.processors)
        (In-climbs config.connections rank ranked) bounded small (omega arith) config.processors []
        (nothing_noted-Sound config.connections) in
    elim (Option-cases (get depths p.id)) [
      | inl missing ↦ let there = noted p inside in absurd (cc (there, missing))
      | inr (n, found) ↦ (n, found, sound p.id n found)
    ]
