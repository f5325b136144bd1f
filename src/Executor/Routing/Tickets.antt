-- ===== src/Executor/Routing/Tickets.antt =====
-- crates/jaiba-runtime/src/engine/executor/routing.rs: lists of handles, and the tickets they name.
use jaiva.Prelude.{
  ℕ, zero, suc, ◌≡◌, refl, Bool, false, ◌||◌, none, some, List, [], ◌∷◌, ◌++◌, arith, ◌==◌,
  if◌then◌else◌, length, get_elem?, set,
}
use jaiva.Limiter.{Ticket}

abbrev pub among : List ℕ → ℕ → Bool
among [] j = false
among (k ∷ ks) j = k == j || among ks j

abbrev pub DistinctHandles : List ℕ → Type 0
DistinctHandles [] = Unit
DistinctHandles (k ∷ ks) = (among ks k ≡ false) × DistinctHandles ks

pub among-snoc : (ks : List ℕ) (k j : ℕ) → among (ks ++ k ∷ []) j ≡ (among ks j || k == j)
among-snoc [] k j = ground arith
among-snoc (i ∷ ks) k j = ground (arith, among-snoc ks k j)

pub DistinctHandles-snoc :
    (ks : List ℕ) (k : ℕ) → DistinctHandles ks → among ks k ≡ false → DistinctHandles (ks ++ k ∷ [])
DistinctHandles-snoc [] k h new_ = (refl, tt)
DistinctHandles-snoc (i ∷ ks) k h new_ = (
  ground (arith, h.0, new_, among-snoc ks k i),
  DistinctHandles-snoc ks k h.1 (ground (arith, new_)),
)

pub get_elem?-set :
    (ts : List Ticket) (k j : ℕ) (t u : Ticket)
    → get_elem? ts k ≡ some t
    → get_elem? (set ts k u) j ≡ (if k == j then some u else get_elem? ts j)
get_elem?-set [] k j t u at = absurd (cc)
get_elem?-set (x ∷ ts) zero zero t u at = ground arith
get_elem?-set (x ∷ ts) zero (suc j) t u at = ground arith
get_elem?-set (x ∷ ts) (suc k) zero t u at = ground arith
get_elem?-set (x ∷ ts) (suc k) (suc j) t u at = ground (arith, get_elem?-set ts k j t u at)

pub get_elem?-snoc :
    (ts : List Ticket) (t : Ticket) (j : ℕ)
    → get_elem? (ts ++ t ∷ []) j ≡ (if length ts == j then some t else get_elem? ts j)
get_elem?-snoc [] t zero = ground arith
get_elem?-snoc [] t (suc j) = ground arith
get_elem?-snoc (x ∷ ts) t zero = ground arith
get_elem?-snoc (x ∷ ts) t (suc j) = ground (arith, get_elem?-snoc ts t j)

pub beyond : (ts : List Ticket) → get_elem? ts (length ts) ≡ none
beyond [] = refl
beyond (x ∷ ts) = beyond ts
