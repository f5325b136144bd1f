-- ===== src/Limiter/Sums.antt =====
-- crates/jaiba-runtime/src/engine/memory.rs: what the live reservations of an owner add up to.
use jaiva.Prelude.{
  ℕ, ◌+◌, String, ◌≡◌, inl, inr, Bool, true, false, ◌&&◌, some, List, [], ◌∷◌, ◌++◌, arith,
  if◌then◌else◌, str_eq, str_eq_iff, get_elem?, set, sum_of, sum_of-append, sum_of-set, HashMap,
  get, insert, get-insert, Bool-cases, sym, subst,
}
use mathlib.Core.Option.{some-injective}
use jaiva.Limiter.{Ticket, Phase, waiting, held, gone, MemoryLimiter}

-- Whether a ticket has permits of its flow, and whether it is a reservation.
abbrev pub has_units : Phase → Bool
has_units waiting = false
has_units gone = false
has_units _ = true

abbrev pub is_held : Phase → Bool
is_held held = true
is_held _ = false

abbrev pub flow_units : String → Ticket → ℕ
flow_units owner t = if str_eq t.owner owner && has_units t.phase then t.units else 0

abbrev pub live_bytes : String → Ticket → ℕ
live_bytes owner t = if str_eq t.owner owner && is_held t.phase then t.bytes else 0

abbrev pub shared_units : Ticket → ℕ
shared_units t = if t.shares && is_held t.phase then t.units else 0

-- The permits of a flow are free or with its tickets, and its metric counts its reservations.
abbrev pub Balanced : List Ticket → String → MemoryLimiter → Type 0
Balanced ts owner l =
    (l.available + sum_of (flow_units owner) ts ≡ l.total_units)
    × (l.used ≡ sum_of (live_bytes owner) ts)

abbrev pub AllBalanced : HashMap MemoryLimiter → List Ticket → Type 0
AllBalanced ls ts =
    (owner : String) (l : MemoryLimiter) → get ls owner ≡ some l → Balanced ts owner l

-- A write to one flow and a new list of tickets that is as before for the others.
pub AllBalanced-insert :
    (ls : HashMap MemoryLimiter) (ts us : List Ticket) (owner : String) (l : MemoryLimiter)
    → AllBalanced ls ts
    → Balanced us owner l
    → ((o : String)
        → str_eq owner o ≡ false
        → (sum_of (flow_units o) us ≡ sum_of (flow_units o) ts)
          × (sum_of (live_bytes o) us ≡ sum_of (live_bytes o) ts))
    → AllBalanced (insert ls owner l) us
AllBalanced-insert ls ts us owner l h new same o k e = elim (Bool-cases (str_eq owner o)) [
  | inl eq ↦
      let lk : l ≡ k = some-injective l k (ground (arith, eq, e, get-insert ls owner o l)) in
      rw (sym ((str_eq_iff owner o).0 eq)) (subst (Balanced us owner) lk new)
  | inr ne ↦
      let old : Balanced ts o k = h o k (ground (arith, ne, e, get-insert ls owner o l)) in
      (omega (arith, old.0, (same o ne).0), omega (arith, old.1, (same o ne).1))
]

-- A new ticket of the flow that is written.
pub AllBalanced-append :
    (ls : HashMap MemoryLimiter) (ts : List Ticket) (t : Ticket) (l : MemoryLimiter)
    → AllBalanced ls ts
    → l.available + (sum_of (flow_units t.owner) ts + flow_units t.owner t) ≡ l.total_units
    → l.used ≡ sum_of (live_bytes t.owner) ts + live_bytes t.owner t
    → AllBalanced (insert ls t.owner l) (ts ++ t ∷ [])
AllBalanced-append ls ts t l h e f =
    AllBalanced-insert ls ts (ts ++ t ∷ []) t.owner l h
      (
        omega (arith, e, sum_of-append (flow_units t.owner) ts (t ∷ [])),
        omega (arith, f, sum_of-append (live_bytes t.owner) ts (t ∷ [])),
      )
      (λ o ne. (
        ground (arith, ne, sum_of-append (flow_units o) ts (t ∷ [])),
        ground (arith, ne, sum_of-append (live_bytes o) ts (t ∷ [])),
      ))

-- A ticket that moves to another phase, and its flow with it.
pub AllBalanced-set :
    (ls : HashMap MemoryLimiter) (ts : List Ticket) (k : ℕ) (t u : Ticket) (l : MemoryLimiter)
    → AllBalanced ls ts
    → get_elem? ts k ≡ some t
    → u.owner ≡ t.owner
    → ((a : ℕ)
        → a + flow_units t.owner t ≡ sum_of (flow_units t.owner) ts + flow_units t.owner u
        → l.available + a ≡ l.total_units)
    → ((a : ℕ)
        → a + live_bytes t.owner t ≡ sum_of (live_bytes t.owner) ts + live_bytes t.owner u
        → l.used ≡ a)
    → AllBalanced (insert ls t.owner l) (set ts k u)
AllBalanced-set ls ts k t u l h at same e f =
    AllBalanced-insert ls ts (set ts k u) t.owner l h
      (
        e _ (sum_of-set (flow_units t.owner) ts k u t at),
        f _ (sum_of-set (live_bytes t.owner) ts k u t at),
      )
      (λ o ne.
        let gone : str_eq u.owner o ≡ false = rw same ne in
        (
          ground (arith, ne, gone, sum_of-set (flow_units o) ts k u t at),
          ground (arith, ne, gone, sum_of-set (live_bytes o) ts k u t at),
        ))
