-- ===== src/Executor/Scheduler/Ending.antt =====
-- crates/jaiba-runtime/src/engine/executor/scheduler.rs: the fuel of the loop, and a rule for its
-- invariants.
use jaiva.Prelude.{
  ℕ, zero, suc, ◌+◌, ◌-◌, ◌≤◌, ◌<◌, ◌≡◌, refl, ◌≢◌, ◌⊎◌, inl, inr, Bool, true, false, ◌&&◌, Option,
  List, [], ◌∷◌, ◌++◌, String, arith, ltb, length, length-append, Bool-cases,
}
use jaiva.Executor.{WorkItem}
use jaiva.Executor.Scheduler.{
  Round, Tasks, Outcome, scheduled, out_of_fuel, Verdict, wait, start, skip, fail, panic, judge,
  launch, postpone, turn, front, loop, turns, schedule, counted, schedule_available,
}

turn_ends :
    (next : Tasks → ℕ → Outcome) (s : Tasks) (i : ℕ) (item : WorkItem) (rest : List WorkItem)
    (v : Verdict)
    → ((s' : Tasks) (j : ℕ)
        → (length s'.pending - j) + turns (length s'.pending)
          < (suc (length rest) - i) + turns (suc (length rest))
        → next s' j ≢ out_of_fuel)
    → i < suc (length rest)
    → turn next s i item rest v ≢ out_of_fuel
unfolding turn launch postpone
turn_ends next s i item rest wait h more =
    let same : length (rest ++ item ∷ []) ≡ suc (length rest) =
      omega (arith, length-append rest (item ∷ [])) in
    h (postpone s item rest) (suc i) (rw same (omega arith))
turn_ends next s i item rest (start key) h more = h (launch s item rest key) 0 (omega arith)
turn_ends next s i item rest skip h more = h (record s { pending = rest }) i (omega arith)
turn_ends next s i item rest (fail error) h more = λ e. ground (arith, e)
turn_ends next s i item rest panic h more = λ e. ground (arith, e)

front_ends :
    (next : Tasks → ℕ → Outcome) (r : Round) (s : Tasks) (i : ℕ) (pending : List WorkItem)
    → ((s' : Tasks) (j : ℕ)
        → (length s'.pending - j) + turns (length s'.pending)
          < (length pending - i) + turns (length pending)
        → next s' j ≢ out_of_fuel)
    → front next r s i pending ≢ out_of_fuel
unfolding front
front_ends next r s i [] h = λ e. ground (arith, e)
front_ends next r s i (item ∷ rest) h =
    elim (Bool-cases (ltb (length s.running) r.concurrency_limit && ltb i (suc (length rest)))) [
      | inl on ↦ rw on (turn_ends next s i item rest (judge r s item) h (ground (arith, on)))
      | inr off ↦ rw off (λ e. ground (arith, e))
    ]

turns-positive : (n : ℕ) → 0 < turns n
turns-positive zero = omega arith
turns-positive (suc n) = omega arith

loop_ends :
    (fuel : ℕ) (r : Round) (s : Tasks) (i : ℕ)
    → (length s.pending - i) + turns (length s.pending) ≤ fuel
    → loop fuel r s i ≢ out_of_fuel
unfolding loop
loop_ends zero r s i enough = λ _. absurd (omega (arith, enough, turns-positive (length s.pending)))
loop_ends (suc fuel) r s i enough =
    front_ends (loop fuel r) r s i s.pending
      (λ s' j less. loop_ends fuel r s' j (omega (arith, less, enough)))

-- A round ends: each turn postpones an item, at most once around without a start, or takes one out.
pub schedule_available_ends :
    (on : Bool) (r : Round) (unread : ℕ) (s : Tasks)
    → schedule_available on r unread s ≢ out_of_fuel
unfolding schedule_available schedule
schedule_available_ends true r unread s =
    loop_ends (turns (length s.pending) + length s.pending) (counted r unread s) s 0 (omega arith)
schedule_available_ends false r unread s = λ e. ground (arith, e)

-- What holds of the tasks behind a round that did not fail.
abbrev pub Finally : (Tasks → Type 0) → Outcome → Type 0
Finally P (scheduled s) = P s
Finally P _ = Unit

-- An invariant of the loop, which a turn of each kind must keep, holds where the loop ends, with
-- the reason why it ends.
module _ (r : Round) (Inv : Tasks → ℕ → Type 0) (P : Tasks → Type 0)
    (keep : (s : Tasks) (i : ℕ) (item : WorkItem) (rest : List WorkItem)
      → s.pending ≡ item ∷ rest
      → length s.running < r.concurrency_limit
      → i < suc (length rest)
      → Inv s i
      → (judge r s item ≡ wait → Inv (postpone s item rest) (suc i))
        × ((key : Option String) → judge r s item ≡ start key → Inv (launch s item rest key) 0)
        × (judge r s item ≡ skip → Inv (record s { pending = rest }) i))
    (finish : (s : Tasks) (i : ℕ)
      → Inv s i
      → (length s.pending ≤ i) ⊎ (r.concurrency_limit ≤ length s.running)
      → P s) where
  turn-Finally :
      (next : Tasks → ℕ → Outcome) (s : Tasks) (i : ℕ) (item : WorkItem) (rest : List WorkItem)
      (v : Verdict)
      → ((s' : Tasks) (j : ℕ) → Inv s' j → Finally P (next s' j))
      → judge r s item ≡ v
      → s.pending ≡ item ∷ rest
      → length s.running < r.concurrency_limit
      → i < suc (length rest)
      → Inv s i
      → Finally P (turn next s i item rest v)
  unfolding turn
  turn-Finally next s i item rest wait h e p a b inv = h _ _ ((keep s i item rest p a b inv).0 e)
  turn-Finally next s i item rest (start key) h e p a b inv =
      h _ _ ((keep s i item rest p a b inv).1 key e)
  turn-Finally next s i item rest skip h e p a b inv = h _ _ ((keep s i item rest p a b inv).2 e)
  turn-Finally next s i item rest (fail error) h e p a b inv = tt
  turn-Finally next s i item rest panic h e p a b inv = tt

  front-Finally :
      (next : Tasks → ℕ → Outcome) (s : Tasks) (i : ℕ) (pending : List WorkItem)
      → ((s' : Tasks) (j : ℕ) → Inv s' j → Finally P (next s' j))
      → s.pending ≡ pending
      → Inv s i
      → Finally P (front next r s i pending)
  unfolding front
  front-Finally next s i [] h e inv = finish s i inv (inl (rw e (omega arith)))
  front-Finally next s i (item ∷ rest) h e inv =
      elim (Bool-cases (ltb (length s.running) r.concurrency_limit && ltb i (suc (length rest)))) [
        | inl on ↦ rw on (
            turn-Finally next s i item rest (judge r s item) h refl e (ground (arith, on))
              (ground (arith, on)) inv)
        | inr off ↦ rw off (
            finish s i inv (
              let size : length s.pending ≡ suc (length rest) = rw e refl in
              ground (arith, off, size)))
      ]

  loop-Finally : (fuel : ℕ) (s : Tasks) (i : ℕ) → Inv s i → Finally P (loop fuel r s i)
  unfolding loop
  loop-Finally zero s i inv = tt
  loop-Finally (suc fuel) s i inv =
      front-Finally (loop fuel r) s i s.pending (loop-Finally fuel) refl inv

  pub schedule-Finally : (s : Tasks) → Inv s 0 → Finally P (schedule r s)
  unfolding schedule
  schedule-Finally s inv = loop-Finally (turns (length s.pending) + length s.pending) s 0 inv
