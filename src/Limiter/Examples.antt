-- ===== src/Limiter/Examples.antt =====
-- Runs of crates/jaiba-runtime/src/engine/memory.rs: two flows that share four permits.
use jaiva.Prelude.{◌*◌, ◌≤◌, ◌≡◌, refl, true, none, some, List, [], ◌∷◌, arith, sum_of, get, insert}
use jaiva.Limiter.{
  process_budget, detect, from_budget, MemoryLimiter, System, Action, try_reserve, reserve,
  grant_process, drop, step, run, granted, unit_bytes, acquire_process, take_now, check_now,
  request, check, release, refused, waits_for_flow, waits_for_process,
}
use jaiva.Error.{memory_capacity}
use jaiva.Limiter.Sums.{live_bytes}
use jaiva.Limiter.Invariant.{IsConserved, run-IsConserved}
use jaiva.Limiter.Budget.{detect-budget, run-budget, shared_bytes, try_reserve-drop}

abbrev limiter : MemoryLimiter
limiter = record {
  available = 3;
  shares = true;
  total_units = 3;
  budget_bytes = 200000;
  used = 0;
  backpressure = 0;
}

abbrev fresh : System
fresh = record {
  limiters = ("a", limiter) ∷ ("b", limiter) ∷ [];
  shared_available = 4;
  shared_total = 4;
  tickets = [];
}

fresh-IsConserved : IsConserved fresh
unfolding get
fresh-IsConserved = (λ owner l e. (ground (arith, e), ground (arith, e)), refl, tt)

-- The second reservation waits for the process's permits until the first is dropped.
abbrev actions : List Action
actions =
    try_reserve "a" 190000
    ∷ reserve "b" 100000 none
    ∷ grant_process 1
    ∷ drop 0
    ∷ grant_process 1
    ∷ []

abbrev after : MemoryLimiter
after = record limiter { available = 1; used = 100000; backpressure = 1 }

second_waits : get (run fresh actions).limiters "b" ≡ some after
unfolding run step get insert take_now check_now request check acquire_process release
    waits_for_flow waits_for_process
second_waits = refl

at_a : get fresh.limiters "a" ≡ some limiter
unfolding get
at_a = refl

granted_a : (step fresh (try_reserve "a" 190000)).1 ≡ granted 0
unfolding step get take_now check_now waits_for_flow waits_for_process
granted_a = refl

run-IsConserved_example : IsConserved (run fresh actions)
run-IsConserved_example = run-IsConserved fresh actions fresh-IsConserved

run-budget_example :
    (100000 ≡ sum_of (live_bytes "b") (run fresh actions).tickets)
    × (100000 ≤ 3 * unit_bytes)
    × (sum_of shared_bytes (run fresh actions).tickets
        ≤ (run fresh actions).shared_total * unit_bytes)
run-budget_example = run-budget fresh actions "b" after fresh-IsConserved second_waits

-- A call that waits at a flow keeps the permits that are free from the next attempt.
waiting_first :
    (step (run fresh (try_reserve "a" 130000 ∷ reserve "a" 150000 none ∷ [])) (try_reserve "a" 1)).1
    ≡ refused (memory_capacity 1)
unfolding run step get insert take_now check_now request check waits_for_flow waits_for_process
waiting_first = refl

try_reserve-drop_example :
    let back = (step (step fresh (try_reserve "a" 190000)).0 (drop 0)).0 in
    (get back.limiters "b" ≡ get fresh.limiters "b") × (back.shared_available ≡ 4)
try_reserve-drop_example = try_reserve-drop fresh "a" "b" limiter 190000 0 at_a granted_a

abbrev half_of_memory : MemoryLimiter
half_of_memory = record {
  available = 7629;
  shares = true;
  total_units = 7629;
  budget_bytes = 500000000;
  used = 0;
  backpressure = 0;
}

detect-budget_example :
    (half_of_memory.shares ≡ true)
    × (1 ≤ 50)
    × (50 ≤ 90)
    × (unit_bytes ≤ 600000000)
    × (500000000 ≤ 600000000)
    × (7629 * unit_bytes ≤ 600000000)
unfolding process_budget detect from_budget
detect-budget_example = detect-budget 1000000000 60 50 600000000 none half_of_memory refl refl
