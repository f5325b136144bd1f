-- ===== src/Executor/Scheduler/Complete.antt =====
-- crates/jaiba-runtime/src/engine/executor/scheduler.rs: what is pending behind a round.
use jaiva.Prelude.{
  ℕ, suc, ◌≤◌, ◌<◌, ◌≡◌, refl, sym, ap, ◌∙◌, subst, ◌⊎◌, inl, inr, Option, none, some, List, [],
  ◌∷◌, ◌++◌, String, arith, length, length-append, All, true, get,
}
use mathlib.Core.List.{append-nil, append_assoc, tail-eq_of_cons-eq}
use jaiva.Config.{SchedulingConfig, OrderingMode, unordered, preserve, partitioned}
use jaiva.Error.{Result, ok, err}
use jaiva.Executor.{WorkItem}
use jaiva.Executor.Scheduler.{
  Round, Tasks, wait, start, skip, with_key, selected, by_ordering, consider, judge, launch,
  postpone, schedule, counted, schedule_available,
}
use jaiva.Executor.Scheduler.Ending.{Finally, schedule-Finally}

-- A verdict does not hang on what else is pending.
module _ (r : Round) (s : Tasks) (p : List WorkItem) (item : WorkItem) where
  with_key-pending :
      (key : Result String) → with_key r (record s { pending = p }) item key ≡ with_key r s item key
  unfolding with_key
  with_key-pending (err error) = refl
  with_key-pending (ok key) = refl

  selected-pending :
      (selector : Option String)
      → selected r (record s { pending = p }) item selector ≡ selected r s item selector
  unfolding selected
  selected-pending none = refl
  selected-pending (some selector) = with_key-pending (r.partition_key item selector)

  by_ordering-pending :
      (d : SchedulingConfig) (ordering : OrderingMode)
      → by_ordering r (record s { pending = p }) item d ordering ≡ by_ordering r s item d ordering
  unfolding by_ordering
  by_ordering-pending d partitioned = selected-pending d.partition_by
  by_ordering-pending d unordered = refl
  by_ordering-pending d preserve = refl

  consider-pending :
      (d : Option SchedulingConfig)
      → consider r (record s { pending = p }) item d ≡ consider r s item d
  unfolding consider
  consider-pending none = refl
  consider-pending (some d) = rw (by_ordering-pending d d.ordering) refl

  judge-pending : judge r (record s { pending = p }) item ≡ judge r s item
  unfolding judge
  judge-pending = rw (consider-pending (get r.definitions item.processor_id)) refl

abbrev Waiting : Round → Tasks → List WorkItem → Type 0
Waiting r s items = All (λ item. judge r s item ≡ wait) items

Waiting-pending :
    (r : Round) (s : Tasks) (p items : List WorkItem)
    → Waiting r s items
    → Waiting r (record s { pending = p }) items
Waiting-pending r s p [] h = tt
Waiting-pending r s p (x ∷ items) h = (judge-pending r s p x ∙ h.0, Waiting-pending r s p items h.1)

Waiting-append :
    (r : Round) (s : Tasks) (items : List WorkItem) (item : WorkItem)
    → Waiting r s items
    → judge r s item ≡ wait
    → Waiting r s (items ++ item ∷ [])
Waiting-append r s [] item h e = (e, tt)
Waiting-append r s (x ∷ items) item h e = (h.0, Waiting-append r s items item h.1 e)

-- The last `i` pending items have been looked at since something last started, and wait.
record Inspected (r : Round) (s : Tasks) (i : ℕ) : Type 0 where
  ahead : List WorkItem
  behind : List WorkItem
  whole : s.pending ≡ ahead ++ behind
  count : length behind ≡ i
  waits : Waiting r s behind

shorter :
    (ahead behind rest : List WorkItem) (item : WorkItem)
    → item ∷ rest ≡ ahead ++ behind
    → length behind < suc (length rest)
    → (more : List WorkItem) × (rest ≡ more ++ behind)
shorter [] behind rest item e less =
    absurd (let size : suc (length rest) ≡ length behind = ap length e in omega arith)
shorter (x ∷ ahead) behind rest item e less = (ahead, tail-eq_of_cons-eq e)

kept :
    (r : Round) (s : Tasks) (i : ℕ) (item : WorkItem) (rest : List WorkItem)
    → s.pending ≡ item ∷ rest
    → length s.running < r.concurrency_limit
    → i < suc (length rest)
    → Inspected r s i
    → (judge r s item ≡ wait → Inspected r (postpone s item rest) (suc i))
      × ((key : Option String)
          → judge r s item ≡ start key
          → Inspected r (launch s item rest key) 0)
      × (judge r s item ≡ skip → Inspected r (record s { pending = rest }) i)
unfolding postpone launch
kept r s i item rest p a b inv =
    let (more, split) =
      shorter inv.ahead inv.behind rest item (sym p ∙ inv.whole) (omega (arith, b, inv.count)) in
    (
      (λ e. record {
        ahead = more;
        behind = inv.behind ++ item ∷ [];
        whole = rw split (append_assoc more inv.behind (item ∷ []));
        count = omega (arith, inv.count, length-append inv.behind (item ∷ []));
        waits =
            Waiting-pending r s (rest ++ item ∷ []) (inv.behind ++ item ∷ [])
              (Waiting-append r s inv.behind item inv.waits e);
      }),
      (λ key e. record {
        ahead = rest;
        behind = [];
        whole = sym (append-nil rest);
        count = refl;
        waits = tt;
      }),
      (λ e. record {
        ahead = more;
        behind = inv.behind;
        whole = split;
        count = inv.count;
        waits = Waiting-pending r s rest inv.behind inv.waits;
      }),
    )

all_inspected :
    (r : Round) (s : Tasks) (i : ℕ) → Inspected r s i → length s.pending ≤ i → Waiting r s s.pending
all_inspected r s i inv less = go inv.ahead inv.whole
  where
    go : (ahead : List WorkItem) → s.pending ≡ ahead ++ inv.behind → Waiting r s s.pending
    go [] e = subst (Waiting r s) (sym e) inv.waits
    go (x ∷ ahead) e = absurd (
        let size : length s.pending ≡ suc (length (ahead ++ inv.behind)) = ap length e in
        omega (arith, size, length-append ahead inv.behind, inv.count))

schedule_complete :
    (r : Round) (s : Tasks)
    → Finally
        (λ s'. (r.concurrency_limit ≤ length s'.running) ⊎ Waiting r s' s'.pending)
        (schedule r s)
schedule_complete r s =
    schedule-Finally r (Inspected r) _ (kept r)
      (λ s' i inv h. elim h [
        | inl less ↦ inr (all_inspected r s' i inv less)
        | inr full ↦ inl full
      ])
      s
      (record {
        ahead = s.pending;
        behind = [];
        whole = sym (append-nil s.pending);
        count = refl;
        waits = tt;
      })

-- A round that did not fail leaves nothing behind that could have started: behind it the flow has
-- as many running tasks as it may, or each pending item has to wait.
pub schedule_available_complete :
    (r : Round) (unread : ℕ) (s : Tasks)
    → Finally
        (λ s'.
          (r.concurrency_limit ≤ length s'.running)
          ⊎ All (λ item. judge (counted r unread s) s' item ≡ wait) s'.pending)
        (schedule_available true r unread s)
unfolding schedule_available counted
schedule_available_complete r unread s = schedule_complete (counted r unread s) s
