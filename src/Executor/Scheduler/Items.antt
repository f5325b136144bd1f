-- ===== src/Executor/Scheduler/Items.antt =====
-- crates/jaiba-runtime/src/engine/executor/scheduler.rs: the items before and behind a round.
use jaiva.Prelude.{
  ℕ, ◌+◌, ◌≡◌, refl, inl, inr, Bool, true, false, Option, none, some, List, [], ◌∷◌, String, arith,
  All, count_if, count_if-append, contains, if◌then◌else◌, Bool-cases, get,
}
use jaiva.Config.{SchedulingConfig, OrderingMode, unordered, preserve, partitioned}
use jaiva.Error.{Result, ok, err}
use jaiva.Executor.{WorkItem}
use jaiva.Executor.Scheduler.{
  Round, Task, Tasks, wait, start, skip, after_claim, claimed, with_key, selected, by_ordering,
  consider, judge, launch, postpone, counted, schedule_available, partitions_of,
}
use jaiva.Executor.Scheduler.Ending.{Finally, schedule-Finally}

-- Another engine has the item: the repository refuses its claim.
abbrev pub ClaimLost : Round → WorkItem → Type 0
ClaimLost r item = (id : String) × (item.queue_id ≡ some id) × (r.claim id ≡ ok false)

module _ (r : Round) (s : Tasks) (item : WorkItem) where
  claimed_skip :
      (key queue_id : Option String)
      → item.queue_id ≡ queue_id
      → claimed r item key queue_id ≡ skip
      → ClaimLost r item
  unfolding claimed after_claim
  claimed_skip key none q e = absurd (ground (arith, e))
  claimed_skip key (some id) q e = (id, q, ground (arith, e))

  with_key_skip : (key : Result String) → with_key r s item key ≡ skip → ClaimLost r item
  unfolding with_key
  with_key_skip (err error) e = absurd (ground (arith, e))
  with_key_skip (ok key) e = elim (Bool-cases (contains (partitions_of s item.processor_id) key)) [
    | inl busy ↦ absurd (ground (arith, e, busy))
    | inr free ↦ claimed_skip (some key) item.queue_id refl (ground (arith, e, free))
  ]

  selected_skip : (selector : Option String) → selected r s item selector ≡ skip → ClaimLost r item
  unfolding selected
  selected_skip none e = absurd (ground (arith, e))
  selected_skip (some selector) e = with_key_skip (r.partition_key item selector) e

  by_ordering_skip :
      (d : SchedulingConfig) (ordering : OrderingMode)
      → by_ordering r s item d ordering ≡ skip
      → ClaimLost r item
  unfolding by_ordering
  by_ordering_skip d partitioned e = selected_skip d.partition_by e
  by_ordering_skip d unordered e = claimed_skip none item.queue_id refl e
  by_ordering_skip d preserve e = claimed_skip none item.queue_id refl e

  consider_skip : (d : Option SchedulingConfig) → consider r s item d ≡ skip → ClaimLost r item
  unfolding consider
  consider_skip none e = absurd (ground (arith, e))
  consider_skip (some d) e = by_ordering_skip d d.ordering (ground (arith, e))

  judge_skip : judge r s item ≡ skip → ClaimLost r item
  unfolding judge
  judge_skip e = consider_skip (get r.definitions item.processor_id) (ground (arith, e))

-- The items of a kind, pending and running.
abbrev pub items : (WorkItem → Bool) → Tasks → ℕ
items q s = count_if q s.pending + count_if (λ t. q t.item) s.running

-- What there was is there, or is one of the items whose claim is lost.
record Accounted (r : Round) (before s : Tasks) : Type 0 where
  lost : List WorkItem
  claims : All (ClaimLost r) lost
  counts : (q : WorkItem → Bool) → items q before ≡ items q s + count_if q lost

counts-pending :
    (q : WorkItem → Bool) (s : Tasks) (item : WorkItem) (rest : List WorkItem)
    → s.pending ≡ item ∷ rest
    → count_if q s.pending ≡ (if q item then 1 else 0) + count_if q rest
counts-pending q s item rest p = rw p (ground arith)

kept :
    (r : Round) (before s : Tasks) (item : WorkItem) (rest : List WorkItem)
    → s.pending ≡ item ∷ rest
    → Accounted r before s
    → (judge r s item ≡ wait → Accounted r before (postpone s item rest))
      × ((key : Option String)
          → judge r s item ≡ start key
          → Accounted r before (launch s item rest key))
      × (judge r s item ≡ skip → Accounted r before (record s { pending = rest }))
unfolding postpone launch
kept r before s item rest p inv = (
  (λ e. record {
    lost = inv.lost;
    claims = inv.claims;
    counts = λ q.
        ground
          (arith, inv.counts q, counts-pending q s item rest p, count_if-append q rest (item ∷ []));
  }),
  (λ key e. record {
    lost = inv.lost;
    claims = inv.claims;
    counts = λ q. ground (
      arith,
      inv.counts q,
      counts-pending q s item rest p,
      count_if-append (λ (t : Task). q t.item) s.running
          (record { item = item; partition_key = key } ∷ []),
    );
  }),
  (λ e. record {
    lost = item ∷ inv.lost;
    claims = (judge_skip r s item e, inv.claims);
    counts = λ q. ground (arith, inv.counts q, counts-pending q s item rest p);
  }),
)

-- Behind a round that did not fail each item, counted by any test, is pending or runs as often as
-- before the round, but for items of the repository whose claim is lost.
pub schedule_available-items :
    (r : Round) (unread : ℕ) (s : Tasks)
    → Finally
        (λ s'.
          (lost : List WorkItem) × All (ClaimLost r) lost
          × ((q : WorkItem → Bool) → items q s ≡ items q s' + count_if q lost))
        (schedule_available true r unread s)
unfolding schedule_available counted
schedule_available-items r unread s =
    schedule-Finally (counted r unread s) (λ s' i. Accounted (counted r unread s) s s') _
      (λ s' i item rest p a b inv. kept (counted r unread s) s s' item rest p inv)
      (λ s' i inv h. (inv.lost, inv.claims, inv.counts)) s
      (record { lost = []; claims = tt; counts = λ q. omega arith })
