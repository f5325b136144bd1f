-- ===== src/Graph/Release.antt =====
-- The invariant of Kahn's loop in crates/jaiba-core/src/graph.rs, and the inner `for` loop.
use jaiva.Prelude.{
  ℕ, suc, ◌+◌, String, ◌≡◌, refl, ◌∙◌, true, false, some, List, [], ◌∷◌, ◌++◌, arith, str_eq_iff,
  ◌==◌, if◌then◌else◌, All, count, contains, count-append, get, insert, get-insert,
}
use jaiva.Config.{ConnectionConfig}
use jaiva.Graph.{ok, Kahn, release_one, release}
use jaiva.Graph.Counts.{remaining}

abbrev pub one_if_zero : ℕ → ℕ
one_if_zero n = if n == 0 then 1 else 0

-- `ds` holds the targets of the processor just taken that the `for` loop has still to visit.
-- An identifier is queued or done once, exactly when no predecessor is left.
pub record Inv (ids : List String) (cs : List ConnectionConfig) (ds : List String) (s : Kahn)
    : Type 0 where
  pub degrees :
      (v : String)
      → contains ids v ≡ true
      → get s.indegree v ≡ some (remaining s.order cs v + count v ds)
  pub queued :
      (v : String)
      → contains ids v ≡ true
      → count v s.pending + count v s.order ≡ one_if_zero (remaining s.order cs v + count v ds)
  pub foreign : (v : String) → contains ids v ≡ false → count v s.pending + count v s.order ≡ 0

-- A `for` loop over known targets neither fails an `expect` nor subtracts below 0.
pub release_one-Inv :
    (ids : List String) (cs : List ConnectionConfig) (d : String) (ds : List String) (s : Kahn)
    → contains ids d ≡ true
    → Inv ids cs (d ∷ ds) s
    → (t : Kahn) × (release_one s d ≡ ok t) × Inv ids cs ds t × (t.order ≡ s.order)
unfolding release_one
release_one-Inv ids cs d ds s known h =
    let left = remaining s.order cs d + count d ds in
    let t = record s {
      pending = if left == 0 then s.pending ++ d ∷ [] else s.pending;
      indegree = insert s.indegree d left;
    } in
    let degree : get s.indegree d ≡ some (suc left) =
      ground (arith, h.degrees d known, str_eq_iff d d) in
    (
      t,
      ground arith,
      record {
        degrees =
            λ v k. ground (arith, h.degrees v k, get-insert s.indegree d v left, str_eq_iff d v);
        queued =
            λ v k. ground (arith, h.queued v k, count-append v s.pending (d ∷ []), str_eq_iff d v);
        foreign =
            λ v k. ground (arith, h.foreign v k, count-append v s.pending (d ∷ []), str_eq_iff d v);
      },
      refl,
    )

pub release-Inv :
    (ids : List String) (cs : List ConnectionConfig) (ds : List String) (s : Kahn)
    → All (λ d. contains ids d ≡ true) ds
    → Inv ids cs ds s
    → (t : Kahn) × (release s ds ≡ ok t) × Inv ids cs [] t × (t.order ≡ s.order)
unfolding release
release-Inv ids cs [] s known h = (s, refl, h, refl)
release-Inv ids cs (d ∷ ds) s (k, ks) h =
    let (t, stepped, inv, same) = release_one-Inv ids cs d ds s k h in
    let (u, done, inv', same') = release-Inv ids cs ds t ks inv in
    (u, rw stepped done, inv', same' ∙ same)
