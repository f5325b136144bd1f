-- ===== src/Executor/Routing/Leaks.antt =====
-- crates/jaiba-runtime/src/engine/executor/routing.rs: the reservations that routing makes, and whose
-- they are in the end.
use jaiva.Prelude.{
  ℕ, zero, suc, String, ◌≡◌, refl, sym, subst, inl, inr, ◌⊎◌, Bool, true, false, ◌&&◌, ◌||◌, not,
  none, List, [], ◌∷◌, ◌++◌, arith, ◌==◌, get_elem?, Bool-cases,
}
use jaiva.Error.{FlowError}
use jaiva.Limiter.{System, step, try_reserve, Reply, granted, queued, done, refused, no_such}
use jaiva.Executor.Routing.{
  Router, Reserved, reservations, out_of_memory, broken, unlimited, drop_all, refusal, on_reply,
  reserve_branches,
}
use jaiva.Executor.Routing.Tickets.{
  among, DistinctHandles, among-snoc, DistinctHandles-snoc, beyond,
}
use jaiva.Executor.Routing.Handles.{is_held_at, IsOurs, Tried, try_reserve-Tried, drop_all-held}

-- What the reservations of the branches come to.
abbrev pub Reserves : String → System → List ℕ → System × Reserved → Type 0
Reserves owner s made (after, reservations ks) =
    ((j : ℕ) → is_held_at after j ≡ (is_held_at s j || among ks j))
    × ((j : ℕ) → among ks j ≡ true → IsOurs owner after j)
    × ((j : ℕ) → among made j ≡ true → among ks j ≡ true)
    × ((j : ℕ) → among ks j ≡ true → among made j ≡ false → is_held_at s j ≡ false)
    × DistinctHandles ks
Reserves owner s made (after, _) =
    (j : ℕ) → is_held_at after j ≡ (is_held_at s j && not (among made j))

less :
    (s s' : System) (made : List ℕ) (k : ℕ)
    → is_held_at s k ≡ false
    → ((j : ℕ) → is_held_at s' j ≡ (is_held_at s j || k == j))
    → (j : ℕ) (b : Bool) → b ≡ (is_held_at s' j && not (among (made ++ k ∷ []) j))
    → b ≡ (is_held_at s j && not (among made j))
less s s' made k new_ one_more j b h = elim (Bool-cases (k == j)) [
  | inl same ↦
      let place : k ≡ j = ground (arith, same) in
      ground (arith, h, among-snoc made k j, same, subst (λ i. is_held_at s i ≡ false) place new_)
  | inr other ↦ ground (arith, h, among-snoc made k j, other, one_more j)
]

-- The same behind one reservation more.
Reserves-granted :
    (owner : String) (s s' : System) (made : List ℕ) (k : ℕ) (result : System × Reserved)
    → is_held_at s k ≡ false
    → ((j : ℕ) → is_held_at s' j ≡ (is_held_at s j || k == j))
    → Reserves owner s' (made ++ k ∷ []) result
    → Reserves owner s made result
Reserves-granted owner s s' made k (after, reservations ks) new_ one_more
      (held, ours, kept, fresh, apart) =
    let own : among ks k ≡ true = kept k (ground (arith, among-snoc made k k)) in
    (
      λ j. elim (Bool-cases (k == j)) [
        | inl same ↦
            let place : k ≡ j = ground (arith, same) in
            ground (arith, held j, one_more j, same, subst (λ i. among ks i ≡ true) place own)
        | inr other ↦ ground (arith, held j, one_more j, other)
      ],
      ours,
      λ j before. kept j (ground (arith, before, among-snoc made k j)),
      λ j taken before. elim (Bool-cases (k == j)) [
        | inl same ↦
            let place : k ≡ j = ground (arith, same) in
            subst (λ i. is_held_at s i ≡ false) place new_
        | inr other ↦
            let old = fresh j taken (ground (arith, before, other, among-snoc made k j)) in
            ground (arith, old, one_more j)
      ],
      apart,
    )
Reserves-granted owner s s' made k (after, out_of_memory e) new_ one_more h =
    λ j. less s s' made k new_ one_more j (is_held_at after j) (h j)
Reserves-granted owner s s' made k (after, broken e) new_ one_more h =
    λ j. less s s' made k new_ one_more j (is_held_at after j) (h j)
Reserves-granted owner s s' made k (after, unlimited) new_ one_more h =
    λ j. less s s' made k new_ one_more j (is_held_at after j) (h j)

refusal-cases : (e : FlowError) → (refusal e ≡ out_of_memory e) ⊎ (refusal e ≡ broken e)
unfolding refusal
refusal-cases e = ground arith

refusal-Reserves :
    (owner : String) (s after : System) (made : List ℕ) (e : FlowError)
    → ((j : ℕ) → is_held_at after j ≡ (is_held_at s j && not (among made j)))
    → Reserves owner s made (after, refusal e)
refusal-Reserves owner s after made e h = elim (refusal-cases e) [
  | inl full ↦ rw full h
  | inr other ↦ rw other h
]

-- The reply to one attempt, with the rest behind a grant.
on_reply-Reserves :
    (owner : String) (next : ℕ → System × Reserved) (s after : System) (made : List ℕ)
    (reply : Reply)
    → DistinctHandles made
    → ((j : ℕ) → among made j ≡ true → IsOurs owner s j)
    → Tried owner s (after, reply)
    → ((k : ℕ)
        → DistinctHandles (made ++ k ∷ [])
        → ((j : ℕ) → among (made ++ k ∷ []) j ≡ true → IsOurs owner after j)
        → Reserves owner after (made ++ k ∷ []) (next k))
    → Reserves owner s made (on_reply next after made reply)
unfolding on_reply refusal
on_reply-Reserves owner next s after made (granted k) apart ours (place, own, one_more, kept) rest =
    let out : get_elem? s.tickets k ≡ none =
      subst (λ i. get_elem? s.tickets i ≡ none) (sym place) (beyond s.tickets) in
    let new_ : is_held_at s k ≡ false = rw out refl in
    let unmade : among made k ≡ false = elim (Bool-cases (among made k)) [
      | inr absent ↦ absent
      | inl present ↦ let o = ours k present in absurd (ground (arith, out, o.at))
    ] in
    Reserves-granted owner s after made k (next k) new_ one_more (
      rest k (DistinctHandles-snoc made k apart unmade) (λ j more. elim (Bool-cases (k == j)) [
        | inl same ↦ let here : k ≡ j = ground (arith, same) in subst (IsOurs owner after) here own
        | inr other ↦ kept j (ours j (ground (arith, more, other, among-snoc made k j)))
      ]))
on_reply-Reserves owner next s after made (refused e) apart ours (same, kept) rest =
    refusal-Reserves owner s (drop_all after made) made e (λ j.
      ground (arith, same j, drop_all-held owner after made apart (λ i h. kept i (ours i h)) j))
on_reply-Reserves owner next s after made (queued k) apart ours (same, kept) rest =
    λ j. ground (arith, same j, drop_all-held owner after made apart (λ i h. kept i (ours i h)) j)
on_reply-Reserves owner next s after made done apart ours (same, kept) rest =
    λ j. ground (arith, same j, drop_all-held owner after made apart (λ i h. kept i (ours i h)) j)
on_reply-Reserves owner next s after made no_such apart ours (same, kept) rest =
    λ j. ground (arith, same j, drop_all-held owner after made apart (λ i h. kept i (ours i h)) j)

pub reserve_branches-Reserves :
    (ρ : Router) (bytes : ℕ) (s : System) (made : List ℕ) (n : ℕ)
    → DistinctHandles made
    → ((j : ℕ) → among made j ≡ true → IsOurs ρ.flow_id s j)
    → Reserves ρ.flow_id s made (reserve_branches ρ bytes s made n)
unfolding reserve_branches
reserve_branches-Reserves ρ bytes s made zero apart ours = (
  λ j. elim (Bool-cases (among made j)) [
    | inl taken ↦ let o = ours j taken in rw (o.at, o.phase_held) (ground (arith, taken))
    | inr free_ ↦ rw free_ (ground arith)
  ],
  ours,
  λ j h. h,
  λ j taken untaken. absurd (ground (arith, taken, untaken)),
  apart,
)
reserve_branches-Reserves ρ bytes s made (suc n) apart ours =
    let tried = step s (try_reserve ρ.flow_id bytes) in
    on_reply-Reserves ρ.flow_id _ s tried.0 made tried.1 apart ours
      (try_reserve-Tried ρ.flow_id s bytes)
      (λ k apart' ours'. reserve_branches-Reserves ρ bytes tried.0 (made ++ k ∷ []) n apart' ours')
