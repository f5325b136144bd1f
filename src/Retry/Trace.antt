-- ===== src/Retry/Trace.antt =====
-- Reading the effects of crates/jaiba-runtime/src/engine/executor/retry.rs.
use jaiva.Prelude.{
  ℕ, suc, String, ◌≡◌, refl, ap, subst, ◌∙◌, ◌==◌, inl, inr, Bool, true, false, List, [], ◌∷◌, ◌++◌,
  if◌then◌else◌, Bool-cases, Option-cases,
}
use mathlib.Core.List.{append-nil}
use jaiva.Packet.{DataPacket}
use jaiva.Retry.{
  World, Effect, recorded, executed, counted_records, counted_processed, counted_retried,
  counted_failed, finished, slept, offered, emitted, ProvenanceEvent, processing_started, processed,
  retried, Answer, Settings, backoff, record_if, attempt_once, sleep_and_retry, report_success,
}

-- The parts of a trace.
abbrev pub sleeps : List Effect → List ℕ
sleeps [] = []
sleeps (slept d ∷ es) = d ∷ sleeps es
sleeps (_ ∷ es) = sleeps es

abbrev pub retries : List Effect → ℕ
retries [] = 0
retries (counted_retried ∷ es) = suc (retries es)
retries (_ ∷ es) = retries es

abbrev pub emissions : List Effect → List (String × DataPacket)
emissions [] = []
emissions (emitted r p ∷ es) = (r, p) ∷ emissions es
emissions (_ ∷ es) = emissions es

abbrev pub offers : List Effect → List (String × DataPacket)
offers [] = []
offers (offered r p ∷ es) = (r, p) ∷ offers es
offers (_ ∷ es) = offers es

abbrev pub successes : List Effect → ℕ
successes [] = 0
successes (counted_processed ∷ es) = suc (successes es)
successes (_ ∷ es) = successes es

abbrev pub failures : List Effect → ℕ
failures [] = 0
failures (counted_failed ∷ es) = suc (failures es)
failures (_ ∷ es) = failures es

abbrev pub executions : List Effect → ℕ
executions [] = 0
executions (executed p ∷ es) = suc (executions es)
executions (_ ∷ es) = executions es

-- The effects that none of the parts reads.
abbrev pub IsQuiet : List Effect → Type 0
IsQuiet [] = Unit
IsQuiet (recorded _ _ ∷ es) = IsQuiet es
IsQuiet (executed _ ∷ es) = IsQuiet es
IsQuiet (counted_records _ ∷ es) = IsQuiet es
IsQuiet (finished _ ∷ es) = IsQuiet es
IsQuiet (_ ∷ es) = ⊥

abbrev pub SameParts : List Effect → List Effect → Type 0
SameParts xs ys =
    (sleeps xs ≡ sleeps ys)
    × (retries xs ≡ retries ys)
    × (emissions xs ≡ emissions ys)
    × (successes xs ≡ successes ys)
    × (failures xs ≡ failures ys)
    × (offers xs ≡ offers ys)

pub SameParts-quiet : (xs ys : List Effect) → IsQuiet xs → SameParts (xs ++ ys) ys
SameParts-quiet [] ys q = (refl, refl, refl, refl, refl, refl)
SameParts-quiet (recorded _ _ ∷ xs) ys q = SameParts-quiet xs ys q
SameParts-quiet (executed _ ∷ xs) ys q = SameParts-quiet xs ys q
SameParts-quiet (counted_records _ ∷ xs) ys q = SameParts-quiet xs ys q
SameParts-quiet (finished _ ∷ xs) ys q = SameParts-quiet xs ys q
SameParts-quiet (_ ∷ xs) ys q = elim q [ ]

pub SameParts-nil : (xs : List Effect) → IsQuiet xs → SameParts xs []
SameParts-nil xs q = subst (λ ys. SameParts ys []) (append-nil xs) (SameParts-quiet xs [] q)

record_if-IsQuiet : (s : Settings) (e : ProvenanceEvent) (a : ℕ) → IsQuiet (record_if s e a)
record_if-IsQuiet s e a = elim s.persisted as (λ b. IsQuiet (if b then recorded e a ∷ [] else [])) [
  | true ↦ tt
  | false ↦ tt
]

IsQuiet-append : (xs ys : List Effect) → IsQuiet xs → IsQuiet ys → IsQuiet (xs ++ ys)
IsQuiet-append [] ys q r = r
IsQuiet-append (recorded _ _ ∷ xs) ys q r = IsQuiet-append xs ys q r
IsQuiet-append (executed _ ∷ xs) ys q r = IsQuiet-append xs ys q r
IsQuiet-append (counted_records _ ∷ xs) ys q r = IsQuiet-append xs ys q r
IsQuiet-append (finished _ ∷ xs) ys q r = IsQuiet-append xs ys q r
IsQuiet-append (_ ∷ xs) ys q r = elim q [ ]

attempt_once-IsQuiet :
    (w : World) (s : Settings) (n : ℕ) (packet : DataPacket) → IsQuiet (attempt_once w s n packet).1
unfolding attempt_once
attempt_once-IsQuiet w s n packet = elim (Option-cases (w.reserve n)) [
  | inl e ↦ rw (e, IsQuiet) tt
  | inr (error, e) ↦ rw (e, IsQuiet) tt
]

-- Everything up to the verdict on a round.
abbrev pub opening : World → Settings → ℕ → DataPacket → List Effect
opening w s n packet =
    record_if s processing_started packet.attempt ++ (attempt_once w s n packet).1

pub opening-IsQuiet :
    (w : World) (s : Settings) (n : ℕ) (packet : DataPacket) → IsQuiet (opening w s n packet)
opening-IsQuiet w s n packet =
    IsQuiet-append (record_if s processing_started packet.attempt) (attempt_once w s n packet).1
      (record_if-IsQuiet s processing_started packet.attempt) (attempt_once-IsQuiet w s n packet)

pub sleep_and_retry-parts :
    (s : Settings) (again : DataPacket) (before : List Effect) (rest : Answer × List Effect)
    → IsQuiet before
    → let es = (sleep_and_retry s again before rest).1 in
      (sleeps es ≡ backoff s.retry again.attempt ∷ sleeps rest.1)
      × (retries es ≡ suc (retries rest.1))
      × (emissions es ≡ emissions rest.1)
      × (successes es ≡ successes rest.1)
      × (failures es ≡ failures rest.1)
      × (offers es ≡ offers rest.1)
unfolding sleep_and_retry
sleep_and_retry-parts s again before rest q =
    let event = record_if s retried again.attempt in
    let tail = slept (backoff s.retry again.attempt) ∷ rest.1 in
    let a = SameParts-quiet before (counted_retried ∷ (event ++ tail)) q in
    let b = SameParts-quiet event tail (record_if-IsQuiet s retried again.attempt) in
    (a.0 ∙ b.0, a.1 ∙ ap suc b.1, a.2 ∙ b.2, a.3 ∙ b.3, a.4 ∙ b.4, a.5 ∙ b.5)

pub report_success-parts :
    (w : World) (s : Settings) (n : ℕ) (packet : DataPacket)
    → SameParts (report_success w s n packet) (counted_processed ∷ [])
unfolding report_success
report_success-parts w s n packet = elim (Bool-cases (w.emitted_records n == 0)) [
  | inl e ↦ rw e (quiet s.persisted)
  | inr e ↦ rw e (quiet s.persisted)
]
  where
    quiet :
        (b : Bool)
        → SameParts
            (counted_processed
              ∷ finished true
              ∷ (if b then recorded processed packet.attempt ∷ [] else []))
            (counted_processed ∷ [])
    quiet true = (refl, refl, refl, refl, refl, refl)
    quiet false = (refl, refl, refl, refl, refl, refl)
