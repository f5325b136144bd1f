-- ===== src/Retry/Rounds.antt =====
-- One round of crates/jaiba-runtime/src/engine/executor/retry.rs, and the rounds behind it.
use jaiva.Prelude.{
  ℕ, zero, suc, ◌+◌, ◌-◌, ◌≤◌, ◌<◌, String, ◌≡◌, refl, ap, ◌∙◌, inl, inr, true, false, Option, none,
  some, List, [], ◌∷◌, ◌++◌, arith, get, insert, get-insert, get-insert_self, str_eq_iff,
  Bool-cases,
}
use jaiva.Config.{RetryConfig}
use jaiva.Error.{FlowError}
use jaiva.Packet.{DataPacket}
use jaiva.Retry.{
  World, Effect, counted_failed, finished, Answer, done, gave_up, fatal, out_of_fuel, Settings,
  backoff, Judged, succeeded, refused, attempt_once, sleep_and_retry, give_up, emit_failure,
  on_emitted, conclude, report_success, mark_failed, is_too_large, may_retry, next_try, run,
}
use jaiva.Retry.Trace.{
  sleeps, retries, emissions, offers, successes, failures, SameParts-quiet, SameParts-nil, opening,
  opening-IsQuiet, sleep_and_retry-parts, report_success-parts,
}

-- The waits that `k` retries make, the first behind attempt `a`.
abbrev pub schedule : RetryConfig → ℕ → ℕ → List ℕ
schedule retry a zero = []
schedule retry a (suc k) = backoff retry (a + 1) ∷ schedule retry (a + 1) k

-- What an answer says of the effects that led to it.
-- What is out by `failure`, given the answer of `emit`.
abbrev pub accepted : DataPacket → Option FlowError → List (String × DataPacket)
accepted out none = ("failure", out) ∷ []
accepted out (some send_error) = []

abbrev pub Agrees : World → Settings → DataPacket → Answer → List Effect → Type 0
Agrees w s packet done es =
    (successes es ≡ 1) × (failures es ≡ 0) × (emissions es ≡ []) × (offers es ≡ [])
Agrees w s packet (gave_up message attempt) es =
    (out : DataPacket) × (offers es ≡ ("failure", out) ∷ [])
    × (emissions es ≡ accepted out (w.emit out))
    × (successes es ≡ 0)
    × (failures es ≡ 1)
    × (out.attempt ≡ attempt)
    × (out.content ≡ packet.content)
    × (get out.attributes "error.processor" ≡ some s.processor_id)
    × (get out.attributes "error.message" ≡ some message)
Agrees w s packet (fatal error) es =
    (is_too_large error ≡ true)
    × (successes es ≡ 0)
    × (failures es ≡ 0)
    × (emissions es ≡ [])
    × (offers es ≡ [])
Agrees w s packet out_of_fuel es = ⊥

may_retry-lt :
    (s : Settings) (packet : DataPacket) (e : FlowError)
    → may_retry s packet e ≡ true
    → packet.attempt < s.retry.maximum_attempts
unfolding may_retry
may_retry-lt s packet e h = ground arith

-- What the waits and retries of a round's conclusion must be, given those of the rounds behind it.
unfoldable pub Waits : Settings → ℕ → Answer × List Effect → Type 0
Waits s attempt r =
    (sleeps r.1 ≡ schedule s.retry attempt (retries r.1))
    × (retries r.1 ≤ s.retry.maximum_attempts - attempt)

-- A claim holds of a round's conclusion if it holds of its four ends.
conclude_rule :
    (P : Answer × List Effect → Type 0) (w : World) (s : Settings) (n : ℕ) (packet : DataPacket)
    (before : List Effect) (rest : Answer × List Effect) (outcome : Judged)
    → P (done, before ++ report_success w s n packet)
    → ((e : FlowError) → is_too_large e ≡ true → P (fatal e, before))
    → ((e : FlowError)
        → may_retry s packet e ≡ true
        → P (sleep_and_retry s (next_try packet) before rest))
    → ((e : FlowError) → P (give_up w s packet before e))
    → P (conclude w s n packet before rest outcome)
unfolding conclude
conclude_rule P w s n packet before rest succeeded on_done on_fatal on_retry on_give_up = on_done
conclude_rule P w s n packet before rest (refused e) on_done on_fatal on_retry on_give_up =
    elim (Bool-cases (is_too_large e)) [
      | inl large ↦ rw large (on_fatal e large)
      | inr small ↦ elim (Bool-cases (may_retry s packet e)) [
        | inl again ↦ rw (small, again) (on_retry e again)
        | inr last ↦ rw (small, last) (on_give_up e)
      ]
    ]

-- The effects of giving up.
abbrev last_effects : World → Settings → DataPacket → FlowError → List Effect
last_effects w s packet e =
    counted_failed ∷ finished false ∷ emit_failure w (mark_failed w s e packet)

on_emitted-parts :
    (out : DataPacket) (o : Option FlowError)
    → (sleeps (on_emitted out o) ≡ [])
      × (retries (on_emitted out o) ≡ 0)
      × (emissions (on_emitted out o) ≡ accepted out o)
      × (successes (on_emitted out o) ≡ 0)
      × (failures (on_emitted out o) ≡ 0)
      × (("failure", out) ∷ offers (on_emitted out o) ≡ ("failure", out) ∷ [])
unfolding on_emitted
on_emitted-parts out none = (refl, refl, refl, refl, refl, refl)
on_emitted-parts out (some e) = (refl, refl, refl, refl, refl, refl)

-- The part of the effects of giving up that the emission adds.
emit_failure-parts :
    (w : World) (out : DataPacket)
    → (sleeps (emit_failure w out) ≡ [])
      × (retries (emit_failure w out) ≡ 0)
      × (emissions (emit_failure w out) ≡ accepted out (w.emit out))
      × (successes (emit_failure w out) ≡ 0)
      × (failures (emit_failure w out) ≡ 0)
      × (offers (emit_failure w out) ≡ ("failure", out) ∷ [])
unfolding emit_failure
emit_failure-parts w out = on_emitted-parts out (w.emit out)

pub run-Waits :
    (fuel : ℕ) (w : World) (s : Settings) (n : ℕ) (packet : DataPacket)
    → Waits s packet.attempt (run fuel w s n packet)
unfolding Waits run next_try give_up
run-Waits zero w s n packet = (refl, omega arith)
run-Waits (suc fuel) w s n packet =
    let before = opening w s n packet in
    let rest = run fuel w s (suc n) (next_try packet) in
    let quiet = opening-IsQuiet w s n packet in
    conclude_rule (Waits s packet.attempt) w s n packet before rest (attempt_once w s n packet).0
      (ground (
        arith,
        SameParts-quiet before (report_success w s n packet) quiet,
        report_success-parts w s n packet,
      ))
      (λ e large. ground (arith, SameParts-nil before quiet))
      (λ e again. ground (
        arith,
        sleep_and_retry-parts s (next_try packet) before rest quiet,
        run-Waits fuel w s (suc n) (next_try packet),
        may_retry-lt s packet e again,
      ))
      (λ e. ground (
        arith,
        SameParts-quiet before (last_effects w s packet e) quiet,
        emit_failure-parts w (mark_failed w s e packet),
      ))

-- What an answer says is read off the emissions and counters, and off the packet's content.
Agrees-move :
    (w : World) (s : Settings) (p p' : DataPacket) (a : Answer) (es fs : List Effect)
    → emissions es ≡ emissions fs
    → successes es ≡ successes fs
    → failures es ≡ failures fs
    → offers es ≡ offers fs
    → p'.content ≡ p.content
    → Agrees w s p' a fs
    → Agrees w s p a es
Agrees-move w s p p' done es fs x y z o c h = ground arith
Agrees-move w s p p' (gave_up message attempt) es fs x y z o c
      (out, a0, a1, a2, a3, a4, a5, a6, a7) =
    (out, o ∙ a0, x ∙ a1, y ∙ a2, z ∙ a3, a4, a5 ∙ c, a6, a7)
Agrees-move w s p p' (fatal error) es fs x y z o c h = ground arith
Agrees-move w s p p' out_of_fuel es fs x y z o c h = h

pub run-Agrees :
    (fuel : ℕ) (w : World) (s : Settings) (n : ℕ) (packet : DataPacket)
    → s.retry.maximum_attempts - packet.attempt < fuel
    → Agrees w s packet (run fuel w s n packet).0 (run fuel w s n packet).1
unfolding run next_try sleep_and_retry give_up mark_failed
run-Agrees zero w s n packet h = absurd (omega arith)
run-Agrees (suc fuel) w s n packet h =
    let before = opening w s n packet in
    let rest = run fuel w s (suc n) (next_try packet) in
    let quiet = opening-IsQuiet w s n packet in
    conclude_rule (λ r. Agrees w s packet r.0 r.1) w s n packet before rest
      (attempt_once w s n packet).0
      (ground (
        arith,
        SameParts-quiet before (report_success w s n packet) quiet,
        report_success-parts w s n packet,
      ))
      (λ e large. ground (arith, large, SameParts-nil before quiet))
      (λ e again.
        let parts = sleep_and_retry-parts s (next_try packet) before rest quiet in
        Agrees-move w s packet (next_try packet) rest.0
          (sleep_and_retry s (next_try packet) before rest).1 rest.1 parts.2 parts.3 parts.4 parts.5
          refl
          (run-Agrees fuel w s (suc n) (next_try packet)
            (let lt = may_retry-lt s packet e again in omega arith)))
      (λ e.
        let parts = SameParts-quiet before (last_effects w s packet e) quiet in
        let out = emit_failure-parts w (mark_failed w s e packet) in
        let named = insert packet.attributes "error.processor" s.processor_id in
        (
          mark_failed w s e packet,
          parts.5 ∙ out.5,
          parts.2 ∙ out.2,
          parts.3 ∙ out.3,
          parts.4 ∙ ap suc out.4,
          refl,
          refl,
          ground (
            arith,
            get-insert named "error.message" "error.processor" (w.show e),
            get-insert_self packet.attributes "error.processor" s.processor_id,
            str_eq_iff "error.message" "error.processor",
          ),
          get-insert_self named "error.message" (w.show e),
        ))
