-- ===== src/Alerter/Once.antt =====
-- Which problems the runs of ops/polymarket-deadman-alerter.py alert.
use Prim.Native.String.{String}
use text.Mathlib.Text.{◌==◌}
use text.Mathlib.TextEquality.{eq_iff}
use polymarket_live_copy.Prelude.{
  ◌≡◌, refl, ap, sym, ◌∙◌, true, false, ◌++◌, inl, inr, Bool, not, ◌&&◌, ◌||◌, some, List, [], ◌∷◌,
  is_some, arith, Option-cases, Bool-cases, if◌then◌else◌,
}
use polymarket_live_copy.Prelude.Table.{Table, lookup, upsert, lookup-upsert}
use polymarket_live_copy.Alerter.{
  mem, dedupe_key, keys, Problem, fingerprint, fingerprints, Findings, current_rows, AlertState,
  Webhook, call, message, answer, send_rows, next_state, run_alerter,
}

-- The results have an entry for the fingerprint: an answer of the webhook, or that none is
-- configured.
abbrev pub has_result : String → Table String → Bool
has_result f results = is_some (lookup f results)

has_result-upsert :
    (k f : String) (r : String) (results : Table String)
    → has_result f (upsert k r results) ≡ ((k == f) || has_result f results)
has_result-upsert k f r results = ground (arith, lookup-upsert k f r results)

send_rows-has_result :
    (w : Webhook) (previous : List String) (rows : List Problem) (f : String)
    (results final : Table String)
    → (send_rows w previous rows results).1 ≡ some final
    → has_result f final
      ≡ (has_result f results || mem f (fingerprints rows) && not (mem (dedupe_key f) previous))
unfolding send_rows mem fingerprints
send_rows-has_result w previous [] f results final h = ground arith
send_rows-has_result w previous (p ∷ rest) f results final h =
    elim (Bool-cases (mem (dedupe_key (fingerprint p)) previous)) [
      | inl known ↦
          ground
            (arith, send_rows-has_result w previous rest f results final, eq_iff (fingerprint p) f)
      | inr fresh ↦ elim (Option-cases (answer w p).1) [
        | inl raised ↦ absurd (ground arith)
        | inr (r, answered) ↦ ground (
          arith,
          send_rows-has_result w previous rest f (upsert (fingerprint p) r results) final,
          has_result-upsert (fingerprint p) f r results,
          eq_iff (fingerprint p) f,
        )
      ]
    ]

-- The rows whose key is not among the keys of the run before.
unfoldable pub new_problems : List String → List Problem → List Problem
new_problems previous [] = []
new_problems previous (p ∷ rest) =
    let others = new_problems previous rest in
    if mem (dedupe_key (fingerprint p)) previous then others else p ∷ others

unfoldable pub messages : List Problem → List String
messages [] = []
messages (p ∷ rest) = message p ∷ messages rest

-- What a webhook is sent for the rows: a message for each, or nothing with no URL.
abbrev pub sent_for : Bool → List Problem → List String
sent_for true rows = messages rows
sent_for false rows = []

sent_for-none : (b : Bool) → sent_for b [] ≡ []
unfolding messages
sent_for-none b = ground arith

sent_for-cons :
    (b : Bool) (p : Problem) (rest : List Problem)
    → sent_for b (p ∷ []) ++ sent_for b rest ≡ sent_for b (p ∷ rest)
unfolding messages
sent_for-cons true p rest = refl
sent_for-cons false p rest = refl

answer-calls : (w : Webhook) (p : Problem) → (answer w p).0 ≡ sent_for w.configured (p ∷ [])
unfolding answer call messages
answer-calls w p = ground arith

send_rows-calls :
    (w : Webhook) (previous : List String) (rows : List Problem) (results final : Table String)
    → (send_rows w previous rows results).1 ≡ some final
    → (send_rows w previous rows results).0 ≡ sent_for w.configured (new_problems previous rows)
unfolding send_rows new_problems
send_rows-calls w previous [] results final h = sym (sent_for-none w.configured)
send_rows-calls w previous (p ∷ rest) results final h =
    elim (Bool-cases (mem (dedupe_key (fingerprint p)) previous)) [
      | inl known ↦ ground (arith, send_rows-calls w previous rest results final)
      | inr fresh ↦ elim (Option-cases (answer w p).1) [
        | inl raised ↦ absurd (ground arith)
        | inr (r, answered) ↦
            let others =
              send_rows-calls w previous rest (upsert (fingerprint p) r results) final
                (ground arith) in
            rw (fresh, answered, others, answer-calls w p) (sent_for-cons w.configured p _)
      ]
    ]

run_alerter-calls :
    (w : Webhook) (found : Findings) (s s' : AlertState)
    → (run_alerter w found s).1 ≡ some s'
    → (run_alerter w found s).0 ≡ (
        sent_for w.configured
          (new_problems (keys s.active_problem_fingerprints) (current_rows found)))
unfolding run_alerter
run_alerter-calls w found s s' h =
    elim (Option-cases
      (send_rows w (keys s.active_problem_fingerprints) (current_rows found) []).1) [
        | inl raised ↦ absurd (ground arith)
        | inr (results, sent) ↦
            send_rows-calls w (keys s.active_problem_fingerprints) (current_rows found) [] results
              sent
      ]

run_alerter-has_result :
    (w : Webhook) (found : Findings) (s s' : AlertState) (f : String)
    → (run_alerter w found s).1 ≡ some s'
    → (s'.active_problem_fingerprints ≡ fingerprints (current_rows found))
      × (has_result f s'.last_problem_results ≡ (
          mem f (fingerprints (current_rows found))
          && not (mem (dedupe_key f) (keys s.active_problem_fingerprints))))
unfolding run_alerter next_state lookup
run_alerter-has_result w found s s' f h =
    elim (Option-cases
      (send_rows w (keys s.active_problem_fingerprints) (current_rows found) []).1) [
        | inl raised ↦ absurd (ground arith)
        | inr (results, sent) ↦
            let e =
              send_rows-has_result w (keys s.active_problem_fingerprints) (current_rows found) f []
                results sent in
            let same : next_state found results s ≡ s' = ground arith in
            (
              sym (ap (λ v. v.active_problem_fingerprints) same),
              sym (ap (λ v. has_result f v.last_problem_results) same) ∙ e,
            )
      ]

-- After a run that saved its state, the next run that saves its state calls a configured webhook
-- exactly once for each problem that it finds and whose key is not one of the run before, in their
-- order and with that problem's message, and never calls it without a URL; its results have an
-- entry for exactly those problems. The key is the fingerprint up to the wording that
-- `_dedupe_key` replaces: a problem that lasts is not alerted again, and one that was gone for a
-- run is.
pub new_problems_are_alerted :
    (w : Webhook) (before found : Findings) (s s' s'' : AlertState) (f : String)
    → (run_alerter w before s).1 ≡ some s'
    → (run_alerter w found s').1 ≡ some s''
    → ((run_alerter w found s').0 ≡ (
        sent_for w.configured
          (new_problems (keys (fingerprints (current_rows before))) (current_rows found))))
      × (has_result f s''.last_problem_results ≡ (
          mem f (fingerprints (current_rows found))
          && not (mem (dedupe_key f) (keys (fingerprints (current_rows before))))))
new_problems_are_alerted w before found s s' s'' f first second =
    let saved = (run_alerter-has_result w before s s' f first).0 in
    (
      run_alerter-calls w found s' s'' second
          ∙ ap (λ active. sent_for w.configured (new_problems (keys active) (current_rows found)))
              saved,
      (run_alerter-has_result w found s' s'' f second).1
          ∙ ap
              (λ active.
                mem f (fingerprints (current_rows found)) && not (mem (dedupe_key f) (keys active)))
              saved,
    )
