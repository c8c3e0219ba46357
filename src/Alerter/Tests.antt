-- ===== src/Alerter/Tests.antt =====
-- Runs of the alerter.
use polymarket_live_copy.Prelude.{◌≡◌, refl, true, false, not, ◌&&◌, Option, none, some, [], ◌∷◌}
use polymarket_live_copy.Prelude.Table.{lookup, upsert}
use polymarket_live_copy.Alerter.{
  mem, replace, dedupe_key, keys, fingerprint, fingerprints, Findings, rows_of, current_rows,
  without, unique, individual_problems, AlertState, Webhook, message, call, answer, send_rows,
  next_state, run_alerter,
}
use polymarket_live_copy.Alerter.Once.{has_result, new_problems, sent_for, new_problems_are_alerted}

abbrev webhook : Webhook
webhook = record { configured = true; send_alert = λ text. some "http_200" }

abbrev start : AlertState
start = record {
  alerting = false;
  active_problem_fingerprints = [];
  last_problem_results = [];
  recovered_at_ms = none;
  last_run_at_ms = 0;
}

abbrev stopped : Findings
stopped = record { critical_problems = "unit down" ∷ []; warning_lines = []; now_ms = 1 }

abbrev degraded : Findings
degraded = record {
  critical_problems = "unit down" ∷ [];
  warning_lines = "发现需要关注的跟单问题。" ∷ "late" ∷ "late" ∷ [];
  now_ms = 2;
}

abbrev or_start : Option AlertState → AlertState
or_start none = start
or_start (some s) = s

abbrev first : AlertState
first = or_start (run_alerter webhook stopped start).1

abbrev second : AlertState
second = or_start (run_alerter webhook degraded first).1

first_run : (run_alerter webhook stopped start).1 ≡ some first
unfolding lookup upsert mem replace dedupe_key keys fingerprint fingerprints rows_of current_rows
    without unique individual_problems message call answer send_rows next_state run_alerter
first_run = refl

second_run : (run_alerter webhook degraded first).1 ≡ some second
unfolding first_run
second_run = refl

new_problems_are_alerted_example :
    ((run_alerter webhook degraded first).0 ≡ (
      sent_for true
        (new_problems (keys (fingerprints (current_rows stopped))) (current_rows degraded))))
    × (has_result "WARNING|late" second.last_problem_results ≡ (
        mem "WARNING|late" (fingerprints (current_rows degraded))
        && not (mem (dedupe_key "WARNING|late") (keys (fingerprints (current_rows stopped))))))
new_problems_are_alerted_example =
    new_problems_are_alerted webhook stopped degraded start first second "WARNING|late" first_run
      second_run

-- The unit that is still down is not alerted again, and the warning is.
alerts_run :
    ((run_alerter webhook degraded first).0 ≡ "【WARNING】Polymarket 跟单告警\nlate" ∷ [])
    × (has_result "CRITICAL|unit down" second.last_problem_results ≡ false)
    × (has_result "WARNING|late" second.last_problem_results ≡ true)
unfolding first_run
alerts_run = (refl, refl, refl)
