-- ===== src/Alerter.antt =====
-- ops/polymarket-deadman-alerter.py: one run of the alerter, from the problems that its checks
-- found to the alerts that it sends and the state that it saves. What the host answers is an
-- argument: the states of the units, and the answer of the webhook, `none` where the call raises.

pub mod Once
mod Tests
use Prim.Native.String.{String, ◌++◌ as append, count}
use text.Mathlib.Text.{◌==◌, starts_with}
use polymarket_live_copy.Prelude.{
  ℕ, zero, suc, ◌-◌, Bool, true, false, not, ◌&&◌, ◌||◌, Option, none, some, List, [], ◌∷◌, ◌++◌,
  if◌then◌else◌,
}
use polymarket_live_copy.Prelude.Table.{Table, upsert}

-- `text.replace(old, new)`, from left to right; the number counts the characters that are left of
-- the match before.
unfoldable pub replace : (old new : String) → ℕ → String → String
replace old new left String.[] = String.[]
replace old new (suc left) (String.◌∷◌ c s) = replace old new left s
replace old new zero (String.◌∷◌ c s) =
    if starts_with (String.◌∷◌ c s) old
    then append new (replace old new (count old - 1) s)
    else String.◌∷◌ c (replace old new 0 s)

-- `_dedupe_key`
unfoldable pub dedupe_key : String → String
dedupe_key fingerprint = replace "：累计历史上有 " "：本版本发布后有 " 0 fingerprint

-- `value in values`
unfoldable pub mem : String → List String → Bool
mem k [] = false
mem k (x ∷ rest) = x == k || mem k rest

-- What `expected_active_units` reads of a profile in the last line of the audit.
pub record Profile : Type 0 where
  pub paused : Bool
  pub unit : Option String
  pub hot_standby_unit : Option String

abbrev pub required_units : List String
required_units =
    "com.luke.polymarket.cd90-live.service" ∷ "com.luke.polymarket.cd90-live-hot-standby.service"
    ∷ "com.luke.polymarket.zockdo-live.service"
    ∷ "com.luke.polymarket.zockdo-live-hot-standby.service"
    ∷ "com.luke.polymarket.wallet-9506-live.service"
    ∷ "com.luke.polymarket.wallet-9506-live-hot-standby.service" ∷ []

unfoldable pub add_unit : Option String → List String → List String
add_unit none units = units
add_unit (some u) units =
    if mem u required_units && not (mem u units) then units ++ u ∷ [] else units

unfoldable pub gather_units : List Profile → List String → List String
gather_units [] units = units
gather_units (p ∷ rest) units =
    gather_units rest
      (if p.paused then units else add_unit p.hot_standby_unit (add_unit p.unit units))

abbrev pub or_required : List String → List String
or_required [] = required_units
or_required (u ∷ rest) = u ∷ rest

-- An audit without a dictionary of profiles is `none`.
unfoldable pub expected_active_units : Option (List Profile) → List String
expected_active_units none = required_units
expected_active_units (some profiles) = or_required (gather_units profiles [])

-- `check_units`; `status` is what systemctl answers for a unit.
unfoldable pub check_units : (String → String) → List String → List String
check_units status [] = []
check_units status (u ∷ rest) =
    let others = check_units status rest in
    if status u == "active"
    then others
    else append "单元 " (append u (append " 状态 " (status u))) ∷ others

abbrev pub is_headline : String → Bool
is_headline line =
    line == "发现需要关注的跟单问题。" || line == "系统仍在运行，但存在未完成跟单或外部限制。" || line == "健康检查发现异常，需要检查。"

unfoldable pub without : String → List String → List String
without k [] = []
without k (x ∷ rest) = let others = without k rest in if x == k then others else x ∷ others

-- `list(dict.fromkeys(lines))`
unfoldable pub unique : List String → List String
unique [] = []
unique (x ∷ rest) = x ∷ without x (unique rest)

-- `_individual_problems`, from the lines of the warning that are not blank.
unfoldable pub individual_problems : List String → List String
individual_problems [] = []
individual_problems (x ∷ []) = x ∷ []
individual_problems (x ∷ y ∷ rest) =
    if is_headline x then unique (y ∷ rest) else unique (x ∷ y ∷ rest)

pub data Severity : Type 0 where
  critical warning : Severity

abbrev pub name : Severity → String
name critical = "CRITICAL"
name warning = "WARNING"

-- An entry of `current_rows`.
pub record Problem : Type 0 where
  pub severity : Severity
  pub problem : String

unfoldable pub fingerprint : Problem → String
fingerprint p = append (name p.severity) (append "|" p.problem)

unfoldable pub rows_of : Severity → List String → List Problem
rows_of s [] = []
rows_of s (x ∷ rest) = record { severity = s; problem = x } ∷ rows_of s rest

unfoldable pub fingerprints : List Problem → List String
fingerprints [] = []
fingerprints (p ∷ rest) = fingerprint p ∷ fingerprints rest

-- What a run finds: the critical problems, the lines of the warning, and the time.
pub record Findings : Type 0 where
  pub critical_problems : List String
  pub warning_lines : List String
  pub now_ms : ℕ

unfoldable pub current_rows : Findings → List Problem
current_rows f =
    rows_of critical f.critical_problems ++ rows_of warning (individual_problems f.warning_lines)

-- The state file. The list of fingerprints is read back as a set.
pub record AlertState : Type 0 where
  pub alerting : Bool
  pub active_problem_fingerprints : List String
  pub last_problem_results : Table String
  pub recovered_at_ms : Option ℕ
  pub last_run_at_ms : ℕ

-- Whether a URL is configured, and the answer to a message.
pub record Webhook : Type 0 where
  pub configured : Bool
  pub send_alert : String → Option String

unfoldable pub message : Problem → String
message p = append "【" (append (name p.severity) (append "】Polymarket 跟单告警\n" p.problem))

-- `send_alert(message)`: the call that is made, and what it returns, `none` where it raises.
unfoldable pub call : Webhook → String → List String × Option String
call w text = (text ∷ [], w.send_alert text)

unfoldable pub answer : Webhook → Problem → List String × Option String
answer w p = if w.configured then call w (message p) else ([], some "no_webhook_configured")

unfoldable pub keys : List String → List String
keys [] = []
keys (x ∷ rest) = dedupe_key x ∷ keys rest

-- The loop over the rows: the calls of the webhook in their order, and the results, `none` where a
-- call raises.
unfoldable pub send_rows :
    Webhook → List String → List Problem → Table String → List String × Option (Table String)
send_rows w previous [] results = ([], some results)
send_rows w previous (p ∷ rest) results =
    if mem (dedupe_key (fingerprint p)) previous
    then send_rows w previous rest results
    else elim (answer w p).1 [
      | none ↦ ((answer w p).0, none)
      | some r ↦
          let (calls, final) = send_rows w previous rest (upsert (fingerprint p) r results) in
          ((answer w p).0 ++ calls, final)
    ]

abbrev pub is_none_left : List Problem → Bool
is_none_left [] = true
is_none_left (p ∷ rest) = false

abbrev pub is_some_left : List String → Bool
is_some_left [] = false
is_some_left (x ∷ rest) = true

unfoldable pub next_state : Findings → Table String → AlertState → AlertState
next_state f results s = record {
  alerting = is_some_left f.critical_problems;
  active_problem_fingerprints = fingerprints (current_rows f);
  last_problem_results = results;
  recovered_at_ms = if is_none_left (current_rows f) then some f.now_ms else s.recovered_at_ms;
  last_run_at_ms = f.now_ms;
}

abbrev pub save : Findings → AlertState → Option (Table String) → Option AlertState
save f s none = none
save f s (some results) = some (next_state f results s)

-- `main`: the calls of the webhook, and the state that is saved, or `none` where it raises and
-- saves none.
unfoldable pub run_alerter : Webhook → Findings → AlertState → List String × Option AlertState
run_alerter w f s =
    let sent = send_rows w (keys s.active_problem_fingerprints) (current_rows f) [] in
    (sent.0, save f s sent.1)

abbrev pub exit_code : Findings → ℕ
exit_code f = if is_some_left f.critical_problems then 1 else 0
