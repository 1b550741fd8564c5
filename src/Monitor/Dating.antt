-- ===== src/Monitor/Dating.antt =====
-- When an outage began (`transition` of src/modules/http-monitor/http-monitor.service.ts).
use aoox_api.Prelude.{
  ℕ, zero, suc, ◌≡◌, refl, Bool, true, false, Option, none, some, List, [], ◌∷◌, arith, take, last,
  Text,
}
use aoox_api.Monitor.{MonitorState, Event, went_down, recovered, next_state}
use aoox_api.Monitor.Rows.{Row, HttpCheck, Incident, Store}
use aoox_api.Monitor.Check.{
  ProbeResult, record_probe, transition, probed, error_of, is_ok, commit, starts_at,
}
use aoox_api.Monitor.Invariant.{all_failed}

last-take_failed :
    (n : ℕ) (checks : List HttpCheck)
    → all_failed (suc n) checks ≡ true
    → (c : HttpCheck) × (last (take (suc n) checks) ≡ some c × c.ok ≡ false)
unfolding all_failed
last-take_failed n [] h = absurd cc
last-take_failed zero (c ∷ checks) h = (c, (refl, ground arith))
last-take_failed (suc n) (c ∷ []) h = absurd (ground arith)
last-take_failed (suc n) (c ∷ d ∷ checks) h =
    let (c', (is_last, bad)) = last-take_failed n (d ∷ checks) (ground arith) in
    (c', (is_last, bad))

all_failed-cons :
    (n : ℕ) (c : HttpCheck) (checks : List HttpCheck)
    → c.ok ≡ false
    → all_failed n checks ≡ true
    → all_failed (suc n) (c ∷ checks) ≡ true
unfolding all_failed
all_failed-cons n c checks bad failed = ground (arith, bad)

transition-checks :
    (now : ℕ) (ev : Option Event) (error : Option Text) (p : Row) (s : Store)
    → (commit (transition now ev error p s)).checks ≡ s.checks
unfolding transition
transition-checks now (some went_down) error p s = refl
transition-checks now (some recovered) error p s = refl
transition-checks now none error p s = ground arith

starts_at-last :
    (now : ℕ) (p : Row) (s : Store) (c : HttpCheck)
    → last (take p.state.consecutive_failures s.checks) ≡ some c
    → starts_at now p s ≡ c.at
starts_at-last now p s c h = rw (h, starts_at)

opened :
    (now n : ℕ) (error : Option Text) (p : Row) (s : Store)
    → p.state.consecutive_failures ≡ suc n
    → all_failed (suc n) s.checks ≡ true
    → (i : Incident) × (c : HttpCheck) × ((commit
            (transition now (some went_down) error p s)).incidents
          ≡ i ∷ s.incidents
        × i.failed_checks ≡ suc n
        × last (take (suc n) s.checks) ≡ some c
        × c.ok ≡ false
        × i.started_at ≡ c.at)
unfolding transition
opened now n error p s count failed =
    let (c, (is_last, bad)) = last-take_failed n s.checks failed in
    (
      record {
        started_at = starts_at now p s;
        ended_at = none;
        reason = error;
        failed_checks = p.state.consecutive_failures;
      },
      c,
      (refl, count, is_last, bad, starts_at-last now p s c (rw count is_last)),
    )

next_state-went_down :
    (st : MonitorState) (ok : Bool) (threshold : ℕ)
    → (next_state st ok threshold).event ≡ some went_down
    → ok ≡ false
      × (next_state st ok threshold).state.consecutive_failures ≡ suc st.consecutive_failures
unfolding next_state
next_state-went_down st true threshold h = absurd (ground arith)
next_state-went_down st false threshold h = (refl, ground arith)

-- An incident that a check opens counts the failed checks in a row up to that check, each of them
-- failed, and starts at the time of the oldest of them.
pub record_probe-dates :
    (now : ℕ) (address : Text) (result : ProbeResult) (r : Row) (s : Store)
    → all_failed r.state.consecutive_failures s.checks ≡ true
    → (next_state r.state (is_ok result r.config.expected_codes) r.config.failure_threshold).event
      ≡ some went_down
    → (i : Incident) × (c : HttpCheck) × ((record_probe now address result r s).0.incidents
          ≡ i ∷ s.incidents
        × all_failed i.failed_checks (record_probe now address result r s).0.checks ≡ true
        × last (take i.failed_checks (record_probe now address result r s).0.checks) ≡ some c
        × c.ok ≡ false
        × i.started_at ≡ c.at)
unfolding record_probe
record_probe-dates now address result r s failed event =
    let ok = is_ok result r.config.expected_codes in
    let error = error_of ok result in
    let c : HttpCheck = record {
      at = now;
      ok = ok;
      status_code = result.status_code;
      latency_ms = result.latency_ms;
      error = error;
    } in
    let (bad, count) = next_state-went_down r.state ok r.config.failure_threshold event in
    let all : all_failed (suc r.state.consecutive_failures) (c ∷ s.checks) ≡ true =
      all_failed-cons r.state.consecutive_failures c s.checks bad failed in
    let (i, c', (added, counted, is_last, failing, dated)) =
      opened now r.state.consecutive_failures error (probed now ok error address result r)
        (record s { checks = c ∷ s.checks }) (unfold probed in count) all in
    let same =
      transition-checks now (next_state r.state ok r.config.failure_threshold).event error
        (probed now ok error address result r) (record s { checks = c ∷ s.checks }) in
    (i, c', (rw event added, rw (same, counted) all, rw (same, counted) is_last, failing, dated))
