-- ===== src/Monitor/Checking.antt =====
-- A check keeps the incidents in step with the status (`check` and `transition` of
-- src/modules/http-monitor/http-monitor.service.ts).
use aoox_api.Prelude.{
  ℕ, ◌+◌, ◌≡◌, refl, Bool, true, false, ◌&&◌, Option, none, some, List, ◌∷◌, arith, leb, Text,
  is_some, if◌then◌else◌, inl, inr, Bool-cases,
}
use aoox_api.Monitor.{Event, went_down, recovered, is_down, next_state, should_realert}
use aoox_api.Monitor.Rows.{Row, HttpCheck, Incident, Store, open_count}
use aoox_api.Monitor.Check.{ProbeResult, transition, probed, record_probe, commit, error_of, is_ok}
use aoox_api.Monitor.Invariant.{
  all_failed, all_failed, all_failed, IsConsistentRow, IsConsistent, open_count-close_newest,
  all_failed-suc,
}

-- What an event asks of the row and the incidents that it meets.
pub Fits : Option Event → Row → List Incident → Type 0
Fits (some went_down) p is_ = open_count is_ ≡ 0 × is_down p.state.status ≡ true
Fits (some recovered) p is_ = open_count is_ ≡ 1 × is_down p.state.status ≡ false
Fits none p is_ =
    open_count is_ ≡ (if is_down p.state.status then 1 else 0)
    × ((is_down p.state.status ≡ true) → is_some p.last_alert_at ≡ true)

pub transition-IsConsistent :
    (now : ℕ) (ev : Option Event) (error : Option Text) (p : Row) (s : Store)
    → Fits ev p s.incidents
    → all_failed p.state.consecutive_failures s.checks ≡ true
    → (is_down p.state.status ≡ true → p.config.enabled ≡ true)
    → IsConsistent (commit (transition now ev error p s))
unfolding IsConsistent transition Fits
transition-IsConsistent now (some went_down) error p s fits failed alive = record {
  counted = ground (arith, fits.0, fits.1);
  alive = alive;
  announced = λ h. refl;
  failed = failed;
}
transition-IsConsistent now (some recovered) error p s fits failed alive =
    let closed = open_count-close_newest now s.incidents in
    record {
      counted = ground (arith, fits.0, fits.1);
      alive = alive;
      announced = λ h. absurd (cc (fits.1));
      failed = failed;
    }
transition-IsConsistent now none error p s fits failed alive =
    elim (Bool-cases (is_down p.state.status && should_realert p.last_alert_at now)) [
      | inl again ↦
          rw again
            (record { counted = fits.0; alive = alive; announced = λ h. refl; failed = failed })
      | inr quiet ↦
          rw quiet (record { counted = fits.0; alive = alive; announced = fits.1; failed = failed })
    ]

pub next_state-Fits :
    (now : ℕ) (ok : Bool) (error : Option Text) (address : Text) (result : ProbeResult) (r : Row)
    (s : Store)
    → IsConsistentRow r s.checks s.incidents
    → Fits
        (next_state r.state ok r.config.failure_threshold).event
        (probed now ok error address result r)
        s.incidents
unfolding next_state probed Fits
next_state-Fits now true error address result r s inv = let counted = inv.counted in ground arith
next_state-Fits now false error address result r s inv =
    let counted = inv.counted in
    let announced = inv.announced in
    elim (Bool-cases (leb r.config.failure_threshold (r.state.consecutive_failures + 1))) [
      | inl reached ↦ elim (Bool-cases (is_down r.state.status)) [
        | inl was ↦ rw (reached, was) (ground (arith, was), λ h. announced was)
        | inr fresh ↦ rw (reached, fresh) (ground (arith, fresh), refl)
      ]
      | inr below ↦ rw below (counted, announced)
    ]

pub next_state-failed :
    (ok : Bool) (c : HttpCheck) (r : Row) (s : Store)
    → c.ok ≡ ok
    → all_failed r.state.consecutive_failures s.checks ≡ true
    → all_failed
        (next_state r.state ok r.config.failure_threshold).state.consecutive_failures
        (c ∷ s.checks)
      ≡ true
unfolding next_state
next_state-failed true c r s same failed = unfold all_failed in refl
next_state-failed false c r s same failed =
    let longer = all_failed-suc r.state.consecutive_failures c s.checks in
    ground (arith, longer, same)

pub record_probe-IsConsistent :
    (now : ℕ) (address : Text) (result : ProbeResult) (r : Row) (s : Store)
    → r.config.enabled ≡ true
    → IsConsistentRow r s.checks s.incidents
    → IsConsistent (record_probe now address result r s).0
unfolding record_probe
record_probe-IsConsistent now address result r s on inv =
    let ok = is_ok result r.config.expected_codes in
    let error = error_of ok result in
    let c : HttpCheck = record {
      at = now;
      ok = ok;
      status_code = result.status_code;
      latency_ms = result.latency_ms;
      error = error;
    } in
    unfold probed in
    transition-IsConsistent now (next_state r.state ok r.config.failure_threshold).event error
      (probed now ok error address result r) (record s { checks = c ∷ s.checks })
      (next_state-Fits now ok error address result r s inv)
      (next_state-failed ok c r s refl inv.failed) (λ h. on)
