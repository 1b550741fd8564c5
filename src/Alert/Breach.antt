-- ===== src/Alert/Breach.antt =====
-- What `evaluateBreach` decides, without the sort.
use aoox_api.Prelude.{
  ℕ, ◌+◌, ◌≤◌, ◌≡◌, ◌↔◌, inl, inr, refl, true, false, ◌&&◌, Option, some, List, [], ◌∷◌, arith, ltb,
  leb, length, every, any, last, Bool-cases, ltb→lt, if◌then◌else◌,
}
use aoox_api.Alert.{
  AlertMetric, MinuteReading, Evaluation, metric_value, is_above, sort_by_time, in_window,
  required_of, judge_window, evaluate_breach, latest_of, max_staleness_ms,
}
use aoox_api.Alert.Sorting.{
  IsSorted, length-sort_by_time, every-sort_by_time, any-sort_by_time, sort_by_time-IsSorted,
  any-last,
}

-- A window holds a breach: enough readings, one of them recent, and every one above the threshold.
pub IsBreach : AlertMetric → List MinuteReading → ℕ → ℕ → ℕ → Type 0
IsBreach metric window threshold required now =
    required ≤ length window
    × any (λ r. leb now (r.at + max_staleness_ms)) window ≡ true
    × every (λ r. is_above threshold (metric_value metric r)) window ≡ true

last-some : {A : Type 0} (x : A) (xs : List A) → (y : A) × last (x ∷ xs) ≡ some y
last-some x [] = (x, refl)
last-some x (y ∷ ys) = last-some y ys

judge_window-breaching :
    (metric : AlertMetric) (rows : List MinuteReading) (threshold now : ℕ)
    → IsSorted rows
    → 1 ≤ length rows
    → (ev : Evaluation) × (judge_window metric rows threshold now ≡ some ev
        × ev.breaching ≡ (
            any (λ r. leb now (r.at + max_staleness_ms)) rows
            && every (λ r. is_above threshold (metric_value metric r)) rows))
unfolding judge_window
judge_window-breaching metric [] threshold now s h = absurd (omega (arith, h))
judge_window-breaching metric (x ∷ xs) threshold now s h =
    let (newest, is_last) = last-some x xs in
    let late = any-last now max_staleness_ms x xs s newest is_last in
    let all = every (λ r. is_above threshold (metric_value metric r)) (x ∷ xs) in
    let ev : Evaluation = record {
      breaching = if ltb (newest.at + max_staleness_ms) now then false else all;
      latest_value = latest_of metric (x ∷ xs);
    } in
    (ev, (rw (is_last, judge_window), ground (arith, late)))

-- The evaluation of a window of at least a minute never throws, and it is a breach exactly if the
-- readings of the window, in any order, are one.
pub evaluate_breach_iff :
    (metric : AlertMetric) (rows : List MinuteReading) (threshold duration_minutes now : ℕ)
    (not_before : Option ℕ)
    → 1 ≤ duration_minutes
    → (ev : Evaluation) × (evaluate_breach metric rows threshold duration_minutes now not_before
          ≡ some ev
        × (ev.breaching ≡ true
            ↔ IsBreach metric
                (in_window rows duration_minutes now not_before)
                threshold
                (required_of duration_minutes)
                now))
unfolding evaluate_breach IsBreach
evaluate_breach_iff metric rows threshold duration_minutes now not_before h =
    let window = in_window rows duration_minutes now not_before in
    let sorted = sort_by_time window in
    let same_length = length-sort_by_time window in
    let same_every = every-sort_by_time (λ r. is_above threshold (metric_value metric r)) window in
    let same_any = any-sort_by_time (λ r. leb now (r.at + max_staleness_ms)) window in
    elim (Bool-cases (ltb (length sorted) (required_of duration_minutes))) [
      | inl few ↦
          let less = ltb→lt (length sorted) (required_of duration_minutes) few in
          (
            record { breaching = false; latest_value = latest_of metric sorted },
            (rw few, (λ e. absurd (cc), λ e. absurd (omega (arith, less, same_length, e.0)))),
          )
      | inr enough ↦
          let (ev, judged) =
            judge_window-breaching metric sorted threshold now (sort_by_time-IsSorted window)
              (ground (arith, enough, h)) in
          (
            ev,
            (
              rw enough judged.0,
              (
                λ e. ground (arith, enough, same_length, same_any, same_every, judged.1),
                λ e. ground (arith, e.1, e.2, same_any, same_every, judged.1),
              ),
            ),
          )
    ]
