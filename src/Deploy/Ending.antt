-- ===== src/Deploy/Ending.antt =====
-- How a deployment ends.
use aoox_api.Prelude.{
  ◌≡◌, ◌⊎◌, inl, inr, refl, true, Option, none, some, is_some, Text, codes, Bool-cases,
  Option-cases, if◌then◌else◌,
}
use aoox_api.Deploy.{Failure, Result, ok, err, M, continue, Engine, plain_failure}
use aoox_api.Deploy.Runner.{
  starting, set_status, success, failed, running, Deployment, Services, State, lift, saved, step,
  finished, announce, finish, persist_outcome, record_failure,
}
use aoox_api.Deploy.Build.{Source}
use aoox_api.Deploy.Run.{
  DeploymentKind, FollowRevert, Baseline, run, run_noted, roll_back, rollback_body, run_failed,
  settle_run, settle_rollback, run_obtained, start_image, set_image, replace_image, retire, obtain,
  revert, is_rerun, is_starting,
}

-- A deployment is over: it succeeded without an error message, or it failed with one.
pub IsOver : Deployment → Type 0
IsOver d =
    is_some d.finished_at ≡ true
    × ((d.status ≡ success × d.error_message ≡ none)
        ⊎ (d.status ≡ failed × is_some d.error_message ≡ true))

module _ (e : Engine) (srv : Services e) where
  -- Once a call returns, the deployment is stored as one that is over.
  EndsIfDone : State e × Result (Unit {0}) → Type 0
  EndsIfDone (s, ok u) = IsOver s.stored
  EndsIfDone (s, err f) = Unit

  -- The call returns, and it is.
  pub Ends : State e × Result (Unit {0}) → Type 0
  Ends r = (r.1 ≡ ok tt) × IsOver r.0.stored

  then-EndsIfDone :
      (k : M (State e) (Unit {0})) (r : State e × Result (Unit {0}))
      → ((s : State e) → EndsIfDone (k s))
      → EndsIfDone (continue (λ _. k) r)
  unfolding EndsIfDone
  then-EndsIfDone k (s, ok u) rest = rest s
  then-EndsIfDone k (s, err f) rest = tt

  announce-EndsIfDone :
      (s : State e) (r : e.W × Result (Unit {0}))
      → IsOver s.deployment
      → EndsIfDone (announce e srv success (saved e srv s r))
  unfolding EndsIfDone set_status
  announce-EndsIfDone s (w, ok u) over = over
  announce-EndsIfDone s (w, err f) over = tt

  finish-EndsIfDone : (s : State e) → EndsIfDone (finish e srv success none s)
  unfolding finish IsOver
  finish-EndsIfDone s =
      let s' = finished e srv success none s in
      announce-EndsIfDone s' (srv.save_log s'.world) (refl, inl (refl, refl))

  start_image-EndsIfDone :
      (image : Text) (baseline : Baseline) (s : State e)
      → EndsIfDone (start_image e srv image baseline s)
  unfolding start_image
  start_image-EndsIfDone image baseline s = then-EndsIfDone _ (set_image e srv image s) (λ s1.
      then-EndsIfDone _ (step e srv starting s1) (λ s2.
        then-EndsIfDone _ (replace_image e srv image s2) (λ s3.
          then-EndsIfDone _ (persist_outcome e srv running (some image) baseline s3)
            (λ s4. then-EndsIfDone _ (retire e srv s4) finish-EndsIfDone))))

  rollback_body-EndsIfDone : (image : Text) (s : State e) → EndsIfDone (rollback_body e srv image s)
  unfolding rollback_body
  rollback_body-EndsIfDone image s = then-EndsIfDone _ (step e srv starting s) (λ s1.
      then-EndsIfDone _ (lift e srv srv.for_server s1) (λ s2.
        then-EndsIfDone _ (lift e srv (srv.ensure_image image) s2) (λ s3.
          then-EndsIfDone _ (replace_image e srv image s3) (λ s4.
            then-EndsIfDone _ (persist_outcome e srv running (some image) none s4)
              (λ s5. then-EndsIfDone _ (retire e srv s5) finish-EndsIfDone)))))

  announce-Ends :
      (s : State e) (r : e.W × Result (Unit {0}))
      → r.1 ≡ ok tt
      → IsOver s.deployment
      → Ends (announce e srv failed (saved e srv s r))
  unfolding Ends set_status
  announce-Ends s (w, ok u) done over = (refl, over)
  announce-Ends s (w, err f) done over = absurd (cc)

  module _ (saves : (w : e.W) → (srv.save_log w).1 ≡ ok tt) where
    finish-Ends : (message : Text) (s : State e) → Ends (finish e srv failed (some message) s)
    unfolding finish IsOver
    finish-Ends message s =
        let s' = finished e srv failed (some message) s in
        announce-Ends s' (srv.save_log s'.world) (saves s'.world) (refl, inr (refl, refl))

    run_failed-Ends :
        (follow : Option FollowRevert) (baseline : Baseline) (f : Failure) (s : State e)
        → Ends (run_failed e srv follow baseline f s)
    unfolding run_failed
    run_failed-Ends follow baseline f s = finish-Ends f.message (
        revert e srv follow
          (if is_starting s.deployment.status then record_failure e srv baseline f s else s))

    settle_run-Ends :
        (follow : Option FollowRevert) (baseline : Baseline) (r : State e × Result (Unit {0}))
        → EndsIfDone r
        → Ends (settle_run e srv follow baseline r)
    unfolding EndsIfDone Ends
    settle_run-Ends follow baseline (s, ok u) over = (refl, over)
    settle_run-Ends follow baseline (s, err f) over = run_failed-Ends follow baseline f s

    run_obtained-Ends :
        (follow : Option FollowRevert) (r : State e × Result (Text × Baseline))
        → Ends (run_obtained e srv follow r)
    run_obtained-Ends follow (s, err f) = run_failed-Ends follow none f s
    run_obtained-Ends follow (s, ok (image, baseline)) =
        settle_run-Ends follow baseline (start_image e srv image baseline s)
          (start_image-EndsIfDone image baseline s)

    Ends-EndsIfDone : (r : State e × Result (Unit {0})) → Ends r → EndsIfDone r
    unfolding EndsIfDone Ends
    Ends-EndsIfDone (s, ok u) h = h.1
    Ends-EndsIfDone (s, err f) h = tt

    settle_rollback-EndsIfDone :
        (r : State e × Result (Unit {0})) → EndsIfDone r → EndsIfDone (settle_rollback e srv r)
    unfolding EndsIfDone
    settle_rollback-EndsIfDone (s, ok u) over = over
    settle_rollback-EndsIfDone (s, err f) over =
        Ends-EndsIfDone (finish e srv failed (some f.message) (record_failure e srv none f s))
          (finish-Ends f.message (record_failure e srv none f s))

    roll_back-Ends : (follow : Option FollowRevert) (s : State e) → Ends (roll_back e srv follow s)
    unfolding roll_back
    roll_back-Ends follow s = elim (Option-cases s.deployment.image_ref) [
      | inl bare ↦
          rw (bare, roll_back)
            (run_failed-Ends follow none (plain_failure (codes "Rollback target has no image")) s)
      | inr (image, there) ↦
          rw (there, roll_back)
            (settle_run-Ends follow none (settle_rollback e srv (rollback_body e srv image s)) (
              settle_rollback-EndsIfDone (rollback_body e srv image s)
                (rollback_body-EndsIfDone image s)))
    ]

    run_noted-Ends :
        (kind : DeploymentKind) (source : Source) (tag : Text) (follow : Option FollowRevert)
        (s : State e)
        → Ends (run_noted e srv kind source tag follow s)
    unfolding run_noted
    run_noted-Ends kind source tag follow s = elim (Bool-cases (is_rerun e srv kind)) [
      | inl again ↦ rw again (roll_back-Ends follow s)
      | inr fresh ↦ rw fresh (run_obtained-Ends follow (obtain e srv source tag s))
    ]

    noted-Ends :
        (s : State e) (k : M (State e) (Unit {0})) (r : e.W × Result (Unit {0}))
        → r.1 ≡ ok tt
        → ((s' : State e) → Ends (k s'))
        → Ends (continue (λ _. k) (saved e srv s r))
    noted-Ends s k (w, ok u) done rest = rest _
    noted-Ends s k (w, err f) done rest = absurd (cc)

    -- If every save of the log works, `run` returns and the deployment is stored with a time of its
    -- end, and as one that succeeded without an error message or failed with one, whatever the daemon,
    -- the registries and the writes of the application's row answer.
    pub run-IsOver :
        (kind : DeploymentKind) (source : Source) (tag : Text) (follow : Option FollowRevert)
        (s : State e)
        → ((run e srv kind source tag follow s).1 ≡ ok tt)
          × IsOver (run e srv kind source tag follow s).0.stored
    unfolding run Ends
    run-IsOver kind source tag follow s =
        noted-Ends s (run_noted e srv kind source tag follow) (srv.save_log s.world) (saves s.world)
          (run_noted-Ends kind source tag follow)
