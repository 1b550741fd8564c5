-- ===== src/Deploy/Untouched.antt =====
-- A deployment that gets no image, and the application's row.
use aoox_api.Prelude.{◌≡◌, refl, subst, ◌∙◌, ap, false, Option, none, some, arith, Text}
use aoox_api.Deploy.{Failure, Result, ok, err, M, continue, Engine}
use aoox_api.Deploy.Runner.{
  failed, AppRow, Services, State, saved, flush, set_status, masked, finished, announce, finish,
}
use aoox_api.Deploy.Build.{Source}
use aoox_api.Deploy.Run.{
  DeploymentKind, FollowRevert, Baseline, run, run_noted, run_failed, run_obtained, obtain, revert,
  revert_followed_tag, is_rerun, is_starting,
}
use aoox_api.Deploy.Quiet.{IsCalm, IsQuiet, flush-IsQuiet, obtain-IsQuiet}

module _ (e : Engine) (srv : Services e) where
  -- What the panel shows of the application.
  pub ShowsTheSame : AppRow → AppRow → Type 0
  ShowsTheSame r r' = r'.row_status ≡ r.row_status × r'.row_image ≡ r.row_image

  revert-ShowsTheSame :
      (follow : Option FollowRevert) (s : State e)
      → ShowsTheSame s.row (revert e srv follow s).row
        × (revert e srv follow s).deployment ≡ s.deployment
  unfolding ShowsTheSame revert_followed_tag
  revert-ShowsTheSame none s = ((refl, refl), refl)
  revert-ShowsTheSame (some r) s = ground arith

  -- What a deployment that could not start leaves: the row as the panel shows it, and the message of the
  -- failure with the secrets masked that the log knew when it was written.
  pub LeavesAlone : AppRow → e.W → Text → State e → Type 0
  LeavesAlone row w message s =
      ShowsTheSame row s.row
      × s.deployment.status ≡ failed
      × s.deployment.error_message ≡ some (masked e srv w message)

  announce-LeavesAlone :
      (row : AppRow) (w : e.W) (message : Text) (s : State e) (r : e.W × Result (Unit {0}))
      → LeavesAlone row w message s
      → LeavesAlone row w message (announce e srv failed (saved e srv s r)).0
  unfolding LeavesAlone set_status
  announce-LeavesAlone row w message s (w', ok u) h = (h.0, refl, h.2)
  announce-LeavesAlone row w message s (w', err f) h = h

  finish-LeavesAlone :
      (row : AppRow) (message : Text) (s : State e)
      → ShowsTheSame row s.row
      → LeavesAlone row s.world message (finish e srv failed (some message) s).0
  unfolding finish LeavesAlone
  finish-LeavesAlone row message s h =
      let s' = finished e srv failed (some message) s in
      announce-LeavesAlone row s.world message s' (srv.save_log s'.world) (h, refl, refl)

  run_failed-LeavesAlone :
      (follow : Option FollowRevert) (f : Failure) (s s' : State e)
      → IsCalm e srv s s'
      → LeavesAlone s.row
          (revert e srv follow s').world
          f.message
          (run_failed e srv follow none f s').0
  unfolding IsCalm ShowsTheSame run_failed
  run_failed-LeavesAlone follow f s s' calm =
      let same = (revert-ShowsTheSame follow s').0 in
      rw calm.1 (
        finish-LeavesAlone s.row f.message (revert e srv follow s')
          (same.0 ∙ ap (λ r. r.row_status) calm.0, same.1 ∙ ap (λ r. r.row_image) calm.0))

  run_obtained-LeavesAlone :
      (follow : Option FollowRevert) (s : State e) (f : Failure)
      (r : State e × Result (Text × Baseline))
      → IsCalm e srv s r.0
      → r.1 ≡ err f
      → LeavesAlone s.row (revert e srv follow r.0).world f.message (run_obtained e srv follow r).0
  run_obtained-LeavesAlone follow s f (s', ok a) calm h = absurd (cc)
  run_obtained-LeavesAlone follow s f (s', err g) calm h =
      let same : g ≡ f = cc in
      subst
        (λ (x : Failure).
          LeavesAlone s.row (revert e srv follow s').world x.message
            (run_failed e srv follow none g s').0)
        same (run_failed-LeavesAlone follow g s s' calm)

  continue-noted :
      (k : M (State e) (Unit {0})) (r : State e × Result (Unit {0}))
      → r.1 ≡ ok tt
      → continue (λ _. k) r ≡ k r.0
  continue-noted k (s, ok u) h = refl
  continue-noted k (s, err f) h = absurd (cc)

  -- A build or a pull that fails, after the first note is saved, leaves the status and the image that
  -- the panel shows of the application as they were, whether or not a followed tag is put back and
  -- whether or not the end is saved. The deployment has failed, with the message of the failure in
  -- which the secrets are masked that the log was given. It is a build, not a rollback, and has not
  -- started.
  pub run-ShowsTheSame :
      (kind : DeploymentKind) (source : Source) (tag : Text) (follow : Option FollowRevert)
      (s : State e) (f : Failure)
      → is_rerun e srv kind ≡ false
      → is_starting s.deployment.status ≡ false
      → (flush e srv s).1 ≡ ok tt
      → (obtain e srv source tag (flush e srv s).0).1 ≡ err f
      → LeavesAlone s.row
          (revert e srv follow (obtain e srv source tag (flush e srv s).0).0).world
          f.message
          (run e srv kind source tag follow s).0
  unfolding run run_noted IsQuiet IsCalm
  run-ShowsTheSame kind source tag follow s f fresh calm noted h =
      let s' = (flush e srv s).0 in
      let first = flush-IsQuiet e srv s calm in
      let rest = obtain-IsQuiet e srv source tag s' first.1 in
      let both : IsCalm e srv s (obtain e srv source tag s').0 = (rest.0 ∙ first.0, rest.1) in
      rw (continue-noted (run_noted e srv kind source tag follow) (flush e srv s) noted)
        (rw fresh (run_obtained-LeavesAlone follow s f (obtain e srv source tag s') both h))
