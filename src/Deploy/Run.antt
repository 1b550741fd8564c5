-- ===== src/Deploy/Run.antt =====
-- A deployment from the queue to its end (`run`, `rollback`, `applyRuntimeConfig` of
-- src/modules/application/deployment-runner.service.ts; src/modules/application/follow-revert.ts).
use aoox_api.Prelude.{Bool, true, false, Option, none, some, Text, codes, if◌then◌else◌}
use aoox_api.Deploy.{Failure, Result, ok, err, M, ◌>>=◌, ◌>>◌, plain_failure, Engine}
use aoox_api.Deploy.Replace.{replace_container}
use aoox_api.Deploy.Runner.{
  DeploymentStatus, starting, success, failed, running, Services, State, lift, flush, step, finish,
  persist_outcome, record_failure, same_source,
}
use aoox_api.Deploy.Build.{Source, pull_source_image, build_targets, build_image}

pub data DeploymentKind : Type 0 where
  build rollback auto_update config : DeploymentKind

pub record FollowRevert : Type 0 where
  pub followed_ref : Text
  pub previous_ref : Text
  pub previous_digest : Option Text

abbrev pub Baseline : Type 0
Baseline = Option (Text × Option Text)

abbrev pub is_starting : DeploymentStatus → Bool
is_starting starting = true
is_starting _ = false

module _ (e : Engine) (srv : Services e) where
  abbrev pub S : Type 0
  S = State e

  -- `revertFollowedTag`: only while the reference is still the followed one. A failing write is logged.
  unfoldable pub revert_followed_tag : FollowRevert → S → S
  revert_followed_tag revert s =
      let (w, r) = srv.write s.world in
      elim r [
        | err f ↦ record s { world = w }
        | ok _ ↦
            if same_source e srv s.row.image_source revert.followed_ref
            then record s {
              world = w;
              row = record s.row {
                image_source = some revert.previous_ref;
                image_digest = revert.previous_digest;
              };
            }
            else record s { world = w }
      ]

  abbrev pub set_image : Text → M S (Unit {0})
  set_image image s =
      (record s { deployment = record s.deployment { image_ref = some image } }, ok tt)

  abbrev pub retire : M S (Unit {0})
  retire s = (record s { world = srv.retire_daemons s.world }, ok tt)

  abbrev pub replace_image : Text → M S (Unit {0})
  replace_image image s =
      lift e srv (λ w. (replace_container e s.app image >>= λ _ w'. (w', ok tt)) w) s

  abbrev pub found_digest :
      State e → Text → Result (Option Text) → State e × Result (Text × Baseline)
  found_digest s image (ok digest) = (s, ok (image, some (image, digest)))
  found_digest s image (err f) = (s, ok (image, some (image, none)))

  abbrev pub with_digest : Text → M S (Text × Baseline)
  with_digest image s =
      let (w, r) = srv.remote_digest s.world in found_digest (record s { world = w }) image r

  -- The image to run, and the digest to compare with later.
  abbrev pub obtain_by : Bool → Source → Text → M S (Text × Baseline)
  obtain_by true source tag = do image ← pull_source_image e srv source; with_digest image
  obtain_by false source tag = do
    registry ← build_targets e srv
    image ← build_image e srv source tag registry
    λ s. (s, ok (image, none))

  unfoldable pub obtain : Source → Text → M S (Text × Baseline)
  unfolding pull_source_image build_targets build_image
  obtain source tag = obtain_by source.is_image source tag

  -- The `try` block after the image is there.
  unfoldable pub start_image : Text → Baseline → M S (Unit {0})
  unfolding persist_outcome step finish
  start_image image baseline = do
    set_image image
    step e srv starting
    replace_image image
    persist_outcome e srv running (some image) baseline
    retire
    finish e srv success none

  abbrev pub revert : Option FollowRevert → S → S
  revert none s = s
  revert (some r) s = revert_followed_tag r s

  -- The `catch` block of `run`.
  unfoldable pub run_failed : Option FollowRevert → Baseline → Failure → M S (Unit {0})
  unfolding record_failure finish revert_followed_tag
  run_failed follow baseline f s =
      let s' = (if is_starting s.deployment.status then record_failure e srv baseline f s else s) in
      finish e srv failed (some f.message) (revert follow s')

  -- The `try` block ended well, or not.
  abbrev pub settle_run :
      Option FollowRevert → Baseline → S × Result (Unit {0}) → S × Result (Unit {0})
  settle_run follow baseline (s, ok _) = (s, ok tt)
  settle_run follow baseline (s, err f) = run_failed follow baseline f s

  abbrev pub run_obtained :
      Option FollowRevert → S × Result (Text × Baseline) → S × Result (Unit {0})
  run_obtained follow (s, err f) = run_failed follow none f s
  run_obtained follow (s, ok (image, baseline)) =
      settle_run follow baseline (start_image image baseline s)

  -- The `try` block of `rollback`.
  unfoldable pub rollback_body : Text → M S (Unit {0})
  unfolding persist_outcome step finish
  rollback_body image = do
    step e srv starting
    lift e srv srv.for_server
    lift e srv (srv.ensure_image image)
    replace_image image
    persist_outcome e srv running (some image) none
    retire
    finish e srv success none

  -- Its `catch` block, which throws if the log is not saved.
  abbrev pub settle_rollback : S × Result (Unit {0}) → S × Result (Unit {0})
  settle_rollback (s, ok _) = (s, ok tt)
  settle_rollback (s, err f) = finish e srv failed (some f.message) (record_failure e srv none f s)

  -- A rollback without an image throws into the `catch` block of `run`.
  unfoldable pub roll_back : Option FollowRevert → M S (Unit {0})
  unfolding rollback_body run_failed
  roll_back follow s = elim s.deployment.image_ref [
    | none ↦ run_failed follow none (plain_failure (codes "Rollback target has no image")) s
    | some image ↦ settle_run follow none (settle_rollback (rollback_body image s))
  ]

  abbrev pub is_rerun : DeploymentKind → Bool
  is_rerun rollback = true
  is_rerun config = true
  is_rerun _ = false

  unfoldable pub run_noted : DeploymentKind → Source → Text → Option FollowRevert → M S (Unit {0})
  unfolding obtain start_image roll_back
  run_noted kind source tag follow s =
      if is_rerun kind then roll_back follow s else run_obtained follow (obtain source tag s)

  -- The first note stands before the `try` block.
  unfoldable pub run : DeploymentKind → Source → Text → Option FollowRevert → M S (Unit {0})
  unfolding run_noted
  run kind source tag follow = flush e srv >> run_noted kind source tag follow
