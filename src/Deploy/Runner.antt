-- ===== src/Deploy/Runner.antt =====
-- What a deployment keeps, its log, and the application's row (`DeploymentLog`, `persistOutcome`,
-- `recordFailure` and `statusAfterFailure` of src/modules/application/deployment-runner.service.ts;
-- src/modules/application/deployment-steps.ts).
use aoox_api.Prelude.{
  List, ℕ, Bool, true, false, not, ◌&&◌, Option, none, some, ltb, is_some, or_else, Text, text_eq,
  if◌then◌else◌,
}
use aoox_api.Redact.{new_redactor, add_all, mask}
use aoox_api.Deploy.{
  Failure, Result, ok, err, M, ◌>>=◌, ◌>>◌, Engine, App, starting_up, unhealthy, Inspection,
}

pub data DeploymentStatus : Type 0 where
  queued building pushing starting success failed : DeploymentStatus

pub data ApplicationStatus : Type 0 where
  idle running stopped error : ApplicationStatus

-- The start of each timed step, as a number of milliseconds.
pub record StepTimes : Type 0 where
  pub building_at : Option ℕ
  pub pushing_at : Option ℕ
  pub starting_at : Option ℕ

pub record Deployment : Type 0 where
  pub status : DeploymentStatus
  pub image_ref : Option Text
  pub error_message : Option Text
  pub finished_at : Option ℕ
  pub step_times : StepTimes

-- The columns of the application's row that the runner writes or reads.
pub record AppRow : Type 0 where
  pub row_status : ApplicationStatus
  pub row_image : Option Text
  pub image_source : Option Text
  pub image_digest : Option Text

-- The last line of the log after a failed start.
pub data Note : Type 0 where
  still_serving first_deployment not_restored replaced : Note

-- The services that the runner calls beside the daemon's containers.
pub record Services (e : Engine) : Type 0 where
  pub for_server : M e.W (Unit {0})
  pub find_self_hosted : M e.W Bool
  pub credentials : M e.W (Unit {0})
  pub registry_password : M e.W (Unit {0})
  pub pull : Text → M e.W (Unit {0})
  pub ensure_image : Text → M e.W (Unit {0})
  pub remote_digest : M e.W (Option Text)
  pub build_static : M e.W (Unit {0})
  pub build_railpack : M e.W (Unit {0})
  pub build_nixpacks : M e.W (Unit {0})
  pub build_docker : M e.W (Unit {0})
  pub push : M e.W (Unit {0})
  -- The save of the deployment with its log: a forced one, and one only of text that waits.
  pub save_log : M e.W (Unit {0})
  pub save_waiting : M e.W (Unit {0})
  -- What `log.redact` was given so far, and `encodeURIComponent`.
  pub secrets : e.W → List Text
  pub encode : Text → Text
  -- A write of the application's row.
  pub write : M e.W (Unit {0})
  -- The swarm's running replicas.
  pub swarm_running : M e.W ℕ
  -- It never throws.
  pub retire_daemons : e.W → e.W

pub record State (e : Engine) : Type 0 where
  pub world : e.W
  pub deployment : Deployment
  -- The deployment as it was last saved.
  pub stored : Deployment
  pub row : AppRow
  -- The application that the runner holds.
  pub app : App
  pub notes : Option Note

-- The first time wins.
unfoldable pub record_step : StepTimes → DeploymentStatus → ℕ → StepTimes
record_step t building now =
    if is_some t.building_at then t else record t { building_at = some now }
record_step t pushing now = if is_some t.pushing_at then t else record t { pushing_at = some now }
record_step t starting now =
    if is_some t.starting_at then t else record t { starting_at = some now }
record_step t _ now = t

-- A note is what `failureNote` says.
unfoldable pub failure_note : ApplicationStatus → Bool → Bool → Note
failure_note running first recovery_failed = still_serving
failure_note _ first recovery_failed =
    if first then first_deployment else if recovery_failed then not_restored else replaced

module _ (e : Engine) (srv : Services e) where
  open e use {W, Container, find, inspect, now}
  open srv use {for_server, write, swarm_running, save_log, save_waiting, secrets, encode}

  abbrev pub S : Type 0
  S = State e

  abbrev pub lift : {A : Type 0} → M W A → M S A
  lift m s = let (w, r) = m s.world in (record s { world = w }, r)

  -- `setStatus`
  unfoldable pub set_status : DeploymentStatus → S → S
  unfolding record_step
  set_status status s = record s {
    deployment = record s.deployment {
      status = status;
      step_times = record_step s.deployment.step_times status (now s.world);
    };
  }

  -- A save that fails leaves the stored deployment as it is.
  abbrev pub saved : S → W × Result (Unit {0}) → S × Result (Unit {0})
  saved s (w, ok _) = (record s { world = w; stored = s.deployment }, ok tt)
  saved s (w, err f) = (record s { world = w }, err f)

  -- `note` and `flush(true)`; the text of the log is not kept.
  abbrev pub flush : M S (Unit {0})
  flush s = saved s (save_log s.world)

  -- `flush()` after a step: the deployment beside the text is what the step saved.
  abbrev pub flush_waiting : M S (Unit {0})
  flush_waiting s = saved s (save_waiting s.world)

  unfoldable pub step : DeploymentStatus → M S (Unit {0})
  unfolding set_status
  step status s = flush (set_status status s)

  -- `redactor.apply`, on what was registered by then.
  unfoldable pub masked : W → Text → Text
  masked w message = mask (add_all encode (secrets w) new_redactor).forms message

  abbrev pub masked_or_none : W → Option Text → Option Text
  masked_or_none w none = none
  masked_or_none w (some message) = some (masked w message)

  -- The deployment as `finish` saves it, before it is announced.
  abbrev pub finished : DeploymentStatus → Option Text → S → S
  finished status message s = record s {
    deployment = record s.deployment {
      error_message = masked_or_none s.world message;
      finished_at = some (now s.world);
      status = status;
    };
  }

  abbrev pub announce : DeploymentStatus → S × Result (Unit {0}) → S × Result (Unit {0})
  announce status (s, ok _) = (set_status status s, ok tt)
  announce status (s, err f) = (s, err f)

  unfoldable pub finish : DeploymentStatus → Option Text → M S (Unit {0})
  unfolding set_status masked
  finish status message s = announce status (flush (finished status message s))

  abbrev pub hold : Option Text → App → App
  hold none app = app
  hold (some image) app = record app { current_image = some image }

  -- A write that fails leaves the row as it is.
  abbrev pub row_written :
      ApplicationStatus → Option Text → S → W × Result (Unit {0}) → S × Result (Unit {0})
  row_written status image s (w, err f) = (record s { world = w }, err f)
  row_written status image s (w, ok _) = (
    record s {
      world = w;
      row = record s.row { row_status = status; row_image = or_else image s.row.row_image };
    },
    ok tt,
  )

  -- The columns that `persistOutcome` writes, and the copy that the runner holds.
  unfoldable pub persist_row : ApplicationStatus → Option Text → M S (Unit {0})
  persist_row status image s =
      row_written status image (record s { app = hold image s.app }) (write s.world)

  abbrev pub same_source : Option Text → Text → Bool
  same_source none ref = false
  same_source (some source) ref = text_eq source ref

  abbrev pub baseline_written :
      Text × Option Text → S → W × Result (Unit {0}) → S × Result (Unit {0})
  baseline_written baseline s (w, err f) = (record s { world = w }, err f)
  baseline_written (ref, digest) s (w, ok _) = (
    if same_source s.row.image_source ref
        then record s { world = w; row = record s.row { image_digest = digest } }
        else record s { world = w },
    ok tt,
  )

  -- The baseline of the auto-update, only while the source is the one that was pulled.
  unfoldable pub persist_baseline : Option (Text × Option Text) → M S (Unit {0})
  persist_baseline none s = (s, ok tt)
  persist_baseline (some baseline) s = baseline_written baseline s (write s.world)

  unfoldable pub persist_outcome :
      ApplicationStatus → Option Text → Option (Text × Option Text) → M S (Unit {0})
  unfolding persist_row persist_baseline
  persist_outcome status image baseline = do persist_row status image; persist_baseline baseline

  abbrev pub status_of_health : Option Inspection → ApplicationStatus
  status_of_health none = error
  status_of_health (some c) =
      if not c.running
      then error
      else (elim c.health [ unhealthy ↦ error | starting_up ↦ error | _ ↦ running ])

  abbrev pub or_error : W × Result ApplicationStatus → W × ApplicationStatus
  or_error (w, ok status) = (w, status)
  or_error (w, err f) = (w, error)

  abbrev pub status_of_replicas : W × Result ℕ → W × ApplicationStatus
  status_of_replicas (w, ok n) = (w, if ltb 0 n then running else error)
  status_of_replicas (w, err f) = (w, error)

  abbrev pub status_of_found : Option Container → M W ApplicationStatus
  status_of_found none w = (w, ok error)
  status_of_found (some c) w = (inspect c >>= λ info w'. (w', ok (status_of_health info))) w

  unfoldable pub status_after_failure : App → W → W × ApplicationStatus
  status_after_failure app w =
      if app.is_service
      then status_of_replicas (swarm_running w)
      else or_error ((do for_server; found ← find app.name; status_of_found found) w)

  abbrev pub is_running : ApplicationStatus → Bool
  is_running running = true
  is_running _ = false

  unfoldable pub record_failure : Option (Text × Option Text) → Failure → S → S
  unfolding status_after_failure persist_outcome failure_note
  record_failure baseline f s =
      let (w, status) = status_after_failure s.app s.world in
      let s' = (persist_outcome status none baseline (record s { world = w })).0 in
      if f.recovered && is_running status
      then s'
      else (flush (record s' {
        notes = some (failure_note status (not (is_some s'.app.current_image)) f.unrecovered);
      })).0
