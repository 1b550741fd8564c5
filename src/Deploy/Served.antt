-- ===== src/Deploy/Served.antt =====
-- What a deployment that succeeded wrote.
use aoox_api.Prelude.{◌≡◌, true, false, some, Text}
use aoox_api.Deploy.{Result, ok, Engine}
use aoox_api.Deploy.Runner.{success, failed, Services, State, flush}
use aoox_api.Deploy.Build.{Source}
use aoox_api.Deploy.Run.{DeploymentKind, Baseline, obtain, is_rerun}
use aoox_api.Deploy.Switch.{Serves, IsReplaced}

module _ (e : Engine) (srv : Services e) where
  -- The image was obtained for this deployment, or is the one that it was asked to run again.
  pub IsGiven : DeploymentKind → Source → Text → State e → Text → Type 0
  IsGiven kind source tag s image = elim (is_rerun e srv kind) [
    | true ↦ s.deployment.image_ref ≡ some image
    | false ↦
        (baseline : Baseline) × (obtain e srv source tag (flush e srv s).0).1 ≡ ok (image, baseline)
  ]

  HasFailed : State e × Result (Unit {0}) → Type 0
  HasFailed r = r.0.deployment.status ≡ failed

  -- The result of a deployment.
  IsServed : (Text → Type 0) → State e × Result (Unit {0}) → Type 0
  IsServed G r =
      r.0.deployment.status ≡ success
      → (image : Text) × (G image × IsReplaced e srv image × Serves e srv image r.0)
