-- ===== src/Deploy/Quiet.antt =====
-- What obtaining an image leaves alone (`pullSourceImage`, `buildTargets` and `buildImage` of
-- src/modules/application/deployment-runner.service.ts).
use aoox_api.Prelude.{◌≡◌, refl, ◌∙◌, Bool, true, false, not, Option, none, some, Text, codes, ◌++◌}
use aoox_api.Deploy.{Result, ok, err, M, ◌>>=◌, ◌>>◌, continue, Engine, plain_failure}
use aoox_api.Deploy.Runner.{
  DeploymentStatus, building, pushing, Services, State, lift, saved, flush, flush_waiting, step,
  set_status,
}
use aoox_api.Deploy.Build.{
  BuildType, dockerfile, nixpacks, railpack, static, Source, when, find_registry, require_registry,
  pull_reference, targets_of, build_on, pull_source_image, build_targets, run_builder, build_image,
}
use aoox_api.Deploy.Run.{obtain, obtain_by, found_digest, with_digest, is_starting}

module _ (e : Engine) (srv : Services e) where
  -- What an action that writes no row and starts nothing leaves behind.
  unfoldable pub IsCalm : State e → State e → Type 0
  IsCalm s s' = s'.row ≡ s.row × is_starting s'.deployment.status ≡ false

  unfoldable pub IsQuiet : {A : Type 0} → M (State e) A → Type 0
  IsQuiet m = (s : State e) → is_starting s.deployment.status ≡ false → IsCalm s (m s).0

  continue-IsCalm :
      {A B : Type 0} (f : A → M (State e) B) (s : State e) (r : State e × Result A)
      → ((a : A) → IsQuiet (f a))
      → IsCalm s r.0
      → IsCalm s (continue f r).0
  unfolding IsQuiet IsCalm
  continue-IsCalm f s (s', err x) quiet h = h
  continue-IsCalm f s (s', ok a) quiet h = let next = quiet a s' h.1 in (next.0 ∙ h.0, next.1)

  bind-IsQuiet :
      {A B : Type 0} (m : M (State e) A) (f : A → M (State e) B)
      → IsQuiet m
      → ((a : A) → IsQuiet (f a))
      → IsQuiet (m >>= f)
  unfolding IsQuiet
  bind-IsQuiet m f first quiet s calm = continue-IsCalm f s (m s) quiet (first s calm)

  lift-IsQuiet : {A : Type 0} (m : M e.W A) → IsQuiet (lift e srv m)
  unfolding IsQuiet IsCalm
  lift-IsQuiet m s calm = (refl, calm)

  pure-IsQuiet : {A : Type 0} (r : Result A) → IsQuiet (λ s. (s, r))
  unfolding IsQuiet IsCalm
  pure-IsQuiet r s calm = (refl, calm)

  saved-IsCalm :
      (s s' : State e) (r : e.W × Result (Unit {0})) → IsCalm s s' → IsCalm s (saved e srv s' r).0
  unfolding IsCalm
  saved-IsCalm s s' (w, ok u) calm = calm
  saved-IsCalm s s' (w, err f) calm = calm

  pub flush-IsQuiet : IsQuiet (flush e srv)
  unfolding IsQuiet IsCalm
  flush-IsQuiet s calm = saved-IsCalm s s (srv.save_log s.world) (refl, calm)

  flush_waiting-IsQuiet : IsQuiet (flush_waiting e srv)
  unfolding IsQuiet IsCalm
  flush_waiting-IsQuiet s calm = saved-IsCalm s s (srv.save_waiting s.world) (refl, calm)

  step-IsQuiet :
      (status : DeploymentStatus) → is_starting status ≡ false → IsQuiet (step e srv status)
  unfolding IsQuiet IsCalm step set_status
  step-IsQuiet status calm s h =
      let s' = set_status e srv status s in saved-IsCalm s s' (srv.save_log s'.world) (refl, calm)

  when-IsQuiet : (b : Bool) (m : M (State e) (Unit {0})) → IsQuiet m → IsQuiet (when e srv b m)
  when-IsQuiet true m quiet = quiet
  when-IsQuiet false m quiet = pure-IsQuiet (ok tt)

  then-IsQuiet :
      {B : Type 0} (m : M (State e) (Unit {0})) (k : M (State e) B)
      → IsQuiet m
      → IsQuiet k
      → IsQuiet (m >> k)
  then-IsQuiet m k first rest = bind-IsQuiet m (λ _. k) first (λ _. rest)

  pull_reference-IsQuiet :
      (source : Source) (ref : Option Text) → IsQuiet (pull_reference e srv source ref)
  pull_reference-IsQuiet source none =
      pure-IsQuiet (err (plain_failure (codes "Application has no image reference")))
  pull_reference-IsQuiet source (some ref) = then-IsQuiet _ _ (lift-IsQuiet srv.for_server) (
      then-IsQuiet _ _ (step-IsQuiet building refl) (
        then-IsQuiet _ _ (when-IsQuiet source.has_registry _ (lift-IsQuiet srv.registry_password)) (
          then-IsQuiet _ _ (lift-IsQuiet (srv.pull ref))
            (then-IsQuiet _ _ flush_waiting-IsQuiet (pure-IsQuiet (ok ref))))))

  find_registry-IsQuiet : (on_server : Bool) → IsQuiet (find_registry e srv on_server)
  find_registry-IsQuiet true = pure-IsQuiet (ok false)
  find_registry-IsQuiet false = lift-IsQuiet srv.find_self_hosted

  require_registry-IsQuiet :
      (on_server found : Bool) → IsQuiet (require_registry e srv on_server found)
  require_registry-IsQuiet true found = pure-IsQuiet (ok found)
  require_registry-IsQuiet false true = pure-IsQuiet (ok true)
  require_registry-IsQuiet false false = pure-IsQuiet (
      err (
        plain_failure (codes "No self-hosted registry. Provision one on the Registry page first.")))

  targets_of-IsQuiet : (on_server : Bool) → IsQuiet (targets_of e srv on_server)
  targets_of-IsQuiet on_server =
      then-IsQuiet _ _ (lift-IsQuiet srv.for_server)
        (bind-IsQuiet _ _ (find_registry-IsQuiet on_server) (require_registry-IsQuiet on_server))

  build_targets-IsQuiet : IsQuiet (build_targets e srv)
  unfolding IsQuiet build_targets
  build_targets-IsQuiet s = targets_of-IsQuiet s.app.on_server s

  run_builder-IsQuiet :
      (kind : BuildType) (on_server : Bool) → IsQuiet (run_builder e srv kind on_server)
  unfolding run_builder
  run_builder-IsQuiet static on_server = lift-IsQuiet srv.build_static
  run_builder-IsQuiet nixpacks on_server = lift-IsQuiet srv.build_nixpacks
  run_builder-IsQuiet dockerfile on_server = lift-IsQuiet srv.build_docker
  run_builder-IsQuiet railpack true =
      pure-IsQuiet (err (plain_failure (codes "Railpack builds run on the aoox host only")))
  run_builder-IsQuiet railpack false = lift-IsQuiet srv.build_railpack

  build_on-IsQuiet :
      (on_server : Bool) (source : Source) (tag : Text) (registry : Bool)
      → IsQuiet (build_on e srv on_server source tag registry)
  build_on-IsQuiet on_server source tag registry =
      then-IsQuiet _ _
        (when-IsQuiet (not source.has_git_url) _
          (pure-IsQuiet (err (plain_failure (codes "Application has no git repository")))))
        (then-IsQuiet _ _ (when-IsQuiet source.has_credential _ (lift-IsQuiet srv.credentials)) (
          then-IsQuiet _ _ (step-IsQuiet building refl) (
            then-IsQuiet _ _ (run_builder-IsQuiet source.build_type on_server) (
              then-IsQuiet _ _ flush_waiting-IsQuiet (
                then-IsQuiet _ _ (step-IsQuiet pushing refl) (
                  then-IsQuiet _ _
                    (when-IsQuiet registry _ (
                      then-IsQuiet _ _ (lift-IsQuiet srv.registry_password)
                        (lift-IsQuiet srv.push)))
                    (then-IsQuiet _ _ flush_waiting-IsQuiet
                      (pure-IsQuiet (ok (source.image_name registry ++ codes ":" ++ tag))))))))))

  build_image-IsQuiet :
      (source : Source) (tag : Text) (registry : Bool)
      → IsQuiet (build_image e srv source tag registry)
  unfolding IsQuiet build_image
  build_image-IsQuiet source tag registry s = build_on-IsQuiet s.app.on_server source tag registry s

  found_digest-IsCalm :
      (image : Text) (s : State e) (r : Result (Option Text))
      → is_starting s.deployment.status ≡ false
      → IsCalm s (found_digest e srv s image r).0
  unfolding IsCalm
  found_digest-IsCalm image s (ok d) calm = (refl, calm)
  found_digest-IsCalm image s (err f) calm = (refl, calm)

  with_digest-IsQuiet : (image : Text) → IsQuiet (with_digest e srv image)
  unfolding IsQuiet IsCalm
  with_digest-IsQuiet image s calm =
      let (w, r) = srv.remote_digest s.world in
      found_digest-IsCalm image (record s { world = w }) r calm

  pull_source_image-IsQuiet : (source : Source) → IsQuiet (pull_source_image e srv source)
  unfolding pull_source_image
  pull_source_image-IsQuiet source = pull_reference-IsQuiet source source.image_ref

  obtain_by-IsQuiet :
      (is_image : Bool) (source : Source) (tag : Text)
      → IsQuiet (obtain_by e srv is_image source tag)
  obtain_by-IsQuiet true source tag =
      bind-IsQuiet _ _ (pull_source_image-IsQuiet source) with_digest-IsQuiet
  obtain_by-IsQuiet false source tag = bind-IsQuiet _ _ build_targets-IsQuiet (λ registry.
      bind-IsQuiet _ _ (build_image-IsQuiet source tag registry)
        (λ image. pure-IsQuiet (ok (image, none))))

  pub obtain-IsQuiet : (source : Source) (tag : Text) → IsQuiet (obtain e srv source tag)
  unfolding obtain
  obtain-IsQuiet source tag = obtain_by-IsQuiet source.is_image source tag
