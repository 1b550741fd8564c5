-- ===== src/Deploy/Build.antt =====
-- Where the image of a deployment comes from (`pullSourceImage`, `buildTargets` and `buildImage` of
-- src/modules/application/deployment-runner.service.ts).
use aoox_api.Prelude.{
  Bool, true, false, not, ◌&&◌, Option, none, some, Text, codes, ◌++◌, if◌then◌else◌,
}
use aoox_api.Deploy.{ok, M, ◌>>=◌, ◌>>◌, done, throw, plain_failure, Engine}
use aoox_api.Deploy.Runner.{building, pushing, Services, State, lift, flush_waiting, step}

pub data BuildType : Type 0 where
  dockerfile nixpacks railpack static : BuildType

-- What the build reads of the application. `image_name` is the repository's full name for a build.
pub record Source : Type 0 where
  pub is_image : Bool
  pub image_ref : Option Text
  pub has_registry : Bool
  pub has_git_url : Bool
  pub has_credential : Bool
  pub build_type : BuildType
  pub image_name : Bool → Text

module _ (e : Engine) (srv : Services e) where
  abbrev pub when : {W : Type 0} → Bool → M W (Unit {0}) → M W (Unit {0})
  when true m = m
  when false m = done

  abbrev pub pull_reference : Source → Option Text → M (State e) Text
  pull_reference source none = throw (plain_failure (codes "Application has no image reference"))
  pull_reference source (some ref) = do
    lift e srv srv.for_server
    step e srv building
    when source.has_registry (lift e srv srv.registry_password)
    lift e srv (srv.pull ref)
    flush_waiting e srv
    λ s. (s, ok ref)

  unfoldable pub pull_source_image : Source → M (State e) Text
  unfolding step
  pull_source_image source = pull_reference source source.image_ref

  -- The registry for an application of the host; there is none for a server.
  abbrev pub find_registry : Bool → M (State e) Bool
  find_registry true s = (s, ok false)
  find_registry false s = lift e srv srv.find_self_hosted s

  abbrev pub require_registry : Bool → Bool → M (State e) Bool
  require_registry on_server found =
      if not on_server && not found
      then throw (
          plain_failure
            (codes "No self-hosted registry. Provision one on the Registry page first."))
      else (λ s. (s, ok found))

  -- Whether a registry takes the image.
  abbrev pub targets_of : Bool → M (State e) Bool
  targets_of on_server = do
    lift e srv srv.for_server
    found ← find_registry on_server
    require_registry on_server found

  unfoldable pub build_targets : M (State e) Bool
  build_targets s = targets_of s.app.on_server s

  unfoldable pub run_builder : BuildType → Bool → M (State e) (Unit {0})
  run_builder static on_server = lift e srv srv.build_static
  run_builder nixpacks on_server = lift e srv srv.build_nixpacks
  run_builder dockerfile on_server = lift e srv srv.build_docker
  run_builder railpack true =
      throw (plain_failure (codes "Railpack builds run on the aoox host only"))
  run_builder railpack false = lift e srv srv.build_railpack

  abbrev pub build_on : Bool → Source → Text → Bool → M (State e) Text
  build_on on_server source tag registry = do
    when (not source.has_git_url)
        (throw (plain_failure (codes "Application has no git repository")))
    when source.has_credential (lift e srv srv.credentials)
    step e srv building
    run_builder source.build_type on_server
    flush_waiting e srv
    step e srv pushing
    when registry (lift e srv srv.registry_password >> lift e srv srv.push)
    flush_waiting e srv
    λ s. (s, ok (source.image_name registry ++ codes ":" ++ tag))

  unfoldable pub build_image : Source → Text → Bool → M (State e) Text
  unfolding step run_builder
  build_image source tag registry s = build_on s.app.on_server source tag registry s
