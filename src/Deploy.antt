-- ===== src/Deploy.antt =====
-- Replacing the container of an application (`replaceContainer` and what it calls in
-- src/modules/application/deployment-runner.service.ts; src/modules/docker/start-with-port-retry.ts).
-- The daemon is a parameter: each of its calls takes its state to the next one, and may fail.
pub mod Replace
pub mod Fuel
pub mod Serving
pub mod BlueGreen
pub mod Runner
pub mod Build
pub mod Run
pub mod Ending
pub mod Quiet
pub mod Untouched
pub mod Switch
pub mod Served
pub mod RunnerTests
pub mod Tests
use aoox_api.Prelude.{
  ℕ, zero, suc, ◌+◌, Bool, true, false, not, ◌&&◌, ◌||◌, Option, none, some, List, [], ◌∷◌, ◌++◌,
  if◌then◌else◌, ltb, ◌==◌, Text, codes, text_eq,
}

-- An exception. `code` is the status of a `DockerEngineError`, 0 for any other error; `recovered`
-- marks a `RecoveredDeployError`, `unrecovered` an error in the set of the same name.
pub record Failure : Type 0 where
  pub message : Text
  pub code : ℕ
  pub recovered : Bool
  pub unrecovered : Bool

pub data Result (A : Type 0) : Type 0 where
  ok : A → Result A
  err : Failure → Result A

abbrev pub M : Type 0 → Type 0 → Type 0
M W A = W → W × Result A

-- What follows a call: the rest on its value, or its exception.
abbrev pub continue : {W A B : Type 0} → (A → M W B) → W × Result A → W × Result B
continue f (w, ok a) = f a w
continue f (w, err e) = (w, err e)

infixl 5 ◌>>=◌ ◌>>◌
abbrev pub ◌>>=◌ : {W A B : Type 0} → M W A → (A → M W B) → M W B
◌>>=◌ m f w = continue f (m w)

abbrev pub ◌>>◌ : {W B : Type 0} → M W (Unit {0}) → M W B → M W B
m >> k = m >>= λ _. k

abbrev pub done : {W : Type 0} → M W (Unit {0})
done w = (w, ok tt)

abbrev pub throw : {W A : Type 0} → Failure → M W A
throw f w = (w, err f)

abbrev pub plain_failure : Text → Failure
plain_failure message = record {
  message = message;
  code = 0;
  recovered = false;
  unrecovered = false;
}

-- `.catch(() => undefined)`
abbrev pub ignore : {W A : Type 0} → M W A → M W (Unit {0})
ignore m w = ((m w).0, ok tt)

pub data Health : Type 0 where
  no_health starting_up healthy unhealthy : Health

-- What `inspectContainer` tells: `no_shell` is the verdict of `isMissingShell` on the last probe.
pub record Inspection : Type 0 where
  pub running : Bool
  pub health : Health
  pub no_shell : Bool

-- The daemon, with the clock, and what the runner asks of other services before it touches a
-- container.
pub record Engine : Type 1 where
  pub W : Type 0
  pub Container : Type 0
  pub find : Text → M W (Option Container)
  pub remove : Container → M W (Unit {0})
  -- image, name
  pub create : Text → Text → M W Container
  pub start : Container → M W (Unit {0})
  pub stop : Container → M W (Unit {0})
  pub rename : Container → Text → M W (Unit {0})
  pub inspect : Container → M W (Option Inspection)
  pub sleep : ℕ → W → W
  pub now : W → ℕ
  -- the environment of the application
  pub resolve_env : M W (Unit {0})
  -- networks, labels and mounts, for an image
  pub prepare_host : Text → M W (Unit {0})
  pub swarm_deploy : Text → M W Container
  pub swarm_remove : M W (Unit {0})

-- What `replaceContainer` reads of the application and of the override of a preview.
pub record App : Type 0 where
  pub name : Text
  pub is_service : Bool
  pub on_server : Bool
  pub has_healthcheck : Bool
  pub has_host_port : Bool
  pub is_preview : Bool
  -- `none` where it is null or empty.
  pub current_image : Option Text

abbrev pub next_name : Text → Text
next_name name = name ++ codes "-next"

abbrev pub is_found : {A : Type 0} → Option A → Bool
is_found none = false
is_found (some a) = true

abbrev pub retry_delays : List ℕ
retry_delays = 800 ∷ 1500 ∷ 2500 ∷ []

abbrev pub health_wait_ms : ℕ
health_wait_ms = 105000

abbrev pub health_poll_ms : ℕ
health_poll_ms = 2000

abbrev pub proxy_settle_ms : ℕ
proxy_settle_ms = 3000

-- Whether a poll ends the wait, and how.
pub data Verdict : Type 0 where
  is_up keep_waiting : Verdict
  gives_up : Failure → Verdict

unfoldable pub judge : Option Inspection → Verdict
judge none = gives_up (plain_failure (codes "exited"))
judge (some c) =
    if not c.running then gives_up (plain_failure (codes "exited")) else (elim c.health [
      | healthy ↦ is_up
      | unhealthy ↦ gives_up (plain_failure (codes "failed"))
      | _ ↦ if c.no_shell then gives_up (plain_failure (codes "failed")) else keep_waiting
    ])
