-- ===== src/Deploy/RunnerTests.antt =====
-- The runner on the small daemon, and its theorems there.
use aoox_api.Prelude.{includes, starts_with, ◌≡◌, refl, true, false, none, some, [], ◌∷◌, codes}
use aoox_api.Redact.{add_all, add, mask, mask_form, add_form, sort_by_length, insert_by_length}
use aoox_api.Deploy.{ok, err, done, plain_failure}
use aoox_api.Deploy.Tests.{daemon, app, world}
use aoox_api.Deploy.Runner.{
  queued, idle, running, starting, Deployment, Services, State, record_step, replaced, failure_note,
  flush, masked,
}
use aoox_api.Deploy.Build.{Source, dockerfile}
use aoox_api.Deploy.Run.{build, FollowRevert, run, obtain, revert}
use aoox_api.Deploy.Ending.{IsOver, run-IsOver}
use aoox_api.Deploy.Untouched.{LeavesAlone, run-ShowsTheSame}

abbrev services : Services daemon
services = record {
  for_server = done;
  find_self_hosted = λ w. (w, ok true);
  credentials = done;
  registry_password = done;
  pull = λ ref w. (w, err (plain_failure (codes "manifest unknown")));
  ensure_image = λ image. done;
  remote_digest = λ w. (w, ok none);
  build_static = done;
  build_railpack = done;
  build_nixpacks = done;
  build_docker = done;
  push = done;
  save_log = done;
  save_waiting = done;
  secrets = λ w. codes "unknown" ∷ [];
  encode = λ v. v;
  write = done;
  swarm_running = λ w. (w, ok 0);
  retire_daemons = λ w. w;
}

abbrev waiting : Deployment
waiting = record {
  status = queued;
  image_ref = none;
  error_message = none;
  finished_at = none;
  step_times = record { building_at = none; pushing_at = none; starting_at = none };
}

abbrev before : State daemon
before = record {
  world = world;
  deployment = waiting;
  stored = waiting;
  row = record {
    row_status = running;
    row_image = some (codes "shop:1");
    image_source = some (codes "shop:latest");
    image_digest = none;
  };
  app = app;
  notes = none;
}

abbrev repository : Source
repository = record {
  is_image = false;
  image_ref = none;
  has_registry = false;
  has_git_url = true;
  has_credential = false;
  build_type = dockerfile;
  image_name = λ registry. codes "shop";
}

abbrev image_source : Source
image_source = record repository { is_image = true; image_ref = some (codes "shop:latest") }

abbrev back : FollowRevert
back = record {
  followed_ref = codes "shop:latest";
  previous_ref = codes "shop:1";
  previous_digest = none;
}

record_step-twice :
    record_step (record waiting.step_times { starting_at = some 3 }) starting 8
    ≡ record waiting.step_times { starting_at = some 3 }
unfolding record_step
record_step-twice = refl

failure_note-replaced : failure_note idle false false ≡ replaced
unfolding failure_note
failure_note-replaced = refl

run-pull :
    (run daemon services build image_source (codes "2") (some back) before).0.row.image_source
    ≡ some (codes "shop:1")
unfolding run
run-pull = refl

run-IsOver_example :
    ((run daemon services build image_source (codes "2") (some back) before).1 ≡ ok tt)
    × IsOver (run daemon services build image_source (codes "2") (some back) before).0.stored
run-IsOver_example =
    run-IsOver daemon services (λ w. refl) build image_source (codes "2") (some back) before

pull_fails :
    (obtain daemon services image_source (codes "2") before).1
    ≡ err (plain_failure (codes "manifest unknown"))
unfolding obtain
pull_fails = refl

message_masked : masked daemon services world (codes "manifest unknown") ≡ codes "manifest ***"
unfolding masked add_all add includes starts_with mask mask_form add_form sort_by_length
    insert_by_length
message_masked = refl

run-ShowsTheSame_example :
    LeavesAlone daemon services before.row
      (revert daemon services
        (some back)
        (obtain daemon services image_source (codes "2") (flush daemon services before).0).0).world
      (codes "manifest unknown")
      (run daemon services build image_source (codes "2") (some back) before).0
run-ShowsTheSame_example =
    run-ShowsTheSame daemon services build image_source (codes "2") (some back) before
      (plain_failure (codes "manifest unknown")) refl refl refl pull_fails
