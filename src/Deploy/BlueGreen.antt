-- ===== src/Deploy/BlueGreen.antt =====
-- A blue/green replace, from the call to the swap (`replaceContainer` in
-- src/modules/application/deployment-runner.service.ts).
use aoox_api.Prelude.{
  ℕ, zero, suc, ◌+◌, ◌≡◌, ◌≢◌, refl, ap, ◌∙◌, true, false, Option, none, some, some-injective,
  arith, Text, inl, inr, ◌⊎◌, if◌then◌else◌,
}
use aoox_api.Deploy.{
  Failure, Result, continue, judge, Engine, App, health_poll_ms, health_wait_ms, retry_delays, ok,
  err, done, next_name, healthy, Inspection, Verdict, is_up, keep_waiting, gives_up,
}
use aoox_api.Deploy.Replace.{
  start_with_retry, settle, wait_loop, wait_healthy, boot, is_blue_green, create_name_of,
  clear_room, fail, finish, launch, replace_local, replace_with, replace_in_mode, replace_container,
  replace_fuel, recover_previous,
}
use aoox_api.Deploy.Serving.{
  Answers, next_name-other, continue-keeps, Result-cases, boot-up, remove_failed-up,
  remove_by_name-up,
}

-- The last call before `v` is an inspection, and it reports the container running and healthy.
pub ReportedHealthy : (e : Engine) → e.Container → e.W → Type 0
ReportedHealthy e d v =
    (w : e.W) × (i : Inspection) × ((e.inspect d w).0 ≡ v
      × (e.inspect d w).1 ≡ ok (some i)
      × i.running ≡ true
      × i.health ≡ healthy)

judge-is_up :
    (r : Option Inspection)
    → judge r ≡ is_up
    → (i : Inspection) × (r ≡ some i × i.running ≡ true × i.health ≡ healthy)
unfolding judge
judge-is_up none h = absurd (cc)
judge-is_up (some i) h = (i, (refl, ground arith, ground arith))

Verdict-cases : (v : Verdict) → (v ≡ is_up) ⊎ (v ≡ keep_waiting) ⊎ ((f : Failure) × v ≡ gives_up f)
Verdict-cases is_up = inl refl
Verdict-cases keep_waiting = inr (inl refl)
Verdict-cases (gives_up f) = inr (inr (f, refl))

module _ (e : Engine) where
  open e use {W, Container}

  settle-ok :
      (r : W × Result (Option Inspection)) (again : W × Result (Unit {0}))
      → (settle e r again).1 ≡ ok tt
      → ((i : Option Inspection) × (r.1 ≡ ok i × judge i ≡ is_up × (settle e r again).0 ≡ r.0))
        ⊎ (again.1 ≡ ok tt × (settle e r again).0 ≡ again.0)
  unfolding settle
  settle-ok (w, err f) again h = absurd cc
  settle-ok (w, ok i) again h = elim (Verdict-cases (judge i)) [
    | inl up ↦ inl (i, (refl, up, ground (arith, up)))
    | inr (inl waits) ↦ inr (ground (arith, waits), ground (arith, waits))
    | inr (inr (f, gave_up)) ↦ absurd (ground (arith, gave_up))
  ]

  wait_loop-ok :
      (fuel deadline : ℕ) (d : Container) (w : W)
      → (wait_loop e fuel deadline d w).1 ≡ ok tt
      → ReportedHealthy e d (wait_loop e fuel deadline d w).0
  unfolding wait_loop ReportedHealthy
  wait_loop-ok zero deadline d w h = absurd cc
  wait_loop-ok (suc fuel) deadline d w h =
      let rest = wait_loop e fuel deadline d (e.sleep health_poll_ms (e.inspect d w).0) in
      let whole : wait_loop e (suc fuel) deadline d w ≡ settle e (e.inspect d w) rest =
        ground (arith, h) in
      let settled : (settle e (e.inspect d w) rest).1 ≡ ok tt = rw⁻¹ whole h in
      elim (settle-ok (e.inspect d w) rest settled) [
        | inl (r, (seen, up, there)) ↦
            let (i, (is_i, runs, well)) = judge-is_up r up in
            (w, i, (rw (whole, there), seen ∙ ap ok is_i, runs, well))
        | inr (later, there) ↦
            let (w', i, facts) =
              wait_loop-ok fuel deadline d (e.sleep health_poll_ms (e.inspect d w).0) later in
            (w', i, (rw (whole, there) facts.0, facts.1, facts.2, facts.3))
      ]

  boot-healthy :
      (app : App) (d : Container) (w : W)
      → app.has_healthcheck ≡ true
      → (boot e app d w).1 ≡ ok tt
      → ReportedHealthy e d (boot e app d w).0
  unfolding boot wait_healthy
  boot-healthy app d w checked h =
      elim (Result-cases (start_with_retry e retry_delays app.has_host_port d w).1) [
        | inl (_, started) ↦
            let w' = (start_with_retry e retry_delays app.has_host_port d w).0 in
            let whole : boot e app d w ≡ wait_loop e 53 (e.now w' + health_wait_ms) d w' =
              ground (arith, checked, started) in
            rw whole (wait_loop-ok 53 (e.now w' + health_wait_ms) d w' (rw⁻¹ whole h))
        | inr (f, failed) ↦ absurd (ground (arith, h, failed))
      ]

module _ (e : Engine) (Up : e.Container → Text → e.W → Type 0) (laws : Answers e Up)
    (c : e.Container) (app : App) (blue_green : is_blue_green e app (some c) ≡ true) where
  open e use {W, Container}
  open laws use {up_create, up_swarm, up_env, up_host, up_find, found, fresh}

  pub Kept : Text → W → W → Type 0
  Kept image v w =
      Up c app.name w
      ⊎ ((d : Container) × ((e.create image (next_name app.name) v).1 ≡ ok d
            × ReportedHealthy e d (boot e app d (e.create image (next_name app.name) v).0).0))

  fail-up :
      (recover : Failure → W → W × Failure) (created : Option Container) (f : Failure) (w : W)
      → ((d : Container) → created ≡ some d → d ≢ c)
      → Up c app.name w
      → Up c app.name (fail e recover app (some c) created f w).0
  unfolding fail
  fail-up recover created f w new up =
      let gone =
        remove_failed-up e Up laws c app.name created (next_name app.name) w
          (next_name-other app.name) new up in
      ground (arith, blue_green)

  launch-Kept :
      (recover : Failure → W → W × Failure) (image : Text) (w : W)
      → Up c app.name w
      → Kept image w (launch e recover app image (some c) w).0
  unfolding launch Kept finish
  launch-Kept recover image w up =
      let name = next_name app.name in
      let made = e.create image name w in
      let up' = up_create c app.name image name w up in
      elim (Result-cases made.1) [
        | inr (f, failed) ↦
            let after = fail-up recover none f made.0 (λ d n. absurd cc) up' in
            inl (ground (arith, blue_green, failed))
        | inl (d, is_d) ↦
            let new = fresh c d app.name image name w up is_d in
            let up'' = boot-up e Up laws c app.name app d made.0 up' in
            elim (Result-cases (boot e app d made.0).1) [
              | inl (u, booted) ↦
                  inr (d, (is_d, boot-healthy e app d made.0 (ground (arith, blue_green)) booted))
              | inr (f, failed) ↦
                  let after =
                    fail-up recover (some d) f (boot e app d made.0).0
                      (λ d' n same. new (some-injective d d' n ∙ same)) up'' in
                  inl (ground (arith, blue_green, failed, is_d))
            ]
      ]

  clear_room-up :
      (w : W)
      → Up c app.name w
      → Up c app.name
          (clear_room e (is_blue_green e app (some c)) (create_name_of e app (some c)) (some c) w).0
  unfolding clear_room
  clear_room-up w up =
      let gone =
        remove_by_name-up e Up laws c app.name (next_name app.name) w (next_name-other app.name)
          up in
      ground (arith, blue_green)

  swarm-up :
      (w : W)
      → Up c app.name w
      → Up c app.name ((if app.is_preview then done else e.swarm_remove) w).0
  swarm-up w up = let gone = up_swarm c app.name w up in ground (arith, blue_green)

  -- Where the new container is created.
  pub cleared : W → W
  cleared w =
      (clear_room e (is_blue_green e app (some c)) (create_name_of e app (some c)) (some c)
        ((if app.is_preview then done else e.swarm_remove) w).0).0

  pub prepared : Text → W → W
  prepared image w = (e.prepare_host image (e.find app.name (e.resolve_env w).0).0).0

  replace_local-Kept :
      (recover : Failure → W → W × Failure) (image : Text) (w : W)
      → Up c app.name w
      → Kept image (cleared w) (replace_local e recover app image (some c) w).0
  unfolding replace_local Kept cleared
  replace_local-Kept recover image w up =
      let w' = ((if app.is_preview then done else e.swarm_remove) w).0 in
      let room = clear_room-up w' (swarm-up w up) in
      continue-keeps (Kept image (cleared w)) (λ _. launch e recover app image (some c))
        (clear_room e (is_blue_green e app (some c)) (create_name_of e app (some c)) (some c) w')
        (inl room) (λ _ _. launch-Kept recover image (cleared w) room)

  replace_in_mode-Kept :
      (recover : Failure → W → W × Failure) (image : Text) (existing : Option Container) (w : W)
      → app.is_service ≡ false
      → existing ≡ some c
      → Up c app.name w
      → Kept image (cleared w) (replace_in_mode e recover app image existing w).0
  unfolding replace_in_mode Kept cleared
  replace_in_mode-Kept recover image existing w in_container is_old up =
      let kept = replace_local-Kept recover image w up in ground (arith, is_old, in_container)

  replace_with-Kept :
      (recover : Failure → W → W × Failure) (image : Text) (w : W)
      → app.is_service ≡ false
      → Up c app.name w
      → Kept image (cleared (prepared image w)) (replace_with e recover app image w).0
  unfolding replace_with Kept prepared
  replace_with-Kept recover image w in_container up =
      let up_1 = up_env c app.name w up in
      let w_1 = (e.resolve_env w).0 in
      let up_2 = up_find c app.name app.name w_1 up_1 in
      let w_2 = (e.find app.name w_1).0 in
      let up_3 = up_host c app.name image w_2 up_2 in
      let K = Kept image (cleared (prepared image w)) in
      let in_mode : Option Container → W × Result (Unit {0}) → W × Result Container =
        λ existing. continue (λ _. replace_in_mode e recover app image existing) in
      continue-keeps K
        (λ _ v.
          continue (λ existing v. in_mode existing (e.prepare_host image v)) (e.find app.name v))
        (e.resolve_env w) (inl up_1)
        (λ _ _.
          continue-keeps K (λ existing v. in_mode existing (e.prepare_host image v))
            (e.find app.name w_1) (inl up_2)
            (λ existing is_c.
              continue-keeps K (λ _. replace_in_mode e recover app image existing)
                (e.prepare_host image w_2) (inl up_3)
                (λ _ _.
                  replace_in_mode-Kept recover image existing (prepared image w) in_container
                    (found c app.name w_1 existing up_1 is_c) up_3)))

  -- In container mode, with a health check, no host port and no preview, while container `c` answers
  -- under the name of the application: at the end `c` still answers, or the new container was created
  -- and the last call of its bring-up is an inspection that says it runs and is healthy.
  pub replace_container-Kept :
      (image : Text) (w : W)
      → app.is_service ≡ false
      → Up c app.name w
      → Kept image (cleared (prepared image w)) (replace_container e app image w).0
  unfolding replace_container replace_fuel
  replace_container-Kept image w in_container up =
      replace_with-Kept (recover_previous e (replace_fuel e 1 app) app image) image w in_container
        up
