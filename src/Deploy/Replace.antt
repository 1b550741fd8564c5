-- ===== src/Deploy/Replace.antt =====
-- `replaceContainer`, step by step.
use aoox_api.Prelude.{
  ℕ, zero, suc, ◌+◌, Bool, true, false, not, ◌&&◌, Option, none, some, List, [], ◌∷◌, if◌then◌else◌,
  ltb, ◌==◌, Text, codes, text_eq,
}
use aoox_api.Deploy.{
  Failure, Result, ok, err, M, ◌>>=◌, ◌>>◌, done, throw, plain_failure, ignore, is_up, keep_waiting,
  gives_up, Inspection, judge, Engine, App, next_name, is_found, retry_delays, health_wait_ms,
  health_poll_ms, proxy_settle_ms,
}

module _ (e : Engine) where
  open e use {
    W, Container, find, remove, create, start, stop, rename, inspect, sleep, now, resolve_env,
    prepare_host, swarm_deploy, swarm_remove,
  }

  -- `startWithPortRetry`: one more attempt for each delay, after a 500 with a published port.
  unfoldable pub start_with_retry : List ℕ → Bool → Container → M W (Unit {0})
  start_with_retry [] published c w = start c w
  start_with_retry (d ∷ ds) published c w =
      let (w', r) = start c w in
      let again = start_with_retry ds published c (sleep d w') in
      elim r [
        | ok _ ↦ (w', ok tt)
        | err f ↦ if published && f.code == 500 then again else (w', err f)
      ]

  abbrev timed_out : Failure
  timed_out = plain_failure (codes "timed out")

  -- One poll of `waitHealthy`: what it found ends the wait, or the rest of the loop goes on.
  unfoldable pub settle :
      W × Result (Option Inspection) → W × Result (Unit {0}) → W × Result (Unit {0})
  settle (w, err f) again = (w, err f)
  settle (w, ok found) again = elim (judge found) [
    | is_up ↦ (w, ok tt)
    | gives_up f ↦ (w, err f)
    | keep_waiting ↦ again
  ]

  -- The loop of `waitHealthy`.
  unfoldable pub wait_loop : ℕ → ℕ → Container → M W (Unit {0})
  unfolding settle
  wait_loop zero deadline c w = (w, err timed_out)
  wait_loop (suc fuel) deadline c w =
      let again = wait_loop fuel deadline c (sleep health_poll_ms (inspect c w).0) in
      if ltb (now w) deadline then settle (inspect c w) again else (w, err timed_out)

  unfoldable pub wait_healthy : Container → M W (Unit {0})
  wait_healthy c w = wait_loop 53 (now w + health_wait_ms) c w

  -- The calls on the created container inside the `try`.
  unfoldable pub boot : App → Container → M W (Unit {0})
  unfolding start_with_retry wait_healthy
  boot app c = do
    start_with_retry retry_delays app.has_host_port c
    if app.has_healthcheck then wait_healthy c else done

  -- The container found under a name is removed.
  unfoldable pub remove_found : Option Container → M W (Unit {0})
  remove_found none = done
  remove_found (some c) = remove c

  -- `removeFailed`: by id, else by name. It never throws.
  unfoldable pub remove_failed : Option Container → Text → M W (Unit {0})
  unfolding remove_found
  remove_failed (some c) name = ignore (remove c)
  remove_failed none name = ignore (find name >>= remove_found)

  -- Makes room for the new container.
  unfoldable pub clear_room : Bool → Text → Option Container → M W (Unit {0})
  unfolding remove_found
  clear_room true create_name existing = find create_name >>= remove_found
  clear_room false create_name none = done
  clear_room false create_name (some c) = remove c

  -- The blue/green swap after the health check; the old container is stopped first, as far as it goes.
  unfoldable pub swap : App → Container → Container → M W (Unit {0})
  swap app old new w =
      (do ignore (stop old); remove old; rename new app.name) (sleep proxy_settle_ms w)

  abbrev pub is_blue_green : App → Option Container → Bool
  is_blue_green app existing =
      app.has_healthcheck && not app.has_host_port && not app.is_preview && is_found existing

  abbrev pub create_name_of : App → Option Container → Text
  create_name_of app existing = if is_blue_green app existing then next_name app.name else app.name

  -- The `catch` block: `recover` puts the previous image back and says what to throw.
  unfoldable pub fail :
      (Failure → W → W × Failure)
      → App
      → Option Container
      → Option Container
      → Failure
      → M W Container
  unfolding remove_failed
  fail recover app existing created f w =
      let w' =
        (if app.is_preview then done else remove_failed created (create_name_of app existing)) w in
      if not (is_blue_green app existing) && is_found existing && not app.is_preview
      then (let (w'', f') = recover f w'.0 in (w'', err f'))
      else (w'.0, err f)

  -- What follows a container that came up.
  unfoldable pub finish : App → Option Container → Container → M W Container
  unfolding swap
  finish app none c w = (w, ok c)
  finish app (some old) c w =
      if is_blue_green app (some old) then (swap app old c >>= λ _ w'. (w', ok c)) w else (w, ok c)

  unfoldable pub launch :
      (Failure → W → W × Failure) → App → Text → Option Container → M W Container
  unfolding boot fail finish
  launch recover app image existing w =
      let (w', r) = create image (create_name_of app existing) w in
      elim r [
        | err f ↦ fail recover app existing none f w'
        | ok c ↦
            let (w'', b) = boot app c w' in
            elim b [
              | err f ↦ fail recover app existing (some c) f w''
              | ok _ ↦ finish app existing c w''
            ]
      ]

  -- In container mode, or for a preview.
  unfoldable pub replace_local :
      (Failure → W → W × Failure) → App → Text → Option Container → M W Container
  unfolding clear_room launch
  replace_local recover app image existing = do
    ignore (if app.is_preview then done else swarm_remove)
    clear_room (is_blue_green app existing) (create_name_of app existing) existing
    launch recover app image existing

  unfoldable pub replace_service : App → Text → M W Container
  replace_service app image =
      if app.on_server then throw (plain_failure (codes "host only")) else swarm_deploy image

  unfoldable pub replace_in_mode :
      (Failure → W → W × Failure) → App → Text → Option Container → M W Container
  unfolding replace_local replace_service
  replace_in_mode recover app image existing =
      if app.is_service && not app.is_preview
      then replace_service app image
      else replace_local recover app image existing

  unfoldable pub replace_with : (Failure → W → W × Failure) → App → Text → M W Container
  unfolding replace_in_mode
  replace_with recover app image = do
    resolve_env
    existing ← find app.name
    prepare_host image
    replace_in_mode recover app image existing

  -- The end of `recoverPrevious`, from the call of `replaceContainer` on; that call is not made where
  -- the previous image is the one that failed.
  unfoldable pub after_recovery : Text → Failure → W → Text → W × Result Container → W × Failure
  after_recovery failed f w previous (w', r) = if text_eq previous failed then (w, f) else (elim r [
    | ok _ ↦ (w', record (plain_failure f.message) { recovered = true })
    | err _ ↦ (w', record f { unrecovered = true })
  ])

  -- `recoverPrevious`, over the call of `replaceContainer` that it makes.
  unfoldable pub recover_previous : (Text → M W Container) → App → Text → Failure → W → W × Failure
  unfolding after_recovery
  recover_previous replace_again app failed f w = elim app.current_image [
    | none ↦ (w, f)
    | some previous ↦ after_recovery failed f w previous (replace_again previous w)
  ]

  -- `replaceContainer`: it calls itself once at most, so that fuel 2 is enough.
  unfoldable pub replace_fuel : ℕ → App → Text → M W Container
  unfolding replace_with recover_previous
  replace_fuel zero app image = throw (plain_failure (codes "out of fuel"))
  replace_fuel (suc n) app image =
      replace_with (recover_previous (replace_fuel n app) app image) app image

  unfoldable pub replace_container : App → Text → M W Container
  unfolding replace_fuel
  replace_container = replace_fuel 2
