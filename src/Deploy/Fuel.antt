-- ===== src/Deploy/Fuel.antt =====
-- The fuel of `waitHealthy` and of `replaceContainer`
-- (src/modules/application/deployment-runner.service.ts).
use aoox_api.Prelude.{
  ℕ, zero, suc, ◌+◌, ◌*◌, ◌≤◌, ◌≡◌, refl, sym, ap, ◌∙◌, none, some, arith, ltb, Text, text_eq_iff,
  Option-cases, inl, inr, codes, if◌then◌else◌,
}
use mathlib.Core.Path.{fun_ext}
use aoox_api.Deploy.{M, Engine, App, health_poll_ms, health_wait_ms, plain_failure, err}
use aoox_api.Deploy.Replace.{
  settle, wait_loop, wait_healthy, after_recovery, recover_previous, replace_with, replace_fuel,
  replace_container,
}

-- Time does not run backwards, and a sleep lasts as long as it says.
pub record Clock (e : Engine) : Type 0 where
  pub later : (c : e.Container) (w : e.W) → e.now w ≤ e.now (e.inspect c w).0
  pub sleeps : (ms : ℕ) (w : e.W) → e.now w + ms ≤ e.now (e.sleep ms w)

wait_loop-suc :
    (e : Engine) (clock : Clock e) (n deadline : ℕ) (c : e.Container) (w : e.W)
    → deadline ≤ e.now w + n * health_poll_ms
    → wait_loop e n deadline c w ≡ wait_loop e (suc n) deadline c w
unfolding wait_loop
wait_loop-suc e clock zero deadline c w h = ground arith
wait_loop-suc e clock (suc n) deadline c w h =
    let w' = (e.inspect c w).0 in
    let again =
      wait_loop-suc e clock n deadline c (e.sleep health_poll_ms w')
        (omega (arith, clock.later c w, clock.sleeps health_poll_ms w')) in
    ap
      (λ rest.
        if ltb (e.now w) deadline
        then settle e (e.inspect c w) rest
        else (w, err (plain_failure (codes "timed out"))))
      again

recover_previous-failed :
    (e : Engine) (f g : Text → M e.W e.Container) (app : App) (image : Text)
    → app.current_image ≡ some image
    → recover_previous e f app image ≡ recover_previous e g app image
unfolding recover_previous
recover_previous-failed e f g app image h =
    fun_ext λ x. fun_ext λ w. rw (h, recover_previous) (ground (arith, text_eq_iff image image))

-- For a clock that does not run backwards and a sleep that lasts as long as it says: more polls than
-- 53 change nothing, so that `waitHealthy` ends by its own deadline.
pub wait_healthy-fuel :
    (e : Engine) (clock : Clock e) (more : ℕ) (c : e.Container) (w : e.W)
    → wait_healthy e c w ≡ wait_loop e (more + 53) (e.now w + health_wait_ms) c w
unfolding wait_healthy
wait_healthy-fuel e clock zero c w =
    ap (λ n. wait_loop e n (e.now w + health_wait_ms) c w) (omega arith)
wait_healthy-fuel e clock (suc more) c w =
    wait_healthy-fuel e clock more c w
    ∙ wait_loop-suc e clock (more + 53) (e.now w + health_wait_ms) c w (omega arith)
    ∙ ap (λ n. wait_loop e n (e.now w + health_wait_ms) c w) (omega arith)

-- Only the call for the current image is made.
recover_previous-none :
    (e : Engine) (f g : Text → M e.W e.Container) (app : App) (image : Text)
    → app.current_image ≡ none
    → recover_previous e f app image ≡ recover_previous e g app image
unfolding recover_previous
recover_previous-none e f g app image h = fun_ext λ x. fun_ext λ w. rw (h, recover_previous)

recover_previous-some :
    (e : Engine) (f g : Text → M e.W e.Container) (app : App) (image previous : Text)
    → app.current_image ≡ some previous
    → f previous ≡ g previous
    → recover_previous e f app image ≡ recover_previous e g app image
unfolding recover_previous
recover_previous-some e f g app image previous h same = fun_ext λ x.
    fun_ext λ w. rw (h, recover_previous) (ap (λ r. after_recovery e image x w previous (r w)) same)

replace_fuel-suc :
    (e : Engine) (n : ℕ) (app : App) (image : Text)
    → replace_fuel e (suc n) app image
      ≡ replace_with e (recover_previous e (replace_fuel e n app) app image) app image
unfolding replace_fuel
replace_fuel-suc e n app image = refl

-- The call for the image that is on already needs no further call.
recovering-fuel :
    (e : Engine) (more : ℕ) (app : App) (previous : Text)
    → app.current_image ≡ some previous
    → replace_fuel e (suc more) app previous ≡ replace_fuel e 1 app previous
recovering-fuel e more app previous h =
    replace_fuel-suc e more app previous
    ∙ ap (λ r. replace_with e r app previous)
        (recover_previous-failed e (replace_fuel e more app) (replace_fuel e zero app) app previous
          h)
    ∙ sym (replace_fuel-suc e zero app previous)

-- `replaceContainer` calls itself at most once: any fuel above 2 gives the result of fuel 2.
pub replace_container-fuel :
    (e : Engine) (more : ℕ) (app : App) (image : Text)
    → replace_fuel e (suc (suc more)) app image ≡ replace_container e app image
unfolding replace_container
replace_container-fuel e more app image =
    replace_fuel-suc e (suc more) app image
    ∙ ap (λ r. replace_with e r app image)
        (elim (Option-cases app.current_image) [
          | inl h ↦
              recover_previous-none e (replace_fuel e (suc more) app) (replace_fuel e 1 app) app
                image h
          | inr (previous, h) ↦
              recover_previous-some e (replace_fuel e (suc more) app) (replace_fuel e 1 app) app
                image previous h (recovering-fuel e more app previous h)
        ])
    ∙ sym (replace_fuel-suc e 1 app image)
