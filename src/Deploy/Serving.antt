-- ===== src/Deploy/Serving.antt =====
-- A blue/green replace: how long the old container answers.
use aoox_api.Prelude.{
  ℕ, zero, suc, ◌+◌, ◌≡◌, ◌≢◌, refl, ap, ◌∙◌, Bool, Option, none, some, List, [], ◌∷◌, ◌++◌, arith,
  Text, inl, inr, ◌⊎◌, codes, if◌then◌else◌,
}
use aoox_api.Deploy.{
  Failure, Result, M, continue, Engine, App, health_poll_ms, health_wait_ms, ok, err, done,
  next_name, retry_delays, Inspection,
}
use aoox_api.Deploy.Replace.{
  start_with_retry, settle, wait_loop, wait_healthy, boot, remove_found, remove_failed,
}

-- Container `c` answers under the name `n`: what the daemon says of it, and which calls leave it alone.
pub record Answers (e : Engine) (Up : e.Container → Text → e.W → Type 0) : Type 0 where
  pub up_find : (c : e.Container) (n m : Text) (w : e.W) → Up c n w → Up c n (e.find m w).0
  pub up_create :
      (c : e.Container) (n image m : Text) (w : e.W) → Up c n w → Up c n (e.create image m w).0
  pub up_start : (c d : e.Container) (n : Text) (w : e.W) → Up c n w → Up c n (e.start d w).0
  pub up_inspect : (c d : e.Container) (n : Text) (w : e.W) → Up c n w → Up c n (e.inspect d w).0
  pub up_sleep : (c : e.Container) (n : Text) (ms : ℕ) (w : e.W) → Up c n w → Up c n (e.sleep ms w)
  pub up_swarm : (c : e.Container) (n : Text) (w : e.W) → Up c n w → Up c n (e.swarm_remove w).0
  pub up_env : (c : e.Container) (n : Text) (w : e.W) → Up c n w → Up c n (e.resolve_env w).0
  pub up_host :
      (c : e.Container) (n image : Text) (w : e.W) → Up c n w → Up c n (e.prepare_host image w).0
  pub up_remove :
      (c d : e.Container) (n : Text) (w : e.W) → d ≢ c → Up c n w → Up c n (e.remove d w).0
  -- A name finds the container that answers under it, and another name does not find it.
  pub found :
      (c : e.Container) (n : Text) (w : e.W) (r : Option e.Container)
      → Up c n w
      → (e.find n w).1 ≡ ok r
      → r ≡ some c
  pub other :
      (c d : e.Container) (n m : Text) (w : e.W)
      → m ≢ n
      → Up c n w
      → (e.find m w).1 ≡ ok (some d)
      → d ≢ c
  pub fresh :
      (c d : e.Container) (n image m : Text) (w : e.W)
      → Up c n w
      → (e.create image m w).1 ≡ ok d
      → d ≢ c

append_self : (s : Text) (x : ℕ) (t : Text) → s ++ (x ∷ t) ≢ s
append_self [] x t h = cc
append_self (y ∷ s) x t h = append_self s x t (cc)

-- The name of the new container is another one.
pub next_name-other : (n : Text) → next_name n ≢ n
next_name-other n = append_self n 45 (codes "next")

pub Result-cases : {A : Type 0} (r : Result A) → ((a : A) × r ≡ ok a) ⊎ ((f : Failure) × r ≡ err f)
Result-cases (ok a) = inl (a, refl)
Result-cases (err f) = inr (f, refl)

-- What a step keeps, whether the call before it threw or not.
pub continue-keeps :
    {W A B : Type 0} (P : W → Type 0) (f : A → M W B) (r : W × Result A)
    → P r.0
    → ((a : A) → r.1 ≡ ok a → P (f a r.0).0)
    → P (continue f r).0
continue-keeps P f (w, ok a) p next = next a refl
continue-keeps P f (w, err x) p next = p

module _ (e : Engine) (Up : e.Container → Text → e.W → Type 0) (laws : Answers e Up)
    (c : e.Container) (n : Text) where
  open e use {W, Container}
  open laws use {
    up_find, up_create, up_start, up_inspect, up_sleep, up_swarm, up_env, up_host, up_remove, found,
    other, fresh,
  }

  start_with_retry-up :
      (ds : List ℕ) (published : Bool) (d : Container) (w : W)
      → Up c n w
      → Up c n (start_with_retry e ds published d w).0
  unfolding start_with_retry
  start_with_retry-up [] published d w up = up_start c d n w up
  start_with_retry-up (t ∷ ds) published d w up =
      let started = up_start c d n w up in
      let again =
        start_with_retry-up ds published d (e.sleep t (e.start d w).0)
          (up_sleep c n t (e.start d w).0 started) in
      ground arith

  settle-up :
      (r : W × Result (Option Inspection)) (again : W × Result (Unit {0}))
      → Up c n r.0
      → Up c n again.0
      → Up c n (settle e r again).0
  unfolding settle
  settle-up (w, err f) again up up' = up
  settle-up (w, ok i) again up up' = ground arith

  wait_loop-up :
      (fuel deadline : ℕ) (d : Container) (w : W)
      → Up c n w
      → Up c n (wait_loop e fuel deadline d w).0
  unfolding wait_loop
  wait_loop-up zero deadline d w up = up
  wait_loop-up (suc fuel) deadline d w up =
      let seen = up_inspect c d n w up in
      let again =
        wait_loop-up fuel deadline d (e.sleep health_poll_ms (e.inspect d w).0)
          (up_sleep c n health_poll_ms (e.inspect d w).0 seen) in
      let next =
        settle-up (e.inspect d w)
          (wait_loop e fuel deadline d (e.sleep health_poll_ms (e.inspect d w).0)) seen again in
      ground arith

  pub boot-up : (app : App) (d : Container) (w : W) → Up c n w → Up c n (boot e app d w).0
  unfolding boot wait_healthy
  boot-up app d w up =
      let started = start_with_retry-up retry_delays app.has_host_port d w up in
      continue-keeps (Up c n) (λ _. if app.has_healthcheck then wait_healthy e d else done)
        (start_with_retry e retry_delays app.has_host_port d w) started
        (λ _ _.
          let w' = (start_with_retry e retry_delays app.has_host_port d w).0 in
          let waited = wait_loop-up 53 (e.now w' + health_wait_ms) d w' started in ground arith)

  remove_found-up :
      (r : Option Container) (w : W)
      → ((d : Container) → r ≡ some d → d ≢ c)
      → Up c n w
      → Up c n (remove_found e r w).0
  unfolding remove_found
  remove_found-up none w new up = up
  remove_found-up (some d) w new up = up_remove c d n w (new d refl) up

  pub remove_by_name-up :
      (m : Text) (w : W) → m ≢ n → Up c n w → Up c n (continue (remove_found e) (e.find m w)).0
  remove_by_name-up m w differs up =
      continue-keeps (Up c n) (remove_found e) (e.find m w) (up_find c n m w up) (λ r h.
        remove_found-up r (e.find m w).0 (λ d is_d. other c d n m w differs up (h ∙ ap ok is_d))
          (up_find c n m w up))

  pub remove_failed-up :
      (created : Option Container) (m : Text) (w : W)
      → m ≢ n
      → ((d : Container) → created ≡ some d → d ≢ c)
      → Up c n w
      → Up c n (remove_failed e created m w).0
  unfolding remove_failed
  remove_failed-up (some d) m w differs new up = up_remove c d n w (new d refl) up
  remove_failed-up none m w differs new up = remove_by_name-up m w differs up
