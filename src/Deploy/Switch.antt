-- ===== src/Deploy/Switch.antt =====
-- What a deployment writes once it replaces the container (`run` and `rollback` of
-- src/modules/application/deployment-runner.service.ts).
use aoox_api.Prelude.{◌≡◌, refl, ap, Option, none, some, arith, Text}
use aoox_api.Deploy.{Result, ok, err, M, ◌>>=◌, ◌>>◌, continue, Engine}
use aoox_api.Deploy.Replace.{replace_container}
use aoox_api.Deploy.Runner.{
  starting, success, running, Services, State, lift, saved, step, set_status, finished, announce,
  finish, row_written, baseline_written, hold, persist_row, persist_baseline, persist_outcome,
}
use aoox_api.Deploy.Run.{Baseline, replace_image, retire, start_image, rollback_body}

module _ (e : Engine) (srv : Services e) where
  unfoldable pub HasImage : Text → State e → Type 0
  HasImage image s = s.deployment.image_ref ≡ some image

  -- The row runs the image of the deployment.
  pub Serves : Text → State e → Type 0
  Serves image s =
      s.row.row_status ≡ running
      × s.row.row_image ≡ some image
      × s.deployment.image_ref ≡ some image

  -- The new container came up: the replacement of the old one by the image returned, in a state where
  -- the deployment names the image and is starting.
  pub IsReplaced : Text → Type 0
  IsReplaced image =
      (s : State e) × (s.deployment.image_ref ≡ some image
        × s.deployment.status ≡ starting
        × (replace_image e srv image s).1 ≡ ok tt)

  -- What holds of the state after a call that does not throw.
  unfoldable pub After : {A : Type 0} → (State e → Type 0) → State e × Result A → Type 0
  After P (s, ok a) = P s
  After P (s, err f) = Unit

  After-then :
      {B : Type 0} (P Q : State e → Type 0) (k : M (State e) B) (r : State e × Result (Unit {0}))
      → After P r
      → ((s : State e) → P s → After Q (k s))
      → After Q (continue (λ _. k) r)
  unfolding After
  After-then P Q k (s, ok u) h rest = rest s h
  After-then P Q k (s, err f) h rest = tt

  After-anything :
      {A : Type 0} (P : State e → Type 0) (s : State e) (r : Result A) → P s → After P (s, r)
  unfolding After
  After-anything P s (ok a) h = h
  After-anything P s (err f) h = tt

  row_written-Serves :
      (image : Text) (s : State e) (r : e.W × Result (Unit {0}))
      → HasImage image s
      → After (Serves image) (row_written e srv running (some image) s r)
  unfolding HasImage Serves After
  row_written-Serves image s (w, ok u) h = (refl, refl, h)
  row_written-Serves image s (w, err f) h = tt

  baseline_written-Serves :
      (image : Text) (baseline : Text × Option Text) (s : State e) (r : e.W × Result (Unit {0}))
      → Serves image s
      → After (Serves image) (baseline_written e srv baseline s r)
  unfolding Serves After
  baseline_written-Serves image (ref, digest) s (w, ok u) h = ground (arith, h.0, h.1, h.2)
  baseline_written-Serves image (ref, digest) s (w, err f) h = tt

  persist_row-Serves :
      (image : Text) (s : State e)
      → HasImage image s
      → After (Serves image) (persist_row e srv running (some image) s)
  unfolding HasImage persist_row
  persist_row-Serves image s h =
      row_written-Serves image (record s { app = hold e srv (some image) s.app })
        (srv.write s.world) h

  persist_baseline-Serves :
      (image : Text) (baseline : Baseline) (s : State e)
      → Serves image s
      → After (Serves image) (persist_baseline e srv baseline s)
  unfolding After persist_baseline
  persist_baseline-Serves image none s h = h
  persist_baseline-Serves image (some b) s h =
      baseline_written-Serves image b s (srv.write s.world) h

  persist_outcome-Serves :
      (image : Text) (baseline : Baseline) (s : State e)
      → HasImage image s
      → After (Serves image) (persist_outcome e srv running (some image) baseline s)
  unfolding persist_outcome
  persist_outcome-Serves image baseline s h =
      After-then (Serves image) (Serves image) (persist_baseline e srv baseline)
        (persist_row e srv running (some image) s) (persist_row-Serves image s h)
        (persist_baseline-Serves image baseline)

  unfoldable pub Done : Text → State e → Type 0
  Done image s = Serves image s × IsReplaced image

  retire-Serves :
      (image : Text) (s : State e) → Serves image s → After (Serves image) (retire e srv s)
  unfolding Serves After
  retire-Serves image s h = h

  saved-Serves :
      (image : Text) (s : State e) (r : e.W × Result (Unit {0}))
      → Serves image s
      → After (Serves image) (announce e srv success (saved e srv s r))
  unfolding Serves After set_status
  saved-Serves image s (w, ok u) h = h
  saved-Serves image s (w, err f) h = tt

  finish-Serves :
      (image : Text) (s : State e)
      → Serves image s
      → After (Serves image) (finish e srv success none s)
  unfolding Serves finish
  finish-Serves image s h =
      let s' = finished e srv success none s in saved-Serves image s' (srv.save_log s'.world) h

  After-with :
      {X : Type 0} (P : State e → Type 0) (x : X) (r : State e × Result (Unit {0}))
      → After P r
      → After (λ s. P s × X) r
  unfolding After
  After-with P x (s, ok u) h = (h, x)
  After-with P x (s, err f) h = tt

  -- What both ways of a deployment end with, once the container is replaced.
  recorded-Serves :
      (image : Text) (baseline : Baseline) (s : State e)
      → HasImage image s
      → After (Serves image) (
          (persist_outcome e srv running (some image) baseline
              >> (retire e srv >> finish e srv success none))
            s)
  recorded-Serves image baseline s h =
      After-then (Serves image) (Serves image) _
        (persist_outcome e srv running (some image) baseline s)
        (persist_outcome-Serves image baseline s h)
        (λ s' h'.
          After-then (Serves image) (Serves image) (finish e srv success none) (retire e srv s')
            (retire-Serves image s' h') (finish-Serves image))

  IsStarting : Text → State e → Type 0
  IsStarting image s = HasImage image s × s.deployment.status ≡ starting

  lift-IsStarting :
      {A : Type 0} (image : Text) (m : M e.W A) (s : State e)
      → IsStarting image s
      → After (IsStarting image) (lift e srv m s)
  unfolding IsStarting HasImage
  lift-IsStarting image m s h =
      let (w, r) = m s.world in After-anything (IsStarting image) (record s { world = w }) r h

  replaced-Done :
      (image : Text) (baseline : Baseline) (s : State e) (r : State e × Result (Unit {0}))
      → IsStarting image s
      → replace_image e srv image s ≡ r
      → After (IsStarting image) r
      → After (Done image) (
          continue
            (λ _.
              persist_outcome e srv running (some image) baseline
              >> (retire e srv >> finish e srv success none))
            r)
  unfolding After IsStarting HasImage IsReplaced Done
  replaced-Done image baseline s (s', err f) h same next = tt
  replaced-Done image baseline s (s', ok u) h same next =
      After-with (Serves image) (s, (h.0, h.1, ap (λ p. p.1) same)) _
        (recorded-Serves image baseline s' next.0)

  switch-Done :
      (image : Text) (baseline : Baseline) (s : State e)
      → IsStarting image s
      → After (Done image) (
          (replace_image e srv image
              >> (persist_outcome e srv running (some image) baseline
                  >> (retire e srv >> finish e srv success none)))
            s)
  switch-Done image baseline s h =
      replaced-Done image baseline s (replace_image e srv image s) h refl (
        lift-IsStarting image (λ w. (replace_container e s.app image >>= λ _ w'. (w', ok tt)) w) s
          h)

  saved-IsStarting :
      (image : Text) (s : State e) (r : e.W × Result (Unit {0}))
      → IsStarting image s
      → After (IsStarting image) (saved e srv s r)
  unfolding After IsStarting HasImage
  saved-IsStarting image s (w, ok u) h = h
  saved-IsStarting image s (w, err f) h = tt

  step-IsStarting :
      (image : Text) (s : State e)
      → HasImage image s
      → After (IsStarting image) (step e srv starting s)
  unfolding step set_status HasImage IsStarting
  step-IsStarting image s h =
      let s' = set_status e srv starting s in
      saved-IsStarting image s' (srv.save_log s'.world) (h, refl)

  pub start_image-Done :
      (image : Text) (baseline : Baseline) (s : State e)
      → After (Done image) (start_image e srv image baseline s)
  unfolding start_image HasImage
  start_image-Done image baseline s =
      let s' : State e = record s { deployment = record s.deployment { image_ref = some image } } in
      After-then (IsStarting image) (Done image) _ (step e srv starting s')
        (step-IsStarting image s' refl) (switch-Done image baseline)

  pub rollback_body-Done :
      (image : Text) (s : State e)
      → HasImage image s
      → After (Done image) (rollback_body e srv image s)
  unfolding rollback_body
  rollback_body-Done image s h =
      After-then (IsStarting image) (Done image) _ (step e srv starting s)
        (step-IsStarting image s h)
        (λ s1 h1.
          After-then (IsStarting image) (Done image) _ (lift e srv srv.for_server s1)
            (lift-IsStarting image srv.for_server s1 h1)
            (λ s2 h2.
              After-then (IsStarting image) (Done image) _ (lift e srv (srv.ensure_image image) s2)
                (lift-IsStarting image (srv.ensure_image image) s2 h2) (switch-Done image none)))
