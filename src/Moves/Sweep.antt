-- ===== src/Moves/Sweep.antt =====
-- What the clean-up leaves (`retirePreviousDaemons` of
-- src/modules/application/deployment-runner.service.ts).
use aoox_api.Prelude.{
  ◌≡◌, ◌⊎◌, inl, inr, refl, ap, subst, Bool, true, not, ◌||◌, Option, none, some, List, [], ◌∷◌,
  arith, every, includes, Text, text_eq, text_eq_iff, Bool-cases,
}
use aoox_api.Moves.{set_add}
use aoox_api.Moves.Chain.{includes-set_add}
use aoox_api.Moves.Retire.{
  Container, Daemons, same_server, Reached, reached, missing, unreachable,
  remove_application_containers, target_of, visit_daemon, visit_targets,
}

-- No container of the application is left but the tasks of a swarm.
pub is_clean : List Container → Bool
is_clean cs = every (λ c. not c.of_application || c.is_swarm_task) cs

same_server-same : (a b : Option Text) → same_server a b ≡ true → a ≡ b
same_server-same none none h = refl
same_server-same none (some b) h = absurd (cc)
same_server-same (some a) none h = absurd (cc)
same_server-same (some a) (some b) h = ap some ((text_eq_iff a b).0 h)

same_server_refl : (a : Option Text) → same_server a a ≡ true
same_server_refl none = refl
same_server_refl (some a) = (text_eq_iff a a).1 refl

module _ (removes : Container → Bool) (reach : Option Text → Reached) where
  remove-is_clean :
      (cs : List Container)
      → (remove_application_containers removes cs).1 ≡ true
      → is_clean (remove_application_containers removes cs).0 ≡ true
  unfolding remove_application_containers is_clean
  remove-is_clean [] h = refl
  remove-is_clean (c ∷ cs) h = let ih = remove-is_clean cs in ground (arith, h, ih)

  remove-stays_clean :
      (cs : List Container)
      → is_clean cs ≡ true
      → is_clean (remove_application_containers removes cs).0 ≡ true
  unfolding remove_application_containers is_clean
  remove-stays_clean [] h = refl
  remove-stays_clean (c ∷ cs) h = let ih = remove-stays_clean cs in ground (arith, h, ih)

  visit_daemon-stays_clean :
      (r : Reached) (key : Text) (s : Daemons × List Text) (d : Option Text)
      → is_clean (s.0 d) ≡ true
      → is_clean ((visit_daemon removes r key s).0 d) ≡ true
  visit_daemon-stays_clean missing key s d h = h
  visit_daemon-stays_clean unreachable key s d h = h
  visit_daemon-stays_clean reached key (daemons, done) d h =
      elim (Bool-cases (same_server d (target_of key))) [
        | inl same ↦ simp same (
            remove-stays_clean (daemons (target_of key)) (
              subst (λ x. is_clean (daemons x) ≡ true) (same_server-same d (target_of key) same) h))
        | inr other ↦ simp other h
      ]

  -- A daemon that needs no further clean-up.
  pub IsDone : Daemons → Text → Type 0
  IsDone daemons key =
      (reach (target_of key) ≡ missing) ⊎ (is_clean (daemons (target_of key)) ≡ true)

  unfoldable pub AllDone : Daemons × List Text → Type 0
  AllDone s = (k : Text) → includes s.1 k ≡ true → IsDone s.0 k

  gone-IsDone :
      (daemons : Daemons) (key : Text) → reach (target_of key) ≡ missing → IsDone daemons key
  unfolding IsDone
  gone-IsDone daemons key e = inl e

  IsDone-visit :
      (r : Reached) (key k : Text) (s : Daemons × List Text)
      → IsDone s.0 k
      → IsDone (visit_daemon removes r key s).0 k
  unfolding IsDone
  IsDone-visit r key k s (inl gone) = inl gone
  IsDone-visit r key k s (inr clean) = inr (visit_daemon-stays_clean r key s (target_of k) clean)

  -- A key that is added is the new one or was there.
  set_add-cases :
      (done : List Text) (key k : Text)
      → includes (set_add done key) k ≡ true
      → (includes done k ≡ true) ⊎ (key ≡ k)
  set_add-cases done key k h = elim (Bool-cases (text_eq key k)) [
    | inl same ↦ inr ((text_eq_iff key k).0 same)
    | inr other ↦ let both = includes-set_add done key k in inl (ground (arith, both, h, other))
  ]

  swept-IsDone :
      (key : Text) (daemons : Daemons)
      → (remove_application_containers removes (daemons (target_of key))).1 ≡ true
      → IsDone (visit_daemon removes reached key (daemons, [])).0 key
  unfolding IsDone
  swept-IsDone key daemons all =
      inr (simp (same_server_refl (target_of key)) (remove-is_clean (daemons (target_of key)) all))

  visit_daemon-AllDone :
      (r : Reached) (key : Text) (s : Daemons × List Text)
      → reach (target_of key) ≡ r
      → AllDone s
      → AllDone (visit_daemon removes r key s)
  unfolding AllDone
  visit_daemon-AllDone unreachable key s e all k h = all k h
  visit_daemon-AllDone missing key (daemons, done) e all k h = elim (set_add-cases done key k h) [
    | inl before ↦ all k before
    | inr same ↦ subst (IsDone daemons) same (gone-IsDone daemons key e)
  ]
  visit_daemon-AllDone reached key (daemons, done) e all k h =
      elim (Bool-cases (remove_application_containers removes (daemons (target_of key))).1) [
        | inr failed ↦ IsDone-visit reached key k (daemons, done) (all k (simp failed at h))
        | inl well ↦ elim (set_add-cases done key k (simp well at h)) [
          | inl before ↦ IsDone-visit reached key k (daemons, done) (all k before)
          | inr same ↦
              subst (IsDone (visit_daemon removes reached key (daemons, done)).0) same
                (swept-IsDone key daemons well)
        ]
      ]

  pub visit_targets-AllDone :
      (keys : List Text) (s : Daemons × List Text)
      → AllDone s
      → AllDone (visit_targets removes reach keys s)
  unfolding visit_targets
  visit_targets-AllDone [] s all = all
  visit_targets-AllDone (key ∷ keys) s all =
      visit_targets-AllDone keys (visit_daemon removes (reach (target_of key)) key s)
        (visit_daemon-AllDone (reach (target_of key)) key s refl all)
