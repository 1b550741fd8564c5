-- ===== src/Moves/Serving.antt =====
-- The daemon that serves, and the daemons that leave the list (`retirePreviousDaemons` of
-- src/modules/application/deployment-runner.service.ts).
use aoox_api.Prelude.{
  ◌≡◌, refl, ap, ◌∙◌, Bool, true, false, not, Option, none, some, List, [], ◌∷◌, subst, arith, keep,
  All, includes, Text, text_eq, text_eq_iff, is_empty, Bool-cases, inl, inr,
}
use aoox_api.Moves.{host_daemon, daemon_key, server_id_of, pending_daemons}
use aoox_api.Moves.Retire.{
  Container, Daemons, for_server, target_of, same_server, Reached, reached, missing, unreachable,
  visit_daemon, visit_targets, MovedRow, without_done, retire_previous_daemons,
}
use aoox_api.Moves.Sweep.{IsDone, AllDone, visit_targets-AllDone}

-- A recorded daemon that is not the one of the application.
abbrev IsAway : Option Text → Text → Type 0
IsAway d k = (text_eq k (daemon_key d) ≡ false) × (is_empty k ≡ false)

target_of-remote :
    (key : Text) → text_eq key host_daemon ≡ false → is_empty key ≡ false → target_of key ≡ some key
unfolding target_of server_id_of for_server
target_of-remote key other full = simp (other, full) refl

target_of-host : (key : Text) → text_eq key host_daemon ≡ true → target_of key ≡ none
unfolding target_of server_id_of for_server
target_of-host key host = simp host refl

target_of-apart :
    (d : Option Text) (key : Text)
    → IsAway d key
    → same_server (for_server d) (target_of key) ≡ false
unfolding daemon_key for_server
target_of-apart none key (other, full) = simp (target_of-remote key other full) refl
target_of-apart (some id) key (other, full) = elim (Bool-cases (is_empty id)) [
  | inl local ↦ simp (local, target_of-remote key (simp local at other) full) refl
  | inr remote ↦ elim (Bool-cases (text_eq key host_daemon)) [
    | inl host ↦ let e : target_of key ≡ none = target_of-host key host in simp (remote, e) refl
    | inr away ↦
        let different : text_eq id key ≡ false =
          let e : text_eq key id ≡ false = simp remote at other in
          ground (arith, e, text_eq_iff key id, text_eq_iff id key) in
        simp (remote, target_of-remote key away full) different
  ]
]

not_text_eq-is_empty : (k : Text) → text_eq k [] ≡ false → is_empty k ≡ false
not_text_eq-is_empty [] h = absurd (cc)
not_text_eq-is_empty (c ∷ cs) h = refl

pending_daemons-IsAway :
    (pending : List Text) (d : Option Text)
    → includes pending [] ≡ false
    → All (IsAway d) (pending_daemons pending d)
unfolding pending_daemons includes
pending_daemons-IsAway [] d h = tt
pending_daemons-IsAway (k ∷ ks) d h =
    let rest = pending_daemons-IsAway ks d (ground (arith, h)) in
    elim (Bool-cases (text_eq k (daemon_key d))) [
      | inl here ↦ rw here rest
      | inr away ↦ rw away ((away, not_text_eq-is_empty k (ground (arith, h))), rest)
    ]

keep-includes :
    (keys done : List Text) (k : Text)
    → includes keys k ≡ true
    → includes (keep (λ x. not (includes done x)) keys) k ≡ false
    → includes done k ≡ true
unfolding includes
keep-includes [] done k there gone = absurd (cc)
keep-includes (x ∷ keys) done k there gone =
    let ih = keep-includes keys done k in
    elim (Bool-cases (text_eq x k)) [
      | inl same ↦
          let held : includes done x ≡ true = elim (Bool-cases (includes done x)) [
            | inl held ↦ held
            | inr free ↦ absurd (cc (simp (free, same) at gone))
          ] in
          subst (λ y. includes done y ≡ true) ((text_eq_iff x k).0 same) held
      | inr other ↦ elim (Bool-cases (includes done x)) [
        | inl held ↦ ih (simp other at there) (simp held at gone)
        | inr free ↦ ih (simp other at there) (simp (free, other) at gone)
      ]
    ]

module _ (removes : Container → Bool) (reach : Option Text → Reached) where
  visit_daemon-apart :
      (r : Reached) (key : Text) (s : Daemons × List Text) (d : Option Text)
      → same_server d (target_of key) ≡ false
      → (visit_daemon removes r key s).0 d ≡ s.0 d
  visit_daemon-apart missing key s d h = refl
  visit_daemon-apart unreachable key s d h = refl
  visit_daemon-apart reached key s d h = simp h refl

  visit_targets-apart :
      (keys : List Text) (s : Daemons × List Text) (d : Option Text)
      → All (IsAway d) keys
      → (visit_targets removes reach keys s).0 (for_server d) ≡ s.0 (for_server d)
  unfolding visit_targets
  visit_targets-apart [] s d all = refl
  visit_targets-apart (key ∷ keys) s d (other, all) =
      visit_targets-apart keys (visit_daemon removes (reach (target_of key)) key s) d all
      ∙ visit_daemon-apart (reach (target_of key)) key s (for_server d)
          (target_of-apart d key other)

  without_done-daemons :
      (can_write : Bool) (row : MovedRow) (s : Daemons × List Text)
      → (without_done can_write row s).1 ≡ s.0
  without_done-daemons true row s = refl
  without_done-daemons false row s = refl

  -- Where no recorded key is empty, cleaning up removes nothing from the daemon that the application is
  -- on, whatever daemons answer and whatever else is recorded. An empty key is the daemon of the host.
  pub retire-serving :
      (can_write : Bool) (held : Option Text) (row : MovedRow) (daemons : Daemons)
      → includes row.previous_daemons [] ≡ false
      → (retire_previous_daemons removes reach can_write held row daemons).1
          (for_server row.server_id)
        ≡ daemons (for_server row.server_id)
  unfolding retire_previous_daemons
  retire-serving can_write held row daemons full =
      let targets = pending_daemons row.previous_daemons row.server_id in
      let kept =
        visit_targets-apart targets (daemons, []) row.server_id
          (pending_daemons-IsAway row.previous_daemons row.server_id full) in
      let same =
        without_done-daemons can_write row (visit_targets removes reach targets (daemons, [])) in
      elim (Bool-cases (same_server row.server_id held)) [
        | inl current ↦ simp current (ap (λ w. w (for_server row.server_id)) same ∙ kept)
        | inr moved ↦ simp moved refl
      ]

  none-AllDone : (daemons : Daemons) → AllDone removes reach (daemons, [])
  unfolding AllDone includes
  none-AllDone daemons k h = absurd (cc)

  without_done-IsDone :
      (can_write : Bool) (row : MovedRow) (s : Daemons × List Text) (key : Text)
      → AllDone removes reach s
      → includes row.previous_daemons key ≡ true
      → includes (without_done can_write row s).0.previous_daemons key ≡ false
      → IsDone removes reach (without_done can_write row s).1 key
  unfolding AllDone
  without_done-IsDone false row s key all there gone = absurd (cc)
  without_done-IsDone true row (daemons, done) key all there gone =
      all key (keep-includes row.previous_daemons done key there gone)

  -- `retirePreviousDaemons` drops a daemon from the list of an application only when the server has no
  -- row any more, or when no container of the application is left on it but the tasks of a swarm.
  pub retire-IsDone :
      (can_write : Bool) (held : Option Text) (row : MovedRow) (daemons : Daemons) (key : Text)
      → includes row.previous_daemons key ≡ true
      → includes
          (retire_previous_daemons removes reach can_write held row daemons).0.previous_daemons
          key
        ≡ false
      → IsDone removes reach
          (retire_previous_daemons removes reach can_write held row daemons).1
          key
  unfolding retire_previous_daemons
  retire-IsDone can_write held row daemons key there gone =
      let targets = pending_daemons row.previous_daemons row.server_id in
      let all = visit_targets-AllDone removes reach targets (daemons, []) (none-AllDone daemons) in
      elim (Bool-cases (same_server row.server_id held)) [
        | inl current ↦ simp current (
            without_done-IsDone can_write row (visit_targets removes reach targets (daemons, []))
              key all there (simp current at gone))
        | inr moved ↦ absurd (cc (there, simp moved at gone))
      ]
