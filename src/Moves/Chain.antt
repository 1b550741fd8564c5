-- ===== src/Moves/Chain.antt =====
-- A chain of moves with no deploy between them.
use aoox_api.Prelude.{
  ◌≡◌, ◌≢◌, refl, sym, ap, ◌∙◌, inl, inr, true, not, ◌&&◌, ◌||◌, Option, List, [], ◌∷◌, ◌++◌, arith,
  includes, Text, text_eq, text_eq_iff, Bool-cases,
}
use aoox_api.Moves.{daemon_key, set_add, set_delete, set_of, record_move}

includes-append :
    (xs ys : List Text) (k : Text) → includes (xs ++ ys) k ≡ includes xs k || includes ys k
unfolding includes
includes-append [] ys k = refl
includes-append (x ∷ xs) ys k = ground (arith, includes-append xs ys k)

pub includes-set_add :
    (xs : List Text) (y k : Text) → includes (set_add xs y) k ≡ includes xs k || text_eq y k
unfolding set_add includes
includes-set_add xs y k = elim (Bool-cases (includes xs y)) [
  | inr out ↦ rw out (let added = includes-append xs (y ∷ []) k in ground (arith, added))
  | inl held ↦ elim (Bool-cases (text_eq y k)) [
    | inr other ↦ rw (held, other) (ground arith)
    | inl same ↦
        let found : includes xs k ≡ true = rw ((text_eq_iff y k).0 same) at held in
        rw held (ground (arith, same, found))
  ]
]

includes-set_of :
    (ks keys : List Text) (k : Text)
    → includes (set_of keys ks) k ≡ includes keys k || includes ks k
unfolding set_of includes
includes-set_of [] keys k = ground arith
includes-set_of (x ∷ ks) keys k =
    let ih = includes-set_of ks (set_add keys x) k in ground (arith, includes-set_add keys x k)

includes-set_delete :
    (xs : List Text) (y k : Text)
    → includes (set_delete xs y) k ≡ includes xs k && not (text_eq y k)
unfolding set_delete includes
includes-set_delete [] y k = refl
includes-set_delete (x ∷ xs) y k =
    let ih = includes-set_delete xs y k in
    elim (Bool-cases (text_eq x y)) [
      | inr other ↦ elim (Bool-cases (text_eq x k)) [
        | inr apart ↦ ground (arith, other, apart)
        | inl same ↦
            let differs : text_eq y k ≢ true = λ e.
              let t =
                (text_eq_iff x y).1 ((text_eq_iff x k).0 same ∙ sym ((text_eq_iff y k).0 e)) in
              cc in
            ground (arith, other, same)
      ]
      | inl same ↦
          let alike : text_eq x k ≡ text_eq y k =
            ap (λ z. text_eq z k) ((text_eq_iff x y).0 same) in
          ground (arith, same)
    ]

includes-record_move :
    (pending : List Text) (from to : Option Text) (k : Text)
    → includes (record_move pending from to) k
      ≡ (includes pending k || text_eq (daemon_key from) k) && not (text_eq (daemon_key to) k)
unfolding record_move includes
includes-record_move pending from to k =
    let removed =
      includes-set_delete (set_add (set_of [] pending) (daemon_key from)) (daemon_key to) k in
    let added = includes-set_add (set_of [] pending) (daemon_key from) k in
    let kept = includes-set_of pending [] k in ground arith

-- Where the application is after the moves, the newest first.
pub server_after : Option Text → List (Option Text) → Option Text
server_after start [] = start
server_after start (to ∷ moves) = to

-- What is recorded then.
pub pending_after : Option Text → List (Option Text) → List Text
pending_after start [] = []
pending_after start (to ∷ moves) =
    record_move (pending_after start moves) (server_after start moves) to

-- The daemons that it was on.
pub visited : Option Text → List (Option Text) → List Text
visited start [] = daemon_key start ∷ []
visited start (to ∷ moves) = daemon_key to ∷ visited start moves

visited-server_after :
    (start : Option Text) (moves : List (Option Text)) (k : Text)
    → text_eq (daemon_key (server_after start moves)) k ≡ true
    → includes (visited start moves) k ≡ true
unfolding visited server_after includes
visited-server_after start [] k h = ground (arith, h)
visited-server_after start (to ∷ moves) k h = ground (arith, h)

-- After any chain of moves exactly the daemons that the application was on are recorded, without the
-- one that it is on.
pub pending_after-visited :
    (start : Option Text) (moves : List (Option Text)) (k : Text)
    → includes (pending_after start moves) k
      ≡ includes (visited start moves) k && not (text_eq (daemon_key (server_after start moves)) k)
unfolding pending_after visited server_after includes
pending_after-visited start [] k = ground arith
pending_after-visited start (to ∷ moves) k =
    let ih = pending_after-visited start moves k in
    let moved = includes-record_move (pending_after start moves) (server_after start moves) to k in
    let on = visited-server_after start moves k in
    elim (Bool-cases (text_eq (daemon_key (server_after start moves)) k)) [
      | inl here ↦ let there = on here in ground (arith, here)
      | inr away ↦ ground (arith, away)
    ]
