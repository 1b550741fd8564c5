-- ===== src/Deploy/Tests.antt =====
-- The replace, and its theorems, on a small daemon: one old container, whose name is taken until it is removed.
use aoox_api.Prelude.{
  ℕ, ◌+◌, ◌≡◌, ◌≢◌, refl, sym, ◌∙◌, Bool, true, false, ◌&&◌, Option, none, some, arith, Text,
  text_eq, text_eq_iff, codes, if◌then◌else◌,
}
use aoox_api.Deploy.{Engine, App, ok, err, done, healthy, plain_failure, M}
use aoox_api.Deploy.Replace.{replace_fuel, replace_container}
use aoox_api.Deploy.Fuel.{Clock, replace_container-fuel}
use aoox_api.Deploy.Serving.{Answers}
use aoox_api.Deploy.BlueGreen.{Kept, cleared, prepared, replace_container-Kept}

-- The clock, and whether the old container is there.
pub record World : Type 0 where
  pub time : ℕ
  pub has_old : Bool

abbrev pub shop : Text
shop = codes "aoox-app-shop"

-- `false` is the old container.
abbrev pub look_up : Text → M World (Option Bool)
look_up name w = (w, ok (if text_eq name shop && w.has_old then some false else none))

abbrev pub take_away : Bool → M World (Unit {0})
take_away true w = (w, ok tt)
take_away false w = (record w { has_old = false }, ok tt)

abbrev pub daemon : Engine
daemon = record {
  W = World;
  Container = Bool;
  find = look_up;
  remove = take_away;
  create = λ image name w. (w, ok true);
  start = λ c w. (w, ok tt);
  stop = λ c w. (w, ok tt);
  rename = λ c name w. (w, ok tt);
  inspect = λ c w. (w, ok (some (record { running = true; health = healthy; no_shell = false })));
  sleep = λ ms w. record w { time = w.time + ms };
  now = λ w. w.time;
  resolve_env = done;
  prepare_host = λ image. done;
  swarm_deploy = λ image w. (w, err (plain_failure (codes "no swarm")));
  swarm_remove = done;
}

daemon_clock : Clock daemon
daemon_clock = record { later = λ c w. omega arith; sleeps = λ ms w. omega arith }

abbrev OldUp : Bool → Text → World → Type 0
OldUp c name w = c ≡ false × name ≡ shop × w.has_old ≡ true

take_away-old :
    (d : Bool) (w : World) → d ≢ false → w.has_old ≡ true → (take_away d w).0.has_old ≡ true
take_away-old true w new there = there
take_away-old false w new there = absurd (new refl)

look_up-old :
    (c : Bool) (n : Text) (w : World) (r : Option Bool)
    → OldUp c n w
    → (look_up n w).1 ≡ ok r
    → r ≡ some c
look_up-old c n w r up h = let same = (text_eq_iff n shop).1 up.1 in ground (arith, up.0, up.2)

look_up-other :
    (c d : Bool) (n m : Text) (w : World)
    → m ≢ n
    → OldUp c n w
    → (look_up m w).1 ≡ ok (some d)
    → d ≢ c
look_up-other c d n m w differs up h =
    let apart : text_eq m shop ≢ true = λ e. differs ((text_eq_iff m shop).0 e ∙ sym up.1) in
    absurd (ground (arith, apart))

daemon_answers : Answers daemon OldUp
daemon_answers = record {
  up_find = λ c n m w up. up;
  up_create = λ c n image m w up. up;
  up_start = λ c d n w up. up;
  up_inspect = λ c d n w up. up;
  up_sleep = λ c n ms w up. up;
  up_swarm = λ c n w up. up;
  up_env = λ c n w up. up;
  up_host = λ c n image w up. up;
  up_remove = λ c d n w new up. (up.0, up.1, take_away-old d w (λ e. new (cc)) up.2);
  found = λ c n w r up h. look_up-old c n w r up h;
  other = λ c d n m w differs up h. look_up-other c d n m w differs up h;
  fresh = λ c d n image m w up h. ground (arith, up.0);
}

abbrev pub app : App
app = record {
  name = shop;
  is_service = false;
  on_server = false;
  has_healthcheck = true;
  has_host_port = false;
  is_preview = false;
  current_image = some (codes "shop:1");
}

abbrev pub world : World
world = record { time = 0; has_old = true }

replace_container-fuel_example :
    replace_fuel daemon 5 app (codes "shop:2") ≡ replace_container daemon app (codes "shop:2")
replace_container-fuel_example = replace_container-fuel daemon 3 app (codes "shop:2")

replace_container-Kept_example :
    Kept daemon OldUp daemon_answers false app refl
      (codes "shop:2")
      (cleared daemon OldUp daemon_answers false app refl
        (prepared daemon OldUp daemon_answers false app refl (codes "shop:2") world))
      (replace_container daemon app (codes "shop:2") world).0
replace_container-Kept_example =
    replace_container-Kept daemon OldUp daemon_answers false app refl (codes "shop:2") world refl
      (refl, refl, refl)
