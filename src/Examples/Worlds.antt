-- ===== src/Examples/Worlds.antt =====
-- A repository of two services, "net" and "web", and answers of the system. "web" starts once "net"
-- is ready, and "net" stops once "web" has stopped.
use einit.Prelude.{
  sym, subst, List, refl, ℕ, ◌+◌, ◌≡◌, inl, inr, false, none, some, [], ◌∷◌, length, arith, ◌==◌,
  if◌then◌else◌, negsuc, ℤ, Bool-cases,
}
use einit.Conf.{CStr, StrArr, ConfSvc}
use einit.Svc.Runnable.{IsRunnable}
use einit.World.{
  fork_asserts, kill_asserts, Call, SvcState, stopped, Svc, spawned, Env, World, utimer_setup,
  installed,
}
use einit.Svc.Evolve.{side_of, IsSound}

-- "net", "web" and "ls"
abbrev pub net_name : CStr
net_name = 110 ∷ 101 ∷ 116 ∷ []

abbrev pub web_name : CStr
web_name = 119 ∷ 101 ∷ 98 ∷ []

abbrev pub some_cmd : ℕ → StrArr
some_cmd n = (108 ∷ 115 ∷ []) ∷ (n ∷ []) ∷ []

abbrev pub net_conf : ConfSvc
net_conf = record {
  stdin = none;
  stdout = none;
  env = none;
  start = some_cmd 1 ∷ some_cmd 2 ∷ [];
  daemon = some (some_cmd 3);
  stop = some_cmd 4 ∷ [];
  stop_sig = 15;
  reload_sig = 15;
  name = net_name;
  path = net_name;
  desc = none;
  starton = none;
  stopon = some (web_name ∷ []);
}

abbrev pub web_conf : ConfSvc
web_conf = record net_conf {
  start = [];
  name = web_name;
  path = web_name;
  starton = some (net_name ∷ []);
  stopon = none;
}

abbrev pub net : SvcState → Svc
net state = record {
  handle_evts = side_of state;
  child = negsuc 0;
  state = state;
  handle_notif = side_of state;
  start_cmd = 0;
  starton_obsrv = 1 ∷ [];
  starton_notif = none;
  stop_cmd = negsuc 0;
  stopon_obsrv = [];
  stopon_notif = some (record { srcs = 1 ∷ []; nr = 1 });
  conf = net_conf;
}

abbrev pub web : SvcState → Svc
web state = record (net state) {
  starton_obsrv = [];
  starton_notif = some (record { srcs = 0 ∷ []; nr = 1 });
  stopon_obsrv = 0 ∷ [];
  stopon_notif = none;
  conf = web_conf;
}

-- The services in the given states; "net" has the given `child`.
abbrev pub two : SvcState → ℤ → SvcState → World
two a c b = record {
  svc = λ id.
      if id == 0 then record (net a) { child = c } else if id == 1 then web b else web stopped;
  repo = 0 ∷ 1 ∷ [];
  log = utimer_setup 0 (side_of a) ∷ [];
}

pub easy_forks : (log : List Call) → fork_asserts (spawned (100 + length log)) ≡ false
unfolding fork_asserts
easy_forks log = refl

pub easy_kills : (log : List Call) → kill_asserts 0 ≡ false
unfolding kill_asserts
easy_kills log = refl

-- Every fork works, every process is found, no timer is armed.
abbrev pub easy : Env
easy = record {
  vfork_result = λ log. spawned (100 + length log);
  vfork_law = easy_forks;
  kill_result = λ log. 0;
  kill_law = easy_kills;
  is_armed = λ log id. false;
}

pub two-IsSound :
    (a : SvcState) (c : ℤ) (b : SvcState) → (a ≡ stopped → c ≡ negsuc 0) → IsSound (two a c b)
unfolding installed
two-IsSound a c b h = record {
  fit = λ id. ground arith;
  runnable = λ id m. elim m [
    | inl e ↦
        subst (λ j. IsRunnable ((two a c b).svc j)) (sym e)
          (record {
            start = (omega arith, (omega arith, tt));
            daemon = omega arith;
            stop = (omega arith, tt);
            starton = tt;
            stopon = omega arith;
          })
    | inr other ↦ elim other [
      | inl e ↦
          subst (λ j. IsRunnable ((two a c b).svc j)) (sym e)
            (record {
              start = tt;
              daemon = omega arith;
              stop = (omega arith, tt);
              starton = omega arith;
              stopon = tt;
            })
      | inr k ↦ elim k [ ]
    ]
  ];
  armed = λ id side e. ground arith;
  starton_closed = λ id sink m. elim (Bool-cases (id == 0)) [
    | inl e ↦ elim (rw e at m) [ inl k ↦ inr (inl k) | inr k ↦ elim k [ ] ]
    | inr e ↦ elim (Bool-cases (id == 1)) [
      | inl f ↦ absurd (rw (e, f) at m)
      | inr f ↦ absurd (rw (e, f) at m)
    ]
  ];
  stopon_closed = λ id sink m. elim (Bool-cases (id == 0)) [
    | inl e ↦ absurd (rw e at m)
    | inr e ↦ elim (Bool-cases (id == 1)) [
      | inl f ↦ elim (rw (e, f) at m) [ inl k ↦ inl k | inr k ↦ elim k [ ] ]
      | inr f ↦ elim (rw (e, f) at m) [ inl k ↦ inl k | inr k ↦ elim k [ ] ]
    ]
  ];
}
