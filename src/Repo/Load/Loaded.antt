-- ===== src/Repo/Load/Loaded.antt =====
-- The services that tinit_repo_load() creates, and the state that the daemon starts from.
use einit.Prelude.{
  inl, inr, ℕ, ◌<◌, ◌≡◌, refl, ap, ◌∙◌, sym, subst, Option, none, some, List, [], ◌∷◌, In, All, map,
  length, arith,
}
use einit.Conf.{StrArr, ConfSvc}
use einit.Conf.Load.Valid.{OptAll, IsCmd, IsNames}
use einit.Conf.Load.Accepted.{IsSources, IsConf}
use einit.Svc.Runnable.{HasArgs, OptHasArgs, HasSlots}
use einit.World.{stopped, Side, Svc, World, installed}
use einit.Svc.Evolve.{IsFit, IsSound}
use einit.Svc.Register.{
  Relation, starton, stopon, poll_of, obsrv_of, srcs_of, conf_of, svc_init, svc_init_notif_obsrv,
}
use einit.Svc.Register.Wired.{Wired}
use einit.Repo.Load.Wiring.{Setup}
use einit.Repo.Load.Rounds.{IsNodup, IsUnset}

-- A service that is stopped, with no process and no registration.
pub record IsIdle (s : Svc) : Type 0 where
  pub state : s.state ≡ stopped
  pub fit : IsFit s
  pub srcs : (rel : Relation) → srcs_of rel (λ id. s) 0 ≡ []
  pub obsrv : (rel : Relation) → obsrv_of rel s ≡ []

-- The daemon's memory before the repository is loaded.
pub record IsFresh (w : World) : Type 0 where
  pub repo : w.repo ≡ []
  pub log : w.log ≡ []
  pub idle : (id : ℕ) → IsIdle (w.svc id)

-- The configurations of the services, in the repository's order.
abbrev pub confs_of : World → List ConfSvc
confs_of w = map (λ id. (w.svc id).conf) w.repo

-- The repository with the services of the given configurations, and nothing registered.
pub record Filled (confs : List ConfSvc) (w : World) : Type 0 where
  pub nodup : IsNodup w.repo
  pub bounded : (id : ℕ) → In id w.repo → id < length w.repo
  pub log : w.log ≡ []
  pub idle : (id : ℕ) → IsIdle (w.svc id)
  pub unset : (rel : Relation) (id : ℕ) → In id w.repo → IsUnset rel id w
  pub listed : confs_of w ≡ confs
  pub valid : All IsConf confs

-- The repository with the services of the given configurations, ready to be started.
pub record IsLoaded (confs : List ConfSvc) (w : World) : Type 0 where
  pub listed : confs_of w ≡ confs
  pub valid : All IsConf confs
  pub nodup : IsNodup w.repo
  pub sound : IsSound w
  pub wired : Wired w
  pub stopped : (id : ℕ) → (w.svc id).state ≡ stopped

new_slots : (names : Option StrArr) → OptAll IsNames names → HasSlots (svc_init_notif_obsrv names)
new_slots none n = tt
new_slots (some []) n = n.0
new_slots (some (name ∷ names)) n = omega arith

pub Filled-Wired : {confs : List ConfSvc} {w : World} → Filled confs w → Wired w
Filled-Wired {confs} {w} h = record {
  acyclic = λ rel. (λ x. 0, λ x y i. absurd (subst (In y) ((h.idle x).srcs rel) i));
  linked = λ rel src sink. (
    λ i. absurd (subst (In sink) ((h.idle src).obsrv rel) i),
    λ i. absurd (subst (In src) ((h.idle sink).srcs rel) i),
  );
  slots = λ rel id m.
      let (set, named) = h.unset rel id m in
      subst HasSlots (sym set) (new_slots (conf_of rel (w.svc id).conf) named);
  closed = λ rel src sink i. absurd (subst (In sink) ((h.idle src).obsrv rel) i);
}

same_confs :
    {w v : World} (ids : List ℕ)
    → Setup w v
    → map (λ id. (v.svc id).conf) ids ≡ map (λ id. (w.svc id).conf) ids
same_confs [] h = refl
same_confs (id ∷ ids) h = rw ((h.core id).conf, same_confs ids h) refl

All-map-In :
    (conf : ℕ → ConfSvc) (ids : List ℕ) (id : ℕ)
    → All IsConf (map conf ids)
    → In id ids
    → IsConf (conf id)
All-map-In conf [] id h m = elim m [ ]
All-map-In conf (j ∷ ids) id h (inl e) = subst (λ k. IsConf (conf k)) (sym e) h.0
All-map-In conf (j ∷ ids) id h (inr m) = All-map-In conf ids id h.1 m

cmds_HasArgs : (cmds : List StrArr) → All IsCmd cmds → All HasArgs cmds
cmds_HasArgs [] h = tt
cmds_HasArgs (cmd ∷ cmds) h = (h.0.0, cmds_HasArgs cmds h.1)

opt_HasArgs : (cmd : Option StrArr) → OptAll IsCmd cmd → OptHasArgs cmd
opt_HasArgs none h = tt
opt_HasArgs (some cmd) h = h.0

pub Setup-IsLoaded :
    {confs : List ConfSvc} {w v : World} → Filled confs w → Setup w v → IsLoaded confs v
unfolding installed
Setup-IsLoaded {confs} {w} {v} f h = record {
  listed = ap (map (λ id. (v.svc id).conf)) h.repo ∙ same_confs w.repo h ∙ f.listed;
  valid = f.valid;
  nodup = subst IsNodup (sym h.repo) f.nodup;
  sound = record {
    fit = λ id.
        let c = h.core id in
        let i = (f.idle id).fit in
        record { evts = cc; notif = cc; idle = λ e. c.child ∙ i.idle (f.idle id).state };
    armed =
        λ id side e. absurd (no_timer id side (ap (λ l. installed l id) (sym (h.log ∙ f.log)) ∙ e));
    runnable = λ id m.
        let valid : IsConf (v.svc id).conf =
          All-map-In (λ j. (v.svc j).conf) v.repo id
            (subst (All IsConf)
              (sym (ap (map (λ j. (v.svc j).conf)) h.repo ∙ same_confs w.repo h ∙ f.listed))
              f.valid)
            m in
        record {
          start = cmds_HasArgs (v.svc id).conf.start valid.start;
          daemon = opt_HasArgs (v.svc id).conf.daemon valid.daemon;
          stop = cmds_HasArgs (v.svc id).conf.stop valid.stop;
          starton = h.wired.slots starton id m;
          stopon = h.wired.slots stopon id m;
        };
    starton_closed = h.wired.closed starton;
    stopon_closed = h.wired.closed stopon;
  };
  wired = h.wired;
  stopped = λ id. (h.core id).state ∙ (f.idle id).state;
}
  where
    no_timer : (id : ℕ) (side : Side) → ¬ (installed [] id ≡ some side)
    no_timer id side e = cc

pub svc_init-IsIdle : (conf : ConfSvc) (junk : Svc) → IsIdle (svc_init conf junk)
unfolding svc_init
svc_init-IsIdle conf junk = record {
  state = refl;
  fit = record { evts = refl; notif = refl; idle = λ e. refl };
  srcs = λ rel. no_srcs rel (conf_of rel conf) refl;
  obsrv = λ rel. no_obsrv rel;
}
  where
    no_srcs :
        (rel : Relation) (names : Option StrArr)
        → conf_of rel conf ≡ names
        → srcs_of rel (λ id. svc_init conf junk) 0 ≡ []
    no_srcs starton none e = rw e refl
    no_srcs starton (some names) e = rw e refl
    no_srcs stopon none e = rw e refl
    no_srcs stopon (some names) e = rw e refl

    no_obsrv : (rel : Relation) → obsrv_of rel (svc_init conf junk) ≡ []
    no_obsrv starton = refl
    no_obsrv stopon = refl

pub svc_init-IsUnset :
    (rel : Relation) (id : ℕ) (conf : ConfSvc) (junk : Svc) (w : World)
    → IsConf conf
    → w.svc id ≡ svc_init conf junk
    → IsUnset rel id w
unfolding svc_init
svc_init-IsUnset rel id conf junk w valid e = rw e (at_init rel)
  where
    named : (names : Option StrArr) → OptAll (IsSources conf.name) names → OptAll IsNames names
    named none h = tt
    named (some names) h = h.0

    at_init :
        (r : Relation)
        → (poll_of r (svc_init conf junk) ≡ svc_init_notif_obsrv (conf_of r conf))
          × OptAll IsNames (conf_of r conf)
    at_init starton = (refl, named conf.starton valid.starton)
    at_init stopon = (refl, named conf.stopon valid.stopon)
