-- ===== src/Repo/Load/Wiring.antt =====
-- Setting the services of a repository up: every name that is found becomes a registration, whose write is in bounds.
use einit.Prelude.{
  ℕ, suc, ◌+◌, ◌≤◌, ◌≡◌, ◌⊎◌, refl, ◌∙◌, sym, subst, inl, inr, Option, none, some, Option-cases,
  List, [], ◌∷◌, In, All, length, Returns, Returns-bind, Returns-map, arith,
}
use einit.Conf.{CStr, StrArr}
use einit.World.{NotifPoll, World}
use einit.Repo.{byname_loop}
use einit.Conf.Load.Valid.{OptAll, IsName, IsNames}
use einit.Common.Names.Valid.{check_answer_bounds}
use einit.Repo.Lookup.{byname_found, search_byname-ok}
use einit.Svc.Register.{Relation, poll_of, conf_of, svc_register_obsrv, svc_init_notif_obsrv}
use einit.Svc.Register.Writes.{SameCore, SameCore-refl, SameCore-trans}
use einit.Svc.Register.Wired.{Wired}
use einit.Svc.Register.Registered.{Registered, svc_register_obsrv-Registered}
use einit.Repo.Load.{setup_names, setup_of, tinit_repo_setup_svc}

-- What a run of the setup keeps.
pub record Setup (w v : World) : Type 0 where
  pub repo : v.repo ≡ w.repo
  pub log : v.log ≡ w.log
  pub core : (j : ℕ) → SameCore (w.svc j) (v.svc j)
  pub wired : Wired v

pub Setup-refl : (w : World) → Wired w → Setup w w
Setup-refl w wired = record {
  repo = refl;
  log = refl;
  core = λ j. SameCore-refl (w.svc j);
  wired = wired;
}

pub Setup-trans : {u v w : World} → Setup u v → Setup v w → Setup u w
Setup-trans h k = record {
  repo = k.repo ∙ h.repo;
  log = k.log ∙ h.log;
  core = λ j. SameCore-trans (h.core j) (k.core j);
  wired = k.wired;
}

-- A setup that writes no other poll than the one of `sink`.
pub record OnePoll (rel : Relation) (sink : ℕ) (w v : World) : Type 0 where
  pub setup : Setup w v
  pub others :
      (other : Relation) (j : ℕ)
      → (poll_of other (v.svc j) ≡ poll_of other (w.svc j)) ⊎ ((other ≡ rel) × (j ≡ sink))

OnePoll-trans :
    {rel : Relation} {sink : ℕ} {u v w : World}
    → OnePoll rel sink u v
    → OnePoll rel sink v w
    → OnePoll rel sink u w
OnePoll-trans h k = record {
  setup = Setup-trans h.setup k.setup;
  others = λ other j. elim (k.others other j) [
    | inr own ↦ inr own
    | inl e ↦ elim (h.others other j) [ inl f ↦ inl (e ∙ f) | inr own ↦ inr own ]
  ];
}

module _ (rel : Relation) (sink : ℕ) where
  -- Room for one more registration than there are names left.
  HasRoom : World → ℕ → Type 0
  HasRoom w n =
      (poll : NotifPoll) × (poll_of rel (w.svc sink) ≡ some poll) × (length poll.srcs + n ≤ poll.nr)

  setup_names-OnePoll :
      (names : List CStr) (w : World)
      → Wired w
      → In sink w.repo
      → HasRoom w (length names)
      → All IsName names
      → Returns (OnePoll rel sink w) (setup_names rel sink names w)
  unfolding setup_names HasRoom
  setup_names-OnePoll [] w wired mem room valid = record {
    setup = Setup-refl w wired;
    others = λ other j. inl refl;
  }
  setup_names-OnePoll (name ∷ names) w wired mem (poll, e, room) valid =
      let (n, m) = check_answer_bounds name (length name) valid.0 in
      rw (search_byname-ok w name n m) (elim (Option-cases (byname_loop w.svc name w.repo)) [
        | inl missing ↦
            rw missing (setup_names-OnePoll names w wired mem (poll, e, omega arith) valid.1)
        | inr (src, found) ↦ rw found (
            Returns-bind {P = Registered rel sink poll w} (OnePoll rel sink w)
              (svc_register_obsrv rel src sink w) _
              (Returns-map (svc_register_obsrv rel src sink w)
                (svc_register_obsrv-Registered rel src sink w poll wired
                  (byname_found w name src found) mem e (omega arith))
                (λ v h. h.0))
              (λ v h.
                let (next, same, size, more) = h.own in
                let first : OnePoll rel sink w v = record {
                  setup = record { repo = h.repo; log = h.log; core = h.core; wired = h.wired };
                  others = h.others;
                } in
                Returns-map {P = OnePoll rel sink v} (setup_names rel sink names v)
                  (setup_names-OnePoll names v h.wired (subst (In sink) (sym h.repo) mem)
                    (next, same, omega arith) valid.1)
                  (λ u k. OnePoll-trans first k)))
      ])

  -- The poll that svc_init() made is the one that the configuration's names need.
  pub setup_svc-OnePoll :
      (w : World)
      → Wired w
      → In sink w.repo
      → poll_of rel (w.svc sink) ≡ svc_init_notif_obsrv (conf_of rel (w.svc sink).conf)
      → OptAll IsNames (conf_of rel (w.svc sink).conf)
      → Returns (OnePoll rel sink w) (tinit_repo_setup_svc rel sink w)
  unfolding tinit_repo_setup_svc setup_of HasRoom
  setup_svc-OnePoll w wired mem e n = by_names (conf_of rel (w.svc sink).conf) e n
    where
      by_names :
          (names : Option StrArr)
          → poll_of rel (w.svc sink) ≡ svc_init_notif_obsrv names
          → OptAll IsNames names
          → Returns (OnePoll rel sink w) (setup_of rel sink names w)
      by_names none e n = record { setup = Setup-refl w wired; others = λ other j. inl refl }
      by_names (some []) e n = absurd (omega (arith, n.0))
      by_names (some (name ∷ names)) e n =
          setup_names-OnePoll (name ∷ names) w wired mem
            (record { srcs = []; nr = suc (length names) }, e, omega arith) n.1
