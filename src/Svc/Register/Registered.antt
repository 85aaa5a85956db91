-- ===== src/Svc/Register/Registered.antt =====
-- svc_register_starton_obsrv() and svc_register_stopon_obsrv() in a wired repository.
use einit.Prelude.{
  ℕ, ◌+◌, ◌≤◌, ◌<◌, ◌≡◌, ◌⊎◌, ◌↔◌, refl, ◌∙◌, sym, inl, inr, Bool, true, false, ◌&&◌, some, [], ◌∷◌,
  ◌++◌, In, length, length-append, ok, err, assertion, out_of_bounds, ◌||◌, Returns, Bool-cases,
  ltb, ◌==◌, ==_iff, if◌then◌else◌, arith,
}
use einit.World.{NotifPoll, World}
use einit.Svc.Register.{
  Relation, starton, stopon, poll_of, srcs_of, register_in, notif_register_poll_sink,
  svc_has_notifier, svc_register_obsrv,
}
use einit.Svc.Register.Reach.{Reach, false-true}
use einit.Svc.Register.Rank.{has_notifier-decides}
use einit.Svc.Register.Writes.{
  SameCore, SameCore-refl, same_rel, same_rel-eq, registered, registered-SameCore,
  poll_of-registered,
}
use einit.Svc.Register.Wired.{Wired, registered-Wired}

-- What one registration does: what it writes to, and how far the poll of `sink` grows.
pub record Registered (rel : Relation) (sink : ℕ) (poll : NotifPoll) (w v : World) : Type 0 where
  pub repo : v.repo ≡ w.repo
  pub log : v.log ≡ w.log
  pub core : (j : ℕ) → SameCore (w.svc j) (v.svc j)
  pub wired : Wired v
  pub others :
      (other : Relation) (j : ℕ)
      → (poll_of other (v.svc j) ≡ poll_of other (w.svc j)) ⊎ ((other ≡ rel) × (j ≡ sink))
  pub own :
      (next : NotifPoll) × (poll_of rel (v.svc sink) ≡ some next)
      × (next.nr ≡ poll.nr)
      × (length next.srcs ≤ length poll.srcs + 1)

abbrev pub Outcome : Relation → ℕ → ℕ → NotifPoll → World → World → Type 0
Outcome rel sink src poll w v =
    ((v ≡ w) × Reach (srcs_of rel w.svc) sink src)
    ⊎ ((v ≡ registered rel sink src poll w) × ¬ Reach (srcs_of rel w.svc) sink src)

Registered-refl :
    (rel : Relation) (sink : ℕ) (poll : NotifPoll) (w : World)
    → Wired w
    → poll_of rel (w.svc sink) ≡ some poll
    → Registered rel sink poll w w
Registered-refl rel sink poll w wired e = record {
  repo = refl;
  log = refl;
  core = λ j. SameCore-refl (w.svc j);
  wired = wired;
  others = λ other j. inl refl;
  own = (poll, e, refl, omega arith);
}

registered-Registered :
    (rel : Relation) (sink src : ℕ) (poll : NotifPoll) (w : World)
    → Wired (registered rel sink src poll w)
    → Registered rel sink poll w (registered rel sink src poll w)
registered-Registered rel sink src poll w wired = record {
  repo = refl;
  log = refl;
  core = registered-SameCore rel sink src poll w;
  wired = wired;
  others = λ other j. elim (Bool-cases (same_rel other rel && sink == j)) [
    | inl both ↦ inr (same_rel-eq other rel (ground arith), sym ((==_iff sink j).0 (ground arith)))
    | inr n ↦ inl (poll_of-registered rel sink src poll w other j ∙ rw n refl)
  ];
  own = (
    record { srcs = poll.srcs ++ (src ∷ []); nr = poll.nr },
    poll_of-registered rel sink src poll w rel sink
        ∙ rw (same_rel-self rel, (==_iff sink sink).1 refl) refl,
    refl,
    omega (arith, length-append poll.srcs (src ∷ [])),
  );
}
  where
    same_rel-self : (r : Relation) → same_rel r r ≡ true
    same_rel-self starton = refl
    same_rel-self stopon = refl

register_in-ok :
    (rel : Relation) (poll : NotifPoll) (sink src : ℕ) (w : World)
    → length poll.srcs < poll.nr
    → register_in rel (some poll) sink src w ≡ ok (registered rel sink src poll w)
unfolding register_in
register_in-ok rel poll sink src w room =
    past (poll.nr == 0 || ltb poll.nr (length poll.srcs)) (length poll.srcs == poll.nr)
      (ground arith) (ground arith)
  where
    past :
        (a b : Bool)
        → a ≡ false
        → b ≡ false
        → (if a
            then err assertion
            else if b
            then err out_of_bounds
            else ok (registered rel sink src poll w))
          ≡ ok (registered rel sink src poll w)
    past a b p q = rw (p, q) refl

-- In a wired world with room in the poll of `sink`, registering it with `src` ends, fails at no
-- assertion and writes to the poll in bounds. The registration is left out exactly if `src` is `sink` or waits for it.
-- Either way no service waits for itself afterwards, and observers and sources still agree.
pub svc_register_obsrv-Registered :
    (rel : Relation) (src sink : ℕ) (w : World) (poll : NotifPoll)
    → Wired w
    → In src w.repo
    → In sink w.repo
    → poll_of rel (w.svc sink) ≡ some poll
    → length poll.srcs < poll.nr
    → Returns
        (λ v. Registered rel sink poll w v × Outcome rel sink src poll w v)
        (svc_register_obsrv rel src sink w)
unfolding svc_register_obsrv svc_has_notifier notif_register_poll_sink
svc_register_obsrv-Registered rel src sink w poll wired src_in sink_in e room =
    let (loops, found, iff) =
      has_notifier-decides (srcs_of rel w.svc) w.repo sink (wired.acyclic rel) src src_in in
    rw (found, e, register_in-ok rel poll sink src w room) (by_answer loops iff)
  where
    by_answer :
        (loops : Bool)
        → (loops ≡ true) ↔ Reach (srcs_of rel w.svc) sink src
        → Returns
            (λ v. Registered rel sink poll w v × Outcome rel sink src poll w v)
            (if loops then ok w else ok (registered rel sink src poll w))
    by_answer true iff = (Registered-refl rel sink poll w wired e, inl (refl, iff.0 refl))
    by_answer false iff =
        let free : ¬ Reach (srcs_of rel w.svc) sink src = λ r. false-true (iff.1 r) in
        (
          registered-Registered rel sink src poll w
              (registered-Wired rel sink src poll w e wired sink_in src_in free),
          inr (refl, free),
        )
