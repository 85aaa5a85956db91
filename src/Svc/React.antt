-- ===== src/Svc/React.antt =====
-- What an event may change: the service that it is for, and what a cascade from there may.
use einit.Prelude.{
  ℕ, ◌≡◌, ◌≢◌, refl, sym, ap, ◌∙◌, subst, inl, inr, some, In, Result, Returns, Returns-map, arith,
  ◌==◌, ==_iff, Bool-cases,
}
use einit.Svc.Runnable.{IsRunnable}
use einit.World.{Side, Svc, utimer_setup, World, put, call, update, installed}
use einit.Svc.Evolve.{
  side_of, IsFit, IsSound, Keeps, Keeps-refl, Keeps-trans, SameSetup, SameSetup-trans,
  SameSetup-IsRunnable, Evolves, Evolves-IsSound,
}

pub record Reacts (id : ℕ) (v w : World) : Type 0 where
  pub repo : w.repo ≡ v.repo
  pub self : SameSetup (v.svc id) (w.svc id)
  pub others : (j : ℕ) → id ≢ j → Keeps (v.svc j) (w.svc j)
  pub sound : IsSound w

pub Reacts-Evolves : {id : ℕ} {u v w : World} → Reacts id u v → Evolves v w → Reacts id u w
Reacts-Evolves {id} h k = record {
  repo = k.repo ∙ h.repo;
  self = SameSetup-trans h.self (k.each id).setup;
  others = λ j n. Keeps-trans (h.others j n) (k.each j);
  sound = Evolves-IsSound k h.sound;
}

pub Reacts-bind :
    {id : ℕ} {v w : World} (r : Result World)
    → Reacts id v w
    → Returns (Evolves w) r
    → Returns (Reacts id v) r
Reacts-bind {id} {v} {w} r h k =
    Returns-map {P = Evolves w} {Q = Reacts id v} r k (λ u m. Reacts-Evolves h m)

pub Reacts-of_Evolves : (id : ℕ) {v w : World} → IsSound v → Evolves v w → Reacts id v w
Reacts-of_Evolves id s h = record {
  repo = h.repo;
  self = (h.each id).setup;
  others = λ j n. h.each j;
  sound = Evolves-IsSound h s;
}

pub update_self : (f : ℕ → Svc) (id : ℕ) (s : Svc) → update f id s id ≡ s
update_self f id s = rw ((==_iff id id).1 refl)

pub update_ne : (f : ℕ → Svc) (id : ℕ) (s : Svc) (j : ℕ) → id ≢ j → update f id s j ≡ f j
update_ne f id s j n = elim (Bool-cases (id == j)) [
  | inl e ↦ absurd (n ((==_iff id j).0 e))
  | inr e ↦ rw e
]

-- A predicate of all services after a write.
update_all :
    (P : ℕ → Svc → Type 0) (f : ℕ → Svc) (id : ℕ) (s : Svc)
    → P id s
    → ((j : ℕ) → P j (f j))
    → (j : ℕ) → P j (update f id s j)
update_all P f id s h all j = elim (Bool-cases (id == j)) [
  | inl e ↦ rw e (subst (λ k. P k s) ((==_iff id j).0 e) h)
  | inr e ↦ rw e (all j)
]

-- A write to a service, with a change of its timer's handler or none.
module _ (w : World) (id : ℕ) (s : Svc) (sound : IsSound w) (same : SameSetup (w.svc id) s)
    (fit : IsFit s) where
  pub Reacts-write :
      (v : World)
      → v.svc ≡ update w.svc id s
      → v.repo ≡ w.repo
      → ((j : ℕ) (side : Side)
          → installed v.log j ≡ some side
          → side ≡ side_of (update w.svc id s j).state)
      → Reacts id w v
  Reacts-write v e r armed = record {
    repo = r;
    self =
        subst (λ (f : ℕ → Svc). SameSetup (w.svc id) (f id)) (sym e)
          (subst (SameSetup (w.svc id)) (sym (update_self w.svc id s)) same);
    others = λ j n.
        subst (λ (f : ℕ → Svc). Keeps (w.svc j) (f j)) (sym e)
          (subst (Keeps (w.svc j)) (sym (update_ne w.svc id s j n)) (Keeps-refl (w.svc j)));
    sound = record {
      fit = λ j.
          subst (λ (f : ℕ → Svc). IsFit (f j)) (sym e)
            (update_all (λ _ t. IsFit t) w.svc id s fit sound.fit j);
      runnable = λ j m.
          subst (λ (f : ℕ → Svc). IsRunnable (f j)) (sym e)
            (update_all (λ k t. In k w.repo → IsRunnable t) w.svc id s
              (λ n. SameSetup-IsRunnable same (sound.runnable id n)) sound.runnable j
              (subst (In j) r m));
      armed = λ j side k. armed j side k ∙ ap (λ (f : ℕ → Svc). side_of (f j).state) (sym e);
      starton_closed = λ j sink m. subst (In sink) (sym r) (
          update_all (λ _ t. In sink t.starton_obsrv → In sink w.repo) w.svc id s
            (λ k. sound.starton_closed id sink (subst (In sink) same.starton_obsrv k))
            (λ k. sound.starton_closed k sink) j
            (subst (λ (f : ℕ → Svc). In sink (f j).starton_obsrv) e m));
      stopon_closed = λ j sink m. subst (In sink) (sym r) (
          update_all (λ _ t. In sink t.stopon_obsrv → In sink w.repo) w.svc id s
            (λ k. sound.stopon_closed id sink (subst (In sink) same.stopon_obsrv k))
            (λ k. sound.stopon_closed k sink) j
            (subst (λ (f : ℕ → Svc). In sink (f j).stopon_obsrv) e m));
    };
  }

  pub Reacts-put : side_of s.state ≡ side_of (w.svc id).state → Reacts id w (put w id s)
  Reacts-put e = Reacts-write (put w id s) refl refl (λ j side.
      update_all (λ k t. installed w.log k ≡ some side → side ≡ side_of t.state) w.svc id s
        (λ k. sound.armed id side k ∙ sym e) (λ k. sound.armed k side) j)

  pub Reacts-enter :
      (side : Side)
      → side_of s.state ≡ side
      → Reacts id w (call (put w id s) (utimer_setup id side))
  unfolding installed
  Reacts-enter side e =
      Reacts-write (call (put w id s) (utimer_setup id side)) refl refl
        (λ j other k. ground (arith, sound.armed j other, e, k))
