-- ===== src/Svc/Events/Waits.antt =====
-- A service that has to wait does nothing but wait.
use einit.Prelude.{
  ℕ, ◌≡◌, ◌≢◌, refl, sym, ap, ◌∙◌, subst, inl, inr, false, List, [], ◌∷◌, All, In, ok, Bool-cases,
}
use native.Mathlib.Decide.{ℕ_discrete}
use einit.World.{ready, starting, stopped, stopping, Svc, Env, World}
use einit.Svc.Spawn.{
  svc_may_start, svc_may_stop, start_allowed, stop_allowed, svc_may_start-ok, svc_may_stop-ok,
}
use einit.Svc.Runnable.{HasSlots}
use einit.Svc.Spawn.Gate.{sources, start_allowed_iff, stop_allowed_iff}
use einit.Svc.React.{update_self, update_ne}
use einit.Svc.Events.{svc_start, svc_stop, enter_starting, enter_stopping}

All-at : (P : ℕ → Type 0) (xs : List ℕ) (a : ℕ) → All P xs → In a xs → P a
All-at P [] a h m = elim m [ ]
All-at P (x ∷ xs) a h (inl e) = subst P (sym e) h.0
All-at P (x ∷ xs) a h (inr m) = All-at P xs a h.1 m

module _ (env : Env) (id : ℕ) (w : World) (src : ℕ) where
  start_blocked :
      In src (sources (w.svc id).starton_notif)
      → (w.svc src).state ≢ ready
      → start_allowed (enter_starting env id w) id ≡ false
  unfolding enter_starting
  start_blocked m n =
      let v : World = enter_starting env id w in
      elim (Bool-cases (start_allowed v id)) [
        | inr e ↦ e
        | inl e ↦
            (let self : (v.svc id).starton_notif ≡ (w.svc id).starton_notif =
                ap (λ (s : Svc). s.starton_notif) (update_self w.svc id _) in
              let now : (v.svc src).state ≡ ready =
                All-at (λ j. (v.svc j).state ≡ ready) (sources (v.svc id).starton_notif) src
                  ((start_allowed_iff v id).0 e) (subst (λ p. In src (sources p)) (sym self) m) in
              elim (ℕ_discrete id src) [
                | yes same ↦ absurd (
                    starting_not_ready (
                      sym (ap (λ (s : Svc). s.state) (update_self w.svc id _))
                      ∙ (ap (λ j. (v.svc j).state) same ∙ now)))
                | no other ↦
                    absurd
                      (n (sym (ap (λ (s : Svc). s.state) (update_ne w.svc id _ src other)) ∙ now))
              ])
      ]
    where
      starting_not_ready : starting ≢ ready
      starting_not_ready e = cc

  asks_start :
      HasSlots (w.svc id).starton_notif
      → svc_may_start (enter_starting env id w) id ≡ ok (start_allowed (enter_starting env id w) id)
  unfolding enter_starting
  asks_start p =
      let self = update_self w.svc id _ in
      svc_may_start-ok (enter_starting env id w) id (ap (λ (s : Svc). s.handle_evts) self)
        (ap (λ (s : Svc). s.handle_notif) self) (ap (λ (s : Svc). s.state) self)
        (subst (λ (s : Svc). HasSlots s.starton_notif) (sym self) p)

  asks_stop :
      HasSlots (w.svc id).stopon_notif
      → svc_may_stop (enter_stopping env id w) id ≡ ok (stop_allowed (enter_stopping env id w) id)
  unfolding enter_stopping
  asks_stop p =
      let self = update_self w.svc id _ in
      svc_may_stop-ok (enter_stopping env id w) id (ap (λ (s : Svc). s.handle_evts) self)
        (ap (λ (s : Svc). s.handle_notif) self) (ap (λ (s : Svc). s.state) self)
        (subst (λ (s : Svc). HasSlots s.stopon_notif) (sym self) p)

  -- svc_start on a service, with a poll of one slot or more, that waits for a service that is not READY writes the fields of the
  -- service, installs the handler of its timer, and does nothing else: it forks no process and arms no
  -- timer, and no other service changes.
  pub svc_start-waits :
      In src (sources (w.svc id).starton_notif)
      → (w.svc src).state ≢ ready
      → HasSlots (w.svc id).starton_notif
      → svc_start env id w ≡ ok (enter_starting env id w)
  unfolding svc_start
  svc_start-waits m n p = rw (asks_start p, start_blocked m n) refl

  stop_blocked :
      In src (sources (w.svc id).stopon_notif)
      → (w.svc src).state ≢ stopped
      → stop_allowed (enter_stopping env id w) id ≡ false
  unfolding enter_stopping
  stop_blocked m n =
      let v : World = enter_stopping env id w in
      elim (Bool-cases (stop_allowed v id)) [
        | inr e ↦ e
        | inl e ↦
            (let self : (v.svc id).stopon_notif ≡ (w.svc id).stopon_notif =
                ap (λ (s : Svc). s.stopon_notif) (update_self w.svc id _) in
              let now : (v.svc src).state ≡ stopped =
                All-at (λ j. (v.svc j).state ≡ stopped) (sources (v.svc id).stopon_notif) src
                  ((stop_allowed_iff v id).0 e) (subst (λ p. In src (sources p)) (sym self) m) in
              elim (ℕ_discrete id src) [
                | yes same ↦ absurd (
                    stopping_not_stopped (
                      sym (ap (λ (s : Svc). s.state) (update_self w.svc id _))
                      ∙ (ap (λ j. (v.svc j).state) same ∙ now)))
                | no other ↦
                    absurd
                      (n (sym (ap (λ (s : Svc). s.state) (update_ne w.svc id _ src other)) ∙ now))
              ])
      ]
    where
      stopping_not_stopped : stopping ≢ stopped
      stopping_not_stopped e = cc

  -- svc_stop on a service, with a poll of one slot or more, that waits for a service that is not STOPPED writes the fields of the
  -- service, installs the handler of its timer, and does nothing else: no signal is sent, no process
  -- forked, no timer armed, and no other service changes.
  pub svc_stop-waits :
      In src (sources (w.svc id).stopon_notif)
      → (w.svc src).state ≢ stopped
      → HasSlots (w.svc id).stopon_notif
      → svc_stop env id w ≡ ok (enter_stopping env id w)
  unfolding svc_stop
  svc_stop-waits m n p = rw (asks_stop p, stop_blocked m n) refl
