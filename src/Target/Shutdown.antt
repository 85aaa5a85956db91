-- ===== src/Target/Shutdown.antt =====
-- Stopping all services in a sound world: every one is switched off, and the count that the signal
-- channel is given covers all that have still to stop.
use einit.Prelude.{
  ℕ, ◌+◌, ◌≤◌, ◌≡◌, refl, sym, ap, ◌∙◌, subst, inl, inr, List, [], ◌∷◌, In, Returns, Returns-bind,
  Returns-map, arith, if◌then◌else◌, ok, ◌>>=◌,
}
use native.Mathlib.Decide.{ℕ_discrete}
use einit.World.{SvcState, stopped, starting, ready, stopping, on, off, Env, World}
use einit.Svc.Spawn.{is_stopped}
use einit.Svc.Evolve.{
  side_of, side_of-Moves, Moves, Moves-trans, IsSound, Evolves, moving, moving_one,
}
use einit.Svc.React.{Reacts, Reacts-Evolves}
use einit.Svc.Serviced.{Serviced, Serviced-refl, Serviced-trans, Serviced-Reacts}
use einit.Svc.Events.{svc_stop, enter_stopping}
use einit.Svc.Events.Switch.{enter_stopping-Reacts, state-enter_stopping, svc_stop-Evolves}
use einit.Target.{stop_one, stop_loop, tinit_target_stop}

-- Services that are switched off stay so, and at most come to rest.
abbrev Settles : World → World → Type 0
Settles v w = (id : ℕ) → side_of (v.svc id).state ≡ off → Moves (v.svc id).state (w.svc id).state

Settles-trans : (u v w : World) → Settles u v → Settles v w → Settles u w
Settles-trans u v w h k id e =
    let m = h id e in
    Moves-trans (u.svc id).state (v.svc id).state (w.svc id).state m
      (k id (side_of-Moves (u.svc id).state (v.svc id).state m ∙ e))

-- What the loop has done with one service: it is off, and counted unless it is stopped.
record OneStopped (id : ℕ) (v : World) (r : ℕ × World) : Type 0 where
  serviced : Serviced v r.1
  is_off : side_of (r.1.svc id).state ≡ off
  counted : moving_one (r.1.svc id).state ≤ r.0
  settles : Settles v r.1

module _ (env : Env) (id : ℕ) (w : World) (s : IsSound w) (mem : In id w.repo) where
  -- `svc_stop` leaves its service off.
  svc_stop-off : Returns (λ v. Reacts id w v × (side_of (v.svc id).state ≡ off)) (svc_stop env id w)
  svc_stop-off =
      Returns-map {P = Evolves (enter_stopping env id w)}
        {Q = λ v. Reacts id w v × (side_of (v.svc id).state ≡ off)} (svc_stop env id w)
        (svc_stop-Evolves env id w s mem)
        (λ v h. (
          Reacts-Evolves (enter_stopping-Reacts env id w s mem) h,
          side_of-Moves ((enter_stopping env id w).svc id).state (v.svc id).state (h.each id).moves
              ∙ ap side_of (state-enter_stopping env id w),
        ))

  count_stop :
      side_of (w.svc id).state ≡ on
      → Returns
          (OneStopped id w)
          (svc_stop env id w >>= λ v. ok (if is_stopped (v.svc id).state then 0 else 1, v))
  count_stop e = Returns-bind (OneStopped id w) (svc_stop env id w) _ svc_stop-off (λ v (h, o).
      record {
        serviced = Serviced-Reacts h;
        is_off = o;
        counted = ground arith;
        settles = λ j f. elim (ℕ_discrete id j) [
          | yes same ↦
              (let c : on ≡ off = sym e ∙ (ap (λ k. side_of (w.svc k).state) same ∙ f) in cc)
          | no other ↦ (h.others j other).moves
        ];
      })

  stop_one-OneStopped :
      (a : SvcState) → (w.svc id).state ≡ a → Returns (OneStopped id w) (stop_one env a id w)
  unfolding stop_one
  stop_one-OneStopped stopped e = record {
    serviced = Serviced-refl w s;
    is_off = rw e;
    counted = rw e (omega arith);
    settles = λ j f. inl refl;
  }
  stop_one-OneStopped stopping e = record {
    serviced = Serviced-refl w s;
    is_off = rw e;
    counted = rw e (omega arith);
    settles = λ j f. inl refl;
  }
  stop_one-OneStopped starting e = count_stop (rw e)
  stop_one-OneStopped ready e = count_stop (rw e)

-- What the loop has done over `ids`, from the count `cnt` on.
record AllStopped (ids : List ℕ) (cnt : ℕ) (v : World) (r : ℕ × World) : Type 0 where
  serviced : Serviced v r.1
  are_off : (id : ℕ) → In id ids → side_of (r.1.svc id).state ≡ off
  counted : cnt + moving r.1.svc ids ≤ r.0
  settles : Settles v r.1

moving_one-Moves : (a b : SvcState) → Moves a b → moving_one b ≤ moving_one a
moving_one-Moves a b h = ground arith

AllStopped-cons :
    (id : ℕ) (ids : List ℕ) (cnt : ℕ) (w : World) (r q : ℕ × World)
    → OneStopped id w r
    → AllStopped ids (cnt + r.0) r.1 q
    → AllStopped (id ∷ ids) cnt w q
unfolding moving
AllStopped-cons id ids cnt w r q h k =
    let m : Moves (r.1.svc id).state (q.1.svc id).state = k.settles id h.is_off in
    record {
      serviced = Serviced-trans h.serviced k.serviced;
      are_off = λ j n. elim n [
        | inl e ↦
            subst (λ (i : ℕ). side_of (q.1.svc i).state ≡ off) (sym e)
              (side_of-Moves (r.1.svc id).state (q.1.svc id).state m ∙ h.is_off)
        | inr n' ↦ k.are_off j n'
      ];
      counted =
          omega
            (arith, k.counted, h.counted, moving_one-Moves (r.1.svc id).state (q.1.svc id).state m);
      settles = Settles-trans w r.1 q.1 h.settles k.settles;
    }

stop_loop-AllStopped :
    (env : Env) (ids : List ℕ) (cnt : ℕ) (w : World)
    → IsSound w
    → ((id : ℕ) → In id ids → In id w.repo)
    → Returns (AllStopped ids cnt w) (stop_loop env ids cnt w)
unfolding stop_loop moving
stop_loop-AllStopped env [] cnt w s mem = record {
  serviced = Serviced-refl w s;
  are_off = λ id m. elim m [ ];
  counted = omega arith;
  settles = λ j f. inl refl;
}
stop_loop-AllStopped env (id ∷ ids) cnt w s mem =
    Returns-bind (AllStopped (id ∷ ids) cnt w) (stop_one env (w.svc id).state id w) _
      (stop_one-OneStopped env id w s (mem id (inl refl)) (w.svc id).state refl)
      (λ r h.
        Returns-map {P = AllStopped ids (cnt + r.0) r.1} {Q = AllStopped (id ∷ ids) cnt w}
          (stop_loop env ids (cnt + r.0) r.1)
          (stop_loop-AllStopped env ids (cnt + r.0) r.1 h.serviced.sound
            (λ j m. subst (In j) (sym h.serviced.repo) (mem j (inr m))))
          (λ q k. AllStopped-cons id ids cnt w r q h k))

-- The daemon is winding down: every service of the repository is switched off, and at most `cnt`
-- of them have still to stop.
pub record IsWindingDown (cnt : ℕ) (w : World) : Type 0 where
  pub sound : IsSound w
  pub are_off : (id : ℕ) → In id w.repo → side_of (w.svc id).state ≡ off
  pub covered : moving w.svc w.repo ≤ cnt

-- `tinit_target_stop` in a sound world fails at no assertion and ends. After it every service of
-- the repository is STOPPING or STOPPED, and the count for the signal channel is no less than the
-- number of those that are STOPPING.
pub tinit_target_stop-IsWindingDown :
    (env : Env) (w : World)
    → IsSound w
    → Returns (λ r. Serviced w r.1 × IsWindingDown r.0 r.1) (tinit_target_stop env w)
unfolding tinit_target_stop
tinit_target_stop-IsWindingDown env w s =
    Returns-map {P = AllStopped w.repo 0 w} {Q = λ r. Serviced w r.1 × IsWindingDown r.0 r.1}
      (stop_loop env w.repo 0 w) (stop_loop-AllStopped env w.repo 0 w s (λ id m. m))
      (λ r h. (
        h.serviced,
        record {
          sound = h.serviced.sound;
          are_off = λ id m. h.are_off id (subst (In id) h.serviced.repo m);
          covered = rw h.serviced.repo (omega (arith, h.counted));
        },
      ))
