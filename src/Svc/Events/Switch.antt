-- ===== src/Svc/Events/Switch.antt =====
-- `svc_start` and `svc_stop` in a sound world: no assertion fails, and the cascade ends.
use einit.Prelude.{
  ℕ, ◌≡◌, refl, sym, ap, ◌∙◌, subst, inl, inr, In, Returns, arith, Bool-cases, negsuc, is_zero,
}
use native.Mathlib.Nat.{le_refl}
use einit.World.{
  starting, stopping, on, off, Svc, utimer_arm_sec, Env, World, call, installed, forked,
}
use einit.Svc.Spawn.{start_allowed, stop_allowed, kill_run, svc_kill-ok}
use einit.Svc.Cascade.{svc_mark, svc_spawn_start_cmd, svc_spawn_stop_cmd}
use einit.Svc.Cascade.Total.{
  svc_spawn_start_cmd-Evolves, svc_spawn_stop_cmd-Evolves, svc_mark-Serves, svc_may_start_sound,
  svc_may_stop_sound,
}
use einit.Svc.Evolve.{
  IsSound, Evolves, Evolves-refl, Evolves-trans, Evolves-log, Evolves-IsSound, after, moving,
  put_self,
}
use einit.Svc.React.{Reacts, Reacts-bind, Reacts-enter}
use einit.Svc.Events.{enter_starting, svc_start, enter_stopping, svc_stop}

module _ (env : Env) (id : ℕ) where
  pub kill_run-Evolves : (signo : ℕ) (w : World) → Evolves w (kill_run env id signo w).1
  unfolding kill_run installed forked
  kill_run-Evolves signo w =
      Evolves-log w (kill_run env id signo w).1 (ground arith) (ground arith) (λ j. ground arith)
        (λ j e. ground arith)

  svc-kill_run : (signo : ℕ) (w : World) → (kill_run env id signo w).1.svc ≡ w.svc
  unfolding kill_run
  svc-kill_run signo w = ground arith

  pub arm-Evolves : (w : World) (seconds : ℕ) → Evolves w (call w (utimer_arm_sec id seconds))
  unfolding installed forked
  arm-Evolves w seconds =
      Evolves-log w (call w (utimer_arm_sec id seconds)) refl refl (λ j. refl) (λ j e. refl)

  module _ (w : World) (s : IsSound w) (mem : In id w.repo) where
    pub respawn-Evolves :
        (w.svc id).state ≡ starting
        → Returns (Evolves w) (svc_spawn_start_cmd env (svc_mark env) id w)
    respawn-Evolves e =
        svc_spawn_start_cmd-Evolves env (svc_mark env) (svc_mark-Serves env (moving w.svc w.repo))
          id w s mem e (le_refl _)

    pub stop_cmd-Evolves :
        (w.svc id).state ≡ stopping
        → Returns (Evolves w) (svc_spawn_stop_cmd env (svc_mark env) id w)
    stop_cmd-Evolves e =
        svc_spawn_stop_cmd-Evolves env (svc_mark env) (svc_mark-Serves env (moving w.svc w.repo)) id
          w s mem e (le_refl _)

    pub enter_starting-Reacts : Reacts id w (enter_starting env id w)
    unfolding enter_starting
    enter_starting-Reacts =
        Reacts-enter w id
          (record (w.svc id) {
            handle_evts = on;
            handle_notif = on;
            state = starting;
            start_cmd = 0;
          })
          s (ground arith) (record { evts = refl; notif = refl; idle = λ k. cc }) on refl

    pub enter_stopping-Reacts : Reacts id w (enter_stopping env id w)
    unfolding enter_stopping
    enter_stopping-Reacts =
        Reacts-enter w id
          (record (w.svc id) {
            handle_evts = off;
            handle_notif = off;
            state = stopping;
            stop_cmd = negsuc 0;
          })
          s (ground arith) (record { evts = refl; notif = refl; idle = λ k. cc }) off refl

-- The process is not there any more, so the stop sequence goes on.
pub kill_failed-Evolves :
    (env : Env) (id signo : ℕ) (w : World)
    → IsSound w
    → In id w.repo
    → (w.svc id).state ≡ stopping
    → Returns (Evolves w) (svc_spawn_stop_cmd env (svc_mark env) id (kill_run env id signo w).1)
kill_failed-Evolves env id signo w s mem e =
    let h = kill_run-Evolves env id signo w in
    let v : World = (kill_run env id signo w).1 in
    after (svc_spawn_stop_cmd env (svc_mark env) id v) h (
      stop_cmd-Evolves env id v (Evolves-IsSound h s) (subst (In id) (sym h.repo) mem)
        (ap (λ (f : ℕ → Svc). (f id).state) (svc-kill_run env id signo w) ∙ e))

pub state-enter_starting :
    (env : Env) (id : ℕ) (w : World) → ((enter_starting env id w).svc id).state ≡ starting
unfolding enter_starting
state-enter_starting env id w = ap (λ (s : Svc). s.state) (put_self w id _)

pub state-enter_stopping :
    (env : Env) (id : ℕ) (w : World) → ((enter_stopping env id w).svc id).state ≡ stopping
unfolding enter_stopping
state-enter_stopping env id w = ap (λ (s : Svc). s.state) (put_self w id _)

repo-enter_starting : (env : Env) (id : ℕ) (w : World) → (enter_starting env id w).repo ≡ w.repo
unfolding enter_starting
repo-enter_starting env id w = refl

-- `svc_start` on any service of the repository, in any state: what follows the first writes is a
-- cascade.
pub svc_start-Evolves :
    (env : Env) (id : ℕ) (w : World)
    → IsSound w
    → In id w.repo
    → Returns (Evolves (enter_starting env id w)) (svc_start env id w)
unfolding svc_start
svc_start-Evolves env id w s mem =
    let h = enter_starting-Reacts env id w s mem in
    let v : World = enter_starting env id w in
    rw (svc_may_start_sound v id h.sound mem (state-enter_starting env id w))
      (elim (Bool-cases (start_allowed v id)) [
        | inl may ↦ rw may (respawn-Evolves env id v h.sound mem (state-enter_starting env id w))
        | inr wait ↦ rw wait (Evolves-refl v)
      ])

pub svc_start-Reacts :
    (env : Env) (id : ℕ) (w : World)
    → IsSound w
    → In id w.repo
    → Returns (Reacts id w) (svc_start env id w)
svc_start-Reacts env id w s mem =
    Reacts-bind (svc_start env id w) (enter_starting-Reacts env id w s mem)
      (svc_start-Evolves env id w s mem)

-- `svc_stop` likewise.
pub svc_stop-Evolves :
    (env : Env) (id : ℕ) (w : World)
    → IsSound w
    → In id w.repo
    → Returns (Evolves (enter_stopping env id w)) (svc_stop env id w)
unfolding svc_stop
svc_stop-Evolves env id w s mem =
    let h = enter_stopping-Reacts env id w s mem in
    let v : World = enter_stopping env id w in
    let signo : ℕ = (v.svc id).conf.stop_sig in
    rw
      (
        svc_may_stop_sound v id h.sound mem (state-enter_stopping env id w),
        svc_kill-ok env id signo v,
      )
      (elim (Bool-cases (stop_allowed v id)) [
        | inr wait ↦ rw wait (Evolves-refl v)
        | inl may ↦ rw may (elim (Bool-cases (is_zero (kill_run env id signo v).0)) [
          | inl found ↦ rw found (
              Evolves-trans (kill_run-Evolves env id signo v)
                (arm-Evolves env id (kill_run env id signo v).1 5))
          | inr gone ↦
              rw gone
                (kill_failed-Evolves env id signo v h.sound mem (state-enter_stopping env id w))
        ])
      ])

pub svc_stop-Reacts :
    (env : Env) (id : ℕ) (w : World)
    → IsSound w
    → In id w.repo
    → Returns (Reacts id w) (svc_stop env id w)
svc_stop-Reacts env id w s mem =
    Reacts-bind (svc_stop env id w) (enter_stopping-Reacts env id w s mem)
      (svc_stop-Evolves env id w s mem)
