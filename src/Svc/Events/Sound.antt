-- ===== src/Svc/Events/Sound.antt =====
-- Every event of svc.c is handled in a sound world: no assertion fails, the cascade ends, and the
-- world is sound again.
use einit.Prelude.{
  ℕ, ◌≡◌, ◌≢◌, refl, sym, ap, ◌∙◌, inl, inr, some, In, Returns, arith, Bool-cases, negsuc, ℤ,
  is_neg, is_zero,
}
use einit.World.{
  SvcState, stopped, starting, ready, stopping, SvcEvt, start_evt, stop_evt, exit_evt, Side, on,
  off, Svc, Env, World, put, installed,
}
use einit.Svc.Spawn.{kill_run, svc_kill-ok}
use einit.Svc.Cascade.{svc_mark, svc_spawn_start_cmd, svc_spawn_stop_cmd}
use einit.Svc.Evolve.{side_of, IsSound, Evolves, Evolves-refl, put_self}
use einit.Svc.React.{Reacts, Reacts-bind, Reacts-of_Evolves, Reacts-put}
use einit.Svc.Events.Switch.{
  kill_run-Evolves, respawn-Evolves, stop_cmd-Evolves, kill_failed-Evolves, svc_start-Reacts,
  svc_stop-Reacts,
}
use einit.Svc.Events.{
  sigkill, inc32, expire_on_by, svc_expire_on, expire_off_by, svc_expire_off, exit_starting,
  exit_ready, on_evts_by, svc_handle_on_evts, off_evts_by, svc_handle_off_evts, handle_evts_by,
  svc_handle_evts, svc_expire,
}

-- A write that leaves the state, the handlers and the registrations alone.
module _ (id : ℕ) (w : World) (s : IsSound w) where
  write_child-Reacts :
      (c : ℤ)
      → (w.svc id).state ≢ stopped
      → Reacts id w (put w id (record (w.svc id) { child = c }))
  write_child-Reacts c n =
      Reacts-put w id (record (w.svc id) { child = c }) s (ground arith)
        (record { evts = (s.fit id).evts; notif = (s.fit id).notif; idle = λ k. absurd (n k) }) refl

  write_start_cmd-Reacts : (n : ℕ) → Reacts id w (put w id (record (w.svc id) { start_cmd = n }))
  write_start_cmd-Reacts n =
      Reacts-put w id (record (w.svc id) { start_cmd = n }) s (ground arith)
        (record { evts = (s.fit id).evts; notif = (s.fit id).notif; idle = (s.fit id).idle }) refl

  write_starting-Reacts :
      (w.svc id).state ≡ ready → Reacts id w (put w id (record (w.svc id) { state = starting }))
  write_starting-Reacts e =
      Reacts-put w id (record (w.svc id) { state = starting }) s (ground arith)
        (record {
          evts = rw e at (s.fit id).evts;
          notif = rw e at (s.fit id).notif;
          idle = λ k. cc;
        })
        (rw e)

module _ (env : Env) (id : ℕ) (w : World) (s : IsSound w) (mem : In id w.repo) where
  expire_on_by-Reacts :
      (a : SvcState)
      → (w.svc id).state ≡ a
      → on ≡ side_of a
      → Returns (Reacts id w) (expire_on_by env a id w)
  unfolding expire_on_by
  expire_on_by-Reacts stopped e o = cc
  expire_on_by-Reacts stopping e o = cc
  expire_on_by-Reacts ready e o = Reacts-of_Evolves id s (Evolves-refl w)
  expire_on_by-Reacts starting e o = elim (Bool-cases (is_neg (w.svc id).child)) [
    | inl gone ↦ rw gone (
        Reacts-bind (svc_spawn_start_cmd env (svc_mark env) id w)
          (Reacts-of_Evolves id s (Evolves-refl w)) (respawn-Evolves env id w s mem e))
    | inr runs ↦ rw runs (Reacts-of_Evolves id s (Evolves-refl w))
  ]

  expire_off_by-Reacts :
      (a : SvcState)
      → (w.svc id).state ≡ a
      → off ≡ side_of a
      → Returns (Reacts id w) (expire_off_by env a id w)
  unfolding expire_off_by
  expire_off_by-Reacts starting e o = cc
  expire_off_by-Reacts ready e o = cc
  expire_off_by-Reacts stopped e o = Reacts-of_Evolves id s (Evolves-refl w)
  expire_off_by-Reacts stopping e o =
      rw (svc_kill-ok env id sigkill w) (elim (Bool-cases (is_zero (kill_run env id sigkill w).0)) [
        | inl found ↦ rw found (Reacts-of_Evolves id s (kill_run-Evolves env id sigkill w))
        | inr gone ↦ rw gone (
            Reacts-bind (svc_spawn_stop_cmd env (svc_mark env) id (kill_run env id sigkill w).1)
              (Reacts-of_Evolves id s (Evolves-refl w))
              (kill_failed-Evolves env id sigkill w s mem e))
      ])

  exit_starting-Reacts :
      (status : ℤ)
      → (w.svc id).state ≡ starting
      → Returns (Reacts id w) (exit_starting env status id w)
  unfolding exit_starting
  exit_starting-Reacts status e =
      let t : Svc = record (w.svc id) { start_cmd = inc32 (w.svc id).start_cmd } in
      let h = write_start_cmd-Reacts id w s (inc32 (w.svc id).start_cmd) in
      elim (Bool-cases (is_zero status)) [
        | inl success ↦ rw success (
            Reacts-bind (svc_spawn_start_cmd env (svc_mark env) id (put w id t)) h (
              respawn-Evolves env id (put w id t) h.sound mem
                (ap (λ (x : Svc). x.state) (put_self w id t) ∙ e)))
        | inr failure ↦ rw failure (elim (Bool-cases (env.is_armed w.log id)) [
          | inl armed ↦ rw armed (write_child-Reacts id w s (negsuc 0) (λ k. cc))
          | inr late ↦ rw late (
              Reacts-bind (svc_spawn_start_cmd env (svc_mark env) id w)
                (Reacts-of_Evolves id s (Evolves-refl w)) (respawn-Evolves env id w s mem e))
        ])
      ]

  exit_ready-Reacts : (w.svc id).state ≡ ready → Returns (Reacts id w) (exit_ready env id w)
  unfolding exit_ready
  exit_ready-Reacts e =
      let t : Svc = record (w.svc id) { state = starting } in
      let h = write_starting-Reacts id w s e in
      elim (Bool-cases (env.is_armed w.log id)) [
        | inl armed ↦ rw armed (write_child-Reacts id w s (negsuc 0) (λ k. cc))
        | inr late ↦ rw late (
            Reacts-bind (svc_spawn_start_cmd env (svc_mark env) id (put w id t)) h (
              respawn-Evolves env id (put w id t) h.sound mem
                (ap (λ (x : Svc). x.state) (put_self w id t))))
      ]

  on_evts_by-Reacts :
      (a : SvcState) (evt : SvcEvt) (status : ℤ)
      → (w.svc id).state ≡ a
      → side_of a ≡ on
      → Returns (Reacts id w) (on_evts_by env a evt status id w)
  unfolding on_evts_by
  on_evts_by-Reacts starting start_evt status e o = Reacts-of_Evolves id s (Evolves-refl w)
  on_evts_by-Reacts starting stop_evt status e o = svc_stop-Reacts env id w s mem
  on_evts_by-Reacts starting exit_evt status e o = exit_starting-Reacts status e
  on_evts_by-Reacts ready start_evt status e o = Reacts-of_Evolves id s (Evolves-refl w)
  on_evts_by-Reacts ready stop_evt status e o = svc_stop-Reacts env id w s mem
  on_evts_by-Reacts ready exit_evt status e o = exit_ready-Reacts e
  on_evts_by-Reacts stopped _ status e o = cc
  on_evts_by-Reacts stopping _ status e o = cc

  off_evts_by-Reacts :
      (a : SvcState) (evt : SvcEvt)
      → (w.svc id).state ≡ a
      → side_of a ≡ off
      → (evt ≡ exit_evt → a ≢ stopped)
      → Returns (Reacts id w) (off_evts_by env a evt id w)
  unfolding off_evts_by
  off_evts_by-Reacts stopped start_evt e o live = svc_start-Reacts env id w s mem
  off_evts_by-Reacts stopped stop_evt e o live = Reacts-of_Evolves id s (Evolves-refl w)
  off_evts_by-Reacts stopped exit_evt e o live = absurd (live refl refl)
  off_evts_by-Reacts stopping start_evt e o live = svc_start-Reacts env id w s mem
  off_evts_by-Reacts stopping stop_evt e o live = Reacts-of_Evolves id s (Evolves-refl w)
  off_evts_by-Reacts stopping exit_evt e o live =
      Reacts-bind (svc_spawn_stop_cmd env (svc_mark env) id w)
        (Reacts-of_Evolves id s (Evolves-refl w)) (stop_cmd-Evolves env id w s mem e)
  off_evts_by-Reacts starting _ e o live = cc
  off_evts_by-Reacts ready _ e o live = cc

  expire_by-Reacts :
      (side : Side)
      → side ≡ side_of (w.svc id).state
      → Returns (Reacts id w) (svc_expire env side id w)
  unfolding svc_expire svc_expire_on svc_expire_off
  expire_by-Reacts on e = expire_on_by-Reacts (w.svc id).state refl e
  expire_by-Reacts off e = expire_off_by-Reacts (w.svc id).state refl e

  evts_by-Reacts :
      (side : Side) (evt : SvcEvt) (status : ℤ)
      → side_of (w.svc id).state ≡ side
      → (evt ≡ exit_evt → (w.svc id).state ≢ stopped)
      → Returns (Reacts id w) (handle_evts_by env side id evt status w)
  unfolding handle_evts_by svc_handle_on_evts svc_handle_off_evts
  evts_by-Reacts on evt status o live = on_evts_by-Reacts (w.svc id).state evt status refl o
  evts_by-Reacts off evt status o live = off_evts_by-Reacts (w.svc id).state evt refl o live

-- In a sound world an event of a service of the repository is handled with no failed assertion and
-- to its end, the world is sound afterwards, the repository and the registrations are as before,
-- and another service at most goes on from STARTING to READY or from STOPPING to STOPPED. An exit
-- event must not come to a stopped service.
pub svc_handle_evts-Reacts :
    (env : Env) (id : ℕ) (evt : SvcEvt) (status : ℤ) (w : World)
    → IsSound w
    → In id w.repo
    → (evt ≡ exit_evt → (w.svc id).state ≢ stopped)
    → Returns (Reacts id w) (svc_handle_evts env id evt status w)
unfolding svc_handle_evts
svc_handle_evts-Reacts env id evt status w s mem live =
    evts_by-Reacts env id w s mem (w.svc id).handle_evts evt status (sym (s.fit id).evts) live

-- In a sound world, the expiry of a timer of a service of the repository, whose installed handler is
-- that of the given side, fails at no assertion and ends; the world stays sound.
pub svc_expire-Reacts :
    (env : Env) (id : ℕ) (side : Side) (w : World)
    → IsSound w
    → In id w.repo
    → installed w.log id ≡ some side
    → Returns (Reacts id w) (svc_expire env side id w)
svc_expire-Reacts env id side w s mem e = expire_by-Reacts env id w s mem side (s.armed id side e)

-- The exit of a process while its service is stopping starts nothing but the rest of the sequence.
pub svc_handle_evts-Evolves :
    (env : Env) (id : ℕ) (status : ℤ) (w : World)
    → IsSound w
    → In id w.repo
    → (w.svc id).state ≡ stopping
    → Returns (Evolves w) (svc_handle_evts env id exit_evt status w)
unfolding svc_handle_evts handle_evts_by svc_handle_off_evts off_evts_by
svc_handle_evts-Evolves env id status w s mem e =
    rw ((s.fit id).evts ∙ ap side_of e) (rw e (stop_cmd-Evolves env id w s mem e))
