-- ===== src/Svc/Events/Sequence/Run.antt =====
-- The start commands one after the other, and svc_start() with all of them.
use einit.Prelude.{
  onto, drop-cons, ℕ, suc, ◌^◌, ◌<◌, ◌≡◌, ap, ◌∙◌, sym, subst, true, List, [], ◌∷◌, ◌++◌, In,
  length, drop, ok, ◌>>=◌, Returns, Returns-bind, Returns-map, pos, arith,
}
use einit.Conf.{StrArr}
use einit.World.{starting, Svc, on, Env, World, vfork, utimer_arm_sec, spawned, put, call, forked}
use einit.Svc.Spawn.{svc_may_start}
use einit.Svc.Runnable.{All-HasArgs}
use einit.Svc.Cascade.{svc_mark, svc_spawn_start_cmd}
use einit.Svc.Cascade.Steps.{with_child-Evolves, with_child, spawn_next}
use einit.Svc.Evolve.{IsSound, is_moving, Evolves-IsSound, put_self, side_of}
use einit.Svc.Events.Switch.{enter_starting-Reacts}
use einit.Svc.Events.{inc32, svc_start, enter_starting}
use einit.Svc.Events.Sequence.{
  exits, IsForking, IsAbout, IsUp, daemon_cmds, forked-with_child, exit_respawns,
  put_start_cmd-Evolves, run_daemon,
}

module _ (env : Env) (id : ℕ) where
  module _ (forks : IsForking env) where
    -- the service when the command that was forked has exited
    next_step : World → StrArr → ℕ → World
    next_step w args pid =
        let v = with_child env (svc_mark env) id w args pid in
        put v id (record (v.svc id) { start_cmd = inc32 (v.svc id).start_cmd })

    next_step_svc :
        (w : World) (args : StrArr) (pid : ℕ)
        → (next_step w args pid).svc id
          ≡ record (w.svc id) { child = pos pid; start_cmd = inc32 (w.svc id).start_cmd }
    unfolding next_step
    next_step_svc w args pid =
        let v = with_child env (svc_mark env) id w args pid in
        put_self v id (record (v.svc id) { start_cmd = inc32 (v.svc id).start_cmd })
        ∙ ap (λ (s : Svc). record s { start_cmd = inc32 s.start_cmd })
            (put_self (call (call w (vfork id args)) (utimer_arm_sec id 1)) id
              (record (w.svc id) { child = pos pid }))

    next_step-IsAbout :
        (w : World) (args : StrArr) (cmds : List StrArr) (pid : ℕ)
        → env.vfork_result w.log ≡ spawned pid
        → IsAbout id (args ∷ cmds) w
        → IsAbout id cmds (next_step w args pid)
    unfolding next_step
    next_step-IsAbout w args cmds pid fork h =
        let (found, rest, lt) =
          drop-cons (w.svc id).start_cmd (w.svc id).conf.start args cmds h.rest in
        let v : World = with_child env (svc_mark env) id w args pid in
        let same = next_step_svc w args pid in
        let k = with_child-Evolves env (svc_mark env) id w args pid fork (ap is_moving h.state) in
        let moved : (v.svc id).state ≡ starting =
          ap (λ (x : Svc). x.state)
            (put_self (call (call w (vfork id args)) (utimer_arm_sec id 1)) id _)
          ∙ h.state in
        record {
          sound =
              Evolves-IsSound (put_start_cmd-Evolves env id v (inc32 (v.svc id).start_cmd) moved)
                (Evolves-IsSound k h.sound);
          mem = h.mem;
          state = ap (λ (x : Svc). x.state) same ∙ h.state;
          rest =
              ap (λ (x : Svc). drop x.start_cmd x.conf.start) same
              ∙ ap (λ n. drop n (w.svc id).conf.start)
                  (no_wrap (w.svc id).start_cmd (length (w.svc id).conf.start) lt h.small)
              ∙ rest;
          small = subst (λ (x : Svc). length x.conf.start < 2 ^ 32) (sym same) h.small;
        }
      where
        no_wrap : (n m : ℕ) → n < m → m < 2 ^ 32 → inc32 n ≡ suc n
        no_wrap n m h k = omega arith

    run_rest :
        (cmds : List StrArr) (w : World)
        → IsAbout id cmds w
        → Returns
            (IsUp id cmds w)
            (svc_spawn_start_cmd env (svc_mark env) id w >>= λ v. exits env (length cmds) id v)
    unfolding exits next_step
    run_rest [] w h =
        Returns-bind {P = IsUp id [] w} (IsUp id [] w) (svc_spawn_start_cmd env (svc_mark env) id w)
          _ (run_daemon env id forks w h) (λ v k. k)
    run_rest (args ∷ cmds) w h =
        let (found, rest, lt) =
          drop-cons (w.svc id).start_cmd (w.svc id).conf.start args cmds h.rest in
        let (pid, fork) = forks w.log in
        let v : World = with_child env (svc_mark env) id w args pid in
        let self =
          put_self (call (call w (vfork id args)) (utimer_arm_sec id 1)) id
            (record (w.svc id) { child = pos pid }) in
        let later =
          run_rest cmds (next_step w args pid) (next_step-IsAbout w args cmds pid fork h) in
        rw
          (
            spawn_next env (svc_mark env) id w args pid
                (All-HasArgs (w.svc id).conf.start (w.svc id).start_cmd args
                  (h.sound.runnable id h.mem).start found)
                found (ground arith) fork,
            exit_respawns env id v
                (ap (λ (x : Svc). x.handle_evts) self ∙ (h.sound.fit id).evts ∙ ap side_of h.state)
                (ap (λ (x : Svc). x.state) self ∙ h.state),
          )
          (Returns-map {P = IsUp id cmds (next_step w args pid)} _ later (λ u k. record {
            sound = k.sound;
            state = k.state;
            log =
                k.log
                ∙ ap (λ (x : Svc). onto (cmds ++ daemon_cmds x.conf.daemon) (forked id v.log))
                    (next_step_svc w args pid)
                ∙ ap (onto (cmds ++ daemon_cmds (w.svc id).conf.daemon))
                    (forked-with_child env (svc_mark env) id w args pid);
          }))

    -- Where every fork works, svc_start on a service of a sound world whose sources let it start,
    -- followed by as many successful exits of its processes as it has start commands (fewer than 2^32),
    -- fails at no assertion and leaves the service READY in a sound world: exactly its start commands
    -- and then its daemon, if it has one, were forked for it, in this order.
    pub svc_start-IsUp :
        (w : World)
        → IsSound w
        → In id w.repo
        → svc_may_start (enter_starting env id w) id ≡ ok true
        → length (w.svc id).conf.start < 2 ^ 32
        → Returns
            (IsUp id (w.svc id).conf.start w)
            (svc_start env id w >>= λ v. exits env (length (w.svc id).conf.start) id v)
    unfolding svc_start forked enter_starting
    svc_start-IsUp w s mem may small =
        let started : Svc = record (w.svc id) {
          handle_evts = on;
          handle_notif = on;
          state = starting;
          start_cmd = 0;
        } in
        let v : World = enter_starting env id w in
        let self : v.svc id ≡ started = put_self w id started in
        let about : IsAbout id (w.svc id).conf.start v = record {
          sound = (enter_starting-Reacts env id w s mem).sound;
          mem = mem;
          state = ap (λ (x : Svc). x.state) self;
          rest = ap (λ (x : Svc). drop x.start_cmd x.conf.start) self;
          small = subst (λ (x : Svc). length x.conf.start < 2 ^ 32) (sym self) small;
        } in
        rw may (
          Returns-map {P = IsUp id (w.svc id).conf.start v} _
            (run_rest (w.svc id).conf.start v about)
            (λ u k. record {
              sound = k.sound;
              state = k.state;
              log =
                  k.log
                  ∙ ap
                      (λ (x : Svc).
                        onto ((w.svc id).conf.start ++ daemon_cmds x.conf.daemon) (forked id w.log))
                      self;
            }))
