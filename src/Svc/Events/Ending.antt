-- ===== src/Svc/Events/Ending.antt =====
-- The whole stop sequence of a service whose process and stop commands exit one after the other.
use einit.Prelude.{
  onto, ℕ, suc, ◌≡◌, ◌≢◌, refl, ap, ◌∙◌, sym, subst, true, false, List, [], ◌∷◌, In, length, drop,
  drop-cons, drop-nil, ok, ◌>>=◌, Returns, Returns-bind, Returns-map, ◌==◌, ==_iff, ℤ, pos, negsuc,
  inc, arith,
}
use einit.Conf.{StrArr}
use einit.World.{
  SvcState, stopped, stopping, Svc, exit_evt, off, Env, World, Call, vfork, kill, utimer_arm_sec,
  put, call, forked,
}
use einit.Svc.Spawn.{kill_run, svc_may_stop, svc_kill-ok}
use einit.Svc.Runnable.{All-HasArgs}
use einit.Svc.Cascade.{mark_stopped, svc_mark, svc_spawn_stop_cmd}
use einit.Svc.Cascade.Marked.{marked-Evolves, svc_mark-marked}
use einit.Svc.Cascade.Writes.{put_stop_cmd-Evolves, state-put_stop_cmd}
use einit.Svc.Cascade.Steps.{with_stop_child, with_stop_child-Evolves, stop_next, stop_last}
use einit.Svc.Evolve.{
  IsSound, Moves, is_moving, Evolves, Evolves-trans, Evolves-IsSound, put_self, side_of,
}
use einit.Svc.Events.{
  svc_stop, enter_stopping, svc_handle_evts, svc_handle_off_evts, handle_evts_by, off_evts_by,
}
use einit.Svc.Events.Switch.{enter_stopping-Reacts, kill_run-Evolves, arm-Evolves}
use einit.Svc.Events.Sequence.{exits, IsForking}

-- A service in STOPPING that is about to run the commands `cmds`, the stop commands from number `k` on.
record IsEnding (id k : ℕ) (cmds : List StrArr) (w : World) : Type 0 where
  sound : IsSound w
  mem : In id w.repo
  state : (w.svc id).state ≡ stopping
  next : inc (w.svc id).stop_cmd ≡ pos k
  rest : drop k (w.svc id).conf.stop ≡ cmds

-- The service is STOPPED, after the given commands were forked for it in this order.
pub record IsDown (id : ℕ) (cmds : List StrArr) (v w : World) : Type 0 where
  pub sound : IsSound w
  pub state : (w.svc id).state ≡ stopped
  pub log : forked id w.log ≡ onto cmds (forked id v.log)

-- Every process is found.
abbrev pub IsKilling : Env → Type 0
IsKilling env = (log : List Call) → env.kill_result log ≡ 0

stopping_stopped : stopping ≢ stopped
stopping_stopped q = cc

module _ (env : Env) (id : ℕ) where
  -- The exit of a process of a stopping service leads to the next stop command.
  exit_stops :
      (w : World)
      → IsSound w
      → (w.svc id).state ≡ stopping
      → svc_handle_evts env id exit_evt (pos 0) w ≡ svc_spawn_stop_cmd env (svc_mark env) id w
  unfolding svc_handle_evts handle_evts_by svc_handle_off_evts off_evts_by
  exit_stops w s e =
      ap (λ h. handle_evts_by env h id exit_evt (pos 0) w) ((s.fit id).evts ∙ ap side_of e)
      ∙ ap (λ a. off_evts_by env a exit_evt id w) e

  -- Marking the service as STOPPED forks nothing for it, whatever its observers do.
  marked-IsDown :
      (u : World)
      → IsSound u
      → In id u.repo
      → (u.svc id).state ≡ stopping
      → Returns (IsDown id [] u) (svc_mark env mark_stopped id u)
  marked-IsDown u s mem e =
      let t : Svc = record (u.svc id) { child = negsuc 0; state = stopped } in
      let here : (put u id t).svc id ≡ t = put_self u id t in
      Returns-map (svc_mark env mark_stopped id u) (svc_mark-marked env id u s mem mark_stopped e)
        (λ v h. record {
          sound = Evolves-IsSound h (Evolves-IsSound (marked-Evolves mark_stopped id u e) s);
          state = still_stopped (v.svc id).state (
              subst (λ a. Moves a (v.svc id).state) (ap (λ (x : Svc). x.state) here)
                (h.each id).moves);
          log = h.quiet id (ap (λ (x : Svc). is_moving x.state) here);
        })
    where
      still_stopped : (a : SvcState) → Moves stopped a → a ≡ stopped
      still_stopped a h = ground arith

  module _ (forks : IsForking env) where
    forked-with_stop_child :
        (w : World) (k : ℕ) (args : StrArr) (pid : ℕ)
        → forked id (with_stop_child env (svc_mark env) id w k args pid).log
          ≡ args ∷ forked id w.log
    unfolding forked
    forked-with_stop_child w k args pid = rw ((==_iff id id).1 refl) refl

    with_stop_child-svc :
        (w : World) (k : ℕ) (args : StrArr) (pid : ℕ)
        → (with_stop_child env (svc_mark env) id w k args pid).svc id
          ≡ record (w.svc id) { stop_cmd = pos k; child = pos pid }
    with_stop_child-svc w k args pid =
        let u = put w id (record (w.svc id) { stop_cmd = pos k }) in
        put_self (call (call u (vfork id args)) (utimer_arm_sec id 5)) id
          (record (u.svc id) { child = pos pid })
        ∙ ap (λ (s : Svc). record s { child = pos pid })
            (put_self w id (record (w.svc id) { stop_cmd = pos k }))

    run_stops :
        (cmds : List StrArr) (k : ℕ) (w : World)
        → IsEnding id k cmds w
        → Returns
            (IsDown id cmds w)
            (svc_spawn_stop_cmd env (svc_mark env) id w >>= λ v. exits env (length cmds) id v)
    unfolding exits
    run_stops [] k w h =
        let over = drop-nil k (w.svc id).conf.stop h.rest in
        let u : World = put w id (record (w.svc id) { stop_cmd = pos k }) in
        let e = put_stop_cmd-Evolves w id (pos k) (λ q. stopping_stopped (sym h.state ∙ q)) in
        rw (stop_last env (svc_mark env) id w k h.next (ground arith)) (
          Returns-bind {P = IsDown id [] u} (IsDown id [] w) (svc_mark env mark_stopped id u) _
            (marked-IsDown u (Evolves-IsSound e h.sound) h.mem
              (state-put_stop_cmd w id (pos k) h.state))
            (λ v d. record { sound = d.sound; state = d.state; log = d.log }))
    run_stops (args ∷ cmds) k w h =
        let (found, rest, lt) = drop-cons k (w.svc id).conf.stop args cmds h.rest in
        let (pid, fork) = forks w.log in
        let v : World = with_stop_child env (svc_mark env) id w k args pid in
        let same = with_stop_child-svc w k args pid in
        let sound =
          Evolves-IsSound (with_stop_child-Evolves env (svc_mark env) id w k args pid fork h.state)
            h.sound in
        let state : (v.svc id).state ≡ stopping = ap (λ (x : Svc). x.state) same ∙ h.state in
        let later = run_stops cmds (suc k) v (record {
          sound = sound;
          mem = h.mem;
          state = state;
          next = ap (λ (x : Svc). inc x.stop_cmd) same;
          rest = ap (λ (x : Svc). drop (suc k) x.conf.stop) same ∙ rest;
        }) in
        rw
          (
            stop_next env (svc_mark env) id w k args pid
                (All-HasArgs (w.svc id).conf.stop k args (h.sound.runnable id h.mem).stop found)
                h.next found (ground arith) fork,
            exit_stops v sound state,
          )
          (Returns-map {P = IsDown id cmds v} _ later (λ u d. record {
            sound = d.sound;
            state = d.state;
            log = d.log ∙ ap (onto cmds) (forked-with_stop_child w k args pid);
          }))

    module _ (kills : IsKilling env) where
      kill_found :
          (signo n : ℕ) (u : World)
          → (u.svc id).child ≡ pos (suc n)
          → kill_run env id signo u ≡ (pos 0, call u (kill (pos (suc n)) signo))
      unfolding kill_run
      kill_found signo n u child = rw (child, suc_zero n, kills u.log) refl
        where
          suc_zero : (m : ℕ) → (suc m == 0) ≡ false
          suc_zero m = ground arith

      -- the world in which the process has got its signal
      signalled : World → ℕ → World
      signalled w n =
          let v = enter_stopping env id w in
          call (call v (kill (pos (suc n)) (v.svc id).conf.stop_sig)) (utimer_arm_sec id 5)

      svc_stop-signalled :
          (w : World) (n : ℕ)
          → svc_may_stop (enter_stopping env id w) id ≡ ok true
          → ((enter_stopping env id w).svc id).child ≡ pos (suc n)
          → svc_stop env id w ≡ ok (signalled w n)
      unfolding svc_stop signalled
      svc_stop-signalled w n may child =
          let v = enter_stopping env id w in
          rw
            (
              may,
              svc_kill-ok env id (v.svc id).conf.stop_sig v,
              kill_found (v.svc id).conf.stop_sig n v child,
            )
            refl

      signalled-Evolves :
          (w : World) (n : ℕ)
          → ((enter_stopping env id w).svc id).child ≡ pos (suc n)
          → Evolves (enter_stopping env id w) (signalled w n)
      unfolding signalled
      signalled-Evolves w n child =
          let v : World = enter_stopping env id w in
          let signo = (v.svc id).conf.stop_sig in
          Evolves-trans
            (subst (λ (r : ℤ × World). Evolves v r.1) (kill_found signo n v child)
              (kill_run-Evolves env id signo v))
            (arm-Evolves env id (call v (kill (pos (suc n)) signo)) 5)

      -- Where every fork works and every process is found, svc_stop on a service of a sound world whose
      -- sources let it stop and that has a process, followed by as many exits of its processes as it has
      -- stop commands, and one more, fails at no assertion and leaves the service STOPPED in a sound
      -- world: exactly its stop commands were forked for it, in their order.
      pub svc_stop-IsDown :
          (w : World) (n : ℕ)
          → IsSound w
          → In id w.repo
          → svc_may_stop (enter_stopping env id w) id ≡ ok true
          → (w.svc id).child ≡ pos (suc n)
          → Returns
              (IsDown id (w.svc id).conf.stop w)
              (svc_stop env id w >>= λ v. exits env (suc (length (w.svc id).conf.stop)) id v)
      unfolding enter_stopping signalled exits forked
      svc_stop-IsDown w n s mem may child =
          let entered : Svc = record (w.svc id) {
            handle_evts = off;
            handle_notif = off;
            state = stopping;
            stop_cmd = negsuc 0;
          } in
          let self : (enter_stopping env id w).svc id ≡ entered = put_self w id entered in
          let alive = ap (λ (x : Svc). x.child) self ∙ child in
          let v : World = signalled w n in
          let sound =
            Evolves-IsSound (signalled-Evolves w n alive)
              (enter_stopping-Reacts env id w s mem).sound in
          let state : (v.svc id).state ≡ stopping = ap (λ (x : Svc). x.state) self in
          let later = run_stops (w.svc id).conf.stop 0 v (record {
            sound = sound;
            mem = mem;
            state = state;
            next = ap (λ (x : Svc). inc x.stop_cmd) self;
            rest = ap (λ (x : Svc). x.conf.stop) self;
          }) in
          rw (svc_stop-signalled w n may alive, exit_stops v sound state)
            (Returns-map {P = IsDown id (w.svc id).conf.stop v} _ later
              (λ u d. record { sound = d.sound; state = d.state; log = d.log }))
