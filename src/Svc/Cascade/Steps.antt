-- ===== src/Svc/Cascade/Steps.antt =====
-- One step of the start sequence, by what there is to run.
use einit.Prelude.{
  ℕ, ◌≡◌, ◌≢◌, refl, sym, ap, ◌∙◌, Bool, Option, true, false, none, some, length, get_elem?, ok,
  ltb, leb, if◌then◌else◌, inc, pos, negsuc,
}
use einit.Conf.{StrArr, conf_get_stop_cmd_nr, conf_get_stop_cmd}
use einit.World.{stopped, stopping, Env, World, vfork, utimer_arm_sec, spawned, put, call}
use einit.Svc.Spawn.{spawn_run, svc_spawn-ok}
use einit.Svc.Runnable.{HasArgs}
use einit.Svc.Evolve.{is_moving, Evolves, Evolves-trans}
use einit.Svc.Cascade.Writes.{
  spawn_child-Evolves, put_stop_cmd, put_stop_cmd-Evolves, state-put_stop_cmd,
}
use einit.Svc.Cascade.{
  Marker, mark_ready, mark_stopped, to_unsigned, svc_spawn_stop_cmd, spawn_stop,
  svc_spawn_start_cmd, spawn_picked, finish_start_cmd, pick_start_cmd,
}

module _ (env : Env) (rec : Marker) (id : ℕ) (w : World) where
  -- the world with a command of the service forked
  abbrev pub with_child : StrArr → ℕ → World
  with_child args pid =
      let v = call (call w (vfork id args)) (utimer_arm_sec id 1) in
      put v id (record (v.svc id) { child = pos pid })

  by_pick :
      {p : Option StrArr × Bool}
      → pick_start_cmd (w.svc id).conf (w.svc id).start_cmd ≡ p
      → svc_spawn_start_cmd env rec id w ≡ spawn_picked env rec p id w
  unfolding svc_spawn_start_cmd
  by_pick e = ap (λ q. spawn_picked env rec q id w) e

  picked_next :
      (args : StrArr) (pid : ℕ)
      → HasArgs args
      → env.vfork_result w.log ≡ spawned pid
      → spawn_picked env rec (some args, false) id w ≡ ok (with_child args pid)
  unfolding spawn_picked finish_start_cmd spawn_run
  picked_next args pid full fork = rw (svc_spawn-ok env id args 1 w full, fork) refl

  picked_daemon :
      (args : StrArr) (pid : ℕ)
      → HasArgs args
      → env.vfork_result w.log ≡ spawned pid
      → spawn_picked env rec (some args, true) id w ≡ rec mark_ready id (with_child args pid)
  unfolding spawn_picked finish_start_cmd spawn_run
  picked_daemon args pid full fork = rw (svc_spawn-ok env id args 1 w full, fork) refl

  pub spawn_next :
      (args : StrArr) (pid : ℕ)
      → HasArgs args
      → get_elem? (w.svc id).conf.start (w.svc id).start_cmd ≡ some args
      → ltb (w.svc id).start_cmd (length (w.svc id).conf.start) ≡ true
      → env.vfork_result w.log ≡ spawned pid
      → svc_spawn_start_cmd env rec id w ≡ ok (with_child args pid)
  unfolding pick_start_cmd
  spawn_next args pid full found more fork =
      by_pick (rw (more, found) refl) ∙ picked_next args pid full fork

  pub spawn_daemon :
      (args : StrArr) (pid : ℕ)
      → HasArgs args
      → (w.svc id).conf.daemon ≡ some args
      → ltb (w.svc id).start_cmd (length (w.svc id).conf.start) ≡ false
      → env.vfork_result w.log ≡ spawned pid
      → svc_spawn_start_cmd env rec id w ≡ rec mark_ready id (with_child args pid)
  unfolding pick_start_cmd
  spawn_daemon args pid full found over fork =
      by_pick (rw (over, found) refl) ∙ picked_daemon args pid full fork

  pub spawn_none :
      (w.svc id).conf.daemon ≡ none
      → ltb (w.svc id).start_cmd (length (w.svc id).conf.start) ≡ false
      → svc_spawn_start_cmd env rec id w
        ≡ rec mark_ready id (put w id (record (w.svc id) { child = negsuc 0 }))
  unfolding pick_start_cmd spawn_picked finish_start_cmd
  spawn_none found over = by_pick {p = (none, true)} (rw (over, found) refl)

  pub with_child-Evolves :
      (args : StrArr) (pid : ℕ)
      → env.vfork_result w.log ≡ spawned pid
      → is_moving (w.svc id).state ≡ true
      → Evolves w (with_child args pid)
  unfolding spawn_run
  with_child-Evolves args pid fork moves = rw fork at (spawn_child-Evolves env id args 1 w moves)

  -- the world with the stop command number `k` of the service forked
  abbrev pub with_stop_child : ℕ → StrArr → ℕ → World
  with_stop_child k args pid =
      let u = put w id (record (w.svc id) { stop_cmd = pos k }) in
      let v = call (call u (vfork id args)) (utimer_arm_sec id 5) in
      put v id (record (v.svc id) { child = pos pid })

  stop_by :
      (k : ℕ)
      → inc (w.svc id).stop_cmd ≡ pos k
      → svc_spawn_stop_cmd env rec id w ≡ (
          let w' = put w id (record (w.svc id) { stop_cmd = pos k }) in
          if leb (conf_get_stop_cmd_nr (w.svc id).conf) k
          then rec mark_stopped id w'
          else spawn_stop env rec (conf_get_stop_cmd (w.svc id).conf k) id w')
  unfolding svc_spawn_stop_cmd
  stop_by k e =
      ap
        (λ n.
          let w' = put w id (record (w.svc id) { stop_cmd = n }) in
          if leb (conf_get_stop_cmd_nr (w.svc id).conf) (to_unsigned n)
          then rec mark_stopped id w'
          else spawn_stop env rec (conf_get_stop_cmd (w.svc id).conf (to_unsigned n)) id w')
        e

  pub stop_next :
      (k : ℕ) (args : StrArr) (pid : ℕ)
      → HasArgs args
      → inc (w.svc id).stop_cmd ≡ pos k
      → get_elem? (w.svc id).conf.stop k ≡ some args
      → leb (length (w.svc id).conf.stop) k ≡ false
      → env.vfork_result w.log ≡ spawned pid
      → svc_spawn_stop_cmd env rec id w ≡ ok (with_stop_child k args pid)
  unfolding spawn_stop spawn_run
  stop_next k args pid full e found more fork =
      stop_by k e
      ∙ (rw
          (
            more,
            found,
            svc_spawn-ok env id args 5 (put w id (record (w.svc id) { stop_cmd = pos k })) full,
            fork,
          )
          refl)

  pub stop_last :
      (k : ℕ)
      → inc (w.svc id).stop_cmd ≡ pos k
      → leb (length (w.svc id).conf.stop) k ≡ true
      → svc_spawn_stop_cmd env rec id w
        ≡ rec mark_stopped id (put w id (record (w.svc id) { stop_cmd = pos k }))
  stop_last k e over = stop_by k e ∙ (rw over refl)

  pub with_stop_child-Evolves :
      (k : ℕ) (args : StrArr) (pid : ℕ)
      → env.vfork_result w.log ≡ spawned pid
      → (w.svc id).state ≡ stopping
      → Evolves w (with_stop_child k args pid)
  unfolding spawn_run
  with_stop_child-Evolves k args pid fork e =
      let u = put_stop_cmd w id (pos k) in
      Evolves-trans (put_stop_cmd-Evolves w id (pos k) (λ q. stopping_stopped (sym e ∙ q))) (
        rw fork at
          (spawn_child-Evolves env id args 5 u (ap is_moving (state-put_stop_cmd w id (pos k) e))))
    where
      stopping_stopped : stopping ≢ stopped
      stopping_stopped q = cc
