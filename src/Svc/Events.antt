-- ===== src/Svc/Events.antt =====
-- svc.c: what the rest of the daemon asks of a service, and the events that reach it.
pub mod Switch
pub mod Sound
pub mod Expire
pub mod Waits
pub mod Sequence
pub mod Ending
use einit.Prelude.{
  ℕ, ◌+◌, ◌%◌, ◌^◌, Bool, true, false, Result, ok, err, assertion, ◌>>=◌, if◌then◌else◌, ◌||◌, ℤ,
  negsuc, is_neg, is_zero,
}
use einit.World.{
  SvcState, stopped, starting, ready, stopping, SvcEvt, start_evt, stop_evt, exit_evt, Side, on,
  off, utimer_setup, utimer_arm_sec, Env, World, put, call,
}
use einit.Svc.Spawn.{svc_may_start, svc_may_stop, svc_kill}
use einit.Svc.Cascade.{svc_mark, svc_spawn_start_cmd, svc_spawn_stop_cmd}

-- SIGKILL of signal.h
abbrev pub sigkill : ℕ
sigkill = 9

-- `unsigned int` increment
abbrev pub inc32 : ℕ → ℕ
inc32 n = (n + 1) % 2 ^ 32

module _ (env : Env) where
  -- the fields that `svc_start` writes before it looks at the sources
  unfoldable pub enter_starting : ℕ → World → World
  enter_starting id w =
      call
        (put w id (record (w.svc id) {
          handle_evts = on;
          handle_notif = on;
          state = starting;
          start_cmd = 0;
        }))
        (utimer_setup id on)

  unfoldable pub svc_start : ℕ → World → Result World
  unfolding enter_starting
  svc_start id w =
      let w' = enter_starting id w in
      svc_may_start w' id >>= λ may.
      if may then svc_spawn_start_cmd env (svc_mark env) id w' else ok w'

  -- the fields that `svc_stop` writes before it looks at the sources
  unfoldable pub enter_stopping : ℕ → World → World
  enter_stopping id w =
      call
        (put w id (record (w.svc id) {
          handle_evts = off;
          handle_notif = off;
          state = stopping;
          stop_cmd = negsuc 0;
        }))
        (utimer_setup id off)

  unfoldable pub svc_stop : ℕ → World → Result World
  unfolding enter_stopping
  svc_stop id w =
      let w1 = enter_stopping id w in
      let stop = svc_kill env id (w1.svc id).conf.stop_sig w1 >>= λ r.
      if is_zero r.0
      then ok (call r.1 (utimer_arm_sec id 5))
      else svc_spawn_stop_cmd env (svc_mark env) id r.1 in
      svc_may_stop w1 id >>= λ may. if may then stop else ok w1

  reload_by : SvcState → ℕ → World → Result World
  reload_by ready id w =
      let child = (w.svc id).child in
      if is_neg child || is_zero child
      then err assertion
      else svc_kill env id (w.svc id).conf.reload_sig w >>= λ r. ok r.1
  reload_by _ id w = err assertion

  unfoldable pub svc_reload : ℕ → World → Result World
  unfolding reload_by
  svc_reload id w = reload_by (w.svc id).state id w

  abbrev svc_respawn : ℕ → World → Result World
  svc_respawn id w = svc_spawn_start_cmd env (svc_mark env) id w

  -- utimer expiry while the on side is installed
  expire_on_by : SvcState → ℕ → World → Result World
  expire_on_by ready id w = ok w
  expire_on_by starting id w = if is_neg (w.svc id).child then svc_respawn id w else ok w
  expire_on_by _ id w = err assertion

  unfoldable pub svc_expire_on : ℕ → World → Result World
  unfolding expire_on_by
  svc_expire_on id w = expire_on_by (w.svc id).state id w

  expire_off_by : SvcState → ℕ → World → Result World
  expire_off_by stopped id w = ok w
  expire_off_by stopping id w = svc_kill env id sigkill w >>= λ r.
      if is_zero r.0 then ok r.1 else svc_spawn_stop_cmd env (svc_mark env) id r.1
  expire_off_by _ id w = err assertion

  unfoldable pub svc_expire_off : ℕ → World → Result World
  unfolding expire_off_by
  svc_expire_off id w = expire_off_by (w.svc id).state id w

  exit_starting : ℤ → ℕ → World → Result World
  exit_starting status id w =
      let s = w.svc id in
      if is_zero status
      then svc_respawn id (put w id (record s { start_cmd = inc32 s.start_cmd }))
      else if env.is_armed w.log id
      then ok (put w id (record s { child = negsuc 0 }))
      else svc_respawn id w

  exit_ready : ℕ → World → Result World
  exit_ready id w =
      let s = w.svc id in
      if env.is_armed w.log id
      then ok (put w id (record s { child = negsuc 0 }))
      else svc_respawn id (put w id (record s { state = starting }))

  on_evts_by : SvcState → SvcEvt → ℤ → ℕ → World → Result World
  unfolding exit_starting exit_ready
  on_evts_by starting start_evt status id w = ok w
  on_evts_by starting stop_evt status id w = svc_stop id w
  on_evts_by starting exit_evt status id w = exit_starting status id w
  on_evts_by ready start_evt status id w = ok w
  on_evts_by ready stop_evt status id w = svc_stop id w
  on_evts_by ready exit_evt status id w = exit_ready id w
  on_evts_by _ evt status id w = err assertion

  unfoldable pub svc_handle_on_evts : ℕ → SvcEvt → ℤ → World → Result World
  unfolding on_evts_by
  svc_handle_on_evts id evt status w = on_evts_by (w.svc id).state evt status id w

  off_evts_by : SvcState → SvcEvt → ℕ → World → Result World
  off_evts_by stopped start_evt id w = svc_start id w
  off_evts_by stopped stop_evt id w = ok w
  off_evts_by stopping start_evt id w = svc_start id w
  off_evts_by stopping stop_evt id w = ok w
  off_evts_by stopping exit_evt id w = svc_spawn_stop_cmd env (svc_mark env) id w
  off_evts_by _ evt id w = err assertion

  unfoldable pub svc_handle_off_evts : ℕ → SvcEvt → ℤ → World → Result World
  unfolding off_evts_by
  svc_handle_off_evts id evt status w = off_evts_by (w.svc id).state evt id w

  handle_evts_by : Side → ℕ → SvcEvt → ℤ → World → Result World
  handle_evts_by on = svc_handle_on_evts
  handle_evts_by off = svc_handle_off_evts

  -- the call through `handle_evts`
  unfoldable pub svc_handle_evts : ℕ → SvcEvt → ℤ → World → Result World
  unfolding handle_evts_by
  svc_handle_evts id evt status w = handle_evts_by (w.svc id).handle_evts id evt status w

  expire_by : Side → ℕ → World → Result World
  expire_by on = svc_expire_on
  expire_by off = svc_expire_off

  -- The expiry of a timer whose installed handler is that of `side`.
  unfoldable pub svc_expire : Side → ℕ → World → Result World
  unfolding expire_by
  svc_expire side id w = expire_by side id w

-- svc_is_on()
abbrev pub svc_is_on : World → ℕ → Bool
svc_is_on w id = is_on (w.svc id).handle_notif
  where
    is_on : Side → Bool
    is_on on = true
    is_on off = false
