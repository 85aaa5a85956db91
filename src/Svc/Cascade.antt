-- ===== src/Svc/Cascade.antt =====
-- svc.c: the start and stop sequences, and the notifications that a change of state sends on.
-- `svc_mark_ready` and `svc_mark_stopped` call the observers, whose handlers may call them again.
-- The functions between take that call as an argument, `Marker`, and `mark` ties the knot on fuel.
pub mod Writes
pub mod Total
pub mod Marked
pub mod Steps
use einit.Prelude.{
  ℕ, zero, suc, ◌-◌, Bool, true, false, Option, none, some, List, [], ◌∷◌, Result, ok, err,
  assertion, no_fuel, ◌>>=◌, length, ltb, leb, if◌then◌else◌, ℤ, pos, negsuc, is_neg, inc,
}
use einit.Conf.{
  ConfSvc, StrArr, conf_get_start_cmd_nr, conf_get_start_cmd, conf_get_daemon, conf_get_stop_cmd_nr,
  conf_get_stop_cmd,
}
use einit.World.{SvcState, stopped, starting, ready, stopping, Side, on, off, Env, World, put}
use einit.Svc.Spawn.{svc_may_start, svc_may_stop, svc_spawn}

-- Which of the two functions that notify observers is called.
pub data Mark : Type 0 where
  mark_ready mark_stopped : Mark

abbrev pub Marker : Type 0
Marker = Mark → ℕ → World → Result World

-- `notif_foreach` over an observer list: the handlers do not change the lists.
unfoldable pub notif_foreach : (ℕ → World → Result World) → List ℕ → World → Result World
notif_foreach f [] w = ok w
notif_foreach f (sink ∷ sinks) w = f sink w >>= λ w'. notif_foreach f sinks w'

-- the command that `svc_spawn_start_cmd` picks, and its `mark`
unfoldable pub pick_start_cmd : ConfSvc → ℕ → Option StrArr × Bool
pick_start_cmd conf index =
    if ltb index (conf_get_start_cmd_nr conf)
    then (conf_get_start_cmd conf index, false)
    else (conf_get_daemon conf, true)

-- `(unsigned int)svc->stop_cmd`
abbrev pub to_unsigned : ℤ → ℕ
to_unsigned (pos n) = n
to_unsigned (negsuc n) = 4294967295 - n

module _ (env : Env) (rec : Marker) where
  finish_start_cmd : Bool → ℕ → World → Result World
  finish_start_cmd true id w = rec mark_ready id w
  finish_start_cmd false id w = ok w

  spawn_picked : Option StrArr × Bool → ℕ → World → Result World
  unfolding finish_start_cmd
  spawn_picked (some args, mark) id w = svc_spawn env id args 1 w >>= λ r.
      let w'' = put r.1 id (record (r.1.svc id) { child = r.0 }) in
      if is_neg r.0 then ok w'' else finish_start_cmd mark id w''
  spawn_picked (none, mark) id w =
      finish_start_cmd mark id (put w id (record (w.svc id) { child = negsuc 0 }))

  unfoldable pub svc_spawn_start_cmd : ℕ → World → Result World
  unfolding spawn_picked
  svc_spawn_start_cmd id w =
      let s = w.svc id in spawn_picked (pick_start_cmd s.conf s.start_cmd) id w

  spawn_stop : Option StrArr → ℕ → World → Result World
  spawn_stop (some args) id w =
      svc_spawn env id args 5 w >>= λ r. ok (put r.1 id (record (r.1.svc id) { child = r.0 }))
  spawn_stop none id w = err assertion

  unfoldable pub svc_spawn_stop_cmd : ℕ → World → Result World
  unfolding spawn_stop
  svc_spawn_stop_cmd id w =
      let s = w.svc id in
      let next = inc s.stop_cmd in
      let w' = put w id (record s { stop_cmd = next }) in
      if leb (conf_get_stop_cmd_nr s.conf) (to_unsigned next)
      then rec mark_stopped id w'
      else spawn_stop (conf_get_stop_cmd s.conf (to_unsigned next)) id w'

  on_notif_by : SvcState → SvcState → ℕ → World → Result World
  on_notif_by starting ready id w =
      svc_may_start w id >>= λ may. if may then svc_spawn_start_cmd id w else ok w
  on_notif_by starting _ id w = ok w
  on_notif_by ready _ id w = ok w
  on_notif_by _ _ id w = err assertion

  unfoldable pub svc_handle_on_notif : ℕ → ℕ → World → Result World
  unfolding on_notif_by
  svc_handle_on_notif id src w = on_notif_by (w.svc id).state (w.svc src).state id w

  off_notif_by : SvcState → SvcState → ℕ → World → Result World
  off_notif_by stopped _ id w = ok w
  off_notif_by stopping stopped id w =
      svc_may_stop w id >>= λ may. if may then svc_spawn_stop_cmd id w else ok w
  off_notif_by stopping _ id w = ok w
  off_notif_by _ _ id w = err assertion

  unfoldable pub svc_handle_off_notif : ℕ → ℕ → World → Result World
  unfolding off_notif_by
  svc_handle_off_notif id src w = off_notif_by (w.svc id).state (w.svc src).state id w

  notif_by : Side → ℕ → ℕ → World → Result World
  notif_by on = svc_handle_on_notif
  notif_by off = svc_handle_off_notif

  -- the call through `handle_notif`
  unfoldable pub svc_handle_notif : ℕ → ℕ → World → Result World
  unfolding notif_by
  svc_handle_notif id src w = notif_by (w.svc id).handle_notif id src w

  unfoldable pub svc_mark_ready : ℕ → World → Result World
  svc_mark_ready id w =
      let w' = put w id (record (w.svc id) { state = ready }) in
      notif_foreach (λ sink. svc_handle_notif sink id) (w.svc id).starton_obsrv w'

  unfoldable pub svc_mark_stopped : ℕ → World → Result World
  svc_mark_stopped id w =
      let w' = put w id (record (w.svc id) { child = negsuc 0; state = stopped }) in
      notif_foreach (λ sink. svc_handle_notif sink id) (w.svc id).stopon_obsrv w'

  unfoldable pub mark_step : Marker
  mark_step mark_ready id w = svc_mark_ready id w
  mark_step mark_stopped id w = svc_mark_stopped id w

-- The calls nested at most `fuel` deep.
unfoldable pub mark : Env → ℕ → Marker
mark env zero m id w = err no_fuel
mark env (suc fuel) m id w = mark_step env (mark env fuel) m id w

-- Each nested call finds one service less in the states STARTING and STOPPING, so the number of
-- services is fuel enough: see Svc/Cascade/Total.antt.
unfoldable pub svc_mark : Env → Marker
svc_mark env m id w = mark env (length w.repo) m id w
