-- ===== src/Svc/Cascade/Total.antt =====
-- The notification cascades of svc.c come to an end, and make only the moves of `Evolves`.
use einit.Prelude.{
  ℕ, zero, suc, ◌≤◌, ◌≡◌, refl, sym, ap, ◌∙◌, subst, inl, inr, Bool, true, false, Option, none,
  some, List, [], ◌∷◌, In, length, Returns, Returns-bind, arith, Bool-cases, get_elem?-lt, negsuc,
  is_neg, leb, ltb, inc, ok,
}
use einit.Conf.{StrArr, conf_get_stop_cmd_nr, conf_get_start_cmd_nr}
use einit.World.{SvcState, stopped, starting, ready, stopping, Side, on, off, Svc, Env, World, put}
use einit.Svc.Spawn.{
  svc_may_start, svc_may_stop, spawn_run, start_allowed, stop_allowed, svc_spawn-ok,
  svc_may_start-ok, svc_may_stop-ok,
}
use einit.Svc.Runnable.{HasArgs, OptHasArgs, All-HasArgs}
use einit.Svc.Cascade.{
  Mark, mark_ready, mark_stopped, Marker, finish_start_cmd, spawn_picked, spawn_stop, on_notif_by,
  off_notif_by, notif_by, notif_foreach, pick_start_cmd, to_unsigned, svc_spawn_start_cmd,
  svc_spawn_stop_cmd, svc_handle_on_notif, svc_handle_off_notif, svc_handle_notif, svc_mark_ready,
  svc_mark_stopped, mark_step, mark, svc_mark,
}
use einit.Svc.Cascade.Writes.{
  before, Serves, put_child-Evolves, state-put_child, state-spawn_run, spawn_child-Evolves,
  put_stop_cmd, put_stop_cmd-Evolves, state-put_stop_cmd,
}
use einit.Svc.Evolve.{
  IsSound, Evolves, Evolves-refl, Evolves-trans, Evolves-put, Evolves-IsSound, after, is_moving,
  moving, moving-pos, moving-le-length, moving-Evolves, moving-lt-Evolves, put_self, side_of,
}

-- In a sound world the assertions of svc_may_start and svc_may_stop hold where they are called.
pub svc_may_start_sound :
    (w : World) (id : ℕ)
    → IsSound w
    → In id w.repo
    → (w.svc id).state ≡ starting
    → svc_may_start w id ≡ ok (start_allowed w id)
svc_may_start_sound w id s mem e =
    svc_may_start-ok w id ((s.fit id).evts ∙ ap side_of e) ((s.fit id).notif ∙ ap side_of e) e
      (s.runnable id mem).starton

pub svc_may_stop_sound :
    (w : World) (id : ℕ)
    → IsSound w
    → In id w.repo
    → (w.svc id).state ≡ stopping
    → svc_may_stop w id ≡ ok (stop_allowed w id)
svc_may_stop_sound w id s mem e =
    svc_may_stop-ok w id ((s.fit id).evts ∙ ap side_of e) ((s.fit id).notif ∙ ap side_of e) e
      (s.runnable id mem).stopon

module _ (env : Env) (rec : Marker) {f : ℕ} (serves : Serves f rec) (id : ℕ) where
  -- After harmless changes the marker still serves, and what it does adds up.
  then_mark :
      (m : Mark) {v w : World}
      → IsSound v
      → In id v.repo
      → moving v.svc v.repo ≤ f
      → Evolves v w
      → (w.svc id).state ≡ before m
      → Returns (Evolves v) (rec m id w)
  then_mark m {v} {w} s mem small h e = after (rec m id w) h (
      serves m id w (Evolves-IsSound h s) (subst (In id) (sym h.repo) mem) e
        (omega (arith, moving-Evolves h)))

  finish_start_cmd-Evolves :
      (b : Bool) {v w : World}
      → IsSound v
      → In id v.repo
      → moving v.svc v.repo ≤ f
      → Evolves v w
      → (w.svc id).state ≡ starting
      → Returns (Evolves v) (finish_start_cmd env rec b id w)
  unfolding finish_start_cmd
  finish_start_cmd-Evolves true s mem small h e = then_mark mark_ready s mem small h e
  finish_start_cmd-Evolves false s mem small h e = h

  spawn_picked-Evolves :
      (args : Option StrArr) (b : Bool) (w : World)
      → OptHasArgs args
      → IsSound w
      → In id w.repo
      → (w.svc id).state ≡ starting
      → moving w.svc w.repo ≤ f
      → Returns (Evolves w) (spawn_picked env rec (args, b) id w)
  unfolding spawn_picked
  spawn_picked-Evolves (some args) b w full s mem e small =
      let (c, v) = spawn_run env id args 1 w in
      let h = spawn_child-Evolves env id args 1 w (ap is_moving e) in
      let w'' : World = put v id (record (v.svc id) { child = c }) in
      let e' : (w''.svc id).state ≡ starting =
        state-put_child v id c (state-spawn_run env id args 1 w id e) in
      rw (svc_spawn-ok env id args 1 w full) (elim (Bool-cases (is_neg c)) [
        | inl n ↦ rw n h
        | inr n ↦ rw n (finish_start_cmd-Evolves b s mem small h e')
      ])
  spawn_picked-Evolves none b w full s mem e small =
      finish_start_cmd-Evolves b s mem small (put_child-Evolves w id (negsuc 0) (λ k. cc))
        (state-put_child w id (negsuc 0) e)

  -- The command that is picked has an argument.
  picked_full :
      (w : World)
      → IsSound w
      → In id w.repo
      → OptHasArgs (pick_start_cmd (w.svc id).conf (w.svc id).start_cmd).0
  unfolding pick_start_cmd
  picked_full w s mem =
      let n = (w.svc id).start_cmd in
      elim (Bool-cases (ltb n (conf_get_start_cmd_nr (w.svc id).conf))) [
        | inr over ↦ rw over (s.runnable id mem).daemon
        | inl more ↦
            let (args, found) = get_elem?-lt (w.svc id).conf.start n (ground arith) in
            rw (more, found)
              (All-HasArgs (w.svc id).conf.start n args (s.runnable id mem).start found)
      ]

  pub svc_spawn_start_cmd-Evolves :
      (w : World)
      → IsSound w
      → In id w.repo
      → (w.svc id).state ≡ starting
      → moving w.svc w.repo ≤ f
      → Returns (Evolves w) (svc_spawn_start_cmd env rec id w)
  unfolding svc_spawn_start_cmd
  svc_spawn_start_cmd-Evolves w s mem e small =
      let (args, b) = pick_start_cmd (w.svc id).conf (w.svc id).start_cmd in
      spawn_picked-Evolves args b w (picked_full w s mem) s mem e small

  spawn_stop-Evolves :
      (args : StrArr) {v w : World}
      → HasArgs args
      → Evolves v w
      → (w.svc id).state ≡ stopping
      → Returns (Evolves v) (spawn_stop env rec (some args) id w)
  unfolding spawn_stop
  spawn_stop-Evolves args {w = w} full h e =
      rw (svc_spawn-ok env id args 5 w full)
        (Evolves-trans h (spawn_child-Evolves env id args 5 w (ap is_moving e)))

  pub svc_spawn_stop_cmd-Evolves :
      (w : World)
      → IsSound w
      → In id w.repo
      → (w.svc id).state ≡ stopping
      → moving w.svc w.repo ≤ f
      → Returns (Evolves w) (svc_spawn_stop_cmd env rec id w)
  unfolding svc_spawn_stop_cmd
  svc_spawn_stop_cmd-Evolves w s mem e small =
      let next = inc (w.svc id).stop_cmd in
      let n = to_unsigned next in
      let w' = put_stop_cmd w id next in
      let h = put_stop_cmd-Evolves w id next (λ k. cc) in
      let e' = state-put_stop_cmd w id next e in
      elim (Bool-cases (leb (conf_get_stop_cmd_nr (w.svc id).conf) n)) [
        | inl over ↦ rw over (then_mark mark_stopped s mem small h e')
        | inr more ↦
            let (args, found) = get_elem?-lt (w.svc id).conf.stop n (ground arith) in
            rw (more, found)
              (spawn_stop-Evolves args
                (All-HasArgs (w.svc id).conf.stop n args (s.runnable id mem).stop found) h e')
      ]

  on_notif_by-Evolves :
      (a b : SvcState) (w : World)
      → IsSound w
      → In id w.repo
      → (w.svc id).state ≡ a
      → side_of a ≡ on
      → moving w.svc w.repo ≤ f
      → Returns (Evolves w) (on_notif_by env rec a b id w)
  unfolding on_notif_by
  on_notif_by-Evolves starting ready w s mem e o small =
      rw (svc_may_start_sound w id s mem e) (elim (Bool-cases (start_allowed w id)) [
        | inl may ↦ rw may (svc_spawn_start_cmd-Evolves w s mem e small)
        | inr not_yet ↦ rw not_yet (Evolves-refl w)
      ])
  on_notif_by-Evolves starting _ w s mem e o small = Evolves-refl w
  on_notif_by-Evolves ready _ w s mem e o small = Evolves-refl w
  on_notif_by-Evolves stopped _ w s mem e o small = cc
  on_notif_by-Evolves stopping _ w s mem e o small = cc

  off_notif_by-Evolves :
      (a b : SvcState) (w : World)
      → IsSound w
      → In id w.repo
      → (w.svc id).state ≡ a
      → side_of a ≡ off
      → moving w.svc w.repo ≤ f
      → Returns (Evolves w) (off_notif_by env rec a b id w)
  unfolding off_notif_by
  off_notif_by-Evolves stopping stopped w s mem e o small =
      rw (svc_may_stop_sound w id s mem e) (elim (Bool-cases (stop_allowed w id)) [
        | inl may ↦ rw may (svc_spawn_stop_cmd-Evolves w s mem e small)
        | inr not_yet ↦ rw not_yet (Evolves-refl w)
      ])
  off_notif_by-Evolves stopping _ w s mem e o small = Evolves-refl w
  off_notif_by-Evolves stopped _ w s mem e o small = Evolves-refl w
  off_notif_by-Evolves starting _ w s mem e o small = cc
  off_notif_by-Evolves ready _ w s mem e o small = cc

  notif_by-Evolves :
      (side : Side) (src : ℕ) (w : World)
      → IsSound w
      → In id w.repo
      → side_of (w.svc id).state ≡ side
      → moving w.svc w.repo ≤ f
      → Returns (Evolves w) (notif_by env rec side id src w)
  unfolding notif_by svc_handle_on_notif svc_handle_off_notif
  notif_by-Evolves on src w s mem o small =
      on_notif_by-Evolves (w.svc id).state (w.svc src).state w s mem refl o small
  notif_by-Evolves off src w s mem o small =
      off_notif_by-Evolves (w.svc id).state (w.svc src).state w s mem refl o small

  -- No handler of a notification fails in a sound world.
  svc_handle_notif-Evolves :
      (src : ℕ) (w : World)
      → IsSound w
      → In id w.repo
      → moving w.svc w.repo ≤ f
      → Returns (Evolves w) (svc_handle_notif env rec id src w)
  unfolding svc_handle_notif
  svc_handle_notif-Evolves src w s mem small =
      notif_by-Evolves (w.svc id).handle_notif src w s mem (sym (s.fit id).notif) small

module _ (env : Env) (rec : Marker) {f : ℕ} (serves : Serves f rec) where
  pub notif_foreach-Evolves :
      (src : ℕ) (sinks : List ℕ) (w : World)
      → IsSound w
      → ((sink : ℕ) → In sink sinks → In sink w.repo)
      → moving w.svc w.repo ≤ f
      → Returns (Evolves w) (notif_foreach (λ sink. svc_handle_notif env rec sink src) sinks w)
  unfolding notif_foreach
  notif_foreach-Evolves src [] w s mem small = Evolves-refl w
  notif_foreach-Evolves src (sink ∷ sinks) w s mem small =
      Returns-bind (Evolves w) (svc_handle_notif env rec sink src w) _
        (svc_handle_notif-Evolves env rec serves sink src w s (mem sink (inl refl)) small)
        λ v h. after (notif_foreach (λ j. svc_handle_notif env rec j src) sinks v) h (
          notif_foreach-Evolves src sinks v (Evolves-IsSound h s)
            (λ j m. subst (In j) (sym h.repo) (mem j (inr m))) (omega (arith, moving-Evolves h)))

  notify_all :
      (id : ℕ) (sinks : List ℕ) {w v : World}
      → IsSound w
      → In id w.repo
      → ((sink : ℕ) → In sink sinks → In sink w.repo)
      → moving w.svc w.repo ≤ suc f
      → is_moving (w.svc id).state ≡ true
      → is_moving (v.svc id).state ≡ false
      → Evolves w v
      → Returns (Evolves w) (notif_foreach (λ sink. svc_handle_notif env rec sink id) sinks v)
  notify_all id sinks {w} {v} s mem closed small a b h =
      after (notif_foreach (λ sink. svc_handle_notif env rec sink id) sinks v) h (
        notif_foreach-Evolves id sinks v (Evolves-IsSound h s)
          (λ j m. subst (In j) (sym h.repo) (closed j m))
          (omega (arith, moving-lt-Evolves id h mem a b)))

  -- Marking a service takes it off the move, which pays for the calls nested in it.
  mark_step-Evolves : Serves (suc f) (mark_step env rec)
  unfolding mark_step svc_mark_ready svc_mark_stopped
  mark_step-Evolves mark_ready id w s mem e small =
      let t : Svc = record (w.svc id) { state = ready } in
      notify_all id (w.svc id).starton_obsrv s mem (s.starton_closed id) small (rw e)
        (rw (put_self w id t))
        (Evolves-put w id t (record {
          setup = ground arith;
          evts = refl;
          notif = refl;
          moves = inr (inl (e, refl));
          idle = λ k. cc;
        }))
  mark_step-Evolves mark_stopped id w s mem e small =
      let t : Svc = record (w.svc id) { child = negsuc 0; state = stopped } in
      notify_all id (w.svc id).stopon_obsrv s mem (s.stopon_closed id) small (rw e)
        (rw (put_self w id t))
        (Evolves-put w id t (record {
          setup = ground arith;
          evts = refl;
          notif = refl;
          moves = inr (inr (e, refl));
          idle = λ k. inl refl;
        }))

is_moving-before : (m : Mark) → is_moving (before m) ≡ true
is_moving-before mark_ready = refl
is_moving-before mark_stopped = refl

pub mark-Serves : (env : Env) (fuel : ℕ) → Serves fuel (mark env fuel)
unfolding mark
mark-Serves env zero m id w s mem e small =
    absurd
      (omega (arith, moving-pos w.svc w.repo id mem (ap is_moving e ∙ is_moving-before m), small))
mark-Serves env (suc fuel) m id w s mem e small =
    mark_step-Evolves env (mark env fuel) (mark-Serves env fuel) m id w s mem e small

-- The cascade of notifications that `svc_mark_ready` or `svc_mark_stopped` starts comes to an end
-- with no failed assertion, only takes services from STARTING to READY and from STOPPING to STOPPED,
-- and forks no process for a service that is at rest. The service that is marked is in the state that the callers leave it in.
pub svc_mark-Evolves :
    (env : Env) (m : Mark) (id : ℕ) (w : World)
    → IsSound w
    → In id w.repo
    → (w.svc id).state ≡ before m
    → Returns (Evolves w) (svc_mark env m id w)
unfolding svc_mark
svc_mark-Evolves env m id w s mem e =
    mark-Serves env (length w.repo) m id w s mem e (moving-le-length w.svc w.repo)

pub svc_mark-Serves : (env : Env) (f : ℕ) → Serves f (svc_mark env)
svc_mark-Serves env f m id w s mem e small = svc_mark-Evolves env m id w s mem e
