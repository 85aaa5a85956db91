-- ===== src/Init/Loop.antt =====
-- init.c, tinit_loop(): the daemon at work. What upoll_process_with_timers() dispatches, one after the
-- other, is a list of events; a run whose events end before it does is waiting for more.
pub mod Started
pub mod Stopping
use einit.Prelude.{
  ℕ, zero, suc, ◌+◌, ◌-◌, Bool, true, false, ◌||◌, Option, none, some, List, [], ◌∷◌, Result, ok,
  err, assertion, ◌>>=◌, ltb, ◌==◌, if◌then◌else◌, ℤ, pos, negsuc, neg, is_zero,
}
use einit.Conf.{CStr}
use einit.Sys.{Sys}
use einit.World.{Side, Env, World, installed}
use einit.Svc.Events.{svc_expire}
use einit.Sigchan.{SigEntry, tinit_sigchan_dispatch_started, tinit_sigchan_dispatch_stopping}
use einit.Target.{tinit_target_stop}
use einit.Target.Switch.{tinit_target_start}
use einit.Proto.Reply.{Buff}
use einit.Srv.Queue.{Buffq}
use einit.Srv.Transport.{Incoming, Server, Events, tinit_srv_dispatch}

-- The signal descriptor is ready, a service's timer expires, or the server's socket is ready. What a
-- dispatch of the socket leaves unread is part of a later event.
pub data PollEvent : Type 0 where
  sigs_ready : List SigEntry → PollEvent
  timer_expires : ℕ → PollEvent
  srv_ready : Events → List Incoming → PollEvent

-- an `int` of 32 bits, from a constant that may be larger
unfoldable pub to_int : ℕ → ℤ
to_int n = if ltb n 2147483648 then pos n else neg (4294967296 - n)

-- RB_AUTOBOOT, RB_HALT_SYSTEM and RB_POWER_OFF: 0x01234567, 0xcdef0123 and 0x4321fedc
abbrev pub rb_autoboot : ℕ
rb_autoboot = 19088743

abbrev pub rb_halt_system : ℕ
rb_halt_system = 3454992675

abbrev pub rb_power_off : ℕ
rb_power_off = 1126301404

-- the `switch` on the signal; SIGTERM, SIGUSR1, SIGUSR2 and SIGPWR
unfoldable pub loop_howto : ℕ → Result ℤ
loop_howto signo =
    if signo == 15
    then ok (to_int rb_autoboot)
    else if signo == 10
    then ok (to_int rb_halt_system)
    else if (signo == 12) || (signo == 30)
    then ok (to_int rb_power_off)
    else err assertion

-- What the calls outside give: the errno of upoll_open(), of the signal descriptor and of its
-- registration, or 0, and whether the server opens, which the loop does not look at.
pub record LoopEnv : Type 0 where
  pub poll_errno : ℕ
  pub sigs_errno : ℕ
  pub start_errno : ℕ
  pub srv_opens : Bool

-- sigchan.c, tinit_sigchan_open() and tinit_sigchan_start()
unfoldable pub tinit_sigchan_open : LoopEnv → ℤ
tinit_sigchan_open env = neg env.sigs_errno

unfoldable pub tinit_sigchan_start : LoopEnv → ℤ
tinit_sigchan_start env = neg env.start_errno

-- The loop waits for events, or returns.
pub data LoopEnd : Type 0 where
  waits : LoopEnd
  returns : ℤ → LoopEnd

module _ {Q : Type 0} (ops : Buffq Q) (sys : Sys) (env : Env) (tinit_gid : ℕ)
    (send_errno : List (Buff × ℕ) → ℕ) where
  -- A timer that was never set up does not expire.
  expire_timer : Option Side → ℕ → World → Result World
  expire_timer none id w = ok w
  expire_timer (some side) id w = svc_expire env side id w

  -- The signal that was asked for, or `none` to go on.
  unfoldable pub started_event : Bool → PollEvent → Server Q → Result (Option ℕ × Server Q)
  unfolding expire_timer
  started_event is_open (sigs_ready es) srv =
      tinit_sigchan_dispatch_started env es srv.world >>= λ (c, w).
      ok (if c.shutdown then some c.signo else none, record srv { world = w })
  started_event is_open (timer_expires id) srv =
      expire_timer (installed srv.world.log id) id srv.world >>= λ w.
      ok (none, record srv { world = w })
  started_event is_open (srv_ready state inbox) srv =
      let run =
        tinit_srv_dispatch ops sys env tinit_gid send_errno state inbox srv >>= λ (ret, left, srv').
        ok (none, srv') in
      if is_open then run else ok (none, srv)

  -- tinit_poll() until the channel asks for the end; with it, the events behind
  unfoldable pub poll_started :
      Bool → List PollEvent → Server Q → Result (Option ℕ × List PollEvent × Server Q)
  poll_started is_open [] srv = ok (none, [], srv)
  poll_started is_open (event ∷ events) srv = started_event is_open event srv >>= λ (o, srv').
      let rest = poll_started is_open events srv' in
      elim o [ none ↦ rest | some signo ↦ ok (some signo, events, srv') ]

  -- While the services stop, the server's socket is closed. `true` tells that the channel is closed.
  unfoldable pub stopping_event : PollEvent → ℕ × World → Result (Bool × ℕ × World)
  unfolding expire_timer
  stopping_event (sigs_ready es) (cnt, w) = tinit_sigchan_dispatch_stopping env es cnt w
  stopping_event (timer_expires id) (cnt, w) =
      expire_timer (installed w.log id) id w >>= λ v. ok (false, cnt, v)
  stopping_event (srv_ready state inbox) (cnt, w) = ok (false, cnt, w)

  unfoldable pub poll_stopping : List PollEvent → ℕ × World → Result (Bool × World)
  poll_stopping [] (cnt, w) = ok (false, w)
  poll_stopping (event ∷ events) s = stopping_event event s >>= λ (closed, cnt, w).
      let rest = poll_stopping events (cnt, w) in if closed then ok (true, w) else rest

  -- from the request to shut down on
  unfoldable pub loop_stop : ℕ → List PollEvent → World → Result (LoopEnd × World)
  loop_stop signo events w = loop_howto signo >>= λ ret. tinit_target_stop env w >>= λ s.
      poll_stopping events s >>= λ (closed, v). ok (if closed then returns ret else waits, v)

  unfoldable pub loop_run : Bool → List PollEvent → Server Q → Result (LoopEnd × World)
  loop_run is_open events srv = poll_started is_open events srv >>= λ (o, rest, srv'). elim o [
    | none ↦ ok (waits, srv'.world)
    | some signo ↦ loop_stop signo rest srv'.world
  ]

  module _ (loop_env : LoopEnv) (boot_target : CStr) (events : List PollEvent) where
    loop_target : Server Q → Result (LoopEnd × World)
    loop_target srv =
        tinit_target_start sys env (tinit_sigchan_start loop_env) sys.sysconf_dir boot_target
          srv.world
        >>= λ (ret, w).
            let run = loop_run loop_env.srv_opens events (record srv { world = w }) in
            if is_zero ret then run else ok (returns ret, w)

    unfoldable pub tinit_loop : Server Q → Result (LoopEnd × World)
    unfolding loop_target
    tinit_loop srv =
        let run = loop_target srv in
        let sigs = tinit_sigchan_open loop_env in
        if loop_env.poll_errno == 0
        then if is_zero sigs then run else ok (returns sigs, srv.world)
        else ok (returns (neg loop_env.poll_errno), srv.world)
