-- ===== src/Svc/Spawn.antt =====
-- svc.c: spawning and killing the processes of a service, and the tests that its observers make.
-- The timer is armed only in the parent of a fork that worked.
pub mod Gate
use einit.Prelude.{
  ◌≡◌, refl, not, ◌&&◌, ◌||◌, Result, ok, err, assertion, arith, ◌<◌, zero, suc, ℕ, ◌-◌, Bool, true,
  false, Option, none, some, List, [], ◌∷◌, length, ◌==◌, if◌then◌else◌, ℤ, pos, neg, is_neg,
  is_zero,
}
use einit.Conf.{StrArr}
use einit.Svc.Runnable.{HasArgs, HasSlots}
use einit.World.{
  SvcState, stopped, starting, stopping, ready, Side, on, off, Svc, esrch, fork_asserts,
  kill_asserts, NotifPoll, vfork, kill, utimer_arm_sec, Fork, spawned, refused, Env, World, call,
}

-- The slots of `members[]` that `notif_foreach_sink_poll_src` reads, in order: the first one, and one more
-- after each step. The loops below go over the sources; the value of the last read is dropped.
unfoldable pub reads_from : ℕ → ℕ → List ℕ
reads_from index zero = index ∷ []
reads_from index (suc cnt) = index ∷ reads_from (suc index) cnt

unfoldable pub poll_reads : NotifPoll → List ℕ
unfolding reads_from
poll_reads poll = reads_from 0 (length poll.srcs)

-- SVC_READY_STAT and SVC_STOPPED_STAT tests of a source
abbrev pub is_ready : SvcState → Bool
is_ready ready = true
is_ready _ = false

abbrev pub is_stopped : SvcState → Bool
is_stopped stopped = true
is_stopped _ = false

-- the loop of `svc_may_start`: `unready` is counted down at each source that is ready
unfoldable pub unready_loop : World → ℕ → List ℕ → ℕ
unready_loop w unready [] = unready
unready_loop w unready (src ∷ srcs) =
    unready_loop w (if is_ready (w.svc src).state then unready - 1 else unready) srcs

-- the loop of `svc_may_stop`
unfoldable pub running_loop : World → ℕ → List ℕ → ℕ
running_loop w running [] = running
running_loop w running (src ∷ srcs) =
    running_loop w (if is_stopped (w.svc src).state then running - 1 else running) srcs

-- notif_get_poll_cnt()
abbrev pub notif_get_poll_cnt : NotifPoll → ℕ
notif_get_poll_cnt poll = length poll.srcs

unfoldable pub may_start_poll : World → Option NotifPoll → Bool
may_start_poll w none = true
may_start_poll w (some poll) = unready_loop w (notif_get_poll_cnt poll) poll.srcs == 0

-- The assertions on the handlers, the state and, if there is a poll, its number of slots
abbrev pub is_side : Side → Side → Bool
is_side on on = true
is_side off off = true
is_side _ _ = false

abbrev pub is_starting : SvcState → Bool
is_starting starting = true
is_starting _ = false

abbrev pub is_stopping : SvcState → Bool
is_stopping stopping = true
is_stopping _ = false

abbrev pub has_slots : Option NotifPoll → Bool
has_slots none = true
has_slots (some poll) = not (poll.nr == 0)

unfoldable pub may_start_asserts : Svc → Bool
may_start_asserts s =
    is_side s.handle_evts on
    && is_side s.handle_notif on
    && is_starting s.state
    && has_slots s.starton_notif

unfoldable pub may_stop_asserts : Svc → Bool
may_stop_asserts s =
    is_side s.handle_evts off
    && is_side s.handle_notif off
    && is_stopping s.state
    && has_slots s.stopon_notif

-- The answer of svc_may_start() where its assertions hold
unfoldable pub start_allowed : World → ℕ → Bool
unfolding may_start_poll
start_allowed w id = may_start_poll w (w.svc id).starton_notif

unfoldable pub svc_may_start : World → ℕ → Result Bool
unfolding may_start_asserts
svc_may_start w id = if may_start_asserts (w.svc id) then ok (start_allowed w id) else err assertion

unfoldable pub may_stop_poll : World → Option NotifPoll → Bool
may_stop_poll w none = true
may_stop_poll w (some poll) = running_loop w (notif_get_poll_cnt poll) poll.srcs == 0

unfoldable pub stop_allowed : World → ℕ → Bool
unfolding may_stop_poll
stop_allowed w id = may_stop_poll w (w.svc id).stopon_notif

unfoldable pub svc_may_stop : World → ℕ → Result Bool
unfolding may_stop_asserts
svc_may_stop w id = if may_stop_asserts (w.svc id) then ok (stop_allowed w id) else err assertion

unfoldable pub has_args : StrArr → Bool
has_args [] = false
has_args (arg ∷ args) = true

HasSlots-has_slots : (p : Option NotifPoll) → HasSlots p → has_slots p ≡ true
HasSlots-has_slots none h = refl
HasSlots-has_slots (some poll) h = ground arith

if_same : {A : Type 0} (b : Bool) (a : A) → (if b then a else a) ≡ a
if_same true a = refl
if_same false a = refl

pub svc_may_start-ok :
    (w : World) (id : ℕ)
    → (w.svc id).handle_evts ≡ on
    → (w.svc id).handle_notif ≡ on
    → (w.svc id).state ≡ starting
    → HasSlots (w.svc id).starton_notif
    → svc_may_start w id ≡ ok (start_allowed w id)
unfolding svc_may_start may_start_asserts
svc_may_start-ok w id e n s p = rw (e, n, s, HasSlots-has_slots (w.svc id).starton_notif p) refl

pub svc_may_stop-ok :
    (w : World) (id : ℕ)
    → (w.svc id).handle_evts ≡ off
    → (w.svc id).handle_notif ≡ off
    → (w.svc id).state ≡ stopping
    → HasSlots (w.svc id).stopon_notif
    → svc_may_stop w id ≡ ok (stop_allowed w id)
unfolding svc_may_stop may_stop_asserts
svc_may_stop-ok w id e n s p = rw (e, n, s, HasSlots-has_slots (w.svc id).stopon_notif p) refl

module _ (env : Env) where
  spawn_result : ℕ → ℕ → World → Fork → ℤ × World
  spawn_result id tmout w (spawned pid) = (pos pid, call w (utimer_arm_sec id tmout))
  spawn_result id tmout w (refused errno) = (neg errno, w)

  -- the parent's side where the assertions hold; what it returns is stored to `child` by the callers
  unfoldable pub spawn_run : ℕ → StrArr → ℕ → World → ℤ × World
  unfolding spawn_result
  spawn_run id args tmout w =
      spawn_result id tmout (call w (vfork id args)) (env.vfork_result w.log)

  unfoldable pub svc_spawn : ℕ → StrArr → ℕ → World → Result (ℤ × World)
  unfolding has_args
  svc_spawn id args tmout w =
      if not (has_args args)
      then err assertion
      else if fork_asserts (env.vfork_result w.log)
      then err assertion
      else ok (spawn_run id args tmout w)

  kill_result : ℤ → ℕ → World → Bool → ℤ × World
  kill_result child signo w true = (pos 0, call w (kill child signo))
  kill_result child signo w false = (neg esrch, call w (kill child signo))

  -- 0, or -ESRCH if there is no child or kill(2) does not find it, where the assertion holds
  unfoldable pub kill_run : ℕ → ℕ → World → ℤ × World
  unfolding kill_result
  kill_run id signo w =
      let child = (w.svc id).child in
      if is_neg child
      then (neg esrch, w)
      else if is_zero child
      then (neg esrch, w)
      else kill_result child signo w (env.kill_result w.log == 0)

  unfoldable pub svc_kill : ℕ → ℕ → World → Result (ℤ × World)
  svc_kill id signo w =
      let child = (w.svc id).child in
      if is_neg child || is_zero child
      then ok (kill_run id signo w)
      else if kill_asserts (env.kill_result w.log)
      then err assertion
      else ok (kill_run id signo w)

  -- The laws of the system make the assertions on its answers hold.
  pub svc_spawn-ok :
      (id : ℕ) (args : StrArr) (tmout : ℕ) (w : World)
      → HasArgs args
      → svc_spawn id args tmout w ≡ ok (spawn_run id args tmout w)
  unfolding svc_spawn has_args
  svc_spawn-ok id [] tmout w h = absurd (omega arith)
  svc_spawn-ok id (arg ∷ args) tmout w h = rw (env.vfork_law w.log) refl

  pub svc_kill-ok : (id signo : ℕ) (w : World) → svc_kill id signo w ≡ ok (kill_run id signo w)
  unfolding svc_kill
  svc_kill-ok id signo w =
      rw (env.kill_law w.log)
        (if_same (is_neg (w.svc id).child || is_zero (w.svc id).child) (ok (kill_run id signo w)))
