-- ===== src/World.antt =====
-- svc.h, notif.h: service descriptors, the memory that holds them, and the calls to the outside.
-- A `struct svc *` is a number, and `World.svc` the memory. `World.repo` is the list of services of
-- `struct tinit_repo`, in order. `World.log` holds the calls to the system and to the timer library
-- made so far, the latest first; `Env` answers them, each answer depending on all earlier calls.
use einit.Prelude.{ℕ, ◌≡◌, Bool, false, not, ◌&&◌, Option, none, some, List, ℤ, if◌then◌else◌, ◌==◌}
use einit.Conf.{ConfSvc, StrArr}

-- enum tinit_svc_state
pub data SvcState : Type 0 where
  stopped starting ready stopping : SvcState

-- enum svc_evt
pub data SvcEvt : Type 0 where
  start_evt stop_evt exit_evt : SvcEvt

-- The functions that `handle_evts`, `handle_notif` and the timer may point to: those of the service
-- side that is switched on, or of the one that is switched off.
pub data Side : Type 0 where
  on off : Side

-- struct notif_poll: the sources of the `cnt` members in use, and the number `nr` of slots. The
-- sink of every member is the service that owns the poll.
pub record NotifPoll : Type 0 where
  pub srcs : List ℕ
  pub nr : ℕ

-- struct svc. The observer lists hold the sinks of the registered notifications, in order.
pub record Svc : Type 0 where
  pub handle_evts : Side
  pub child : ℤ
  pub state : SvcState
  pub handle_notif : Side
  pub start_cmd : ℕ
  pub starton_obsrv : List ℕ
  pub starton_notif : Option NotifPoll
  pub stop_cmd : ℤ
  pub stopon_obsrv : List ℕ
  pub stopon_notif : Option NotifPoll
  pub conf : ConfSvc

-- Calls to what is not part of the program. `vfork` stands for the fork and the `svc_exec` of the
-- child, `utimer_setup` names the side whose expiry handler is installed.
pub data Call : Type 0 where
  vfork : ℕ → StrArr → Call
  kill : ℤ → ℕ → Call
  utimer_setup : ℕ → Side → Call
  utimer_arm_sec : ℕ → ℕ → Call

-- What vfork(2) gives the parent: the new process, or an errno.
pub data Fork : Type 0 where
  spawned : ℕ → Fork
  refused : ℕ → Fork

-- ESRCH and ENOSYS of errno.h
abbrev pub esrch : ℕ
esrch = 3

abbrev pub enosys : ℕ
enosys = 38

-- `assert(err != ENOSYS)` of svc_spawn() fails.
unfoldable pub fork_asserts : Fork → Bool
fork_asserts (spawned pid) = false
fork_asserts (refused errno) = errno == enosys

-- `assert(errno == ESRCH)` of svc_kill() fails, where 0 stands for success.
unfoldable pub kill_asserts : ℕ → Bool
kill_asserts errno = not (errno == 0) && not (errno == esrch)

-- The answers of the system and of the timer library after the given calls, with the two laws that the
-- source asserts: vfork(2) exists, and kill(2) of a child, with the signals that the configuration allows
-- and as the super-user, gives no error but ESRCH.
pub record Env : Type 0 where
  pub vfork_result : List Call → Fork
  pub vfork_law : (log : List Call) → fork_asserts (vfork_result log) ≡ false
  -- 0, or an errno
  pub kill_result : List Call → ℕ
  pub kill_law : (log : List Call) → kill_asserts (kill_result log) ≡ false
  -- utimer_is_armed() of the timer of a service
  pub is_armed : List Call → ℕ → Bool

pub record World : Type 0 where
  pub svc : ℕ → Svc
  pub repo : List ℕ
  pub log : List Call

abbrev pub update : (ℕ → Svc) → ℕ → Svc → ℕ → Svc
update f id s j = if id == j then s else f j

-- A write to a field of the service `id`.
abbrev pub put : World → ℕ → Svc → World
put w id s = record w { svc = update w.svc id s }

abbrev pub call : World → Call → World
call w c = record w { log = List.◌∷◌ c w.log }

-- The commands that were forked for a service, the latest first.
unfoldable pub forked : ℕ → List Call → List StrArr
forked id List.[] = List.[]
forked id (List.◌∷◌ (vfork j args) log) =
    let rest = forked id log in if j == id then List.◌∷◌ args rest else rest
forked id (List.◌∷◌ _ log) = forked id log

-- The side whose expiry handler the last `utimer_setup` of a service's timer installed.
unfoldable pub installed : List Call → ℕ → Option Side
installed List.[] id = none
installed (List.◌∷◌ (utimer_setup j side) log) id = if j == id then some side else installed log id
installed (List.◌∷◌ _ log) id = installed log id
