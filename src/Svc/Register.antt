-- ===== src/Svc/Register.antt =====
-- svc.c and notif.c: setting a service up, and registering an observer with the service it waits for.
-- What the source does twice, for `starton` and for `stopon`, is done here for a `Relation`.
pub mod Reach
pub mod Rank
pub mod Writes
pub mod Wired
pub mod Registered
use einit.Prelude.{
  ℕ, zero, suc, Bool, true, false, ◌||◌, Option, none, some, List, [], ◌∷◌, ◌++◌, Result, ok, err,
  assertion, out_of_bounds, no_fuel, ◌>>=◌, length, ltb, ◌==◌, if◌then◌else◌, negsuc,
}
use einit.Conf.{StrArr, ConfSvc}
use einit.World.{SvcState, stopped, off, NotifPoll, Svc, World, put}
use einit.Svc.Spawn.Gate.{sources}

pub data Relation : Type 0 where
  starton stopon : Relation

abbrev pub poll_of : Relation → Svc → Option NotifPoll
poll_of starton s = s.starton_notif
poll_of stopon s = s.stopon_notif

abbrev pub obsrv_of : Relation → Svc → List ℕ
obsrv_of starton s = s.starton_obsrv
obsrv_of stopon s = s.stopon_obsrv

abbrev pub conf_of : Relation → ConfSvc → Option StrArr
conf_of starton conf = conf.starton
conf_of stopon conf = conf.stopon

abbrev pub with_poll : Relation → Option NotifPoll → Svc → Svc
with_poll starton poll s = record s { starton_notif = poll }
with_poll stopon poll s = record s { stopon_notif = poll }

abbrev pub with_obsrv : Relation → List ℕ → Svc → Svc
with_obsrv starton sinks s = record s { starton_obsrv = sinks }
with_obsrv stopon sinks s = record s { stopon_obsrv = sinks }

-- the sources that a service waits for
abbrev pub srcs_of : Relation → (ℕ → Svc) → ℕ → List ℕ
srcs_of rel svc id = sources (poll_of rel (svc id))

-- the loop of `svc_has_starton_notifier` and `svc_has_stopon_notifier`, over the sources: that a loop to
-- its end also reads a slot behind them, outside of a full poll, is in `poll_reads` of Svc/Spawn
unfoldable pub any_notifier : (ℕ → Result Bool) → List ℕ → Result Bool
any_notifier test [] = ok false
any_notifier test (src ∷ srcs) =
    let rest = any_notifier test srcs in test src >>= λ hit. if hit then ok true else rest

-- The two functions, on the sources of each service, with calls nested at most `fuel` deep.
unfoldable pub has_notifier : (ℕ → List ℕ) → ℕ → ℕ → ℕ → Result Bool
has_notifier srcs zero id match_ = err no_fuel
has_notifier srcs (suc fuel) id match_ =
    let deep = any_notifier (λ src. has_notifier srcs fuel src match_) (srcs id) in
    if id == match_ then ok true else deep

-- The number of services is fuel enough while no service waits for itself.
unfoldable pub svc_has_notifier : Relation → World → ℕ → ℕ → Result Bool
svc_has_notifier rel w id match_ = has_notifier (srcs_of rel w.svc) (length w.repo) id match_

-- The write to `members[cnt]` is behind an assertion that `cnt` is at most `nr`.
unfoldable pub register_in : Relation → Option NotifPoll → ℕ → ℕ → World → Result World
register_in rel none sink src w = err assertion
register_in rel (some poll) sink src w =
    let grown : NotifPoll = record { srcs = poll.srcs ++ (src ∷ []); nr = poll.nr } in
    let w1 = put w sink (with_poll rel (some grown) (w.svc sink)) in
    let w2 = put w1 src (with_obsrv rel (obsrv_of rel (w1.svc src) ++ (sink ∷ [])) (w1.svc src)) in
    if poll.nr == 0 || ltb poll.nr (length poll.srcs)
    then err assertion
    else if length poll.srcs == poll.nr
    then err out_of_bounds
    else ok w2

-- notif_register_poll_sink() of the poll of `sink`
unfoldable pub notif_register_poll_sink : Relation → ℕ → ℕ → World → Result World
unfolding register_in
notif_register_poll_sink rel sink src w = register_in rel (poll_of rel (w.svc sink)) sink src w

-- svc_register_starton_obsrv() and svc_register_stopon_obsrv()
unfoldable pub svc_register_obsrv : Relation → ℕ → ℕ → World → Result World
svc_register_obsrv rel src sink w =
    let register = notif_register_poll_sink rel sink src w in
    svc_has_notifier rel w src sink >>= λ loops. if loops then ok w else register

-- svc_init_notif_obsrv(): the poll; the list of observers is empty
abbrev pub svc_init_notif_obsrv : Option StrArr → Option NotifPoll
svc_init_notif_obsrv none = none
svc_init_notif_obsrv (some names) = some (record { srcs = []; nr = length names })

-- svc_init() in memory that holds `junk`. utimer_init() is left out: the timer has no handler until
-- utimer_setup() gives it one.
unfoldable pub svc_init : ConfSvc → Svc → Svc
svc_init conf junk = record junk {
  starton_notif = svc_init_notif_obsrv conf.starton;
  starton_obsrv = [];
  stopon_notif = svc_init_notif_obsrv conf.stopon;
  stopon_obsrv = [];
  handle_evts = off;
  handle_notif = off;
  child = negsuc 0;
  state = stopped;
  conf = conf;
}
