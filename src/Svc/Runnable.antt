-- ===== src/Svc/Runnable.antt =====
-- svc.h, conf.h: what the assertions of svc_spawn and notif_get_poll_cnt ask of a service: each of its
-- commands has a first argument, and each of its polls has slots.
use einit.Prelude.{
  ℕ, zero, suc, ◌<◌, ◌≡◌, subst, Option, none, some, List, [], ◌∷◌, All, length, get_elem?,
}
use einit.Conf.{StrArr}
use einit.World.{NotifPoll, Svc}

abbrev pub HasArgs : StrArr → Type 0
HasArgs args = 0 < length args

abbrev pub OptHasArgs : Option StrArr → Type 0
OptHasArgs none = Unit
OptHasArgs (some args) = HasArgs args

abbrev pub HasSlots : Option NotifPoll → Type 0
HasSlots none = Unit
HasSlots (some poll) = 0 < poll.nr

pub record IsRunnable (s : Svc) : Type 0 where
  pub start : All HasArgs s.conf.start
  pub daemon : OptHasArgs s.conf.daemon
  pub stop : All HasArgs s.conf.stop
  pub starton : HasSlots s.starton_notif
  pub stopon : HasSlots s.stopon_notif

pub All-HasArgs :
    (cmds : List StrArr) (n : ℕ) (args : StrArr)
    → All HasArgs cmds
    → get_elem? cmds n ≡ some args
    → HasArgs args
All-HasArgs [] n args h e = cc
All-HasArgs (cmd ∷ cmds) zero args h e = let q : cmd ≡ args = cc in subst HasArgs q h.0
All-HasArgs (cmd ∷ cmds) (suc n) args h e = All-HasArgs cmds n args h.1 e
