-- ===== src/Examples/Sequences.antt =====
-- "net" starts and stops, where every fork works and every process is found.
use einit.Prelude.{◌+◌, ◌≡◌, refl, true, inl, ok, ◌>>=◌, Returns, length, pos, negsuc, arith}
use einit.World.{stopped, ready, World}
use einit.Svc.Spawn.{
  svc_may_start, svc_may_stop, start_allowed, stop_allowed, may_start_asserts, may_stop_asserts,
  may_start_poll, may_stop_poll, running_loop,
}
use einit.Svc.Events.{svc_start, enter_starting, svc_stop, enter_stopping}
use einit.Svc.Events.Sequence.{exits, IsForking, IsUp}
use einit.Svc.Events.Sequence.Run.{svc_start-IsUp}
use einit.Svc.Events.Ending.{IsKilling, IsDown, svc_stop-IsDown}
use einit.Examples.Worlds.{two, two-IsSound, easy, net_conf}

abbrev idle : World
idle = two stopped (negsuc 0) stopped

abbrev running : World
running = two ready (pos 100) stopped

easy-IsForking : IsForking easy
easy-IsForking log = (100 + length log, refl)

easy-IsKilling : IsKilling easy
easy-IsKilling log = refl

idle_may : svc_may_start (enter_starting easy 0 idle) 0 ≡ ok true
unfolding svc_may_start start_allowed may_start_asserts may_start_poll enter_starting
idle_may = refl

running_may : svc_may_stop (enter_stopping easy 0 running) 0 ≡ ok true
unfolding svc_may_stop stop_allowed may_stop_asserts may_stop_poll enter_stopping running_loop
running_may = refl

svc_start-IsUp_example :
    Returns (IsUp 0 net_conf.start idle) (svc_start easy 0 idle >>= λ v. exits easy 2 0 v)
svc_start-IsUp_example =
    svc_start-IsUp easy 0 easy-IsForking idle (two-IsSound stopped (negsuc 0) stopped (λ e. refl))
      (inl refl) idle_may (ground arith)

svc_stop-IsDown_example :
    Returns (IsDown 0 net_conf.stop running) (svc_stop easy 0 running >>= λ v. exits easy 2 0 v)
svc_stop-IsDown_example =
    svc_stop-IsDown easy 0 easy-IsForking easy-IsKilling running 99
      (two-IsSound ready (pos 100) stopped (λ e. absurd (ground arith))) (inl refl) running_may refl
