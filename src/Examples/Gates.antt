-- ===== src/Examples/Gates.antt =====
-- The theorems about waiting, at the two services: "web" waits for "net" to be ready, and "net" for
-- "web" to be stopped.
use einit.Prelude.{◌≡◌, ◌↔◌, All, ok, inl, refl, pos, true, Returns, arith}
use einit.World.{ready, starting, stopped, stopping, World}
use einit.Svc.Spawn.{svc_may_start, svc_may_stop}
use einit.Svc.Spawn.Gate.{sources, svc_may_start_iff, svc_may_stop_iff}
use einit.Svc.Events.{svc_start, svc_stop, enter_starting, enter_stopping}
use einit.Svc.Events.Waits.{svc_start-waits, svc_stop-waits}
use einit.Examples.Worlds.{two, easy}

abbrev booting : World
booting = two starting (pos 100) stopped

abbrev running : World
running = two ready (pos 100) ready

abbrev waiting : World
waiting = two starting (pos 100) starting

abbrev leaving : World
leaving = two stopping (pos 100) ready

svc_may_start_iff_example :
    Returns
      (λ may.
        (may ≡ true)
        ↔ All (λ src. (waiting.svc src).state ≡ ready) (sources (waiting.svc 1).starton_notif))
      (svc_may_start waiting 1)
svc_may_start_iff_example = svc_may_start_iff waiting 1 refl refl refl (omega arith)

svc_may_stop_iff_example :
    Returns
      (λ may.
        (may ≡ true)
        ↔ All (λ src. (leaving.svc src).state ≡ stopped) (sources (leaving.svc 0).stopon_notif))
      (svc_may_stop leaving 0)
svc_may_stop_iff_example = svc_may_stop_iff leaving 0 refl refl refl (omega arith)

svc_start-waits_example : svc_start easy 1 booting ≡ ok (enter_starting easy 1 booting)
svc_start-waits_example = svc_start-waits easy 1 booting 0 (inl refl) (λ e. cc) (omega arith)

svc_stop-waits_example : svc_stop easy 0 running ≡ ok (enter_stopping easy 0 running)
svc_stop-waits_example = svc_stop-waits easy 0 running 1 (inl refl) (λ e. cc) (omega arith)
