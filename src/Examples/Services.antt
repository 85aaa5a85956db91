-- ===== src/Examples/Services.antt =====
-- The theorems about services and their supervision, at the two services.
use einit.Prelude.{refl, inl, inr, [], ◌∷◌, Returns, arith, pos}
use einit.World.{stopped, starting, stopping, exit_evt, on, installed, World}
use einit.Svc.Evolve.{IsSound, Evolves}
use einit.Svc.React.{Reacts}
use einit.Svc.Serviced.{Serviced}
use einit.Svc.Cascade.{mark_ready, svc_mark}
use einit.Svc.Cascade.Total.{svc_mark-Evolves}
use einit.Svc.Events.{svc_start, svc_stop, svc_handle_evts, svc_expire}
use einit.Svc.Events.Switch.{svc_start-Reacts, svc_stop-Reacts}
use einit.Svc.Events.Sound.{svc_handle_evts-Reacts, svc_expire-Reacts}
use einit.Sigchan.{
  cld_exited, sigchld, tinit_sigchan_handle_sigchld, tinit_sigchan_dispatch_stopping,
}
use einit.Sigchan.Reap.{tinit_sigchan_handle_sigchld-Serviced}
use einit.Target.{tinit_target_stop}
use einit.Target.Shutdown.{IsWindingDown, tinit_target_stop-IsWindingDown}
use einit.Sigchan.Drain.{Drained, tinit_sigchan_dispatch_stopping-Drained}
use einit.Svc.Evolve.{moving}
use einit.Examples.Worlds.{two, two-IsSound, easy}

-- "net" runs its first start command, and "web" waits.
abbrev booting : World
booting = two starting (pos 100) starting

booting-IsSound : IsSound booting
booting-IsSound = two-IsSound starting (pos 100) starting (λ e. absurd (ground arith))

svc_mark-Evolves_example : Returns (Evolves booting) (svc_mark easy mark_ready 0 booting)
svc_mark-Evolves_example =
    svc_mark-Evolves easy mark_ready 0 booting booting-IsSound (inl refl) refl

svc_handle_evts-Reacts_example :
    Returns (Reacts 0 booting) (svc_handle_evts easy 0 exit_evt (pos 0) booting)
svc_handle_evts-Reacts_example =
    svc_handle_evts-Reacts easy 0 exit_evt (pos 0) booting booting-IsSound (inl refl)
      (λ e. ground arith)

svc_expire-Reacts_example : Returns (Reacts 0 booting) (svc_expire easy on 0 booting)
unfolding installed
svc_expire-Reacts_example = svc_expire-Reacts easy 0 on booting booting-IsSound (inl refl) refl

svc_start-Reacts_example : Returns (Reacts 1 booting) (svc_start easy 1 booting)
svc_start-Reacts_example = svc_start-Reacts easy 1 booting booting-IsSound (inr (inl refl))

svc_stop-Reacts_example : Returns (Reacts 0 booting) (svc_stop easy 0 booting)
svc_stop-Reacts_example = svc_stop-Reacts easy 0 booting booting-IsSound (inl refl)

-- The process of "net" has exited, and so has one that no service knows.
tinit_sigchan_handle_sigchld-Serviced_example :
    Returns
      (λ r. Serviced booting r.1)
      (tinit_sigchan_handle_sigchld easy 0
        (record { pid = 7; code = cld_exited; status = 1 }
          ∷ record { pid = 100; code = cld_exited; status = 0 }
          ∷ [])
        booting)
tinit_sigchan_handle_sigchld-Serviced_example =
    tinit_sigchan_handle_sigchld-Serviced easy
      (record { pid = 7; code = cld_exited; status = 1 }
        ∷ record { pid = 100; code = cld_exited; status = 0 }
        ∷ [])
      0 booting booting-IsSound
      (((λ e. ground arith), omega arith), (((λ e. ground arith), omega arith), tt))

tinit_target_stop-IsWindingDown_example :
    Returns (λ r. Serviced booting r.1 × IsWindingDown r.0 r.1) (tinit_target_stop easy booting)
tinit_target_stop-IsWindingDown_example =
    tinit_target_stop-IsWindingDown easy booting booting-IsSound

-- "web" has stopped, and "net" is running its stop command.
abbrev halting : World
halting = two stopping (pos 103) stopped

halting-IsWindingDown : IsWindingDown 1 halting
unfolding moving
halting-IsWindingDown = record {
  sound = two-IsSound stopping (pos 103) stopped (λ e. absurd (ground arith));
  are_off = λ id m. ground arith;
  covered = omega arith;
}

tinit_sigchan_dispatch_stopping-Drained_example : Returns Drained (
    tinit_sigchan_dispatch_stopping easy
      (sigchld (record { pid = 103; code = cld_exited; status = 0 } ∷ []) ∷ [])
      1
      halting)
tinit_sigchan_dispatch_stopping-Drained_example =
    tinit_sigchan_dispatch_stopping-Drained easy
      (sigchld (record { pid = 103; code = cld_exited; status = 0 } ∷ []) ∷ []) 1 halting
      halting-IsWindingDown (λ e. ground arith) ((((λ e. ground arith), omega arith), tt), tt)
