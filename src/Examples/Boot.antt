-- ===== src/Examples/Boot.antt =====
-- The daemon at the two services, from its command line to the end of the machine.
use einit.Prelude.{
  ℕ, ◌≡◌, ◌≢◌, refl, ap, inl, inr, true, List, [], ◌∷◌, All, Result, ok, err, ◌>>=◌, Returns, pos,
  arith,
}
use einit.World.{stopping, stopped, World}
use einit.Svc.Evolve.{IsSound}
use einit.Mnt.{no_tab, no_types, mnt_umount_all, umount_tab}
use einit.Sigchan.{cld_exited, sigchld, shutdown_request}
use einit.Sigchan.Noted.{IsSignal}
use einit.Target.{stop_one, stop_loop, tinit_target_stop}
use einit.Init.Loop.{PollEvent, sigs_ready, timer_expires, srv_ready, poll_started, loop_stop}
use einit.Init.Loop.Started.{IsEvent, Polled, poll_started-Polled}
use einit.Init.Main.{UmountEnv, mnt_force, main_end}
use einit.Init.Main.Ends.{IsDown, loop_stop-IsDown}
use einit.Examples.Worlds.{two, two-IsSound, easy}
use einit.Examples.Control.{sample, serving}
use einit.Examples.Dispatch.{
  two_lists, two_lists-IsBuffq, arriving, waiting_server, input_ready, arriving-IsExpected,
  waiting-IsServing,
}

-- Requests, the end of the process of "net", the timer of "web", and SIGUSR2.
abbrev some_events : List PollEvent
some_events =
    srv_ready input_ready arriving
    ∷ sigs_ready (sigchld (record { pid = 100; code = cld_exited; status = 0 } ∷ []) ∷ [])
    ∷ timer_expires 1
    ∷ sigs_ready (shutdown_request 12 true ∷ [])
    ∷ []

some_events-IsEvent : All (IsEvent serving.repo) some_events
unfolding IsEvent IsSignal
some_events-IsEvent = (
  (refl, arriving-IsExpected),
  (((((λ e. absurd (ground arith)), omega arith), tt), tt), (inr (inl refl), ((refl, tt), tt))),
)

poll_started-Polled_example :
    Returns
      (Polled two_lists waiting_server)
      (poll_started two_lists sample easy 100 (λ sends. 0) true some_events waiting_server)
poll_started-Polled_example =
    poll_started-Polled two_lists two_lists-IsBuffq sample (λ n. omega arith) easy 100 (λ sends. 0)
      (λ sends. refl) true some_events waiting_server waiting-IsServing some_events-IsEvent

-- "net" is stopping and "web" is stopped.
abbrev leaving : World
leaving = two stopping (pos 100) stopped

leaving-IsSound : IsSound leaving
leaving-IsSound = two-IsSound stopping (pos 100) stopped (λ e. absurd (ground arith))

abbrev no_table : UmountEnv
no_table = record {
  env = record { umount_errno = λ log. 0; remount_errno = λ log. 0 };
  tab = no_tab 2;
  file = no_types;
}

no_table-unmounts :
    Returns (λ r. Unit) (mnt_umount_all no_table.env mnt_force no_table.tab no_table.file [])
unfolding mnt_umount_all umount_tab
no_table-unmounts = tt

counted : Result (ℕ × World) → ℕ
counted (ok s) = s.0
counted (err e) = 0

leaving_count : (s : ℕ × World) → tinit_target_stop easy leaving ≡ ok s → s.0 ≢ 0
unfolding tinit_target_stop stop_loop stop_one counted
leaving_count s e = let h : 1 ≡ s.0 = ap counted e in ground arith

-- the exit of the process of "net"
abbrev last_exit : List PollEvent
last_exit =
    sigs_ready (sigchld (record { pid = 100; code = cld_exited; status = 0 } ∷ []) ∷ []) ∷ []

last_exit-IsEvent : All (IsEvent leaving.repo) last_exit
unfolding IsEvent IsSignal
last_exit-IsEvent = (((((λ e. absurd (ground arith)), omega arith), tt), tt), tt)

loop_stop-IsDown_example : Returns (IsDown no_table no_table-unmounts 12) (
    loop_stop two_lists sample easy 100 (λ sends. 0) 12 last_exit leaving >>= λ (e, v).
    main_end no_table e >>= λ o. ok (o, v))
loop_stop-IsDown_example =
    loop_stop-IsDown no_table no_table-unmounts two_lists sample easy 100 (λ sends. 0) 12 last_exit
      leaving refl leaving-IsSound last_exit-IsEvent leaving_count
