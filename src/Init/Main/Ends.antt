-- ===== src/Init/Main/Ends.antt =====
-- What becomes of the machine: how the start goes, and how a request to shut down ends.
use einit.Prelude.{
  ℕ, zero, suc, ◌<◌, length, ◌≡◌, ◌≢◌, ◌⊎◌, refl, inl, inr, Bool, true, false, ◌||◌, List, [], All,
  In, Result, ok, ◌>>=◌, Returns, Returns-bind, Returns-ok, Bool-cases, ℤ, pos, arith, ◌==◌,
  if◌then◌else◌,
}
use einit.Conf.{CStr}
use einit.Sys.{Sys}
use einit.World.{Env, World, off}
use einit.Svc.Evolve.{IsSound, side_of}
use einit.Mnt.{mnt_umount_all}
use einit.Mnt.Mount.{BootCall, boot_asserts, mnt_mount_all, mnt_mount_all-returns}
use einit.Sigchan.{is_shutdown_signo}
use einit.Target.{tinit_target_stop}
use einit.Target.Shutdown.{tinit_target_stop-IsWindingDown}
use einit.Proto.Reply.{Buff}
use einit.Srv.Queue.{Buffq}
use einit.Init.{IsExpected, init_stdios, init_stdios-returns, init_environ}
use einit.Init.Args.{tinit_arg_max, Settled, before_args, tinit_parse_cmdln}
use einit.Init.Args.Checked.{IsArg, IsNamed, tinit_parse_cmdln-IsNamed}
use einit.Common.Names.{check_answer, probe_answer, is_alnum, is_name_char}
use einit.Init.Loop.{
  PollEvent, to_int, rb_autoboot, rb_power_off, loop_howto, waits, returns, poll_stopping,
  loop_stop,
}
use einit.Init.Loop.Started.{IsEvent}
use einit.Init.Loop.Stopping.{AllStopped, Wound, poll_stopping-Wound}
use einit.Init.Main.{
  MachineEnd, waiting, reboots, is_howto, UmountEnv, mnt_force, tinit_shutdown, main_err, main_end,
  StartEnv, Start, start_fails, started, stdio_of, main_start,
}

-- How the machine ends after each signal: SIGUSR2 and SIGPWR power it off, and the others reboot it.
abbrev pub end_of : ℕ → ℕ
end_of signo = if (signo == 12) || (signo == 30) then rb_power_off else rb_autoboot

module _ (down : UmountEnv)
    (unmounts : Returns (λ r. Unit) (mnt_umount_all down.env mnt_force down.tab down.file [])) where
  shutdown-reboots :
      (howto : ℤ)
      → is_howto howto ≡ true
      → Returns (λ o. o ≡ reboots howto) (tinit_shutdown down howto)
  unfolding tinit_shutdown
  shutdown-reboots howto h =
      Returns-bind (λ o. o ≡ reboots howto)
        (mnt_umount_all down.env mnt_force down.tab down.file []) _ unmounts (λ r u. rw h refl)

  IsLast : ℕ → ℤ → Type 0
  IsLast signo ret = Returns (λ o. o ≡ reboots (pos (end_of signo))) (main_end down (returns ret))

  reboots_auto :
      (n : ℕ)
      → n ≡ rb_autoboot
      → Returns (λ o. o ≡ reboots (pos n)) (tinit_shutdown down (pos rb_autoboot))
  unfolding is_howto to_int
  reboots_auto n e = rw e (shutdown-reboots (pos rb_autoboot) refl)

  powers_off :
      (n : ℕ)
      → n ≡ rb_power_off
      → Returns (λ o. o ≡ reboots (pos n)) (tinit_shutdown down (pos rb_power_off))
  unfolding is_howto to_int
  powers_off n e = rw e (shutdown-reboots (pos rb_power_off) refl)

  -- RB_HALT_SYSTEM is a negative `int`, which main() takes for an error.
  loop_howto-IsLast :
      (signo : ℕ) → is_shutdown_signo signo ≡ true → Returns (IsLast signo) (loop_howto signo)
  unfolding loop_howto IsLast main_end main_err to_int
  loop_howto-IsLast signo h = elim (Bool-cases ((signo == 12) || (signo == 30))) [
    | inl power ↦
        (let a : (signo == 15) ≡ false = ground arith in
          let b : (signo == 10) ≡ false = ground arith in
          rw (a, b, power) (powers_off (end_of signo) (rw power refl)))
    | inr not_off ↦ elim (Bool-cases (signo == 15)) [
      | inl term ↦ rw term (reboots_auto (end_of signo) (rw not_off refl))
      | inr other ↦
          (let b : (signo == 10) ≡ true = ground arith in
            rw (other, b) (reboots_auto (end_of signo) (rw not_off refl)))
    ]
  ]

  -- The daemon waits for its services to stop, or all have stopped and the machine ends.
  pub IsDown : ℕ → MachineEnd × World → Type 0
  IsDown signo (o, v) =
      IsSound v
      × ((id : ℕ) → In id v.repo → side_of (v.svc id).state ≡ off)
      × ((o ≡ waiting) ⊎ ((o ≡ reboots (pos (end_of signo))) × AllStopped v))

  module _ {Q : Type 0} (ops : Buffq Q) (sys : Sys) (env : Env) (tinit_gid : ℕ)
      (send_errno : List (Buff × ℕ) → ℕ) where
    ended-IsDown :
        (signo : ℕ) (ret : ℤ) (w : World) (r : Bool × World)
        → IsLast signo ret
        → Wound w r
        → Returns
            (IsDown signo)
            (main_end down (if r.0 then returns ret else waits) >>= λ o. ok (o, r.1))
    unfolding IsLast IsDown main_end
    ended-IsDown signo ret w (false, v) l h = (h.sound, h.are_off, inl refl)
    ended-IsDown signo ret w (true, v) l h =
        Returns-bind (IsDown signo) (main_end down (returns ret)) _ l
          (λ o e. (h.sound, h.are_off, inr (e, h.stops refl)))

    -- A request to shut down in a sound world, with one of the four signals, where the unmounting returns
    -- and the count of what has to stop is not 0. Whatever signals and timers come then, no assertion
    -- fails, the world stays sound and every service is switched off. Either main() still waits for
    -- events, or all services have stopped and the machine is powered off after SIGUSR2 and SIGPWR and
    -- rebooted after SIGTERM, and also after SIGUSR1, which asks for a halt.
    pub loop_stop-IsDown :
        (signo : ℕ) (events : List PollEvent) (w : World)
        → is_shutdown_signo signo ≡ true
        → IsSound w
        → All (IsEvent w.repo) events
        → ((s : ℕ × World) → tinit_target_stop env w ≡ ok s → s.0 ≢ 0)
        → Returns (IsDown signo) (
            loop_stop ops sys env tinit_gid send_errno signo events w >>= λ (e, v).
            main_end down e >>= λ o. ok (o, v))
    unfolding loop_stop
    loop_stop-IsDown signo events w h s x count =
        let (ret, e, l) = Returns-ok (loop_howto signo) (loop_howto-IsLast signo h) in
        let ((cnt, v), f, (k, winds)) =
          Returns-ok (tinit_target_stop env w) (tinit_target_stop-IsWindingDown env w s) in
        let (r, g, wound) =
          Returns-ok (poll_stopping ops sys env tinit_gid send_errno events (cnt, v)) (
            poll_stopping-Wound ops sys env tinit_gid send_errno events cnt v winds
              (count (cnt, v) f) (rw k.repo x)) in
        rw (e, f, g) (ended-IsDown signo ret v r l wound)

-- A start that did not fail has a boot target whose name passes the check.
pub IsStarted : Start → Type 0
IsStarted start_fails = Unit
IsStarted (started s environ) = IsNamed s

current-IsNamed : IsNamed before_args
unfolding check_answer probe_answer is_alnum is_name_char
current-IsNamed = refl

module _ (ustr_match_token : CStr → ℕ → CStr → ℕ → Bool) (ustr_parse : CStr → ℕ → ℤ)
    (measures : (s : CStr)
      → 0 < length s
      → length s < tinit_arg_max
      → ustr_parse s tinit_arg_max ≡ pos (length s))
    (start : StartEnv) where
  stdio_of-IsStarted :
      (s : Settled) (e : ℕ × List CStr)
      → IsNamed s
      → IsStarted (stdio_of ustr_match_token ustr_parse start s e)
  unfolding stdio_of IsStarted
  stdio_of-IsStarted s (zero, environ) n = n
  stdio_of-IsStarted s (suc e, environ) n = tt

  -- Where every argument has a byte, and one behind its first '=', and the system gives none of the errors
  -- that the source rules out: the start fails at no assertion, and if it does not fail the boot target
  -- passes the check of names, whatever the arguments are.
  pub main_start-IsStarted :
      All IsArg start.args
      → ((call : BootCall) (log : List BootCall)
          → boot_asserts call (start.errno_of call log) ≡ false)
      → IsExpected start.stdio
      → Returns IsStarted (main_start ustr_match_token ustr_parse start)
  unfolding main_start IsStarted
  main_start-IsStarted args mounts stdio =
      Returns-bind {P = IsNamed} IsStarted
        (tinit_parse_cmdln ustr_match_token ustr_parse start.args before_args) _
        (tinit_parse_cmdln-IsNamed ustr_match_token ustr_parse measures start.args before_args args
          current-IsNamed)
        (λ s n. in_root (start.chdir_errno == 0) _ (
          Returns-bind {P = λ r. Unit} IsStarted
            (mnt_mount_all start.errno_of start.conf start.gid []) _
            (mnt_mount_all-returns start.errno_of start.conf start.gid mounts [])
            (λ (e, log) u. in_root (e == 0) _ (
              Returns-bind {P = λ r. Unit} IsStarted (init_stdios start.stdio) _
                (init_stdios-returns start.stdio stdio) (λ e' u'. with_stdios (e' == 0) s n)))))
    where
      in_root :
          (b : Bool) (run : Result Start)
          → Returns IsStarted run
          → Returns IsStarted (if b then run else ok start_fails)
      in_root true run h = h
      in_root false run h = tt

      with_stdios :
          (b : Bool) (s : Settled)
          → IsNamed s
          → IsStarted (
              if b
              then stdio_of ustr_match_token ustr_parse start s (
                  init_environ start.clearenv_errno start.environ_path start.environ_term
                    start.environ)
              else start_fails)
      with_stdios true s n = stdio_of-IsStarted s _ n
      with_stdios false s n = tt
