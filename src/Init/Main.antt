-- ===== src/Init/Main.antt =====
-- init.c: main(), from the command line to reboot(2). Logging, the signal masks, umask(2) and the killing
-- of what is left of the processes have no result that the program looks at.
pub mod Ends
use einit.Prelude.{
  ℕ, zero, suc, Bool, true, false, ◌||◌, Option, none, some, List, [], ◌∷◌, Result, ok, err,
  assertion, ◌>>=◌, ◌==◌, if◌then◌else◌, ℤ, pos, negsuc, neg, is_neg, is_zero,
}
use einit.Conf.{CStr}
use einit.Sys.{Sys}
use einit.World.{Svc, Env, World}
use einit.Mnt.{MntCall, MntEnv, MntTab, TypesFile, mnt_umount_all}
use einit.Mnt.Mount.{BootCall, BootConf, mnt_mount_all}
use einit.Repo.Load.{tinit_repo_load}
use einit.Conf.Load.{LibConfig}
use einit.Conf.Load.Root.{ReadFile}
use einit.Proto.Reply.{Buff}
use einit.Srv.Queue.{Buffq}
use einit.Srv.Transport.{Server}
use einit.Init.{StdioEnv, init_stdios, init_environ}
use einit.Init.Args.{Settled, before_args, tinit_parse_cmdln}
use einit.Init.Loop.{
  PollEvent, to_int, rb_autoboot, rb_halt_system, rb_power_off, LoopEnv, LoopEnd, waits, returns,
  tinit_loop,
}

-- What becomes of the process or of the machine: main() returns, waits for more events in the loop, or
-- calls reboot(2).
pub data MachineEnd : Type 0 where
  exits : MachineEnd
  waiting : MachineEnd
  reboots : ℤ → MachineEnd

abbrev pub int_eq : ℤ → ℤ → Bool
int_eq (pos m) (pos n) = m == n
int_eq (negsuc m) (negsuc n) = m == n
int_eq _ _ = false

-- the cases of the `switch` in tinit_shutdown()
unfoldable pub is_howto : ℤ → Bool
is_howto howto =
    int_eq howto (to_int rb_autoboot)
    || int_eq howto (to_int rb_halt_system)
    || int_eq howto (to_int rb_power_off)

-- The mount table and the types that mnt_umount_all() finds, with the answers of the system.
pub record UmountEnv : Type 0 where
  pub env : MntEnv
  pub tab : MntTab
  pub file : TypesFile

-- MNT_FORCE
abbrev pub mnt_force : ℕ
mnt_force = 1

module _ (down : UmountEnv) where
  unfoldable pub tinit_shutdown : ℤ → Result MachineEnd
  tinit_shutdown howto = mnt_umount_all down.env mnt_force down.tab down.file [] >>= λ r.
      if is_howto howto then ok (reboots howto) else err assertion

  -- main() from the labels `clear` and `err` on
  unfoldable pub main_err : Result MachineEnd
  main_err = tinit_shutdown (to_int rb_autoboot)

  -- main() behind tinit_loop()
  unfoldable pub main_end : LoopEnd → Result MachineEnd
  main_end waits = ok waiting
  main_end (returns ret) = let stop = main_err in if is_neg ret then stop else tinit_shutdown ret

-- What the start of the daemon meets: its PID and arguments, the errno of chdir(2) and of clearenv(3),
-- and the answers of the system.
pub record StartEnv : Type 0 where
  pub pid : ℕ
  pub args : List CStr
  pub chdir_errno : ℕ
  pub errno_of : BootCall → List BootCall → ℕ
  pub conf : BootConf
  pub gid : ℕ
  pub stdio : StdioEnv
  pub clearenv_errno : ℕ
  pub environ_path : CStr
  pub environ_term : CStr
  pub environ : List CStr

-- The start up to tinit_repo_load(): an error, or what was set.
pub data Start : Type 0 where
  start_fails : Start
  started : Settled → List CStr → Start

module _ (ustr_match_token : CStr → ℕ → CStr → ℕ → Bool) (ustr_parse : CStr → ℕ → ℤ)
    (start : StartEnv) where
  stdio_of : Settled → ℕ × List CStr → Start
  stdio_of s (zero, environ) = started s environ
  stdio_of s (suc e, environ) = start_fails

  unfoldable pub main_start : Result Start
  unfolding stdio_of
  main_start = tinit_parse_cmdln ustr_match_token ustr_parse start.args before_args >>= λ s.
      let mounted = mnt_mount_all start.errno_of start.conf start.gid [] >>= λ (e, log).
      let set_up = init_stdios start.stdio >>= λ e'.
      let environ =
        init_environ start.clearenv_errno start.environ_path start.environ_term start.environ in
      ok (if e' == 0 then stdio_of s environ else start_fails) in
      if e == 0 then set_up else ok start_fails in
      if start.chdir_errno == 0 then mounted else ok start_fails

module _ {S Q : Type 0} (sys : Sys) (lib : LibConfig S) (basename : CStr → CStr)
    (read_file : CStr → ReadFile S) (junk : Svc) (ops : Buffq Q) (env : Env) (tinit_gid : ℕ)
    (send_errno : List (Buff × ℕ) → ℕ) (loop_env : LoopEnv) (events : List PollEvent)
    (down : UmountEnv) where
  -- main() from the loading of the repository on; `srv` is the memory at that time.
  unfoldable pub main_run : Start → Server Q → Result MachineEnd
  main_run start_fails srv = main_err down
  main_run (started s environ) srv =
      tinit_repo_load sys lib basename read_file junk srv.world >>= λ (ret, w).
      let loop =
        tinit_loop ops sys env tinit_gid send_errno loop_env s.boot_target events
          (record srv { world = w })
        >>= λ (e, v). main_end down e in
      if is_zero ret then loop else main_err down

  unfoldable pub main :
      (CStr → ℕ → CStr → ℕ → Bool) → (CStr → ℕ → ℤ) → StartEnv → Server Q → Result MachineEnd
  main ustr_match_token ustr_parse start srv =
      let run = main_start ustr_match_token ustr_parse start >>= λ s. main_run s srv in
      if start.pid == 1 then run else ok exits
