-- ===== src/Svc/Exec.antt =====
-- svc.c, svc_exec(): the child's side of a fork, up to execve(2).
pub mod Redirected
use einit.Prelude.{
  ℕ, zero, suc, ◌+◌, Bool, true, false, not, ◌&&◌, ◌||◌, Option, none, some, List, [], ◌∷◌, Result,
  ok, err, assertion, ◌>>=◌, leb, ◌==◌, if◌then◌else◌,
}
use einit.Conf.{CStr, StrArr, ConfSvc}
use einit.Conf.Settings.{path_max}
use einit.Conf.Load.Fields.{dev_prefix}
use einit.Common.Strings.{strnlen, has_prefix}
use einit.Init.{Opened, Stated, Stat, Called, gives, refuses, sys_open_stdio, sys_fstat, sys_dup2}

-- What a standard descriptor refers to: what it did in the daemon, or a path.
pub data Target : Type 0 where
  inherited : Target
  at_path : CStr → Target

pub record Descriptors : Type 0 where
  pub stdin : Target
  pub stdout : Target
  pub stderr : Target

abbrev pub inherit_all : Descriptors
inherit_all = record { stdin = inherited; stdout = inherited; stderr = inherited }

-- The answers of open(2), fstat(2), dup2(2) and execve(2); setsid(2) gives the process's own PID, or
-- not.
pub record ExecEnv : Type 0 where
  pub is_leader : Bool
  pub stdin_open : Opened
  pub stdin_stat : Stated
  pub stdout_open : Opened
  pub stderr_dup : ℕ
  pub exec_errno : ℕ

-- The program runs, with its arguments, environment and descriptors and with all signals unblocked, or
-- the child exits with a status.
pub data ExecEnd : Type 0 where
  runs : StrArr → Option StrArr → Descriptors → ExecEnd
  exits : ℕ → ExecEnd

-- EBADF, ENOTTY and EX_OSERR
abbrev ebadf : ℕ
ebadf = 9

abbrev enotty : ℕ
enotty = 25

abbrev pub ex_oserr : ℕ
ex_oserr = 71

-- the assertions on a path
abbrev pub path_asserts : CStr → Bool
path_asserts path = (strnlen path path_max == 0) || leb path_max (strnlen path path_max)

-- Errors are positive errno values here; 0 is success.
stdin_stat : Called Stat → ℕ
stdin_stat (refuses e) = e
stdin_stat (gives stat) = if stat.is_chr then 0 else enotty

module _ (env : ExecEnv) where
  stdin_opened : Called ℕ → Result ℕ
  stdin_opened (refuses e) = ok e
  stdin_opened (gives fd) =
      let checked = sys_fstat env.stdin_stat >>= λ stat. ok (stdin_stat stat) in
      if fd == 0 then checked else ok ebadf

  unfoldable pub svc_reopen_stdin : CStr → Result ℕ
  unfolding stdin_opened stdin_stat
  svc_reopen_stdin path =
      let run = sys_open_stdio env.stdin_open >>= λ fd. stdin_opened fd in
      if path_asserts path || not (has_prefix dev_prefix path) then err assertion else run

  stdout_opened : Called ℕ → ℕ
  stdout_opened (refuses e) = e
  stdout_opened (gives fd) = if fd == 1 then 0 else ebadf

  unfoldable pub svc_reopen_stdout : CStr → Result ℕ
  unfolding stdout_opened
  svc_reopen_stdout path =
      let run = sys_open_stdio env.stdout_open >>= λ fd. ok (stdout_opened fd) in
      if path_asserts path then err assertion else run

  -- `if (conf->stdin)`: the descriptors, or `none` to exit
  unfoldable pub redirect_stdin : Option CStr → Descriptors → Result (Option Descriptors)
  redirect_stdin none fds = ok (some fds)
  redirect_stdin (some path) fds = svc_reopen_stdin path >>= λ e.
      ok (if e == 0 then some (record fds { stdin = at_path path }) else none)

  -- `if (conf->stdout)`
  unfoldable pub redirect_stdout : Option CStr → Descriptors → Result (Option Descriptors)
  redirect_stdout none fds = ok (some fds)
  redirect_stdout (some path) fds = svc_reopen_stdout path >>= λ e.
      let dup = sys_dup2 env.stderr_dup >>= λ e'. ok (
        if e' == 0
        then some (record fds { stdout = at_path path; stderr = at_path path })
        else none) in
      if e == 0 then dup else ok none

  -- EFAULT and ENAMETOOLONG are excluded; with 0 the call does not return.
  unfoldable pub exec_program : StrArr → Option StrArr → Option Descriptors → Result ExecEnd
  exec_program args environ none = ok (exits ex_oserr)
  exec_program args environ (some fds) =
      if env.exec_errno == 0
      then ok (runs args environ fds)
      else if (env.exec_errno == 14) || (env.exec_errno == 36)
      then err assertion
      else ok (exits ex_oserr)

  redirect_both : ConfSvc → Option Descriptors → Result (Option Descriptors)
  redirect_both conf none = ok none
  redirect_both conf (some fds) = redirect_stdout conf.stdout fds

  unfoldable pub svc_exec : ConfSvc → StrArr → Result ExecEnd
  unfolding redirect_both
  svc_exec conf [] = err assertion
  svc_exec conf (arg ∷ args) =
      let run = redirect_stdin conf.stdin inherit_all >>= λ o.
      redirect_both conf o >>= λ o'. exec_program (arg ∷ args) conf.env o' in
      if env.is_leader then run else err assertion
