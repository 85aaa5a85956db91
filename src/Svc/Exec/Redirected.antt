-- ===== src/Svc/Exec/Redirected.antt =====
-- A service's program runs with the descriptors that its configuration asks for, or not at all.
use einit.Prelude.{
  ℕ, ◌<◌, ◌≡◌, ◌⊎◌, refl, ◌∙◌, inl, inr, Bool, true, false, ◌||◌, Option, none, some, [], ◌∷◌,
  Result, err, assertion, Returns, Returns-bind, Bool-cases, ltb, ◌==◌, if◌then◌else◌, arith,
  length,
}
use einit.Conf.{CStr, StrArr, ConfSvc}
use einit.Conf.Settings.{path_max}
use einit.Conf.Load.Fields.{dev_prefix}
use einit.Conf.Load.Valid.{IsPath, OptAll}
use einit.Common.Strings.{strnlen, strnlen_lem, has_prefix}
use einit.Init.{
  Opened, opened_fd, open_fails, Stated, has_stat, stat_fails, Called, gives, refuses, OpensWell,
  StatsWell, dup2_asserts, sys_open_stdio, sys_fstat, sys_dup2,
}
use einit.Svc.Exec.{
  Target, inherited, at_path, Descriptors, inherit_all, ExecEnv, stdin_opened, ExecEnd, runs, exits,
  ex_oserr, path_asserts, svc_reopen_stdin, svc_reopen_stdout, redirect_stdin, redirect_stdout,
  exec_program, redirect_both, svc_exec,
}

-- What a descriptor refers to if a path is configured for it, or not.
abbrev pub asked_for : Option CStr → Target
asked_for none = inherited
asked_for (some path) = at_path path

-- The descriptors that the configuration asks for: the standard error goes where the output goes.
abbrev pub wanted : ConfSvc → Descriptors
wanted conf = record {
  stdin = asked_for conf.stdin;
  stdout = asked_for conf.stdout;
  stderr = asked_for conf.stdout;
}

-- The program runs as configured, or the child exits with EX_OSERR.
abbrev pub IsRedirected : ConfSvc → StrArr → ExecEnd → Type 0
IsRedirected conf args end = (end ≡ runs args conf.env (wanted conf)) ⊎ (end ≡ exits ex_oserr)

path-fits : (path : CStr) → IsPath path → path_asserts path ≡ false
path-fits path h =
    let short : ltb (length path) path_max ≡ true = (let q = h.fits in ground arith) in
    let e : strnlen path path_max ≡ length path = strnlen_lem path path_max ∙ rw short refl in
    (let a = h.nonempty in let b = h.fits in rw e (ground arith))

-- The system's answers are none of those that the source rules out by assertions.
pub record IsExpected (env : ExecEnv) : Type 0 where
  pub leads : env.is_leader ≡ true
  pub stdin_open : OpensWell env.stdin_open
  pub stdin_stat : StatsWell env.stdin_stat
  pub stdout_open : OpensWell env.stdout_open
  pub stderr_dup : dup2_asserts env.stderr_dup ≡ false
  pub execs : ((env.exec_errno == 14) || (env.exec_errno == 36)) ≡ false

sys_open_stdio-returns : (o : Opened) → OpensWell o → Returns (λ fd. Unit) (sys_open_stdio o)
unfolding sys_open_stdio
sys_open_stdio-returns (opened_fd fd) h = tt
sys_open_stdio-returns (open_fails e) h = rw h tt

sys_fstat-returns : (o : Stated) → StatsWell o → Returns (λ stat. Unit) (sys_fstat o)
unfolding sys_fstat
sys_fstat-returns (has_stat stat) h = tt
sys_fstat-returns (stat_fails e) h = rw h tt

-- The descriptors after a step, if the child does not exit.
abbrev Gives : Descriptors → Option Descriptors → Type 0
Gives fds o = (o ≡ some fds) ⊎ (o ≡ none)

kept_or_none : (b : Bool) (fds : Descriptors) → Gives fds (if b then some fds else none)
kept_or_none true fds = inl refl
kept_or_none false fds = inr refl

module _ (env : ExecEnv) (h : IsExpected env) where
  stdin_opened-returns : (r : Called ℕ) → Returns (λ e. Unit) (stdin_opened env r)
  unfolding stdin_opened
  stdin_opened-returns (refuses e) = tt
  stdin_opened-returns (gives fd) = elim (Bool-cases (fd == 0)) [
    | inl e ↦ rw e (
        Returns-bind (λ r. Unit) (sys_fstat env.stdin_stat) _
          (sys_fstat-returns env.stdin_stat h.stdin_stat) (λ stat u. tt))
    | inr e ↦ rw e tt
  ]

  reopen_stdin-returns :
      (path : CStr)
      → IsPath path
      → has_prefix dev_prefix path ≡ true
      → Returns (λ e. Unit) (svc_reopen_stdin env path)
  unfolding svc_reopen_stdin
  reopen_stdin-returns path p d =
      rw (path-fits path p, d)
        (Returns-bind (λ e. Unit) (sys_open_stdio env.stdin_open) _
          (sys_open_stdio-returns env.stdin_open h.stdin_open) (λ fd u. stdin_opened-returns fd))

  reopen_stdout-returns :
      (path : CStr) → IsPath path → Returns (λ e. Unit) (svc_reopen_stdout env path)
  unfolding svc_reopen_stdout
  reopen_stdout-returns path p = rw (path-fits path p) (
      Returns-bind (λ e. Unit) (sys_open_stdio env.stdout_open) _
        (sys_open_stdio-returns env.stdout_open h.stdout_open) (λ fd u. tt))

  redirect_stdin-Gives :
      (stdin : Option CStr)
      → OptAll (λ path. IsPath path × (has_prefix dev_prefix path ≡ true)) stdin
      → Returns
          (Gives (record inherit_all { stdin = asked_for stdin }))
          (redirect_stdin env stdin inherit_all)
  unfolding redirect_stdin
  redirect_stdin-Gives none p = inl refl
  redirect_stdin-Gives (some path) p =
      Returns-bind {P = λ e. Unit} (Gives (record inherit_all { stdin = at_path path }))
        (svc_reopen_stdin env path) _ (reopen_stdin-returns path p.0 p.1)
        (λ e u. kept_or_none (e == 0) (record inherit_all { stdin = at_path path }))

  redirect_stdout-Gives :
      (stdin : Target) (stdout : Option CStr)
      → OptAll IsPath stdout
      → Returns
          (Gives (record { stdin = stdin; stdout = asked_for stdout; stderr = asked_for stdout }))
          (redirect_stdout env stdout (record inherit_all { stdin = stdin }))
  unfolding redirect_stdout sys_dup2
  redirect_stdout-Gives stdin none p = inl refl
  redirect_stdout-Gives stdin (some path) p =
      let fds : Descriptors = record {
        stdin = stdin;
        stdout = at_path path;
        stderr = at_path path;
      } in
      Returns-bind {P = λ e. Unit} (Gives fds) (svc_reopen_stdout env path) _
        (reopen_stdout-returns path p)
        (λ e u. elim (Bool-cases (e == 0)) [
          | inl z ↦ rw (z, h.stderr_dup) (kept_or_none (env.stderr_dup == 0) fds)
          | inr z ↦ rw z (inr refl)
        ])

  exec_program-Ends :
      (args : StrArr) (environ : Option StrArr) (fds : Descriptors) (o : Option Descriptors)
      → Gives fds o
      → Returns
          (λ end. (end ≡ runs args environ fds) ⊎ (end ≡ exits ex_oserr))
          (exec_program env args environ o)
  unfolding exec_program
  exec_program-Ends args environ fds o (inr e) = rw e (inr refl)
  exec_program-Ends args environ fds o (inl e) = elim (Bool-cases (env.exec_errno == 0)) [
    | inl z ↦ rw (e, z) (inl refl)
    | inr z ↦ rw (e, z, h.execs) (inr refl)
  ]

  redirect_both-Gives :
      (conf : ConfSvc) (o : Option Descriptors)
      → OptAll IsPath conf.stdout
      → Gives (record inherit_all { stdin = asked_for conf.stdin }) o
      → Returns (Gives (wanted conf)) (redirect_both env conf o)
  unfolding redirect_both
  redirect_both-Gives conf o p (inr e) = rw e (inr refl)
  redirect_both-Gives conf o p (inl e) =
      rw e (redirect_stdout-Gives (asked_for conf.stdin) conf.stdout p)

  past_leader :
      (P : ExecEnd → Type 0) (b : Bool) (r : Result ExecEnd)
      → b ≡ true
      → Returns P r
      → Returns P (if b then r else err assertion)
  past_leader P b r e k = rw e k

  -- The child of a fork for a command, where the configured paths are such as the loaders accept and the
  -- system gives none of the errors that the source rules out: no assertion fails. Either the program
  -- runs, with the command's arguments and the configured environment, its standard input from the
  -- configured terminal and its output and errors to the configured path, or as in the daemon where
  -- none is configured; or the child exits with EX_OSERR.
  pub svc_exec-IsRedirected :
      (conf : ConfSvc) (args : StrArr)
      → OptAll (λ path. IsPath path × (has_prefix dev_prefix path ≡ true)) conf.stdin
      → OptAll IsPath conf.stdout
      → 0 < length args
      → Returns (IsRedirected conf args) (svc_exec env conf args)
  unfolding svc_exec
  svc_exec-IsRedirected conf [] p q n = absurd (omega arith)
  svc_exec-IsRedirected conf (arg ∷ args) p q n =
      past_leader (IsRedirected conf (arg ∷ args)) env.is_leader _ h.leads (
        Returns-bind (IsRedirected conf (arg ∷ args)) (redirect_stdin env conf.stdin inherit_all) _
          (redirect_stdin-Gives conf.stdin p)
          (λ o g.
            Returns-bind (IsRedirected conf (arg ∷ args)) (redirect_both env conf o) _
              (redirect_both-Gives conf o q g)
              (λ o' g'. exec_program-Ends (arg ∷ args) conf.env (wanted conf) o' g')))
