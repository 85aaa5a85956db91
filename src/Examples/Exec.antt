-- ===== src/Examples/Exec.antt =====
-- The child that runs a command of "net", with a terminal and a log.
use einit.Prelude.{◌≡◌, refl, true, some, [], ◌∷◌, Returns, arith}
use einit.Conf.{CStr, ConfSvc}
use einit.Conf.Settings.{is_path_char}
use einit.Common.Names.{is_alnum, is_alpha, is_digit}
use einit.Conf.Load.Valid.{IsPath}
use einit.Common.Strings.{has_prefix}
use einit.Init.{opened_fd, has_stat}
use einit.Svc.Exec.{ExecEnv, svc_exec}
use einit.Svc.Exec.Redirected.{IsExpected, IsRedirected, svc_exec-IsRedirected}
use einit.Examples.Worlds.{some_cmd, net_conf}

-- "/dev/t" and "/l"
abbrev terminal : CStr
terminal = b'/' ∷ b'd' ∷ b'e' ∷ b'v' ∷ b'/' ∷ b't' ∷ []

abbrev some_log : CStr
some_log = b'/' ∷ b'l' ∷ []

abbrev net_terminal : ConfSvc
net_terminal = record net_conf { stdin = some terminal; stdout = some some_log }

abbrev opens_both : ExecEnv
opens_both = record {
  is_leader = true;
  stdin_open = opened_fd 0;
  stdin_stat = has_stat (record { is_chr = true; mode = 384; uid = 0; gid = 0 });
  stdout_open = opened_fd 1;
  stderr_dup = 0;
  exec_errno = 0;
}

opens_both-IsExpected : IsExpected opens_both
opens_both-IsExpected = record {
  leads = refl;
  stdin_open = tt;
  stdin_stat = tt;
  stdout_open = tt;
  stderr_dup = refl;
  execs = refl;
}

terminal-IsPath : IsPath terminal
unfolding is_path_char is_alnum is_alpha is_digit
terminal-IsPath = record {
  nonempty = omega arith;
  fits = omega arith;
  chars = (refl, (refl, (refl, (refl, (refl, (refl, tt))))));
}

some_log-IsPath : IsPath some_log
unfolding is_path_char is_alnum is_alpha is_digit
some_log-IsPath = record { nonempty = omega arith; fits = omega arith; chars = (refl, (refl, tt)) }

terminal_prefix : has_prefix (b'/' ∷ b'd' ∷ b'e' ∷ b'v' ∷ b'/' ∷ []) terminal ≡ true
unfolding has_prefix
terminal_prefix = refl

svc_exec-IsRedirected_example :
    Returns (IsRedirected net_terminal (some_cmd 1)) (svc_exec opens_both net_terminal (some_cmd 1))
svc_exec-IsRedirected_example =
    svc_exec-IsRedirected opens_both opens_both-IsExpected net_terminal (some_cmd 1)
      (terminal-IsPath, terminal_prefix) some_log-IsPath (omega arith)
