-- ===== src/Init.antt =====
-- init.c: the start of the daemon. The calls of sys.c and the set-up of the standard descriptors and of
-- the environment.
pub mod Args
pub mod Loop
pub mod Main
use einit.Prelude.{
  ℕ, zero, suc, ◌+◌, ◌*◌, ◌%◌, Bool, true, false, not, ◌||◌, ◌&&◌, List, [], ◌∷◌, Result, ok, err,
  assertion, ◌>>=◌, ◌==◌, if◌then◌else◌, ◌≡◌, ◌++◌, refl, Returns, Returns-bind, Bool-cases, inl,
  inr,
}
use einit.Conf.{CStr}

-- The fields of `struct stat` that are read; `mode` holds the bits of S_IRWXU | S_IRWXG | S_IRWXO.
pub record Stat : Type 0 where
  pub is_chr : Bool
  pub mode : ℕ
  pub uid : ℕ
  pub gid : ℕ

-- open(2) and fstat(2): what they give, or an errno
pub data Opened : Type 0 where
  opened_fd : ℕ → Opened
  open_fails : ℕ → Opened

pub data Stated : Type 0 where
  has_stat : Stat → Stated
  stat_fails : ℕ → Stated

-- EFAULT, EINVAL, ENAMETOOLONG, ENOSPC, EOPNOTSUPP, EROFS, ETXTBSY and EWOULDBLOCK
abbrev pub open_asserts : ℕ → Bool
open_asserts e =
    (e == 14)
    || (e == 22)
    || (e == 36)
    || (e == 28)
    || (e == 95)
    || (e == 30)
    || (e == 26)
    || (e == 11)

-- EBADF, EFAULT, ELOOP, ENAMETOOLONG and ENOENT
abbrev pub fstat_asserts : ℕ → Bool
fstat_asserts e = (e == 9) || (e == 14) || (e == 40) || (e == 36) || (e == 2)

-- EBADF and EINVAL
abbrev pub dup2_asserts : ℕ → Bool
dup2_asserts e = (e == 9) || (e == 22)

-- What a call gives, or the errno that it is refused with.
pub data Called (A : Type 0) : Type 0 where
  gives : A → Called A
  refuses : ℕ → Called A

unfoldable pub sys_open_stdio : Opened → Result (Called ℕ)
sys_open_stdio (opened_fd fd) = ok (gives fd)
sys_open_stdio (open_fails e) = if open_asserts e then err assertion else ok (refuses e)

unfoldable pub sys_fstat : Stated → Result (Called Stat)
sys_fstat (has_stat stat) = ok (gives stat)
sys_fstat (stat_fails e) = if fstat_asserts e then err assertion else ok (refuses e)

-- The errno of dup2(2), or 0.
unfoldable pub sys_dup2 : ℕ → Result ℕ
sys_dup2 e = if dup2_asserts e then err assertion else ok e

-- EPERM
abbrev eperm : ℕ
eperm = 1

-- The answers to open(2), fstat(2) and dup2(2) for "/dev/null" and "/dev/console".
pub record StdioEnv : Type 0 where
  pub null_open : Opened
  pub null_stat : Stated
  pub console_open : Opened
  pub console_stat : Stated
  pub stdin_dup : ℕ
  pub stdout_dup : ℕ
  pub stderr_dup : ℕ

-- a character device of the superuser with the very permissions
unfoldable pub is_terminal : ℕ → Stat → Bool
is_terminal mode stat = stat.is_chr && (stat.mode == mode) && (stat.uid == 0) && (stat.gid == 0)

-- An error is returned as its positive number, here and below; 0 is success.
unfoldable pub check_terminal : ℕ → Called Stat → ℕ
check_terminal mode (refuses e) = e
check_terminal mode (gives stat) = if is_terminal mode stat then 0 else eperm

-- opening one of the two, with its checks
unfoldable pub open_terminal : ℕ → Opened → Stated → Result ℕ
open_terminal mode opened stated = sys_open_stdio opened >>= λ fd. checked fd
  where
    checked : Called ℕ → Result ℕ
    checked (refuses e) = ok e
    checked (gives fd) = sys_fstat stated >>= λ stat. ok (check_terminal mode stat)

abbrev pub if_zero : ℕ → Result ℕ → Result ℕ
if_zero zero next = next
if_zero (suc e) next = ok (suc e)

-- 0666 and 0600. What follows, dropping the controlling terminal and closing what is left open, has no
-- result.
unfoldable pub init_stdios : StdioEnv → Result ℕ
init_stdios env = open_terminal 438 env.null_open env.null_stat >>= λ e0. if_zero e0 (
    open_terminal 384 env.console_open env.console_stat >>= λ e1. if_zero e1 (
      sys_dup2 env.stdin_dup >>= λ e2.
      if_zero e2 (sys_dup2 env.stdout_dup >>= λ e3. if_zero e3 (sys_dup2 env.stderr_dup))))

-- "HOME=/", "PATH=" and "TERM="
abbrev home_env : CStr
home_env = b'H' ∷ b'O' ∷ b'M' ∷ b'E' ∷ b'=' ∷ b'/' ∷ []

abbrev path_env : CStr
path_env = b'P' ∷ b'A' ∷ b'T' ∷ b'H' ∷ b'=' ∷ []

abbrev term_env : CStr
term_env = b'T' ∷ b'E' ∷ b'R' ∷ b'M' ∷ b'=' ∷ []

-- The result, and the environment, which is as before if clearenv(3) fails. The configured path and
-- terminal are `path` and `term`; putenv(3) does not fail.
unfoldable pub init_environ : ℕ → CStr → CStr → List CStr → ℕ × List CStr
init_environ zero path term environ = (0, home_env ∷ (path_env ++ path) ∷ (term_env ++ term) ∷ [])
init_environ (suc e) path term environ = (suc e, environ)

-- The system's answers are none of those that the source rules out by assertions.
abbrev pub OpensWell : Opened → Type 0
OpensWell (opened_fd fd) = Unit
OpensWell (open_fails e) = open_asserts e ≡ false

abbrev pub StatsWell : Stated → Type 0
StatsWell (has_stat stat) = Unit
StatsWell (stat_fails e) = fstat_asserts e ≡ false

pub record IsExpected (env : StdioEnv) : Type 0 where
  pub null_open : OpensWell env.null_open
  pub null_stat : StatsWell env.null_stat
  pub console_open : OpensWell env.console_open
  pub console_stat : StatsWell env.console_stat
  pub stdin_dup : dup2_asserts env.stdin_dup ≡ false
  pub stdout_dup : dup2_asserts env.stdout_dup ≡ false
  pub stderr_dup : dup2_asserts env.stderr_dup ≡ false

open_terminal-returns :
    (mode : ℕ) (opened : Opened) (stated : Stated)
    → OpensWell opened
    → StatsWell stated
    → Returns (λ e. Unit) (open_terminal mode opened stated)
unfolding open_terminal sys_open_stdio sys_fstat
open_terminal-returns mode (open_fails e) stated h k = rw h tt
open_terminal-returns mode (opened_fd fd) (has_stat stat) h k = tt
open_terminal-returns mode (opened_fd fd) (stat_fails e) h k = rw k tt

dup2-returns : (e : ℕ) → dup2_asserts e ≡ false → Returns (λ e. Unit) (sys_dup2 e)
unfolding sys_dup2
dup2-returns e h = rw h tt

if_zero-returns :
    (run next : Result ℕ)
    → Returns (λ e. Unit) run
    → Returns (λ e. Unit) next
    → Returns (λ e. Unit) (run >>= λ e. if_zero e next)
if_zero-returns (ok zero) next h k = k
if_zero-returns (ok (suc e)) next h k = tt
if_zero-returns (err f) next h k = h

-- Setting up the standard descriptors fails at no assertion, where the system gives none of the errors
-- that the source rules out.
pub init_stdios-returns : (env : StdioEnv) → IsExpected env → Returns (λ e. Unit) (init_stdios env)
unfolding init_stdios
init_stdios-returns env h =
    if_zero-returns _ _
      (open_terminal-returns 438 env.null_open env.null_stat h.null_open h.null_stat)
      (if_zero-returns _ _
        (open_terminal-returns 384 env.console_open env.console_stat h.console_open h.console_stat)
        (if_zero-returns _ _ (dup2-returns env.stdin_dup h.stdin_dup) (
          if_zero-returns _ _ (dup2-returns env.stdout_dup h.stdout_dup)
            (dup2-returns env.stderr_dup h.stderr_dup))))
