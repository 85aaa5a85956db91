-- ===== src/Sigchan.antt =====
-- sigchan.c: reaping children, and the signals that the daemon gets. The answers of waitid(2) up to
-- the one that tells that no child is left are a list, and so are the entries read from the signal
-- descriptor.
pub mod Reap
pub mod Drain
pub mod Noted
pub mod Open
use einit.Prelude.{
  ℕ, suc, ◌+◌, ◌-◌, Bool, true, false, ◌&&◌, ◌||◌, Option, none, some, List, [], ◌∷◌, Result, ok,
  err, assertion, ◌>>=◌, leb, ◌==◌, if◌then◌else◌, ℤ, pos, neg, not,
}
use einit.World.{SvcState, exit_evt, Env, World}
use einit.Svc.Spawn.{is_stopped}
use einit.Svc.Events.{svc_handle_evts}
use einit.Repo.{tinit_repo_search_bypid}

-- si_code; CLD_TRAPPED, CLD_STOPPED and CLD_CONTINUED are one case
pub data CldCode : Type 0 where
  cld_exited cld_killed cld_dumped cld_other : CldCode

-- the fields of `siginfo_t` that are read
pub record SigInfo : Type 0 where
  pub pid : ℕ
  pub code : CldCode
  pub status : ℕ

-- the `status` argument of the exit event, or a failed assertion
pub exit_status : CldCode → ℕ → Result ℤ
exit_status cld_exited status = ok (pos status)
exit_status cld_killed status = ok (neg status)
exit_status cld_dumped status = ok (neg status)
exit_status cld_other status = err assertion

module _ (env : Env) where
  -- the body of the loop behind the search: the event, and what it adds to `cnt`
  reap_svc : Option ℕ → SigInfo → World → Result (ℕ × World)
  unfolding exit_status
  reap_svc none info w = ok (0, w)
  reap_svc (some id) info w = exit_status info.code info.status >>= λ status.
      svc_handle_evts env id exit_evt status w >>= λ v.
      ok (if is_stopped (v.svc id).state then 1 else 0, v)

  unfoldable pub tinit_sigchan_handle_sigchld : ℕ → List SigInfo → World → Result (ℕ × World)
  unfolding reap_svc
  tinit_sigchan_handle_sigchld cnt [] w = ok (cnt, w)
  tinit_sigchan_handle_sigchld cnt (info ∷ infos) w =
      tinit_repo_search_bypid w info.pid >>= λ found.
      reap_svc found info w >>= λ r. tinit_sigchan_handle_sigchld (cnt + r.0) infos r.1

-- The signals that `tinit_sigchan_open` lets through, with what `ssi_code` says of the sender:
-- SI_USER or SI_QUEUE, or another. SIGCHLD comes with the children that waitid(2) reports then.
pub data SigEntry : Type 0 where
  sigchld : List SigInfo → SigEntry
  shutdown_request : (signo : ℕ) (from_user : Bool) → SigEntry
  other_signal : SigEntry

-- SIGUSR1, SIGUSR2, SIGTERM and SIGPWR of signal.h
abbrev pub is_shutdown_signo : ℕ → Bool
is_shutdown_signo signo = signo == 10 || signo == 12 || signo == 15 || signo == 30

is_sigchld : SigEntry → Bool
is_sigchld (sigchld infos) = true
is_sigchld _ = false

-- `chan->signo` and whether `-ESHUTDOWN` is returned, after each entry
pub record Started : Type 0 where
  pub signo : ℕ
  pub shutdown : Bool

module _ (env : Env) where
  note_signal : ℕ → Bool → Started → Started
  note_signal signo from_user c =
      if from_user && c.signo == 0 then record { signo = signo; shutdown = true } else c

  started_entry : SigEntry → Started × World → Result (Started × World)
  unfolding note_signal
  started_entry (sigchld infos) (c, w) =
      tinit_sigchan_handle_sigchld env 0 infos w >>= λ r. ok (c, r.1)
  started_entry (shutdown_request signo from_user) (c, w) =
      if is_shutdown_signo signo then ok (note_signal signo from_user c, w) else err assertion
  started_entry other_signal (c, w) = err assertion

  -- the loop of `tinit_sigchan_dispatch_started`
  unfoldable pub started_loop : List SigEntry → Started × World → Result (Started × World)
  unfolding started_entry
  started_loop [] s = ok s
  started_loop (e ∷ es) s = started_entry e s >>= λ s'. started_loop es s'

  unfoldable pub tinit_sigchan_dispatch_started : List SigEntry → World → Result (Started × World)
  unfolding started_loop
  tinit_sigchan_dispatch_started es w = started_loop es (record { signo = 0; shutdown = false }, w)

  -- `chan->cnt` and whether the channel is closed
  stopping_entry : SigEntry → ℕ × World → Result (ℕ × World)
  stopping_entry (sigchld infos) (cnt, w) = tinit_sigchan_handle_sigchld env 0 infos w >>= λ r.
      if leb r.0 cnt then ok (cnt - r.0, r.1) else err assertion
  stopping_entry _ s = ok s

  -- the loop of `tinit_sigchan_dispatch_stopping`; `true` tells that the channel was closed
  unfoldable pub stopping_loop : List SigEntry → ℕ × World → Result (Bool × ℕ × World)
  unfolding stopping_entry is_sigchld
  stopping_loop [] (cnt, w) = ok (false, cnt, w)
  stopping_loop (e ∷ es) s = stopping_entry e s >>= λ s'.
      let rest = stopping_loop es s' in
      if is_sigchld e && s'.0 == 0 then ok (true, s'.0, s'.1) else rest

  unfoldable pub tinit_sigchan_dispatch_stopping :
      List SigEntry → ℕ → World → Result (Bool × ℕ × World)
  unfolding stopping_loop
  tinit_sigchan_dispatch_stopping es cnt w =
      let loop = stopping_loop es (cnt, w) in if cnt == 0 then err assertion else loop
