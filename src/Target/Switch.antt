-- ===== src/Target/Switch.antt =====
-- target.c: tinit_target_start() and tinit_target_switch(), from the folder to the services.
pub mod Chosen
pub mod Total
use einit.Prelude.{ℕ, List, [], ◌∷◌, Result, ok, ◌>>=◌, zero, ℤ, pos, neg, is_zero, if◌then◌else◌}
use einit.Conf.{CStr}
use einit.Sys.{Sys}
use einit.World.{Env, World}
use einit.Proto.Reply.{enoent}
use einit.Target.{switch_loop, start_loop}
use einit.Target.Folder.{tinit_target_init_iter}

module _ (sys : Sys) (env : Env) where
  unfoldable pub switch_by : ℤ × List ℕ → World → Result (ℤ × World)
  switch_by (pos zero, []) w = ok (neg enoent, w)
  switch_by (pos zero, id ∷ tbl) w = switch_loop env (id ∷ tbl) w.repo w >>= λ v. ok (pos 0, v)
  switch_by (err, tbl) w = ok (err, w)

  unfoldable pub tinit_target_switch : CStr → CStr → World → Result (ℤ × World)
  unfolding switch_by
  tinit_target_switch dir_path name w =
      tinit_target_init_iter sys w dir_path name >>= λ iter. switch_by iter w

  -- `started` is what tinit_sigchan_start() returns, that is upoll_register()
  start_by : ℤ → ℤ × List ℕ → World → Result (ℤ × World)
  start_by started (pos zero, []) w = ok (neg enoent, w)
  start_by started (pos zero, id ∷ tbl) w =
      let run = start_loop env (id ∷ tbl) w in
      if is_zero started then (run >>= λ v. ok (pos 0, v)) else ok (started, w)
  start_by started (err, tbl) w = ok (err, w)

  unfoldable pub tinit_target_start : ℤ → CStr → CStr → World → Result (ℤ × World)
  unfolding start_by
  tinit_target_start started dir_path name w =
      tinit_target_init_iter sys w dir_path name >>= λ iter. start_by started iter w
