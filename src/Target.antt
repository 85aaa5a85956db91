-- ===== src/Target.antt =====
-- target.c: stopping all services, and switching between targets. The services of a target are what
-- `tinit_target_init_iter` collected.
pub mod Shutdown
pub mod Folder
pub mod Switch
use einit.Prelude.{
  ℕ, ◌+◌, Bool, true, false, List, [], ◌∷◌, Result, ok, err, ◌>>=◌, if◌then◌else◌, ◌==◌, ℤ, pos,
  neg, is_zero,
}
use einit.World.{SvcState, stopped, starting, ready, stopping, Env, World}
use einit.Common.Strings.{strcmp_eq}
use einit.Svc.Spawn.{is_stopped}
use einit.Svc.Events.{svc_start, svc_stop}

-- `found`: a service of the target has the name of the service `id`. Left out: the read of tbl[nr] after
-- the last step of the loop, whose value is dropped.
unfoldable pub in_target : World → ℕ → List ℕ → Bool
in_target w id [] = false
in_target w id (curr ∷ tbl) =
    if strcmp_eq (w.svc curr).conf.name (w.svc id).conf.name then true else in_target w id tbl

module _ (env : Env) where
  -- the body of the loop of `tinit_target_stop`: what it adds to `cnt`
  unfoldable pub stop_one : SvcState → ℕ → World → Result (ℕ × World)
  stop_one stopped id w = ok (0, w)
  stop_one stopping id w = ok (1, w)
  stop_one _ id w = svc_stop env id w >>= λ v. ok (if is_stopped (v.svc id).state then 0 else 1, v)

  unfoldable pub stop_loop : List ℕ → ℕ → World → Result (ℕ × World)
  unfolding stop_one
  stop_loop [] cnt w = ok (cnt, w)
  stop_loop (id ∷ ids) cnt w = stop_one (w.svc id).state id w >>= λ r. stop_loop ids (cnt + r.0) r.1

  -- the count is what `tinit_sigchan_stop` stores to `chan->cnt`
  unfoldable pub tinit_target_stop : World → Result (ℕ × World)
  unfolding stop_loop
  tinit_target_stop w = stop_loop w.repo 0 w

  switch_one : Bool → SvcState → ℕ → World → Result World
  switch_one false starting id w = svc_stop env id w
  switch_one false ready id w = svc_stop env id w
  switch_one true stopped id w = svc_start env id w
  switch_one true stopping id w = svc_start env id w
  switch_one _ _ id w = ok w

  unfoldable pub switch_loop : List ℕ → List ℕ → World → Result World
  unfolding switch_one in_target
  switch_loop tbl [] w = ok w
  switch_loop tbl (id ∷ ids) w =
      switch_one (in_target w id tbl) (w.svc id).state id w >>= λ v. switch_loop tbl ids v

  -- the loop of `tinit_target_start`
  unfoldable pub start_loop : List ℕ → World → Result World
  start_loop [] w = ok w
  start_loop (id ∷ tbl) w = svc_start env id w >>= λ v. start_loop tbl v
