-- ===== src/Svc/Events/Sequence.antt =====
-- The whole start sequence of a service whose start commands succeed one after the other.
pub mod Run
use einit.Prelude.{
  onto, drop-cons, drop-nil, ℕ, zero, suc, ◌^◌, ◌<◌, ◌≡◌, ◌≢◌, refl, ap, ◌∙◌, sym, subst, inl, true,
  false, Option, none, some, List, [], ◌∷◌, ◌++◌, In, length, drop, Result, ok, ◌>>=◌, Returns,
  Returns-bind, Returns-map, ltb, ==_iff, pos, negsuc, arith,
}
use einit.Conf.{StrArr}
use einit.World.{
  SvcState, stopped, starting, ready, Svc, exit_evt, on, Env, World, Call, vfork, utimer_arm_sec,
  spawned, put, call, forked,
}
use einit.Svc.Runnable.{HasArgs, OptHasArgs}
use einit.Svc.Cascade.{Marker, mark_ready, svc_mark, svc_spawn_start_cmd}
use einit.Svc.Cascade.Writes.{put_child-Evolves, state-put_child}
use einit.Svc.Cascade.Steps.{with_child-Evolves, with_child, spawn_next, spawn_daemon, spawn_none}
use einit.Svc.Cascade.Marked.{marked-Evolves, svc_mark-marked}
use einit.Svc.Evolve.{
  IsSound, Moves, is_moving, Evolves, Evolves-put, Evolves-IsSound, put_self, side_of,
}
use einit.Svc.Events.Switch.{enter_starting-Reacts}
use einit.Svc.Events.{
  inc32, svc_start, enter_starting, svc_handle_evts, svc_handle_on_evts, handle_evts_by, on_evts_by,
  exit_starting,
}

-- `n` processes of a service exit successfully, one after the other.
unfoldable pub exits : Env → ℕ → ℕ → World → Result World
exits env zero id w = ok w
exits env (suc n) id w = svc_handle_evts env id exit_evt (pos 0) w >>= λ v. exits env n id v

abbrev pub daemon_cmds : Option StrArr → List StrArr
daemon_cmds none = []
daemon_cmds (some args) = args ∷ []

-- Every fork works.
abbrev pub IsForking : Env → Type 0
IsForking env = (log : List Call) → (pid : ℕ) × (env.vfork_result log ≡ spawned pid)

-- The exit of a start command leads to the next one.
pub exit_respawns :
    (env : Env) (id : ℕ) (w : World)
    → (w.svc id).handle_evts ≡ on
    → (w.svc id).state ≡ starting
    → svc_handle_evts env id exit_evt (pos 0) w
      ≡ svc_spawn_start_cmd env
          (svc_mark env)
          id
          (put w id (record (w.svc id) { start_cmd = inc32 (w.svc id).start_cmd }))
unfolding svc_handle_evts handle_evts_by svc_handle_on_evts on_evts_by exit_starting
exit_respawns env id w side e =
    ap (λ h. handle_evts_by env h id exit_evt (pos 0) w) side
    ∙ ap (λ a. on_evts_by env a exit_evt (pos 0) id w) e

starting_stopped : starting ≢ stopped
starting_stopped e = cc

-- A service in STARTING that is about to run the commands `cmds`, the rest of its start commands.
pub record IsAbout (id : ℕ) (cmds : List StrArr) (w : World) : Type 0 where
  pub sound : IsSound w
  pub mem : In id w.repo
  pub state : (w.svc id).state ≡ starting
  pub rest : drop (w.svc id).start_cmd (w.svc id).conf.start ≡ cmds
  pub small : length (w.svc id).conf.start < 2 ^ 32

-- The service is READY, after the given commands and its daemon were forked for it in this order.
pub record IsUp (id : ℕ) (cmds : List StrArr) (v w : World) : Type 0 where
  pub sound : IsSound w
  pub state : (w.svc id).state ≡ ready
  pub log : forked id w.log ≡ onto (cmds ++ daemon_cmds (v.svc id).conf.daemon) (forked id v.log)

pub forked-with_child :
    (env : Env) (rec : Marker) (id : ℕ) (w : World) (args : StrArr) (pid : ℕ)
    → forked id (with_child env rec id w args pid).log ≡ args ∷ forked id w.log
unfolding forked
forked-with_child env rec id w args pid = rw ((==_iff id id).1 refl) refl

module _ (env : Env) (id : ℕ) where
  pub put_start_cmd-Evolves :
      (w : World) (n : ℕ)
      → (w.svc id).state ≡ starting
      → Evolves w (put w id (record (w.svc id) { start_cmd = n }))
  put_start_cmd-Evolves w n e =
      Evolves-put w id (record (w.svc id) { start_cmd = n })
        (record {
          setup = ground arith;
          evts = refl;
          notif = refl;
          moves = inl refl;
          idle = λ k. cc;
        })

  -- Marking the service as READY forks nothing for it, whatever its observers do.
  marked_up :
      (u : World)
      → IsSound u
      → In id u.repo
      → (u.svc id).state ≡ starting
      → Returns
          (λ v. IsSound v × ((v.svc id).state ≡ ready) × (forked id v.log ≡ forked id u.log))
          (svc_mark env mark_ready id u)
  marked_up u s mem e =
      let t : Svc = record (u.svc id) { state = ready } in
      let here : (put u id t).svc id ≡ t = put_self u id t in
      Returns-map (svc_mark env mark_ready id u) (svc_mark-marked env id u s mem mark_ready e)
        (λ v h. (
          Evolves-IsSound h (Evolves-IsSound (marked-Evolves mark_ready id u e) s),
          still_ready (v.svc id).state (
              subst (λ a. Moves a (v.svc id).state) (ap (λ (x : Svc). x.state) here)
                (h.each id).moves),
          h.quiet id (ap (λ (x : Svc). is_moving x.state) here),
        ))
    where
      still_ready : (a : SvcState) → Moves ready a → a ≡ ready
      still_ready a h = ground arith

  module _ (forks : IsForking env) where
    -- No start command is left.
    pub run_daemon :
        (w : World)
        → IsAbout id [] w
        → Returns (IsUp id [] w) (svc_spawn_start_cmd env (svc_mark env) id w)
    run_daemon w h = by_daemon (w.svc id).conf.daemon refl
      where
        over : ltb (w.svc id).start_cmd (length (w.svc id).conf.start) ≡ false
        over = let le = drop-nil (w.svc id).start_cmd (w.svc id).conf.start h.rest in ground arith

        by_daemon :
            (d : Option StrArr)
            → (w.svc id).conf.daemon ≡ d
            → Returns (IsUp id [] w) (svc_spawn_start_cmd env (svc_mark env) id w)
        by_daemon none e =
            let u : World = put w id (record (w.svc id) { child = negsuc 0 }) in
            let k = put_child-Evolves w id (negsuc 0) (λ q. starting_stopped (sym h.state ∙ q)) in
            subst (Returns (IsUp id [] w)) (sym (spawn_none env (svc_mark env) id w e over)) (
              Returns-map (svc_mark env mark_ready id u)
                (marked_up u (Evolves-IsSound k h.sound) h.mem
                  (state-put_child w id (negsuc 0) h.state))
                (λ v (s, r, f). record {
                  sound = s;
                  state = r;
                  log = f ∙ ap (λ o. onto (daemon_cmds o) (forked id w.log)) (sym e);
                }))
        by_daemon (some args) e =
            let (pid, fork) = forks w.log in
            let full : HasArgs args = subst OptHasArgs e (h.sound.runnable id h.mem).daemon in
            let u : World = with_child env (svc_mark env) id w args pid in
            let k =
              with_child-Evolves env (svc_mark env) id w args pid fork (ap is_moving h.state) in
            subst (Returns (IsUp id [] w))
              (sym (spawn_daemon env (svc_mark env) id w args pid full e over fork))
              (Returns-map (svc_mark env mark_ready id u)
                (marked_up u (Evolves-IsSound k h.sound) h.mem (
                  ap (λ (x : Svc). x.state)
                    (put_self (call (call w (vfork id args)) (utimer_arm_sec id 1)) id _)
                  ∙ h.state))
                (λ v (s, r, f). record {
                  sound = s;
                  state = r;
                  log =
                      f
                      ∙ forked-with_child env (svc_mark env) id w args pid
                      ∙ ap (λ o. onto (daemon_cmds o) (forked id w.log)) (sym e);
                }))
