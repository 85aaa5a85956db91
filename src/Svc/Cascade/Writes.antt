-- ===== src/Svc/Cascade/Writes.antt =====
-- svc.c: what spawning a command and writing a field leave as it was, and when a marker serves.
use einit.Prelude.{
  ℕ, ◌≤◌, ◌≡◌, ◌≢◌, refl, sym, ap, ◌∙◌, inl, inr, true, false, ◌⊎◌, Bool-cases, ◌==◌, ==_iff, In,
  Returns, arith, ℤ,
}
use einit.Conf.{StrArr}
use einit.World.{SvcState, stopped, starting, stopping, Svc, Env, World, put, installed, forked}
use einit.Svc.Spawn.{spawn_run}
use einit.Svc.Cascade.{Mark, mark_ready, mark_stopped, Marker}
use einit.Svc.Evolve.{
  IsSound, Evolves, Evolves-trans, Evolves-log, Evolves-put, is_moving, moving, put_self,
}

-- The state that a service is in when it is marked.
abbrev pub before : Mark → SvcState
before mark_ready = starting
before mark_stopped = stopping

-- A marker that serves every sound world with at most `f` services on the move.
abbrev pub Serves : ℕ → Marker → Type 0
Serves f rec =
    (m : Mark) (id : ℕ) (w : World)
    → IsSound w
    → In id w.repo
    → (w.svc id).state ≡ before m
    → moving w.svc w.repo ≤ f
    → Returns (Evolves w) (rec m id w)

pub svc-spawn_run :
    (env : Env) (id : ℕ) (args : StrArr) (tmout : ℕ) (w : World)
    → (spawn_run env id args tmout w).1.svc ≡ w.svc
unfolding spawn_run
svc-spawn_run env id args tmout w = ground arith

repo-spawn_run :
    (env : Env) (id : ℕ) (args : StrArr) (tmout : ℕ) (w : World)
    → (spawn_run env id args tmout w).1.repo ≡ w.repo
unfolding spawn_run
repo-spawn_run env id args tmout w = ground arith

installed-spawn_run :
    (env : Env) (id : ℕ) (args : StrArr) (tmout : ℕ) (w : World) (j : ℕ)
    → installed (spawn_run env id args tmout w).1.log j ≡ installed w.log j
unfolding spawn_run installed
installed-spawn_run env id args tmout w j = ground arith

forked-spawn_run :
    (env : Env) (id : ℕ) (args : StrArr) (tmout : ℕ) (w : World) (j : ℕ)
    → (id == j) ≡ false
    → forked j (spawn_run env id args tmout w).1.log ≡ forked j w.log
unfolding spawn_run forked
forked-spawn_run env id args tmout w j other = ground arith

pub spawn_run-Evolves :
    (env : Env) (id : ℕ) (args : StrArr) (tmout : ℕ) (w : World)
    → is_moving (w.svc id).state ≡ true
    → Evolves w (spawn_run env id args tmout w).1
spawn_run-Evolves env id args tmout w moves =
    Evolves-log w (spawn_run env id args tmout w).1 (svc-spawn_run env id args tmout w)
      (repo-spawn_run env id args tmout w) (installed-spawn_run env id args tmout w)
      (λ j e. forked_other j e (Bool-cases (id == j)))
  where
    forked_other :
        (j : ℕ)
        → is_moving (w.svc j).state ≡ false
        → ((id == j) ≡ true) ⊎ ((id == j) ≡ false)
        → forked j (spawn_run env id args tmout w).1.log ≡ forked j w.log
    forked_other j e (inr other) = forked-spawn_run env id args tmout w j other
    forked_other j e (inl same) =
        let f = ap (λ k. is_moving (w.svc k).state) ((==_iff id j).0 same) in absurd (ground arith)

pub put_child-Evolves :
    (w : World) (id : ℕ) (c : ℤ)
    → (w.svc id).state ≢ stopped
    → Evolves w (put w id (record (w.svc id) { child = c }))
put_child-Evolves w id c h =
    Evolves-put w id (record (w.svc id) { child = c })
      (record {
        setup = ground arith;
        evts = refl;
        notif = refl;
        moves = inl refl;
        idle = λ e. absurd (h e);
      })

pub state-put_child :
    (w : World) (id : ℕ) (c : ℤ) {a : SvcState}
    → (w.svc id).state ≡ a
    → ((put w id (record (w.svc id) { child = c })).svc id).state ≡ a
state-put_child w id c e =
    ap (λ (s : Svc). s.state) (put_self w id (record (w.svc id) { child = c })) ∙ e

pub state-spawn_run :
    (env : Env) (id : ℕ) (args : StrArr) (tmout : ℕ) (w : World) (j : ℕ) {a : SvcState}
    → (w.svc j).state ≡ a
    → ((spawn_run env id args tmout w).1.svc j).state ≡ a
state-spawn_run env id args tmout w j e =
    ap (λ (f : ℕ → Svc). (f j).state) (svc-spawn_run env id args tmout w) ∙ e

rest_moves : true ≢ false
rest_moves e = cc

-- Spawning keeps a service's state, whatever `child` becomes.
pub spawn_child-Evolves :
    (env : Env) (id : ℕ) (args : StrArr) (tmout : ℕ) (w : World)
    → is_moving (w.svc id).state ≡ true
    → let (c, v) = spawn_run env id args tmout w in
      Evolves w (put v id (record (v.svc id) { child = c }))
spawn_child-Evolves env id args tmout w h =
    let (c, v) = spawn_run env id args tmout w in
    Evolves-trans (spawn_run-Evolves env id args tmout w h) (
      put_child-Evolves v id c (λ e.
        rest_moves (sym h ∙ ap is_moving (sym (state-spawn_run env id args tmout w id refl) ∙ e))))

abbrev pub put_stop_cmd : World → ℕ → ℤ → World
put_stop_cmd w id c = put w id (record (w.svc id) { stop_cmd = c })

pub put_stop_cmd-Evolves :
    (w : World) (id : ℕ) (c : ℤ) → (w.svc id).state ≢ stopped → Evolves w (put_stop_cmd w id c)
put_stop_cmd-Evolves w id c h =
    Evolves-put w id (record (w.svc id) { stop_cmd = c })
      (record {
        setup = ground arith;
        evts = refl;
        notif = refl;
        moves = inl refl;
        idle = λ e. absurd (h e);
      })

pub state-put_stop_cmd :
    (w : World) (id : ℕ) (c : ℤ) {a : SvcState}
    → (w.svc id).state ≡ a
    → ((put_stop_cmd w id c).svc id).state ≡ a
state-put_stop_cmd w id c e =
    ap (λ (s : Svc). s.state) (put_self w id (record (w.svc id) { stop_cmd = c })) ∙ e
