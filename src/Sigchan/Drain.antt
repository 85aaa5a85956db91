-- ===== src/Sigchan/Drain.antt =====
-- The signal channel while the daemon winds down: the assertions on its count hold, and it closes
-- only when every service has stopped.
use einit.Prelude.{
  ℕ, ◌+◌, ◌≤◌, ◌≡◌, ◌≢◌, refl, ap, ◌∙◌, subst, inl, inr, Bool, true, false, Option, none, some,
  List, [], ◌∷◌, In, All, Returns, Returns-bind, Returns-map, arith, Bool-cases, leb, ◌==◌, ◌&&◌,
  ==_iff,
}
use einit.World.{SvcState, stopped, stopping, off, exit_evt, Env, World}
use einit.Svc.Spawn.{is_stopped}
use einit.Svc.Evolve.{
  side_of, side_of-Moves, IsSound, Evolves, Evolves-refl, Evolves-trans, Evolves-IsSound, is_moving,
  moving, moving-pos, moving-Evolves, moving-lt-Evolves,
}
use einit.Svc.Events.{svc_handle_evts}
use einit.Svc.Events.Sound.{svc_handle_evts-Evolves}
use einit.Repo.{bypid_loop}
use einit.Repo.Lookup.{search_bypid-ok}
use einit.Repo.Lookup.{bypid_found}
use einit.Target.Shutdown.{IsWindingDown}
use einit.Sigchan.{
  SigInfo, reap_svc, tinit_sigchan_handle_sigchld, SigEntry, sigchld, shutdown_request,
  other_signal, stopping_entry, is_sigchld, stopping_loop, tinit_sigchan_dispatch_stopping,
}
use einit.Sigchan.Reap.{HasEnded, exit_status-ok, child_not_stopped}

-- From `v` on, `r.0` services at least have come to rest.
record Drains (v : World) (r : ℕ × World) : Type 0 where
  evolves : Evolves v r.1
  counted : r.0 + moving r.1.svc r.1.repo ≤ moving v.svc v.repo

abbrev AllOff : World → Type 0
AllOff w = (id : ℕ) → In id w.repo → side_of (w.svc id).state ≡ off

AllOff-Evolves : {v w : World} → Evolves v w → AllOff v → AllOff w
AllOff-Evolves {v} {w} h o id m =
    side_of-Moves (v.svc id).state (w.svc id).state (h.each id).moves
    ∙ o id (subst (In id) h.repo m)

off_not_stopped : (a : SvcState) → side_of a ≡ off → a ≢ stopped → a ≡ stopping
off_not_stopped a o n = ground arith

off_at_rest : (a : SvcState) → side_of a ≡ off → is_moving a ≡ false → a ≡ stopped
off_at_rest a o n = ground arith

drained :
    (cnt : ℕ) (w : World)
    → IsWindingDown cnt w
    → cnt ≡ 0
    → (id : ℕ) → In id w.repo
    → (w.svc id).state ≡ stopped
drained cnt w h z id m = elim (Bool-cases (is_moving (w.svc id).state)) [
  | inl busy ↦ absurd (omega (arith, moving-pos w.svc w.repo id m busy, h.covered, z))
  | inr rest ↦ off_at_rest (w.svc id).state (h.are_off id m) rest
]

abbrev pub EntryEnded : SigEntry → Type 0
EntryEnded (sigchld infos) = All HasEnded infos
EntryEnded _ = Unit

-- `closed` tells whether the channel was closed: then every service of the repository is stopped.
abbrev pub Drained : Bool × ℕ × World → Type 0
Drained (closed, cnt, w) =
    IsWindingDown cnt w × (closed ≡ true → (id : ℕ) → In id w.repo → (w.svc id).state ≡ stopped)

module _ (env : Env) where
  reap_svc-Drains :
      (found : Option ℕ) (info : SigInfo) (w : World)
      → IsSound w
      → AllOff w
      → HasEnded info
      → bypid_loop w.svc info.pid w.repo ≡ found
      → Returns (Drains w) (reap_svc env found info w)
  unfolding reap_svc
  reap_svc-Drains none info w s o ended e = record {
    evolves = Evolves-refl w;
    counted = omega arith;
  }
  reap_svc-Drains (some id) info w s o ended e =
      let (status, is) = exit_status-ok info.code info.status ended.0 in
      let (mem, c) = bypid_found w info.pid id e in
      let st : (w.svc id).state ≡ stopping =
        off_not_stopped (w.svc id).state (o id mem) (child_not_stopped w id info.pid s c) in
      rw is (
        Returns-bind (Drains w) (svc_handle_evts env id exit_evt status w) _
          (svc_handle_evts-Evolves env id status w s mem st)
          (λ v h. elim (Bool-cases (is_stopped (v.svc id).state)) [
            | inl rest ↦ rw rest (record {
              evolves = h;
              counted = omega (arith, moving-lt-Evolves id h mem (ap is_moving st) (ground arith));
            })
            | inr busy ↦ rw busy (record { evolves = h; counted = omega (arith, moving-Evolves h) })
          ]))

  handle_sigchld-Drains :
      (infos : List SigInfo) (cnt : ℕ) (w : World)
      → IsSound w
      → AllOff w
      → All HasEnded infos
      → Returns
          (λ r. Evolves w r.1 × (r.0 + moving r.1.svc r.1.repo ≤ cnt + moving w.svc w.repo))
          (tinit_sigchan_handle_sigchld env cnt infos w)
  unfolding tinit_sigchan_handle_sigchld
  handle_sigchld-Drains [] cnt w s o ended = (Evolves-refl w, omega arith)
  handle_sigchld-Drains (info ∷ infos) cnt w s o ended = rw (search_bypid-ok w info.pid ended.0.1) (
      Returns-bind _ (reap_svc env (bypid_loop w.svc info.pid w.repo) info w) _
        (reap_svc-Drains (bypid_loop w.svc info.pid w.repo) info w s o ended.0 refl)
        (λ r h.
          Returns-map
            {P = λ q.
              Evolves r.1 q.1
              × (q.0 + moving q.1.svc q.1.repo ≤ cnt + r.0 + moving r.1.svc r.1.repo)}
            {Q = λ q. Evolves w q.1 × (q.0 + moving q.1.svc q.1.repo ≤ cnt + moving w.svc w.repo)}
            (tinit_sigchan_handle_sigchld env (cnt + r.0) infos r.1)
            (handle_sigchld-Drains infos (cnt + r.0) r.1 (Evolves-IsSound h.evolves s)
              (AllOff-Evolves h.evolves o) ended.1)
            (λ q k. (Evolves-trans h.evolves k.0, omega (arith, h.counted, k.1)))))

  stopping_entry-IsWindingDown :
      (e : SigEntry) (cnt : ℕ) (w : World)
      → IsWindingDown cnt w
      → EntryEnded e
      → Returns (λ r. IsWindingDown r.0 r.1) (stopping_entry env e (cnt, w))
  unfolding stopping_entry
  stopping_entry-IsWindingDown (sigchld infos) cnt w h ended =
      Returns-bind (λ r. IsWindingDown r.0 r.1) (tinit_sigchan_handle_sigchld env 0 infos w) _
        (handle_sigchld-Drains infos 0 w h.sound h.are_off ended)
        (λ r k.
          let fits : leb r.0 cnt ≡ true = ground (arith, k.1, h.covered) in
          rw fits (record {
            sound = Evolves-IsSound k.0 h.sound;
            are_off = AllOff-Evolves k.0 h.are_off;
            covered = omega (arith, k.1, h.covered);
          }))
  stopping_entry-IsWindingDown (shutdown_request _ _) cnt w h ended = h
  stopping_entry-IsWindingDown other_signal cnt w h ended = h

  stopping_loop-Drained :
      (es : List SigEntry) (cnt : ℕ) (w : World)
      → IsWindingDown cnt w
      → All EntryEnded es
      → Returns Drained (stopping_loop env es (cnt, w))
  unfolding stopping_loop
  stopping_loop-Drained [] cnt w h ended = (h, λ e. cc)
  stopping_loop-Drained (e ∷ es) cnt w h ended =
      Returns-bind Drained (stopping_entry env e (cnt, w)) _
        (stopping_entry-IsWindingDown e cnt w h ended.0)
        (λ r k. elim (Bool-cases (is_sigchld e && r.0 == 0)) [
          | inl done ↦ rw done (k, λ _. drained r.0 r.1 k (ground arith))
          | inr more ↦ rw more (stopping_loop-Drained es r.0 r.1 k ended.1)
        ])

  -- While the daemon winds down and `chan->cnt` is not 0, a dispatch of the signal channel fails at
  -- no assertion, whatever signals it reads and whatever children they report. The count still
  -- covers the services that have to stop, and if the channel closes, all are stopped.
  pub tinit_sigchan_dispatch_stopping-Drained :
      (es : List SigEntry) (cnt : ℕ) (w : World)
      → IsWindingDown cnt w
      → cnt ≢ 0
      → All EntryEnded es
      → Returns Drained (tinit_sigchan_dispatch_stopping env es cnt w)
  unfolding tinit_sigchan_dispatch_stopping
  tinit_sigchan_dispatch_stopping-Drained es cnt w h n ended = elim (Bool-cases (cnt == 0)) [
    | inl z ↦ absurd (n ((==_iff cnt 0).0 z))
    | inr p ↦ rw p (stopping_loop-Drained es cnt w h ended)
  ]
