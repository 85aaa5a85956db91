-- ===== src/Svc/Spawn/Gate.antt =====
-- When a service may start and stop: its sources are all ready, or all stopped.
use einit.Prelude.{
  ◌<◌, zero, suc, ℕ, ◌+◌, ◌-◌, ◌≤◌, ◌≡◌, ◌↔◌, refl, ◌∙◌, Bool, true, false, Option, none, some,
  List, [], ◌∷◌, All, length, arith, ◌==◌, if◌then◌else◌, Bool-cases, inl, inr, Returns,
}
use einit.Svc.Runnable.{HasSlots}
use einit.World.{SvcState, stopped, starting, stopping, ready, on, off, NotifPoll, World}
use einit.Svc.Spawn.{
  reads_from, poll_reads, is_ready, is_stopped, unready_loop, running_loop, may_start_poll,
  may_stop_poll, start_allowed, stop_allowed, svc_may_start, svc_may_stop, svc_may_start-ok,
  svc_may_stop-ok,
}

-- the sources that pass a test
passing : (ℕ → Bool) → List ℕ → ℕ
passing test [] = 0
passing test (src ∷ srcs) = (if test src then 1 else 0) + passing test srcs

passing_le : (test : ℕ → Bool) (srcs : List ℕ) → passing test srcs ≤ length srcs
unfolding passing
passing_le test [] = omega arith
passing_le test (src ∷ srcs) = let h = passing_le test srcs in ground arith

passing-All :
    (test : ℕ → Bool) (srcs : List ℕ)
    → passing test srcs ≡ length srcs
    → All (λ src. test src ≡ true) srcs
unfolding passing
passing-All test [] h = tt
passing-All test (src ∷ srcs) h =
    let le = passing_le test srcs in
    elim (Bool-cases (test src)) [
      | inl e ↦ (e, passing-All test srcs (ground arith))
      | inr e ↦ absurd (ground arith)
    ]

All-passing :
    (test : ℕ → Bool) (srcs : List ℕ)
    → All (λ src. test src ≡ true) srcs
    → passing test srcs ≡ length srcs
unfolding passing
All-passing test [] h = refl
All-passing test (src ∷ srcs) h = let e = All-passing test srcs h.1 in let f = h.0 in ground arith

none_left :
    (test : ℕ → Bool) (srcs : List ℕ)
    → ((length srcs - passing test srcs == 0) ≡ true) ↔ All (λ src. test src ≡ true) srcs
none_left test srcs = (
  λ h. (let le = passing_le test srcs in passing-All test srcs (ground arith)),
  λ h. (let e = All-passing test srcs h in ground arith),
)

module _ (w : World) where
  unready_loop-passing :
      (n : ℕ) (srcs : List ℕ)
      → unready_loop w n srcs ≡ n - passing (λ src. is_ready (w.svc src).state) srcs
  unfolding unready_loop passing
  unready_loop-passing n [] = omega arith
  unready_loop-passing n (src ∷ srcs) =
      let m : ℕ = if is_ready (w.svc src).state then n - 1 else n in
      unready_loop-passing m srcs ∙ counted (is_ready (w.svc src).state)
    where
      counted :
          (b : Bool)
          → (if b then n - 1 else n) - passing (λ src. is_ready (w.svc src).state) srcs
            ≡ n - ((if b then 1 else 0) + passing (λ src. is_ready (w.svc src).state) srcs)
      counted true = omega arith
      counted false = omega arith

  running_loop-passing :
      (n : ℕ) (srcs : List ℕ)
      → running_loop w n srcs ≡ n - passing (λ src. is_stopped (w.svc src).state) srcs
  unfolding running_loop passing
  running_loop-passing n [] = omega arith
  running_loop-passing n (src ∷ srcs) =
      let m : ℕ = if is_stopped (w.svc src).state then n - 1 else n in
      running_loop-passing m srcs ∙ counted (is_stopped (w.svc src).state)
    where
      counted :
          (b : Bool)
          → (if b then n - 1 else n) - passing (λ src. is_stopped (w.svc src).state) srcs
            ≡ n - ((if b then 1 else 0) + passing (λ src. is_stopped (w.svc src).state) srcs)
      counted true = omega arith
      counted false = omega arith

-- The sources of a poll that may be NULL.
abbrev pub sources : Option NotifPoll → List ℕ
sources none = []
sources (some poll) = poll.srcs

is_ready-eq : (a : SvcState) → (is_ready a ≡ true) ↔ (a ≡ ready)
is_ready-eq a = ground arith

is_stopped-eq : (a : SvcState) → (is_stopped a ≡ true) ↔ (a ≡ stopped)
is_stopped-eq a = ground arith

All-map : {P Q : ℕ → Type 0} (xs : List ℕ) → ((a : ℕ) → P a → Q a) → All P xs → All Q xs
All-map [] f h = tt
All-map (x ∷ xs) f h = (f x h.0, All-map xs f h.1)

module _ (w : World) (id : ℕ) where
  may_start_poll-ready :
      (p : Option NotifPoll)
      → (may_start_poll w p ≡ true) ↔ All (λ src. is_ready (w.svc src).state ≡ true) (sources p)
  unfolding may_start_poll
  may_start_poll-ready none = (λ h. tt, λ h. refl)
  may_start_poll-ready (some poll) =
      rw (unready_loop-passing w (length poll.srcs) poll.srcs)
        (none_left (λ src. is_ready (w.svc src).state) poll.srcs)

  may_stop_poll-stopped :
      (p : Option NotifPoll)
      → (may_stop_poll w p ≡ true) ↔ All (λ src. is_stopped (w.svc src).state ≡ true) (sources p)
  unfolding may_stop_poll
  may_stop_poll-stopped none = (λ h. tt, λ h. refl)
  may_stop_poll-stopped (some poll) =
      rw (running_loop-passing w (length poll.srcs) poll.srcs)
        (none_left (λ src. is_stopped (w.svc src).state) poll.srcs)

  -- without the assertions
  pub start_allowed_iff :
      (start_allowed w id ≡ true)
      ↔ All (λ src. (w.svc src).state ≡ ready) (sources (w.svc id).starton_notif)
  unfolding start_allowed
  start_allowed_iff =
      let p = (w.svc id).starton_notif in
      (
        λ h.
            All-map (sources p) (λ src. (is_ready-eq (w.svc src).state).0)
              ((may_start_poll-ready p).0 h),
        λ h.
            (may_start_poll-ready p).1
              (All-map (sources p) (λ src. (is_ready-eq (w.svc src).state).1) h),
      )

  -- without the assertions
  pub stop_allowed_iff :
      (stop_allowed w id ≡ true)
      ↔ All (λ src. (w.svc src).state ≡ stopped) (sources (w.svc id).stopon_notif)
  unfolding stop_allowed
  stop_allowed_iff =
      let p = (w.svc id).stopon_notif in
      (
        λ h.
            All-map (sources p) (λ src. (is_stopped-eq (w.svc src).state).0)
              ((may_stop_poll-stopped p).0 h),
        λ h.
            (may_stop_poll-stopped p).1
              (All-map (sources p) (λ src. (is_stopped-eq (w.svc src).state).1) h),
      )

module _ (w : World) (id : ℕ) where
  -- Where the handlers of a service are those of the side that is on, its state is STARTING and its poll,
  -- if it has one, has slots, svc_may_start fails at no assertion, and it returns true exactly if every
  -- source that the service's start waits for is READY.
  pub svc_may_start_iff :
      (w.svc id).handle_evts ≡ on
      → (w.svc id).handle_notif ≡ on
      → (w.svc id).state ≡ starting
      → HasSlots (w.svc id).starton_notif
      → Returns
          (λ may.
            (may ≡ true)
            ↔ All (λ src. (w.svc src).state ≡ ready) (sources (w.svc id).starton_notif))
          (svc_may_start w id)
  svc_may_start_iff e n s p = rw (svc_may_start-ok w id e n s p) (start_allowed_iff w id)

  -- Where the handlers of a service are those of the side that is off, its state is STOPPING and its poll,
  -- if it has one, has slots, svc_may_stop fails at no assertion, and it returns true exactly if every
  -- source that the service's stop waits for is STOPPED.
  pub svc_may_stop_iff :
      (w.svc id).handle_evts ≡ off
      → (w.svc id).handle_notif ≡ off
      → (w.svc id).state ≡ stopping
      → HasSlots (w.svc id).stopon_notif
      → Returns
          (λ may.
            (may ≡ true)
            ↔ All (λ src. (w.svc src).state ≡ stopped) (sources (w.svc id).stopon_notif))
          (svc_may_stop w id)
  svc_may_stop_iff e n s p = rw (svc_may_stop-ok w id e n s p) (stop_allowed_iff w id)

reads_from-bounds :
    (index cnt nr : ℕ) → All (λ i. i < nr) (reads_from index cnt) ↔ (index + cnt < nr)
unfolding reads_from
reads_from-bounds index zero nr = (λ h. (let q = h.0 in omega arith), λ h. (omega arith, tt))
reads_from-bounds index (suc cnt) nr =
    let (to, of) = reads_from-bounds (suc index) cnt nr in
    (λ h. (let q = to h.1 in omega arith), λ h. (omega arith, of (omega arith)))

-- A whole loop over the sources of a poll reads inside of its memory exactly if a slot is free.
pub poll_reads-bounds :
    (poll : NotifPoll) → All (λ i. i < poll.nr) (poll_reads poll) ↔ (length poll.srcs < poll.nr)
unfolding poll_reads
poll_reads-bounds poll =
    let (to, of) = reads_from-bounds 0 (length poll.srcs) poll.nr in
    (λ h. (let q = to h in omega arith), λ h. of (omega arith))
