-- ===== src/Svc/Evolve.antt =====
-- What a notification cascade may change: the vocabulary of the statements about svc.c.
use einit.Prelude.{
  All, ℕ, ◌+◌, ◌≤◌, ◌<◌, ◌≡◌, refl, sym, ap, ◌∙◌, subst, ◌⊎◌, inl, inr, Bool, true, false, some,
  List, [], ◌∷◌, In, length, Result, Returns, Returns-map, arith, ◌==◌, ==_iff, Bool-cases,
  if◌then◌else◌, negsuc,
}
use einit.Conf.{ConfSvc}
use einit.Svc.Runnable.{HasArgs, OptHasArgs, HasSlots, IsRunnable}
use einit.World.{
  SvcState, stopped, starting, ready, stopping, Side, on, off, Svc, World, put, update, installed,
  forked,
}

-- The side whose handlers serve a state.
abbrev pub side_of : SvcState → Side
side_of starting = on
side_of ready = on
side_of stopped = off
side_of stopping = off

-- The handlers installed are those for the state, and a stopped service has no process.
pub record IsFit (s : Svc) : Type 0 where
  pub evts : s.handle_evts ≡ side_of s.state
  pub notif : s.handle_notif ≡ side_of s.state
  pub idle : s.state ≡ stopped → s.child ≡ negsuc 0

-- Every service fits its state, its timer runs the expiry handler of the same side, and the
-- observers are services of the repository; and each is such as the assertions on commands and polls ask.
pub record IsSound (w : World) : Type 0 where
  pub fit : (id : ℕ) → IsFit (w.svc id)
  pub runnable : (id : ℕ) → In id w.repo → IsRunnable (w.svc id)
  pub armed :
      (id : ℕ) (side : Side) → installed w.log id ≡ some side → side ≡ side_of (w.svc id).state
  pub starton_closed : (id sink : ℕ) → In sink (w.svc id).starton_obsrv → In sink w.repo
  pub stopon_closed : (id sink : ℕ) → In sink (w.svc id).stopon_obsrv → In sink w.repo

-- The moves that a cascade makes: none, STARTING to READY, or STOPPING to STOPPED.
abbrev pub Moves : SvcState → SvcState → Type 0
Moves a b = (b ≡ a) ⊎ (((a ≡ starting) × (b ≡ ready)) ⊎ ((a ≡ stopping) × (b ≡ stopped)))

-- The configuration and the registrations of a service are never written by a handler.
pub record SameSetup (s t : Svc) : Type 0 where
  pub conf : t.conf ≡ s.conf
  pub starton_obsrv : t.starton_obsrv ≡ s.starton_obsrv
  pub starton_notif : t.starton_notif ≡ s.starton_notif
  pub stopon_obsrv : t.stopon_obsrv ≡ s.stopon_obsrv
  pub stopon_notif : t.stopon_notif ≡ s.stopon_notif

pub record Keeps (s t : Svc) : Type 0 where
  pub setup : SameSetup s t
  pub evts : t.handle_evts ≡ s.handle_evts
  pub notif : t.handle_notif ≡ s.handle_notif
  pub moves : Moves s.state t.state
  pub idle : t.state ≡ stopped → (t.child ≡ negsuc 0) ⊎ ((s.state ≡ stopped) × (t.child ≡ s.child))

-- STARTING and STOPPING
abbrev pub is_moving : SvcState → Bool
is_moving starting = true
is_moving stopping = true
is_moving _ = false

pub record Evolves (v w : World) : Type 0 where
  pub repo : w.repo ≡ v.repo
  pub each : (id : ℕ) → Keeps (v.svc id) (w.svc id)
  pub timers : (id : ℕ) → installed w.log id ≡ installed v.log id
  -- nothing is forked for a service that is at rest
  pub quiet : (id : ℕ) → is_moving (v.svc id).state ≡ false → forked id w.log ≡ forked id v.log

pub SameSetup-refl : (s : Svc) → SameSetup s s
SameSetup-refl s = ground arith

pub SameSetup-trans : {s t u : Svc} → SameSetup s t → SameSetup t u → SameSetup s u
SameSetup-trans h k = record {
  conf = k.conf ∙ h.conf;
  starton_obsrv = k.starton_obsrv ∙ h.starton_obsrv;
  starton_notif = k.starton_notif ∙ h.starton_notif;
  stopon_obsrv = k.stopon_obsrv ∙ h.stopon_obsrv;
  stopon_notif = k.stopon_notif ∙ h.stopon_notif;
}

pub SameSetup-IsRunnable : {s t : Svc} → SameSetup s t → IsRunnable s → IsRunnable t
SameSetup-IsRunnable {s} {t} h r = record {
  start = subst (λ (c : ConfSvc). All HasArgs c.start) (sym h.conf) r.start;
  daemon = subst (λ (c : ConfSvc). OptHasArgs c.daemon) (sym h.conf) r.daemon;
  stop = subst (λ (c : ConfSvc). All HasArgs c.stop) (sym h.conf) r.stop;
  starton = subst HasSlots (sym h.starton_notif) r.starton;
  stopon = subst HasSlots (sym h.stopon_notif) r.stopon;
}

pub Keeps-refl : (s : Svc) → Keeps s s
Keeps-refl s = ground arith

pub Moves-trans : (a b c : SvcState) → Moves a b → Moves b c → Moves a c
Moves-trans a b c h k = ground arith

pub Keeps-trans : {s t u : Svc} → Keeps s t → Keeps t u → Keeps s u
Keeps-trans {s} {t} {u} h k = record {
  setup = SameSetup-trans h.setup k.setup;
  evts = k.evts ∙ h.evts;
  notif = k.notif ∙ h.notif;
  moves = Moves-trans s.state t.state u.state h.moves k.moves;
  idle = λ e. ground (arith, h.idle, k.idle e);
}

pub Keeps-IsFit : {s t : Svc} → Keeps s t → IsFit s → IsFit t
Keeps-IsFit {s} {t} h k = record {
  evts = ground (arith, h.evts, k.evts);
  notif = ground (arith, h.notif, k.notif);
  idle = λ e. ground (arith, h.idle e, k.idle);
}

pub Evolves-refl : (w : World) → Evolves w w
Evolves-refl w = record {
  repo = refl;
  each = λ id. Keeps-refl (w.svc id);
  timers = λ id. refl;
  quiet = λ id e. refl;
}

at_rest : (a b : SvcState) → Moves a b → is_moving a ≡ false → is_moving b ≡ false
at_rest a b h e = ground arith

pub Evolves-trans : {u v w : World} → Evolves u v → Evolves v w → Evolves u w
Evolves-trans {u} {v} {w} h k = record {
  repo = k.repo ∙ h.repo;
  each = λ id. Keeps-trans (h.each id) (k.each id);
  timers = λ id. k.timers id ∙ h.timers id;
  quiet = λ id e.
      k.quiet id (at_rest (u.svc id).state (v.svc id).state (h.each id).moves e) ∙ h.quiet id e;
}

-- A run from a world that has evolved.
pub after :
    {v w : World} (r : Result World) → Evolves v w → Returns (Evolves w) r → Returns (Evolves v) r
after {v} {w} r h k = Returns-map {P = Evolves w} {Q = Evolves v} r k (λ u m. Evolves-trans h m)

-- A world that differs in the log alone.
pub Evolves-log :
    (v w : World)
    → w.svc ≡ v.svc
    → w.repo ≡ v.repo
    → ((id : ℕ) → installed w.log id ≡ installed v.log id)
    → ((id : ℕ) → is_moving (v.svc id).state ≡ false → forked id w.log ≡ forked id v.log)
    → Evolves v w
Evolves-log v w e r t q = record {
  timers = t;
  quiet = q;
  repo = r;
  each = λ id. subst (λ (f : ℕ → Svc). Keeps (v.svc id) (f id)) (sym e) (Keeps-refl (v.svc id));
}

pub Evolves-put : (w : World) (id : ℕ) (s : Svc) → Keeps (w.svc id) s → Evolves w (put w id s)
Evolves-put w id s h = record {
  repo = refl;
  each = λ j. at j (Bool-cases (id == j));
  timers = λ j. refl;
  quiet = λ j e. refl;
}
  where
    at : (j : ℕ) → ((id == j) ≡ true) ⊎ ((id == j) ≡ false) → Keeps (w.svc j) (update w.svc id s j)
    at j (inl e) = rw e (subst (λ k. Keeps (w.svc k) s) ((==_iff id j).0 e) h)
    at j (inr e) = rw e (Keeps-refl (w.svc j))

pub side_of-Moves : (a b : SvcState) → Moves a b → side_of b ≡ side_of a
side_of-Moves a b h = ground arith

pub Evolves-IsSound : {v w : World} → Evolves v w → IsSound v → IsSound w
Evolves-IsSound {v} {w} h s = record {
  fit = λ id. Keeps-IsFit (h.each id) (s.fit id);
  runnable =
      λ id m. SameSetup-IsRunnable (h.each id).setup (s.runnable id (subst (In id) h.repo m));
  armed = λ id side e.
      s.armed id side (sym (h.timers id) ∙ e)
      ∙ sym (side_of-Moves (v.svc id).state (w.svc id).state (h.each id).moves);
  starton_closed = λ id sink m.
      subst (In sink) (sym h.repo)
        (s.starton_closed id sink (rw (h.each id).setup.starton_obsrv at m));
  stopon_closed = λ id sink m.
      subst (In sink) (sym h.repo)
        (s.stopon_closed id sink (rw (h.each id).setup.stopon_obsrv at m));
}

abbrev pub moving_one : SvcState → ℕ
moving_one a = if is_moving a then 1 else 0

-- How many services of a list are on the move.
unfoldable pub moving : (ℕ → Svc) → List ℕ → ℕ
moving f [] = 0
moving f (id ∷ ids) = moving_one (f id).state + moving f ids

pub moving-le-length : (f : ℕ → Svc) (ids : List ℕ) → moving f ids ≤ length ids
unfolding moving
moving-le-length f [] = omega arith
moving-le-length f (id ∷ ids) = ground (arith, moving-le-length f ids)

moving-le :
    (f g : ℕ → Svc) (ids : List ℕ) → ((id : ℕ) → Keeps (f id) (g id)) → moving g ids ≤ moving f ids
unfolding moving
moving-le f g [] h = omega arith
moving-le f g (id ∷ ids) h = ground (arith, (h id).moves, moving-le f g ids h)

-- A cascade never sets a service on the move again.
pub moving-Evolves : {v w : World} → Evolves v w → moving w.svc w.repo ≤ moving v.svc v.repo
moving-Evolves {v} {w} h = rw h.repo (moving-le v.svc w.svc v.repo h.each)

-- A listed service that was on the move and has come to rest makes the number smaller.
moving-lt :
    (f g : ℕ → Svc) (ids : List ℕ) (id : ℕ)
    → ((j : ℕ) → Keeps (f j) (g j))
    → In id ids
    → is_moving (f id).state ≡ true
    → is_moving (g id).state ≡ false
    → moving g ids < moving f ids
unfolding moving
moving-lt f g [] id h m a b = elim m [ ]
moving-lt f g (j ∷ ids) id h (inl e) a b =
    ground (arith, moving-le f g ids h, ap (λ k. (f k).state) e, ap (λ k. (g k).state) e)
moving-lt f g (j ∷ ids) id h (inr m) a b = ground (arith, (h j).moves, moving-lt f g ids id h m a b)

pub moving-lt-Evolves :
    {v w : World} (id : ℕ)
    → Evolves v w
    → In id v.repo
    → is_moving (v.svc id).state ≡ true
    → is_moving (w.svc id).state ≡ false
    → moving w.svc w.repo < moving v.svc v.repo
moving-lt-Evolves {v} {w} id h m a b = rw h.repo (moving-lt v.svc w.svc v.repo id h.each m a b)

pub put_self : (w : World) (id : ℕ) (s : Svc) → (put w id s).svc id ≡ s
put_self w id s = rw ((==_iff id id).1 refl)

pub moving-pos :
    (f : ℕ → Svc) (ids : List ℕ) (id : ℕ)
    → In id ids
    → is_moving (f id).state ≡ true
    → 0 < moving f ids
unfolding moving
moving-pos f [] id m a = elim m [ ]
moving-pos f (j ∷ ids) id (inl e) a = ground (arith, ap (λ k. (f k).state) e)
moving-pos f (j ∷ ids) id (inr m) a = ground (arith, moving-pos f ids id m a)
