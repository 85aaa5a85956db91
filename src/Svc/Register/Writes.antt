-- ===== src/Svc/Register/Writes.antt =====
-- What registering an observer writes: one source more for the one, one observer more for the other.
use einit.Prelude.{
  ℕ, ◌≡◌, ◌⊎◌, ◌↔◌, refl, ap, ◌∙◌, sym, subst, inl, inr, Bool, true, false, ◌&&◌, Option, some,
  List, [], ◌∷◌, ◌++◌, In, Bool-cases, ◌==◌, ==_iff, if◌then◌else◌, arith,
}
use einit.World.{NotifPoll, Svc, World, update, put}
use einit.Svc.Spawn.Gate.{sources}
use einit.Svc.Register.{
  Relation, starton, stopon, poll_of, obsrv_of, with_poll, with_obsrv, srcs_of,
}

-- A list with one more element at its end, or as it is.
abbrev pub adds : Bool → List ℕ → ℕ → List ℕ
adds b xs y = if b then xs ++ (y ∷ []) else xs

pub In-adds :
    (a : ℕ) (b : Bool) (xs : List ℕ) (y : ℕ)
    → In a (adds b xs y) ↔ (In a xs ⊎ ((b ≡ true) × (a ≡ y)))
In-adds a false xs y = (λ i. inl i, λ h. elim h [ inl i ↦ i | inr (e, q) ↦ absurd (ground arith) ])
In-adds a true [] y = (
  λ i. elim i [ inl e ↦ inr (refl, e) | inr n ↦ elim n [ ] ],
  λ h. elim h [ inl i ↦ elim i [ ] | inr (e, q) ↦ inl q ],
)
In-adds a true (x ∷ xs) y =
    let ih = In-adds a true xs y in
    (
      λ i. elim i [
        | inl e ↦ inl (inl e)
        | inr j ↦ elim (ih.0 j) [ inl k ↦ inl (inr k) | inr k ↦ inr k ]
      ],
      λ h. elim h [
        | inl (inl e) ↦ inl e
        | inl (inr j) ↦ inr (ih.1 (inl j))
        | inr k ↦ inr (ih.1 (inr k))
      ],
    )

abbrev pub same_rel : Relation → Relation → Bool
same_rel starton starton = true
same_rel stopon stopon = true
same_rel _ _ = false

-- What no registration writes.
pub record SameCore (s t : Svc) : Type 0 where
  pub conf : t.conf ≡ s.conf
  pub state : t.state ≡ s.state
  pub child : t.child ≡ s.child
  pub evts : t.handle_evts ≡ s.handle_evts
  pub notif : t.handle_notif ≡ s.handle_notif

pub SameCore-refl : (s : Svc) → SameCore s s
SameCore-refl s = ground arith

pub SameCore-trans : {s t u : Svc} → SameCore s t → SameCore t u → SameCore s u
SameCore-trans h k = record {
  conf = k.conf ∙ h.conf;
  state = k.state ∙ h.state;
  child = k.child ∙ h.child;
  evts = k.evts ∙ h.evts;
  notif = k.notif ∙ h.notif;
}

SameCore-update :
    (f : ℕ → Svc) (id : ℕ) (s : Svc)
    → SameCore (f id) s
    → (j : ℕ) → SameCore (f j) (update f id s j)
SameCore-update f id s h j = elim (Bool-cases (id == j)) [
  | inl e ↦ rw e (subst (λ k. SameCore (f k) s) ((==_iff id j).0 e) h)
  | inr e ↦ rw e (SameCore-refl (f j))
]

SameCore-with_poll :
    (rel : Relation) (poll : Option NotifPoll) (s : Svc) → SameCore s (with_poll rel poll s)
SameCore-with_poll starton poll s = ground arith
SameCore-with_poll stopon poll s = ground arith

SameCore-with_obsrv :
    (rel : Relation) (sinks : List ℕ) (s : Svc) → SameCore s (with_obsrv rel sinks s)
SameCore-with_obsrv starton sinks s = ground arith
SameCore-with_obsrv stopon sinks s = ground arith

-- A write to one field of one service, seen through a field.
field_update :
    {A : Type 0} (get : Svc → A) (f : ℕ → Svc) (id : ℕ) (s : Svc) (j : ℕ)
    → get (update f id s j) ≡ (if id == j then get s else get (f j))
field_update get f id s j = elim (Bool-cases (id == j)) [ inl e ↦ rw e refl | inr e ↦ rw e refl ]

update_kept :
    {A : Type 0} (get : Svc → A) (f : ℕ → Svc) (id : ℕ) (s : Svc)
    → get s ≡ get (f id)
    → (j : ℕ) → get (update f id s j) ≡ get (f j)
update_kept get f id s e j = elim (Bool-cases (id == j)) [
  | inl same ↦ rw same (e ∙ ap (λ k. get (f k)) ((==_iff id j).0 same))
  | inr other ↦ rw other refl
]

pub same_rel-eq : (other rel : Relation) → same_rel other rel ≡ true → other ≡ rel
same_rel-eq starton starton e = refl
same_rel-eq starton stopon e = absurd (ground arith)
same_rel-eq stopon starton e = absurd (ground arith)
same_rel-eq stopon stopon e = refl

-- Nested tests, where `y` is what stands at `j` when `j` is the one tested for.
both_tests :
    {A : Type 0} (g : ℕ → A) (id j : ℕ) (c : Bool) (x : A)
    → (if id == j then (if c then x else g id) else g j) ≡ (if c && id == j then x else g j)
both_tests g id j c x = elim (Bool-cases (id == j)) [
  | inr other ↦ elim (Bool-cases c) [ inl e ↦ rw (other, e) refl | inr e ↦ rw (other, e) refl ]
  | inl same ↦ elim (Bool-cases c) [
    | inl e ↦ rw (same, e) refl
    | inr e ↦ rw (same, e) (ap g ((==_iff id j).0 same))
  ]
]

poll_of-with_poll :
    (rel other : Relation) (poll : Option NotifPoll) (s : Svc)
    → poll_of other (with_poll rel poll s) ≡ (if same_rel other rel then poll else poll_of other s)
poll_of-with_poll starton starton poll s = refl
poll_of-with_poll starton stopon poll s = refl
poll_of-with_poll stopon starton poll s = refl
poll_of-with_poll stopon stopon poll s = refl

poll_of-with_obsrv :
    (rel other : Relation) (sinks : List ℕ) (s : Svc)
    → poll_of other (with_obsrv rel sinks s) ≡ poll_of other s
poll_of-with_obsrv starton starton sinks s = refl
poll_of-with_obsrv starton stopon sinks s = refl
poll_of-with_obsrv stopon starton sinks s = refl
poll_of-with_obsrv stopon stopon sinks s = refl

obsrv_of-with_poll :
    (rel other : Relation) (poll : Option NotifPoll) (s : Svc)
    → obsrv_of other (with_poll rel poll s) ≡ obsrv_of other s
obsrv_of-with_poll starton starton poll s = refl
obsrv_of-with_poll starton stopon poll s = refl
obsrv_of-with_poll stopon starton poll s = refl
obsrv_of-with_poll stopon stopon poll s = refl

obsrv_of-with_obsrv :
    (rel other : Relation) (sinks : List ℕ) (s : Svc)
    → obsrv_of other (with_obsrv rel sinks s)
      ≡ (if same_rel other rel then sinks else obsrv_of other s)
obsrv_of-with_obsrv starton starton sinks s = refl
obsrv_of-with_obsrv starton stopon sinks s = refl
obsrv_of-with_obsrv stopon starton sinks s = refl
obsrv_of-with_obsrv stopon stopon sinks s = refl

module _ (rel : Relation) (sink src : ℕ) (poll : NotifPoll) (w : World) where
  abbrev pub registered : World
  registered =
      let w1 = put w sink (
        with_poll rel (some (record { srcs = poll.srcs ++ (src ∷ []); nr = poll.nr }))
          (w.svc sink)) in
      put w1 src (with_obsrv rel (obsrv_of rel (w1.svc src) ++ (sink ∷ [])) (w1.svc src))

  pub registered-SameCore : (j : ℕ) → SameCore (w.svc j) (registered.svc j)
  registered-SameCore j =
      let s1 =
        with_poll rel (some (record { srcs = poll.srcs ++ (src ∷ []); nr = poll.nr }))
          (w.svc sink) in
      let w1 = put w sink s1 in
      SameCore-trans (SameCore-update w.svc sink s1 (SameCore-with_poll rel _ (w.svc sink)) j) (
        SameCore-update w1.svc src _
          (SameCore-with_obsrv rel (obsrv_of rel (w1.svc src) ++ (sink ∷ [])) (w1.svc src)) j)

  pub poll_of-registered :
      (other : Relation) (j : ℕ)
      → poll_of other (registered.svc j) ≡ (
          if same_rel other rel && (sink == j)
          then some (record { srcs = poll.srcs ++ (src ∷ []); nr = poll.nr })
          else poll_of other (w.svc j))
  poll_of-registered other j =
      let p : Option NotifPoll = some (record { srcs = poll.srcs ++ (src ∷ []); nr = poll.nr }) in
      let s1 = with_poll rel p (w.svc sink) in
      let w1 = put w sink s1 in
      let s2 = with_obsrv rel (obsrv_of rel (w1.svc src) ++ (sink ∷ [])) (w1.svc src) in
      update_kept (poll_of other) w1.svc src s2
        (poll_of-with_obsrv rel other (obsrv_of rel (w1.svc src) ++ (sink ∷ [])) (w1.svc src)) j
      ∙ field_update (poll_of other) w.svc sink s1 j
      ∙ ap (λ x. if sink == j then x else poll_of other (w.svc j))
          (poll_of-with_poll rel other p (w.svc sink))
      ∙ both_tests (λ k. poll_of other (w.svc k)) sink j (same_rel other rel) p

  pub obsrv_of-registered :
      (other : Relation) (j : ℕ)
      → obsrv_of other (registered.svc j)
        ≡ adds (same_rel other rel && (src == j)) (obsrv_of other (w.svc j)) sink
  obsrv_of-registered other j =
      let s1 =
        with_poll rel (some (record { srcs = poll.srcs ++ (src ∷ []); nr = poll.nr }))
          (w.svc sink) in
      let w1 = put w sink s1 in
      let s2 = with_obsrv rel (obsrv_of rel (w1.svc src) ++ (sink ∷ [])) (w1.svc src) in
      let before : (k : ℕ) → obsrv_of other (w1.svc k) ≡ obsrv_of other (w.svc k) =
        update_kept (obsrv_of other) w.svc sink s1 (obsrv_of-with_poll rel other _ (w.svc sink)) in
      field_update (obsrv_of other) w1.svc src s2 j
      ∙ ap (λ x. if src == j then x else obsrv_of other (w1.svc j))
          (obsrv_of-with_obsrv rel other (obsrv_of rel (w1.svc src) ++ (sink ∷ [])) (w1.svc src))
      ∙ both_tests (λ k. obsrv_of other (w1.svc k)) src j (same_rel other rel)
          (obsrv_of rel (w1.svc src) ++ (sink ∷ []))
      ∙ appended other (same_rel other rel) (same_rel-eq other rel) w1.svc before
    where
      appended :
          (other_ : Relation) (c : Bool)
          → (c ≡ true → other_ ≡ rel)
          → (f : ℕ → Svc) → ((k : ℕ) → obsrv_of other_ (f k) ≡ obsrv_of other_ (w.svc k))
          → (if c && src == j then obsrv_of rel (f src) ++ (sink ∷ []) else obsrv_of other_ (f j))
            ≡ adds (c && src == j) (obsrv_of other_ (w.svc j)) sink
      appended other_ c e f h = elim (Bool-cases (c && src == j)) [
        | inr n ↦ rw n (h j)
        | inl both ↦
            (let r : other_ ≡ rel = e (ground arith) in
              let same : src ≡ j = (==_iff src j).0 (ground arith) in
              rw both (
                ap (λ l. l ++ (sink ∷ []))
                  (ap (λ q. obsrv_of q (f src)) (sym r)
                    ∙ h src
                    ∙ ap (λ k. obsrv_of other_ (w.svc k)) same)))
      ]

  module _ (has_poll : poll_of rel (w.svc sink) ≡ some poll) where
    pub srcs_of-registered :
        (other : Relation) (j : ℕ)
        → srcs_of other registered.svc j
          ≡ adds (same_rel other rel && (sink == j)) (srcs_of other w.svc j) src
    srcs_of-registered other j =
        ap sources (poll_of-registered other j)
        ∙ grown (Bool-cases (same_rel other rel && sink == j))
      where
        grown :
            ((same_rel other rel && sink == j) ≡ true) ⊎ ((same_rel other rel && sink == j) ≡ false)
            → sources (
                if same_rel other rel && sink == j
                then some (record { srcs = poll.srcs ++ (src ∷ []); nr = poll.nr })
                else poll_of other (w.svc j))
              ≡ adds (same_rel other rel && sink == j) (srcs_of other w.svc j) src
        grown (inr n) = rw n refl
        grown (inl both) =
            let r : other ≡ rel = same_rel-eq other rel (ground arith) in
            let same : sink ≡ j = (==_iff sink j).0 (ground arith) in
            let q : poll_of other (w.svc j) ≡ some poll =
              ap (λ o. poll_of o (w.svc j)) r
              ∙ ap (λ k. poll_of rel (w.svc k)) (sym same)
              ∙ has_poll in
            rw (both, q) refl
