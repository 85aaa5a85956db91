-- ===== src/Svc/Register/Wired.antt =====
-- Registering keeps a repository free of cycles, and its observers and sources in step.
use einit.Prelude.{
  ◌<◌, Bool, Option, [], ◌∷◌, ◌++◌, if◌then◌else◌, ℕ, ◌≡◌, ◌⊎◌, ◌↔◌, sym, subst, inl, inr, true,
  false, ◌&&◌, some, In, Bool-cases, ◌==◌, ==_iff, arith,
}
use einit.Svc.Runnable.{HasSlots}
use einit.World.{NotifPoll, World}
use einit.Svc.Register.{Relation, poll_of, obsrv_of, srcs_of}
use einit.Svc.Register.Reach.{Reach}
use einit.Svc.Register.Rank.{IsAcyclic, IsAcyclic-add}
use einit.Svc.Register.Writes.{
  In-adds, same_rel, same_rel-eq, registered, obsrv_of-registered, srcs_of-registered,
  poll_of-registered,
}

-- Observers and sources are two views of the same registrations, among services of the repository,
-- and no service waits for itself. Each poll has slots.
pub record Wired (w : World) : Type 0 where
  pub acyclic : (rel : Relation) → IsAcyclic (srcs_of rel w.svc) w.repo
  pub linked :
      (rel : Relation) (src sink : ℕ)
      → In sink (obsrv_of rel (w.svc src)) ↔ In src (srcs_of rel w.svc sink)
  pub closed : (rel : Relation) (src sink : ℕ) → In sink (obsrv_of rel (w.svc src)) → In sink w.repo
  pub slots : (rel : Relation) (id : ℕ) → In id w.repo → HasSlots (poll_of rel (w.svc id))

module _ (rel : Relation) (sink src : ℕ) (poll : NotifPoll) (w : World) where
  module _ (has_poll : poll_of rel (w.svc sink) ≡ some poll) (wired : Wired w)
      (sink_in : In sink w.repo) (src_in : In src w.repo)
      (free : ¬ Reach (srcs_of rel w.svc) sink src) where
    more_srcs :
        (other : Relation) (x y : ℕ)
        → In y (srcs_of other (registered rel sink src poll w).svc x)
        → In y (srcs_of other w.svc x) ⊎ ((same_rel other rel && (sink == x)) ≡ true × (y ≡ src))
    more_srcs other x y i =
        (In-adds y (same_rel other rel && (sink == x)) (srcs_of other w.svc x) src).0
          (rw (srcs_of-registered rel sink src poll w has_poll other x) at i)

    IsAcyclic-for :
        (other : Relation)
        → (same_rel other rel ≡ true) ⊎ (same_rel other rel ≡ false)
        → IsAcyclic (srcs_of other (registered rel sink src poll w).svc) w.repo
    IsAcyclic-for other (inl e) =
        IsAcyclic-add (srcs_of other w.svc) (srcs_of other (registered rel sink src poll w).svc)
          w.repo sink src (wired.acyclic other) src_in
          (subst (λ r. ¬ Reach (srcs_of r w.svc) sink src) (sym (same_rel-eq other rel e)) free)
          (λ x y i. elim (more_srcs other x y i) [
            | inl old ↦ inl old
            | inr (q, same) ↦ inr (sym ((==_iff sink x).0 (ground arith)), same)
          ])
    IsAcyclic-for other (inr e) =
        let (rank, ranked) = wired.acyclic other in
        (
          rank,
          λ x y i. elim (more_srcs other x y i) [
            | inl old ↦ ranked x y old
            | inr (q, same) ↦ absurd (ground arith)
          ],
        )

    pub registered-Wired : Wired (registered rel sink src poll w)
    registered-Wired = record {
      acyclic = λ other. IsAcyclic-for other (Bool-cases (same_rel other rel));
      linked = λ other a b.
          let o = In-adds b (same_rel other rel && src == a) (obsrv_of other (w.svc a)) sink in
          let s = In-adds a (same_rel other rel && sink == b) (srcs_of other w.svc b) src in
          let old = wired.linked other a b in
          rw
            (
              obsrv_of-registered rel sink src poll w other a,
              srcs_of-registered rel sink src poll w has_poll other b,
            )
            (
              λ i. s.1 (elim (o.0 i) [
                | inl x ↦ inl (old.0 x)
                | inr (e, q) ↦ inr (ground arith, ground arith)
              ]),
              λ i. o.1 (elim (s.0 i) [
                | inl x ↦ inl (old.1 x)
                | inr (e, q) ↦ inr (ground arith, ground arith)
              ]),
            );
      closed = λ other a b i.
          elim ((In-adds b (same_rel other rel && src == a) (obsrv_of other (w.svc a)) sink).0
            (rw (obsrv_of-registered rel sink src poll w other a) at i)) [
              | inl old ↦ wired.closed other a b old
              | inr (e, same) ↦ subst (λ k. In k w.repo) (sym same) sink_in
            ];
      slots = λ other j m. subst HasSlots (sym (poll_of-registered rel sink src poll w other j)) (
          grown_slots (same_rel other rel && (sink == j)) (poll_of other (w.svc j))
            (subst HasSlots has_poll (wired.slots rel sink sink_in)) (wired.slots other j m));
    }
      where
        grown_slots :
            (b : Bool) (old : Option NotifPoll)
            → 0 < poll.nr
            → HasSlots old
            → HasSlots
                (if b then some (record { srcs = poll.srcs ++ (src ∷ []); nr = poll.nr }) else old)
        grown_slots true old n h = n
        grown_slots false old n h = h
