-- ===== src/Srv/Transport/Kept.antt =====
-- What a run of the server keeps: the buffers in the queues, and the replies in their order.
use einit.Prelude.{
  ℕ, ◌+◌, ◌≤◌, ◌≡◌, refl, sym, ap, ◌∙◌, inl, inr, true, false, ◌||◌, List, [], ◌∷◌, ◌++◌, map, onto,
  onto-append, Bool-cases, arith, ◌==◌, if◌then◌else◌,
}
use einit.Mnt.{eagain}
use einit.Svc.Evolve.{IsSound}
use einit.Svc.Serviced.{Serviced, Serviced-refl, Serviced-trans}
use einit.Proto.Reply.{Buff}
use einit.Srv.Queue.{count, Buffq}
use einit.Srv.Transport.{eintr, Server, set_mem}

pub count-append : (c : ℕ) (xs ys : List ℕ) → count c (xs ++ ys) ≡ count c xs + count c ys
count-append c [] ys = omega arith
count-append c (x ∷ xs) ys = omega (arith, count-append c xs ys)

-- A reply is written to a buffer that is not in use, and put at the end.
pub onto-set_mem :
    (b : ℕ) (buff : Buff) (mem : ℕ → Buff) (xs : List ℕ) (before : List Buff)
    → count b xs ≡ 0
    → onto (map (set_mem b buff mem) (xs ++ (b ∷ []))) before ≡ buff ∷ onto (map mem xs) before
onto-set_mem b buff mem [] before h = let e : (b == b) ≡ true = ground arith in rw e refl
onto-set_mem b buff mem (x ∷ xs) before h = elim (Bool-cases (b == x)) [
  | inl e ↦ absurd (ground arith)
  | inr e ↦
      (let f : (x == b) ≡ false = ground arith in
        rw f (onto-set_mem b buff mem xs (mem x ∷ before) (ground arith)))
]

-- The replies of which no more is to be sent: sent, refused by the client, or dropped for want of
-- memory. The latest is first.
unfoldable pub dealt : List (Buff × ℕ) → List Buff
dealt [] = []
dealt ((buff, e) ∷ sends) =
    let before = dealt sends in if (e == eagain) || (e == eintr) then before else buff ∷ before

module _ {Q : Type 0} (ops : Buffq Q) where
  -- how many times a buffer is in the queues
  abbrev pub in_queues : Q → ℕ → ℕ
  in_queues q c = count c (ops.free q) + count c (ops.busy q)

  -- All replies up to now and in the order of the requests, the last one first: those dealt with, and
  -- on top of them those that wait.
  unfoldable pub history : Server Q → List Buff
  history srv = onto (map srv.mem (ops.busy srv.queue)) (dealt srv.sends)

  -- What a run of the server keeps: every buffer stays in the same number of places, and the replies
  -- stay as they are in their order, with new ones at the end.
  pub record Kept (u v : Server Q) : Type 0 where
    pub serviced : Serviced u.world v.world
    pub buffers : (c : ℕ) → in_queues v.queue c ≡ in_queues u.queue c
    pub replies : (new : List Buff) × (history v ≡ onto new (history u))

  pub Kept-refl : (u : Server Q) → IsSound u.world → Kept u u
  Kept-refl u s = record {
    serviced = Serviced-refl u.world s;
    buffers = λ c. refl;
    replies = ([], refl);
  }

  pub Kept-trans : {u v w : Server Q} → Kept u v → Kept v w → Kept u w
  Kept-trans {u} {v} {w} h k =
      let (new, e) = h.replies in
      let (more, f) = k.replies in
      record {
        serviced = Serviced-trans h.serviced k.serviced;
        buffers = λ c. k.buffers c ∙ h.buffers c;
        replies = (new ++ more, f ∙ (ap (onto more) e ∙ sym (onto-append new more (history u))));
      }

  -- No buffer is in the queues twice.
  unfoldable pub IsDistinct : Q → Type 0
  IsDistinct q = (c : ℕ) → in_queues q c ≤ 1
