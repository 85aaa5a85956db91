-- ===== src/Srv/Queue.antt =====
-- The queues of buffers that srv.c works on. They are libutils' (unsk_dgram_buffq), which is not part of
-- the repository: the operations that srv.c calls, as an interface, and what it relies on.
use einit.Prelude.{ℕ, ◌+◌, ◌≡◌, Bool, true, false, List, [], ◌∷◌, ◌++◌, ◌==◌, if◌then◌else◌}

abbrev pub count_one : ℕ → ℕ → ℕ
count_one c b = if c == b then 1 else 0

abbrev pub count : ℕ → List ℕ → ℕ
count c [] = 0
count c (b ∷ bs) = count_one c b + count c bs

-- The operations on queues of type `Q`. Buffers are known by a number; `free` and `busy` list those
-- that can be taken to receive a request, and those that hold a reply, in the order of the replies.
pub record Buffq (Q : Type 0) : Type 0 where
  pub free : Q → List ℕ
  pub busy : Q → List ℕ
  pub has_free : Q → Bool
  pub has_busy : Q → Bool
  pub dqueue_free : Q → ℕ × Q
  pub dqueue_busy : Q → ℕ × Q
  pub nqueue_busy : ℕ → Q → Q
  pub requeue_busy : ℕ → Q → Q
  pub release : ℕ → Q → Q

-- The documented behaviour. In which order free buffers are taken is not part of it.
pub record IsBuffq {Q : Type 0} (ops : Buffq Q) : Type 0 where
  pub dqueue_free-free :
      (q : Q)
      → ops.has_free q ≡ true
      → (c : ℕ)
      → count c (ops.free q)
        ≡ count_one c (ops.dqueue_free q).0 + count c (ops.free (ops.dqueue_free q).1)
  pub dqueue_free-busy :
      (q : Q) → ops.has_free q ≡ true → ops.busy (ops.dqueue_free q).1 ≡ ops.busy q
  pub dqueue_busy-busy :
      (q : Q)
      → ops.has_busy q ≡ true
      → ops.busy q ≡ (ops.dqueue_busy q).0 ∷ ops.busy (ops.dqueue_busy q).1
  pub dqueue_busy-free :
      (q : Q) → ops.has_busy q ≡ true → ops.free (ops.dqueue_busy q).1 ≡ ops.free q
  pub no_busy : (q : Q) → ops.has_busy q ≡ false → ops.busy q ≡ []
  pub nqueue_busy-busy : (b : ℕ) (q : Q) → ops.busy (ops.nqueue_busy b q) ≡ ops.busy q ++ (b ∷ [])
  pub nqueue_busy-free : (b : ℕ) (q : Q) → ops.free (ops.nqueue_busy b q) ≡ ops.free q
  pub requeue_busy-busy : (b : ℕ) (q : Q) → ops.busy (ops.requeue_busy b q) ≡ b ∷ ops.busy q
  pub requeue_busy-free : (b : ℕ) (q : Q) → ops.free (ops.requeue_busy b q) ≡ ops.free q
  pub release-free :
      (b : ℕ) (q : Q) (c : ℕ)
      → count c (ops.free (ops.release b q)) ≡ count_one c b + count c (ops.free q)
  pub release-busy : (b : ℕ) (q : Q) → ops.busy (ops.release b q) ≡ ops.busy q
