-- ===== src/Proto/Step/Walk.antt =====
-- The client steps to where the server appended.
use einit.Prelude.{
  ℕ, ◌+◌, ◌-◌, ◌%◌, ◌≤◌, ◌<◌, ◌≡◌, ◌≢◌, refl, ap, ◌∙◌, sym, subst, Bool, true, false, [], ◌∷◌, In,
  inl, In-append_right, length, Result, ok, err, assertion, ltb, if◌then◌else◌, ℤ, pos, neg, arith,
}
use einit.Conf.{CStr}
use einit.Common.Names.Valid.{IsCStr}
use einit.Sys.{Sys}
use einit.World.{SvcState, ready}
use einit.Svc.Evolve.{side_of}
use einit.Proto.Reply.{
  StatusData, Buff, status_data, status_data_size, tinit_msg_size_max, path_name_max, enoent,
  enospc, append_asserts, tinit_srv_append_status_reply, tinit_parse_status_data,
}
use einit.Proto.Reply.RoundTrip.{is_on_side, parse-status_data}
use einit.Proto.Step.{StatusIter, stepped, conf_path_offset, tinit_step_status}

-- stroll_round_upper() to a multiple of 8
abbrev pub IsRounding : Sys → Type 0
IsRounding sys =
    (n : ℕ)
    → (sys.stroll_round_upper n status_data_size % 8 ≡ 0)
      × (n ≤ sys.stroll_round_upper n status_data_size)
      × (sys.stroll_round_upper n status_data_size < n + 8)

-- The client is at the status that ends the server's buffer.
pub record IsLast (iter : StatusIter) (buff : Buff) : Type 0 where
  pub aligned : iter.status % 8 ≡ 0
  pub bytes : buff.bytes ≡ iter.status + status_data_size + iter.len + 1

-- What the server has written is what stands in the memory.
abbrev pub Shows : (ℕ → StatusData) → Buff → Type 0
Shows memory buff =
    (off : ℕ) (status : StatusData) → In (off, status) buff.statuses → memory off ≡ status

-- An append that succeeds has passed the assertions, and has written what it writes.
appended :
    (a b : Bool) (x y next : Buff)
    → (if◌then◌else◌ {A = Result (ℤ × Buff)} a
        (err assertion)
        (if b then ok (neg enospc, x) else ok (pos 0, y)))
      ≡ ok (pos 0, next)
    → (a ≡ false) × (y ≡ next)
appended true b x y next e = cc
appended false true x y next e = cc
appended false false x y next e = (refl, cc)

rounded :
    (off n a b : ℕ)
    → off % 8 ≡ 0
    → a % 8 ≡ 0
    → b % 8 ≡ 0
    → off + n ≤ a
    → a < off + n + 8
    → n ≤ b
    → b < n + 8
    → off + b ≡ a
rounded off n a b p q r h k l m = omega arith

parse_nothing : (status : StatusData) → tinit_parse_status_data status 0 ≡ (neg enoent, status.pid)
unfolding tinit_parse_status_data
parse_nothing status = refl

path_bounds :
    (sys : Sys) (buff : Buff) (path : CStr)
    → append_asserts sys buff path ≡ false
    → (0 < length path) × (length path < path_name_max)
unfolding append_asserts
path_bounds sys buff path h = ground arith

module _ (sys : Sys) (rounding : IsRounding sys) (memory : ℕ → StatusData) (iter : StatusIter)
    (buff : Buff) (last : IsLast iter buff) where
  next_offset :
      iter.status + sys.stroll_round_upper (status_data_size + iter.len + 1) status_data_size
      ≡ sys.stroll_round_upper buff.bytes status_data_size
  next_offset =
      let (p, h, k) = rounding (status_data_size + iter.len + 1) in
      let (q, l, m) = rounding buff.bytes in
      let e = last.bytes in
      rounded iter.status (status_data_size + iter.len + 1)
        (sys.stroll_round_upper buff.bytes status_data_size)
        (sys.stroll_round_upper (status_data_size + iter.len + 1) status_data_size) last.aligned q p
        (omega arith) (omega arith) h k

  step_end : tinit_step_status sys memory buff.bytes iter ≡ (neg enoent, iter)
  unfolding tinit_step_status
  step_end =
      let nxt =
        iter.status + sys.stroll_round_upper (status_data_size + iter.len + 1) status_data_size in
      let (q, l, m) = rounding buff.bytes in
      let e = next_offset in
      let no_room : buff.bytes - (nxt + conf_path_offset) ≡ 0 = omega arith in
      ap (stepped iter nxt)
        (ap (tinit_parse_status_data (memory nxt)) no_room ∙ parse_nothing (memory nxt))

  -- Where the client stands at the last status that the server has written: in a reply that ends here
  -- its next step is refused with ENOENT. But where the server appends a further status of a C string
  -- without an error, with a process if it is ready, and the reply ends behind it or later, the step
  -- finds just this status, with its path's length, and stands at the last status again. stroll_round_upper rounds up to a
  -- multiple of 8.
  pub step-append :
      (pid : ℕ) (state : SvcState) (path : CStr) (next : Buff) (end : ℕ)
      → IsCStr path
      → (state ≡ ready → pid ≢ 0)
      → tinit_srv_append_status_reply sys buff pid (is_on_side (side_of state)) state path
        ≡ ok (pos 0, next)
      → Shows memory next
      → next.bytes ≤ end
      → (tinit_step_status sys memory buff.bytes iter ≡ (neg enoent, iter))
        × (found : StatusIter) × (tinit_step_status sys memory end iter ≡ (pos 0, found))
        × (found.len ≡ length path)
        × (memory found.status ≡ status_data pid (is_on_side (side_of state)) state path)
        × IsLast found next
  unfolding tinit_step_status tinit_srv_append_status_reply
  step-append pid state path next end c alive e shows small =
      let off = sys.stroll_round_upper buff.bytes status_data_size in
      let filled = status_data pid (is_on_side (side_of state)) state path in
      let (passed, written) =
        appended (append_asserts sys buff path)
          (ltb tinit_msg_size_max (off + status_data_size + length path + 1)) _ _ next e in
      let (n, m) = path_bounds sys buff path passed in
      let stands : memory off ≡ filled = shows off filled (
        subst (λ (b : Buff). In (off, filled) b.statuses) written
          (In-append_right (off, filled) buff.statuses ((off, filled) ∷ []) (inl refl))) in
      let size : next.bytes ≡ off + status_data_size + length path + 1 =
        ap (λ (b : Buff). b.bytes) (sym written) in
      (
        step_end,
        record { status = off; len = length path },
        ap (λ k. stepped iter k (tinit_parse_status_data (memory k) (end - (k + conf_path_offset))))
              next_offset
            ∙ ap
                (λ d. stepped iter off (tinit_parse_status_data d (end - (off + conf_path_offset))))
                stands
            ∙ ap (stepped iter off) (
                parse-status_data pid state path (end - (off + conf_path_offset)) c n m
                  (omega arith) alive),
        refl,
        stands,
        record { aligned = (rounding buff.bytes).0; bytes = size },
      )
