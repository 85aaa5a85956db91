-- ===== src/Srv/Status.antt =====
-- The reply to a status request stays within its buffer.
use einit.Prelude.{
  ◌>>=◌, ℕ, zero, suc, ◌+◌, ◌≤◌, ◌<◌, ◌≡◌, refl, Bool, true, false, Option, none, some, List, [],
  ◌∷◌, ◌++◌, All, inl, inr, length, Result, ok, err, assertion, Returns, Returns-bind, Bool-cases,
  ℤ, negsuc, is_zero, arith, if◌then◌else◌, length-append, ◌==◌, ltb, leb, ◌%◌,
}
use einit.Conf.{CStr}
use einit.Sys.{Sys}
use einit.World.{SvcState, World}
use einit.Svc.Cascade.{to_unsigned}
use einit.Svc.Events.{svc_is_on}
use einit.Proto.Request.{tinit_msg_type_nr}
use einit.Proto.Reply.{
  Buff, StatusData, status_data, tinit_msg_size_max, path_name_max, status_data_size,
  status_reply_size, reply_head_size, append_asserts, tinit_srv_build_reply,
  tinit_srv_setup_status_reply, tinit_srv_append_status_reply,
}
use einit.Srv.{status_loop, append_one, status_end, tinit_srv_request_status, fnm_nomatch}

-- A status, with its path and the NUL, lies in the buffer.
abbrev StatusFits : ℕ × StatusData → Type 0
StatusFits (offset, data_) = offset + status_data_size + length data_.conf_path ≤ tinit_msg_size_max

-- The size of the reply, and all that was written, are within the buffer.
pub record Fits (buff : Buff) : Type 0 where
  pub type : buff.type < tinit_msg_type_nr
  pub bytes : buff.bytes ≤ tinit_msg_size_max
  pub written : All StatusFits buff.statuses

record Growing (buff : Buff) : Type 0 where
  fits : Fits buff
  fresh : buff.ret ≡ 0
  headed : status_reply_size ≤ buff.bytes

All-snoc :
    (xs : List (ℕ × StatusData)) (x : ℕ × StatusData)
    → All StatusFits xs
    → StatusFits x
    → All StatusFits (xs ++ (x ∷ []))
All-snoc [] x h k = (k, tt)
All-snoc (y ∷ xs) x h k = (h.0, All-snoc xs x h.1 k)

past_asserts :
    {A : Type 0} (P : A → Type 0) (b : Bool) (r : Result A)
    → b ≡ false
    → Returns P r
    → Returns P (if b then err assertion else r)
past_asserts P b r e h = rw e h

pub build_reply-Fits :
    (buff : Buff) (ret : ℕ)
    → ret < 4096
    → Fits buff
    → Returns Fits (tinit_srv_build_reply buff (negsuc ret))
unfolding tinit_srv_build_reply
build_reply-Fits buff ret r h =
    past_asserts Fits (leb tinit_msg_type_nr buff.type) _ (let t = h.type in ground arith)
      (kept (leb ret 4095) (ground arith))
  where
    kept :
        (b : Bool)
        → b ≡ true
        → Returns Fits (
            if b
            then ok (record buff { ret = (ret + 1) % 65536; bytes = reply_head_size })
            else err assertion)
    kept b e = rw e (record { type = h.type; bytes = omega arith; written = h.written })

module _ (sys : Sys) (rounds : (n : ℕ) → n ≤ sys.stroll_round_upper n status_data_size) where
  asserts_hold :
      (buff : Buff) (path : CStr)
      → buff.ret ≡ 0
      → status_reply_size ≤ buff.bytes
      → buff.bytes ≤ tinit_msg_size_max
      → 0 < length path
      → length path < path_name_max
      → append_asserts sys buff path ≡ false
  unfolding append_asserts
  asserts_hold buff path f g b n m = ground arith

  append-Growing :
      (buff : Buff) (pid : ℕ) (is_on : Bool) (state : SvcState) (path : CStr)
      → Growing buff
      → 0 < length path
      → length path < path_name_max
      → Returns
          (λ r. Fits r.1 × (is_zero r.0 ≡ true → Growing r.1))
          (tinit_srv_append_status_reply sys buff pid is_on state path)
  unfolding tinit_srv_append_status_reply
  append-Growing buff pid is_on state path h n m =
      let t = h.fits.type in
      let f = h.fresh in
      past_asserts Post (append_asserts sys buff path) _
        (asserts_hold buff path f h.headed h.fits.bytes n m)
        (let sz : ℕ =
            sys.stroll_round_upper buff.bytes status_data_size
            + status_data_size
            + length path
            + 1 in
          elim (Bool-cases (ltb tinit_msg_size_max sz)) [
            | inl full ↦ rw full (
              record { type = omega arith; bytes = omega arith; written = h.fits.written },
              λ e. absurd (ground arith),
            )
            | inr room ↦ rw room (
              grown (room_le sz room),
              λ e. record { fits = grown (room_le sz room); fresh = f; headed = headed_after },
            )
          ])
    where
      Post : ℤ × Buff → Type 0
      Post r = Fits r.1 × (is_zero r.0 ≡ true → Growing r.1)

      room_le : (n : ℕ) → ltb tinit_msg_size_max n ≡ false → n ≤ tinit_msg_size_max
      room_le n h = ground arith

      headed_after : status_reply_size ≤ (
          sys.stroll_round_upper buff.bytes status_data_size + status_data_size + length path + 1)
      headed_after = let g = h.headed in let r = rounds buff.bytes in omega arith

      grown :
          (sys.stroll_round_upper buff.bytes status_data_size + status_data_size + length path + 1)
            ≤ tinit_msg_size_max
          → Fits (record buff {
            bytes =
                (sys.stroll_round_upper buff.bytes status_data_size
                  + status_data_size
                  + length path
                  + 1);
            statuses =
                buff.statuses
                ++ ((
                  (sys.stroll_round_upper buff.bytes status_data_size),
                  status_data pid is_on state path,
                )
                    ∷ []);
          })
      grown le = record {
        type = h.fits.type;
        bytes = le;
        written =
            All-snoc buff.statuses
              (
                (sys.stroll_round_upper buff.bytes status_data_size),
                status_data pid is_on state path,
              )
              h.fits.written (let q = length-append path (0 ∷ []) in omega arith);
      }

  module _ (w : World) (pattern : CStr) where
    append_one-Growing :
        (id : ℕ) (buff : Buff)
        → Growing buff
        → (0 < length (w.svc id).conf.path) × (length (w.svc id).conf.path < path_name_max)
        → Returns (λ r. Fits r.1 × (is_zero r.0 ≡ true → Growing r.1)) (append_one sys w id buff)
    unfolding append_one
    append_one-Growing id buff h p =
        append-Growing buff (to_unsigned (w.svc id).child) (svc_is_on w id) (w.svc id).state
          (w.svc id).conf.path h p.0 p.1

    status_loop-Fits :
        (ids : List ℕ) (cnt : ℕ) (buff : Buff)
        → All
            (λ id.
              (0 < length (w.svc id).conf.path) × (length (w.svc id).conf.path < path_name_max))
            ids
        → Growing buff
        → Returns (λ r. Fits r.1) (status_loop sys w pattern ids cnt buff)
    unfolding status_loop
    status_loop-Fits [] cnt buff p h = h.fits
    status_loop-Fits (id ∷ ids) cnt buff p h =
        by_match (sys.fnmatch pattern (w.svc id).conf.name == fnm_nomatch)
          (sys.fnmatch pattern (w.svc id).conf.name == 0) _ _ _
          (status_loop-Fits ids cnt buff p.1 h)
          (Returns-bind (λ r. Fits r.1) (append_one sys w id buff) _
            (append_one-Growing id buff h p.0)
            (λ (full, buff') q. elim (Bool-cases (is_zero full)) [
              | inl e ↦ rw e (status_loop-Fits ids (suc cnt) buff' p.1 (q.1 e))
              | inr e ↦ rw e q.0
            ]))
          (Returns-bind (λ r. Fits r.1) (tinit_srv_build_reply buff (negsuc 21)) _
            (build_reply-Fits buff 21 (omega arith) h.fits) (λ buff' q. q))
      where
        by_match :
            (b c : Bool) (skip more wrong : Result (Option ℕ × Buff))
            → Returns (λ r. Fits r.1) skip
            → Returns (λ r. Fits r.1) more
            → Returns (λ r. Fits r.1) wrong
            → Returns (λ r. Fits r.1) (if b then skip else if c then more else wrong)
        by_match true c skip more wrong x y z = x
        by_match false true skip more wrong x y z = y
        by_match false false skip more wrong x y z = z

    status_end-Fits : (r : Option ℕ × Buff) → Fits r.1 → Returns Fits (status_end sys r)
    unfolding status_end
    status_end-Fits (none, buff) h = h
    status_end-Fits (some zero, buff) h = build_reply-Fits buff 1 (omega arith) h
    status_end-Fits (some (suc cnt), buff) h = h

    past_type :
        (b : Bool) (buff : Buff) (f : Buff → Result Buff)
        → b ≡ true
        → Returns Fits (f buff)
        → Returns Fits ((if b then ok buff else err assertion) >>= f)
    past_type b buff f e h = rw e h

    -- A status request, in a buffer of that type, with any pattern, where every service's path has 1 to 254 bytes and rounding up
    -- does not round down: no assertion fails, and the reply's size and every status written into it,
    -- with its path, are within the 4096 bytes of the buffer, however many services match.
    pub tinit_srv_request_status-Fits :
        (buff : Buff)
        → buff.type ≡ 0
        → buff.statuses ≡ []
        → All
            (λ id.
              (0 < length (w.svc id).conf.path) × (length (w.svc id).conf.path < path_name_max))
            w.repo
        → Returns Fits (tinit_srv_request_status sys w pattern buff)
    unfolding tinit_srv_request_status tinit_srv_setup_status_reply
    tinit_srv_request_status-Fits buff t e p =
        let headed : Buff = record buff { ret = 0; bytes = status_reply_size } in
        let start : Growing headed = record {
          fits = record { type = omega arith; bytes = omega arith; written = rw e tt };
          fresh = refl;
          headed = omega arith;
        } in
        past_type (buff.type == 0) headed _ (ground arith) (
          Returns-bind {P = λ r. Fits r.1} Fits (status_loop sys w pattern w.repo 0 headed) _
            (status_loop-Fits w.repo 0 headed p start) (λ r q. status_end-Fits r q))
