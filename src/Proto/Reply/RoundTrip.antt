-- ===== src/Proto/Reply/RoundTrip.antt =====
-- What the client makes of the server's replies.
use einit.Prelude.{
  ℕ, zero, suc, ◌+◌, ◌*◌, ◌/◌, ◌%◌, ◌<◌, ◌≡◌, ◌≢◌, refl, ◌∙◌, Bool, true, false, Returns, arith, ℤ,
  pos, negsuc, neg, length, if◌then◌else◌, ltb, leb, ◌==◌, ◌||◌,
}
use einit.Conf.{CStr}
use einit.Common.Names.Valid.{IsCStr}
use einit.World.{SvcState, stopped, starting, ready, stopping, Side, on, off}
use einit.Svc.Evolve.{side_of}
use einit.Proto.Request.{tinit_msg_type_nr}
use einit.Proto.Request.RoundTrip.{mem_strnlen_name}
use einit.Proto.Reply.{
  Buff, tinit_srv_build_reply, head_bytes, tinit_parse_named_reply, checked_status, enoent, eproto,
  status_data, tinit_parse_status_data, path_name_max,
}

-- The results of a request that the server may put into a reply: 0 or a negative errno above -4097.
abbrev pub IsRet : ℤ → Type 0
IsRet (pos n) = n ≡ 0
IsRet (negsuc n) = n < 4096

-- The client reads from a reply to its request the very result that the server built it from.
pub parse-build_reply :
    (buff : Buff) (ret : ℤ)
    → IsRet ret
    → buff.seq < 65536
    → buff.type < tinit_msg_type_nr
    → Returns
        (λ reply. tinit_parse_named_reply (head_bytes reply) reply.bytes buff.seq buff.type ≡ ret)
        (tinit_srv_build_reply buff ret)
unfolding tinit_parse_named_reply tinit_srv_build_reply head_bytes
parse-build_reply buff (pos zero) r s t = ground arith
parse-build_reply buff (pos (suc n)) r s t = absurd (omega arith)
parse-build_reply buff (negsuc n) r s t =
    let es : buff.seq % 256 + 256 * (buff.seq / 256 % 256) ≡ buff.seq = omega arith in
    let et : buff.type % 256 + 256 * (buff.type / 256 % 256) ≡ buff.type = omega arith in
    let er : (n + 1) % 65536 % 256 + 256 * ((n + 1) % 65536 / 256 % 256) ≡ suc n = omega arith in
    ground arith

-- What the client keeps of a service's process: only a ready service has one to show.
abbrev pub shown_pid : SvcState → ℕ → ℕ
shown_pid ready pid = pid
shown_pid _ pid = 0

abbrev pub is_on_side : Side → Bool
is_on_side on = true
is_on_side off = false

checked_status-shown :
    (pid : ℕ) (state : SvcState) (path : CStr) (len : ℕ)
    → (state ≡ ready → pid ≢ 0)
    → checked_status (status_data pid (is_on_side (side_of state)) state path) len
      ≡ (pos len, shown_pid state pid)
unfolding checked_status
checked_status-shown pid stopped path len p = refl
checked_status-shown pid starting path len p = refl
checked_status-shown pid ready path len p = let q = p refl in ground arith
checked_status-shown pid stopping path len p = refl

to_checked :
    (len room : ℕ) (r : ℤ × ℕ) (pid : ℕ)
    → 0 < len
    → len < (if ltb room path_name_max then room else path_name_max)
    → len < room
    → (if room == 0
        then (neg enoent, pid)
        else if len == 0 || leb (if ltb room path_name_max then room else path_name_max) len
        then (neg eproto, pid)
        else r)
      ≡ r
to_checked len room r pid n h f = ground arith

-- The client accepts every status that the server fills in for a service whose handlers fit its
-- state, unless the service is ready and its process is 0: it finds the length of the path, and
-- takes the process of a ready service, and 0 for any other.
pub parse-status_data :
    (pid : ℕ) (state : SvcState) (path : CStr) (room : ℕ)
    → IsCStr path
    → 0 < length path
    → length path < path_name_max
    → length path < room
    → (state ≡ ready → pid ≢ 0)
    → tinit_parse_status_data (status_data pid (is_on_side (side_of state)) state path) room
      ≡ (pos (length path), shown_pid state pid)
unfolding tinit_parse_status_data
parse-status_data pid state path room c n m f p =
    let max : ℕ = if ltb room path_name_max then room else path_name_max in
    let h : length path < max = ground arith in
    rw (mem_strnlen_name path max c h) (
      to_checked (length path) room
        (checked_status (status_data pid (is_on_side (side_of state)) state path) (length path)) pid
        n h f
      ∙ checked_status-shown pid state path (length path) p)
