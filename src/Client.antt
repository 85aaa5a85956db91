-- ===== src/Client.antt =====
-- lib.c: a request of the client from the call to the result, and svctl.c, the control tool. The socket
-- is libutils': a link, whose state is that of all behind it.
pub mod Chat
pub mod Tool
use einit.Prelude.{
  ℕ, suc, ◌+◌, ◌%◌, Bool, true, false, not, ◌&&◌, ◌||◌, Option, none, some, List, [], ◌∷◌, Result,
  ok, err, assertion, ◌>>=◌, leb, ◌==◌, if◌then◌else◌, ℤ, pos, negsuc, neg, is_zero, is_neg,
}
use einit.Conf.{CStr}
use einit.Common.Strings.{strcmp_eq, strnlen}
use einit.Common.Names.{einval, enodata, enametoolong}
use einit.Sys.{Sys}
use einit.Proto.Request.{tinit_svc_pattern_max, tinit_build_request}
use einit.Proto.Reply.{tinit_parse_named_reply}
use einit.Srv.{fnm_nomatch}
use einit.Target.Folder.{tinit_parse_svc_name}

-- unsk_dgram_clnt_recv(): the size and the bytes of a datagram, or a negative errno
pub data Received : Type 0 where
  received : ℕ → List ℕ → Received
  not_received : ℕ → Received

-- unsk_dgram_clnt_send() returns 0 or a negative errno.
pub record Link (W : Type 0) : Type 0 where
  pub clnt_send : List ℕ → W → Result (ℤ × W)
  pub clnt_recv : W → Result (Received × W)

-- a `uint16_t` counted up
abbrev pub inc16 : ℕ → ℕ
inc16 seqno = (seqno + 1) % 65536

abbrev pub is_len : ℕ → ℤ → Bool
is_len len (pos n) = n == len
is_len len (negsuc n) = false

module _ (sys : Sys) where
  -- the length, or a negative errno
  unfoldable pub tinit_parse_svc_pattern : CStr → ℤ
  tinit_parse_svc_pattern pattern =
      let len = strnlen pattern tinit_svc_pattern_max in
      let ret = sys.fnmatch pattern [] in
      if leb tinit_svc_pattern_max len
      then neg enametoolong
      else if len == 0
      then neg enodata
      else if not (ret == 0) && not (ret == fnm_nomatch)
      then neg einval
      else pos len

  module _ {W : Type 0} (link : Link W) where
    chat_end : ℕ → ℕ → Received → ℤ
    chat_end seqno type (not_received e) = neg e
    chat_end seqno type (received size buff) = tinit_parse_named_reply buff size seqno type

    -- The result, and the socket's sequence number behind.
    unfoldable pub tinit_named_chat : ℕ → ℕ → CStr → ℕ → W → Result (ℤ × ℕ × W)
    unfolding chat_end
    tinit_named_chat seqno type name len w =
        let run = link.clnt_send (tinit_build_request seqno type name len) w >>= λ (ret, w').
        let answer =
          link.clnt_recv w' >>= λ (r, w''). ok (chat_end seqno type r, inc16 seqno, w'') in
        if is_zero ret then answer else ok (ret, seqno, w') in
        if is_len len (tinit_parse_svc_name sys name) then run else err assertion

    abbrev pub tinit_start_svc : ℕ → CStr → ℕ → W → Result (ℤ × ℕ × W)
    tinit_start_svc seqno name len w = tinit_named_chat seqno 1 name len w

    abbrev pub tinit_stop_svc : ℕ → CStr → ℕ → W → Result (ℤ × ℕ × W)
    tinit_stop_svc seqno name len w = tinit_named_chat seqno 2 name len w

    abbrev pub tinit_restart_svc : ℕ → CStr → ℕ → W → Result (ℤ × ℕ × W)
    tinit_restart_svc seqno name len w = tinit_named_chat seqno 3 name len w

    abbrev pub tinit_reload_svc : ℕ → CStr → ℕ → W → Result (ℤ × ℕ × W)
    tinit_reload_svc seqno name len w = tinit_named_chat seqno 4 name len w

    abbrev pub tinit_switch_target : ℕ → CStr → ℕ → W → Result (ℤ × ℕ × W)
    tinit_switch_target seqno name len w = tinit_named_chat seqno 5 name len w

    -- svctl.c; the messages are left out
    cmd_by : (ℕ → CStr → ℕ → W → Result (ℤ × ℕ × W)) → ℕ → CStr → ℤ → W → Result (ℤ × W)
    cmd_by do_cmd seqno svc_name (negsuc e) w = ok (negsuc e, w)
    cmd_by do_cmd seqno svc_name (pos len) w =
        do_cmd seqno svc_name len w >>= λ (ret, seqno', w'). ok (ret, w')

    unfoldable pub do_svc_cmd :
        (ℕ → CStr → ℕ → W → Result (ℤ × ℕ × W)) → ℕ → CStr → W → Result (ℤ × W)
    unfolding cmd_by
    do_svc_cmd do_cmd seqno svc_name w =
        cmd_by do_cmd seqno svc_name (tinit_parse_svc_name sys svc_name) w
