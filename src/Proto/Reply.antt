-- ===== src/Proto/Reply.antt =====
-- srv.c and lib.c: replies, as the server writes them into the buffer of the request and the client
-- reads them. The buffer's `seq` and `type` stay those of the request, as the two headers overlay.
pub mod RoundTrip
use einit.Prelude.{
  ℕ, zero, suc, ◌+◌, ◌-◌, ◌/◌, ◌%◌, Bool, ◌||◌, not, List, [], ◌∷◌, ◌++◌, Result, ok, err,
  assertion, length, leb, ltb, ◌==◌, if◌then◌else◌, ℤ, pos, negsuc, neg, is_neg,
}
use einit.Conf.{CStr}
use einit.Sys.{Sys}
use einit.World.{SvcState, stopped, starting, ready, stopping}
use einit.Proto.Request.{tinit_msg_type_nr, le16, u16_at, mem_strnlen}

abbrev pub eproto : ℕ
eproto = 71

abbrev pub enoent : ℕ
enoent = 2

abbrev pub enospc : ℕ
enospc = 28

-- TINIT_MSG_SIZE_MAX, NAME_MAX, and the sizes of the reply's header, of the header of a status
-- reply, which is aligned, and of a status
abbrev pub tinit_msg_size_max : ℕ
tinit_msg_size_max = 4096

abbrev pub path_name_max : ℕ
path_name_max = 255

abbrev pub reply_head_size : ℕ
reply_head_size = 6

abbrev pub status_reply_size : ℕ
status_reply_size = 8

abbrev pub status_data_size : ℕ
status_data_size = 8

-- struct tinit_status_data, with the configuration path that follows it
pub record StatusData : Type 0 where
  pub pid : ℕ
  pub adm_state : ℕ
  pub run_state : ℕ
  pub conf_path : CStr

-- The server's buffer: `head.ret`, the size, and the statuses written, each with its offset.
pub record Buff : Type 0 where
  pub seq : ℕ
  pub type : ℕ
  pub ret : ℕ
  pub bytes : ℕ
  pub statuses : List (ℕ × StatusData)

-- enum tinit_svc_state as a number
abbrev pub stat_code : SvcState → ℕ
stat_code stopped = 0
stat_code starting = 1
stat_code ready = 2
stat_code stopping = 3

-- a status as the server fills it in
abbrev pub status_data : ℕ → Bool → SvcState → CStr → StatusData
status_data pid is_on state path = record {
  pid = pid;
  adm_state = if is_on then 1 else 0;
  run_state = stat_code state;
  conf_path = path ++ (0 ∷ []);
}

reply_by : Buff → ℤ → Result Buff
reply_by buff (pos zero) = ok (record buff { ret = 0; bytes = reply_head_size })
reply_by buff (pos (suc n)) = err assertion
reply_by buff (negsuc n) =
    if leb n 4095
    then ok (record buff { ret = (n + 1) % 65536; bytes = reply_head_size })
    else err assertion

unfoldable pub tinit_srv_build_reply : Buff → ℤ → Result Buff
unfolding reply_by
tinit_srv_build_reply buff ret =
    if leb tinit_msg_type_nr buff.type then err assertion else reply_by buff ret

-- the bytes of a reply that is its header alone
unfoldable pub head_bytes : Buff → List ℕ
head_bytes buff = le16 buff.seq ++ (le16 buff.type ++ le16 buff.ret)

unfoldable pub tinit_srv_setup_status_reply : Buff → Result Buff
tinit_srv_setup_status_reply buff =
    if buff.type == 0
    then ok (record buff { ret = 0; bytes = status_reply_size })
    else err assertion

module _ (sys : Sys) where
  -- the assertions on the path and on the buffer
  unfoldable pub append_asserts : Buff → CStr → Bool
  append_asserts buff path =
      length path == 0
      || leb path_name_max (length path)
      || not (buff.ret == 0)
      || ltb buff.bytes status_reply_size
      || ltb tinit_msg_size_max buff.bytes

  unfoldable pub tinit_srv_append_status_reply :
      Buff → ℕ → Bool → SvcState → CStr → Result (ℤ × Buff)
  unfolding append_asserts
  tinit_srv_append_status_reply buff pid is_on state path =
      let offset = sys.stroll_round_upper buff.bytes status_data_size in
      let sz = offset + status_data_size + length path + 1 in
      if append_asserts buff path
      then err assertion
      else if ltb tinit_msg_size_max sz
      then ok (neg enospc, record buff { ret = enospc; bytes = reply_head_size })
      else ok (
        pos 0,
        record buff {
          bytes = sz;
          statuses = buff.statuses ++ ((offset, status_data pid is_on state path) ∷ []);
        },
      )

-- the client's reading of a reply without statuses
unfoldable pub tinit_parse_named_reply : List ℕ → ℕ → ℕ → ℕ → ℤ
tinit_parse_named_reply buff size seqno type =
    if not (size == reply_head_size) || not (u16_at buff 0 == seqno) || not (u16_at buff 2 == type)
    then neg eproto
    else neg (u16_at buff 4)

-- the tests of a status: 0 for the process where the service has none to show
unfoldable pub checked_status : StatusData → ℕ → ℤ × ℕ
checked_status status len =
    if status.adm_state == 0
    then if status.run_state == 0 || status.run_state == 3
      then (pos len, 0)
      else (neg eproto, status.pid)
    else if not (status.adm_state == 1)
    then (neg eproto, status.pid)
    else if status.run_state == 1
    then (pos len, 0)
    else if not (status.run_state == 2) || status.pid == 0
    then (neg eproto, status.pid)
    else (pos len, status.pid)

-- The length of the path, or a negative errno, and the value left in `status->pid`. The field
-- `conf_path` is the memory behind it, and `room` the number of bytes to the end of the reply.
unfoldable pub tinit_parse_status_data : StatusData → ℕ → ℤ × ℕ
unfolding checked_status
tinit_parse_status_data status room =
    let max = if ltb room path_name_max then room else path_name_max in
    let len = mem_strnlen status.conf_path max in
    if room == 0
    then (neg enoent, status.pid)
    else if len == 0 || leb max len
    then (neg eproto, status.pid)
    else checked_status status len

-- The head of a status reply as the client reads it: `first` is what parsing its first status gives.
unfoldable pub tinit_parse_status_reply : List ℕ → ℕ → ℕ → ℤ → ℤ
tinit_parse_status_reply buff size seqno first =
    if ltb size reply_head_size || not (u16_at buff 0 == seqno) || not (u16_at buff 2 == 0)
    then neg eproto
    else if not (u16_at buff 4 == 0)
    then neg (u16_at buff 4)
    else if ltb size status_reply_size || is_neg first
    then neg eproto
    else pos 0
