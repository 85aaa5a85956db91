-- ===== src/Client/Tool.antt =====
-- lib.c, tinit_load_status(), and svctl.c: the table of statuses, and the commands of the control tool.
-- The table is libsmartcols', which may fail to create it or a row; messages are left out.
pub mod Shown
use einit.Prelude.{
  ℕ, zero, suc, ◌+◌, ◌-◌, ◌*◌, ◌%◌, Bool, true, false, not, Option, none, some, List, [], ◌∷◌, ◌++◌,
  Result, ok, err, assertion, no_fuel, ◌>>=◌, drop, ◌==◌, if◌then◌else◌, ℤ, pos, negsuc, neg,
  is_zero, is_neg,
}
use einit.Conf.{CStr}
use einit.Common.Strings.{strcmp_eq}
use einit.Common.Names.{einval}
use einit.Sys.{Sys}
use einit.Repo.Load.{enomem}
use einit.Proto.Request.{byte_at, u16_at, tinit_build_request}
use einit.Proto.Reply.{
  StatusData, enoent, status_reply_size, tinit_parse_status_data, tinit_parse_status_reply,
}
use einit.Proto.Step.{StatusIter, conf_path_offset, tinit_step_status}
use einit.Client.{
  Received, received, not_received, Link, inc16, is_len, tinit_parse_svc_pattern, tinit_start_svc,
  tinit_stop_svc, tinit_restart_svc, tinit_reload_svc, tinit_switch_target, do_svc_cmd,
}

-- the status at an offset of a reply
unfoldable pub status_at : List ℕ → ℕ → StatusData
status_at buff i = record {
  pid = u16_at buff i + 65536 * u16_at buff (i + 2);
  adm_state = byte_at buff (i + 4);
  run_state = byte_at buff (i + 5);
  conf_path = drop (i + conf_path_offset) buff;
}

-- What tinit_load_status() has loaded: the reply, its size and the first status.
pub record Loaded : Type 0 where
  pub buff : List ℕ
  pub size : ℕ
  pub iter : StatusIter

-- the columns of a row: the path that the name is loaded from, whether it is on, and its state
abbrev pub Row : Type 0
Row = CStr × Bool × ℕ

-- whether libsmartcols fails to create the table, or the next row
pub record View : Type 0 where
  pub create_fails : Bool
  pub row_fails : List Row → Bool

module _ (sys : Sys) where
  -- what is made of the first status
  loaded_by : List ℕ → ℕ → ℕ → ℤ → ℤ × Option Loaded
  loaded_by buff size seqno (negsuc e) = (tinit_parse_status_reply buff size seqno (negsuc e), none)
  loaded_by buff size seqno (pos len) =
      let ret = tinit_parse_status_reply buff size seqno (pos len) in
      let iter : StatusIter = record { status = status_reply_size; len = len } in
      if is_zero ret
      then (ret, some (record { buff = buff; size = size; iter = iter }))
      else (ret, none)

  load_reply : ℕ → Received → ℤ × Option Loaded
  load_reply seqno (not_received e) = (neg e, none)
  load_reply seqno (received size buff) =
      loaded_by buff size seqno
        (tinit_parse_status_data (status_at buff status_reply_size)
          (size - (status_reply_size + conf_path_offset))).0

  -- the loop of show_status()
  unfoldable pub show_loop : View → Loaded → ℕ → StatusIter → List Row → Result (ℤ × List Row)
  show_loop view reply zero iter rows = err no_fuel
  show_loop view reply (suc fuel) iter rows =
      let status = status_at reply.buff iter.status in
      let row : Row = (status.conf_path, not (status.adm_state == 0), status.run_state) in
      let (ret, iter') = tinit_step_status sys (status_at reply.buff) reply.size iter in
      let rest = show_loop view reply fuel iter' (rows ++ (row ∷ [])) in
      if view.row_fails rows
      then ok (neg enomem, rows)
      else if is_zero ret
      then rest
      else ok (ret, rows ++ (row ∷ []))

  module _ {W : Type 0} (link : Link W) where
    -- The result, what was loaded, and the socket's sequence number behind.
    unfoldable pub tinit_load_status : ℕ → CStr → ℕ → W → Result (ℤ × Option Loaded × ℕ × W)
    unfolding load_reply loaded_by
    tinit_load_status seqno pattern len w =
        let run = link.clnt_send (tinit_build_request seqno 0 pattern len) w >>= λ (ret, w').
        let answer = link.clnt_recv w' >>= λ (r, w'').
        let (ret', o) = load_reply seqno r in ok (ret', o, inc16 seqno, w'') in
        if is_zero ret then answer else ok (ret, none, seqno, w') in
        if is_len len (tinit_parse_svc_pattern sys pattern) then run else err assertion

    -- Whether the table is shown: the rows, if the last step found no further status.
    unfoldable pub show_end : ℤ × List Row → ℤ × Option (List Row)
    show_end (pos n, rows) = (pos n, none)
    show_end (negsuc e, rows) = if suc e == enoent then (pos 0, some rows) else (negsuc e, none)

    -- A row takes up eight bytes of the reply at least.
    unfoldable pub show_loaded : View → Loaded → Result (ℤ × Option (List Row))
    show_loaded view reply =
        let shown = show_loop view reply (suc reply.size) reply.iter [] >>= λ r. ok (show_end r) in
        if view.create_fails then ok (neg enomem, none) else shown

    show_by : View → ℕ → CStr → ℤ → W → Result (ℤ × Option (List Row) × W)
    show_by view seqno pattern (negsuc e) w = ok (negsuc e, none, w)
    show_by view seqno pattern (pos len) w =
        tinit_load_status seqno pattern len w >>= λ (ret, o, seqno', w'). elim o [
          | none ↦ ok (ret, none, w')
          | some reply ↦ show_loaded view reply >>= λ (ret', rows). ok (ret', rows, w')
        ]

    unfoldable pub show_status : View → ℕ → CStr → W → Result (ℤ × Option (List Row) × W)
    unfolding show_by
    show_status view seqno pattern w =
        show_by view seqno pattern (tinit_parse_svc_pattern sys pattern) w

    -- the commands "start", "stop", "restart", "reload" and "switch"
    named_cmd : CStr → Option (ℕ → CStr → ℕ → W → Result (ℤ × ℕ × W))
    named_cmd cmd =
        if strcmp_eq cmd (b's' ∷ b't' ∷ b'a' ∷ b'r' ∷ b't' ∷ [])
        then some (tinit_start_svc sys link)
        else if strcmp_eq cmd (b's' ∷ b't' ∷ b'o' ∷ b'p' ∷ [])
        then some (tinit_stop_svc sys link)
        else if strcmp_eq cmd (b'r' ∷ b'e' ∷ b's' ∷ b't' ∷ b'a' ∷ b'r' ∷ b't' ∷ [])
        then some (tinit_restart_svc sys link)
        else if strcmp_eq cmd (b'r' ∷ b'e' ∷ b'l' ∷ b'o' ∷ b'a' ∷ b'd' ∷ [])
        then some (tinit_reload_svc sys link)
        else if strcmp_eq cmd (b's' ∷ b'w' ∷ b'i' ∷ b't' ∷ b'c' ∷ b'h' ∷ [])
        then some (tinit_switch_target sys link)
        else none

    cmd_end : ℕ → CStr → Option (ℕ → CStr → ℕ → W → Result (ℤ × ℕ × W)) → W → Result (ℤ × W)
    cmd_end seqno arg none w = ok (neg einval, w)
    cmd_end seqno arg (some do_cmd) w = do_svc_cmd sys link do_cmd seqno arg w

    -- one of the commands, with its argument; "status" is the first
    unfoldable pub run_cmd : View → ℕ → CStr → CStr → W → Result (ℤ × Option (List Row) × W)
    unfolding named_cmd cmd_end
    run_cmd view seqno cmd arg w =
        let shown = show_status view seqno arg w in
        let done = cmd_end seqno arg (named_cmd cmd) w >>= λ (e, w'). ok (e, none, w') in
        if strcmp_eq cmd (b's' ∷ b't' ∷ b'a' ∷ b't' ∷ b'u' ∷ b's' ∷ []) then shown else done

    -- main() of the control tool, behind the program's name: the exit status and what is shown. The
    -- socket opens, or not; `seqno` is random().
    unfoldable pub tool_main : View → Bool → ℕ → List CStr → W → Result (ℕ × Option (List Row) × W)
    tool_main view opens seqno (cmd ∷ arg ∷ []) w =
        let run = run_cmd view (seqno % 65536) cmd arg w >>= λ (e, rows, w').
        ok (if is_zero e then 0 else 1, rows, w') in
        if opens then run else ok (1, none, w)
    tool_main view opens seqno _ w = ok (1, none, w)
