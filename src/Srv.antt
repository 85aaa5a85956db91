-- ===== src/Srv.antt =====
-- srv.c: the requests of the control tool, from the datagram to the reply in the same buffer.
pub mod Answer
pub mod Status
pub mod Processed
pub mod Queue
pub mod Transport
use einit.Prelude.{
  ℕ, suc, zero, ◌+◌, Bool, true, false, not, Option, none, some, List, [], ◌∷◌, Result, ok, err,
  assertion, ◌>>=◌, length, take, get_elem?, ◌==◌, ◌||◌, if◌then◌else◌, ℤ, pos, neg, is_zero,
  is_neg,
}
use einit.Conf.{CStr}
use einit.Common.Names.{einval, tinit_check_svc_name}
use einit.Sys.{Sys}
use einit.World.{SvcState, stopped, starting, ready, stopping, Env, World}
use einit.Svc.Cascade.{to_unsigned}
use einit.Svc.Events.{svc_start, svc_stop, svc_reload, svc_is_on}
use einit.Repo.{tinit_repo_search_byname}
use einit.Target.Switch.{tinit_target_switch}
use einit.Proto.Request.{Request, u16_at, tinit_srv_parse_request}
use einit.Proto.Reply.{
  Buff, enoent, eproto, tinit_srv_build_reply, tinit_srv_setup_status_reply,
  tinit_srv_append_status_reply,
}

-- FNM_NOMATCH of fnmatch.h
abbrev pub fnm_nomatch : ℕ
fnm_nomatch = 1

module _ (sys : Sys) where
  unfoldable pub append_one : World → ℕ → Buff → Result (ℤ × Buff)
  append_one w id buff =
      let s = w.svc id in
      tinit_srv_append_status_reply sys buff (to_unsigned s.child) (svc_is_on w id) s.state
        s.conf.path

  -- the loop of `tinit_srv_request_status`: `none` where the function has returned already
  unfoldable pub status_loop : World → CStr → List ℕ → ℕ → Buff → Result (Option ℕ × Buff)
  unfolding append_one
  status_loop w pattern [] cnt buff = ok (some cnt, buff)
  status_loop w pattern (id ∷ ids) cnt buff =
      let ret = sys.fnmatch pattern (w.svc id).conf.name in
      let skip = status_loop w pattern ids cnt buff in
      let more = append_one w id buff >>= λ (full, buff').
      if is_zero full then status_loop w pattern ids (suc cnt) buff' else ok (none, buff') in
      let wrong = tinit_srv_build_reply buff (neg einval) >>= λ buff'. ok (none, buff') in
      if ret == fnm_nomatch then skip else if ret == 0 then more else wrong

  unfoldable pub status_end : Option ℕ × Buff → Result Buff
  status_end (none, buff) = ok buff
  status_end (some zero, buff) = tinit_srv_build_reply buff (neg enoent)
  status_end (some (suc cnt), buff) = ok buff

  unfoldable pub tinit_srv_request_status : World → CStr → Buff → Result Buff
  unfolding status_loop status_end
  tinit_srv_request_status w pattern buff = tinit_srv_setup_status_reply buff >>= λ buff'.
      status_loop w pattern w.repo 0 buff' >>= λ r. status_end r

-- A request on the service of that name: `act` is the `switch` on its state.
unfoldable pub named_request : (ℕ → World → Result World) → CStr → ℕ → World → Result (ℤ × World)
named_request act name len w = tinit_check_svc_name name len >>= λ ret.
    let search = tinit_repo_search_byname w name >>= λ o. found o in
    if is_zero ret then search else ok (ret, w)
  where
    found : Option ℕ → Result (ℤ × World)
    found none = ok (neg enoent, w)
    found (some id) = act id w >>= λ v. ok (pos 0, v)

module _ (env : Env) where
  unfoldable pub start_in : SvcState → ℕ → World → Result World
  start_in starting id w = ok w
  start_in ready id w = ok w
  start_in _ id w = svc_start env id w

  unfoldable pub stop_in : SvcState → ℕ → World → Result World
  stop_in stopped id w = ok w
  stop_in stopping id w = ok w
  stop_in _ id w = svc_stop env id w

  unfoldable pub reload_in : SvcState → ℕ → World → Result World
  reload_in stopped id w = svc_start env id w
  reload_in stopping id w = svc_start env id w
  reload_in starting id w = ok w
  reload_in ready id w = svc_reload env id w

  unfoldable pub tinit_srv_request_start : CStr → ℕ → World → Result (ℤ × World)
  tinit_srv_request_start name len w =
      named_request (λ id v. start_in (v.svc id).state id v) name len w

  unfoldable pub tinit_srv_request_stop : CStr → ℕ → World → Result (ℤ × World)
  tinit_srv_request_stop name len w =
      named_request (λ id v. stop_in (v.svc id).state id v) name len w

  -- not implemented, and answered by 0
  unfoldable pub tinit_srv_request_restart : CStr → ℕ → World → Result (ℤ × World)
  tinit_srv_request_restart name len w = ok (pos 0, w)

  unfoldable pub tinit_srv_request_reload : CStr → ℕ → World → Result (ℤ × World)
  tinit_srv_request_reload name len w =
      named_request (λ id v. reload_in (v.svc id).state id v) name len w

  unfoldable pub tinit_srv_request_switch : Sys → CStr → ℕ → World → Result (ℤ × World)
  tinit_srv_request_switch sys name len w = tinit_check_svc_name name len >>= λ ret.
      if is_zero ret then tinit_target_switch sys env sys.sysconf_dir name w else ok (ret, w)

-- enum tinit_msg_type
pub data MsgType : Type 0 where
  status_msg start_msg stop_msg restart_msg reload_msg switch_msg : MsgType

unfoldable pub msg_type : ℕ → Option MsgType
msg_type n =
    get_elem? (status_msg ∷ start_msg ∷ stop_msg ∷ restart_msg ∷ reload_msg ∷ switch_msg ∷ []) n

-- the call of `tinit_srv_build_reply` at the end of a request
unfoldable pub with_reply : Buff → ℤ × World → Result (Buff × World)
with_reply buff (ret, w) = tinit_srv_build_reply buff ret >>= λ buff'. ok (buff', w)

module _ (sys : Sys) (env : Env) where
  -- the name is the pattern without its NUL
  unfoldable pub serve : Option MsgType → CStr → ℕ → Buff → World → Result (Buff × World)
  serve (some status_msg) name len buff w =
      tinit_srv_request_status sys w name buff >>= λ buff'. ok (buff', w)
  serve (some start_msg) name len buff w =
      tinit_srv_request_start env name len w >>= λ r. with_reply buff r
  serve (some stop_msg) name len buff w =
      tinit_srv_request_stop env name len w >>= λ r. with_reply buff r
  serve (some restart_msg) name len buff w =
      tinit_srv_request_restart env name len w >>= λ r. with_reply buff r
  serve (some reload_msg) name len buff w =
      tinit_srv_request_reload env name len w >>= λ r. with_reply buff r
  serve (some switch_msg) name len buff w =
      tinit_srv_request_switch env sys name len w >>= λ r. with_reply buff r
  serve none name len buff w = err assertion

  unfoldable pub serve_parsed : Option Request → List ℕ → ℕ → World → Result (Option Buff × World)
  serve_parsed none data_bytes bytes w = ok (none, w)
  serve_parsed (some req) data_bytes bytes w =
      let buff : Buff = record {
        seq = u16_at data_bytes 0;
        type = req.type;
        ret = u16_at data_bytes 4;
        bytes = bytes;
        statuses = [];
      } in
      serve (msg_type req.type) (take req.len req.pattern) req.len buff w >>= λ (buff', v).
      ok (some buff', v)

  -- `none` is -EPROTO: nothing is answered
  unfoldable pub tinit_srv_process_request : ℕ → List ℕ → World → Result (Option Buff × World)
  unfolding serve_parsed
  tinit_srv_process_request bytes data_bytes w =
      serve_parsed (tinit_srv_parse_request bytes data_bytes) data_bytes bytes w
