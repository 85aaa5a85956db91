-- ===== src/Client/Chat.antt =====
-- A request of the client that the daemon serves: the caller is told what the daemon has done.
use einit.Prelude.{
  ℕ, ◌+◌, ◌<◌, ◌≡◌, refl, sym, subst, inl, inr, Option, none, some, List, [], ◌∷◌, Result, ok,
  ◌>>=◌, Returns, Returns-bind, Returns-map, Returns-ok, true, Returns-Partly, Partly-Returns, ℤ,
  pos, length, length-append, take-append, take-all, arith,
}
use einit.Conf.{CStr}
use einit.Common.Names.Valid.{IsCStr}
use einit.Sys.{Sys}
use einit.World.{on, off, Env, World}
use einit.Svc.Evolve.{IsSound}
use einit.Mnt.{eagain}
use einit.Target.Folder.{tinit_parse_svc_name}
use einit.Proto.Request.{
  u16_at, tinit_svc_pattern_max, tinit_msg_type_nr, request_head_size, tinit_build_request,
}
use einit.Proto.Request.RoundTrip.{parse-build_request}
use einit.Proto.Reply.{Buff, head_bytes, tinit_srv_build_reply, tinit_parse_named_reply}
use einit.Proto.Reply.RoundTrip.{IsRet, parse-build_reply}
use einit.Srv.{
  tinit_srv_request_start, tinit_srv_request_stop, tinit_srv_process_request, serve, serve_parsed,
  msg_type, with_reply,
}
use einit.Srv.Answer.{Granted, tinit_srv_request_start-Granted, tinit_srv_request_stop-Granted}
use einit.Srv.Processed.{IsErrno, start-IsReplied, stop-IsReplied}
use einit.Client.{
  is_len, Received, received, not_received, Link, tinit_named_chat, chat_end, tinit_start_svc,
  tinit_stop_svc,
}

-- The daemon at the other end: it processes the request, and its reply, if there is one, is received.
unfoldable pub answered : World × Option Buff → Received × (World × Option Buff)
answered (w, some buff) = (received buff.bytes (head_bytes buff), (w, none))
answered (w, none) = (not_received eagain, (w, none))

abbrev pub daemon : Sys → Env → Link (World × Option Buff)
daemon sys env = record {
  clnt_send = λ req s.
      tinit_srv_process_request sys env (length req) req s.0 >>= λ (o, w). ok (pos 0, (w, o));
  clnt_recv = λ s. ok (answered s);
}

length-build_request :
    (seqno type : ℕ) (name : CStr)
    → length (tinit_build_request seqno type name (length name))
      ≡ request_head_size + length name + 1
unfolding tinit_build_request
length-build_request seqno type name =
    rw (take-all name) (omega (arith, length-append name (0 ∷ [])))

seq_of_request :
    (seqno type : ℕ) (name : CStr)
    → seqno < 65536
    → u16_at (tinit_build_request seqno type name (length name)) 0 ≡ seqno
unfolding tinit_build_request
seq_of_request seqno type name h = omega arith

IsErrno-IsRet : (ret : ℤ) → IsErrno ret → IsRet ret
unfolding IsErrno
IsErrno-IsRet ret (inl e) = rw e refl
IsErrno-IsRet ret (inr (n, e, h)) = rw e h

-- The caller's result and the services then.
Told : (ℤ × World → Type 0) → ℕ → ℕ → Option Buff × World → Type 0
Told P seqno type (none, v) = ⊥
Told P seqno type (some reply, v) =
    P (tinit_parse_named_reply (head_bytes reply) reply.bytes seqno type, v)

with_reply-Told :
    (P : ℤ × World → Type 0) (buff : Buff) (r : ℤ × World)
    → buff.seq < 65536
    → buff.type < tinit_msg_type_nr
    → P r
    → IsErrno r.0
    → Returns
        (λ (b, v). P (tinit_parse_named_reply (head_bytes b) b.bytes buff.seq buff.type, v))
        (with_reply buff r)
unfolding with_reply
with_reply-Told P buff (ret, v) s t p e =
    Returns-bind _ (tinit_srv_build_reply buff ret) _
      (parse-build_reply buff ret (IsErrno-IsRet ret e) s t)
      (λ b q. subst (λ n. P (n, v)) (sym q) p)

module _ (sys : Sys) (env : Env) (w : World) (P : ℤ × World → Type 0) (seqno type : ℕ) (name : CStr)
    (small : seqno < 65536) (known : type < tinit_msg_type_nr) (c : IsCStr name)
    (n : 0 < length name) (m : length name < tinit_svc_pattern_max) (act : Result (ℤ × World))
    (serves : (buff : Buff)
      → serve sys env (msg_type type) name (length name) buff w ≡ (act >>= λ r. with_reply buff r))
    (acts : Returns (λ r. P r × IsErrno r.0) act) where
  serve-Told :
      (buff : Buff)
      → buff.seq ≡ seqno
      → buff.type ≡ type
      → Returns
          (λ (b, v). P (tinit_parse_named_reply (head_bytes b) b.bytes seqno type, v))
          (serve sys env (msg_type type) name (length name) buff w)
  serve-Told buff es et = rw (serves buff) (
      Returns-bind _ act _ acts (λ r h.
        subst
          (λ k.
            Returns (λ (b, v). P (tinit_parse_named_reply (head_bytes b) b.bytes k type, v))
              (with_reply buff r))
          es
          (subst
            (λ k.
              Returns (λ (b, v). P (tinit_parse_named_reply (head_bytes b) b.bytes buff.seq k, v))
                (with_reply buff r))
            et (with_reply-Told P buff r (rw es small) (rw et known) h.0 h.1))))

  -- the request, and the buffer that it was received into
  abbrev req : List ℕ
  req = tinit_build_request seqno type name (length name)

  abbrev req_buff : Buff
  req_buff = record {
    seq = u16_at req 0;
    type = type;
    ret = u16_at req 4;
    bytes = request_head_size + length name + 1;
    statuses = [];
  }

  process_request-Told :
      Returns (Told P seqno type) (tinit_srv_process_request sys env (length req) req w)
  unfolding tinit_srv_process_request serve_parsed Told
  process_request-Told =
      rw
        (
          length-build_request seqno type name,
          parse-build_request seqno type name known c n m,
          take-append name (0 ∷ []),
        )
        (Returns-bind (Told P seqno type)
          (serve sys env (msg_type type) name (length name) req_buff w) _
          (serve-Told req_buff (seq_of_request seqno type name small) refl) (λ (b, v) q. q))

  named_chat-Told :
      tinit_parse_svc_name sys name ≡ pos (length name)
      → Returns
          (λ (ret, seqno', (v, o)). P (ret, v))
          (tinit_named_chat sys (daemon sys env) seqno type name (length name) (w, none))
  unfolding tinit_named_chat answered chat_end Told
  named_chat-Told e =
      let ((o, v), f, t) =
        Returns-ok (tinit_srv_process_request sys env (length req) req w) process_request-Told in
      let q : is_len (length name) (tinit_parse_svc_name sys name) ≡ true = rw e (ground arith) in
      rw (q, f) (told o v t)
    where
      told :
          (o : Option Buff) (v : World)
          → Told P seqno type (o, v)
          → P (chat_end sys (daemon sys env) seqno type (answered (v, o)).0, (answered (v, o)).1.0)
      told none v t = elim t [ ]
      told (some reply) v t = t

-- The client's call of tinit_start_svc() or tinit_stop_svc() for a name that it finds valid, with a
-- sequence number below 2^16, served by a daemon whose world is sound. The call returns with no failed
-- assertion on either end, and the services stay sound. It tells the caller an error, and then nothing
-- has changed, or 0, and then the service of that name is starting or ready after a start, and
-- stopping or stopped after a stop.
pub named_chat-Granted :
    (sys : Sys) (env : Env) (w : World) (seqno : ℕ) (name : CStr)
    → IsSound w
    → seqno < 65536
    → IsCStr name
    → 0 < length name
    → length name < tinit_svc_pattern_max
    → tinit_parse_svc_name sys name ≡ pos (length name)
    → Returns
        (λ (ret, seqno', (v, o)). Granted on name w (ret, v))
        (tinit_start_svc sys (daemon sys env) seqno name (length name) (w, none))
      × Returns
          (λ (ret, seqno', (v, o)). Granted off name w (ret, v))
          (tinit_stop_svc sys (daemon sys env) seqno name (length name) (w, none))
unfolding serve msg_type
named_chat-Granted sys env w seqno name s small c n m e = (
  named_chat-Told sys env w (Granted on name w) seqno 1 name small (omega arith) c n m
      (tinit_srv_request_start env name (length name) w) (λ buff. refl)
      (Returns-Partly (Granted on name w) (λ r. IsErrno r.0) _
        (tinit_srv_request_start-Granted env w s name (length name) refl)
        (Partly-Returns (λ r. IsErrno r.0) _
          (Returns-map (tinit_srv_request_start env name (length name) w)
            (start-IsReplied w s env name (length name) refl) (λ r k. k.1))))
      e,
  named_chat-Told sys env w (Granted off name w) seqno 2 name small (omega arith) c n m
      (tinit_srv_request_stop env name (length name) w) (λ buff. refl)
      (Returns-Partly (Granted off name w) (λ r. IsErrno r.0) _
        (tinit_srv_request_stop-Granted env w s name (length name) refl)
        (Partly-Returns (λ r. IsErrno r.0) _
          (Returns-map (tinit_srv_request_stop env name (length name) w)
            (stop-IsReplied w s env name (length name) refl) (λ r k. k.1))))
      e,
)
