-- ===== src/Srv/Processed.antt =====
-- srv.c, tinit_srv_process_request(): which requests are processed to an answer in every sound world.
use einit.Prelude.{
  ◌+◌, length-take, ℕ, zero, suc, ◌≤◌, ◌<◌, ◌≡◌, ◌≢◌, ◌⊎◌, refl, inl, inr, Bool, false, true, some,
  Option, List, All, In, Result, Returns, Returns-bind, Returns-map, Option-cases, Bool-cases, ℤ,
  pos, negsuc, is_zero, arith, length, take, if◌then◌else◌, leb, ◌==◌, ◌^◌, [],
}
use einit.Conf.{CStr}
use einit.Sys.{Sys}
use einit.Common.Names.{check_answer, probe_answer}
use einit.World.{Side, on, off, Env, World}
use einit.Svc.Evolve.{IsSound}
use einit.Svc.Serviced.{Serviced, Serviced-refl}
use einit.Repo.{byname_loop}
use einit.Common.Names.Valid.{tinit_check_svc_name-ok}
use einit.Repo.Lookup.{byname_found}
use einit.Target.Switch.Chosen.{Turned}
use einit.Proto.Request.{Request, tinit_msg_type_nr, tinit_srv_parse_request, u16_at}
use einit.Proto.Request.RoundTrip.{mem_strnlen_le, IsRequest, parse_request_sound}
use einit.Proto.Reply.{Buff, path_name_max, status_data_size, tinit_srv_build_reply}
use einit.Srv.{
  named_request, start_in, stop_in, tinit_srv_request_status, tinit_srv_request_start,
  tinit_srv_request_stop, tinit_srv_request_restart, tinit_srv_process_request, serve, serve_parsed,
  with_reply, msg_type,
}
use einit.Srv.Answer.{checked-found, start_in-Turned, stop_in-Turned}
use einit.Srv.Status.{Fits, build_reply-Fits, tinit_srv_request_status-Fits}

-- 0, or a negative errno above -4097
unfoldable pub IsErrno : ℤ → Type 0
IsErrno ret = (ret ≡ pos 0) ⊎ ((n : ℕ) × (ret ≡ negsuc n) × (n < 4096))

abbrev pub HasPath : World → ℕ → Type 0
HasPath w id = (0 < length (w.svc id).conf.path) × (length (w.svc id).conf.path < path_name_max)

-- A datagram whose request, if it is one, is not for a reload or a switch of targets.
unfoldable pub IsPlain : ℕ → List ℕ → Type 0
IsPlain bytes data_bytes =
    (bytes < 2 ^ 64)
    × ((r : Request)
        → tinit_srv_parse_request bytes data_bytes ≡ some r
        → (r.type ≢ 4) × (r.type ≢ 5))

build_reply_zero :
    (buff : Buff)
    → buff.type < tinit_msg_type_nr
    → Returns (λ b. Unit) (tinit_srv_build_reply buff (pos 0))
unfolding tinit_srv_build_reply
build_reply_zero buff h = elim (Bool-cases (leb tinit_msg_type_nr buff.type)) [
  | inl e ↦ absurd (ground arith)
  | inr e ↦ rw e tt
]

build_reply_returns :
    (buff : Buff) (ret : ℤ)
    → Fits buff
    → IsErrno ret
    → Returns (λ b. Unit) (tinit_srv_build_reply buff ret)
unfolding IsErrno
build_reply_returns buff ret h (inl e) = rw e (build_reply_zero buff h.type)
build_reply_returns buff ret h (inr (n, e, small)) = rw e (
    Returns-map (tinit_srv_build_reply buff (negsuc n)) (build_reply-Fits buff n small h)
      (λ b q. tt))

IsErrno-if : (b : Bool) (x y : ℤ) → IsErrno x → IsErrno y → IsErrno (if b then x else y)
IsErrno-if true x y h k = h
IsErrno-if false x y h k = k

IsErrno-small : (n : ℕ) → n < 4096 → IsErrno (negsuc n)
unfolding IsErrno
IsErrno-small n h = inr (n, refl, h)

IsErrno-none : IsErrno (pos 0)
unfolding IsErrno
IsErrno-none = inl refl

check_svc_name-IsErrno : (name : CStr) (len : ℕ) → IsErrno (check_answer name len)
unfolding check_answer
check_svc_name-IsErrno name len = IsErrno-if (len == 0) _ _ (IsErrno-small 60 (omega arith)) (
    IsErrno-if (leb 32 len) _ _ (IsErrno-small 35 (omega arith))
      (IsErrno-if (probe_answer name len == 0) _ _ IsErrno-none (IsErrno-small 21 (omega arith))))

-- What the request on a service returns: a result that can be answered.
abbrev pub IsReplied : World → ℤ × World → Type 0
IsReplied w r = Serviced w r.1 × IsErrno r.0

-- A datagram has been processed.
abbrev pub Processed : World → Option Buff × World → Type 0
Processed w r = Serviced w r.1

module _ (w : World) (s : IsSound w) where
  named_request-IsReplied :
      (side : Side) (act : ℕ → World → Result World) (name : CStr) (len : ℕ)
      → len ≡ length name
      → ((id : ℕ) → In id w.repo → Returns (Turned id side w) (act id w))
      → Returns (IsReplied w) (named_request act name len w)
  unfolding named_request
  named_request-IsReplied side act name len size h =
      rw (tinit_check_svc_name-ok name len size)
        (elim (Bool-cases (is_zero (check_answer name len))) [
          | inr bad ↦ rw bad (Serviced-refl w s, check_svc_name-IsErrno name len)
          | inl fine ↦
              rw (fine, checked-found w name len size fine)
                (elim (Option-cases (byname_loop w.svc name w.repo)) [
                  | inl missing ↦ rw missing (Serviced-refl w s, IsErrno-small 1 (omega arith))
                  | inr (id, e) ↦ rw e (
                      Returns-bind (IsReplied w) (act id w) _ (h id (byname_found w name id e))
                        (λ v t. (t.serviced, IsErrno-none)))
                ])
        ])

  with_reply-Serviced :
      (buff : Buff) (r : ℤ × World)
      → Fits buff
      → IsReplied w r
      → Returns (λ q. Serviced w q.1) (with_reply buff r)
  unfolding with_reply
  with_reply-Serviced buff (ret, v) h (k, e) =
      Returns-bind (λ q. Serviced w q.1) (tinit_srv_build_reply buff ret) _
        (build_reply_returns buff ret h e) (λ b q. k)

  module _ (env : Env) (name : CStr) (len : ℕ) (size : len ≡ length name) where
    pub start-IsReplied : Returns (IsReplied w) (tinit_srv_request_start env name len w)
    unfolding tinit_srv_request_start
    start-IsReplied =
        named_request-IsReplied on (λ id v. start_in env (v.svc id).state id v) name len size
          (λ id mem. start_in-Turned env w s id (w.svc id).state mem refl)

    pub stop-IsReplied : Returns (IsReplied w) (tinit_srv_request_stop env name len w)
    unfolding tinit_srv_request_stop
    stop-IsReplied =
        named_request-IsReplied off (λ id v. stop_in env (v.svc id).state id v) name len size
          (λ id mem. stop_in-Turned env w s id (w.svc id).state mem refl)

    restart-IsReplied : Returns (IsReplied w) (tinit_srv_request_restart env name len w)
    unfolding tinit_srv_request_restart
    restart-IsReplied = (Serviced-refl w s, IsErrno-none)

  module _ (sys : Sys) (rounds : (n : ℕ) → n ≤ sys.stroll_round_upper n status_data_size)
      (env : Env) (paths : All (HasPath w) w.repo) where
    serve-Serviced :
        (type : ℕ) (name : CStr) (len : ℕ) (buff : Buff)
        → buff.type ≡ type
        → len ≡ length name
        → type < 6
        → type ≢ 4
        → type ≢ 5
        → Fits buff
        → buff.statuses ≡ []
        → Returns (λ q. Serviced w q.1) (serve sys env (msg_type type) name len buff w)
    unfolding serve msg_type
    serve-Serviced zero name len buff same size lt n4 n5 h e =
        Returns-bind (λ q. Serviced w q.1) (tinit_srv_request_status sys w name buff) _
          (tinit_srv_request_status-Fits sys rounds w name buff same e paths)
          (λ b q. Serviced-refl w s)
    serve-Serviced (suc zero) name len buff same size lt n4 n5 h e =
        Returns-bind (λ q. Serviced w q.1) (tinit_srv_request_start env name len w) _
          (start-IsReplied env name len size) (λ r q. with_reply-Serviced buff r h q)
    serve-Serviced (suc (suc zero)) name len buff same size lt n4 n5 h e =
        Returns-bind (λ q. Serviced w q.1) (tinit_srv_request_stop env name len w) _
          (stop-IsReplied env name len size) (λ r q. with_reply-Serviced buff r h q)
    serve-Serviced (suc (suc (suc zero))) name len buff same size lt n4 n5 h e =
        Returns-bind (λ q. Serviced w q.1) (tinit_srv_request_restart env name len w) _
          (restart-IsReplied env name len size) (λ r q. with_reply-Serviced buff r h q)
    serve-Serviced (suc (suc (suc (suc zero)))) name len buff same size lt n4 n5 h e =
        absurd (n4 refl)
    serve-Serviced (suc (suc (suc (suc (suc zero))))) name len buff same size lt n4 n5 h e =
        absurd (n5 refl)
    serve-Serviced (suc (suc (suc (suc (suc (suc n)))))) name len buff same size lt n4 n5 h e =
        absurd (omega arith)

    serve_parsed-Processed :
        (req : Request) (data_bytes : List ℕ) (bytes : ℕ)
        → IsRequest bytes req
        → bytes < 2 ^ 64
        → req.type ≢ 4
        → req.type ≢ 5
        → Returns (Processed w) (serve_parsed sys env (some req) data_bytes bytes w)
    unfolding serve_parsed
    serve_parsed-Processed req data_bytes bytes k small n4 n5 =
        let buff : Buff = record {
          seq = u16_at data_bytes 0;
          type = req.type;
          ret = u16_at data_bytes 4;
          bytes = bytes;
          statuses = [];
        } in
        Returns-bind {P = λ q. Serviced w q.1} (Processed w)
          (serve sys env (msg_type req.type) (take req.len req.pattern) req.len buff w) _
          (serve-Serviced req.type (take req.len req.pattern) req.len buff refl
            (let q = mem_strnlen_le req.pattern (req.len + 1) in
              omega (arith, length-take req.len req.pattern, k.4))
            k.3 n4 n5 (record { type = k.3; bytes = omega (arith, k.0, k.2); written = tt }) refl)
          (λ (b, v) q. q)

    -- In a sound world in which every path has 1 to 254 bytes, where rounding up does not round down: a
    -- datagram that is refused, or holds a request of a type other than RELOAD and SWITCH, is processed
    -- with no failed assertion, and the world stays sound.
    pub tinit_srv_process_request-Processed :
        (bytes : ℕ) (data_bytes : List ℕ)
        → IsPlain bytes data_bytes
        → Returns (Processed w) (tinit_srv_process_request sys env bytes data_bytes w)
    unfolding tinit_srv_process_request serve_parsed IsPlain
    tinit_srv_process_request-Processed bytes data_bytes (small, plain) =
        elim (Option-cases (tinit_srv_parse_request bytes data_bytes)) [
          | inl refused ↦ rw refused (Serviced-refl w s)
          | inr (req, e) ↦ rw e (
              serve_parsed-Processed req data_bytes bytes
                (parse_request_sound bytes data_bytes req small e) small (plain req e).0
                (plain req e).1)
        ]
