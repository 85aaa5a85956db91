-- ===== src/Examples/Protocol.antt =====
-- The theorems about names, lookups, requests and replies, at small inputs.
use einit.Strarr.{strarr_create, rep_loop}
use einit.Strarr.Filled.{Holds, rep_loop-Holds}
use einit.Prelude.{
  ok, ◌+◌, ◌>>=◌, Returns, ◌↔◌, ◌≡◌, refl, pos, neg, length, arith, eqb, some, [], ◌∷◌, ◌++◌,
  Returns,
}
use einit.World.{starting, World}
use einit.Common.Strings.{strcmp_eq}
use einit.Common.Names.{tinit_check_svc_name}
use einit.Common.Names.Valid.{IsSvcName, IsCStr, tinit_check_svc_name_iff}
use einit.Conf.Dups.{conf_strarr_has_dups}
use einit.Conf.Dups.Distinct.{Distinct, Misses, conf_strarr_has_dups-Misses}
use einit.Conf.Settings.{conf_parse_name_setting}
use einit.Conf.Settings.Accept.{conf_parse_name_setting_iff}
use einit.World.{ready}
use einit.Svc.Evolve.{side_of}
use einit.Proto.Request.{tinit_build_request, tinit_srv_parse_request}
use einit.Proto.Request.RoundTrip.{IsRequest, parse-build_request, parse_request_sound}
use einit.Proto.Reply.{
  Buff, tinit_srv_build_reply, head_bytes, tinit_parse_named_reply, tinit_parse_status_data,
  status_data,
}
use einit.Proto.Reply.RoundTrip.{is_on_side, parse-build_reply, parse-status_data}
use einit.Repo.{tinit_repo_search_byname, tinit_repo_search_bypid}
use einit.Repo.Lookup.{IsFirst, tinit_repo_search_byname-IsFirst, tinit_repo_search_bypid-IsFirst}
use einit.Examples.Worlds.{two, net_name, web_name}

abbrev booting : World
booting = two starting (pos 100) starting

net_name-IsCStr : IsCStr net_name
net_name-IsCStr = omega arith

tinit_check_svc_name_iff_example :
    (tinit_check_svc_name net_name (length net_name) ≡ ok (pos 0)) ↔ IsSvcName net_name
tinit_check_svc_name_iff_example = tinit_check_svc_name_iff net_name net_name-IsCStr

tinit_repo_search_byname-IsFirst_example :
    Returns
      (IsFirst (λ id. strcmp_eq (booting.svc id).conf.name web_name) booting.repo)
      (tinit_repo_search_byname booting web_name)
tinit_repo_search_byname-IsFirst_example =
    tinit_repo_search_byname-IsFirst booting web_name (omega arith) (omega arith) (omega arith)

tinit_repo_search_bypid-IsFirst_example :
    Returns
      (IsFirst (λ id. eqb (booting.svc id).child (pos 100)) booting.repo)
      (tinit_repo_search_bypid booting 100)
tinit_repo_search_bypid-IsFirst_example = tinit_repo_search_bypid-IsFirst booting 100 (omega arith)

parse-build_request_example :
    tinit_srv_parse_request 8 (tinit_build_request 7 1 web_name 3)
    ≡ some (record { type = 1; pattern = web_name ++ (0 ∷ []); len = 3 })
parse-build_request_example =
    parse-build_request 7 1 web_name (omega arith) (omega arith) (omega arith) (omega arith)

parse_request_sound_example :
    IsRequest 8 (record { type = 1; pattern = web_name ++ (0 ∷ []); len = 3 })
parse_request_sound_example =
    parse_request_sound 8 (tinit_build_request 7 1 web_name 3)
      (record { type = 1; pattern = web_name ++ (0 ∷ []); len = 3 }) (omega arith)
      parse-build_request_example

abbrev some_buff : Buff
some_buff = record { seq = 7; type = 1; ret = 0; bytes = 8; statuses = [] }

parse-build_reply_example :
    Returns
      (λ reply. tinit_parse_named_reply (head_bytes reply) reply.bytes 7 1 ≡ neg 2)
      (tinit_srv_build_reply some_buff (neg 2))
parse-build_reply_example =
    parse-build_reply some_buff (neg 2) (omega arith) (omega arith) (omega arith)

parse-status_data_example :
    tinit_parse_status_data (status_data 100 (is_on_side (side_of ready)) ready web_name) 20
    ≡ (pos 3, 100)
parse-status_data_example =
    parse-status_data 100 ready web_name 20 (omega arith) (omega arith) (omega arith) (omega arith)
      (λ e. ground arith)

conf_strarr_has_dups-Misses_example :
    Misses (Distinct (web_name ∷ net_name ∷ [])) (conf_strarr_has_dups (net_name ∷ []) web_name)
conf_strarr_has_dups-Misses_example =
    conf_strarr_has_dups-Misses web_name net_name [] (refl, (refl, tt))

rep_loop-Holds_example : Returns (Holds (web_name ∷ net_name ∷ []) 1 1) (
    strarr_create (length (web_name ∷ net_name ∷ []) + 1) >>= λ array.
    rep_loop (web_name ∷ net_name ∷ []) 0 array)
rep_loop-Holds_example = rep_loop-Holds (web_name ∷ net_name ∷ []) 1 1 (omega arith)

conf_parse_name_setting_iff_example :
    (conf_parse_name_setting (some web_name) ≡ pos (length web_name))
    ↔ (tinit_check_svc_name web_name (length web_name) ≡ ok (pos 0))
conf_parse_name_setting_iff_example = conf_parse_name_setting_iff web_name
