-- ===== src/Examples/Client.antt =====
-- The client and the daemon together: "net" is ready and "web" is stopped.
use einit.Prelude.{◌≡◌, refl, none, Returns, pos, arith}
use einit.Common.Names.{probe_answer, is_alnum, is_name_char}
use einit.Common.Names.Valid.{IsCStr}
use einit.World.{on, off}
use einit.Target.Folder.{tinit_parse_svc_name}
use einit.Srv.Answer.{Granted}
use einit.Client.{tinit_start_svc, tinit_stop_svc}
use einit.Client.Chat.{daemon, named_chat-Granted}
use einit.Examples.Worlds.{easy, web_name}
use einit.Examples.Control.{sample_validate, sample, serving, serving-IsSound}

web_is_name : tinit_parse_svc_name sample web_name ≡ pos 3
unfolding tinit_parse_svc_name sample_validate probe_answer is_alnum is_name_char
web_is_name = refl

web-IsCStr : IsCStr web_name
web-IsCStr = (ground arith, (ground arith, (ground arith, tt)))

named_chat-Granted_example :
    Returns
      (λ (ret, seqno', (v, o)). Granted on web_name serving (ret, v))
      (tinit_start_svc sample (daemon sample easy) 7 web_name 3 (serving, none))
    × Returns
        (λ (ret, seqno', (v, o)). Granted off web_name serving (ret, v))
        (tinit_stop_svc sample (daemon sample easy) 7 web_name 3 (serving, none))
named_chat-Granted_example =
    named_chat-Granted sample easy serving 7 web_name serving-IsSound (omega arith) web-IsCStr
      (omega arith) (omega arith) web_is_name
