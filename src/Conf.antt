-- ===== src/Conf.antt =====
-- conf.h, strarr.h: the configuration of a service, as the running daemon reads it.
-- A C string is the list of its bytes without the terminating NUL, and a `strarr` the list of its
-- strings. A pointer that may be NULL is an `Option`. The field `lib` (libconfig's handle) is left
-- out, since it is only used while the file is read.
pub mod Dups
pub mod Settings
pub mod Load
use einit.Prelude.{ℕ, Option, List, length, get_elem?}

abbrev pub CStr : Type 0
CStr = List ℕ

-- NAME_MAX of limits.h
abbrev pub name_max : ℕ
name_max = 255

abbrev pub StrArr : Type 0
StrArr = List CStr

pub record ConfSvc : Type 0 where
  pub stdin : Option CStr
  pub stdout : Option CStr
  pub env : Option StrArr
  pub start : List StrArr
  pub daemon : Option StrArr
  pub stop : List StrArr
  pub stop_sig : ℕ
  pub reload_sig : ℕ
  pub name : CStr
  pub path : CStr
  pub desc : Option CStr
  pub starton : Option StrArr
  pub stopon : Option StrArr

abbrev pub conf_get_start_cmd_nr : ConfSvc → ℕ
conf_get_start_cmd_nr conf = length conf.start

-- `none` is the failed assertion of `conf_seq_get_cmd`
abbrev pub conf_get_start_cmd : ConfSvc → ℕ → Option StrArr
conf_get_start_cmd conf index = get_elem? conf.start index

abbrev pub conf_get_daemon : ConfSvc → Option StrArr
conf_get_daemon conf = conf.daemon

abbrev pub conf_get_stop_cmd_nr : ConfSvc → ℕ
conf_get_stop_cmd_nr conf = length conf.stop

abbrev pub conf_get_stop_cmd : ConfSvc → ℕ → Option StrArr
conf_get_stop_cmd conf index = get_elem? conf.stop index
