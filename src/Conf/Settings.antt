-- ===== src/Conf/Settings.antt =====
-- conf.c: the parsers of single settings. A setting is what libconfig's config_setting_get_string()
-- returns for it, `none` where it is no string. A result is a length or a negative errno; the string
-- that is stored on success is the setting's.
pub mod Accept
use einit.Prelude.{
  ℕ, ◌+◌, Bool, true, false, ◌&&◌, ◌||◌, Option, none, some, length, leb, ltb, ◌==◌, if◌then◌else◌,
  ℤ, pos, negsuc, neg,
}
use einit.Conf.{CStr}
use einit.Common.Strings.{strnlen, strspn}
use einit.Common.Names.{tinit_svc_name_max, enodata, einval, is_alnum, is_digit, probe_answer}
use einit.Common.Strings.{char_at}

abbrev pub ebadmsg : ℕ
ebadmsg = 74

abbrev pub emsgsize : ℕ
emsgsize = 90

-- SVC_ARG_MAX, SVC_ENV_VALUE_MAX, SVC_ENV_NAME_MAX and PATH_MAX
abbrev pub svc_arg_max : ℕ
svc_arg_max = 1024

abbrev pub svc_env_value_max : ℕ
svc_env_value_max = 1024

abbrev pub svc_env_name_max : ℕ
svc_env_name_max = 64

abbrev pub path_max : ℕ
path_max = 4096

-- GRAPH_CHARSET " "
unfoldable pub is_desc_char : ℕ → Bool
is_desc_char c = leb 32 c && leb c 126

-- GRAPH_CHARSET and SPACE_CHARSET: PRINT_CHARSET
unfoldable pub is_print : ℕ → Bool
is_print c = (leb 33 c && leb c 126) || c == 32 || (leb 9 c && leb c 13)

-- ALNUM_CHARSET "\t _,-./:=@\\"
unfoldable pub is_env_char : ℕ → Bool
is_env_char c =
    is_alnum c
    || c == 9
    || c == 32
    || c == 95
    || leb 44 c && leb c 47
    || c == 58
    || c == 61
    || c == 64
    || c == 92

-- ALNUM_CHARSET "_", and ALNUM_CHARSET "/._-"
unfoldable pub is_var_char : ℕ → Bool
is_var_char c = is_alnum c || c == 95

unfoldable pub is_path_char : ℕ → Bool
is_path_char c = is_alnum c || c == 47 || c == 46 || c == 95 || c == 45

unfoldable pub conf_parse_string_setting : Option CStr → ℕ → ℤ
conf_parse_string_setting none max_size = neg ebadmsg
conf_parse_string_setting (some str) max_size =
    let len = strnlen str max_size in
    if len == 0 then neg enodata else if leb max_size len then neg emsgsize else pos len

-- the check of the characters behind `conf_parse_string_setting`
unfoldable pub check_chars : (ℕ → Bool) → Option CStr → ℤ → ℤ
check_chars accept (some str) (pos len) = if strspn accept str == len then pos len else neg einval
check_chars accept setting len = len

unfoldable pub conf_parse_cmd_arg : Option CStr → ℤ
conf_parse_cmd_arg setting =
    check_chars is_print setting (conf_parse_string_setting setting svc_arg_max)

unfoldable pub conf_parse_env_val : Option CStr → ℤ
conf_parse_env_val setting =
    check_chars is_env_char setting (conf_parse_string_setting setting svc_env_value_max)

unfoldable pub name_by : Option CStr → ℤ → ℤ
name_by (some str) (pos len) = if probe_answer str len == 0 then pos len else neg einval
name_by setting len = len

unfoldable pub conf_parse_name_setting : Option CStr → ℤ
unfolding name_by
conf_parse_name_setting setting =
    name_by setting (conf_parse_string_setting setting tinit_svc_name_max)

-- What conf_parse_env_var() returns for the name of a setting, where it is not empty
unfoldable pub env_var_answer : CStr → ℤ
env_var_answer str =
    let len = strnlen str svc_env_name_max in
    let chr = if is_digit (char_at str 0) then 0 else strspn is_var_char str in
    if leb svc_env_name_max len then neg emsgsize else if chr == len then pos len else neg einval

-- The value returned, and `*path` where it was written. The sign of an error is lost: `return -len`.
unfoldable pub stdio_by : Option CStr → ℤ → ℤ × Option CStr
stdio_by setting (negsuc n) = (pos (n + 1), none)
stdio_by (some str) (pos len) =
    if strspn is_path_char str == len then (pos len, some str) else (neg einval, none)
stdio_by none (pos len) = (pos len, none)

unfoldable pub conf_load_stdio : Option CStr → ℤ × Option CStr
unfolding stdio_by
conf_load_stdio setting = stdio_by setting (conf_parse_string_setting setting path_max)
