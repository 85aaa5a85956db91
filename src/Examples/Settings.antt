-- ===== src/Examples/Settings.antt =====
-- A configuration file: name = "net"; daemon = [ "a" ]; signal = { stop = 9; };
use einit.Prelude.{
  Bool, List, In, length, ◌<◌, ◌≡◌, refl, true, false, none, some, [], ◌∷◌, pos, arith,
}
use einit.Conf.{CStr, ConfSvc}
use einit.Common.Names.{probe_answer, is_alnum, is_name_char}
use einit.Common.Strings.{strcmp_eq, strspn, strnlen}
use einit.Conf.Settings.{
  conf_parse_string_setting, check_chars, conf_parse_cmd_arg, conf_parse_name_setting, is_print,
}
use einit.Conf.Load.{loaded, LibConfig, strarr_loop, conf_load_strarr_setting}
use einit.Conf.Load.Fields.{
  conf_load_name, conf_load_daemon, conf_load_signal, conf_load_sig_setting,
  conf_parse_signo_setting, signal_loop, stop_key,
}
use einit.Conf.Load.Root.{
  find_loader, check_dups, check_named, run_loader, with_loader, root_loop, conf_load_root,
  file_root, file_by, filled_in,
}
use einit.Conf.Load.Accepted.{IsRooted}
use einit.Examples.Worlds.{net_name}

pub data Node : Type 0 where
  root name_set daemon_set daemon_arg signal_set stop_set : Node

abbrev pub node_is_group : Node → Bool
node_is_group root = true
node_is_group signal_set = true
node_is_group _ = false

abbrev pub node_elems : Node → List Node
node_elems root = name_set ∷ daemon_set ∷ signal_set ∷ []
node_elems daemon_set = daemon_arg ∷ []
node_elems signal_set = stop_set ∷ []
node_elems _ = []

abbrev pub node_name : Node → CStr
node_name name_set = b'n' ∷ b'a' ∷ b'm' ∷ b'e' ∷ []
node_name daemon_set = b'd' ∷ b'a' ∷ b'e' ∷ b'm' ∷ b'o' ∷ b'n' ∷ []
node_name signal_set = b's' ∷ b'i' ∷ b'g' ∷ b'n' ∷ b'a' ∷ b'l' ∷ []
node_name _ = stop_key

pub every_name : (s : Node) → 0 < length (node_name s)
every_name root = omega arith
every_name name_set = omega arith
every_name daemon_set = omega arith
every_name daemon_arg = omega arith
every_name signal_set = omega arith
every_name stop_set = omega arith

pub node_named :
    (setting set : Node)
    → node_is_group setting ≡ true
    → In set (node_elems setting)
    → 0 < length (node_name set)
node_named setting set g m = every_name set

abbrev pub file_lib : LibConfig Node
file_lib = record {
  is_array = λ s. elim s [ daemon_set ↦ true | _ ↦ false ];
  is_list = λ s. false;
  is_group = node_is_group;
  elems = node_elems;
  name = node_name;
  get_string = λ s. elim s [ name_set ↦ some net_name | daemon_arg ↦ some (b'a' ∷ []) | _ ↦ none ];
  get_int = λ s. elim s [ stop_set ↦ some (pos 9) | _ ↦ none ];
  named = node_named;
}

abbrev pub file_conf : ConfSvc
file_conf = record {
  stdin = none;
  stdout = none;
  env = none;
  start = [];
  daemon = some ((b'a' ∷ []) ∷ []);
  stop = [];
  stop_sig = 9;
  reload_sig = 15;
  name = net_name;
  path = net_name;
  desc = none;
  starton = none;
  stopon = none;
}

pub file_loads : file_by file_lib (λ path. path) (file_root root) net_name ≡ loaded file_conf
unfolding file_by filled_in conf_load_root root_loop with_loader run_loader find_loader check_named
    check_dups strcmp_eq conf_load_name conf_load_daemon conf_load_signal conf_load_sig_setting
    conf_parse_signo_setting signal_loop conf_load_strarr_setting strarr_loop
    conf_parse_name_setting conf_parse_cmd_arg conf_parse_string_setting check_chars strnlen strspn
    probe_answer is_alnum is_name_char is_print
file_loads = refl

pub file-IsRooted : IsRooted file_lib (file_root root)
file-IsRooted = refl
