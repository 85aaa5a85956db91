-- ===== src/Conf/Load.antt =====
-- conf.c: the loaders of a configuration file's settings. libconfig's settings are an abstract type,
-- which the loaders look at through its functions. What a loader gets is stored into `Draft`, the
-- `struct conf_svc` of calloc(3), whose pointers are NULL at first.
pub mod Fields
pub mod Root
pub mod Valid
pub mod Texts
pub mod Keeps
pub mod Accepted
use einit.Prelude.{
  ◌≡◌, ◌<◌, true, In, length, ℕ, ◌+◌, Bool, Option, none, some, List, [], ◌∷◌, Fault, unset, take,
  if◌then◌else◌, ℤ, pos, negsuc,
}
use einit.Conf.{CStr, StrArr}
use einit.Common.Names.{enodata}
use einit.Conf.Settings.{ebadmsg, conf_parse_cmd_arg}

-- A loader's outcome: what it stores, the errno that it returns, or a fault.
pub data Load {ℓ} (A : Type ℓ) : Type ℓ where
  loaded : A → Load A
  refused : ℕ → Load A
  faulted : Fault → Load A

infixl 5 ◌>>-◌
abbrev pub ◌>>-◌ {ℓ κ} : {A : Type ℓ} {B : Type κ} → Load A → (A → Load B) → Load B
loaded a >>- f = f a
refused e >>- f = refused e
faulted e >>- f = faulted e

-- The functions of libconfig that are called. `elems` are the settings that config_setting_length()
-- and config_setting_get_elem() give, and `get_int` the number of a setting of CONFIG_TYPE_INT. The
-- settings of a group have names.
pub record LibConfig (S : Type 0) : Type 0 where
  pub is_array : S → Bool
  pub is_list : S → Bool
  pub is_group : S → Bool
  pub elems : S → List S
  pub name : S → CStr
  pub named :
      (setting set : S) → is_group setting ≡ true → In set (elems setting) → 0 < length (name set)
  pub get_string : S → Option CStr
  pub get_int : S → Option ℤ

-- struct conf_svc while it is loaded; 0 stands for a signal that is not set
pub record Draft : Type 0 where
  pub stdin : Option CStr
  pub stdout : Option CStr
  pub env : Option StrArr
  pub start : List StrArr
  pub daemon : Option StrArr
  pub stop : List StrArr
  pub stop_sig : ℕ
  pub reload_sig : ℕ
  pub name : Option CStr
  pub desc : Option CStr
  pub starton : Option StrArr
  pub stopon : Option StrArr

-- strrep() of the string that a parser has stored, with the length that it returned
abbrev pub strrep : Option CStr → ℤ → Load CStr
strrep setting (negsuc n) = refused (n + 1)
strrep none (pos len) = faulted unset
strrep (some str) (pos len) = loaded (take len str)

module _ {S : Type 0} (lib : LibConfig S) where
  module _ (parse : Option CStr → ℤ) where
    -- the loop of `conf_load_strarr_setting`
    unfoldable pub strarr_loop : List S → Load StrArr
    strarr_loop [] = loaded []
    strarr_loop (elm ∷ elms) = strrep (lib.get_string elm) (parse (lib.get_string elm)) >>- λ str.
        strarr_loop elms >>- λ strs. loaded (str ∷ strs)

    unfoldable pub strarr_of : List S → Load StrArr
    strarr_of [] = refused enodata
    strarr_of (elm ∷ elms) = strarr_loop (elm ∷ elms)

    -- the NULL at the end of an array for execve(2) is not an element here
    unfoldable pub conf_load_strarr_setting : S → Load StrArr
    unfolding strarr_of
    conf_load_strarr_setting setting =
        if lib.is_array setting then strarr_of (lib.elems setting) else refused ebadmsg

  -- the loop of `conf_load_seq_setting`
  unfoldable pub seq_loop : List S → Load (List StrArr)
  seq_loop [] = loaded []
  seq_loop (cmd ∷ cmds) = conf_load_strarr_setting conf_parse_cmd_arg cmd >>- λ args.
      seq_loop cmds >>- λ rest. loaded (args ∷ rest)

  unfoldable pub seq_of : List S → Load (List StrArr)
  seq_of [] = refused enodata
  seq_of (cmd ∷ cmds) = seq_loop (cmd ∷ cmds)

  unfoldable pub conf_load_seq_setting : S → Load (List StrArr)
  unfolding seq_of
  conf_load_seq_setting setting =
      if lib.is_list setting then seq_of (lib.elems setting) else refused ebadmsg
