-- ===== src/Conf/Load/Accepted.antt =====
-- A configuration that is accepted is valid, and none fails an assertion.
use einit.Prelude.{◌+◌, ◌<◌, ◌≡◌, true, ◌∷◌, All, length, if◌then◌else◌}
use einit.Conf.{CStr, name_max, StrArr, ConfSvc}
use einit.Common.Strings.{has_prefix}
use einit.Conf.Settings.{is_desc_char}
use einit.Conf.Settings.Accept.{IsText}
use einit.Conf.Dups.Distinct.{Distinct}
use einit.Conf.Load.{Load, LibConfig, Draft}
use einit.Conf.Load.Fields.{dev_prefix, svc_desc_max}
use einit.Conf.Load.Root.{has_daemon, ReadFile, file_root}
use einit.Conf.Load.Valid.{OptAll, IsName, IsNames, IsCmd, IsAssignment, IsSig, IsPath, IsDraft}

-- The services that a list of `starton` or `stopon` names, for a service of the given name.
abbrev pub IsSources : CStr → StrArr → Type 0
IsSources name names = IsNames names × Distinct (name ∷ names)

-- A configuration that the daemon can rely on.
pub record IsConf (conf : ConfSvc) : Type 0 where
  pub name : IsName conf.name
  pub path : length conf.path < name_max
  pub start : All IsCmd conf.start
  pub daemon : OptAll IsCmd conf.daemon
  pub stop : All IsCmd conf.stop
  pub commands :
      0 < length conf.start + length conf.stop + (if has_daemon conf.daemon then 1 else 0)
  pub stop_sig : IsSig conf.stop_sig
  pub reload_sig : IsSig conf.reload_sig
  pub starton : OptAll (IsSources conf.name) conf.starton
  pub stopon : OptAll (IsSources conf.name) conf.stopon
  pub env : OptAll (All IsAssignment) conf.env
  pub stdin : OptAll (λ path. IsPath path × (has_prefix dev_prefix path ≡ true)) conf.stdin
  pub stdout : OptAll IsPath conf.stdout
  pub desc : OptAll (IsText is_desc_char svc_desc_max) conf.desc

-- The configuration that a draft with a name becomes.
IsReady : CStr × Draft → Type 0
IsReady (name, conf) =
    IsDraft conf
    × IsName name
    × (0 < length conf.start + length conf.stop + (if has_daemon conf.daemon then 1 else 0))
    × IsSig conf.stop_sig
    × IsSig conf.reload_sig
    × OptAll (IsSources name) conf.starton
    × OptAll (IsSources name) conf.stopon

module _ {S : Type 0} (lib : LibConfig S) where
  -- The root setting is a group, as in every file that libconfig has read.
  abbrev pub IsRooted : ReadFile S → Type 0
  IsRooted (file_root root) = lib.is_group root ≡ true
  IsRooted _ = Unit
