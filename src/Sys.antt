-- ===== src/Sys.antt =====
-- What the program calls and this repository does not hold: the file system, the C library's
-- fnmatch(3), libutils' path checks, libstroll's rounding, and the paths set when it is built.
use einit.Prelude.{ℕ, ◌<◌, ◌≡◌, Bool, Option, List, ℤ, pos, length}
use einit.Conf.{CStr}

-- struct dirent: the name, and whether `d_type` is DT_LNK or DT_REG
pub record DirEntry : Type 0 where
  pub d_name : CStr
  pub is_link : Bool
  pub is_reg : Bool

-- An open directory: the entries that readdir(3) still gives, and the errno after the last one,
-- 0 at the end of the directory.
pub record Dir : Type 0 where
  pub entries : List DirEntry
  pub err : ℕ

pub data OpenDir : Type 0 where
  opened : Dir → OpenDir
  not_opened : ℕ → OpenDir

pub record Sys : Type 0 where
  pub opendir : CStr → OpenDir
  pub realpath : CStr → Option CStr
  -- the length, or a negative errno: a path that is accepted is not empty and shorter than the bound
  pub upath_validate_path : CStr → ℕ → ℤ
  pub upath_law :
      (path : CStr) (max len : ℕ)
      → upath_validate_path path max ≡ pos len
      → (len ≡ length path) × (0 < len) × (len < max)
  -- the length of a path that may name a file, or a negative errno
  pub upath_validate_path_name : CStr → ℤ
  -- 0, FNM_NOMATCH, or another number for an error
  pub fnmatch : CStr → CStr → ℕ
  pub stroll_round_upper : ℕ → ℕ → ℕ
  -- CONFIG_TINIT_INCLUDE_DIR and CONFIG_TINIT_SYSCONFDIR
  pub include_dir : CStr
  pub sysconf_dir : CStr
  -- CONFIG_TINIT_DEBUG
  pub is_debug : Bool
