-- ===== src/Examples/Mounts.antt =====
-- A mount table of the root, of "/proc" and of "/d", where "/proc" is of a type without a device.
use einit.Prelude.{◌≡◌, refl, true, false, none, List, [], ◌∷◌, ◌++◌, All, ok, Returns, arith}
use einit.Conf.{CStr}
use einit.Common.Strings.{strcmp_eq, strncmp_eq, strnlen}
use einit.Mnt.{
  MntFstype, MntPoint, TypesFile, types_lines, mnt_create_fstype, strsep, parse_fstype,
  fstypes_loop, mnt_load_fstypes, mnt_find_fstype, mnt_strcpy, mnt_create_point, mnt_load_points,
  MntCall, remount_root, MntEnv, tab_entries, mnt_umount_all,
}
use einit.Mnt.Umount.{
  umounted, IsExpected, IsKnown, point_targets, table_targets, mnt_umount_all-umounted,
}

-- "\tx\n" and "nodev\tp\n"
abbrev types_file : TypesFile
types_file =
    types_lines
      ((9 ∷ b'x' ∷ 10 ∷ []) ∷ (b'n' ∷ b'o' ∷ b'd' ∷ b'e' ∷ b'v' ∷ 9 ∷ b'p' ∷ 10 ∷ []) ∷ []) none

abbrev file_types : List MntFstype
file_types =
    record { skip = false; name = b'x' ∷ []; force = true }
    ∷ record { skip = true; name = b'p' ∷ []; force = true }
    ∷ []

types_load : mnt_load_fstypes types_file ≡ ok file_types
unfolding mnt_load_fstypes fstypes_loop parse_fstype strsep mnt_create_fstype strnlen strcmp_eq
types_load = refl

abbrev mount : CStr → CStr → MntPoint
mount dir type = record { fsname = type; dir = dir; type = type }

abbrev mounts : List MntPoint
mounts =
    mount (b'/' ∷ []) (b'x' ∷ [])
    ∷ mount (b'/' ∷ b'p' ∷ []) (b'p' ∷ [])
    ∷ mount (b'/' ∷ b'd' ∷ []) (b'x' ∷ [])
    ∷ []

mounts-IsKnown : All (IsKnown file_types) (mnt_load_points mounts [])
unfolding mnt_load_points mnt_create_point mnt_strcpy strnlen mnt_find_fstype strncmp_eq
mounts-IsKnown = ((_, refl), ((_, refl), ((_, refl), tt)))

abbrev calm : MntEnv
calm = record { umount_errno = λ log. 0; remount_errno = λ log. 0 }

calm-IsExpected : IsExpected calm
calm-IsExpected = record { umount = λ log. refl; remount = λ log. refl }

mounts_targets : table_targets file_types mounts ≡ (b'/' ∷ b'd' ∷ []) ∷ []
unfolding table_targets point_targets mnt_create_point mnt_strcpy strnlen mnt_find_fstype strncmp_eq
    strcmp_eq
mounts_targets = refl

mnt_umount_all-umounted_example :
    Returns
      (λ (ret, u).
        (umounted u ≡ table_targets file_types mounts ++ umounted [])
        × ((before : List MntCall) × (u ≡ remount_root ∷ before)))
      (mnt_umount_all calm 1 (tab_entries mounts) types_file [])
mnt_umount_all-umounted_example =
    mnt_umount_all-umounted calm 1 mounts types_file file_types [] calm-IsExpected (ground arith)
      types_load mounts-IsKnown
