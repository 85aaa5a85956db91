-- ===== src/Mnt.antt =====
-- mnt.c: unmounting all file systems before the system goes down. The mount table and the list of types
-- are what getmntent(3) and getline(3) read; `MntEnv` answers the calls to the system, each answer
-- depending on all earlier calls, which are kept with the latest first.
pub mod Umount
pub mod Mount
use einit.Prelude.{
  ℕ, zero, suc, ◌+◌, ◌*◌, ◌/◌, Bool, true, false, not, ◌&&◌, ◌||◌, Option, none, some, List, [],
  ◌∷◌, ◌++◌, Result, ok, err, assertion, unset, ◌>>=◌, take, leb, ◌==◌, if◌then◌else◌,
}
use einit.Conf.{CStr}
use einit.Common.Names.{einval}
use einit.Common.Strings.{strcmp_eq, strncmp_eq, strnlen}
use einit.Conf.Settings.{path_max}

-- FSTYPE_MAX
abbrev pub fstype_max : ℕ
fstype_max = 256

-- struct mnt_fstype; `force` tells that the mask lets MNT_FORCE through
pub record MntFstype : Type 0 where
  pub skip : Bool
  pub name : CStr
  pub force : Bool

-- struct mntent and struct mnt_point
pub record MntPoint : Type 0 where
  pub fsname : CStr
  pub dir : CStr
  pub type : CStr

-- "fuse", "nfs", "cifs", "9p", "ceph", "lustre" and "nodev"
abbrev fuse : CStr
fuse = b'f' ∷ b'u' ∷ b's' ∷ b'e' ∷ []

abbrev forceless : List CStr
forceless =
    (b'n' ∷ b'f' ∷ b's' ∷ [])
    ∷ (b'c' ∷ b'i' ∷ b'f' ∷ b's' ∷ [])
    ∷ (b'9' ∷ b'p' ∷ [])
    ∷ (b'c' ∷ b'e' ∷ b'p' ∷ b'h' ∷ [])
    ∷ (b'l' ∷ b'u' ∷ b's' ∷ b't' ∷ b'r' ∷ b'e' ∷ [])
    ∷ []

abbrev nodev : CStr
nodev = b'n' ∷ b'o' ∷ b'd' ∷ b'e' ∷ b'v' ∷ []

is_one_of : CStr → List CStr → Bool
is_one_of name [] = false
is_one_of name (other ∷ others) = strcmp_eq name other || is_one_of name others

-- `none` stands for NULL with errno ENODATA or ENAMETOOLONG
unfoldable pub mnt_create_fstype : CStr → Bool → Option MntFstype
unfolding is_one_of
mnt_create_fstype name is_nodev =
    let len = strnlen name fstype_max in
    if len == 0
    then none
    else if leb fstype_max len
    then none
    else some (record {
      skip = is_nodev || strcmp_eq name fuse;
      name = take len name;
      force = not (is_one_of name forceless);
    })

abbrev is_delim : ℕ → Bool
is_delim c = (c == b' ') || (c == 9) || (c == 10)

-- strsep(3): what stands before the first delimiter, and what behind it, if there is one
unfoldable pub strsep : CStr → CStr × Option CStr
strsep [] = ([], none)
strsep (c ∷ str) =
    let (token, left) = strsep str in if is_delim c then ([], some str) else (c ∷ token, left)

abbrev is_blank : CStr → Bool
is_blank [] = true
is_blank (c ∷ str) = false

-- the type that a line names, and whether it is marked with "nodev"
second_token : Bool → CStr × Option CStr → Option (CStr × Bool)
second_token is_nodev (snd, none) = none
second_token is_nodev (snd, some left) = if is_blank snd then none else some (snd, is_nodev)

first_token : CStr × Option CStr → Option (CStr × Bool)
unfolding second_token
first_token (fst, none) = none
first_token (fst, some left) =
    let second = second_token (not (is_blank fst)) (strsep left) in
    if not (is_blank fst) && not (strcmp_eq fst nodev) then none else second

unfoldable pub parse_fstype : CStr → Option (CStr × Bool)
unfolding first_token
parse_fstype ln = first_token (strsep ln)

-- The file of types: it is not opened, or its lines, then its end or an errno.
pub data TypesFile : Type 0 where
  no_types : TypesFile
  types_lines : List CStr → Option ℕ → TypesFile

add_fstype : Option (CStr × Bool) → List MntFstype → List MntFstype
add_fstype none types = types
add_fstype (some (name, is_nodev)) types = add (mnt_create_fstype name is_nodev)
  where
    add : Option MntFstype → List MntFstype
    add none = types
    add (some type) = types ++ (type ∷ [])

-- the loop over the lines
unfoldable pub fstypes_loop : List CStr → List MntFstype → List MntFstype
unfolding add_fstype
fstypes_loop [] types = types
fstypes_loop (ln ∷ lns) types = fstypes_loop lns (add_fstype (parse_fstype ln) types)

abbrev pub eagain : ℕ
eagain = 11

-- An error releases the types. If the file does not open, the list of types is not even set.
unfoldable pub mnt_load_fstypes : TypesFile → Result (List MntFstype)
mnt_load_fstypes no_types = err unset
mnt_load_fstypes (types_lines lns none) = ok (fstypes_loop lns [])
mnt_load_fstypes (types_lines lns (some e)) =
    let types = fstypes_loop lns [] in
    if e == einval then err assertion else if (e == eagain) || (e == 0) then ok types else ok []

unfoldable pub mnt_find_fstype : List MntFstype → CStr → Option MntFstype
mnt_find_fstype [] fstype = none
mnt_find_fstype (type ∷ types) fstype =
    if strncmp_eq fstype_max type.name fstype then some type else mnt_find_fstype types fstype

-- `none` stands for -ENAMETOOLONG
unfoldable pub mnt_strcpy : CStr → ℕ → Option CStr
mnt_strcpy str size =
    let len = strnlen str size in if leb size len then none else some (take len str)

unfoldable pub mnt_create_point : MntPoint → Option MntPoint
mnt_create_point entry =
    point (mnt_strcpy entry.fsname path_max) (mnt_strcpy entry.dir path_max)
      (mnt_strcpy entry.type fstype_max)
  where
    point : Option CStr → Option CStr → Option CStr → Option MntPoint
    point (some fsname) (some dir) (some type) =
        some (record { fsname = fsname; dir = dir; type = type })
    point _ _ _ = none

abbrev pub queue_front : Option MntPoint → List MntPoint → List MntPoint
queue_front none points = points
queue_front (some pt) points = pt ∷ points

-- The loop of mnt_load_points(), which ends at the first NULL of getmntent(3), whatever errno is.
unfoldable pub mnt_load_points : List MntPoint → List MntPoint → List MntPoint
mnt_load_points [] points = points
mnt_load_points (entry ∷ entries) points =
    mnt_load_points entries (queue_front (mnt_create_point entry) points)

-- Calls to umount2(2), to mount(2) for a remount read-only, and for the remount of the root.
pub data MntCall : Type 0 where
  umount2 : CStr → ℕ → MntCall
  remount : CStr → MntCall
  remount_root : MntCall

-- The errno that a call leaves, or 0 if it works.
pub record MntEnv : Type 0 where
  pub umount_errno : List MntCall → ℕ
  pub remount_errno : List MntCall → ℕ

abbrev pub ebusy : ℕ
ebusy = 16

-- EAGAIN, EFAULT, EINVAL, ENAMETOOLONG, ENOENT and EPERM
abbrev pub umount_asserts : ℕ → Bool
umount_asserts e = (e == eagain) || (e == 14) || (e == einval) || (e == 36) || (e == 2) || (e == 1)

-- EACCES, EFAULT, ENAMETOOLONG, ENOTBLK, ENXIO and EPERM
abbrev pub remount_asserts : ℕ → Bool
remount_asserts e = (e == 13) || (e == 14) || (e == 36) || (e == 15) || (e == 6) || (e == 1)

-- the mount table: not opened with an errno, or its entries
pub data MntTab : Type 0 where
  no_tab : ℕ → MntTab
  tab_entries : List MntPoint → MntTab

-- `if (err && !ret) ret = err`
abbrev pub first_error : ℕ → ℕ → ℕ
first_error ret e = if ret == 0 then e else ret

module _ (env : MntEnv) where
  -- 0 or a positive errno, here and below
  unfoldable pub mnt_remount : MntCall → List MntCall → Result (ℕ × List MntCall)
  mnt_remount which log =
      let e = env.remount_errno log in
      if remount_asserts e then err assertion else ok (e, which ∷ log)

  module _ (flags : ℕ) (types : List MntFstype) where
    -- `flags & type->mask | UMOUNT_NOFOLLOW` of flags below 4
    abbrev pub umount_flags : MntFstype → ℕ
    umount_flags type = (if type.force then flags else flags / 2 * 2) + 8

    unfoldable pub umount_one : MntFstype → CStr → ℕ × List MntCall → Result (ℕ × List MntCall)
    umount_one type dir (ret, log) =
        let e = env.umount_errno log in
        let log' = umount2 dir (umount_flags type) ∷ log in
        let busy =
          mnt_remount (remount dir) log' >>= λ (e', log''). ok (first_error ret e', log'') in
        if e == 0
        then ok (ret, log')
        else if umount_asserts e
        then err assertion
        else if e == ebusy
        then busy
        else ok (first_error ret e, log')

    umount_typed : Option MntFstype → CStr → ℕ × List MntCall → Result (ℕ × List MntCall)
    umount_typed none dir state = err assertion
    umount_typed (some type) dir state =
        let run = umount_one type dir state in if type.skip then ok state else run

    -- one turn of the loop over the mount points
    unfoldable pub umount_point : MntPoint → ℕ × List MntCall → Result (ℕ × List MntCall)
    unfolding umount_typed
    umount_point pt state =
        let run = umount_typed (mnt_find_fstype types pt.type) pt.dir state in
        if strcmp_eq pt.dir (b'/' ∷ []) then ok state else run

    unfoldable pub umount_loop : List MntPoint → ℕ × List MntCall → Result (ℕ × List MntCall)
    umount_loop [] state = ok state
    umount_loop (pt ∷ pts) state = umount_point pt state >>= λ next. umount_loop pts next

  -- The flag `ret` at the end, and the calls made. setmntent(3) does not fail with EINVAL.
  unfoldable pub umount_tab : ℕ → MntTab → TypesFile → List MntCall → Result (ℕ × List MntCall)
  umount_tab flags (no_tab e) file log = if e == einval then err assertion else ok (e, log)
  umount_tab flags (tab_entries entries) file log = mnt_load_fstypes file >>= λ types.
      umount_loop flags types (mnt_load_points entries []) (0, log) >>= λ (ret, log').
      mnt_remount remount_root log' >>= λ (e, log''). ok (ret, log'')

  unfoldable pub mnt_umount_all : ℕ → MntTab → TypesFile → List MntCall → Result (ℕ × List MntCall)
  mnt_umount_all flags tab file log =
      let run = umount_tab flags tab file log in if leb flags 3 then run else err assertion
