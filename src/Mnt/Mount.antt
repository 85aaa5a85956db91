-- ===== src/Mnt/Mount.antt =====
-- mnt.c: mounting the initial file systems. `errno_of` gives the errno of a call to the system, or 0 if
-- it works, depending on all earlier calls, which are kept with the latest first. The
-- assertions on the names of the mount points hold for the fixed names that are used.
use einit.Prelude.{
  ℕ, zero, suc, ◌+◌, Bool, false, ◌||◌, Option, none, some, List, [], ◌∷◌, Result, ok, err,
  assertion, ◌>>=◌, ◌≡◌, inl, inr, Returns, Returns-bind, Bool-cases, ◌==◌, if◌then◌else◌,
}
use einit.Conf.{CStr}
use einit.Mnt.{remount_asserts}

-- upath_mkdir(), mount(2), mount(2) with MS_REMOUNT, upath_chmod(), upwd_get_gid_byname() and
-- upath_chown()
pub data BootCall : Type 0 where
  mkdir : CStr → ℕ → BootCall
  mount : (dev dir type : CStr) → ℕ → Option CStr → BootCall
  remount : CStr → ℕ → CStr → BootCall
  chmod : CStr → ℕ → BootCall
  get_gid : CStr → BootCall
  chown : CStr → ℕ → ℕ → BootCall

-- What the build configures.
pub record BootConf : Type 0 where
  pub proc_mnt_opts : CStr
  pub run_mnt_opts : CStr
  pub dev_mnt_opts : CStr
  pub root_mnt_opts : CStr
  pub mqueue_mode : ℕ
  pub mqueue_group : CStr

abbrev proc_dir : CStr
proc_dir = b'/' ∷ b'p' ∷ b'r' ∷ b'o' ∷ b'c' ∷ []

abbrev sys_dir : CStr
sys_dir = b'/' ∷ b's' ∷ b'y' ∷ b's' ∷ []

abbrev dev_dir : CStr
dev_dir = b'/' ∷ b'd' ∷ b'e' ∷ b'v' ∷ []

abbrev mqueue_dir : CStr
mqueue_dir = b'/' ∷ b'd' ∷ b'e' ∷ b'v' ∷ b'/' ∷ b'm' ∷ b'q' ∷ b'u' ∷ b'e' ∷ b'u' ∷ b'e' ∷ []

abbrev run_dir : CStr
run_dir = b'/' ∷ b'r' ∷ b'u' ∷ b'n' ∷ []

abbrev kmsg : CStr
kmsg = b'/' ∷ b'd' ∷ b'e' ∷ b'v' ∷ b'/' ∷ b'k' ∷ b'm' ∷ b's' ∷ b'g' ∷ []

abbrev ptmx : CStr
ptmx = b'/' ∷ b'd' ∷ b'e' ∷ b'v' ∷ b'/' ∷ b'p' ∷ b't' ∷ b'm' ∷ b'x' ∷ []

abbrev random : CStr
random = b'/' ∷ b'd' ∷ b'e' ∷ b'v' ∷ b'/' ∷ b'r' ∷ b'a' ∷ b'n' ∷ b'd' ∷ b'o' ∷ b'm' ∷ []

abbrev urandom : CStr
urandom = b'/' ∷ b'd' ∷ b'e' ∷ b'v' ∷ b'/' ∷ b'u' ∷ b'r' ∷ b'a' ∷ b'n' ∷ b'd' ∷ b'o' ∷ b'm' ∷ []

abbrev proc_type : CStr
proc_type = b'p' ∷ b'r' ∷ b'o' ∷ b'c' ∷ []

abbrev sysfs : CStr
sysfs = b's' ∷ b'y' ∷ b's' ∷ b'f' ∷ b's' ∷ []

abbrev devtmpfs : CStr
devtmpfs = b'd' ∷ b'e' ∷ b'v' ∷ b't' ∷ b'm' ∷ b'p' ∷ b'f' ∷ b's' ∷ []

abbrev mqueue : CStr
mqueue = b'm' ∷ b'q' ∷ b'u' ∷ b'e' ∷ b'u' ∷ b'e' ∷ []

abbrev tmpfs : CStr
tmpfs = b't' ∷ b'm' ∷ b'p' ∷ b'f' ∷ b's' ∷ []

-- MS_RDONLY, MS_NOSUID, MS_NODEV, MS_NOEXEC, MS_NOATIME, MS_NODIRATIME and MS_RELATIME
abbrev ms_rdonly : ℕ
ms_rdonly = 1

abbrev ms_nosuid : ℕ
ms_nosuid = 2

abbrev ms_nodev : ℕ
ms_nodev = 4

abbrev ms_noexec : ℕ
ms_noexec = 8

abbrev ms_noatime : ℕ
ms_noatime = 1024

abbrev ms_nodiratime : ℕ
ms_nodiratime = 2048

abbrev ms_relatime : ℕ
ms_relatime = 2097152

-- TINIT_PSEUDO_MNT_BASE_FLAGS; the flags are distinct bits
abbrev base_flags : ℕ
base_flags = ms_nodiratime + ms_noexec + ms_nosuid

-- EACCES, EBUSY, EFAULT, ENAMETOOLONG, ENOTBLK, ENXIO and EPERM
abbrev pub mount_asserts : ℕ → Bool
mount_asserts e =
    (e == 13) || (e == 16) || (e == 14) || (e == 36) || (e == 15) || (e == 6) || (e == 1)

-- EFAULT, ENAMETOOLONG and EPERM
abbrev pub mkdir_asserts : ℕ → Bool
mkdir_asserts e = (e == 14) || (e == 36) || (e == 1)

-- the errors that the source rules out by assertions
abbrev pub boot_asserts : BootCall → ℕ → Bool
boot_asserts (mkdir dir mode) e = mkdir_asserts e
boot_asserts (mount dev dir type flags opts) e = mount_asserts e
boot_asserts (remount dir flags opts) e = remount_asserts e
boot_asserts _ e = false

-- 0 or a positive errno, and the calls made
abbrev pub Booted : Type 0
Booted = ℕ × List BootCall

-- `if (err) return err`
abbrev if_done : Booted → (List BootCall → Result Booted) → Result Booted
if_done (zero, log) next = next log
if_done (suc e, log) next = ok (suc e, log)

module _ (errno_of : BootCall → List BootCall → ℕ) where
  unfoldable pub mnt_mount : CStr → CStr → CStr → ℕ → Option CStr → List BootCall → Result Booted
  mnt_mount dev dir type flags opts log =
      let call = mount dev dir type flags opts in
      let e = errno_of call log in if mount_asserts e then err assertion else ok (e, call ∷ log)

  unfoldable pub mnt_remount : CStr → ℕ → CStr → List BootCall → Result Booted
  mnt_remount dir flags opts log =
      let call = remount dir flags opts in
      let e = errno_of call log in if remount_asserts e then err assertion else ok (e, call ∷ log)

  unfoldable pub mount_pseudo : CStr → CStr → ℕ → Option CStr → List BootCall → Result Booted
  unfolding mnt_mount
  mount_pseudo dir type flags opts log = mnt_mount type dir type flags opts log

  module _ (conf : BootConf) (gid : ℕ) where
    -- the permissions and the owner of the mount point; an error skips the rest
    unfoldable pub secure_mqueue : List BootCall → List BootCall
    secure_mqueue log =
        let access = chmod mqueue_dir conf.mqueue_mode in
        let group = get_gid conf.mqueue_group in
        let log1 = access ∷ log in
        let log2 = group ∷ log1 in
        let log3 = chown mqueue_dir 0 gid ∷ log2 in
        if errno_of access log == 0 then (if errno_of group log1 == 0 then log3 else log2) else log1

    unfoldable pub mount_mqueue : List BootCall → Result Booted
    unfolding mount_pseudo
    mount_mqueue log =
        let call = mkdir mqueue_dir 448 in
        let e = errno_of call log in
        let log1 = call ∷ log in
        let run =
          mount_pseudo mqueue_dir mqueue (base_flags + ms_noatime + ms_nodev) none log1 >>= λ r.
          if_done r (λ log2. ok (0, secure_mqueue log2)) in
        if e == 0 then run else if mkdir_asserts e then err assertion else ok (e, log1)

    -- Only the first call's error is returned. S_IRUSR | S_IWUSR, with S_IRGRP | S_IROTH for the last.
    unfoldable pub mount_devfs : List BootCall → Result Booted
    mount_devfs log = mount_pseudo dev_dir devtmpfs (base_flags + ms_noatime) none log >>= λ r.
        if_done r (λ log1.
          mnt_remount dev_dir (base_flags + ms_noatime) conf.dev_mnt_opts log1 >>= λ (e, log2).
          ok (0, chmod urandom 420 ∷ chmod random 384 ∷ chmod ptmx 384 ∷ chmod kmsg 384 ∷ log2))

    unfoldable pub remount_root : List BootCall → Result Booted
    remount_root log =
        mnt_remount (b'/' ∷ []) (ms_rdonly + ms_nodiratime + ms_noatime + ms_nosuid + ms_nodev)
          conf.root_mnt_opts log

    unfoldable pub mnt_mount_all : List BootCall → Result Booted
    mnt_mount_all log =
        mount_pseudo proc_dir proc_type (base_flags + ms_noatime + ms_nodev)
          (some conf.proc_mnt_opts) log
        >>= λ r0. if_done r0 λ log0.
          mount_pseudo sys_dir sysfs (base_flags + ms_noatime + ms_nodev) none log0 >>= λ r1.
          if_done r1 λ log1. mount_devfs log1 >>= λ r2. if_done r2 λ log2.
            mount_mqueue log2 >>= λ r3. if_done r3 λ log3.
              mount_pseudo run_dir tmpfs (base_flags + ms_relatime) (some conf.run_mnt_opts) log3
              >>= λ r4. if_done r4 λ log4. remount_root log4

    module _
        (expected : (call : BootCall) (log : List BootCall)
          → boot_asserts call (errno_of call log) ≡ false) where
      mount-returns :
          (dev dir type : CStr) (flags : ℕ) (opts : Option CStr) (log : List BootCall)
          → Returns (λ r. Unit) (mnt_mount dev dir type flags opts log)
      unfolding mnt_mount
      mount-returns dev dir type flags opts log =
          rw (expected (mount dev dir type flags opts) log) tt

      remount-returns :
          (dir : CStr) (flags : ℕ) (opts : CStr) (log : List BootCall)
          → Returns (λ r. Unit) (mnt_remount dir flags opts log)
      unfolding mnt_remount
      remount-returns dir flags opts log = rw (expected (remount dir flags opts) log) tt

      if_done-returns :
          (run : Result Booted) (next : List BootCall → Result Booted)
          → Returns (λ r. Unit) run
          → ((log : List BootCall) → Returns (λ r. Unit) (next log))
          → Returns (λ r. Unit) (run >>= λ r. if_done r next)
      if_done-returns (ok (zero, log)) next h k = k log
      if_done-returns (ok (suc e, log)) next h k = tt
      if_done-returns (err f) next h k = h

      mount_mqueue-returns : (log : List BootCall) → Returns (λ r. Unit) (mount_mqueue log)
      unfolding mount_mqueue
      mount_mqueue-returns log = elim (Bool-cases (errno_of (mkdir mqueue_dir 448) log == 0)) [
        | inl e ↦ rw e (if_done-returns _ _ (mount-returns _ _ _ _ _ _) (λ log2. tt))
        | inr e ↦ rw (e, expected (mkdir mqueue_dir 448) log) tt
      ]

      mount_devfs-returns : (log : List BootCall) → Returns (λ r. Unit) (mount_devfs log)
      unfolding mount_devfs mount_pseudo
      mount_devfs-returns log = if_done-returns _ _ (mount-returns _ _ _ _ _ _) (λ log1.
          Returns-bind (λ r. Unit) (mnt_remount dev_dir _ conf.dev_mnt_opts log1) _
            (remount-returns _ _ _ log1) (λ r q. tt))

      -- Mounting the initial file systems fails at no assertion, where the system gives none of the
      -- errors that the source rules out.
      pub mnt_mount_all-returns : (log : List BootCall) → Returns (λ r. Unit) (mnt_mount_all log)
      unfolding mnt_mount_all mount_pseudo remount_root
      mnt_mount_all-returns log = if_done-returns _ _ (mount-returns _ _ _ _ _ _) λ log0.
          if_done-returns _ _ (mount-returns _ _ _ _ _ _) λ log1.
            if_done-returns _ _ (mount_devfs-returns _) λ log2.
              if_done-returns _ _ (mount_mqueue-returns _) λ log3.
                if_done-returns _ _ (mount-returns _ _ _ _ _ _) λ log4. remount-returns _ _ _ log4
