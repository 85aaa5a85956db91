-- ===== src/Mnt/Umount.antt =====
-- Which file systems mnt_umount_all() unmounts, and in which order.
use einit.Prelude.{
  ℕ, ◌≤◌, ◌≡◌, refl, ap, ◌∙◌, sym, inl, inr, true, false, Option, none, some, List, [], ◌∷◌, ◌++◌,
  All, onto, onto-append, ok, Returns, Returns-bind, Returns-map, leb, ◌==◌, if◌then◌else◌,
  Bool-cases, arith,
}
use einit.Conf.{CStr}
use einit.Common.Strings.{strcmp_eq}
use einit.Mnt.{
  MntFstype, MntPoint, TypesFile, mnt_load_fstypes, mnt_find_fstype, mnt_create_point, queue_front,
  mnt_load_points, MntCall, umount2, remount, remount_root, MntEnv, ebusy, umount_asserts,
  remount_asserts, mnt_remount, umount_one, umount_point, umount_loop, tab_entries, umount_tab,
  mnt_umount_all,
}

-- the directories that were given to umount2(2), the latest first
unfoldable pub umounted : List MntCall → List CStr
umounted [] = []
umounted (umount2 dir flags ∷ log) = dir ∷ umounted log
umounted (_ ∷ log) = umounted log

-- The system's answers are none of those that the source rules out by assertions.
pub record IsExpected (env : MntEnv) : Type 0 where
  pub umount : (log : List MntCall) → umount_asserts (env.umount_errno log) ≡ false
  pub remount : (log : List MntCall) → remount_asserts (env.remount_errno log) ≡ false

abbrev pub IsKnown : List MntFstype → MntPoint → Type 0
IsKnown types pt = (type : MntFstype) × (mnt_find_fstype types pt.type ≡ some type)

remounted :
    (env : MntEnv)
    → IsExpected env
    → (which : MntCall) (log : List MntCall)
    → mnt_remount env which log ≡ ok (env.remount_errno log, which ∷ log)
unfolding mnt_remount
remounted env expected which log = rw (expected.remount log) refl

module _ (types : List MntFstype) where
  typed_targets : CStr → Option MntFstype → List CStr
  typed_targets dir none = []
  typed_targets dir (some type) = if type.skip then [] else dir ∷ []

  -- A mount point is to be unmounted unless it is the root or its type is to be skipped.
  unfoldable pub point_targets : MntPoint → List CStr
  unfolding typed_targets
  point_targets pt =
      if strcmp_eq pt.dir (b'/' ∷ [])
      then []
      else typed_targets pt.dir (mnt_find_fstype types pt.type)

  targets : List MntPoint → List CStr
  targets [] = []
  targets (pt ∷ pts) = point_targets pt ++ targets pts

  entry_targets : Option MntPoint → List CStr
  entry_targets none = []
  entry_targets (some pt) = point_targets pt

  -- what is to be unmounted of the mount table's entries, in the table's order
  unfoldable pub table_targets : List MntPoint → List CStr
  unfolding entry_targets
  table_targets [] = []
  table_targets (entry ∷ entries) = entry_targets (mnt_create_point entry) ++ table_targets entries

  -- At most one directory, so the order does not matter.
  onto-point_targets :
      (pt : MntPoint) (before : List CStr)
      → onto (point_targets pt) before ≡ point_targets pt ++ before
  unfolding point_targets
  onto-point_targets pt before = elim (Bool-cases (strcmp_eq pt.dir (b'/' ∷ []))) [
    | inl e ↦ rw e refl
    | inr e ↦ rw e (of_type (mnt_find_fstype types pt.type))
  ]
    where
      of_type :
          (o : Option MntFstype)
          → onto (typed_targets pt.dir o) before ≡ typed_targets pt.dir o ++ before
      of_type none = refl
      of_type (some type) = elim (Bool-cases type.skip) [ inl e ↦ rw e refl | inr e ↦ rw e refl ]

  append_assoc : (xs ys zs : List CStr) → (xs ++ ys) ++ zs ≡ xs ++ (ys ++ zs)
  append_assoc [] ys zs = refl
  append_assoc (x ∷ xs) ys zs = ap (λ l. x ∷ l) (append_assoc xs ys zs)

  -- The points are queued in front, so the last one of the table comes first.
  onto-load_points :
      (entries points : List MntPoint) (before : List CStr)
      → onto (targets (mnt_load_points entries points)) before
        ≡ onto (targets points) (table_targets entries ++ before)
  unfolding mnt_load_points table_targets targets
  onto-load_points [] points before = refl
  onto-load_points (entry ∷ entries) points before =
      onto-load_points entries (queue_front (mnt_create_point entry) points) before
      ∙ queued (mnt_create_point entry)
    where
      queued :
          (o : Option MntPoint)
          → onto (targets (queue_front o points)) (table_targets entries ++ before)
            ≡ onto (targets points) ((entry_targets o ++ table_targets entries) ++ before)
      queued none = refl
      queued (some pt) =
          onto-append (point_targets pt) (targets points) (table_targets entries ++ before)
          ∙ ap (onto (targets points)) (
              onto-point_targets pt (table_targets entries ++ before)
              ∙ sym (append_assoc (point_targets pt) (table_targets entries) before))

  module _ (env : MntEnv) (expected : IsExpected env) (flags : ℕ) where
    umount_one-umounted :
        (type : MntFstype) (dir : CStr) (ret : ℕ) (log : List MntCall)
        → Returns
            (λ (r, u). umounted u ≡ dir ∷ umounted log)
            (umount_one env flags types type dir (ret, log))
    unfolding umount_one umounted
    umount_one-umounted type dir ret log = elim (Bool-cases (env.umount_errno log == 0)) [
      | inl done ↦ rw done refl
      | inr failed ↦ elim (Bool-cases (env.umount_errno log == ebusy)) [
        | inl busy ↦
            rw (failed, expected.umount log, busy, remounted env expected (remount dir) _) refl
        | inr other ↦ rw (failed, expected.umount log, other) refl
      ]
    ]

    umount_point-umounted :
        (pt : MntPoint) (ret : ℕ) (log : List MntCall)
        → IsKnown types pt
        → Returns
            (λ (r, u). umounted u ≡ onto (point_targets pt) (umounted log))
            (umount_point env flags types pt (ret, log))
    unfolding umount_point point_targets umount_one
    umount_point-umounted pt ret log (type, known) =
        elim (Bool-cases (strcmp_eq pt.dir (b'/' ∷ []))) [
          | inl e ↦ rw e refl
          | inr e ↦ elim (Bool-cases type.skip) [
            | inl skip ↦ rw (e, known, skip) refl
            | inr take_it ↦ rw (e, known, take_it) (umount_one-umounted type pt.dir ret log)
          ]
        ]

    umount_loop-umounted :
        (pts : List MntPoint) (ret : ℕ) (log : List MntCall)
        → All (IsKnown types) pts
        → Returns
            (λ (r, u). umounted u ≡ onto (targets pts) (umounted log))
            (umount_loop env flags types pts (ret, log))
    unfolding umount_loop targets
    umount_loop-umounted [] ret log known = refl
    umount_loop-umounted (pt ∷ pts) ret log known =
        Returns-bind {P = λ (r, u). umounted u ≡ onto (point_targets pt) (umounted log)}
          (λ (r, u). umounted u ≡ onto (targets (pt ∷ pts)) (umounted log))
          (umount_point env flags types pt (ret, log)) _ (umount_point-umounted pt ret log known.0)
          (λ (r, u) e.
            Returns-map {P = λ (q, v). umounted v ≡ onto (targets pts) (umounted u)}
              (umount_loop env flags types pts (r, u)) (umount_loop-umounted pts r u known.1)
              (λ (q, v) f.
                f
                ∙ ap (onto (targets pts)) e
                ∙ sym (onto-append (point_targets pt) (targets pts) (umounted log))))

-- Where the system gives none of the errors that the source rules out, the types were loaded and every
-- mount point that is loaded has a known type, mnt_umount_all with flags below 4 fails at no assertion
-- and calls umount2(2) exactly for the mount points of the table that are not the root and whose type
-- is not skipped, the last one of the table first. Its last call remounts the root.
pub mnt_umount_all-umounted :
    (env : MntEnv) (flags : ℕ) (entries : List MntPoint) (file : TypesFile) (types : List MntFstype)
    (log : List MntCall)
    → IsExpected env
    → flags ≤ 3
    → mnt_load_fstypes file ≡ ok types
    → All (IsKnown types) (mnt_load_points entries [])
    → Returns
        (λ (ret, u).
          (umounted u ≡ table_targets types entries ++ umounted log)
          × ((before : List MntCall) × (u ≡ remount_root ∷ before)))
        (mnt_umount_all env flags (tab_entries entries) file log)
unfolding mnt_umount_all umount_tab umounted targets
mnt_umount_all-umounted env flags entries file types log expected small loaded known =
    rw (leb-true flags 3 small, loaded)
      (Returns-bind
        {P = λ (q, v).
          umounted v ≡ onto (targets types (mnt_load_points entries [])) (umounted log)}
        (λ (ret, u).
          (umounted u ≡ table_targets types entries ++ umounted log)
          × ((before : List MntCall) × (u ≡ remount_root ∷ before)))
        (umount_loop env flags types (mnt_load_points entries []) (0, log)) _
        (umount_loop-umounted types env expected flags (mnt_load_points entries []) 0 log known)
        (λ (q, v) e.
          rw (remounted env expected remount_root v)
            (e ∙ onto-load_points types entries [] (umounted log), (v, refl))))
  where
    leb-true : (a b : ℕ) → a ≤ b → leb a b ≡ true
    leb-true a b h = ground arith
