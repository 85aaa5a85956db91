-- ===== src/Target/Switch/Total.antt =====
-- tinit_target_switch() as a whole: the folder is read to its end, and an error changes nothing.
use einit.Prelude.{
  ◌<◌, ◌^◌, ◌==◌, true, false, length, ℕ, zero, suc, ◌≡◌, refl, ◌⊎◌, inl, inr, List, [], ◌∷◌, ◌++◌,
  Returns, Returns-bind, ℤ, pos, negsuc,
}
use einit.Conf.{CStr}
use einit.Sys.{Sys, OpenDir, opened, not_opened}
use einit.World.{Env, World}
use einit.Svc.Evolve.{IsSound}
use einit.Svc.Serviced.{Serviced, Serviced-refl}
use einit.Target.{switch_loop}
use einit.Target.Folder.{
  tinit_target_init_iter, tinit_parse_svc_name, tinit_target_path_max, init_by, folder_by,
  folder_asserts, is_positive,
}
use einit.Target.Folder.Table.{iter_loop-table_of}
use einit.Target.Switch.{tinit_target_switch, switch_by}
use einit.Target.Switch.Chosen.{switch_loop-Serviced}

-- An answer to a request: 0, or an error that has changed nothing. The world stays sound.
pub record Answers (w : World) (r : ℤ × World) : Type 0 where
  pub serviced : Serviced w r.1
  pub atomic : (r.0 ≡ pos 0) ⊎ (r.1 ≡ w)

pub Answers-refuse : (w : World) (e : ℤ) → IsSound w → Answers w (e, w)
Answers-refuse w e s = record { serviced = Serviced-refl w s; atomic = inr refl }

-- What the assertions ask of a directory that was opened or not: no EBADF, and fewer than 2^31 entries.
abbrev pub IsReadable : OpenDir → Type 0
IsReadable (opened dir) = (length dir.entries < 2 ^ 31) × ((dir.err == 9) ≡ false)
IsReadable (not_opened e) = (e == 9) ≡ false

module _ (sys : Sys) (w : World) where
  -- The directory of a target may be read: its path may name a file, is absolute and fits.
  pub record IsFolder (path name : CStr) : Type 0 where
    pub named : is_positive sys (sys.upath_validate_path_name path) ≡ true
    pub fits : folder_asserts sys w ((path ++ (b'/' ∷ name)) ++ (b'/' ∷ [])) ≡ false
    pub readable : IsReadable (sys.opendir (path ++ (b'/' ∷ name)))

  init_by-ok :
      (dpath : CStr) (dir : OpenDir)
      → folder_asserts sys w dpath ≡ false
      → IsReadable dir
      → Returns (λ r. Unit) (init_by sys w dpath dir)
  unfolding init_by
  init_by-ok dpath (not_opened e) fine known = rw known tt
  init_by-ok dpath (opened dir) fine (few, known) =
      rw (iter_loop-table_of sys w dpath dir few known fine) tt

  folder_by-ok :
      (path name : CStr) (plen : ℤ) (n : ℕ)
      → IsFolder path name
      → Returns (λ r. Unit) (folder_by sys w path name plen (pos (suc n)))
  unfolding folder_by
  folder_by-ok path name (negsuc e) n h = tt
  folder_by-ok path name (pos plen) n h =
      init_by-ok ((path ++ (b'/' ∷ name)) ++ (b'/' ∷ [])) (sys.opendir (path ++ (b'/' ∷ name)))
        h.fits h.readable

  -- The folder of a target whose name is valid is read with no failed assertion and in bounds.
  pub tinit_target_init_iter-ok :
      (path name : CStr) (n : ℕ)
      → tinit_parse_svc_name sys name ≡ pos (suc n)
      → IsFolder path name
      → Returns (λ r. Unit) (tinit_target_init_iter sys w path name)
  unfolding tinit_target_init_iter
  tinit_target_init_iter-ok path name n e h =
      rw (e, h.named)
        (folder_by-ok path name (sys.upath_validate_path path tinit_target_path_max) n h)

  module _ (env : Env) (s : IsSound w) where
    switch_by-Answers : (iter : ℤ × List ℕ) → Returns (Answers w) (switch_by sys env iter w)
    unfolding switch_by
    switch_by-Answers (pos zero, []) = Answers-refuse w _ s
    switch_by-Answers (pos zero, id ∷ tbl) =
        Returns-bind {P = Serviced w} (Answers w) (switch_loop env (id ∷ tbl) w.repo w) _
          (switch_loop-Serviced env (id ∷ tbl) w s)
          (λ v h. record { serviced = h; atomic = inl refl })
    switch_by-Answers (pos (suc n), tbl) = Answers-refuse w _ s
    switch_by-Answers (negsuc n, tbl) = Answers-refuse w _ s

    -- tinit_target_switch to a target with a valid name, in a sound world, where the folder has an
    -- absolute path of less than 4032 bytes, fewer than 2^31 entries, and no EBADF: the folder is read to its
    -- end, no assertion fails, the world stays sound, and where an error is returned it is unchanged.
    pub tinit_target_switch-Answers :
        (path name : CStr) (n : ℕ)
        → tinit_parse_svc_name sys name ≡ pos (suc n)
        → IsFolder path name
        → Returns (Answers w) (tinit_target_switch sys env path name w)
    unfolding tinit_target_switch
    tinit_target_switch-Answers path name n e h =
        Returns-bind {P = λ r. Unit} (Answers w) (tinit_target_init_iter sys w path name) _
          (tinit_target_init_iter-ok path name n e h) (λ iter u. switch_by-Answers iter)
