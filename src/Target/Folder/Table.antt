-- ===== src/Target/Folder/Table.antt =====
-- The table of a target's services: what it holds, and that it is never written out of bounds.
use einit.Prelude.{
  ◌+◌, ◌%◌, ◌^◌, Bool, true, false, Result, err, assertion, out_of_bounds, Option, ◌>>=◌, ltb, ℕ,
  zero, suc, ◌*◌, ◌≤◌, ◌<◌, ◌≡◌, refl, ap, ◌∙◌, sym, none, some, List, [], ◌∷◌, ◌++◌, ok, length,
  ◌==◌, if◌then◌else◌, ℤ, pos, negsuc, arith, length-append,
}
use einit.Conf.{CStr}
use einit.Sys.{Sys, DirEntry, Dir}
use einit.World.{World}
use einit.Target.Folder.{
  svc_found, walk_end, entry_svc, walk_loop, tinit_target_walk_folder, iter_loop, folder_asserts,
}
use einit.Target.Folder.Fits.{entry_svc-ok}

append_assoc : (xs : List ℕ) (id : ℕ) (ys : List ℕ) → (xs ++ (id ∷ [])) ++ ys ≡ xs ++ (id ∷ ys)
append_assoc [] id ys = refl
append_assoc (x ∷ xs) id ys = ap (λ l. x ∷ l) (append_assoc xs id ys)

append_nil : (xs : List ℕ) → xs ++ [] ≡ xs
append_nil [] = refl
append_nil (x ∷ xs) = ap (λ l. x ∷ l) (append_nil xs)

module _ (sys : Sys) (w : World) (dpath : CStr) where
  -- the services that the entries name, in order
  unfoldable pub entry_svcs : List DirEntry → List ℕ
  entry_svcs [] = []
  entry_svcs (ent ∷ ents) = let rest = entry_svcs ents in named (entry_svc sys w dpath ent) rest
    where
      named : Result (Option ℕ) → List ℕ → List ℕ
      named (ok (some id)) ids = id ∷ ids
      named (ok none) ids = ids
      named (err e) ids = ids

  -- What `tinit_target_init_iter` returns for a folder: its services, or the errno of readdir(3).
  unfoldable pub table_of : List DirEntry → ℕ → List ℕ → ℤ × List ℕ
  table_of ents zero tbl = (pos 0, tbl ++ entry_svcs ents)
  table_of ents (suc e) tbl = (negsuc e, [])

  iter_end :
      (fuel : ℕ) (tbl : List ℕ) (nr e : ℕ)
      → length tbl ≤ nr
      → iter_loop sys w dpath fuel tbl nr (walk_end e) ≡ ok (table_of [] e tbl)
  unfolding iter_loop table_of entry_svcs
  iter_end zero tbl nr zero le = rw (append_nil tbl) (ground arith)
  iter_end (suc fuel) tbl nr zero le = rw (append_nil tbl) (ground arith)
  iter_end zero tbl nr (suc e) le = ground arith
  iter_end (suc fuel) tbl nr (suc e) le = ground arith

  module _ (ent : DirEntry) (ents : List DirEntry) where
    svcs_none : entry_svc sys w dpath ent ≡ ok none → entry_svcs (ent ∷ ents) ≡ entry_svcs ents
    unfolding entry_svcs
    svcs_none q = rw (q, entry_svcs) refl

    svcs_some :
        (id : ℕ)
        → entry_svc sys w dpath ent ≡ ok (some id)
        → entry_svcs (ent ∷ ents) ≡ id ∷ entry_svcs ents
    unfolding entry_svcs
    svcs_some id q = rw (q, entry_svcs) refl

    walk_none :
        (e : ℕ)
        → entry_svc sys w dpath ent ≡ ok none
        → walk_loop sys w dpath e (ent ∷ ents) ≡ walk_loop sys w dpath e ents
    unfolding walk_loop
    walk_none e q = rw (q, walk_loop) refl

    walk_some :
        (e id : ℕ)
        → entry_svc sys w dpath ent ≡ ok (some id)
        → walk_loop sys w dpath e (ent ∷ ents)
          ≡ ok (svc_found id (record { entries = ents; err = e }))
    unfolding walk_loop
    walk_some e id q = rw (q, walk_loop) refl

  table_none :
      (ent : DirEntry) (ents : List DirEntry) (e : ℕ) (tbl : List ℕ)
      → entry_svc sys w dpath ent ≡ ok none
      → table_of (ent ∷ ents) e tbl ≡ table_of ents e tbl
  unfolding table_of
  table_none ent ents zero tbl q = ap (λ l. (pos 0, tbl ++ l)) (svcs_none ent ents q)
  table_none ent ents (suc e) tbl q = refl

  table_some :
      (ent : DirEntry) (ents : List DirEntry) (e : ℕ) (tbl : List ℕ) (id : ℕ)
      → entry_svc sys w dpath ent ≡ ok (some id)
      → table_of (ent ∷ ents) e tbl ≡ table_of ents e (tbl ++ (id ∷ []))
  unfolding table_of
  table_some ent ents zero tbl id q =
      ap (λ l. (pos 0, l))
        (ap (λ l. tbl ++ l) (svcs_some ent ents id q) ∙ sym (append_assoc tbl id (entry_svcs ents)))
  table_some ent ents (suc e) tbl id q = refl

  grow : List ℕ → ℕ → ℕ
  grow tbl nr = if length tbl == nr then nr * 2 % 2 ^ 32 else nr

  grow_room :
      (tbl : List ℕ) (nr : ℕ)
      → length tbl ≤ nr
      → 0 < nr
      → length tbl < 2 ^ 31
      → length tbl < grow tbl nr
  unfolding grow
  grow_room tbl nr le p few = ground arith

  iter_found :
      (fuel nr : ℕ) (tbl : List ℕ) (id : ℕ) (dir : Dir)
      → length tbl ≤ nr
      → 0 < nr
      → length tbl < 2 ^ 31
      → iter_loop sys w dpath (suc fuel) tbl nr (svc_found id dir) ≡ (
          tinit_target_walk_folder sys w dpath dir >>= λ walk.
          iter_loop sys w dpath fuel (tbl ++ (id ∷ [])) (grow tbl nr) walk)
  unfolding iter_loop grow
  iter_found fuel nr tbl id dir le p few =
      past (ltb nr (length tbl)) (ltb (length tbl) (grow tbl nr)) _ (ground arith)
        (let room = grow_room tbl nr le p few in ground arith)
    where
      past :
          (a b : Bool) (r : Result (ℤ × List ℕ))
          → a ≡ false
          → b ≡ true
          → (if a then err assertion else if b then r else err out_of_bounds) ≡ r
      past a b r q s = rw (q, s) refl

  iter_run :
      (ents : List DirEntry) (e fuel nr : ℕ) (tbl : List ℕ)
      → length ents ≤ fuel
      → length tbl ≤ nr
      → 0 < nr
      → length tbl + length ents < 2 ^ 31
      → (e == 9) ≡ false
      → folder_asserts sys w dpath ≡ false
      → (walk_loop sys w dpath e ents >>= λ walk. iter_loop sys w dpath fuel tbl nr walk)
        ≡ ok (table_of ents e tbl)
  unfolding tinit_target_walk_folder walk_loop
  iter_run [] e fuel nr tbl f le p few known fine = rw known (iter_end fuel tbl nr e le)
  iter_run (ent ∷ ents) e zero nr tbl f le p few known fine = absurd (omega arith)
  iter_run (ent ∷ ents) e (suc fuel) nr tbl f le p few known fine =
      by_entry (entry_svc-ok sys w dpath ent).0
        (iter_run ents e (suc fuel) nr tbl (omega arith) le p (omega arith) known fine)
        (λ id.
          let room = grow_room tbl nr le p (omega arith) in
          let size = length-append tbl (id ∷ []) in
          iter_run ents e fuel (grow tbl nr) (tbl ++ (id ∷ [])) (omega arith) (omega arith)
            (omega arith) (omega arith) known fine)
        (entry_svc-ok sys w dpath ent).1
    where
      by_entry :
          (found : Option ℕ)
          → (walk_loop sys w dpath e ents >>= λ walk. iter_loop sys w dpath (suc fuel) tbl nr walk)
            ≡ ok (table_of ents e tbl)
          → ((id : ℕ)
              → (walk_loop sys w dpath e ents >>= λ walk.
                  iter_loop sys w dpath fuel (tbl ++ (id ∷ [])) (grow tbl nr) walk)
                ≡ ok (table_of ents e (tbl ++ (id ∷ []))))
          → entry_svc sys w dpath ent ≡ ok found
          → (walk_loop sys w dpath e (ent ∷ ents) >>= λ walk.
              iter_loop sys w dpath (suc fuel) tbl nr walk)
            ≡ ok (table_of (ent ∷ ents) e tbl)
      by_entry none same next q = rw (walk_none ent ents e q, table_none ent ents e tbl q) same
      by_entry (some id) same next q =
          rw (walk_some ent ents e id q, table_some ent ents e tbl id q)
            (iter_found fuel nr tbl id (record { entries = ents; err = e }) le p (omega arith)
              ∙ (rw fine (next id)))

  -- The loop of tinit_target_init_iter, run on the fewer than 2^31 entries of an open directory with an
  -- absolute path of less than 4032 bytes, where readdir(3) does not give EBADF, ends with no failed
  -- assertion, never writes outside of its table, whose size is doubled when it is full, and returns either the services
  -- of all entries that are links to their files, in order, or the errno of readdir(3).
  pub iter_loop-table_of :
      (dir : Dir)
      → length dir.entries < 2 ^ 31
      → (dir.err == 9) ≡ false
      → folder_asserts sys w dpath ≡ false
      → (tinit_target_walk_folder sys w dpath dir >>= λ walk.
          iter_loop sys w dpath (length dir.entries) [] 4 walk)
        ≡ ok (table_of dir.entries dir.err [])
  unfolding tinit_target_walk_folder
  iter_loop-table_of dir few known fine = rw fine (
      iter_run dir.entries dir.err (length dir.entries) 4 [] (omega arith) (omega arith)
        (omega arith) (omega arith) known fine)
