-- ===== src/Strarr/Filled.antt =====
-- An array that is filled from its first slot on keeps each string, and releases all of them.
use einit.Prelude.{
  ℕ, zero, suc, ◌+◌, ◌<◌, ◌≡◌, refl, ◌∙◌, ap, true, false, some, List, [], ◌∷◌, ◌++◌, ok, err,
  assertion, ◌>>=◌, Returns, ltb, ◌==◌, if◌then◌else◌, arith, length, get_elem?, length-append,
  take-all,
}
use einit.Conf.{CStr}
use einit.Strarr.{
  Slots, empty_slots, strarr_create, strarr_nr, slot_at, with_slot, strarr_get, strrep, strarr_rep,
  free_loop, strarr_destroy, rep_loop,
}

-- Some strings, and then empty slots.
abbrev pub filled : List CStr → ℕ → Slots
filled [] free = empty_slots free
filled (str ∷ strs) free = some str ∷ filled strs free

length-empty_slots : (free : ℕ) → length (empty_slots free) ≡ free
unfolding empty_slots
length-empty_slots zero = refl
length-empty_slots (suc free) = ap suc (length-empty_slots free)

length-filled : (strs : List CStr) (free : ℕ) → length (filled strs free) ≡ length strs + free
length-filled [] free = length-empty_slots free ∙ omega arith
length-filled (str ∷ strs) free = omega (arith, length-filled strs free)

with_slot-filled :
    (done : List CStr) (free : ℕ) (str : CStr)
    → with_slot (filled done (suc free)) (length done) (some str) ≡ filled (done ++ (str ∷ [])) free
unfolding with_slot empty_slots
with_slot-filled [] free str = refl
with_slot-filled (d ∷ done) free str = ap (λ l. some d ∷ l) (with_slot-filled done free str)

free_loop-filled : (strs : List CStr) (free : ℕ) → free_loop (filled strs free) ≡ strs
unfolding free_loop empty_slots
free_loop-filled [] zero = refl
free_loop-filled [] (suc free) = refl
free_loop-filled (str ∷ strs) free = ap (λ l. str ∷ l) (free_loop-filled strs free)

slot_at-filled : (strs : List CStr) (free i : ℕ) → slot_at (filled strs free) i ≡ get_elem? strs i
unfolding slot_at empty_slots
slot_at-filled [] zero i = refl
slot_at-filled [] (suc free) zero = refl
slot_at-filled [] (suc free) (suc i) = slot_at-filled [] free i
slot_at-filled (str ∷ strs) free zero = refl
slot_at-filled (str ∷ strs) free (suc i) = slot_at-filled strs free i

append_assoc :
    (xs : List CStr) (y : CStr) (zs : List CStr) → (xs ++ (y ∷ [])) ++ zs ≡ xs ++ (y ∷ zs)
append_assoc [] y zs = refl
append_assoc (x ∷ xs) y zs = ap (λ l. x ∷ l) (append_assoc xs y zs)

append_nil : (xs : List CStr) → xs ++ [] ≡ xs
append_nil [] = refl
append_nil (x ∷ xs) = ap (λ l. x ∷ l) (append_nil xs)

strarr_nr-filled :
    (strs : List CStr) (free : ℕ)
    → 0 < length strs + free
    → strarr_nr (filled strs free) ≡ ok (length strs + free)
unfolding strarr_nr
strarr_nr-filled strs free h = rw (length-filled strs free) (ground arith)

strarr_rep-filled :
    (done : List CStr) (free : ℕ) (str : CStr)
    → strarr_rep (filled done (suc free)) (length done) str (length str)
      ≡ ok (filled (done ++ (str ∷ [])) free)
unfolding strarr_rep strrep
strarr_rep-filled done free str =
    rw (strarr_nr-filled done (suc free) (omega arith), take-all str)
      (let fits : ltb (length done) (length done + suc free) ≡ true = ground arith in
        rw (fits, with_slot-filled done free str) refl)

rep_loop-filled :
    (strs done : List CStr) (free : ℕ)
    → rep_loop strs (length done) (filled done (length strs + free))
      ≡ ok (filled (done ++ strs) free)
unfolding rep_loop
rep_loop-filled [] done free =
    let none_left : 0 + free ≡ free = omega arith in rw (none_left, append_nil done) refl
rep_loop-filled (str ∷ strs) done free =
    let next : suc (length done) ≡ length (done ++ (str ∷ [])) =
      omega (arith, length-append done (str ∷ [])) in
    let one_more : suc (length strs) + free ≡ suc (length strs + free) = omega arith in
    rw
      (
        one_more,
        strarr_rep-filled done (length strs + free) str,
        next,
        rep_loop-filled strs (done ++ (str ∷ [])) free,
        append_assoc done str strs,
      )
      refl

-- What an array that holds some strings answers, and gives back.
abbrev pub Holds : List CStr → ℕ → ℕ → Slots → Type 0
Holds strs free index array =
    (strarr_get array index
      ≡ (if ltb index (length strs + free) then ok (get_elem? strs index) else err assertion))
    × (strarr_destroy array ≡ ok strs)

filled-Holds :
    (strs : List CStr) (free index : ℕ)
    → 0 < length strs + free
    → Holds strs free index (filled strs free)
unfolding strarr_get strarr_destroy
filled-Holds strs free index h =
    rw (strarr_nr-filled strs free h, slot_at-filled strs free index, free_loop-filled strs free)
      (refl, refl)

-- An array is created with a slot or more for each of some strings, and filled with them from its first
-- slot on, as the loop over a setting does: no assertion fails. Then strarr_get gives the string of an
-- index, NULL for a slot left free, and fails at its assertion exactly past the last slot; and
-- strarr_destroy frees these strings, each once, and nothing else.
pub rep_loop-Holds :
    (strs : List CStr) (free index : ℕ)
    → 0 < length strs + free
    → Returns
        (Holds strs free index)
        (strarr_create (length strs + free) >>= λ array. rep_loop strs 0 array)
unfolding strarr_create
rep_loop-Holds strs free index h =
    let some_slots : ((length strs + free) == 0) ≡ false = ground arith in
    rw (some_slots, rep_loop-filled strs [] free) (filled-Holds strs free index h)
