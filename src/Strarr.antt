-- ===== src/Strarr.antt =====
-- strarr.c and strarr.h: arrays of a fixed number of slots for strings that the array owns.
pub mod Filled
use einit.Prelude.{
  ℕ, zero, suc, ◌+◌, Bool, true, false, Option, none, some, List, [], ◌∷◌, Result, ok, err,
  assertion, ◌>>=◌, ltb, ◌==◌, if◌then◌else◌, length, take,
}
use einit.Conf.{CStr}

-- The slots of a `struct strarr`, of which `nr` is the number.
abbrev pub Slots : Type 0
Slots = List (Option CStr)

-- The memset() of strarr_create
unfoldable pub empty_slots : ℕ → Slots
empty_slots zero = []
empty_slots (suc nr) = none ∷ empty_slots nr

unfoldable pub strarr_create : ℕ → Result Slots
strarr_create nr = if nr == 0 then err assertion else ok (empty_slots nr)

unfoldable pub strarr_nr : Slots → Result ℕ
strarr_nr array = if length array == 0 then err assertion else ok (length array)

-- The slot of an index, and the slots with one of them replaced
unfoldable pub slot_at : Slots → ℕ → Option CStr
slot_at [] index = none
slot_at (slot ∷ array) zero = slot
slot_at (slot ∷ array) (suc index) = slot_at array index

unfoldable pub with_slot : Slots → ℕ → Option CStr → Slots
with_slot [] index string = []
with_slot (slot ∷ array) zero string = string ∷ array
with_slot (slot ∷ array) (suc index) string = slot ∷ with_slot array index string

unfoldable pub strarr_get : Slots → ℕ → Result (Option CStr)
unfolding strarr_nr
strarr_get array index =
    strarr_nr array >>= λ nr. if ltb index nr then ok (slot_at array index) else err assertion

unfoldable pub strarr_put : Slots → ℕ → Option CStr → Result Slots
unfolding strarr_nr
strarr_put array index string = strarr_nr array >>= λ nr.
    if ltb index nr then ok (with_slot array index string) else err assertion

-- The bytes copied: no more than the original string has.
unfoldable pub strrep : CStr → ℕ → CStr
strrep orig len = take len orig

unfoldable pub strarr_rep : Slots → ℕ → CStr → ℕ → Result Slots
strarr_rep array index orig len = strarr_nr array >>= λ nr.
    if ltb index nr then ok (with_slot array index (some (strrep orig len))) else err assertion

-- The strings given to free(), in order, up to the first slot that is NULL
unfoldable pub free_loop : Slots → List CStr
free_loop [] = []
free_loop (none ∷ array) = []
free_loop (some string ∷ array) = string ∷ free_loop array

unfoldable pub strarr_destroy : Slots → Result (List CStr)
unfolding free_loop
strarr_destroy array = strarr_nr array >>= λ nr. ok (free_loop array)

-- The loop of conf_load_strarr_setting (conf.c), for the strings that `parse` accepts: slot `e` and on
unfoldable pub rep_loop : List CStr → ℕ → Slots → Result Slots
rep_loop [] e array = ok array
rep_loop (str ∷ strs) e array =
    strarr_rep array e str (length str) >>= λ array'. rep_loop strs (suc e) array'
