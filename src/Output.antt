-- ===== src/Output.antt =====
-- src/output.c: the output handlers, and their status.
use secoli_sced.Base.{
  Bytes, codes, Bool, List, [], ◌∷◌, Option, none, some, if◌then◌else◌, ℤ, pos, minus_one, eqb_ℤ,
  str_eq, is_neg,
}

-- Which opener, dumper and closer stand in the struct.
pub data Format : Type 0 where
  csv flat json void_format : Format

-- OUTPUT_HANDLER_STATUS_…
pub data Status : Type 0 where
  status_unset status_open status_closed : Status

-- The client that it points back to is the one that it belongs to.
pub record OutputHandler : Type 0 where
  pub description : Bytes
  pub format : Format
  pub status : Status

unfoldable pub handlers : List (Bytes × Format)
handlers =
    (codes "CSV", csv)
    ∷ (codes "FLAT", flat)
    ∷ (codes "JSON", json)
    ∷ (codes "VOID", void_format)
    ∷ []

-- All four openers and closers return 0.
abbrev pub opener : Format → ℤ
opener f = pos 0

abbrev pub closer : Format → ℤ
closer f = pos 0

unfoldable pub output_open_handler : Option OutputHandler → ℤ × Option OutputHandler
output_open_handler none = (minus_one, none)
output_open_handler (some oh) = elim oh.status [
  | status_open ↦ (pos 0, some oh)
  | _ ↦
      let retval = opener oh.format in
      (retval, some (if eqb_ℤ retval (pos 0) then record oh { status = status_open } else oh))
]

unfoldable pub output_close_handler : Option OutputHandler → ℤ × Option OutputHandler
output_close_handler none = (minus_one, none)
output_close_handler (some oh) = elim oh.status [
  | status_closed ↦ (pos 0, some oh)
  | _ ↦
      let retval = closer oh.format in
      (retval, some (if eqb_ℤ retval (pos 0) then record oh { status = status_closed } else oh))
]

-- The loop over the table.
unfoldable pub find_handler_named : Bytes → List (Bytes × Format) → Option (Bytes × Format)
find_handler_named cmd [] = none
find_handler_named cmd ((description, f) ∷ rest) =
    if str_eq cmd description then some (description, f) else find_handler_named cmd rest

abbrev opened : ℤ × Option OutputHandler → Option OutputHandler
opened (retval, oh) = if is_neg retval then none else oh

-- The flag is what xmalloc finds.
unfoldable pub output_create_handler : Bool → Option Bytes → Option OutputHandler
unfolding find_handler_named handlers output_open_handler
output_create_handler memory none = none
output_create_handler memory (some cmd) = elim (find_handler_named cmd handlers) [
  | none ↦ none
  | some (description, f) ↦
      if memory
      then opened (
          output_open_handler
            (some (record { description = description; format = f; status = status_unset })))
      else none
]

unfoldable pub output_get_handler_description : Option OutputHandler → Option Bytes
output_get_handler_description none = none
output_get_handler_description (some oh) = some oh.description
