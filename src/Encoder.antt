-- ===== src/Encoder.antt =====
-- src/encoder.c: conversion of texts between character sets by iconv, which is not part of the
-- repository. strdup and xcalloc are taken to find memory.
use secoli_sced.Base.{
  Bytes, codes, ℕ, ◌*◌, Bool, [], ◌∷◌, Option, none, some, if◌then◌else◌, length, ℤ, pos, is_neg,
  eqb_ℤ,
}

-- The descriptor from the second character set to the first, cut to an int as the code cuts it;
-- and the string that a conversion leaves in a zeroed buffer of the given size.
pub record Iconv : Type 0 where
  pub iconv_open : Bytes → Bytes → ℤ
  pub iconv : Bytes → Bytes → ℕ → Bytes → Bytes

-- `handler` is the descriptor between the two.
pub record Encoder : Type 0 where
  pub input_charset : Bytes
  pub output_charset : Bytes

abbrev pub encoder_default_charset : Bytes
encoder_default_charset = codes "UTF-8"

abbrev pub encoder_direction_input : ℤ
encoder_direction_input = pos 1

abbrev pub encoder_direction_output : ℤ
encoder_direction_output = pos 2

module _ (I : Iconv) where
  abbrev with_handler : Bool → Bytes → Bytes → Option Encoder
  with_handler memory input output =
      if memory
      then (if is_neg (I.iconv_open output input)
          then none
          else some (record { input_charset = input; output_charset = output }))
      else none

  -- The flag is what xmalloc finds.
  unfoldable pub encoder_create : Bool → Bytes → ℤ → Option Encoder
  encoder_create memory charset direction =
      if eqb_ℤ direction encoder_direction_input
      then with_handler memory charset encoder_default_charset
      else if eqb_ℤ direction encoder_direction_output
      then with_handler memory encoder_default_charset charset
      else none

  -- A NULL encoder is a fault; client_run_output_enc does not pass one.
  unfoldable pub encoder_run : Encoder → Option Bytes → Option Bytes
  encoder_run enc none = none
  encoder_run enc (some []) = none
  encoder_run enc (some (c ∷ input)) =
      some (I.iconv enc.output_charset enc.input_charset (4 * length (c ∷ input)) (c ∷ input))

  unfoldable pub encoder_get_output_charset : Option Encoder → Option Bytes
  encoder_get_output_charset none = none
  encoder_get_output_charset (some enc) = some enc.output_charset

  unfoldable pub encoder_set_output_charset : Bool → Option Encoder → Bytes → Option Encoder
  unfolding encoder_create
  encoder_set_output_charset memory none charset = none
  encoder_set_output_charset memory (some enc) charset =
      encoder_create memory charset encoder_direction_output
