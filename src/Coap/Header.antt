-- ===== src/Coap/Header.antt =====
-- One option header: `coap_decode_option`, `coap_build_option_header` and
-- `coap_compute_option_header_len` of picocoap/src/coap.c. Option deltas and lengths are not
-- negative: the code computes them from unsigned numbers.
pub mod Build
pub mod Decode
use libexositecoap.Common.{
  ℕ, ◌+◌, ◌-◌, ◌*◌, ◌/◌, ◌%◌, bit_and, bit_or, List, ltb, ◌==◌, if◌then◌else◌, u8, u16, Exec, ok,
  ◌>>=◌,
}
use libexositecoap.Memory.{peek, poke}
use libexositecoap.Coap.Pdu.{
  CoapError, ce_none, ce_invalid_packet, ce_insufficient_buffer, ce_found_payload_marker,
  ce_end_of_packet, error_number,
}
use mathlib.Core.Option.{Option, none, some}

-- The variables that the out parameters of `coap_decode_option` point to; `val` is an index.
pub record OptVars : Type 0 where
  pub num : ℕ
  pub len : ℕ
  pub val : ℕ

-- A base delta or length with its extension, and the index behind; none for the nibble 15.
unfoldable pub extended : List ℕ → ℕ → ℕ → Exec (Option (ℕ × ℕ))
unfolding peek
extended bytes ptr n =
    if ltb n 13
    then ok (some (n, ptr))
    else if n == 13
    then (do b ← peek bytes ptr; ok (some (u16 (b + 13), ptr + 1)))
    else if n == 14
    then (do
      hi ← peek bytes ptr
      lo ← peek bytes (ptr + 1)
      ok (some (u16 (hi * 256 + lo + 269), ptr + 2)))
    else ok none

-- What `coap_decode_option` does behind the first byte `b`.
unfoldable pub decode_header : List ℕ → ℕ → ℕ → OptVars → Exec (CoapError × OptVars)
unfolding extended
decode_header bytes ptr b vars = do
  found ← extended bytes (ptr + 1) (b / 16)
  elim found [
    | none ↦ ok (ce_invalid_packet, vars)
    | some (delta, ptr₁) ↦ do
      found₁ ← extended bytes ptr₁ (bit_and b 0x0f)
      elim found₁ [
        | none ↦ ok (ce_invalid_packet, vars)
        | some (length, ptr₂) ↦
            ok (ce_none, record { num = u16 (vars.num + delta); len = length; val = ptr₂ })
      ]
  ]

unfoldable pub coap_decode_option : List ℕ → ℕ → ℕ → OptVars → Exec (CoapError × OptVars)
unfolding peek decode_header
coap_decode_option bytes pkt_ptr pkt_len vars =
    if pkt_len == 0 then ok (ce_end_of_packet, vars) else do
      b ← peek bytes pkt_ptr
      if b == 0xff then ok (ce_found_payload_marker, vars) else decode_header bytes pkt_ptr b vars

-- The base of `n` for the first byte, with the extension written at `buf + used`: the number of
-- bytes used and the buffer. None if `max_len` is too small.
unfoldable pub put_extended : List ℕ → ℕ → ℕ → ℕ → ℕ → Exec (Option (ℕ × ℕ × List ℕ))
unfolding poke
put_extended bytes buf used max_len n =
    if ltb n 13
    then ok (some (n, used, bytes))
    else if ltb n 269
    then (if ltb max_len (used + 1)
        then ok none
        else do bs ← poke bytes (buf + used) (u8 (n - 13)); ok (some (13, used + 1, bs)))
    else if ltb max_len (used + 2)
    then ok none
    else do
      bs ← poke bytes (buf + used) (u8 ((n - 269) / 256))
      cs ← poke bs (buf + (used + 1)) (bit_and (n - 269) 0xff)
      ok (some (14, used + 2, cs))

-- The length part and the first byte, behind a delta part that leaves `base_num`.
unfoldable pub finish_header : ℕ → ℕ → ℕ → ℕ × ℕ × List ℕ → Exec (ℕ × List ℕ)
unfolding put_extended
finish_header buf max_len opt_len (base_num, used, bytes) = do
  put ← put_extended bytes buf used max_len opt_len
  elim put [
    | none ↦ ok (error_number ce_insufficient_buffer, bytes)
    | some (base_len, used₁, bs) ↦ do
      cs ← poke bs buf (u8 (bit_or (base_num * 16) base_len))
      ok (used₁, cs)
  ]

-- The result is the header's length, or the number of an error.
unfoldable pub coap_build_option_header : List ℕ → ℕ → ℕ → ℕ → ℕ → Exec (ℕ × List ℕ)
unfolding poke put_extended finish_header
coap_build_option_header bytes buf max_len opt_delta opt_len =
    if ltb max_len 1 then ok (error_number ce_insufficient_buffer, bytes) else do
      put ← put_extended bytes buf 1 max_len opt_delta
      elim put [
        | none ↦ ok (error_number ce_insufficient_buffer, bytes)
        | some part ↦ finish_header buf max_len opt_len part
      ]

-- How much an extension adds to the length.
pub extension_len : ℕ → ℕ
extension_len n = if ltb n 13 then 0 else if ltb n 269 then 1 else 2

unfoldable pub coap_compute_option_header_len : ℕ → ℕ → ℕ
unfolding extension_len
coap_compute_option_header_len opt_delta opt_len =
    1 + extension_len opt_delta + extension_len opt_len
