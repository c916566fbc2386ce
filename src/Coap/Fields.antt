-- ===== src/Coap/Fields.antt =====
-- The fixed header and the token: the getters of picocoap/src/coap.h and the setters of coap.c.
pub mod Laws
pub mod TokenValue
pub mod Token
pub mod Stops
use libexositecoap.Common.{
  ℕ, zero, suc, ◌+◌, ◌*◌, ◌/◌, ◌%◌, ◌^◌, bit_and, bit_or, List, [], ◌∷◌, ltb, if◌then◌else◌, u8,
  u16, sub64, Exec, ok, fault, ◌>>=◌,
}
use libexositecoap.Memory.{peek, poke, read, write, memmove}
use libexositecoap.Coap.Pdu.{
  Pdu, CoapError, ce_none, ce_invalid_packet, ce_insufficient_buffer, null, coap_v1, ct_rst,
  cc_empty,
}

unfoldable pub coap_get_version : Pdu → Exec ℕ
unfolding peek
coap_get_version p = do b ← peek p.bytes 0; ok (b / 64)

unfoldable pub coap_get_type : Pdu → Exec ℕ
unfolding peek
coap_get_type p = do b ← peek p.bytes 0; ok (bit_and (b / 16) 0x03)

unfoldable pub coap_get_tkl : Pdu → Exec ℕ
unfolding peek
coap_get_tkl p = do b ← peek p.bytes 0; ok (bit_and b 0x0f)

unfoldable pub coap_get_code : Pdu → Exec ℕ
unfolding peek
coap_get_code p = peek p.bytes 1

unfoldable pub coap_get_code_class : Pdu → Exec ℕ
unfolding coap_get_code
coap_get_code_class p = do c ← coap_get_code p; ok (u8 (c / 32))

unfoldable pub coap_get_code_detail : Pdu → Exec ℕ
unfolding coap_get_code
coap_get_code_detail p = do c ← coap_get_code p; ok (u8 (bit_and c 0x1f))

unfoldable pub coap_build_code : ℕ → ℕ → ℕ
coap_build_code class detail = u8 (bit_or (class * 32) detail)

unfoldable pub coap_get_mid : Pdu → Exec ℕ
unfolding peek
coap_get_mid p = do hi ← peek p.bytes 2; lo ← peek p.bytes 3; ok (u16 (bit_or (hi * 256) lo))

-- The first `n` bytes of a `uint64_t` in memory, and the number that bytes stand for: the host is
-- little-endian.
unfoldable pub le_bytes : ℕ → ℕ → List ℕ
le_bytes zero x = []
le_bytes (suc n) x = (x % 256) ∷ le_bytes n (x / 256)

unfoldable pub le_value : List ℕ → ℕ
le_value [] = 0
le_value (b ∷ bs) = b + 256 * le_value bs

-- `memcpy` into the 8 bytes of `token` is out of its bounds for a longer token.
unfoldable pub coap_get_token : Pdu → Exec ℕ
unfolding peek read le_value
coap_get_token p = do
  b ← peek p.bytes 0
  let tkl = bit_and b 0x0f
  if ltb p.len (4 + tkl)
      then ok 0
      else if ltb 8 tkl
      then fault
      else do bs ← read p.bytes 4 tkl; ok (le_value bs)

-- `if (pdu->len < n) pdu->len = n`
abbrev at_least : ℕ → ℕ → ℕ
at_least n len = if ltb len n then n else len

unfoldable pub coap_set_version : Pdu → ℕ → Exec (CoapError × Pdu)
unfolding peek poke
coap_set_version p ver = if ltb p.max 1 then ok (ce_insufficient_buffer, p) else do
  b ← peek p.bytes 0
  bs ← poke p.bytes 0 (u8 (bit_or (ver * 64) (bit_and b 0x3f)))
  ok (ce_none, record p { bytes = bs; len = at_least 1 p.len })

unfoldable pub coap_set_type : Pdu → ℕ → Exec (CoapError × Pdu)
unfolding peek poke
coap_set_type p mtype = if ltb p.max 1 then ok (ce_insufficient_buffer, p) else do
  b ← peek p.bytes 0
  bs ← poke p.bytes 0 (u8 (bit_or (mtype * 16) (bit_and b 0xcf)))
  ok (ce_none, record p { bytes = bs; len = at_least 1 p.len })

unfoldable pub coap_set_code : Pdu → ℕ → Exec (CoapError × Pdu)
unfolding poke
coap_set_code p code = if ltb p.max 2 then ok (ce_insufficient_buffer, p) else do
  bs ← poke p.bytes 1 (u8 code)
  ok (ce_none, record p { bytes = bs; len = at_least 2 p.len })

unfoldable pub coap_set_mid : Pdu → ℕ → Exec (CoapError × Pdu)
unfolding poke
coap_set_mid p mid = if ltb p.max 4 then ok (ce_insufficient_buffer, p) else do
  bs ← poke p.bytes 2 (u8 (mid / 256))
  cs ← poke bs 3 (bit_and mid 0xff)
  ok (ce_none, record p { bytes = cs; len = at_least 4 p.len })

-- The end of `coap_set_token`: the token is copied, then the length and the length field follow.
unfoldable pub put_token : Pdu → ℕ → ℕ → Exec (CoapError × Pdu)
unfolding peek poke write le_bytes coap_get_tkl
put_token p token tkl = do
  bs ← write p.bytes 4 (le_bytes tkl token)
  old ← coap_get_tkl (record p { bytes = bs })
  b ← peek bs 0
  cs ← poke bs 0 (bit_or (bit_and tkl 0x0f) (bit_and b 0xf0))
  ok (ce_none, record p { bytes = cs; len = sub64 (p.len + tkl) old })

unfoldable pub coap_set_token : Pdu → ℕ → ℕ → Exec (CoapError × Pdu)
coap_set_token p token tkl =
    if ltb p.max (4 + tkl)
    then ok (ce_insufficient_buffer, p)
    else if ltb 8 tkl
    then ok (ce_invalid_packet, p)
    else if ltb 4 p.len
    then (do
      old ← coap_get_tkl p
      if ltb p.max (sub64 (p.len + tkl) old) then ok (ce_insufficient_buffer, p) else do
        bs ← memmove p.bytes (4 + tkl) (4 + old) (sub64 (sub64 p.len 4) old)
        put_token (record p { bytes = bs }) token tkl)
    else put_token p token tkl

-- The errors of the setters are not looked at.
unfoldable pub coap_init_pdu : Pdu → Exec (CoapError × Pdu)
unfolding write memmove coap_get_tkl put_token coap_set_version coap_set_type coap_set_token
    coap_set_code coap_set_mid
coap_init_pdu p = if ltb p.max 4 then ok (ce_insufficient_buffer, p) else do
  bs ← write p.bytes 0 (0 ∷ 0 ∷ 0 ∷ 0 ∷ [])
  (_, p₁) ← coap_set_version (record p { bytes = bs; len = 0 }) coap_v1
  (_, p₂) ← coap_set_type p₁ ct_rst
  (_, p₃) ← coap_set_token p₂ 0 0
  (_, p₄) ← coap_set_code p₃ cc_empty
  (_, p₅) ← coap_set_mid p₄ 0
  ok (ce_none, record p₅ { opt_ptr = null })
