-- ===== src/Coap/Reader.antt =====
-- The readers of picocoap/src/coap.c: `coap_validate_pkt`, `coap_get_option`,
-- `coap_get_option_by_num` and `coap_get_payload`.
pub mod Payload
pub mod Loop
pub mod Options
pub mod ByNumber
pub mod Rounds
pub mod Pass
pub mod Passes
pub mod Validate
use libexositecoap.Common.{
  ℕ, zero, suc, ◌+◌, ◌*◌, List, Bool, ◌||◌, length, ltb, leb, ◌==◌, if◌then◌else◌, u8, sub64, Exec,
  ok, stuck, ◌>>=◌,
}
use libexositecoap.Coap.Pdu.{
  Pdu, CoapOption, CoapPayload, Ptr, null, at, advance, offset_of, CoapError, ce_none,
  ce_invalid_packet, ce_found_payload_marker, ce_end_of_packet,
}
use libexositecoap.Coap.Fields.{coap_get_version, coap_get_tkl}
use libexositecoap.Coap.Header.{OptVars, coap_decode_option}

abbrev pub no_vars : OptVars
no_vars = record { num = 0; len = 0; val = 0 }

-- The answer of `coap_validate_pkt` for the error of the first decoded option. The loop goes on
-- while the error is not CE_NONE, which is 0, so an option that decodes ends it; each other error
-- ends it in its body. `behind` is `ov + ol - pdu->buf`.
unfoldable pub validate_end : ℕ → CoapError → ℕ → CoapError
validate_end len ce_none behind = ce_none
validate_end len ce_end_of_packet behind = ce_none
validate_end len ce_found_payload_marker behind =
    if len == behind then ce_invalid_packet else ce_none
validate_end len err behind = err

-- The options of a packet whose fixed header is right; `start` is the index of the first one.
unfoldable pub validate_options : Pdu → ℕ → Exec CoapError
unfolding validate_end
validate_options p start = do
  (err, o) ←
      coap_decode_option p.bytes start (sub64 p.len start)
        (record { num = 0; len = 0; val = start })
  ok (validate_end p.len err (o.val + o.len))

unfoldable pub coap_validate_pkt : Pdu → Exec (CoapError × Pdu)
unfolding validate_options
coap_validate_pkt pdu =
    let p = record pdu { opt_ptr = null } in
    if ltb p.max p.len
    then ok (ce_invalid_packet, p)
    else if ltb p.len 4
    then ok (ce_invalid_packet, p)
    else do
      version ← coap_get_version p
      tkl ← coap_get_tkl p
      if version == 1
          then (if ltb 8 tkl
              then ok (ce_invalid_packet, p)
              else do err ← validate_options p (4 + tkl); ok (err, p))
          else ok (ce_invalid_packet, p)

-- The index of the first option.
unfoldable pub first_option : Pdu → Exec ℕ
first_option p = do tkl ← coap_get_tkl p; ok (4 + tkl)

-- A pointer outside of the packet is put at the first option.
unfoldable pub within : Pdu → Ptr → Exec ℕ
within p null = first_option p
within p (at i) = if ltb p.len i || i == 0 then first_option p else ok i

-- `last` is NULL, or an option; both NULL and the number 0 mean the start.
unfoldable pub option_start : Pdu → CoapOption → Exec ℕ
unfolding within
option_start p last = if last.num == 0 then first_option p else within p (advance last.val last.len)

-- What `coap_get_option` makes of the decoded variables `o`, at the index `ptr`.
unfoldable pub option_result : Pdu → ℕ → CoapError → OptVars → CoapOption
option_result p ptr ce_none o = record { num = o.num; len = o.len; val = at o.val }
option_result p ptr ce_found_payload_marker o =
    if o.num == 0
    then record { num = 0; len = sub64 (sub64 p.len ptr) 1; val = at (ptr + 1) }
    else record { num = 0; len = sub64 p.len (offset_of p null); val = null }
option_result p ptr err o = record { num = 0; len = 0; val = null }

unfoldable pub coap_get_option : Pdu → CoapOption → Exec CoapOption
unfolding option_start option_result
coap_get_option p last = do
  ptr ← option_start p last
  (err, o) ←
      coap_decode_option p.bytes ptr (sub64 p.len ptr) (record { num = last.num; len = 0; val = 0 })
  ok (option_result p ptr err o)

-- How a round of `coap_get_option_by_num` ends: with the result, or with the new counter `i`.
pub data Round : Type 0 where
  finished : CoapOption → Round
  again : ℕ → Round

abbrev pub no_option : CoapOption
no_option = record { num = 0; len = 0; val = null }

unfoldable pub by_num_round : ℕ → ℕ → ℕ → CoapOption → Round
by_num_round num occ i option =
    if option.num == num
    then (if leb (u8 (i + 1)) occ then again (u8 (i + 1)) else finished option)
    else if ltb num option.num
    then finished no_option
    else if option.num == 0
    then finished option
    else if leb i occ
    then again i
    else finished option

unfoldable pub by_num_loop : ℕ → Pdu → ℕ → ℕ → ℕ → CoapOption → Exec CoapOption
by_num_loop zero p num occ i last = stuck
by_num_loop (suc fuel) p num occ i last = do
  option ← coap_get_option p last
  elim (by_num_round num occ i option) [
    | finished result ↦ ok result
    | again j ↦ by_num_loop fuel p num occ j option
  ]

-- A pass over the options has at most as many rounds as there are bytes, and the number grows from
-- pass to pass.
unfoldable pub coap_get_option_by_num : Pdu → ℕ → ℕ → Exec CoapOption
coap_get_option_by_num p num occ =
    by_num_loop ((num + 1) * (length p.bytes + 1)) p num occ 0 no_option

-- The loop of `coap_get_payload`, from the index `offset` on.
unfoldable pub payload_loop : ℕ → List ℕ → ℕ → ℕ → Exec CoapPayload
payload_loop zero bytes len offset = stuck
payload_loop (suc fuel) bytes len offset = do
  (err, o) ← coap_decode_option bytes offset (sub64 len offset) no_vars
  elim err [
    | ce_none ↦ payload_loop fuel bytes len (o.val + o.len)
    | ce_found_payload_marker ↦
        ok (record { len = sub64 (sub64 len offset) 1; val = at (offset + 1) })
    | _ ↦ ok (record { len = 0; val = null })
  ]

-- Every round moves on by a byte at least, so a round for each byte, and one, is enough.
unfoldable pub coap_get_payload : Pdu → Exec CoapPayload
coap_get_payload p = do
  tkl ← coap_get_tkl p
  payload_loop (length p.bytes + 1) p.bytes p.len (4 + tkl)
