-- ===== src/Coap/Writer.antt =====
-- The writers of picocoap/src/coap.c that insert into a message: `coap_add_option`,
-- `coap_adjust_option_deltas` and `coap_set_payload`. An `int32_t` difference is its pattern of 32
-- bits; option numbers and lengths are not negative.
pub mod Ends
pub mod Stops
pub mod Search
pub mod Insert
pub mod AddOption
pub mod Append
pub mod SetPayload
use libexositecoap.Common.{
  ℕ, zero, suc, ◌+◌, ◌-◌, ◌%◌, ◌^◌, List, [], ◌∷◌, Bool, true, false, not, ◌&&◌, length, ltb, leb,
  ◌==◌, if◌then◌else◌, u16, sub64, Exec, ok, stuck, ◌>>=◌,
}
use libexositecoap.Memory.{poke, read, write, memmove}
use libexositecoap.Coap.Pdu.{
  Pdu, CoapError, ce_none, ce_insufficient_buffer, ce_found_payload_marker, ce_end_of_packet,
}
use libexositecoap.Coap.Fields.{coap_get_tkl}
use libexositecoap.Coap.Header.{
  OptVars, coap_decode_option, coap_build_option_header, coap_compute_option_header_len,
}

-- Where the search for an insertion point ends.
pub record Place : Type 0 where
  pub err : CoapError
  pub pkt_ptr : ℕ
  pub lopt_num : ℕ

abbrev pub is_none : CoapError → Bool
is_none ce_none = true
is_none _ = false

-- The loop of `coap_add_option` while the numbers are at most `opt_num`, and that of
-- `coap_set_payload`, which has no such test.
unfoldable pub find_place : ℕ → (ℕ → Bool) → List ℕ → ℕ → OptVars → Exec Place
find_place zero goes_on bytes len fopt = stuck
find_place (suc fuel) goes_on bytes len fopt = do
  let pkt_ptr = fopt.val + fopt.len
  (err, next) ← coap_decode_option bytes pkt_ptr (sub64 len pkt_ptr) fopt
  elim (is_none err && (goes_on next.num && ltb (pkt_ptr + next.len) len)) [
    | true ↦ find_place fuel goes_on bytes len next
    | false ↦ ok (record { err = err; pkt_ptr = pkt_ptr; lopt_num = fopt.num })
  ]

-- "Zeroth option's value", which is the first option header.
abbrev pub zeroth : ℕ → OptVars
zeroth start = record { num = 0; len = 0; val = start }

-- Errors of `coap_decode_option` that the writers return.
unfoldable pub is_fatal : CoapError → Bool
is_fatal ce_none = false
is_fatal ce_found_payload_marker = false
is_fatal ce_end_of_packet = false
is_fatal _ = true

-- A header of another length moves the value of its option, and only that.
unfoldable pub adjust_move : List ℕ → ℕ → ℕ → ℕ → OptVars → Exec (List ℕ)
adjust_move bytes ptr fhdr_len nhdr_len f =
    if fhdr_len == nhdr_len
    then ok bytes
    else memmove bytes (f.val + nhdr_len - fhdr_len) f.val f.len

-- The loop of `coap_adjust_option_deltas`: the error, the length of the options and the buffer.
unfoldable pub adjust_loop : ℕ → List ℕ → ℕ → ℕ → ℕ → ℕ → OptVars → Exec (CoapError × ℕ × List ℕ)
unfolding adjust_move
adjust_loop zero bytes start opts_len max_len offset fopt = stuck
adjust_loop (suc fuel) bytes start opts_len max_len offset fopt =
    let ptr = fopt.val + fopt.len in
    elim (ltb opts_len (ptr - start)) [
      | true ↦ ok (ce_none, opts_len, bytes)
      | false ↦ do
        (err, f) ← coap_decode_option bytes ptr (sub64 opts_len (ptr - start)) fopt
        let nopt_num = u16 (f.num + offset)
        let fhdr_len = f.val - ptr
        let nhdr_len = coap_compute_option_header_len nopt_num f.len
        let opts_len' = sub64 (opts_len + nhdr_len) fhdr_len
        elim err [
          | ce_found_payload_marker ↦ ok (ce_none, opts_len, bytes)
          | ce_end_of_packet ↦ ok (ce_none, opts_len, bytes)
          | ce_none ↦ elim (not (fhdr_len == nhdr_len) && ltb max_len opts_len') [
            | true ↦ ok (ce_insufficient_buffer, opts_len, bytes)
            | false ↦ do
              bs ← adjust_move bytes ptr fhdr_len nhdr_len f
              (_, cs) ← coap_build_option_header bs ptr nhdr_len nopt_num f.len
              adjust_loop fuel cs start opts_len' max_len offset f
          ]
          | other ↦ ok (other, opts_len, bytes)
        ]
    ]

-- `offset` is the pattern of an `int32_t`.
unfoldable pub coap_adjust_option_deltas : List ℕ → ℕ → ℕ → ℕ → ℕ → Exec (CoapError × ℕ × List ℕ)
unfolding adjust_loop
coap_adjust_option_deltas bytes start opts_len max_len offset =
    adjust_loop (length bytes + 1) bytes start opts_len max_len offset (zeroth start)

-- The header and the value, at a place with room for both.
unfoldable pub insert_option : List ℕ → ℕ → ℕ → ℕ → List ℕ → ℕ → Exec (List ℕ)
insert_option bytes pkt_ptr nopt_hdr_len delta value opt_len = do
  (_, bs) ← coap_build_option_header bytes pkt_ptr nopt_hdr_len delta opt_len
  vs ← read value 0 opt_len
  write bs (pkt_ptr + nopt_hdr_len) vs

-- The packet's tail moves back by `room` bytes and its deltas are adjusted: the new length and the
-- buffer. The errors of `coap_adjust_option_deltas` are not looked at.
unfoldable pub make_room : Pdu → ℕ → ℕ → ℕ → Exec (ℕ × List ℕ)
make_room p pkt_ptr room offset = do
  bs ← memmove p.bytes (pkt_ptr + room) pkt_ptr (sub64 p.len pkt_ptr)
  let len = p.len + room
  let opts_len = sub64 len pkt_ptr
  (_, opts_len', cs) ←
      coap_adjust_option_deltas bs (pkt_ptr + room) opts_len (sub64 p.max pkt_ptr) offset
  ok (sub64 (len + opts_len') opts_len, cs)

-- `coap_add_option` once the place is found; `opt_num - lopt_num` is not negative there.
unfoldable pub add_option_at : Pdu → ℕ → List ℕ → ℕ → Place → Exec (CoapError × Pdu)
unfolding is_fatal
add_option_at p opt_num value opt_len place =
    let delta = opt_num - place.lopt_num in
    let nopt_hdr_len = coap_compute_option_header_len delta opt_len in
    if is_fatal place.err
    then ok (place.err, p)
    else if ltb p.max (p.len + nopt_hdr_len + opt_len)
    then ok (ce_insufficient_buffer, p)
    else if p.len == place.pkt_ptr
    then (do
      bs ← insert_option p.bytes place.pkt_ptr nopt_hdr_len delta value opt_len
      ok (ce_none, record p { bytes = bs; len = p.len + nopt_hdr_len + opt_len }))
    else do
      (len, cs) ←
          make_room p place.pkt_ptr (nopt_hdr_len + opt_len)
            ((place.lopt_num + 2 ^ 32 - opt_num) % 2 ^ 32)
      bs ← insert_option cs place.pkt_ptr nopt_hdr_len delta value opt_len
      ok (ce_none, record p { bytes = bs; len = len })

unfoldable pub coap_add_option : Pdu → ℕ → List ℕ → ℕ → Exec (CoapError × Pdu)
coap_add_option p opt_num value opt_len = do
  tkl ← coap_get_tkl p
  place ← find_place (length p.bytes + 1) (λ n. leb n opt_num) p.bytes p.len (zeroth (4 + tkl))
  add_option_at p opt_num value opt_len place

unfoldable pub put_payload : Pdu → List ℕ → ℕ → List ℕ → ℕ → Exec (CoapError × Pdu)
put_payload p bytes pkt_ptr payload payload_len = do
  vs ← read payload 0 payload_len
  bs ← write bytes pkt_ptr vs
  ok (ce_none, record p { bytes = bs; len = pkt_ptr + payload_len })

-- The payload at the place found; behind `CE_END_OF_PACKET` a payload marker goes in front of it.
unfoldable pub set_payload_at : Pdu → List ℕ → ℕ → Place → Exec (CoapError × Pdu)
unfolding is_fatal put_payload
set_payload_at p payload payload_len place =
    if is_fatal place.err then ok (place.err, p) else elim place.err [
      | ce_end_of_packet ↦
          if ltb p.max (p.len + payload_len + 1) then ok (ce_insufficient_buffer, p) else do
            bs ← poke p.bytes place.pkt_ptr 0xff
            put_payload p bs (place.pkt_ptr + 1) payload payload_len
      | ce_found_payload_marker ↦
          if ltb p.max (p.len + payload_len)
          then ok (ce_insufficient_buffer, p)
          else put_payload p p.bytes place.pkt_ptr payload payload_len
      | _ ↦ put_payload p p.bytes place.pkt_ptr payload payload_len
    ]

unfoldable pub coap_set_payload : Pdu → List ℕ → ℕ → Exec (CoapError × Pdu)
coap_set_payload p payload payload_len = do
  tkl ← coap_get_tkl p
  place ← find_place (length p.bytes + 1) (λ _. true) p.bytes p.len (zeroth (4 + tkl))
  set_payload_at p payload payload_len place
