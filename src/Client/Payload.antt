-- ===== src/Client/Payload.antt =====
-- What `exo_process_waiting_datagrams` of src/exosite.c takes out of a message: the payload, and the
-- Observe and Max-Age options.
use libexositecoap.Common.{
  ℕ, zero, suc, ◌+◌, ◌*◌, ◌%◌, ◌^◌, bit_or, List, not, ◌&&◌, ltb, ◌==◌, if◌then◌else◌, Exec, ok,
  fault, ◌>>=◌,
}
use libexositecoap.Memory.{peek, poke, read, write}
use libexositecoap.Coap.Pdu.{Pdu, Ptr, null, at, CoapPayload, con_max_age}
use libexositecoap.Coap.Reader.{coap_get_option_by_num}
use mathlib.Core.Option.{Option, none, some}

-- `n` bytes behind a pointer into the message, and the byte at a distance from it.
abbrev pub bytes_at : Pdu → Ptr → ℕ → Exec (List ℕ)
bytes_at p null n = fault
bytes_at p (at i) n = read p.bytes i n

abbrev pub byte_at : Pdu → Ptr → ℕ → Exec ℕ
byte_at p null j = fault
byte_at p (at i) j = peek p.bytes (i + j)

-- What becomes of a value buffer that is to take a payload.
pub data Stored : Type 0 where
  -- The payload is empty: the buffer holds the empty string.
  emptied : List ℕ → Stored
  -- The payload does not fit, or there is no buffer.
  refused : Stored
  -- The payload and a 0 stand in the buffer.
  stored : List ℕ → Stored

-- The payload and a terminating 0 go to a buffer of `max` bytes; an empty one writes the 0 with no
-- look at the buffer.
unfoldable pub store_payload : Pdu → CoapPayload → Option (List ℕ) → ℕ → Exec Stored
store_payload p payload none max = if payload.len == 0 then fault else ok refused
store_payload p payload (some buf) max =
    if payload.len == 0
    then (do bs ← poke buf 0 0; ok (emptied bs))
    else if ltb max (payload.len + 1)
    then ok refused
    else do
      vs ← bytes_at p payload.val payload.len
      bs ← write buf 0 vs
      cs ← poke bs payload.len 0
      ok (stored cs)

-- `seq = (seq << (8*j)) | opt.val[j]` on 32 bits for the `n` bytes from `j` on; a shift by 32 is
-- undefined.
unfoldable pub observe_bytes : ℕ → ℕ → ℕ → Pdu → Ptr → Exec ℕ
observe_bytes zero j seq p val = ok seq
observe_bytes (suc n) j seq p val = do
  b ← byte_at p val j
  if ltb 3 j then fault else observe_bytes n (j + 1) (bit_or (seq * 2 ^ (8 * j) % 2 ^ 32) b) p val

-- The Max-Age option, or 120 seconds.
unfoldable pub max_age : Pdu → Exec ℕ
max_age p = do
  opt ← coap_get_option_by_num p con_max_age 0
  if not (opt.num == 0) && opt.len == 1 then byte_at p opt.val 0 else ok 120
