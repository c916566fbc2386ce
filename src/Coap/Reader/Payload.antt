-- ===== src/Coap/Reader/Payload.antt =====
-- `coap_get_payload` on any packet and on a buffer that holds a message.
use libexositecoap.Common.{
  ℕ, zero, suc, ◌+◌, ◌-◌, ◌^◌, ◌≤◌, ◌<◌, ◌≡◌, ◌≢◌, refl, sym, List, [], ◌∷◌, ◌++◌, length,
  length-append, arith, ok, stuck, sub64,
}
use libexositecoap.Coap.Pdu.{Pdu, CoapPayload, null, at, ce_none}
use libexositecoap.Coap.Wire.{
  Opt, Message, IsEncodable, IsOptions, option_header, encode_options, encode_payload, encode,
  holding,
}
use libexositecoap.Coap.Fields.Laws.{get_tkl-holding}
use libexositecoap.Coap.Wire.Layout.{
  encode_option, length-encode_option, length-encode_options-cons, past_option,
  length-le-encode_options, decode_option-option, end_error, decode_option-payload, preamble,
  length-preamble, length-encode, holding-bytes, holding-len,
}
use libexositecoap.Coap.Header.Build.{option_header_bounds}
use libexositecoap.Coap.Fields.{coap_get_tkl}
use libexositecoap.Memory.Local.{peek-ne-stuck}
use libexositecoap.Coap.Header.{OptVars, coap_decode_option}
use libexositecoap.Coap.Header.Decode.{
  decode_option_grows, decode_option_inside, decode_option-ne-stuck,
}
use libexositecoap.Coap.Reader.{no_vars, payload_loop, coap_get_payload}
use mathlib.Core.Option.{Option, some, none}

-- One round, whichever way the option there decodes.
payload_loop_step :
    (fuel : ℕ) (bytes : List ℕ) (len offset : ℕ)
    → ((o : OptVars)
        → coap_decode_option bytes offset (sub64 len offset) no_vars ≡ ok (ce_none, o)
        → payload_loop fuel bytes len (o.val + o.len) ≢ stuck)
    → payload_loop (suc fuel) bytes len offset ≢ stuck
unfolding payload_loop
payload_loop_step fuel bytes len offset ih = grind (arith, decode_option-ne-stuck)

payload_loop-ne-stuck :
    (fuel : ℕ) (bytes : List ℕ) (len offset : ℕ)
    → 1 ≤ fuel
    → length bytes < fuel + offset
    → payload_loop fuel bytes len offset ≢ stuck
payload_loop-ne-stuck zero bytes len offset one h = absurd (omega arith)
payload_loop-ne-stuck (suc fuel) bytes len offset one h =
    payload_loop_step fuel bytes len offset (λ o e.
      payload_loop-ne-stuck fuel bytes len (o.val + o.len)
        (omega (arith, decode_option_inside bytes offset (sub64 len offset) no_vars o e))
        (omega (arith, decode_option_grows bytes offset (sub64 len offset) no_vars o e)))

-- On every packet the loop of `coap_get_payload` ends within its fuel.
pub get_payload-ne-stuck : (p : Pdu) → coap_get_payload p ≢ stuck
unfolding coap_get_payload coap_get_tkl
get_payload-ne-stuck p = grind (arith, peek-ne-stuck, payload_loop-ne-stuck)

-- The payload as the code returns it, in a message of `len` bytes.
unfoldable pub payload_at : ℕ → Option (List ℕ) → CoapPayload
payload_at len none = record { len = 0; val = null }
payload_at len (some v) = record { len = length v; val = at (len - length v) }

payload_loop_end :
    (fuel len : ℕ) (pre : List ℕ) (pl : Option (List ℕ)) (spare : List ℕ) (offset : ℕ)
    → len < 2 ^ 64
    → offset ≡ length pre
    → len ≡ length pre + length (encode_payload pl)
    → payload_loop (suc fuel) (pre ++ (encode_payload pl ++ spare)) len offset
      ≡ ok (payload_at len pl)
unfolding payload_loop end_error payload_at
payload_loop_end fuel len pre none spare offset small here whole =
    let left : sub64 len offset ≡ 0 = unfold encode_payload in omega arith in
    ground (arith, decode_option-payload pre none spare offset no_vars here, left)
payload_loop_end fuel len pre (some v) spare offset small here whole =
    let left : sub64 len offset ≡ length (encode_payload (some v)) = omega arith in
    let size : length (encode_payload (some v)) ≡ suc (length v) = unfold encode_payload in refl in
    ground (arith, decode_option-payload pre (some v) spare offset no_vars here, left, size)

payload_loop_lem :
    (fuel len last : ℕ) (pre : List ℕ) (os : List Opt) (pl : Option (List ℕ)) (spare : List ℕ)
    (offset : ℕ)
    → len < 2 ^ 64
    → offset ≡ length pre
    → len ≡ length pre + length (encode_options last os) + length (encode_payload pl)
    → IsOptions last os
    → length os < fuel
    → payload_loop fuel (pre ++ (encode_options last os ++ (encode_payload pl ++ spare))) len offset
      ≡ ok (payload_at len pl)
unfolding payload_loop
payload_loop_lem zero len last pre os pl spare offset small here whole sorted enough =
    absurd (omega arith)
payload_loop_lem (suc fuel) len last pre [] pl spare offset small here whole sorted enough =
    unfold encode_options in payload_loop_end fuel len pre pl spare offset small here (omega arith)
payload_loop_lem (suc fuel) len last pre (o ∷ os) pl spare offset small here whole sorted enough =
    let tail : List ℕ = encode_payload pl ++ spare in
    let size : length (encode_options last (o ∷ os))
        ≡ length (encode_option last o) + length (encode_options o.num os) =
      length-encode_options-cons last o os in
    let part : length (encode_option last o)
        ≡ length (option_header (o.num - last) (length o.val)) + length o.val =
      length-encode_option last o in
    let head : 1 ≤ length (option_header (o.num - last) (length o.val)) =
      (option_header_bounds (o.num - last) (length o.val)).0 in
    let left : 0 < sub64 len offset = omega arith in
    rw
      (
        payload_loop,
        decode_option-option pre last o os tail offset (sub64 len offset) no_vars here left sorted,
      )
      (rw (past_option pre last o os tail) (
        payload_loop_lem fuel len o.num (pre ++ encode_option last o) os pl spare
          (offset + length (option_header (o.num - last) (length o.val)) + length o.val) small
          (omega (arith, length-append pre (encode_option last o)))
          (omega (arith, length-append pre (encode_option last o))) sorted.3 (omega arith)))

-- In a buffer that holds an encodable message of less than 2^64 bytes `coap_get_payload` has a
-- result: where the payload lies and its length, or NULL and 0 if there is none.
pub get_payload-holding :
    (base : ℕ) (m : Message) (spare : List ℕ)
    → IsEncodable m
    → length (encode m) < 2 ^ 64
    → coap_get_payload (holding base m spare) ≡ ok (payload_at (length (encode m)) m.payload)
unfolding coap_get_payload
get_payload-holding base m spare v small =
    rw (get_tkl-holding base m spare v, holding-bytes base m spare, holding-len base m spare)
      (payload_loop_lem
        (length (preamble m ++ (encode_options 0 m.options ++ (encode_payload m.payload ++ spare)))
          + 1)
        (length (encode m)) 0 (preamble m) m.options m.payload spare (4 + length m.token) small
        (sym (length-preamble m)) (length-encode m) v.options_sorted
        (omega (
          arith,
          length-append (preamble m)
              (encode_options 0 m.options ++ (encode_payload m.payload ++ spare)),
          length-append (encode_options 0 m.options) (encode_payload m.payload ++ spare),
          length-le-encode_options 0 m.options,
        )))
