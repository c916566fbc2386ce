-- ===== src/Coap/Writer/SetPayload.antt =====
-- `coap_set_payload` of picocoap/src/coap.c on a message without a payload.
use libexositecoap.Common.{
  ℕ, suc, ◌+◌, ◌*◌, ◌/◌, ◌%◌, ◌^◌, ◌≤◌, ◌<◌, ◌≡◌, refl, sym, ap, ◌∙◌, Bool, true, List, [], ◌∷◌,
  ◌++◌, length, All, length-append, append_assoc, append-nil, arith, ok, take, drop,
  take-append-drop, length-take_le, length-drop,
}
use libexositecoap.Memory.{write}
use libexositecoap.Memory.Local.{read_whole, write_here, poke_here}
use libexositecoap.Coap.Pdu.{ce_none, ce_end_of_packet, ce_insufficient_buffer}
use libexositecoap.Coap.Wire.{
  Opt, Message, IsEncodable, encode_payload, encode_body, encode, holding,
}
use libexositecoap.Coap.Wire.Layout.{length-encode, end_error}
use libexositecoap.Coap.Fields.Laws.{get_tkl-holding}
use libexositecoap.Coap.Writer.{
  Place, find_place, is_fatal, put_payload, set_payload_at, coap_set_payload, zeroth,
}
use libexositecoap.Coap.Writer.Search.{last_num, find_place-holding}
use mathlib.Core.Option.{none, some}

unfoldable pub with_payload : Message → List ℕ → Message
with_payload m v = record m { payload = some v }

All-true : (os : List Opt) → All (λ (q : Opt). ◌≡◌ {A = Bool} true true) os
All-true [] = tt
All-true (o ∷ os) = (refl, All-true os)

-- The payload replaces as many bytes as it has.
write_payload :
    (pre spare v : List ℕ) (at : ℕ)
    → at ≡ length pre
    → length v ≤ length spare
    → write (pre ++ spare) at v ≡ ok (pre ++ (v ++ drop (length v) spare))
write_payload pre spare v at here fits =
    ap (λ (t : List ℕ). write (pre ++ t) at v) (sym (take-append-drop (length v) spare))
    ∙ write_here pre at here (take (length v) spare) v (drop (length v) spare)
        (length-take_le (length v) spare fits)

body-payload :
    (t : List ℕ) (os : List Opt) (v : List ℕ)
    → encode_body t os (some v) ≡ encode_body t os none ++ (0xff ∷ v)
unfolding encode_body encode_payload
body-payload t os v = simp (append-nil, append_assoc)

pub encode-with_payload :
    (m : Message) (v : List ℕ)
    → m.payload ≡ none
    → encode (with_payload m v) ≡ encode m ++ (0xff ∷ v)
unfolding encode with_payload
encode-with_payload m v no_payload = rw no_payload (
    ap
      (λ (t : List ℕ).
        (64 + m.mtype * 16 + length m.token) ∷ m.code ∷ (m.mid / 256) ∷ (m.mid % 256) ∷ t)
      (body-payload m.token m.options v))

module _ (base : ℕ) (m : Message) (v : List ℕ) (valid : IsEncodable m)
    (no_payload : m.payload ≡ none) (small : length (encode m) < 2 ^ 64) where
  end_place : Place
  end_place = record {
    err = ce_end_of_packet;
    pkt_ptr = length (encode m);
    lopt_num = last_num 0 m.options;
  }

  found :
      (spare : List ℕ)
      → find_place
          (length (holding base m spare).bytes + 1)
          (λ n. true)
          (holding base m spare).bytes
          (holding base m spare).len
          (zeroth (4 + length m.token))
        ≡ ok end_place
  unfolding end_place end_error encode_payload
  found spare = ground (
    arith,
    find_place-holding base m spare (λ n. true) valid small (All-true m.options),
    length-encode m,
  )

  new_bytes :
      (s : List ℕ)
      → (encode m ++ (0xff ∷ [])) ++ (v ++ drop (length v) s)
        ≡ encode (with_payload m v) ++ drop (length v) s
  new_bytes s =
      append_assoc (encode m) (0xff ∷ []) (v ++ drop (length v) s)
      ∙ sym (append_assoc (encode m) (0xff ∷ v) (drop (length v) s))
      ∙ ap (λ (t : List ℕ). t ++ drop (length v) s) (sym (encode-with_payload m v no_payload))

  wrote :
      (s : List ℕ)
      → length v ≤ length s
      → write (encode m ++ (0xff ∷ s)) (length (encode m) + 1) v
        ≡ ok (encode (with_payload m v) ++ drop (length v) s)
  wrote s fits =
      ap (λ (t : List ℕ). write t (length (encode m) + 1) v)
        (sym (append_assoc (encode m) (0xff ∷ []) s))
      ∙ write_payload (encode m ++ (0xff ∷ [])) s v (length (encode m) + 1)
          (sym (length-append (encode m) (0xff ∷ []))) fits
      ∙ ap ok (new_bytes s)

  -- In a buffer that holds an encodable message without a payload, of less than 2^64 bytes,
  -- `coap_set_payload` leaves the message with the payload behind a payload marker, if both fit.
  pub set_payload-holding :
      (spare : List ℕ)
      → length v < length spare
      → coap_set_payload (holding base m spare) v (length v)
        ≡ ok (ce_none, holding base (with_payload m v) (drop (suc (length v)) spare))
  unfolding coap_set_payload set_payload_at put_payload is_fatal end_place holding
  set_payload-holding [] fits = absurd (omega arith)
  set_payload-holding (x ∷ s) fits = ground (
    arith,
    get_tkl-holding base m (x ∷ s) valid,
    found (x ∷ s),
    poke_here (encode m) (length (encode m)) refl x s 0xff,
    read_whole v,
    wrote s (omega arith),
    ap (length {A = ℕ}) (encode-with_payload m v no_payload),
    length-append (encode m) (0xff ∷ v),
    length-append (encode m) (x ∷ s),
    length-append (encode (with_payload m v)) (drop (length v) s),
    length-drop (length v) s,
  )

  -- If the payload marker and the payload do not fit, the result is CE_INSUFFICIENT_BUFFER and the
  -- buffer with an encodable message of less than 2^64 bytes without a payload is what it was.
  pub set_payload_full :
      (spare : List ℕ)
      → length spare ≤ length v
      → coap_set_payload (holding base m spare) v (length v)
        ≡ ok (ce_insufficient_buffer, holding base m spare)
  unfolding coap_set_payload set_payload_at is_fatal end_place holding
  set_payload_full spare fits =
      ground
        (arith, get_tkl-holding base m spare valid, found spare, length-append (encode m) spare)
