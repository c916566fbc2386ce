-- ===== src/Coap/Writer/AddOption.antt =====
-- `coap_add_option` of an option that belongs behind all others, in a message with no payload.
use libexositecoap.Common.{
  ℕ, ◌+◌, ◌-◌, ◌^◌, ◌≤◌, ◌<◌, ◌≡◌, sym, ap, ◌∙◌, true, List, [], ◌∷◌, ◌++◌, length, All,
  length-append, append_assoc, arith, ok, leb, drop, length-drop,
}
use libexositecoap.Coap.Pdu.{ce_none, ce_end_of_packet, ce_insufficient_buffer, null}
use libexositecoap.Coap.Wire.{
  Opt, Message, IsEncodable, option_header, encode_options, encode_payload, encode, holding,
}
use libexositecoap.Coap.Wire.Layout.{
  encode_option, length-encode_option, preamble, length-encode, end_error,
}
use libexositecoap.Coap.Fields.Laws.{get_tkl-holding}
use libexositecoap.Coap.Header.{coap_compute_option_header_len}
use libexositecoap.Coap.Header.Build.{compute_option_header_len-eq}
use libexositecoap.Coap.Writer.{
  Place, find_place, is_fatal, insert_option, add_option_at, coap_add_option, zeroth,
}
use libexositecoap.Coap.Writer.Search.{last_num, find_place-holding}
use mathlib.Core.Option.{none}
use libexositecoap.Coap.Writer.Insert.{insert_option_lem, with_option, encode-with_option}

-- A buffer is the one that holds a message, field by field.
holding_eq :
    (base : ℕ) (bytes : List ℕ) (len max : ℕ) (m : Message) (spare : List ℕ)
    → bytes ≡ encode m ++ spare
    → len ≡ length (encode m)
    → max ≡ length (encode m ++ spare)
    → record { base = base; bytes = bytes; len = len; max = max; opt_ptr = null }
      ≡ holding base m spare
unfolding holding
holding_eq base bytes len max m spare eb el em =
    λ i. record { base = base; bytes = eb i; len = el i; max = em i; opt_ptr = null }

last_num-le :
    (num last : ℕ) (os : List Opt)
    → last ≤ num
    → All (λ (o : Opt). leb o.num num ≡ true) os
    → last_num last os ≤ num
last_num-le num last [] h all = h
last_num-le num last (o ∷ os) h all = last_num-le num o.num os (ground arith) all.1

-- The bytes that an option behind the last one of a message adds.
abbrev pub added : Message → Opt → List ℕ
added m o = encode_option (last_num 0 m.options) o

module _ (base : ℕ) (m : Message) (spare : List ℕ) (o : Opt) (v : IsEncodable m)
    (no_payload : m.payload ≡ none) (last : All (λ (q : Opt). leb q.num o.num ≡ true) m.options)
    (small : length (encode m) < 2 ^ 64) where
  at_end : length (preamble m) + length (encode_options 0 m.options) ≡ length (encode m)
  unfolding encode_payload
  at_end = ground (arith, length-encode m)

  end_place : Place
  end_place = record {
    err = ce_end_of_packet;
    pkt_ptr = length (encode m);
    lopt_num = last_num 0 m.options;
  }

  found :
      find_place
        (length (holding base m spare).bytes + 1)
        (λ n. leb n o.num)
        (holding base m spare).bytes
        (holding base m spare).len
        (zeroth (4 + length m.token))
      ≡ ok end_place
  unfolding end_place end_error
  found = ground (arith, find_place-holding base m spare (λ n. leb n o.num) v small last, at_end)

  -- The bytes of the new message, and of what is left behind it.
  new_bytes :
      encode m ++ (added m o ++ drop (length (added m o)) spare)
      ≡ encode (with_option m o) ++ drop (length (added m o)) spare
  new_bytes =
      sym (append_assoc (encode m) (added m o) (drop (length (added m o)) spare))
      ∙ ap (λ (t : List ℕ). t ++ drop (length (added m o)) spare)
          (sym (encode-with_option m o no_payload))

  inserted :
      o.num < 65536
      → length o.val < 65536
      → length (added m o) ≤ length spare
      → insert_option
          (encode m ++ spare)
          (length (encode m))
          (coap_compute_option_header_len (o.num - last_num 0 m.options) (length o.val))
          (o.num - last_num 0 m.options)
          o.val
          (length o.val)
        ≡ ok (encode (with_option m o) ++ drop (length (added m o)) spare)
  unfolding encode_option
  inserted rn rl fits =
      let delta : ℕ = o.num - last_num 0 m.options in
      let size : length (added m o) ≡ length (option_header delta (length o.val)) + length o.val =
        length-append (option_header delta (length o.val)) o.val in
      rw (compute_option_header_len-eq delta (length o.val)) (
        insert_option_lem (encode m) spare o.val delta (omega arith) rl (omega arith)
        ∙ ap ok (ap (λ (n : ℕ). encode m ++ (added m o ++ drop n spare)) (sym size) ∙ new_bytes))

  new_sizes :
      length (added m o) ≤ length spare
      → (length (encode m)
            + coap_compute_option_header_len (o.num - last_num 0 m.options) (length o.val)
            + length o.val
          ≡ length (encode (with_option m o)))
        × (length (encode m ++ spare)
            ≡ length (encode (with_option m o) ++ drop (length (added m o)) spare))
  new_sizes fits =
      let size : length (added m o)
          ≡ length (option_header (o.num - last_num 0 m.options) (length o.val)) + length o.val =
        length-encode_option (last_num 0 m.options) o in
      let whole : length (encode (with_option m o)) ≡ length (encode m) + length (added m o) =
        ap (length {A = ℕ}) (encode-with_option m o no_payload)
        ∙ length-append (encode m) (encode_option (last_num 0 m.options) o) in
      (
        omega (arith, compute_option_header_len-eq (o.num - last_num 0 m.options) (length o.val)),
        omega (
          arith,
          length-append (encode m) spare,
          length-append (encode (with_option m o)) (drop (length (added m o)) spare),
          length-drop (length (added m o)) spare,
        ),
      )

  -- In a buffer that holds an encodable message without a payload, of less than 2^64 bytes,
  -- `coap_add_option` of an option whose number and length are of 16 bits and whose number is none
  -- below the others' leaves the message with the option behind them, if its header and its value
  -- fit.
  pub add_option-holding :
      o.num < 65536
      → length o.val < 65536
      → length (added m o) ≤ length spare
      → coap_add_option (holding base m spare) o.num o.val (length o.val)
        ≡ ok (ce_none, holding base (with_option m o) (drop (length (added m o)) spare))
  unfolding coap_add_option add_option_at is_fatal end_place holding
  add_option-holding rn rl fits = ground (
    arith,
    get_tkl-holding base m spare v,
    found,
    new_sizes fits,
    inserted rn rl fits,
    length-append (encode (with_option m o)) (drop (length (added m o)) spare),
  )

  -- If the header and the value do not fit, and the number is none below the others', the result
  -- is CE_INSUFFICIENT_BUFFER and the buffer with an encodable message of less than 2^64 bytes
  -- without a payload is what it was.
  pub add_option_full :
      length spare < length (added m o)
      → coap_add_option (holding base m spare) o.num o.val (length o.val)
        ≡ ok (ce_insufficient_buffer, holding base m spare)
  unfolding coap_add_option add_option_at is_fatal end_place holding
  add_option_full fits =
      let size : length (added m o)
          ≡ length (option_header (o.num - last_num 0 m.options) (length o.val)) + length o.val =
        length-encode_option (last_num 0 m.options) o in
      ground (
        arith,
        get_tkl-holding base m spare v,
        found,
        compute_option_header_len-eq (o.num - last_num 0 m.options) (length o.val),
        length-append (encode m) spare,
      )
