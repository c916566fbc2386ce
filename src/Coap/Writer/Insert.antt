-- ===== src/Coap/Writer/Insert.antt =====
-- An option inserted behind the others of a message, by `coap_add_option` of picocoap/src/coap.c.
use libexositecoap.Common.{
  ℕ, ◌+◌, ◌-◌, ◌*◌, ◌/◌, ◌%◌, ◌≤◌, ◌<◌, ◌≡◌, refl, sym, ap, ◌∙◌, List, [], ◌∷◌, ◌++◌, length,
  length-append, append_assoc, append-nil, arith, ok, take, drop, take-append-drop, length-take_le,
  length-drop, drop-drop,
}
use libexositecoap.Memory.Local.{read_whole, write_here}
use libexositecoap.Coap.Wire.{
  Opt, Message, option_header, encode_options, encode_payload, encode_body, encode,
}
use libexositecoap.Coap.Wire.Layout.{encode_option, encode_options-cons}
use libexositecoap.Coap.Header.Build.{build_option_header_lem}
use libexositecoap.Coap.Writer.{insert_option}
use libexositecoap.Coap.Writer.Search.{last_num}
use mathlib.Core.Option.{none}

-- Header and value replace as many bytes as they have.
pub insert_option_lem :
    (pre spare value : List ℕ) (delta : ℕ)
    → delta < 65536
    → length value < 65536
    → length (option_header delta (length value)) + length value ≤ length spare
    → insert_option
        (pre ++ spare)
        (length pre)
        (length (option_header delta (length value)))
        delta
        value
        (length value)
      ≡ ok (
          pre
          ++ ((option_header delta (length value) ++ value)
              ++ drop (length (option_header delta (length value)) + length value) spare))
unfolding insert_option
insert_option_lem pre spare value delta rd rl fits =
    let head : List ℕ = option_header delta (length value) in
    let h : ℕ = length head in
    let n : ℕ = length value in
    let after : List ℕ = drop h spare in
    let old : List ℕ = take h spare in
    let old_value : List ℕ = take n after in
    let room : length after ≡ length spare - h = length-drop h spare in
    let split : pre ++ spare ≡ pre ++ (old ++ after) =
      ap (λ (t : List ℕ). pre ++ t) (sym (take-append-drop h spare)) in
    let built =
      build_option_header_lem pre old after (length pre) h delta n refl
        (length-take_le h spare (omega arith)) (omega arith) rd rl in
    let shape : pre ++ (head ++ after) ≡ (pre ++ head) ++ (old_value ++ drop n after) =
      sym (append_assoc pre head after)
      ∙ ap (λ (t : List ℕ). (pre ++ head) ++ t) (sym (take-append-drop n after)) in
    let wrote =
      write_here (pre ++ head) (length pre + h) (sym (length-append pre head)) old_value value
        (drop n after) (length-take_le n after (omega arith)) in
    let whole : (pre ++ head) ++ (value ++ drop n after)
        ≡ pre ++ ((head ++ value) ++ drop (h + n) spare) =
      append_assoc pre head (value ++ drop n after)
      ∙ ap (λ (t : List ℕ). pre ++ t) (sym (append_assoc head value (drop n after)))
      ∙ ap (λ (t : List ℕ). pre ++ ((head ++ value) ++ t)) (drop-drop h n spare) in
    rw (split, built) (rw (read_whole value) (rw (shape, wrote) (ap ok whole)))

-- An option behind the last one.
pub encode_options-snoc :
    (last : ℕ) (os : List Opt) (o : Opt)
    → encode_options last (os ++ (o ∷ []))
      ≡ encode_options last os ++ encode_option (last_num last os) o
encode_options-snoc last [] o =
    unfold encode_options encode_option in
    ap (λ (t : List ℕ). option_header (o.num - last) (length o.val) ++ t) (append-nil o.val)
encode_options-snoc last (q ∷ os) o =
    encode_options-cons last q (os ++ (o ∷ []))
    ∙ ap (λ (t : List ℕ). encode_option last q ++ t) (encode_options-snoc q.num os o)
    ∙ sym (
        append_assoc (encode_option last q) (encode_options q.num os)
          (encode_option (last_num q.num os) o))
    ∙ ap (λ (t : List ℕ). t ++ encode_option (last_num q.num os) o)
        (sym (encode_options-cons last q os))

-- The message with one more option.
abbrev pub with_option : Message → Opt → Message
with_option m o = record m { options = m.options ++ (o ∷ []) }

pub body_snoc :
    (t : List ℕ) (os : List Opt) (o : Opt)
    → encode_body t (os ++ (o ∷ [])) none ≡ encode_body t os none ++ encode_option (last_num 0 os) o
unfolding encode_body encode_payload
body_snoc t os o = simp (append-nil, append_assoc, encode_options-snoc 0 os o)

-- Its bytes, as long as there is no payload.
pub encode-with_option :
    (m : Message) (o : Opt)
    → m.payload ≡ none
    → encode (with_option m o) ≡ encode m ++ encode_option (last_num 0 m.options) o
unfolding encode
encode-with_option m o no_payload = rw no_payload (
    ap
      (λ (t : List ℕ).
        (64 + m.mtype * 16 + length m.token) ∷ m.code ∷ (m.mid / 256) ∷ (m.mid % 256) ∷ t)
      (body_snoc m.token m.options o))
