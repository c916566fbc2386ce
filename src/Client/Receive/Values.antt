-- ===== src/Client/Receive/Values.antt =====
-- The payload of an answer and the buffer of the operation, in `exo_process_waiting_datagrams` of
-- src/exosite.c.
use libexositecoap.Common.{
  ℕ, ◌≡◌, ◌≤◌, ◌<◌, suc, ◌+◌, refl, ap, ◌∙◌, ◌-◌, ◌/◌, ◌^◌, append_assoc, length-append,
  length-drop, drop-drop, List, [], ◌∷◌, ◌++◌, length, drop, false, arith, ok,
}
use libexositecoap.Memory.{poke, read, write}
use libexositecoap.Memory.Local.{write_lem, poke_here, read_here}
use libexositecoap.Coap.Pdu.{ct_ack}
use libexositecoap.Coap.Wire.{Message, IsEncodable, encode, encode_payload, encode_options, holding}
use libexositecoap.Coap.Wire.Layout.{preamble, length-encode, holding-bytes}
use libexositecoap.Coap.Fields.Laws.{get_mid-holding, get_code-holding, get_code_class-holding}
use libexositecoap.Coap.Reader.Payload.{payload_at, get_payload-holding}
use libexositecoap.Pal.{Pal}
use libexositecoap.Client.State.{Client}
use libexositecoap.Client.Op.{Op, exo_read, request_success, request_error, request_pending}
use libexositecoap.Client.Handlers.{claim, on_read, on_success, on_answer, on_ack}
use libexositecoap.Client.Payload.{refused, stored, store_payload}
use libexositecoap.Client.Receive.{on_datagram}
use Prim.Native.Nat.add
use mathlib.Core.Option.{some}

-- A buffer with the bytes of the text, a 0, and what stood behind.
unfoldable pub as_string : List ℕ → List ℕ → List ℕ
as_string text buf = text ++ (0 ∷ drop (length text + 1) buf)

poke_end :
    (text xs : List ℕ)
    → 0 < length xs
    → poke (text ++ xs) (length text) 0 ≡ ok (text ++ (0 ∷ drop 1 xs))
poke_end text [] h = absurd (omega arith)
poke_end text (x ∷ xs) h = poke_here text (length text) refl x xs 0

pub write_text :
    (text buf : List ℕ)
    → length text < length buf
    → write buf 0 text ≡ ok (text ++ drop (length text) buf)
write_text text buf h = rw (write_lem buf 0 text (omega arith), add.zero (length text))

pub poke_text :
    (text buf : List ℕ)
    → length text < length buf
    → poke (text ++ drop (length text) buf) (length text) 0 ≡ ok (as_string text buf)
unfolding as_string
poke_text text buf h = rw (
  poke_end text (drop (length text) buf) (omega (arith, length-drop (length text) buf)),
  drop-drop (length text) 1 buf,
)

pub read_payload :
    (base : ℕ) (m : Message) (text spare : List ℕ)
    → m.payload ≡ some text
    → read (holding base m spare).bytes (length (encode m) - length text) (length text) ≡ ok text
read_payload base m text spare e =
    let front : List ℕ = preamble m ++ (encode_options 0 m.options ++ (0xff ∷ [])) in
    let shape : preamble m ++ (encode_options 0 m.options ++ ((0xff ∷ text) ++ spare))
        ≡ front ++ (text ++ spare) =
      simp append_assoc in
    let parts : encode_payload m.payload ≡ 0xff ∷ text = unfold encode_payload in rw e in
    let size : length front ≡ length (preamble m) + (length (encode_options 0 m.options) + 1) =
      length-append (preamble m) (encode_options 0 m.options ++ (0xff ∷ []))
      ∙ ap (λ n. length (preamble m) + n)
          (length-append (encode_options 0 m.options) (0xff ∷ [])) in
    let whole : length (encode m)
        ≡ length (preamble m) + length (encode_options 0 m.options) + suc (length text) =
      length-encode m
      ∙ ap (λ (t : List ℕ). length (preamble m) + length (encode_options 0 m.options) + length t)
          parts in
    rw (holding-bytes base m spare, parts, shape)
      (read_here front (length (encode m) - length text) (omega arith) text spare)

-- A payload that fits is stored with a 0 behind it.
pub store_payload-stored :
    (base : ℕ) (m : Message) (text spare buf : List ℕ) (max : ℕ)
    → m.payload ≡ some text
    → 0 < length text
    → length text < max
    → max ≤ length buf
    → store_payload (holding base m spare) (payload_at (length (encode m)) m.payload) (some buf) max
      ≡ ok (stored (as_string text buf))
unfolding store_payload payload_at
store_payload-stored base m text spare buf max e some_text fits room = rw e (
    ground (
      arith,
      read_payload base m text spare e,
      write_text text buf (omega arith),
      poke_text text buf (omega arith),
    ))

store_payload-refused :
    (base : ℕ) (m : Message) (text spare buf : List ℕ) (max : ℕ)
    → m.payload ≡ some text
    → 0 < length text
    → max ≤ length text
    → store_payload (holding base m spare) (payload_at (length (encode m)) m.payload) (some buf) max
      ≡ ok refused
unfolding store_payload payload_at
store_payload-refused base m text spare buf max e some_text long = rw e (ground arith)

module _ {W : Type 0} (pal : Pal W) (c : Client W) (base : ℕ) (m : Message) (spare : List ℕ)
    (op : Op) (text buf : List ℕ) (valid : IsEncodable m) (small : length (encode m) < 2 ^ 64)
    (answered : op.state ≡ request_pending) (mine : op.mid ≡ m.mid) (ack : m.mtype ≡ ct_ack)
    (class : m.code / 32 ≡ 2) (carried : m.payload ≡ some text) (some_text : 0 < length text)
    (buffer : op.value ≡ some buf) where
  pub answer_here :
      on_datagram pal m.mtype (holding base m spare) c op
      ≡ on_success pal op.type (holding base m spare) c op
  unfolding on_datagram on_ack on_answer
  answer_here = ground (
    arith,
    ack,
    get_mid-holding base m spare valid,
    get_code-holding base m spare valid,
    get_code_class-holding base m spare valid,
  )

  -- An encodable ACK of class 2 and less than 2^64 bytes with the message id of a pending read,
  -- whose payload is not empty and fits in the buffer with a 0 behind it, makes the read a
  -- success, with the payload and the 0 at the front of the buffer.
  pub read_answer-fits :
      op.type ≡ exo_read
      → length text < op.value_max
      → op.value_max ≤ length buf
      → on_datagram pal m.mtype (holding base m spare) c op
        ≡ ok (
            claim
              (record op { value = some (as_string text buf); state = request_success })
              c
              false)
  unfolding on_success on_read
  read_answer-fits read fits room =
      answer_here
      ∙ rw read (
          ground (
            arith,
            get_payload-holding base m spare valid small,
            store_payload-stored base m text spare buf op.value_max carried some_text fits room,
          ))

  -- An encodable ACK of class 2 and less than 2^64 bytes with the message id of a pending read,
  -- whose payload is not empty and does not fit in the buffer with a 0 behind it, makes the read
  -- an error and leaves the buffer what it was.
  pub read_answer-too_long :
      op.type ≡ exo_read
      → op.value_max ≤ length text
      → on_datagram pal m.mtype (holding base m spare) c op
        ≡ ok (claim (record op { state = request_error }) c false)
  unfolding on_success on_read
  read_answer-too_long read long =
      answer_here
      ∙ rw read (
          ground (
            arith,
            get_payload-holding base m spare valid small,
            store_payload-refused base m text spare buf op.value_max carried some_text long,
          ))
