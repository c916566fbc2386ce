-- ===== src/Coap/Header/Decode.antt =====
-- `coap_decode_option` of picocoap/src/coap.c, at a header of the wire format and on any bytes.
use libexositecoap.Common.{
  ℕ, if◌then◌else◌, ◌==◌, bit_and, ◌+◌, ◌-◌, ◌*◌, ◌/◌, ◌%◌, ◌≤◌, ◌<◌, ◌≡◌, refl, sym, ap, ◌∙◌, List,
  [], ◌∷◌, ◌++◌, length, length-append, append_assoc, arith, Exec, ok, fault, stuck, ◌≢◌,
}
use libexositecoap.Common.Bytes.{low_nibble}
use libexositecoap.Memory.{peek}
use libexositecoap.Memory.Local.{peek_here, peek_next, peek_inside, peek-ne-stuck}
use libexositecoap.Coap.Pdu.{ce_none, ce_found_payload_marker, ce_end_of_packet}
use libexositecoap.Coap.Wire.{nibble, extension, option_header}
use libexositecoap.Coap.Header.{OptVars, extended, decode_header, coap_decode_option}
use mathlib.Core.Option.{some}

extended_lem :
    (pre post : List ℕ) (ptr n : ℕ)
    → ptr ≡ length pre
    → n < 65536
    → extended (pre ++ (extension n ++ post)) ptr (nibble n)
      ≡ ok (some (n, ptr + length (extension n)))
unfolding extended extension nibble
extended_lem pre post ptr n here r = ground (
  arith,
  peek_here pre ptr here (n - 13) post,
  peek_here pre ptr here ((n - 269) / 256) (((n - 269) % 256) ∷ post),
  peek_next pre ptr here ((n - 269) / 256) ((n - 269) % 256) post,
)

pub nibble-lt : (n : ℕ) → nibble n < 15
unfolding nibble
nibble-lt n = ground arith

-- At a header of the wire format with a delta and a length of 16 bits, and some of the packet
-- left, `coap_decode_option` adds the delta to the number, modulo 2^16, and returns the length and
-- the index behind the header.
pub decode_option-header :
    (pre post : List ℕ) (ptr pkt_len d l : ℕ) (vars : OptVars)
    → ptr ≡ length pre
    → 0 < pkt_len
    → d < 65536
    → l < 65536
    → coap_decode_option (pre ++ (option_header d l ++ post)) ptr pkt_len vars
      ≡ ok (
        ce_none,
        record { num = (vars.num + d) % 65536; len = l; val = ptr + length (option_header d l) },
      )
unfolding coap_decode_option decode_header option_header
decode_option-header pre post ptr pkt_len d l vars here some_left rd rl =
    let b : ℕ = nibble d * 16 + nibble l in
    let ext_d : List ℕ = extension d in
    let ext_l : List ℕ = extension l in
    let first : List ℕ = pre ++ (b ∷ []) in
    let both : List ℕ = pre ++ (b ∷ ext_d) in
    let at_d : ptr + 1 ≡ length first = omega (arith, length-append pre (b ∷ [])) in
    let at_l : ptr + 1 + length ext_d ≡ length both =
      omega (arith, length-append pre (b ∷ ext_d)) in
    let inner : (ext_d ++ ext_l) ++ post ≡ ext_d ++ (ext_l ++ post) =
      append_assoc ext_d ext_l post in
    let as_first : pre ++ (b ∷ ((ext_d ++ ext_l) ++ post)) ≡ first ++ (ext_d ++ (ext_l ++ post)) =
      ap (λ (t : List ℕ). pre ++ (b ∷ t)) inner
      ∙ sym (append_assoc pre (b ∷ []) (ext_d ++ (ext_l ++ post))) in
    let as_both : pre ++ (b ∷ ((ext_d ++ ext_l) ++ post)) ≡ both ++ (ext_l ++ post) =
      ap (λ (t : List ℕ). pre ++ (b ∷ t)) inner
      ∙ sym (append_assoc pre (b ∷ ext_d) (ext_l ++ post)) in
    let got_d : extended (pre ++ (b ∷ ((ext_d ++ ext_l) ++ post))) (ptr + 1) (nibble d)
        ≡ ok (some (d, ptr + 1 + length ext_d)) =
      rw as_first (extended_lem first (ext_l ++ post) (ptr + 1) d at_d rd) in
    let got_l : extended (pre ++ (b ∷ ((ext_d ++ ext_l) ++ post))) (ptr + 1 + length ext_d)
          (nibble l)
        ≡ ok (some (l, ptr + 1 + length ext_d + length ext_l)) =
      rw as_both (extended_lem both post (ptr + 1 + length ext_d) l at_l rl) in
    ground (
      arith,
      peek_here pre ptr here b ((ext_d ++ ext_l) ++ post),
      low_nibble b,
      nibble-lt d,
      nibble-lt l,
      got_d,
      got_l,
      length-append ext_d ext_l,
    )

-- Where the packet ends, and at a payload marker, the variables are left alone.
pub decode_option_end :
    (bytes : List ℕ) (ptr : ℕ) (vars : OptVars)
    → coap_decode_option bytes ptr 0 vars ≡ ok (ce_end_of_packet, vars)
unfolding coap_decode_option
decode_option_end bytes ptr vars = refl

pub decode_option_marker :
    (pre post : List ℕ) (ptr pkt_len : ℕ) (vars : OptVars)
    → ptr ≡ length pre
    → 0 < pkt_len
    → coap_decode_option (pre ++ (0xff ∷ post)) ptr pkt_len vars
      ≡ ok (ce_found_payload_marker, vars)
unfolding coap_decode_option
decode_option_marker pre post ptr pkt_len vars here some_left =
    ground (arith, peek_here pre ptr here 0xff post)

extended_grows :
    (bytes : List ℕ) (ptr n d q : ℕ) → extended bytes ptr n ≡ ok (some (d, q)) → ptr ≤ q
unfolding extended
extended_grows bytes ptr n d q e = ground arith

-- The bytes of the extension that a nibble of the first byte announces.
abbrev pub extension_size : ℕ → ℕ
extension_size n = if n == 13 then 1 else if n == 14 then 2 else 0

extended_size :
    (bytes : List ℕ) (ptr n d q : ℕ)
    → extended bytes ptr n ≡ ok (some (d, q))
    → (n < 15) × (q ≡ ptr + extension_size n)
unfolding extended
extended_size bytes ptr n d q e = ground arith

decode_header_place :
    (bytes : List ℕ) (ptr b : ℕ) (vars out : OptVars)
    → decode_header bytes ptr b vars ≡ ok (ce_none, out)
    → (b / 16 < 15)
      × (bit_and b 15 < 15)
      × (out.val ≡ ptr + 1 + extension_size (b / 16) + extension_size (bit_and b 15))
unfolding decode_header
decode_header_place bytes ptr b vars out e = grind (arith, extended_size)

-- If `coap_decode_option` decodes an option, from whatever bytes, then the packet is not at its end,
-- the nibbles of the first byte are both below 15, and the value lies behind that byte and the
-- extensions that the nibbles announce: the header takes from 1 to 5 bytes.
pub decode_option_place :
    (bytes : List ℕ) (ptr pkt_len : ℕ) (vars out : OptVars)
    → coap_decode_option bytes ptr pkt_len vars ≡ ok (ce_none, out)
    → (b : ℕ) × (peek bytes ptr ≡ ok b)
      × (0 < pkt_len)
      × (b / 16 < 15)
      × (bit_and b 15 < 15)
      × (out.val ≡ ptr + 1 + extension_size (b / 16) + extension_size (bit_and b 15))
      × (out.val ≤ ptr + 5)
unfolding coap_decode_option
decode_option_place bytes ptr pkt_len vars out e = by_byte (peek bytes ptr) refl
  where
    by_byte :
        (r : Exec ℕ)
        → peek bytes ptr ≡ r
        → (b : ℕ) × (peek bytes ptr ≡ ok b)
          × (0 < pkt_len)
          × (b / 16 < 15)
          × (bit_and b 15 < 15)
          × (out.val ≡ ptr + 1 + extension_size (b / 16) + extension_size (bit_and b 15))
          × (out.val ≤ ptr + 5)
    by_byte (ok b) got =
        let decoded : decode_header bytes ptr b vars ≡ ok (ce_none, out) = ground (arith, got) in
        let (high, low, place) = decode_header_place bytes ptr b vars out decoded in
        (b, got, ground (arith, got), high, low, place, ground (arith, place))
    by_byte fault got = absurd (ground (arith, got))
    by_byte stuck got = absurd (ground (arith, got))

-- The value lies behind the place where the option was looked for.
pub decode_option_grows :
    (bytes : List ℕ) (ptr pkt_len : ℕ) (vars out : OptVars)
    → coap_decode_option bytes ptr pkt_len vars ≡ ok (ce_none, out)
    → ptr < out.val
unfolding coap_decode_option decode_header
decode_option_grows bytes ptr pkt_len vars out e = grind (arith, extended_grows)

-- It lies in the array.
pub decode_option_inside :
    (bytes : List ℕ) (ptr pkt_len : ℕ) (vars out : OptVars)
    → coap_decode_option bytes ptr pkt_len vars ≡ ok (ce_none, out)
    → ptr < length bytes
unfolding coap_decode_option
decode_option_inside bytes ptr pkt_len vars out e = grind (arith, peek_inside)

extended-ne-stuck : (bytes : List ℕ) (ptr n : ℕ) → extended bytes ptr n ≢ stuck
unfolding extended
extended-ne-stuck bytes ptr n =
    ground (arith, peek-ne-stuck bytes ptr, peek-ne-stuck bytes (ptr + 1))

pub decode_option-ne-stuck :
    (bytes : List ℕ) (ptr pkt_len : ℕ) (vars : OptVars)
    → coap_decode_option bytes ptr pkt_len vars ≢ stuck
unfolding coap_decode_option decode_header
decode_option-ne-stuck bytes ptr pkt_len vars = grind (arith, peek-ne-stuck, extended-ne-stuck)
