-- ===== src/Coap/Header/Build.antt =====
-- `coap_build_option_header` and `coap_compute_option_header_len` of picocoap/src/coap.c, and the
-- header of the wire format.
use libexositecoap.Common.{
  ℕ, ◌+◌, ◌-◌, ◌*◌, ◌/◌, ◌%◌, ◌≤◌, ◌<◌, ◌≡◌, List, [], ◌∷◌, ◌++◌, length, length-append, arith, ok,
  append_assoc, sym, ap, ◌∙◌, take, drop, take-append-drop, length-take_le, length-drop,
}
use libexositecoap.Common.Bytes.{join_nibbles, low_byte}
use libexositecoap.Memory.Local.{poke_here, poke_next}
use libexositecoap.Coap.Wire.{nibble, extension, option_header}
use libexositecoap.Coap.Header.{
  put_extended, finish_header, coap_build_option_header, coap_compute_option_header_len,
  extension_len,
}
use mathlib.Core.Option.{some}

pub length-extension : (n : ℕ) → length (extension n) ≡ extension_len n
unfolding extension extension_len
length-extension n = ground arith

length-option_header :
    (d l : ℕ) → length (option_header d l) ≡ 1 + length (extension d) + length (extension l)
unfolding option_header
length-option_header d l = omega (arith, length-append (extension d) (extension l))

nibble-lt : (n : ℕ) → nibble n < 15
unfolding nibble
nibble-lt n = ground arith

-- `coap_compute_option_header_len` is the length of the option header of the wire format.
pub compute_option_header_len-eq :
    (d l : ℕ) → coap_compute_option_header_len d l ≡ length (option_header d l)
unfolding coap_compute_option_header_len option_header
compute_option_header_len-eq d l =
    omega (arith, length-append (extension d) (extension l), length-extension d, length-extension l)

pub option_header_bounds :
    (d l : ℕ) → (1 ≤ length (option_header d l)) × (length (option_header d l) ≤ 5)
unfolding option_header extension
option_header_bounds d l = ground (arith, length-append (extension d) (extension l))

-- The extension replaces as many bytes `old`, behind `used` bytes of the header.
put_extended_lem :
    (pre old post : List ℕ) (buf used max_len n : ℕ)
    → buf + used ≡ length pre
    → length old ≡ length (extension n)
    → used + length (extension n) ≤ max_len
    → n < 65536
    → put_extended (pre ++ (old ++ post)) buf used max_len n
      ≡ ok (some (nibble n, used + length (extension n), pre ++ (extension n ++ post)))
unfolding put_extended nibble extension
put_extended_lem pre [] post buf used max_len n e h room r = ground arith
put_extended_lem pre (x ∷ []) post buf used max_len n e h room r =
    ground (arith, poke_here pre (buf + used) e x post ((n - 13) % 256))
put_extended_lem pre (x ∷ y ∷ []) post buf used max_len n e h room r = ground (
  arith,
  poke_here pre (buf + used) e x (y ∷ post) ((n - 269) / 256 % 256),
  poke_next pre (buf + used) e ((n - 269) / 256 % 256) y post ((n - 269) % 256),
  low_byte ((n - 269) / 256) ((n - 269) % 256),
)
put_extended_lem pre (x ∷ y ∷ z ∷ old) post buf used max_len n e h room r = absurd (ground arith)

module _ (pre post : List ℕ) (buf : ℕ) (here : buf ≡ length pre) (max_len d l : ℕ) where
  -- The length part, behind a first byte `x` and the extension of the delta.
  finish_header_lem :
      (x : ℕ) (old : List ℕ)
      → length old ≡ length (extension l)
      → length (option_header d l) ≤ max_len
      → l < 65536
      → finish_header buf max_len l
          (nibble d, 1 + length (extension d), pre ++ (x ∷ (extension d ++ (old ++ post))))
        ≡ ok (length (option_header d l), pre ++ (option_header d l ++ post))
  unfolding finish_header option_header
  finish_header_lem x old h room r =
      let before : List ℕ = pre ++ (x ∷ extension d) in
      let at : buf + (1 + length (extension d)) ≡ length before =
        omega (arith, length-append pre (x ∷ extension d)) in
      let fits : 1 + length (extension d) + length (extension l) ≤ max_len =
        omega (arith, length-append (extension d) (extension l)) in
      let joined : pre ++ (x ∷ (extension d ++ (old ++ post))) ≡ before ++ (old ++ post) =
        sym (append_assoc pre (x ∷ extension d) (old ++ post)) in
      let parted : before ++ (extension l ++ post)
          ≡ pre ++ (x ∷ ((extension d ++ extension l) ++ post)) =
        append_assoc pre (x ∷ extension d) (extension l ++ post)
        ∙ ap (λ (t : List ℕ). pre ++ (x ∷ t))
            (sym (append_assoc (extension d) (extension l) post)) in
      rw
        (
          joined,
          put_extended_lem before old post buf (1 + length (extension d)) max_len l at h fits r,
        )
        (rw parted (
          ground (
            arith,
            poke_here pre buf here x ((extension d ++ extension l) ++ post)
                (nibble d * 16 + nibble l),
            nibble-lt d,
            nibble-lt l,
            join_nibbles (nibble d) (nibble l),
            length-append (extension d) (extension l),
          )))

  -- The header replaces as many bytes as it has.
  build_option_header_parts :
      (x : ℕ) (old_d old_l : List ℕ)
      → length old_d ≡ length (extension d)
      → length old_l ≡ length (extension l)
      → length (option_header d l) ≤ max_len
      → d < 65536
      → l < 65536
      → coap_build_option_header (pre ++ (x ∷ (old_d ++ (old_l ++ post)))) buf max_len d l
        ≡ ok (length (option_header d l), pre ++ (option_header d l ++ post))
  unfolding coap_build_option_header
  build_option_header_parts x old_d old_l hd hl room rd rl =
      let one : 1 ≤ max_len = omega (arith, option_header_bounds d l) in
      let before : List ℕ = pre ++ (x ∷ []) in
      let rest : List ℕ = old_l ++ post in
      let at : buf + 1 ≡ length before = omega (arith, length-append pre (x ∷ [])) in
      let fits : 1 + length (extension d) ≤ max_len = omega (arith, length-option_header d l) in
      let joined : pre ++ (x ∷ (old_d ++ rest)) ≡ before ++ (old_d ++ rest) =
        sym (append_assoc pre (x ∷ []) (old_d ++ rest)) in
      let parted : before ++ (extension d ++ rest) ≡ pre ++ (x ∷ (extension d ++ rest)) =
        append_assoc pre (x ∷ []) (extension d ++ rest) in
      rw (joined, put_extended_lem before old_d rest buf 1 max_len d at hd fits rd)
        (rw parted (ground (arith, finish_header_lem x old_l hl room rl)))

-- `coap_build_option_header` of a delta and a length of 16 bits, with room for the header, returns
-- the header's length and writes its bytes over as many in the buffer, and no other.
pub build_option_header_lem :
    (pre old post : List ℕ) (buf max_len d l : ℕ)
    → buf ≡ length pre
    → length old ≡ length (option_header d l)
    → length (option_header d l) ≤ max_len
    → d < 65536
    → l < 65536
    → coap_build_option_header (pre ++ (old ++ post)) buf max_len d l
      ≡ ok (length (option_header d l), pre ++ (option_header d l ++ post))
build_option_header_lem pre [] post buf max_len d l here h room rd rl =
    absurd (omega (arith, option_header_bounds d l))
build_option_header_lem pre (x ∷ old) post buf max_len d l here h room rd rl =
    let n : ℕ = length (extension d) in
    let split : old ++ post ≡ take n old ++ (drop n old ++ post) =
      ap (λ (t : List ℕ). t ++ post) (sym (take-append-drop n old))
      ∙ append_assoc (take n old) (drop n old) post in
    rw split (
      build_option_header_parts pre post buf here max_len d l x (take n old) (drop n old)
        (length-take_le n old (omega (arith, length-option_header d l)))
        (omega (arith, length-drop n old, length-option_header d l)) room rd rl)
