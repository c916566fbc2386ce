-- ===== src/Client/Receive/Observed.antt =====
-- The Observe and Max-Age options of a datagram, in `exo_process_waiting_datagrams` of src/exosite.c.
use libexositecoap.Common.{
  ℕ, ◌+◌, ◌*◌, ◌^◌, ◌≤◌, ◌<◌, ◌≡◌, refl, ap, subst, ◌∙◌, List, [], ◌∷◌, length, All, arith, ok,
}
use libexositecoap.Common.Bytes.{IsByte, join_bytes}
use libexositecoap.Memory.{read}
use libexositecoap.Memory.Local.{read-cons}
use libexositecoap.Coap.Pdu.{Pdu, CoapOption, at, con_max_age, con_observe}
use libexositecoap.Coap.Wire.{Message, IsEncodable, IsOptions, encode, holding}
use libexositecoap.Coap.Reader.{coap_get_option_by_num}
use libexositecoap.Coap.Reader.Options.{find_option, IsFound}
use libexositecoap.Coap.Reader.ByNumber.{get_option_by_num-holding}
use libexositecoap.Client.Payload.{max_age, observe_bytes}
use native.Mathlib.Nat.{add-zero}
use mathlib.Core.Option.{Option, none, some}

-- A Max-Age option counts if it has one byte; it is 120 without one.
abbrev pub age_of : Option (List ℕ) → ℕ
age_of none = 120
age_of (some []) = 120
age_of (some (b ∷ [])) = b
age_of (some (b ∷ b' ∷ bs)) = 120

-- The number of an Observe option of up to two bytes, the highest first.
abbrev pub sequence : List ℕ → ℕ
sequence [] = 0
sequence (b ∷ []) = b
sequence (b ∷ b' ∷ bs) = b * 256 + b'

module _ (p : Pdu) (r : CoapOption) where
  max_age_lem :
      (v : Option (List ℕ))
      → coap_get_option_by_num p con_max_age 0 ≡ ok r
      → IsFound p con_max_age v r
      → max_age p ≡ ok (age_of v)
  unfolding max_age
  max_age_lem none got found = ground (arith, got)
  max_age_lem (some []) got (i, e, value) = rw got (rw e refl)
  max_age_lem (some (b ∷ [])) got (i, e, value) =
      let (first, more) = read-cons p.bytes i b [] value in rw got (rw e (rw (add-zero i) first))
  max_age_lem (some (b ∷ b' ∷ bs)) got (i, e, value) = rw got (rw e (ground arith))

-- The number in the bytes at an index.
observe_bytes_lem :
    (p : Pdu) (i : ℕ) (value : List ℕ)
    → length value ≤ 2
    → All IsByte value
    → read p.bytes i (length value) ≡ ok value
    → observe_bytes (length value) 0 0 p (at i) ≡ ok (sequence value)
unfolding observe_bytes
observe_bytes_lem p i [] short small value = refl
observe_bytes_lem p i (b ∷ []) short (byte, none_behind) value =
    let (first, more) = read-cons p.bytes i b [] value in
    rw (add-zero i) (rw first (ground (arith, join_bytes 0 b (omega arith) byte)))
observe_bytes_lem p i (b ∷ b' ∷ []) short (byte, (byte', none_behind)) value =
    let (first, more) = read-cons p.bytes i b (b' ∷ []) value in
    let (second, none_left) = read-cons p.bytes (i + 1) b' [] more in
    rw (add-zero i) (
      rw first
        (ground (arith, second, join_bytes 0 b (omega arith) byte, join_bytes b b' byte byte')))
observe_bytes_lem p i (b ∷ b' ∷ b'' ∷ bs) short small value = absurd (omega arith)

module _ (base : ℕ) (m : Message) (spare : List ℕ) (v : IsEncodable m)
    (positive : IsOptions 1 m.options) (small : length (encode m) < 2 ^ 64) where
  pub max_age-holding :
      max_age (holding base m spare) ≡ ok (age_of (find_option con_max_age 0 m.options))
  max_age-holding =
      let (r, got, found) =
        get_option_by_num-holding base m spare con_max_age 0 v positive small (omega arith)
          (omega arith) in
      max_age_lem (holding base m spare) r (find_option con_max_age 0 m.options) got found

  -- The Observe option, and the number that its bytes make.
  pub observe-holding :
      (value : List ℕ)
      → find_option con_observe 0 m.options ≡ some value
      → length value ≤ 2
      → All IsByte value
      → (r : CoapOption) × (coap_get_option_by_num (holding base m spare) con_observe 0 ≡ ok r)
        × (observe_bytes r.len 0 0 (holding base m spare) r.val ≡ ok (sequence value))
  observe-holding value e short some_bytes =
      let p : Pdu = holding base m spare in
      let (r, got, found) =
        get_option_by_num-holding base m spare con_observe 0 v positive small (omega arith)
          (omega arith) in
      let (i, shape, there) = subst (λ x. IsFound p con_observe x r) e found in
      (
        r,
        got,
        ap (λ (o : CoapOption). observe_bytes o.len 0 0 p o.val) shape
            ∙ observe_bytes_lem p i value short some_bytes there,
      )
