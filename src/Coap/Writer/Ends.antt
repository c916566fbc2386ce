-- ===== src/Coap/Writer/Ends.antt =====
-- The writers of picocoap/src/coap.c end on every packet.
use libexositecoap.Common.{
  ℕ, zero, suc, ◌+◌, ◌-◌, ◌*◌, ◌/◌, ◌≤◌, ◌<◌, ◌≡◌, refl, ap, ◌∙◌, List, Bool, true, length, u8, u16,
  sub64, not, ltb, ◌&&◌, ◌==◌, arith, Exec, ok, bit_and, bit_or, Ends, value_ends, Ends-bind,
  Ends-if, Ends-of, Ends-test, Ends-option,
}
use libexositecoap.Memory.{poke}
use libexositecoap.Memory.Ends.{IsLong, poke-Ends, memmove-Ends}
use libexositecoap.Coap.Pdu.{CoapError, ce_none, ce_found_payload_marker, ce_end_of_packet}
use libexositecoap.Coap.Header.{
  OptVars, put_extended, finish_header, coap_build_option_header, coap_decode_option,
  coap_compute_option_header_len,
}
use libexositecoap.Coap.Header.Decode.{
  decode_option_grows, decode_option_inside, decode_option-ne-stuck,
}
use libexositecoap.Coap.Writer.{
  find_place, is_none, adjust_move, adjust_loop, coap_adjust_option_deltas, zeroth,
}
use mathlib.Core.Option.{Option, some, none}

-- A decoded option lies in the array.
abbrev Decoded : ℕ → ℕ → CoapError × OptVars → Type 0
Decoded n ptr (err, o) = err ≡ ce_none → (ptr < o.val) × (ptr < n)

decode_option-Ends :
    (bytes : List ℕ) (ptr pkt_len : ℕ) (vars : OptVars)
    → Ends (Decoded (length bytes) ptr) (coap_decode_option bytes ptr pkt_len vars)
decode_option-Ends bytes ptr pkt_len vars =
    Ends-of (coap_decode_option bytes ptr pkt_len vars)
      (decode_option-ne-stuck bytes ptr pkt_len vars)
      (λ (err, o) e none_here.
        let got : coap_decode_option bytes ptr pkt_len vars ≡ ok (ce_none, o) =
          e ∙ ap (λ k. ok (k, o)) none_here in
        (
          decode_option_grows bytes ptr pkt_len vars o got,
          decode_option_inside bytes ptr pkt_len vars o got,
        ))

is_none-eq : (err : CoapError) (b : Bool) → is_none err && b ≡ true → err ≡ ce_none
is_none-eq ce_none b e = refl
is_none-eq err b e = cc

-- An extension that fits leaves an array as long.
abbrev Put : ℕ → Option (ℕ × ℕ × List ℕ) → Type 0
Put n none = Unit
Put n (some (base, used, bs)) = IsLong n bs

put_extended-Ends :
    (bytes : List ℕ) (buf used max_len n : ℕ)
    → Ends (Put (length bytes)) (put_extended bytes buf used max_len n)
unfolding put_extended
put_extended-Ends bytes buf used max_len n =
    Ends-if (ltb n 13) _ _ (λ _. value_ends _ refl)
      (λ _.
        Ends-if (ltb n 269) _ _
          (λ _.
            Ends-if (ltb max_len (used + 1)) _ _ (λ _. value_ends _ tt)
              (λ _.
                Ends-bind (poke bytes (buf + used) (u8 (n - 13))) _
                  (poke-Ends bytes (buf + used) (u8 (n - 13))) (λ bs h. value_ends _ h)))
          (λ _.
            Ends-if (ltb max_len (used + 2)) _ _ (λ _. value_ends _ tt)
              (λ _.
                Ends-bind (poke bytes (buf + used) (u8 ((n - 269) / 256))) _
                  (poke-Ends bytes (buf + used) (u8 ((n - 269) / 256)))
                  (λ bs h.
                    Ends-bind (poke bs (buf + (used + 1)) (bit_and (n - 269) 0xff)) _
                      (poke-Ends bs (buf + (used + 1)) (bit_and (n - 269) 0xff))
                      (λ cs k. value_ends _ (omega (arith, h, k)))))))

abbrev Built : ℕ → ℕ × List ℕ → Type 0
Built n (used, bs) = IsLong n bs

finish_header-Ends :
    (buf max_len opt_len base used n : ℕ) (bytes : List ℕ)
    → IsLong n bytes
    → Ends (Built n) (finish_header buf max_len opt_len (base, used, bytes))
unfolding finish_header
finish_header-Ends buf max_len opt_len base used n bytes same =
    Ends-bind (put_extended bytes buf used max_len opt_len) _
      (put_extended-Ends bytes buf used max_len opt_len)
      (λ part h.
        Ends-option (Put (length bytes)) part _ _ h (λ _. value_ends _ same)
          (λ (base_len, used₁, bs) k.
            Ends-bind (poke bs buf (u8 (bit_or (base * 16) base_len))) _
              (poke-Ends bs buf (u8 (bit_or (base * 16) base_len)))
              (λ cs l. value_ends _ (omega (arith, k, l, same)))))

pub build_option_header-Ends :
    (bytes : List ℕ) (buf max_len d l : ℕ)
    → Ends (Built (length bytes)) (coap_build_option_header bytes buf max_len d l)
unfolding coap_build_option_header
build_option_header-Ends bytes buf max_len d l =
    Ends-if (ltb max_len 1) _ _ (λ _. value_ends _ refl)
      (λ _.
        Ends-bind (put_extended bytes buf 1 max_len d) _ (put_extended-Ends bytes buf 1 max_len d)
          (λ part h.
            Ends-option (Put (length bytes)) part _ _ h (λ _. value_ends _ refl)
              (λ (base, used, bs) k.
                finish_header-Ends buf max_len l base used (length bytes) bs k)))

-- The search for a place.
pub find_place-Ends :
    (fuel : ℕ) (goes_on : ℕ → Bool) (bytes : List ℕ) (len : ℕ) (fopt : OptVars)
    → length bytes < fuel + (fopt.val + fopt.len)
    → 1 ≤ fuel
    → Ends (λ _. Unit) (find_place fuel goes_on bytes len fopt)
unfolding find_place
find_place-Ends zero goes_on bytes len fopt enough one = absurd (omega arith)
find_place-Ends (suc fuel) goes_on bytes len fopt enough one =
    Ends-bind
      (coap_decode_option bytes (fopt.val + fopt.len) (sub64 len (fopt.val + fopt.len)) fopt) _
      (decode_option-Ends bytes (fopt.val + fopt.len) (sub64 len (fopt.val + fopt.len)) fopt)
      (λ (err, next) h.
        Ends-test (is_none err && (goes_on next.num && ltb (fopt.val + fopt.len + next.len) len)) _
          _
          (λ t.
            let (behind, inside) = h (is_none-eq err _ t) in
            find_place-Ends fuel goes_on bytes len next (omega arith) (omega arith))
          (λ _. value_ends _ tt))

-- What follows a decoded option in `coap_adjust_option_deltas`.
adjust_end :
    {Q : CoapError × ℕ × List ℕ → Type 0} (err : CoapError)
    (marker end next : Exec (CoapError × ℕ × List ℕ)) (n : ℕ) (bytes : List ℕ)
    → Ends Q marker
    → Ends Q end
    → (err ≡ ce_none → Ends Q next)
    → ((k : CoapError) → Q (k, n, bytes))
    → Ends Q (elim err [
      | ce_found_payload_marker ↦ marker
      | ce_end_of_packet ↦ end
      | ce_none ↦ next
      | other ↦ ok (other, n, bytes)
    ])
adjust_end ce_found_payload_marker marker end next n bytes h k l o = h
adjust_end ce_end_of_packet marker end next n bytes h k l o = k
adjust_end ce_none marker end next n bytes h k l o = l refl
adjust_end err marker end next n bytes h k l o = value_ends _ (o _)

adjust_move-Ends :
    (bytes : List ℕ) (ptr fhdr nhdr : ℕ) (f : OptVars)
    → Ends (IsLong (length bytes)) (adjust_move bytes ptr fhdr nhdr f)
unfolding adjust_move
adjust_move-Ends bytes ptr fhdr nhdr f =
    Ends-if (fhdr == nhdr) _ _ (λ _. value_ends _ refl)
      (λ _. memmove-Ends bytes (f.val + nhdr - fhdr) f.val f.len)

abbrev Adjusted : ℕ → CoapError × ℕ × List ℕ → Type 0
Adjusted n (err, len, bs) = IsLong n bs

adjust_loop-Ends :
    (fuel n : ℕ) (bytes : List ℕ) (start opts_len max_len offset : ℕ) (fopt : OptVars)
    → IsLong n bytes
    → n < fuel + (fopt.val + fopt.len)
    → 1 ≤ fuel
    → Ends (Adjusted n) (adjust_loop fuel bytes start opts_len max_len offset fopt)
unfolding adjust_loop
adjust_loop-Ends zero n bytes start opts_len max_len offset fopt same enough one =
    absurd (omega arith)
adjust_loop-Ends (suc fuel) n bytes start opts_len max_len offset fopt same enough one =
    let ptr = fopt.val + fopt.len in
    Ends-test (ltb opts_len (ptr - start)) _ _ (λ _. value_ends _ same)
      (λ _.
        Ends-bind (coap_decode_option bytes ptr (sub64 opts_len (ptr - start)) fopt) _
          (decode_option-Ends bytes ptr (sub64 opts_len (ptr - start)) fopt)
          (λ (err, f) h.
            adjust_end err _ _ _ opts_len bytes (value_ends _ same) (value_ends _ same)
              (λ e.
                let nopt_num = u16 (f.num + offset) in
                let fhdr_len = f.val - ptr in
                let nhdr_len = coap_compute_option_header_len nopt_num f.len in
                let opts_len' = sub64 (opts_len + nhdr_len) fhdr_len in
                Ends-test (not (fhdr_len == nhdr_len) && ltb max_len opts_len') _ _
                  (λ _. value_ends _ same)
                  (λ _.
                    Ends-bind (adjust_move bytes ptr fhdr_len nhdr_len f) _
                      (adjust_move-Ends bytes ptr fhdr_len nhdr_len f)
                      (λ bs k.
                        Ends-bind (coap_build_option_header bs ptr nhdr_len nopt_num f.len) _
                          (build_option_header-Ends bs ptr nhdr_len nopt_num f.len)
                          (λ (used, cs) l.
                            adjust_loop-Ends fuel n cs start opts_len' max_len offset f
                              (omega (arith, same, k, l)) (omega (arith, h e))
                              (omega (arith, h e))))))
              (λ k. same)))

pub coap_adjust_option_deltas-Ends :
    (bytes : List ℕ) (start opts_len max_len offset : ℕ)
    → Ends (Adjusted (length bytes)) (coap_adjust_option_deltas bytes start opts_len max_len offset)
unfolding coap_adjust_option_deltas
coap_adjust_option_deltas-Ends bytes start opts_len max_len offset =
    adjust_loop-Ends (length bytes + 1) (length bytes) bytes start opts_len max_len offset
      (zeroth start) refl (omega arith) (omega arith)
