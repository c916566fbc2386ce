-- ===== src/Examples/Dtls/Unanswered.antt =====
-- What the loop of picocoap/examples/posix/client_dtls.c does when nothing is received.
use libexositecoap.Common.{
  ℕ, zero, suc, ◌-◌, ◌≡◌, refl, ap, ◌∙◌, List, [], ◌∷◌, bit_and, ◌==◌, >>=-eq-ok, true, false,
  arith, ok,
}
use libexositecoap.Examples.Dtls.{Libs, DtlsProgram, select_timeout, test_write}
use libexositecoap.Examples.Dtls.Loop.{
  goes_on, on_timeout, on_select, next_request, start_request, finish, loop_round, loop_rounds,
}
use libexositecoap.Examples.Dtls.Request.{
  get_pdu_write1p, pdu_of, join_strings, get_pdu, data_url, ask, request_post,
}
use libexositecoap.Examples.Dtls.Handler.{write_pdu}
use mathlib.Core.Option.{Option, some}

abbrev pub in_world : {M W : Type 0} → DtlsProgram M W → W → DtlsProgram M W
in_world s w = record s { system = record s.system { world = w } }

module _ {M W : Type 0} (libs : Libs M W) where
  -- The world after `n` calls of `select`, with nothing else done.
  unfoldable pub waited : ℕ → W → W
  waited zero w = w
  waited (suc n) w = waited n (libs.select w).1

  -- The program once `pdu` is sent as the request of a test.
  unfoldable pub asked : M → ℕ → DtlsProgram M W → DtlsProgram M W
  asked pdu test t = record t {
    sent_pdu = some pdu;
    test_cases = t.test_cases - test;
    ready_to_recv = true;
    system = record t.system { world = libs.dtls_write (libs.wire pdu) t.system.world };
  }

module _ {M W : Type 0} (libs : Libs M W)
    (silent : (w : W) → (libs.select w).0 ≡ select_timeout) where
  waits_round :
      (s : DtlsProgram M W)
      → s.last_sent.out ≡ 0
      → s.ready_to_recv ≡ true
      → loop_round libs s ≡ ok (goes_on (in_world s (libs.select s.system.world).1))
  unfolding loop_round on_select on_timeout next_request finish
  waits_round s never waiting = ground (arith, silent s.system.world, never, waiting)

  waits_rounds :
      (n : ℕ) (s : DtlsProgram M W)
      → s.last_sent.out ≡ 0
      → s.ready_to_recv ≡ true
      → loop_rounds libs n s ≡ ok (goes_on (in_world s (waited libs n s.system.world)))
  unfolding loop_rounds waited
  waits_rounds zero s never waiting = refl
  waits_rounds (suc n) s never waiting =
      rw (waits_round s never waiting)
        (waits_rounds n (in_world s (libs.select s.system.world).1) never waiting)

  pdu_of-last_sent :
      (s t : DtlsProgram M W) (first : List ℕ) (parts : List (List ℕ)) (method : ℕ)
      (payload : List ℕ) (made : Option M)
      → pdu_of libs s first parts method payload ≡ ok (made, t)
      → t.last_sent ≡ s.last_sent
  unfolding pdu_of
  pdu_of-last_sent s t first parts method payload made e =
      let (dest, joined, shape) = >>=-eq-ok (join_strings first parts) _ e in
      let same : t ≡ record s { system = (get_pdu libs s dest method payload).1 } = cc in
      rw same refl

  get_pdu_write1p-last_sent :
      (s t : DtlsProgram M W) (made : Option M)
      → get_pdu_write1p libs s s.cik s.alias s.value_to_write ≡ ok (made, t)
      → t.last_sent ≡ s.last_sent
  unfolding get_pdu_write1p
  get_pdu_write1p-last_sent s t made e =
      pdu_of-last_sent s t data_url (s.alias ∷ ask ∷ s.cik ∷ []) request_post s.value_to_write made
        e

  -- Where no datagram comes in any more, the WRITE request is sent once: the session stands, no
  -- answer is awaited, the test is set, no time was noted and the message is made. Then the round
  -- goes on with the message written, and after any number of rounds the loop still goes on and has
  -- called nothing but `select`.
  pub write_lost :
      (s t : DtlsProgram M W) (pdu : M) (n : ℕ)
      → s.dtls_connected ≡ true
      → s.ready_to_recv ≡ false
      → (bit_and s.test_cases test_write == 0) ≡ false
      → s.last_sent.out ≡ 0
      → get_pdu_write1p libs s s.cik s.alias s.value_to_write ≡ ok (some pdu, t)
      → (next_request libs s ≡ ok (goes_on (asked libs pdu test_write t)))
        × (loop_rounds libs n (asked libs pdu test_write t)
            ≡ ok (
                goes_on (
                  in_world
                    (asked libs pdu test_write t)
                    (waited libs n (asked libs pdu test_write t).system.world))))
  unfolding next_request start_request write_pdu get_pdu_write1p asked
  write_lost s t pdu n connected free test never made = (
    ground (arith, connected, free, test, made),
    waits_rounds n (asked libs pdu test_write t)
        (ap (λ d. d.out) (get_pdu_write1p-last_sent s t (some pdu) made) ∙ never) refl,
  )
