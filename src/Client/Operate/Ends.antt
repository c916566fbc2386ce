-- ===== src/Client/Operate/Ends.antt =====
-- `exo_operate` of src/exosite.c comes to an end.
use libexositecoap.Common.{
  ℕ, zero, suc, ◌≤◌, ◌<◌, ◌≡◌, ◌≢◌, refl, List, [], ◌∷◌, Bool, true, false, length, arith, Exec,
  Ends, value_ends, fault_ends, stuck, Ends-bind, Ends-option, Ends-ne-stuck, Ends-of, Stops,
  ok-Stops, Stops-bind,
}
use libexositecoap.Memory.Ends.{memory_stops, write-Stops}
use libexositecoap.Coap.Pdu.{Pdu, CoapError, ce_none}
use libexositecoap.Coap.Fields.Stops.{field_stops, get_type-Stops}
use libexositecoap.Coap.Header.{coap_decode_option}
use libexositecoap.Coap.Header.Decode.{decode_option-ne-stuck}
use libexositecoap.Coap.Reader.{validate_options, coap_validate_pkt}
use libexositecoap.Pal.{Pal, IsBacklog}
use libexositecoap.Client.State.{Client, DeviceState, uninitialized, initialized, good, bad_cik}
use libexositecoap.Client.Op.{Op}
use libexositecoap.Client.Handlers.{Verdict, pass, claim}
use libexositecoap.Client.Receive.{take_message, scan_ops, reactivate, reject, receive_loop}
use libexositecoap.Client.Receive.Ends.{Leaves, on_datagram-Ends}
use libexositecoap.Client.Send.Ends.{build_msg_rst-Stops, send-Stops, process_active_ops-Stops}
use libexositecoap.Client.Operate.{activate_first, operate_good, operate_in, exo_operate}
use mathlib.Core.Option.{Option, none, some}

decode_option-Stops :
    (bytes : List ℕ) (ptr pkt_len : ℕ) (vars : _)
    → Stops (coap_decode_option bytes ptr pkt_len vars)
decode_option-Stops bytes ptr pkt_len vars =
    Ends-of _ (decode_option-ne-stuck bytes ptr pkt_len vars) (λ _ _. tt)

validate_options-Stops : (p : Pdu) (start : ℕ) → Stops (validate_options p start)
unfolding validate_options
validate_options-Stops p start = search (memory_stops, decode_option-Stops) depth 20

validate_pkt-Stops : (p : Pdu) → Stops (coap_validate_pkt p)
unfolding coap_validate_pkt
validate_pkt-Stops p = search (field_stops, validate_options-Stops) depth 20

by_error :
    {R : Type 0} (err : CoapError) (valid invalid : Exec R)
    → Stops valid
    → Stops invalid
    → Stops (elim err [ ce_none ↦ valid | _ ↦ invalid ])
by_error ce_none valid invalid h k = h
by_error err valid invalid h k = k

module _ {W : Type 0} (pal : Pal W) (waiting : W → ℕ) (backlog : IsBacklog pal waiting) where
  reject-Stops : (mtype : ℕ) (p : Pdu) (c : Client W) → Stops (reject pal mtype p c)
  unfolding reject
  reject-Stops mtype p c = search (field_stops, build_msg_rst-Stops, send-Stops) depth 20

  abbrev Left : ℕ → Option (List Op × Client W × Bool) → Type 0
  Left n none = Unit
  Left n (some (ops, c, unauthorized)) = waiting c.world ≤ n

  abbrev KeptFew : ℕ → Option (List Op × Client W) → Type 0
  KeptFew n none = Unit
  KeptFew n (some (ops, c)) = waiting c.world ≤ n

  Verdict-Ends :
      {R : Type 0} {Q : R → Type 0} {n : ℕ} (verdict : Verdict W) (passed : Exec R)
      (claimed : Op → Client W → Bool → Exec R)
      → Ends Q passed
      → Leaves pal waiting backlog n verdict
      → ((op : Op) (c : Client W) (unauthorized : Bool)
          → waiting c.world ≤ n
          → Ends Q (claimed op c unauthorized))
      → Ends Q
          (elim verdict [ claim op c unauthorized ↦ claimed op c unauthorized | pass ↦ passed ])
  Verdict-Ends pass passed claimed h few k = h
  Verdict-Ends (claim op c unauthorized) passed claimed h few k = k op c unauthorized few

  take_message-Ends :
      (n mtype : ℕ) (p : Pdu) (c : Client W) (ops : List Op)
      → waiting c.world ≤ n
      → Ends (Left n) (take_message pal mtype p c ops)
  unfolding take_message
  take_message-Ends n mtype p c [] few = value_ends none tt
  take_message-Ends n mtype p c (op ∷ ops) few =
      Ends-bind _ _ (on_datagram-Ends pal waiting backlog n p c few mtype op) (λ verdict h.
        Verdict-Ends verdict _ _
          (Ends-bind _ _ (take_message-Ends n mtype p c ops few) (λ rest k.
            Ends-option (Left n) rest _ _ k (λ _. value_ends none tt)
              (λ (ops', c', unauthorized) l. value_ends _ l)))
          h (λ op' c' unauthorized l. value_ends _ l))

  reactivate_few :
      (n : ℕ) (unauthorized : Bool) (ops : List Op) (c : Client W)
      → waiting c.world ≤ n
      → waiting (reactivate pal unauthorized ops c).1.world ≤ n
  unfolding reactivate
  reactivate_few n false ops c few = few
  reactivate_few n true [] c few = few
  reactivate_few n true (op ∷ ops) c few = ground (arith, few, backlog.time_read c.world)

  -- A datagram that was taken leaves no more datagrams than there were.
  scan_ops-Ends :
      (n mtype : ℕ) (p : Pdu) (c : Client W) (ops : List Op)
      → waiting c.world ≤ n
      → Ends (KeptFew n) (scan_ops pal mtype p c ops)
  unfolding scan_ops
  scan_ops-Ends n mtype p c ops few =
      Ends-bind _ _ (take_message-Ends n mtype p c ops few) (λ taken k.
        Ends-option (Left n) taken _ _ k (λ _. value_ends none tt)
          (λ (ops', c', unauthorized) l. value_ends _ (reactivate_few n unauthorized ops' c' l)))

  receive_loop-Ends :
      (fuel : ℕ) (c : Client W) (p : Pdu) (ops : List Op)
      → waiting c.world < fuel
      → Stops (receive_loop pal fuel c p ops)
  unfolding receive_loop
  receive_loop-Ends zero c p ops enough = absurd (omega arith)
  receive_loop-Ends (suc fuel) c p ops enough =
      let w : W = (pal.exopal_udp_recv p.max c.world).1 in
      let c₁ : Client W = record c { world = w } in
      let received : Option (List ℕ) = (pal.exopal_udp_recv p.max c.world).0 in
      Ends-option (λ o. received ≡ o) received _ _ refl (λ _. ok-Stops _)
        (λ datagram e.
          let fewer : waiting w < fuel =
            omega (arith, enough, backlog.received p.max c.world datagram e) in
          (Stops-bind _ _ (write-Stops p.bytes 0 datagram) (λ bs.
            Stops-bind _ _ (validate_pkt-Stops (record p { bytes = bs; len = length datagram }))
              (λ (err, q).
                by_error err _ _
                  (Stops-bind _ _ (get_type-Stops q) (λ mtype.
                    Ends-bind _ _ (scan_ops-Ends (waiting w) mtype q c₁ ops (omega arith))
                      (λ found k.
                        Ends-option (KeptFew (waiting w)) found _ _ k
                          (λ _. Stops-bind _ _ (reject-Stops mtype q c₁) (λ _. ok-Stops _))
                          (λ (ops', c₂) l.
                            receive_loop-Ends fuel c₂ q ops' (omega (arith, fewer, l))))))
                  (receive_loop-Ends fuel c₁ q ops fewer)))))

  operate_good-Stops :
      (fuel : ℕ) (p : Pdu) (c : Client W) (ops : List Op)
      → waiting c.world < fuel
      → Stops (operate_good pal fuel p c ops)
  unfolding operate_good
  operate_good-Stops fuel p c ops enough =
      Stops-bind _ _ (receive_loop-Ends fuel c p ops enough)
        (λ (ops₁, c₁). Stops-bind _ _ (process_active_ops-Stops pal c₁ p ops₁) (λ _. ok-Stops _))

  activate_first-Ends :
      (c : Client W) (ops : List Op)
      → Ends (λ r. waiting r.1.world ≤ waiting c.world) (activate_first pal c ops)
  unfolding activate_first
  activate_first-Ends c [] = fault_ends
  activate_first-Ends c (op ∷ ops) = value_ends _ (ground (arith, backlog.time_read c.world))

  operate_in-Stops :
      (state : DeviceState) (fuel : ℕ) (p : Pdu) (c : Client W) (ops : List Op)
      → waiting c.world < fuel
      → Stops (operate_in pal state fuel p c ops)
  unfolding operate_in
  operate_in-Stops uninitialized fuel p c ops enough = ok-Stops _
  operate_in-Stops good fuel p c ops enough = operate_good-Stops fuel p c ops enough
  operate_in-Stops initialized fuel p c ops enough =
      Ends-bind _ _ (activate_first-Ends c ops)
        (λ (ops', c') h. operate_good-Stops fuel p c' ops' (omega (arith, h, enough)))
  operate_in-Stops bad_cik fuel p c ops enough =
      Ends-bind _ _ (activate_first-Ends c ops)
        (λ (ops', c') h. operate_good-Stops fuel p c' ops' (omega (arith, h, enough)))

-- On a platform with a count of the waiting datagrams that goes down by one at least with each
-- datagram received, and that no other call made on the way raises, a call of `exo_operate` ends
-- within one round more than datagrams wait: with a result, or at an access outside of an array. It
-- does so in every state, for every list of operations and whatever bytes the datagrams hold.
pub exo_operate-ne-stuck :
    {W : Type 0} (pal : Pal W) (waiting : W → ℕ) (fuel : ℕ) (p : Pdu) (c : Client W) (ops : List Op)
    → IsBacklog pal waiting
    → waiting c.world < fuel
    → exo_operate pal fuel p c ops ≢ stuck
unfolding exo_operate
exo_operate-ne-stuck pal waiting fuel p c ops backlog enough =
    Ends-ne-stuck _ (operate_in-Stops pal waiting backlog c.device_state fuel p c ops enough)
