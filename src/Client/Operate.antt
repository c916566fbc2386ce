-- ===== src/Client/Operate.antt =====
-- `exo_init`, `exo_operate` and `exo_util_is_ascii_hex` of src/exosite.c.
pub mod Answer
pub mod Ends
use libexositecoap.Common.{
  ℕ, zero, suc, ◌+◌, List, [], ◌∷◌, Bool, true, false, not, ◌&&◌, ◌||◌, ltb, leb, ◌==◌,
  if◌then◌else◌, u16, Exec, ok, fault, ◌>>=◌,
}
use libexositecoap.Memory.{poke, write}
use libexositecoap.Coap.Pdu.{Pdu}
use libexositecoap.Pal.{Pal}
use libexositecoap.Client.State.{
  Client, ExoError, exo_ok, exo_fatal_error_pal, ExoState, exo_idle, exo_waiting, exo_busy,
  exo_error, DeviceState, uninitialized, initialized, good, bad_cik,
}
use libexositecoap.Client.Op.{
  Op, RequestState, request_null, request_new, request_pending, queue_activate,
}
use libexositecoap.Client.Handlers.{is_pending}
use libexositecoap.Client.Receive.{receive_loop}
use libexositecoap.Client.Send.{exo_process_active_ops}
use mathlib.Core.Option.{Option}

abbrev pub is_new : RequestState → Bool
is_new request_new = true
is_new _ = false

abbrev pub is_idle : RequestState → Bool
is_idle request_null = true
is_idle _ = false

unfoldable pub any_state : (RequestState → Bool) → List Op → Bool
any_state test [] = false
any_state test (op ∷ ops) = test op.state || any_state test ops

-- The two loops at the end of `exo_operate`.
unfoldable pub answer : List Op → ExoState
unfolding any_state
answer ops =
    if any_state is_new ops
    then exo_busy
    else if any_state is_pending ops
    then exo_waiting
    else exo_idle

-- `exo_util_is_ascii_hex`: 0 if the first `len` characters are digits of a lower-case hexadecimal
-- number, else 1.
abbrev is_hex : ℕ → Bool
is_hex c = (leb b'a' c && leb c b'f') || (leb b'0' c && leb c b'9')

unfoldable pub exo_util_is_ascii_hex : List ℕ → ℕ → Exec ℕ
exo_util_is_ascii_hex str zero = ok 0
exo_util_is_ascii_hex [] (suc len) = fault
exo_util_is_ascii_hex (c ∷ str) (suc len) =
    let rest = exo_util_is_ascii_hex str len in if not (is_hex c) then ok 1 else rest

module _ {W : Type 0} (pal : Pal W) where
  open pal use {exopal_init, exopal_udp_sock, exopal_retrieve_cik, exopal_get_time, seed, rand}

  -- With the CIK and the names in place, the socket; `cik[40] = 0` comes first.
  unfoldable pub init_socket : Client W → Exec (ExoError × Client W)
  init_socket c = do
    cik ← poke c.cik 40 0
    let (r, w) = exopal_udp_sock c.world
    let c₁ = record c { cik = cik; world = w }
    ok (
        if r == 0
        then (exo_ok, record c₁ { device_state = initialized })
        else (exo_fatal_error_pal, c₁))

  unfoldable pub exo_init :
      Client W → Option (List ℕ) → Option (List ℕ) → Option (List ℕ) → Exec (ExoError × Client W)
  unfolding init_socket
  exo_init c vendor_in model_in serial_in =
      let (r₁, w₁) = exopal_init c.world in
      let c₁ = record c { device_state = uninitialized; world = w₁ } in
      if not (r₁ == 0) then ok (exo_fatal_error_pal, c₁) else do
        let (counter, w₂) = rand (seed w₁)
        let (r₂, key, w₃) = exopal_retrieve_cik w₂
        cik ← write c.cik 0 key
        let c₂ = record c₁ {
          message_id_counter = u16 counter;
          serial = serial_in;
          vendor = vendor_in;
          model = model_in;
          cik = cik;
          world = w₃;
        }
        if ltb 1 r₂ then ok (exo_fatal_error_pal, c₂) else init_socket c₂

  -- A device that is not activated makes `op[0]` activate, if it is free or has timed out.
  unfoldable pub activate_first : Client W → List Op → Exec (List Op × Client W)
  activate_first c [] = fault
  activate_first c (op ∷ ops) =
      let (now, w) = exopal_get_time c.world in
      ok (
        if is_idle op.state
        then (queue_activate op ∷ ops, c)
        else if ltb op.timeout now
        then (queue_activate op ∷ ops, record c { world = w })
        else (op ∷ ops, record c { world = w }))

  -- Both passes over the operations, with a round for each datagram up to `fuel`.
  unfoldable pub operate_good : ℕ → Pdu → Client W → List Op → Exec (ExoState × List Op × Client W)
  operate_good fuel pdu c ops = do
    (ops₁, c₁) ← receive_loop pal fuel c pdu ops
    (ops₂, c₂) ← exo_process_active_ops pal c₁ pdu ops₁
    ok (answer ops₂, ops₂, c₂)

  -- `pdu` is the local message of both passes, over an uninitialised array.
  unfoldable pub operate_in :
      DeviceState → ℕ → Pdu → Client W → List Op → Exec (ExoState × List Op × Client W)
  operate_in uninitialized fuel pdu c ops = ok (exo_error, ops, c)
  operate_in good fuel pdu c ops = operate_good fuel pdu c ops
  operate_in initialized fuel pdu c ops = do
    (ops', c') ← activate_first c ops
    operate_good fuel pdu c' ops'
  operate_in bad_cik fuel pdu c ops = do
    (ops', c') ← activate_first c ops
    operate_good fuel pdu c' ops'

  unfoldable pub exo_operate : ℕ → Pdu → Client W → List Op → Exec (ExoState × List Op × Client W)
  unfolding operate_in
  exo_operate fuel pdu c ops = operate_in c.device_state fuel pdu c ops
