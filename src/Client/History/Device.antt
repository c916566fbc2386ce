-- ===== src/Client/History/Device.antt =====
-- The static variables of src/exosite.c in every history of calls and passes.
use libexositecoap.Common.{
  ℕ, zero, suc, ◌≡◌, ◌≢◌, ◌⊎◌, inr, refl, ◌<◌, ◌≤◌, List, [], ◌∷◌, length, arith, ok,
}
use libexositecoap.Memory.{peek}
use libexositecoap.Memory.Local.{write-length}
use libexositecoap.Coap.Pdu.{Pdu}
use libexositecoap.Pal.{Pal}
use libexositecoap.Client.State.{
  Client, ExoError, ExoState, DeviceState, uninitialized, initialized, good, bad_cik, c_string,
}
use libexositecoap.Client.Op.{Op}
use libexositecoap.Client.Operate.{
  init_socket, exo_init, activate_first, operate_good, operate_in, exo_operate,
}
use libexositecoap.Client.History.{Step, inited, called, operated, Reach, here, next}
use libexositecoap.Client.History.Kept.{IsClient, process_active_ops-IsClient}
use libexositecoap.Client.History.Taken.{key-length, key-ended, receive_loop-IsClient}
use mathlib.Core.Option.{Option}

-- A 0 in an array ends a string.
string-of :
    (xs : List ℕ) (i : ℕ) → peek xs i ≡ ok 0 → (s : List ℕ) × (c_string xs ≡ ok s) × (length s ≤ i)
unfolding peek c_string
string-of [] i e = absurd (ground arith)
string-of (zero ∷ xs) i e = ([], refl, omega arith)
string-of (suc x ∷ xs) zero e = absurd (ground arith)
string-of (suc x ∷ xs) (suc i) e =
    let (s, run, short) = string-of xs i e in (suc x ∷ s, ground (arith, run), omega (arith, short))

-- The array of the CIK has 41 bytes and the counter 16 bits, and behind `exo_init` the last byte of
-- the array is 0.
unfoldable pub IsDevice : {W : Type 0} → Client W → Type 0
IsDevice c =
    (length c.cik ≡ 41)
    × (c.message_id_counter < 65536)
    × ((c.device_state ≡ uninitialized) ⊎ (peek c.cik 40 ≡ ok 0))

module _ {W : Type 0} (pal : Pal W) where
  exo_init-IsDevice :
      (c c' : Client W) (v m s : Option (List ℕ)) (e : ExoError)
      → exo_init pal c v m s ≡ ok (e, c')
      → IsDevice c
      → IsDevice c'
  unfolding exo_init init_socket IsDevice
  exo_init-IsDevice c c' v m s e run h =
      grind (arith, key-length c.cik, key-ended, write-length c.cik 0)

  activate_first-IsClient :
      (c c' : Client W) (ops ops' : List Op)
      → activate_first pal c ops ≡ ok (ops', c')
      → IsClient c
      → IsClient c'
  unfolding activate_first IsClient
  activate_first-IsClient c c' [] ops' e h = absurd (ground arith)
  activate_first-IsClient c c' (op ∷ ops) ops' e h = ground arith

  operate_good-IsClient :
      (fuel : ℕ) (p : Pdu) (c c' : Client W) (ops ops' : List Op) (s : ExoState)
      → operate_good pal fuel p c ops ≡ ok (s, ops', c')
      → IsClient c
      → IsClient c'
  unfolding operate_good
  operate_good-IsClient fuel p c c' ops ops' s e h =
      grind (arith, receive_loop-IsClient, process_active_ops-IsClient)

  operate_in-IsClient :
      (d : DeviceState) (fuel : ℕ) (p : Pdu) (c c' : Client W) (ops ops' : List Op) (s : ExoState)
      → operate_in pal d fuel p c ops ≡ ok (s, ops', c')
      → IsClient c
      → IsClient c'
  unfolding operate_in
  operate_in-IsClient uninitialized fuel p c c' ops ops' s e h = ground arith
  operate_in-IsClient good fuel p c c' ops ops' s e h =
      operate_good-IsClient fuel p c c' ops ops' s e h
  operate_in-IsClient initialized fuel p c c' ops ops' s e h =
      grind (arith, activate_first-IsClient, operate_good-IsClient)
  operate_in-IsClient bad_cik fuel p c c' ops ops' s e h =
      grind (arith, activate_first-IsClient, operate_good-IsClient)

  Device-IsClient : (c : Client W) → c.device_state ≢ uninitialized → IsDevice c → IsClient c
  unfolding IsDevice IsClient
  Device-IsClient c started h = ground arith

  Client-IsDevice : (c : Client W) → IsClient c → IsDevice c
  unfolding IsDevice IsClient
  Client-IsDevice c (whole, ended, counter) = (whole, counter, inr ended)

  exo_operate-IsDevice :
      (d : DeviceState) (fuel : ℕ) (p : Pdu) (c c' : Client W) (ops ops' : List Op) (s : ExoState)
      → c.device_state ≡ d
      → operate_in pal d fuel p c ops ≡ ok (s, ops', c')
      → IsDevice c
      → IsDevice c'
  exo_operate-IsDevice uninitialized fuel p c c' ops ops' s state e h =
      unfold operate_in in ground (arith, h)
  exo_operate-IsDevice good fuel p c c' ops ops' s state e h =
      Client-IsDevice c'
        (operate_in-IsClient good fuel p c c' ops ops' s e (Device-IsClient c (λ u. cc) h))
  exo_operate-IsDevice initialized fuel p c c' ops ops' s state e h =
      Client-IsDevice c'
        (operate_in-IsClient initialized fuel p c c' ops ops' s e (Device-IsClient c (λ u. cc) h))
  exo_operate-IsDevice bad_cik fuel p c c' ops ops' s state e h =
      Client-IsDevice c'
        (operate_in-IsClient bad_cik fuel p c c' ops ops' s e (Device-IsClient c (λ u. cc) h))

  Step-IsDevice :
      {c c' : Client W} {ops ops' : List Op} → Step pal c ops c' ops' → IsDevice c → IsDevice c'
  Step-IsDevice (called c before behind k) h = h
  Step-IsDevice (inited v m s {c = c} {c' = c'} ops {e = e} run) h =
      exo_init-IsDevice c c' v m s e run h
  Step-IsDevice (operated fuel pdu {c = c} {c' = c'} {ops = ops} {ops' = ops'} {s = s} e) h =
      exo_operate-IsDevice c.device_state fuel pdu c c' ops ops' s refl (unfold exo_operate in e) h

  Reach-IsDevice :
      {c : Client W} {ops : List Op} {c' : Client W} {ops' : List Op}
      → IsDevice c
      → Reach pal c ops c' ops'
      → IsDevice c'
  Reach-IsDevice h here = h
  Reach-IsDevice h (next r step) = Step-IsDevice step (Reach-IsDevice h r)

  -- In every history of calls and passes that have results, on any platform: if the device has left
  -- the state uninitialized, the CIK is a string of at most 40 characters in its array, whatever was
  -- retrieved from the platform or came in an answer. The history starts at
  -- a device whose array has 41 bytes and whose counter has 16 bits, and that is uninitialized or has
  -- a 0 as the last of the 41 bytes.
  pub Reach-cik :
      {c : Client W} {ops : List Op} {c' : Client W} {ops' : List Op}
      → IsDevice c
      → Reach pal c ops c' ops'
      → c'.device_state ≢ uninitialized
      → (cik : List ℕ) × (c_string c'.cik ≡ ok cik) × (length cik ≤ 40)
  unfolding IsDevice
  Reach-cik {c' = c'} h r started =
      let (whole, counter, ended) = Reach-IsDevice h r in
      string-of c'.cik 40 (ground (arith, ended, started))
