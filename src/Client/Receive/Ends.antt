-- ===== src/Client/Receive/Ends.antt =====
-- What a datagram does at the operations, in src/exosite.c, comes to an end, whatever the packet
-- holds.
use libexositecoap.Common.{
  ℕ, zero, suc, ◌≤◌, ◌+◌, List, Bool, arith, ◌>>=◌, if◌then◌else◌, Exec, ok, Ends, value_ends,
  Ends-bind, Ends-if, Stops, ok-Stops, fault-Stops, Ends-of,
}
use libexositecoap.Memory.Ends.{memory_stops, peek-Ends, read-Ends}
use libexositecoap.Coap.Pdu.{Pdu, Ptr, null, at, CoapPayload, con_observe, con_max_age}
use libexositecoap.Coap.Fields.Stops.{field_stops}
use libexositecoap.Coap.Reader.{coap_get_option_by_num, coap_get_payload}
use libexositecoap.Coap.Reader.Passes.{get_option_by_num-ne-stuck}
use libexositecoap.Coap.Reader.Payload.{get_payload-ne-stuck}
use libexositecoap.Pal.{Pal, IsBacklog}
use libexositecoap.Client.State.{Client}
use libexositecoap.Client.Op.{
  Op, RequestType, exo_null, exo_write, exo_read, exo_subscribe, exo_activate,
}
use libexositecoap.Client.Handlers.{
  Verdict, pass, claim, next_deadline, notified, on_content, on_observed, on_notify, on_read,
  subscribed, on_subscribe, on_activate, on_success, on_failure, on_answer, on_ack, on_reset,
}
use libexositecoap.Client.Payload.{
  bytes_at, byte_at, Stored, emptied, refused, stored, store_payload, observe_bytes, max_age,
}
use libexositecoap.Client.Receive.{on_datagram}
use mathlib.Core.Option.{Option, none, some}

get_payload-Stops : (p : Pdu) → Stops (coap_get_payload p)
get_payload-Stops p = Ends-of _ (get_payload-ne-stuck p) (λ _ _. tt)

get_observe-Stops : (p : Pdu) → Stops (coap_get_option_by_num p con_observe 0)
get_observe-Stops p =
    Ends-of _ (get_option_by_num-ne-stuck p con_observe 0 (omega arith) (omega arith)) (λ _ _. tt)

get_max_age-Stops : (p : Pdu) → Stops (coap_get_option_by_num p con_max_age 0)
get_max_age-Stops p =
    Ends-of _ (get_option_by_num-ne-stuck p con_max_age 0 (omega arith) (omega arith)) (λ _ _. tt)

bytes_at-Stops : (p : Pdu) (val : Ptr) (n : ℕ) → Stops (bytes_at p val n)
bytes_at-Stops p null n = fault-Stops
bytes_at-Stops p (at i) n = read-Ends p.bytes i n

byte_at-Stops : (p : Pdu) (val : Ptr) (j : ℕ) → Stops (byte_at p val j)
byte_at-Stops p null j = fault-Stops
byte_at-Stops p (at i) j = peek-Ends p.bytes (i + j)

store_payload-Stops :
    (p : Pdu) (payload : CoapPayload) (buf : Option (List ℕ)) (max : ℕ)
    → Stops (store_payload p payload buf max)
unfolding store_payload
store_payload-Stops p payload none max = search memory_stops
store_payload-Stops p payload (some buf) max = search (memory_stops, bytes_at-Stops) depth 20

observe_bytes-Stops : (n j seq : ℕ) (p : Pdu) (val : Ptr) → Stops (observe_bytes n j seq p val)
unfolding observe_bytes
observe_bytes-Stops zero j seq p val = ok-Stops seq
observe_bytes-Stops (suc n) j seq p val =
    search (memory_stops, byte_at-Stops, observe_bytes-Stops n) depth 20

max_age-Stops : (p : Pdu) → Stops (max_age p)
unfolding max_age
max_age-Stops p = search (memory_stops, byte_at-Stops, get_max_age-Stops) depth 20

-- What is done with a stored payload.
Stored-Ends :
    {R : Type 0} {P : R → Type 0} (run : Exec Stored) (empty full : List ℕ → Exec R)
    (refusal : Exec R)
    → Stops run
    → ((bs : List ℕ) → Ends P (empty bs))
    → Ends P refusal
    → ((bs : List ℕ) → Ends P (full bs))
    → Ends P (do
      done ← run
      elim done [ emptied bs ↦ empty bs | refused ↦ refusal | stored bs ↦ full bs ])
Stored-Ends {P = P} run empty full refusal stops h k l = Ends-bind run _ stops (λ d _.
    elim d
      as (λ d.
        Ends P (elim d [ emptied bs ↦ empty bs | refused ↦ refusal | stored bs ↦ full bs ])) [
          | emptied bs ↦ h bs
          | refused ↦ k
          | stored bs ↦ l bs
        ])

-- A step that ends, and what follows it.
proceeds {ℓ} :
    {A : Type ℓ} {B : Type 0} {Q : B → Type 0} (run : Exec A) (next : A → Exec B)
    → Stops run
    → ((value : A) → Ends Q (next value))
    → Ends Q (run >>= next)
proceeds run next stops rest = Ends-bind run next stops (λ value _. rest value)

if_ends :
    {A : Type 0} {Q : A → Type 0} (test : Bool) (run run' : Exec A)
    → Ends Q run
    → Ends Q run'
    → Ends Q (if test then run else run')
if_ends test run run' h k = Ends-if test run run' (λ _. h) (λ _. k)

module _ {W : Type 0} (pal : Pal W) (waiting : W → ℕ) (backlog : IsBacklog pal waiting)
    (n : ℕ) where
  -- At most `n` datagrams wait once the message is taken.
  abbrev pub Leaves : Verdict W → Type 0
  Leaves pass = Unit
  Leaves (claim op c unauthorized) = waiting c.world ≤ n

  passes : Ends Leaves (ok pass)
  passes = value_ends pass tt

  claims :
      (op : Op) (c : Client W) (unauthorized : Bool)
      → waiting c.world ≤ n
      → Ends Leaves (ok (claim op c unauthorized))
  claims op c unauthorized h = value_ends (claim op c unauthorized) h

  module _ (p : Pdu) (c : Client W) (few : waiting c.world ≤ n) where
    next_deadline_few : (age : ℕ) → waiting (next_deadline pal c age).1.world ≤ n
    unfolding next_deadline
    next_deadline_few age =
        omega (arith, few, backlog.time_read c.world, backlog.drawn (pal.exopal_get_time c.world).1)

    cik_stored_few : (cik : List ℕ) → waiting (pal.exopal_store_cik cik c.world).1 ≤ n
    cik_stored_few cik = omega (arith, few, backlog.cik_stored cik c.world)

    notified-Ends :
        (op : Op) (value : List ℕ) (seq : ℕ) → Ends Leaves (notified pal p c op value seq)
    unfolding notified
    notified-Ends op value seq =
        search (field_stops, proceeds, max_age-Stops, claims, next_deadline_few) depth 20

    on_content-Ends : (op : Op) → Ends Leaves (on_content pal p c op)
    unfolding on_content
    on_content-Ends op =
        proceeds (coap_get_option_by_num p con_observe 0) _ (get_observe-Stops p) (λ opt.
          proceeds (observe_bytes opt.len 0 0 p opt.val) _
            (observe_bytes-Stops opt.len 0 0 p opt.val)
            (λ seq. proceeds (coap_get_payload p) _ (get_payload-Stops p) (λ payload.
              Stored-Ends (store_payload p payload op.value op.value_max) _ _ _
                (store_payload-Stops p payload op.value op.value_max) (λ bs. claims _ c _ few)
                (claims _ c _ few) (λ bs. notified-Ends op bs seq))))

    on_observed-Ends : (op : Op) → Ends Leaves (on_observed pal p c op)
    unfolding on_observed
    on_observed-Ends op = search (field_stops, proceeds, if_ends, claims, on_content-Ends) depth 20

    on_notify-Ends : (op : Op) → Ends Leaves (on_notify pal p c op)
    unfolding on_notify
    on_notify-Ends op = search (field_stops, proceeds, if_ends, passes, on_observed-Ends) depth 20

    on_read-Ends : (op : Op) → Ends Leaves (on_read pal p c op)
    unfolding on_read
    on_read-Ends op = proceeds (coap_get_payload p) _ (get_payload-Stops p) (λ payload.
        Stored-Ends (store_payload p payload op.value op.value_max) _ _ _
          (store_payload-Stops p payload op.value op.value_max) (λ bs. claims _ c _ few)
          (claims _ c _ few) (λ bs. claims _ c _ few))

    subscribed-Ends : (op : Op) (value : List ℕ) → Ends Leaves (subscribed pal p c op value)
    unfolding subscribed
    subscribed-Ends op value =
        search
          (
            proceeds, max_age-Stops, get_observe-Stops, observe_bytes-Stops, claims,
            next_deadline_few,
          )
          depth 20

    on_subscribe-Ends : (op : Op) → Ends Leaves (on_subscribe pal p c op)
    unfolding on_subscribe
    on_subscribe-Ends op = proceeds (coap_get_payload p) _ (get_payload-Stops p) (λ payload.
        Stored-Ends (store_payload p payload op.value op.value_max) _ _ _
          (store_payload-Stops p payload op.value op.value_max) (λ bs. claims _ c _ few)
          (claims _ c _ few) (λ bs. subscribed-Ends op bs))

    on_activate-Ends : (op : Op) → Ends Leaves (on_activate pal p c op)
    unfolding on_activate
    on_activate-Ends op =
        search
          (
            memory_stops, proceeds, if_ends, get_payload-Stops, bytes_at-Stops, claims,
            cik_stored_few,
          )
          depth 20

    on_success-Ends : (type : RequestType) (op : Op) → Ends Leaves (on_success pal type p c op)
    unfolding on_success
    on_success-Ends exo_write op = claims _ c _ few
    on_success-Ends exo_read op = on_read-Ends op
    on_success-Ends exo_subscribe op = on_subscribe-Ends op
    on_success-Ends exo_activate op = on_activate-Ends op
    on_success-Ends exo_null op = passes

    on_failure-Ends : (code : ℕ) (op : Op) → Ends Leaves (ok (on_failure pal code c op))
    unfolding on_failure
    on_failure-Ends code op = value_ends _ (ground (arith, few))

    on_ack-Ends : (op : Op) → Ends Leaves (on_ack pal p c op)
    unfolding on_ack on_answer
    on_ack-Ends op =
        search (field_stops, proceeds, if_ends, passes, on_success-Ends, on_failure-Ends) depth 20

    on_reset-Ends : (op : Op) → Ends Leaves (on_reset pal p c op)
    unfolding on_reset
    on_reset-Ends op = search (field_stops, proceeds, if_ends, passes, claims) depth 20

    pub on_datagram-Ends : (mtype : ℕ) (op : Op) → Ends Leaves (on_datagram pal mtype p c op)
    unfolding on_datagram
    on_datagram-Ends mtype op =
        search (if_ends, on_notify-Ends, on_ack-Ends, on_reset-Ends, passes) depth 20
