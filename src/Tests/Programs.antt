-- ===== src/Tests/Programs.antt =====
-- Runs of the programs that use the client, of its histories and of the platform layers.
use libexositecoap.Common.{
  ℕ, ◌≡◌, ◌≢◌, ◌≤◌, ◌⊎◌, inl, refl, List, take, [], ◌∷◌, ◌++◌, All, length, replicate, true, ◌||◌,
  arith, ok, if◌then◌else◌,
}
use libexositecoap.Memory.{write, poke}
use libexositecoap.Coap.Wire.{encode, holding}
use libexositecoap.Coap.Fields.{le_value}
use libexositecoap.Pal.Posix.{Os, Posix, Received, posix}
use libexositecoap.Pal.Posix
use libexositecoap.Pal.Stored.{init-store_cik}
use libexositecoap.Pal.Start.{init-operate}
use libexositecoap.Client.State.{
  Client, ExoError, exo_ok, exo_fatal_error_pal, exo_error, exo_waiting, initialized, uninitialized,
  good,
}
use libexositecoap.Client.Op.{
  Op, request_error, queue_write, exo_op_init, exo_op_done, exo_is_op_subscribe,
}
use libexositecoap.Client.Send.{exo_process_active_ops, active_ops, active_op, check_timeout}
use libexositecoap.Client.Receive.{receive_loop}
use libexositecoap.Client.Operate.{
  answer, any_state, operate_good, operate_in, exo_operate, exo_init, init_socket,
}
use libexositecoap.Client.History.{inited, here, next, called, operated, to_write, to_done}
use libexositecoap.Client.History.Sound.{IsSound}
use libexositecoap.Client.History.Invariant.{Reach-IsSound}
use libexositecoap.Client.History.Device.{IsDevice, Reach-cik}
use libexositecoap.Client.Operate.Answer.{IsAnswer, exo_operate-IsAnswer}
use libexositecoap.Client.State.{c_string}
use libexositecoap.Examples.Print.{
  valid_packet, type_line, code_line, mid_line, token_line, coap_pretty_print,
}
use libexositecoap.Coap.Pdu.{null}
use libexositecoap.Examples.Exchange.{Net, sent_message, valid_answer, Peer, exchange}
use libexositecoap.Examples.Exchange.Built.{asked_message}
use libexositecoap.Examples.Exchange.Sent.{peer, printed_lines, exchange-answered}
use libexositecoap.Examples.Print.Options.{option_lines, payload_lines}
use libexositecoap.Examples.Print.Message.{pretty_print-holding}
use libexositecoap.Examples.Subscribe.{check_ops}
use libexositecoap.Examples.Subscribe.Check.{
  settled, settled_last, last_reports, reports_of, has_failed, printed, check_ops-settled,
}
use libexositecoap.Tests.Samples.{sample, sample-IsEncodable, length-sample, room}
use libexositecoap.Tests.Device.{clock, device, packet, idle_op, read_op}
use mathlib.Core.Option.{none, some}

pretty_print-holding_example :
    coap_pretty_print 4 (holding 0 sample room)
    ≡ ok (
        valid_packet (length (encode sample))
        ∷ type_line 2
        ∷ code_line 2 5
        ∷ mid_line 0x1234
        ∷ token_line (le_value (0xab ∷ 0xcd ∷ []))
        ∷ (option_lines sample.options ++ payload_lines sample.options sample.payload))
pretty_print-holding_example =
    pretty_print-holding 0 sample room 4 sample-IsEncodable
      (omega arith, omega arith, omega arith, sample-IsEncodable.options_sorted.3)
      (omega (arith, length-sample)) (omega arith)

-- The read fails, and its failure is to be written.
abbrev failed_op : Op
failed_op = record read_op { state = request_error }

check_ops-settled_example :
    check_ops 3 (replicate 16 0) 0 (exo_op_init ∷ failed_op ∷ idle_op ∷ exo_op_init ∷ []) 1
    ≡ ok (
      exo_op_init
          ∷ settled failed_op
          ∷ settled idle_op
          ∷ settled_last (replicate 16 0) 0 (has_failed failed_op) (has_failed idle_op) exo_op_init
          ∷ [],
      reports_of 0 failed_op
          ++ (reports_of 0 idle_op
              ++ last_reports 0 (has_failed failed_op) (has_failed idle_op) exo_op_init),
      if has_failed failed_op || (has_failed idle_op || has_failed exo_op_init)
          then printed (replicate 16 0) 0
          else replicate 16 0,
    )
check_ops-settled_example =
    check_ops-settled (replicate 16 0) 0 exo_op_init failed_op idle_op exo_op_init (omega arith)

-- A finished write is made free, another is queued, and the client waits for the read.
abbrev waiting_read : Op
waiting_read = record read_op { timeout = 5_000 }

abbrev free_op : Op
free_op = exo_op_done idle_op

one_operation :
    exo_operate clock 1 packet device (free_op ∷ waiting_read ∷ [])
    ≡ ok (exo_waiting, free_op ∷ waiting_read ∷ [], record device { world = 1_001 })
unfolding exo_operate operate_in operate_good receive_loop exo_process_active_ops active_ops
    active_op check_timeout answer any_state exo_op_done exo_op_init exo_is_op_subscribe
one_operation = refl

exo_operate-IsAnswer_example :
    ((good ≡ uninitialized)
      × (exo_waiting ≡ exo_error)
      × (free_op ∷ waiting_read ∷ [] ≡ free_op ∷ waiting_read ∷ [])
      × (record device { world = 1_001 } ≡ device))
    ⊎ ((good ≢ uninitialized) × IsAnswer exo_waiting (free_op ∷ waiting_read ∷ []))
exo_operate-IsAnswer_example =
    exo_operate-IsAnswer clock 1 packet device (record device { world = 1_001 })
      (free_op ∷ waiting_read ∷ []) (free_op ∷ waiting_read ∷ []) exo_waiting one_operation

both-IsSound : All IsSound (idle_op ∷ waiting_read ∷ [])
unfolding IsSound
both-IsSound = ((refl, omega arith), ((refl, omega arith), tt))

Reach-IsSound_example :
    (length (queue_write free_op none none ∷ waiting_read ∷ [])
      ≡ length (idle_op ∷ waiting_read ∷ []))
    × All IsSound (queue_write free_op none none ∷ waiting_read ∷ [])
Reach-IsSound_example = Reach-IsSound clock {c = device} both-IsSound (
    next
      (next (next here (called device [] (waiting_read ∷ []) (to_done idle_op)))
        (operated 1 packet one_operation))
      (called (record device { world = 1_001 }) [] (waiting_read ∷ [])
        (to_write free_op none none)))

-- The device starts on the clock, and does not on the platforms that keep no CIK.
abbrev cold : {W : Type 0} → W → Client W
cold w = record {
  cik = replicate 41 0;
  vendor = none;
  model = none;
  serial = none;
  message_id_counter = 5;
  device_state = initialized;
  world = w;
}

warm_start :
    exo_init clock (cold 1_000) none none none
    ≡ ok (exo_ok, record (cold 1_000) { message_id_counter = 7; device_state = initialized })
unfolding exo_init init_socket write poke
warm_start = refl

first_start :
    exo_init clock (record (cold 1_000) { device_state = uninitialized }) none none none
    ≡ ok (exo_ok, record (cold 1_000) { message_id_counter = 7; device_state = initialized })
unfolding exo_init init_socket write poke
first_start = refl

cold-IsDevice : IsDevice {W = ℕ} (record (cold 1_000) { device_state = uninitialized })
unfolding IsDevice
cold-IsDevice = (refl, omega arith, inl refl)

Reach-cik_example : (cik : List ℕ) × (c_string (replicate 41 0) ≡ ok cik) × (length cik ≤ 40)
Reach-cik_example =
    Reach-cik clock {c = record (cold 1_000) { device_state = uninitialized }} {ops = idle_op ∷ []}
      {c' = record (cold 1_000) { message_id_counter = 7 }} cold-IsDevice
      (next (next here (inited none none none (idle_op ∷ []) first_start))
        (called (record (cold 1_000) { message_id_counter = 7 }) [] [] (to_done idle_op)))
      (λ off. cc)

init-operate_example :
    ((exo_ok ≡ exo_ok) × (initialized ≡ initialized))
    ⊎ ((exo_ok ≡ exo_fatal_error_pal)
        × (initialized ≡ uninitialized)
        × (exo_operate clock 1 packet (record (cold 1_000) { message_id_counter = 7 }) []
            ≡ ok (exo_error, [], record (cold 1_000) { message_id_counter = 7 })))
init-operate_example =
    init-operate clock (cold 1_000) (record (cold 1_000) { message_id_counter = 7 }) none none none
      exo_ok 1 packet [] warm_start

-- A system whose world is the content of the file of the key.
abbrev disk_system : Os (List ℕ)
disk_system = record {
  getaddrinfo = λ w. (0, [], w);
  socket = λ q w. (some 3, w);
  fcntl_nonblock = λ fd w. w;
  connect = λ fd q w. (true, w);
  send = λ fd bytes w. (some (length bytes), w);
  recv = λ fd size w. (Received.again, w);
  fopen_read = λ w. (some 4, w);
  fopen_write = λ w. (some 5, []);
  fread = λ fd n w. (take n w, w);
  fwrite = λ fd bytes w. (length bytes, bytes);
  fclose = λ fd w. w;
  gettimeofday = λ w. (1, 0, w);
  srand_time = λ w. w;
  rand = λ w. (7, w);
}

abbrev new_key : List ℕ
new_key = replicate 40 b'a'

abbrev stored_world : Posix (List ℕ)
stored_world =
    (Posix.exopal_store_cik disk_system new_key (record { exosock = none; system = [] })).1

init-store_cik_example :
    ((Posix.exopal_store_cik disk_system new_key (record { exosock = none; system = [] })).0 ≡ 0)
    × (e : ExoError) × (c' : Client (Posix (List ℕ))) × (exo_init
          (posix disk_system)
          (record (cold stored_world) { cik = replicate 41 0 })
          none
          none
          none
        ≡ ok (e, c'))
    × (c'.cik ≡ take 40 new_key ++ (0 ∷ []))
init-store_cik_example =
    init-store_cik disk_system (λ w. w)
      (record {
        to_write = λ w. 5;
        opened_to_write = λ w. refl;
        written = λ bytes w. refl;
        holds = λ bytes w. refl;
        to_read = λ w. 4;
        opened_to_read = λ w. refl;
        got = λ n w. refl;
        closed = λ f w. refl;
        seeded = λ w. refl;
        drawn = λ w. refl;
      })
      new_key (record { exosock = none; system = [] })
      (record (cold stored_world) { cik = replicate 41 0 }) none none none (omega arith) refl refl

-- A peer that answers everything with the sample, which has another id.
abbrev peer_net : Net ℕ
peer_net = record {
  sendto = λ bytes w. (true, w);
  recvfrom = λ size w. (some (encode sample), w);
  rand = λ w. (7, w);
}

exchange-answered_example :
    (next : Peer ℕ) × (exchange peer_net 4 (
        peer peer_net 4 0 1 2 3 4 0
          (replicate 60 0)
          null
          5
          (omega arith)
          (omega arith)
          (omega arith)
          0
          0
          (replicate 64 0)
          null
          1_000)
      ≡ ok (sent_message (printed_lines (asked_message 5 7)) ∷ valid_answer ∷ [], some next))
exchange-answered_example =
    exchange-answered peer_net 4 0 1 2 3 4 0 (replicate 60 0) null 5 (omega arith) (omega arith)
      (omega arith) 0 0 (replicate 64 0) null 1_000 sample sample-IsEncodable
      (omega arith, omega arith, omega arith, sample-IsEncodable.options_sorted.3)
      (omega (arith, length-sample)) (omega (arith, length-sample)) (omega arith) (omega arith) refl
      refl
