-- ===== src/Examples/Dtls/GivesUp.antt =====
-- How the loop of picocoap/examples/posix/client_dtls.c sends a message again, when nothing is
-- received.
use libexositecoap.Common.{
  ℕ, zero, suc, ◌+◌, ◌-◌, ◌*◌, ◌≤◌, ◌<◌, ◌≡◌, ◌⊎◌, inl, inr, refl, ap, ◌∙◌, List, ◌∷◌, ◌++◌,
  replicate, true, arith, ok,
}
use libexositecoap.Memory.Local.{read_whole}
use libexositecoap.Examples.Dtls.{Libs, DtlsProgram, select_timeout, timeout_seconds, max_retry}
use libexositecoap.Examples.Dtls.Handler.{set_send_timestamp}
use libexositecoap.Examples.Dtls.Loop.{
  goes_on, breaks, on_timeout, on_select, next_request, finish, loop_round, loop_rounds,
  write_again,
}
use libexositecoap.Examples.Dtls.Unanswered.{in_world}
use mathlib.Core.Option.{some}

-- The clock of the world: `time` reads it, `select` times out after two seconds at least, and it does
-- not go back.
pub record IsClock {M W : Type 0} (libs : Libs M W) (clock : W → ℕ) : Type 0 where
  pub silent : (w : W) → (libs.select w).0 ≡ select_timeout
  pub waits : (w : W) → clock w + 2 ≤ clock (libs.select w).1
  pub reads : (w : W) → (libs.time w).0 ≡ clock w
  pub read_after : (w : W) → clock w ≤ clock (libs.time w).1
  pub write_after : (bytes : List ℕ) (w : W) → clock w ≤ clock (libs.dtls_write bytes w)

-- The messages that were handed to `dtls_write`, the last one first. Waiting and reading the time
-- send nothing.
pub record IsLog {M W : Type 0} (libs : Libs M W) (log : W → List (List ℕ)) : Type 0 where
  pub selected : (w : W) → log (libs.select w).1 ≡ log w
  pub time_read : (w : W) → log (libs.time w).1 ≡ log w
  pub written : (bytes : List ℕ) (w : W) → log (libs.dtls_write bytes w) ≡ bytes ∷ log w

-- A message whose time was noted waits for its answer.
pub record IsAsking {M W : Type 0} (libs : Libs M W) (s : DtlsProgram M W) (pdu : M) : Type 0 where
  pub noted : 0 < s.last_sent.out
  pub not_acked : s.last_sent.ack ≡ 0
  pub awaited : s.ready_to_recv ≡ true
  pub sent : s.sent_pdu ≡ some pdu
  pub same : s.last_sent.message ≡ libs.wire pdu

le_or : (a b : ℕ) → (a ≤ b) ⊎ (b < a)
le_or a b = grind arith

module _ {M W : Type 0} (libs : Libs M W) (clock : W → ℕ) (ticks : IsClock libs clock)
    (s : DtlsProgram M W) (pdu : M) (asking : IsAsking libs s pdu) where
  abbrev selected : W
  selected = (libs.select s.system.world).1

  abbrev looked : W
  looked = (libs.time selected).1

  abbrev again : DtlsProgram M W
  again = set_send_timestamp libs pdu (in_world s (libs.dtls_write (libs.wire pdu) looked))

  write_again_lem : write_again libs (in_world s looked) ≡ ok again
  unfolding write_again
  write_again_lem = rw (asking.sent, asking.same, read_whole (libs.wire pdu)) refl

  early :
      clock selected ≤ s.last_sent.out + timeout_seconds
      → loop_round libs s ≡ ok (goes_on (in_world s looked))
  unfolding loop_round on_select on_timeout next_request finish
  early h = ground (
    arith,
    ticks.silent s.system.world,
    ticks.reads selected,
    asking.noted,
    asking.not_acked,
    asking.awaited,
  )

  late :
      s.last_sent.out + timeout_seconds < clock selected
      → s.last_sent.retry ≤ max_retry
      → loop_round libs s ≡ ok (goes_on again)
  unfolding loop_round on_select on_timeout next_request finish set_send_timestamp
  late h few = ground (
    arith,
    ticks.silent s.system.world,
    ticks.reads selected,
    asking.noted,
    asking.not_acked,
    asking.awaited,
    write_again_lem,
  )

  over :
      s.last_sent.out + timeout_seconds < clock selected
      → max_retry < s.last_sent.retry
      → loop_round libs s ≡ ok (breaks (in_world s looked))
  unfolding loop_round on_select on_timeout
  over h many =
      ground
        (arith, ticks.silent s.system.world, ticks.reads selected, asking.noted, asking.not_acked)

  -- The time noted is that of the world after the message was sent.
  abbrev noted_at : ℕ
  noted_at = clock (libs.dtls_write (libs.wire pdu) looked)

  again_out : again.last_sent.out ≡ noted_at
  unfolding set_send_timestamp
  again_out = ticks.reads (libs.dtls_write (libs.wire pdu) looked)

  noted_late : clock selected ≤ noted_at
  noted_late = omega (arith, ticks.read_after selected, ticks.write_after (libs.wire pdu) looked)

  again_later : noted_at ≤ clock again.system.world
  unfolding set_send_timestamp
  again_later = ticks.read_after (libs.dtls_write (libs.wire pdu) looked)

  again_retry : again.last_sent.retry ≡ s.last_sent.retry + 1
  unfolding set_send_timestamp
  again_retry = refl

  again-IsAsking : s.last_sent.out + timeout_seconds < clock selected → IsAsking libs again pdu
  unfolding set_send_timestamp
  again-IsAsking h = record {
    noted = omega (arith, again_out, noted_late, h);
    not_acked = refl;
    awaited = asking.awaited;
    sent = asking.sent;
    same = refl;
  }

  looked-IsAsking : IsAsking libs (in_world s looked) pdu
  looked-IsAsking = record {
    noted = asking.noted;
    not_acked = asking.not_acked;
    awaited = asking.awaited;
    sent = asking.sent;
    same = asking.same;
  }

-- One more at the front of the messages sent is one more in a row.
replicate-more :
    {A : Type 0} (n : ℕ) (x : A) (xs : List A)
    → replicate n x ++ (x ∷ xs) ≡ x ∷ (replicate n x ++ xs)
replicate-more zero x xs = refl
replicate-more (suc n) x xs = ap (λ t. x ∷ t) (replicate-more n x xs)

module _ {M W : Type 0} (libs : Libs M W) (clock : W → ℕ) (ticks : IsClock libs clock)
    (s : DtlsProgram M W) (pdu : M) (asking : IsAsking libs s pdu) (log : W → List (List ℕ))
    (logs : IsLog libs log) where
  looked_log : log (looked libs clock ticks s pdu asking) ≡ log s.system.world
  looked_log =
      logs.time_read (selected libs clock ticks s pdu asking) ∙ logs.selected s.system.world

  again_log :
      log (again libs clock ticks s pdu asking).system.world ≡ libs.wire pdu ∷ log s.system.world
  unfolding set_send_timestamp
  again_log =
      logs.time_read (libs.dtls_write (libs.wire pdu) (looked libs clock ticks s pdu asking))
      ∙ logs.written (libs.wire pdu) (looked libs clock ticks s pdu asking)
      ∙ ap (λ l. libs.wire pdu ∷ l) looked_log

  -- The message sent again is one of those that were left.
  one_more :
      s.last_sent.retry ≤ max_retry
      → replicate (4 - (again libs clock ticks s pdu asking).last_sent.retry) (libs.wire pdu)
          ++ log (again libs clock ticks s pdu asking).system.world
        ≡ replicate (4 - s.last_sent.retry) (libs.wire pdu) ++ log s.system.world
  one_more few =
      let counted : 4 - s.last_sent.retry
          ≡ suc (4 - (again libs clock ticks s pdu asking).last_sent.retry) =
        omega (arith, again_retry libs clock ticks s pdu asking, few) in
      rw (counted, again_log)
        (replicate-more (4 - (again libs clock ticks s pdu asking).last_sent.retry) (libs.wire pdu)
          (log s.system.world))

-- What the loop leaves when it gives up a message that was `left` sends short: it has sent the
-- bytes of the message that often, and nothing else.
pub record HasGivenUp {M W : Type 0} (libs : Libs M W) (log : W → List (List ℕ)) (n left : ℕ)
    (s : DtlsProgram M W) (pdu : M) : Type 0 where
  pub end : DtlsProgram M W
  pub run : loop_rounds libs (suc n) s ≡ ok (breaks end)
  pub counted : end.last_sent.retry ≡ 4
  pub sends : log end.system.world ≡ replicate left (libs.wire pdu) ++ log s.system.world

-- A message is given up where nothing is received and the clock runs: if the program waits for the
-- answer to a message whose time is noted, and at most four sends of it are counted, then the loop
-- hands the bytes of the message to `dtls_write` as often as sends are left of the four, hands it
-- nothing else, and ends. The number of rounds is bounded by the sends that are left, with four
-- rounds each, and the time until the next one, with two seconds a round.
pub gives_up :
    {M W : Type 0} (libs : Libs M W) (clock : W → ℕ) (log : W → List (List ℕ)) (n : ℕ)
    (s : DtlsProgram M W) (pdu : M)
    → IsClock libs clock
    → IsLog libs log
    → IsAsking libs s pdu
    → s.last_sent.retry ≤ 4
    → 8 * (4 - s.last_sent.retry) + (s.last_sent.out + 6 - clock s.system.world) ≤ 2 * n
    → HasGivenUp libs log n (4 - s.last_sent.retry) s pdu
unfolding loop_rounds
gives_up libs clock log zero s pdu ticks logs asking few enough = record {
  end = in_world s (looked libs clock ticks s pdu asking);
  run =
      rw
        (over libs clock ticks s pdu asking (omega (arith, ticks.waits s.system.world))
          (omega arith))
        refl;
  counted = omega arith;
  sends =
      let spent : 4 - s.last_sent.retry ≡ 0 = omega arith in
      rw spent (looked_log libs clock ticks s pdu asking log logs);
}
gives_up libs clock log (suc n) s pdu ticks logs asking few enough =
    let w : _ = selected libs clock ticks s pdu asking in
    elim (le_or (clock w) (s.last_sent.out + timeout_seconds)) [
      | inl soon ↦
          let r =
            gives_up libs clock log n (in_world s (looked libs clock ticks s pdu asking)) pdu ticks
              logs (looked-IsAsking libs clock ticks s pdu asking) few
              (omega (arith, enough, soon, ticks.waits s.system.world, ticks.read_after w)) in
          record {
            end = r.end;
            run = rw (early libs clock ticks s pdu asking soon) r.run;
            counted = r.counted;
            sends =
                r.sends
                ∙ ap (λ l. replicate (4 - s.last_sent.retry) (libs.wire pdu) ++ l)
                    (looked_log libs clock ticks s pdu asking log logs);
          }
      | inr passed ↦ elim (le_or s.last_sent.retry max_retry) [
        | inl left ↦
            let r =
              gives_up libs clock log n (again libs clock ticks s pdu asking) pdu ticks logs
                (again-IsAsking libs clock ticks s pdu asking passed)
                (omega (arith, again_retry libs clock ticks s pdu asking, left))
                (omega (
                  arith,
                  enough,
                  again_retry libs clock ticks s pdu asking,
                  again_out libs clock ticks s pdu asking,
                  again_later libs clock ticks s pdu asking,
                  left,
                )) in
            record {
              end = r.end;
              run = rw (late libs clock ticks s pdu asking passed left) r.run;
              counted = r.counted;
              sends = r.sends ∙ one_more libs clock ticks s pdu asking log logs left;
            }
        | inr spent ↦ record {
          end = in_world s (looked libs clock ticks s pdu asking);
          run = rw (over libs clock ticks s pdu asking passed spent) refl;
          counted = omega (arith, few, spent);
          sends =
              let none_left : 4 - s.last_sent.retry ≡ 0 = omega (arith, spent) in
              rw none_left (looked_log libs clock ticks s pdu asking log logs);
        }
      ]
    ]
