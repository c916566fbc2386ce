-- ===== src/Coap/Reader/Loop.antt =====
-- How a round of `coap_get_option_by_num` in picocoap/src/coap.c ends.
use libexositecoap.Common.{ℕ, suc, ◌+◌, ◌≤◌, ◌<◌, ◌≡◌, arith, ok}
use libexositecoap.Coap.Pdu.{Pdu, CoapOption}
use libexositecoap.Coap.Reader.{
  coap_get_option, no_option, by_num_round, by_num_loop, finished, again,
}

-- How a round ends at an option, by the order of its number and the one looked for.
module _ (num occ i : ℕ) (option : CoapOption) (below : i ≤ occ) (top : occ < 255) where
  pub round_more : option.num ≡ num → i < occ → by_num_round num occ i option ≡ again (i + 1)
  unfolding by_num_round
  round_more e h = ground arith

  pub round_hit : option.num ≡ num → i ≡ occ → by_num_round num occ i option ≡ finished option
  unfolding by_num_round
  round_hit e h = ground arith

  pub round_past : num < option.num → by_num_round num occ i option ≡ finished no_option
  unfolding by_num_round
  round_past h = ground arith

  pub round_skip : option.num < num → 1 ≤ option.num → by_num_round num occ i option ≡ again i
  unfolding by_num_round
  round_skip h one = ground arith

  pub round_end : 1 ≤ num → option.num ≡ 0 → by_num_round num occ i option ≡ finished option
  unfolding by_num_round
  round_end one e = ground arith

-- One round of the loop.
module _ (fuel : ℕ) (p : Pdu) (num occ i : ℕ) (prev option : CoapOption)
    (got : coap_get_option p prev ≡ ok option) where
  pub loop_again :
      (j : ℕ)
      → by_num_round num occ i option ≡ again j
      → by_num_loop (suc fuel) p num occ i prev ≡ by_num_loop fuel p num occ j option
  unfolding by_num_loop
  loop_again j e = ground (arith, got, e)

  pub loop_finished :
      (r : CoapOption)
      → by_num_round num occ i option ≡ finished r
      → by_num_loop (suc fuel) p num occ i prev ≡ ok r
  unfolding by_num_loop
  loop_finished r e = ground (arith, got, e)
