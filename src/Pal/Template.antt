-- ===== src/Pal/Template.antt =====
-- pal/template/exosite_pal.c: the layer that a port starts from; nearly every function answers 1.
use libexositecoap.Common.{ℕ, List, []}
use libexositecoap.Pal.{Pal}
use mathlib.Core.Option.{none}

module _ {W : Type 0} where
  unfoldable pub exopal_udp_sock : W → ℕ × W
  exopal_udp_sock w = (1, w)

  unfoldable pub exopal_init : W → ℕ × W
  exopal_init w = (0, w)

  unfoldable pub exopal_udp_send : List ℕ → W → ℕ × W
  exopal_udp_send buf w = (1, w)

  unfoldable pub exopal_udp_recv : ℕ → W → ℕ × List ℕ × W
  exopal_udp_recv size w = (1, [], w)

  unfoldable pub exopal_store_cik : List ℕ → W → ℕ × W
  exopal_store_cik cik w = (1, w)

  unfoldable pub exopal_retrieve_cik : W → ℕ × List ℕ × W
  exopal_retrieve_cik w = (1, [], w)

  unfoldable pub exopal_get_time : W → ℕ × W
  exopal_get_time w = (1, w)

-- The layer as the client uses it, with the random numbers of the C library.
module _ {W : Type 0} (seed : W → W) (rand : W → ℕ × W) where
  unfoldable pub template : Pal W
  template = record {
    exopal_init = exopal_init;
    exopal_udp_sock = exopal_udp_sock;
    exopal_retrieve_cik = exopal_retrieve_cik;
    exopal_store_cik = exopal_store_cik;
    exopal_udp_send = exopal_udp_send;
    exopal_udp_recv = λ size w. (none, w);
    exopal_get_time = exopal_get_time;
    seed = seed;
    rand = rand;
  }
