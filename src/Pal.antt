-- ===== src/Pal.antt =====
-- What src/exosite.c calls and does not implement: the platform adaptation layer
-- (pal/posix/exosite_pal.h, which a port fills in) and `srand`, `rand` of the C library, as functions
-- on the state `W` of the world. The numbers are the C results, 0 for success.
pub mod Posix
pub mod Template
pub mod Start
pub mod Stored
use libexositecoap.Common.{ℕ, List, ◌≤◌, ◌<◌, ◌≡◌}
use mathlib.Core.Option.{Option, some}

pub record Pal (W : Type 0) : Type 0 where
  pub exopal_init : W → ℕ × W
  pub exopal_udp_sock : W → ℕ × W
  -- The result, and the bytes that now stand at the front of the caller's array.
  pub exopal_retrieve_cik : W → ℕ × List ℕ × W
  pub exopal_store_cik : List ℕ → W → ℕ × W
  pub exopal_udp_send : List ℕ → W → ℕ × W
  -- A datagram for a buffer of the given size, if one is waiting.
  pub exopal_udp_recv : ℕ → W → Option (List ℕ) × W
  pub exopal_get_time : W → ℕ × W
  -- `srand(time(NULL))`
  pub seed : W → W
  pub rand : W → ℕ × W

-- A count of the datagrams that wait to be received: a datagram received is one less, and the other
-- calls that are made while datagrams are handled add none.
pub record IsBacklog {W : Type 0} (pal : Pal W) (waiting : W → ℕ) : Type 0 where
  pub received :
      (max : ℕ) (w : W) (datagram : List ℕ)
      → (pal.exopal_udp_recv max w).0 ≡ some datagram
      → waiting (pal.exopal_udp_recv max w).1 < waiting w
  pub time_read : (w : W) → waiting (pal.exopal_get_time w).1 ≤ waiting w
  pub drawn : (w : W) → waiting (pal.rand w).1 ≤ waiting w
  pub cik_stored : (cik : List ℕ) (w : W) → waiting (pal.exopal_store_cik cik w).1 ≤ waiting w
