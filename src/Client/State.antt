-- ===== src/Client/State.antt =====
-- The static variables of src/exosite.c, with the state of the world, and C strings.
use libexositecoap.Common.{ℕ, List, [], ◌∷◌, ◌==◌, if◌then◌else◌, Exec, ok, fault, ◌>>=◌}
use mathlib.Core.Option.{Option, none, some}

pub data ExoError : Type 0 where
  exo_ok : ExoError
  exo_general_error : ExoError
  exo_out_of_space : ExoError
  exo_fatal_error_pal : ExoError

pub data ExoState : Type 0 where
  exo_idle : ExoState
  exo_waiting : ExoState
  exo_busy : ExoState
  exo_new_response : ExoState
  exo_error : ExoState
  exo_connection_error : ExoState
  exo_device_not_enabled : ExoState
  exo_device_does_not_exist : ExoState

pub data DeviceState : Type 0 where
  uninitialized : DeviceState
  initialized : DeviceState
  good : DeviceState
  bad_cik : DeviceState

abbrev pub cik_length : ℕ
cik_length = 40

-- `cik` is an array of 41 bytes.
pub record Client (W : Type 0) : Type 0 where
  pub cik : List ℕ
  pub vendor : Option (List ℕ)
  pub model : Option (List ℕ)
  pub serial : Option (List ℕ)
  pub message_id_counter : ℕ
  pub device_state : DeviceState
  pub world : W

-- The characters of the C string in an array: those before the first 0.
unfoldable pub c_string : List ℕ → Exec (List ℕ)
c_string [] = fault
c_string (x ∷ xs) = let rest = (do s ← c_string xs; ok (x ∷ s)) in if x == 0 then ok [] else rest

-- The string behind a `char *`; NULL is no string.
unfoldable pub string_at : Option (List ℕ) → Exec (List ℕ)
unfolding c_string
string_at none = fault
string_at (some xs) = c_string xs
