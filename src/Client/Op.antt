-- ===== src/Client/Op.antt =====
-- Operations of src/exosite.h, and the functions of src/exosite.c on a single one.
use libexositecoap.Common.{ℕ, List, Bool, true, false, not, if◌then◌else◌}
use mathlib.Core.Option.{Option, none}

pub data RequestType : Type 0 where
  exo_null : RequestType
  exo_write : RequestType
  exo_read : RequestType
  exo_subscribe : RequestType
  exo_activate : RequestType

pub data RequestState : Type 0 where
  request_null : RequestState
  request_new : RequestState
  request_pending : RequestState
  request_subscribed : RequestState
  request_sub_ack : RequestState
  request_sub_ack_new : RequestState
  request_success : RequestState
  request_error : RequestState

-- `exo_op`. A `char *` is none for NULL, or the array that it points to; no two operations share a
-- buffer.
pub record Op : Type 0 where
  pub type : RequestType
  pub state : RequestState
  pub alias : Option (List ℕ)
  pub value : Option (List ℕ)
  pub value_max : ℕ
  pub mid : ℕ
  pub obs_seq : ℕ
  pub tkl : ℕ
  pub token : ℕ
  pub timeout : ℕ
  pub retries : ℕ

-- `exo_write`, `exo_read`, `exo_subscribe` and `exo_activate` queue a request.
unfoldable pub queue_write : Op → Option (List ℕ) → Option (List ℕ) → Op
queue_write op alias value = record op {
  type = exo_write;
  state = request_new;
  alias = alias;
  value = value;
  value_max = 0;
  mid = 0;
}

unfoldable pub queue_read : Op → Option (List ℕ) → Option (List ℕ) → ℕ → Op
queue_read op alias value value_max = record op {
  type = exo_read;
  state = request_new;
  alias = alias;
  value = value;
  value_max = value_max;
  mid = 0;
}

unfoldable pub queue_subscribe : Op → Option (List ℕ) → Option (List ℕ) → ℕ → Op
queue_subscribe op alias value value_max = record op {
  type = exo_subscribe;
  state = request_new;
  alias = alias;
  value = value;
  value_max = value_max;
  mid = 0;
}

unfoldable pub queue_activate : Op → Op
queue_activate op = record op {
  type = exo_activate;
  state = request_new;
  alias = none;
  value = none;
  value_max = 0;
  mid = 0;
}

-- Every field is set, so the operation before does not matter.
unfoldable pub exo_op_init : Op
exo_op_init = record {
  type = exo_null;
  state = request_null;
  alias = none;
  value = none;
  value_max = 0;
  mid = 0;
  obs_seq = 0;
  tkl = 0;
  token = 0;
  timeout = 0;
  retries = 0;
}

abbrev pub is_null : RequestType → Bool
is_null exo_null = true
is_null _ = false

abbrev is_read : RequestType → Bool
is_read exo_read = true
is_read _ = false

abbrev is_subscribe : RequestType → Bool
is_subscribe exo_subscribe = true
is_subscribe _ = false

abbrev is_write : RequestType → Bool
is_write exo_write = true
is_write _ = false

abbrev is_success : RequestState → Bool
is_success request_success = true
is_success _ = false

abbrev is_finished : RequestState → Bool
is_finished request_success = true
is_finished request_error = true
is_finished _ = false

unfoldable pub exo_is_op_valid : Op → Bool
exo_is_op_valid op = not (is_null op.type)

unfoldable pub exo_is_op_success : Op → Bool
exo_is_op_success op = is_success op.state

unfoldable pub exo_is_op_finished : Op → Bool
exo_is_op_finished op = is_finished op.state

unfoldable pub exo_is_op_read : Op → Bool
exo_is_op_read op = is_read op.type

unfoldable pub exo_is_op_subscribe : Op → Bool
exo_is_op_subscribe op = is_subscribe op.type

unfoldable pub exo_is_op_write : Op → Bool
exo_is_op_write op = is_write op.type

unfoldable pub exo_op_done : Op → Op
unfolding exo_op_init exo_is_op_subscribe
exo_op_done op =
    if exo_is_op_subscribe op then record op { state = request_subscribed } else exo_op_init
