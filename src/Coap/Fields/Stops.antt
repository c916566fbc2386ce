-- ===== src/Coap/Fields/Stops.antt =====
-- The getters and setters of the fixed header in picocoap/src/coap.h and coap.c end on every packet.
use libexositecoap.Common.{ℕ, Stops}
use libexositecoap.Memory.Ends.{memory_stops}
use libexositecoap.Coap.Pdu.{Pdu}
use libexositecoap.Coap.Fields.{
  coap_get_version, coap_get_type, coap_get_tkl, coap_get_code, coap_get_code_class, coap_get_mid,
  coap_get_token, coap_set_version, coap_set_type, coap_set_code, coap_set_mid, put_token,
  coap_set_token, coap_init_pdu,
}

pub get_version-Stops : (p : Pdu) → Stops (coap_get_version p)
unfolding coap_get_version
get_version-Stops p = search memory_stops depth 20

pub get_type-Stops : (p : Pdu) → Stops (coap_get_type p)
unfolding coap_get_type
get_type-Stops p = search memory_stops depth 20

pub get_tkl-Stops : (p : Pdu) → Stops (coap_get_tkl p)
unfolding coap_get_tkl
get_tkl-Stops p = search memory_stops depth 20

pub get_code-Stops : (p : Pdu) → Stops (coap_get_code p)
unfolding coap_get_code
get_code-Stops p = search memory_stops depth 20

pub get_code_class-Stops : (p : Pdu) → Stops (coap_get_code_class p)
unfolding coap_get_code_class
get_code_class-Stops p = search memory_stops depth 20

pub get_mid-Stops : (p : Pdu) → Stops (coap_get_mid p)
unfolding coap_get_mid
get_mid-Stops p = search memory_stops depth 20

pub get_token-Stops : (p : Pdu) → Stops (coap_get_token p)
unfolding coap_get_token
get_token-Stops p = search memory_stops depth 20

pub set_version-Stops : (p : Pdu) (ver : ℕ) → Stops (coap_set_version p ver)
unfolding coap_set_version
set_version-Stops p ver = search memory_stops depth 20

pub set_type-Stops : (p : Pdu) (mtype : ℕ) → Stops (coap_set_type p mtype)
unfolding coap_set_type
set_type-Stops p mtype = search memory_stops depth 20

pub set_code-Stops : (p : Pdu) (code : ℕ) → Stops (coap_set_code p code)
unfolding coap_set_code
set_code-Stops p code = search memory_stops depth 20

pub set_mid-Stops : (p : Pdu) (mid : ℕ) → Stops (coap_set_mid p mid)
unfolding coap_set_mid
set_mid-Stops p mid = search memory_stops depth 20

put_token-Stops : (p : Pdu) (token tkl : ℕ) → Stops (put_token p token tkl)
unfolding put_token
put_token-Stops p token tkl = search (memory_stops, get_tkl-Stops) depth 20

pub set_token-Stops : (p : Pdu) (token tkl : ℕ) → Stops (coap_set_token p token tkl)
unfolding coap_set_token
set_token-Stops p token tkl = search (memory_stops, get_tkl-Stops, put_token-Stops) depth 20

pub init_pdu-Stops : (p : Pdu) → Stops (coap_init_pdu p)
unfolding coap_init_pdu
init_pdu-Stops p =
    search
      (
        memory_stops, set_version-Stops, set_type-Stops, set_token-Stops, set_code-Stops,
        set_mid-Stops,
      )
      depth 20

pub ruleset field_stops = (
  memory_stops, get_version-Stops, get_type-Stops, get_tkl-Stops, get_code-Stops,
  get_code_class-Stops, get_mid-Stops, get_token-Stops, set_version-Stops, set_type-Stops,
  set_code-Stops, set_mid-Stops, set_token-Stops, init_pdu-Stops,
)
