-- ===== src/Client/Message/Wanted.antt =====
-- The requests that the builders of src/exosite.c are for, as messages of the wire format.
use libexositecoap.Common.{ℕ, ◌+◌, List, [], ◌∷◌, u16}
use libexositecoap.Coap.Pdu.{ct_con, cc_get, cc_post, con_observe, con_uri_path, con_uri_query}
use libexositecoap.Coap.Wire.{Opt, Message}
use libexositecoap.Coap.Fields.{le_bytes}
use libexositecoap.Pal.{Pal}
use libexositecoap.Client.State.{Client}
use libexositecoap.Client.Message.{str_1a, str_provision, str_activate}
use mathlib.Core.Option.{Option, none, some}

-- A confirmable request with the token of two bytes.
abbrev pub request_message : ℕ → ℕ → ℕ → List Opt → Option (List ℕ) → Message
request_message code mid token options payload = record {
  mtype = ct_con;
  code = code;
  mid = mid;
  token = le_bytes 2 token;
  options = options;
  payload = payload;
}

abbrev pub uri_path : List ℕ → Opt
uri_path s = record { num = con_uri_path; val = s }

abbrev pub uri_query : List ℕ → Opt
uri_query s = record { num = con_uri_query; val = s }

-- A request is for the resource `1a/alias`, with the CIK as the query.
abbrev pub read_request : ℕ → ℕ → List ℕ → List ℕ → Message
read_request mid token name key =
    request_message cc_get mid token (uri_path str_1a ∷ uri_path name ∷ uri_query key ∷ []) none

-- An Observe option of one byte 0 asks for notifications.
abbrev pub observe : Opt
observe = record { num = con_observe; val = 0 ∷ [] }

abbrev pub observe_request : ℕ → ℕ → List ℕ → List ℕ → Message
observe_request mid token name key =
    request_message cc_get mid token
      (observe ∷ uri_path str_1a ∷ uri_path name ∷ uri_query key ∷ []) none

abbrev pub write_request : ℕ → ℕ → List ℕ → List ℕ → List ℕ → Message
write_request mid token name key text =
    request_message cc_post mid token (uri_path str_1a ∷ uri_path name ∷ uri_query key ∷ [])
      (some text)

abbrev pub activate_request : ℕ → ℕ → List ℕ → List ℕ → List ℕ → Message
activate_request mid token vendor model serial =
    request_message cc_post mid token
      (uri_path str_provision
        ∷ uri_path str_activate
        ∷ uri_path vendor
        ∷ uri_path model
        ∷ uri_path serial
        ∷ [])
      none

-- The counter moves on, and one random number is drawn.
abbrev pub requested : {W : Type 0} → Pal W → Client W → Client W
requested pal c = record c {
  message_id_counter = u16 (c.message_id_counter + 1);
  world = (pal.rand c.world).1;
}
