-- ===== src/Client/Receive/Match.antt =====
-- Which operation takes a datagram: the loop over the operations in
-- `exo_process_waiting_datagrams` of src/exosite.c.
use libexositecoap.Common.{ℕ, ◌≡◌, ◌≢◌, ◌⊎◌, inl, inr, List, ◌∷◌, Bool, arith, ok, >>=-eq-ok}
use libexositecoap.Coap.Pdu.{Pdu, ct_con, ct_non, ct_ack, ct_rst}
use libexositecoap.Coap.Fields.{coap_get_mid, coap_get_token}
use libexositecoap.Pal.{Pal}
use libexositecoap.Client.State.{Client}
use libexositecoap.Client.Op.{Op, request_pending, request_subscribed}
use libexositecoap.Client.Handlers.{Verdict, pass, claim, on_notify, on_ack, on_reset}
use libexositecoap.Client.Receive.{on_datagram, take_message, reactivate, scan_ops}
use mathlib.Core.Option.{Option, some, none}

module _ {W : Type 0} (pal : Pal W) (c c' : Client W) (p : Pdu) (op op' : Op) (u : Bool) where
  pub on_notify-claim :
      on_notify pal p c op ≡ ok (claim op' c' u)
      → (op.state ≡ request_subscribed) × (coap_get_token p ≡ ok op.token)
  unfolding on_notify
  on_notify-claim e = grind arith

  pub on_ack-claim :
      on_ack pal p c op ≡ ok (claim op' c' u)
      → (op.state ≡ request_pending) × (coap_get_mid p ≡ ok op.mid)
  unfolding on_ack
  on_ack-claim e = grind arith

  pub on_reset-claim :
      on_reset pal p c op ≡ ok (claim op' c' u)
      → ((op.state ≡ request_pending) ⊎ (op.state ≡ request_subscribed))
        × (coap_get_mid p ≡ ok op.mid)
        × (coap_get_token p ≡ ok op.token)
  unfolding on_reset
  on_reset-claim e = grind arith

-- What a datagram and an operation have in common that takes it: its token and a running
-- subscription for a notification, its message id and a waiting request for an answer, and both for
-- a reset.
pub Matches : ℕ → Pdu → Op → Type 0
Matches mtype p op =
    (((mtype ≡ ct_con) ⊎ (mtype ≡ ct_non))
      × (op.state ≡ request_subscribed)
      × (coap_get_token p ≡ ok op.token))
    ⊎ ((mtype ≡ ct_ack) × (op.state ≡ request_pending) × (coap_get_mid p ≡ ok op.mid))
    ⊎ ((mtype ≡ ct_rst)
        × ((op.state ≡ request_pending) ⊎ (op.state ≡ request_subscribed))
        × (coap_get_mid p ≡ ok op.mid)
        × (coap_get_token p ≡ ok op.token))

module _ {W : Type 0} (pal : Pal W) (c c' : Client W) (p : Pdu) where
  pub on_datagram-cases :
      (mtype : ℕ) (op : Op) (v : Verdict W)
      → v ≢ pass
      → on_datagram pal mtype p c op ≡ ok v
      → (((mtype ≡ ct_con) ⊎ (mtype ≡ ct_non)) × (on_notify pal p c op ≡ ok v))
        ⊎ ((mtype ≡ ct_ack) × (on_ack pal p c op ≡ ok v))
        ⊎ ((mtype ≡ ct_rst) × (on_reset pal p c op ≡ ok v))
  unfolding on_datagram
  on_datagram-cases mtype op v taken e = ground arith

  pub on_datagram-claim :
      (mtype : ℕ) (op op' : Op) (u : Bool)
      → on_datagram pal mtype p c op ≡ ok (claim op' c' u)
      → Matches mtype p op
  unfolding Matches
  on_datagram-claim mtype op op' u e =
      elim (on_datagram-cases mtype op (claim op' c' u) (λ h. cc) e) [
        | inl (t, h) ↦ let (a, b) = on_notify-claim pal c c' p op op' u h in inl (t, a, b)
        | inr (inl (t, h)) ↦ let (a, b) = on_ack-claim pal c c' p op op' u h in inr (inl (t, a, b))
        | inr (inr (t, h)) ↦
            let (a, b, d) = on_reset-claim pal c c' p op op' u h in inr (inr (t, a, b, d))
      ]

  -- The head takes the datagram, or it passes by and the rest of the scan takes it.
  pub take_message-cases :
      (mtype : ℕ) (op : Op) (ops ops' : List Op) (u : Bool)
      → take_message pal mtype p c (op ∷ ops) ≡ ok (some (ops', c', u))
      → ((op' : Op) × (on_datagram pal mtype p c op ≡ ok (claim op' c' u)) × (ops' ≡ op' ∷ ops))
        ⊎ ((rest : List Op) × (on_datagram pal mtype p c op ≡ ok pass)
            × (take_message pal mtype p c ops ≡ ok (some (rest, c', u)))
            × (ops' ≡ op ∷ rest))
  unfolding take_message
  take_message-cases mtype op ops ops' u e = grind arith

-- What the loop over the operations is, as a whole.
module _ {W : Type 0} (pal : Pal W) (c c' : Client W) (p : Pdu) where
  pub scan_ops-cases :
      (mtype : ℕ) (ops ops' : List Op)
      → scan_ops pal mtype p c ops ≡ ok (some (ops', c'))
      → (left : List Op) × (c₁ : Client W) × (u : Bool) × (take_message pal mtype p c ops
          ≡ ok (some (left, c₁, u)))
        × (reactivate pal u left c₁ ≡ (ops', c'))
  unfolding scan_ops
  scan_ops-cases mtype ops ops' e =
      let (found, e₁, e₂) = >>=-eq-ok (take_message pal mtype p c ops) _ e in by_found found e₁ e₂
    where
      by_found :
          (found : Option (List Op × Client W × Bool))
          → take_message pal mtype p c ops ≡ ok found
          → (elim found [
            | none ↦ ok none
            | some (left, c₁, u) ↦ ok (some (reactivate pal u left c₁))
          ])
            ≡ ok (some (ops', c'))
          → (left : List Op) × (c₁ : Client W) × (u : Bool) × (take_message pal mtype p c ops
              ≡ ok (some (left, c₁, u)))
            × (reactivate pal u left c₁ ≡ (ops', c'))
      by_found none e₁ e₂ = absurd (ground arith)
      by_found (some (left, c₁, u)) e₁ e₂ = (left, c₁, u, e₁, ground (arith, e₂))
