-- ===== src/Pal/Start.antt =====
-- `exo_init` and `exo_operate` of src/exosite.c over the layers of pal/posix and pal/template.
use libexositecoap.Common.{ℕ, ◌≡◌, ◌≤◌, ◌⊎◌, List, [], length, arith, ok, u16}
use libexositecoap.Memory.{write}
use libexositecoap.Memory.Local.{poke_within}
use libexositecoap.Coap.Pdu.{Pdu}
use libexositecoap.Pal.{Pal}
use libexositecoap.Pal.Posix.{Os, Posix, posix}
use libexositecoap.Pal.Posix
use libexositecoap.Pal.Template
use libexositecoap.Pal.Template.{template}
use libexositecoap.Client.State.{
  Client, ExoError, exo_ok, exo_fatal_error_pal, exo_error, uninitialized, initialized,
}
use libexositecoap.Client.Op.{Op}
use libexositecoap.Client.Operate.{init_socket, exo_init, exo_operate, operate_in}
use mathlib.Core.Option.{Option, none}

module _ {W : Type 0} (pal : Pal W) (c c' : Client W) (v m s : Option (List ℕ)) where
  -- On any platform: if `exo_init` returns, it answers EXO_OK and the device is initialized, or it
  -- answers EXO_FATAL_ERROR_PAL, the device is uninitialized and `exo_operate` does nothing and
  -- answers EXO_ERROR.
  pub init-operate :
      (e : ExoError) (fuel : ℕ) (pdu : Pdu) (ops : List Op)
      → exo_init pal c v m s ≡ ok (e, c')
      → ((e ≡ exo_ok) × (c'.device_state ≡ initialized))
        ⊎ ((e ≡ exo_fatal_error_pal)
            × (c'.device_state ≡ uninitialized)
            × (exo_operate pal fuel pdu c' ops ≡ ok (exo_error, ops, c')))
  unfolding exo_init init_socket exo_operate operate_in
  init-operate e fuel pdu ops h = ground arith

retrieve_no_file :
    {W : Type 0} (os : Os W) (s : Posix W)
    → (os.fopen_read s.system).0 ≡ none
    → Posix.exopal_retrieve_cik os s ≡ (2, [], record s { system = (os.fopen_read s.system).1 })
unfolding Posix.exopal_retrieve_cik
retrieve_no_file os s e = rw (e, Posix.exopal_retrieve_cik)

-- Without a file that holds the CIK, over POSIX, `exo_init` fails, so that a new device never gets
-- to activate.
pub init-no_file :
    {W : Type 0} (os : Os W) (c : Client (Posix W)) (v m s : Option (List ℕ))
    → ((w : W) → (os.fopen_read w).0 ≡ none)
    → (c' : Client (Posix W)) × (exo_init (posix os) c v m s ≡ ok (exo_fatal_error_pal, c'))
unfolding exo_init posix Posix.exopal_init write
init-no_file os c v m s none_there =
    let (r, w) = os.rand (os.srand_time c.world.system) in
    (
      record c {
        vendor = v;
        model = m;
        serial = s;
        message_id_counter = u16 r;
        device_state = uninitialized;
        world = record c.world { system = (os.fopen_read w).1 };
      },
      rw (retrieve_no_file os (record c.world { system = w }) (none_there w)),
    )

-- Over the layer of the template `exo_init` fails, if the CIK has its 41 bytes.
pub init-template :
    {W : Type 0} (seed : W → W) (rand : W → ℕ × W) (c : Client W) (v m s : Option (List ℕ))
    → 41 ≤ length c.cik
    → (c' : Client W) × (exo_init (template seed rand) c v m s ≡ ok (exo_fatal_error_pal, c'))
unfolding exo_init init_socket template Template.exopal_init Template.exopal_retrieve_cik write
    Template.exopal_udp_sock
init-template seed rand c v m s room =
    let (r, w) = rand (seed c.world) in
    let (ys, e) = poke_within c.cik 40 0 (omega arith) in
    (
      record c {
        cik = ys;
        vendor = v;
        model = m;
        serial = s;
        message_id_counter = u16 r;
        device_state = uninitialized;
        world = w;
      },
      rw e,
    )
