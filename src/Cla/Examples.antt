-- ===== src/Cla/Examples.antt =====
-- Two CLAs of one address and one of another, in a sequence of steps of the manager.
use ma_sinafadavi_iran.Prelude.{
  String, ◌≡◌, refl, true, false, [], ◌∷◌, string_eq, ◌==◌, if◌then◌else◌,
}
use ma_sinafadavi_iran.Bpv7.Endpoint.{dtn_none}
use ma_sinafadavi_iran.Cla.Manager.{
  Cla, initial, check_present, register_async, activate_cla, begin_disconnect, end_disconnect,
  has_address,
}
use ma_sinafadavi_iran.Cla.Manager.Reachable.{
  System, start, registers, activates, Reachable, at_start, step, Registered, Registered-invariant,
}
use ma_sinafadavi_iran.Cla.Manager.Disconnect.{check_present-end_disconnect, late_activation_stays}

abbrev peer_at : String → Cla
peer_at address = record {
  address = address;
  is_receiver = false;
  is_sender = true;
  peer = dtn_none;
}

abbrev first_step : System
first_step = record {
  manager = record initial { pending_start = peer_at "a:1" ∷ [] };
  activating = peer_at "a:1" ∷ [];
  removing = [];
}

abbrev second_step : System
second_step = record {
  manager = record initial { senders = peer_at "a:1" ∷ [] };
  activating = [];
  removing = [];
}

second_step-Reachable : Reachable second_step
unfolding register_async activate_cla check_present
second_step-Reachable =
    step {s = first_step} {t = second_step}
      (step {s = start} {t = first_step} at_start (registers start (peer_at "a:1")))
      (activates first_step [] [] (peer_at "a:1") true refl)

Registered-invariant_example : Registered second_step
Registered-invariant_example = Registered-invariant second_step-Reachable

check_present-end_disconnect_example :
    check_present (end_disconnect second_step.manager (peer_at "a:1")).0 (peer_at "a:1") ≡ false
check_present-end_disconnect_example =
    check_present-end_disconnect second_step.manager (peer_at "a:1") (peer_at "a:1")

late_activation_stays_example :
    let registered = (register_async initial (peer_at "b:2")).0 in
    let gone = (end_disconnect (begin_disconnect registered (peer_at "b:2")).0 (peer_at "b:2")).0 in
    let late = activate_cla gone (peer_at "b:2") true in
    (has_address "b:2" late.senders ≡ true) × (register_async late (peer_at "b:2") ≡ (late, []))
late_activation_stays_example = late_activation_stays initial (peer_at "b:2") refl

abbrev lower : String → String
lower s =
    if s == "TCPCLv4"
    then "tcpclv4"
    else if s == "MTCP"
    then "mtcp"
    else if s == "QUICL"
    then "quicl"
    else s
