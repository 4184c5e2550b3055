-- ===== src/Cla/Manager/Disconnect.antt =====
-- What NotifyDisconnect leaves behind, and in which order of steps it leaves too much.
use ma_sinafadavi_iran.Prelude.{
  String, ◌≡◌, refl, Bool, true, false, not, ◌&&◌, ◌||◌, List, [], ◌∷◌, ==→eq, ==_refl, arith,
  Bool-cases, inl, inr, string_eq, ◌==◌, if◌then◌else◌,
}
use ma_sinafadavi_iran.Cla.Manager.{
  Cla, Manager, has_address, without, check_present, register_async, activate_cla, begin_disconnect,
  end_disconnect, add_if,
}
use ma_sinafadavi_iran.Cla.Manager.Addresses.{has_address-append, has_address-without}

has_address-without_apart :
    (a b : String) (cs : List Cla)
    → (b == a) ≡ false
    → has_address b (without a cs) ≡ has_address b cs
has_address-without_apart a b [] h = refl
has_address-without_apart a b (c ∷ cs) h =
    ground
      (arith, has_address-without_apart a b cs h, ==→eq c.address a, ==→eq c.address b, ==_refl b)

has_address-without_if :
    (b : Bool) (a x : String) (cs : List Cla)
    → has_address x (if b then without a cs else cs) ≡ (not (b && x == a) && has_address x cs)
has_address-without_if false a x cs = refl
has_address-without_if true a x cs = elim (Bool-cases (x == a)) [
  | inl same ↦ ground (arith, ==→eq x a same, has_address-without a cs)
  | inr apart ↦ ground (arith, has_address-without_apart a x cs apart)
]

-- Behind NotifyDisconnect of a CLA another is present if it is pending, or is in the list of one of its
-- kinds as before, unless it has the address and the disconnected CLA is of that kind.
pub check_present-end_disconnect :
    (m : Manager) (c d : Cla)
    → check_present (end_disconnect m c).0 d ≡ (
        has_address d.address m.pending_start
        || (d.is_receiver
            && (not (c.is_receiver && d.address == c.address) && has_address d.address m.receivers))
        || (d.is_sender
            && (not (c.is_sender && d.address == c.address) && has_address d.address m.senders)))
unfolding check_present end_disconnect
check_present-end_disconnect m c d = simp (
  has_address-without_if c.is_receiver c.address d.address m.receivers,
  has_address-without_if c.is_sender c.address d.address m.senders,
)

sender-present :
    (m : Manager) (c : Cla)
    → c.is_sender ≡ true
    → has_address c.address m.senders ≡ true
    → check_present m c ≡ true
unfolding check_present
sender-present m c sends there = ground arith

register_async-present :
    (m : Manager) (c : Cla) → check_present m c ≡ true → register_async m c ≡ (m, [])
unfolding register_async
register_async-present m c present = rw present refl

activate_cla-senders :
    (m : Manager) (c : Cla)
    → c.is_sender ≡ true
    → has_address c.address (activate_cla m c true).senders ≡ true
unfolding activate_cla add_if
activate_cla-senders m c sends =
    ground (arith, has_address-append c.address m.senders (c ∷ []), ==_refl c.address)

-- A sender that disconnects while its activation is under way stays: behind its registration, both parts
-- of NotifyDisconnect and then the end of its activation it is a sender, and it cannot be registered again.
pub late_activation_stays :
    (m : Manager) (c : Cla)
    → c.is_sender ≡ true
    → let registered = (register_async m c).0 in
      let gone = (end_disconnect (begin_disconnect registered c).0 c).0 in
      let late = activate_cla gone c true in
      (has_address c.address late.senders ≡ true) × (register_async late c ≡ (late, []))
late_activation_stays m c sends =
    let registered = (register_async m c).0 in
    let gone = (end_disconnect (begin_disconnect registered c).0 c).0 in
    let there = activate_cla-senders gone c sends in
    (there, register_async-present _ c (sender-present _ c sends there))
