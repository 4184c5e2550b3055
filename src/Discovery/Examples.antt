-- ===== src/Discovery/Examples.antt =====
-- Two announcements, one of the node itself.
use ma_sinafadavi_iran.Prelude.{ℕ, zero, suc, ◌≡◌, refl, List, [], ◌∷◌, arith, All}
use ma_sinafadavi_iran.Bpv7.Outcome.{ok}
use ma_sinafadavi_iran.Bpv7.Endpoint.{marshal_eid, eid_faults, dtn_none}
use ma_sinafadavi_iran.Bpv7.Examples.{node}
use ma_sinafadavi_iran.Bpv7.Decode.Examples.{wire, wire_reader, wire-Inverse}
use ma_sinafadavi_iran.Cla.Manager.{Cla, Manager, initial}
use ma_sinafadavi_iran.Cla.Types.{is_valid_type}
use ma_sinafadavi_iran.Discovery.Announcement.{
  Announcement, IsDecodableAnnouncement, marshal_announcements, unmarshal_announcements,
  unmarshal_announcements-marshal_announcements,
}
use ma_sinafadavi_iran.Discovery.Manager.{Texts, mtcp_client}

abbrev two : List Announcement
two =
    record { cla_type = 10; endpoint = node 2; port = 4556 }
    ∷ record { cla_type = 20; endpoint = node 1; port = 35037 }
    ∷ []

packet : List ℕ
unfolding marshal_announcements marshal_eid eid_faults
packet = elim (marshal_announcements wire two) [ ok bytes ↦ bytes | _ ↦ [] ]

two-IsDecodable : All (IsDecodableAnnouncement wire_reader) two
unfolding is_valid_type
two-IsDecodable = (
  (omega arith, refl, (omega arith, omega arith), omega arith),
  ((omega arith, refl, (omega arith, omega arith), omega arith), tt),
)

unmarshal_announcements-marshal_announcements_example :
    unmarshal_announcements wire_reader packet ≡ ok two
unfolding packet
unmarshal_announcements-marshal_announcements_example =
    unmarshal_announcements-marshal_announcements wire wire_reader wire-Inverse two packet
      two-IsDecodable (omega arith) (omega arith) refl

abbrev texts : Texts
texts = record {
  decimal = λ n. elim n [ zero ↦ "0" | suc zero ↦ "1" | suc (suc _) ↦ "2" ];
  host_port = λ host _. host;
  bracketed = λ host. host;
}

abbrev busy : Manager
busy = record initial { senders = mtcp_client "10.0.0.9" dtn_none ∷ [] }
