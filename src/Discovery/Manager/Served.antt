-- ===== src/Discovery/Manager/Served.antt =====
-- The CLAs that a payload of announcements makes.
use ma_sinafadavi_iran.Prelude.{String, ◌≡◌, ◌≢◌, true, false, List, [], ◌∷◌, ◌++◌, ◌⊎◌}
use ma_sinafadavi_iran.Bpv7.Endpoint.{EndpointId}
use ma_sinafadavi_iran.Bpv7.Endpoint.Node.{same_node}
use ma_sinafadavi_iran.Cla.Types.{mtcp, quicl}
use ma_sinafadavi_iran.Cla.Manager.{Cla, Manager, check_present}
use ma_sinafadavi_iran.Discovery.Announcement.{Announcement}
use ma_sinafadavi_iran.Discovery.Manager.{Texts, mtcp_client, dialer_endpoint}

module _ (texts : Texts) (own : EndpointId) (addr : String) where
  -- A CLA for an announcement of another node: a client of MTCP that knows the node, or a dialer of QUICL.
  abbrev pub IsFor : Announcement → Cla → Type 0
  IsFor a c =
      (same_node texts.decimal own a.endpoint ≡ false)
      × (((a.cla_type ≡ mtcp) × (c ≡ mtcp_client (texts.host_port addr a.port) a.endpoint))
          ⊎ ((a.cla_type ≡ quicl) × (c ≡ dialer_endpoint (texts.host_port addr a.port))))

  -- An announcement of the own node, or of a type that discovery makes no CLA for.
  abbrev pub IsPassedOver : Announcement → Type 0
  IsPassedOver a =
      (same_node texts.decimal own a.endpoint ≡ true) ⊎ ((a.cla_type ≢ mtcp) × (a.cla_type ≢ quicl))

  abbrev pub IsServed : Manager → Announcement → Type 0
  IsServed m a = IsPassedOver a ⊎ ((c : Cla) × IsFor a c × (check_present m c ≡ true))

  -- CLAs that are for different announcements of a list, in its order.
  pub data AreFor : List Announcement → List Cla → Type 0 where
    none_left : AreFor [] []
    passed :
        {a : Announcement} {others : List Announcement} {cs : List Cla}
        → AreFor others cs
        → AreFor (a ∷ others) cs
    started :
        {a : Announcement} {others : List Announcement} {c : Cla} {cs : List Cla}
        → IsFor a c
        → AreFor others cs
        → AreFor (a ∷ others) (c ∷ cs)

  -- What the handling of a list of announcements does to the manager.
  abbrev HasStarted : Manager → List Announcement → Manager → Type 0
  HasStarted m announcements after =
      (new : List Cla) × (after ≡ record m { pending_start = m.pending_start ++ new })
      × AreFor announcements new
