-- ===== src/Cla/Manager/Reachable.antt =====
-- The manager in any sequence of its critical sections, with the goroutines of activateCLA and of
-- NotifyDisconnect that are under way.
use ma_sinafadavi_iran.Prelude.{
  String, ◌≡◌, refl, sym, subst, ◌∙◌, Bool, true, false, ◌&&◌, List, [], ◌∷◌, ◌++◌, ==→eq, ==_refl,
  arith, Bool-cases, inl, inr, All, All-map, string_eq, ◌==◌, if◌then◌else◌, is_listed,
}
use ma_sinafadavi_iran.Cla.Manager.{
  Cla, Manager, initial, without, check_present, register_async, add_if, activate_cla,
  begin_disconnect, end_disconnect, register_listener, shutdown,
}
use ma_sinafadavi_iran.Cla.Manager.Addresses.{
  Distinct, Distinct-append, Distinct-without, without-Distinct,
}
use ma_sinafadavi_iran.Cla.Manager.Lists.{
  Absent, All-append_one, All-without, All-middle, has_address-add_if, Distinct-add_if,
  Distinct-without_if, has_address-without_if, check_present-Absent,
}

-- The manager, the CLAs whose Activate is under way, and those whose removal is.
pub record System : Type 0 where
  pub manager : Manager
  pub activating : List Cla
  pub removing : List Cla

abbrev pub start : System
start = record { manager = initial; activating = []; removing = [] }

pub data Step : System → System → Type 0 where
  registers :
      (s : System) (c : Cla)
      → Step s (record s {
        manager = (register_async s.manager c).0;
        activating = if check_present s.manager c then s.activating else s.activating ++ c ∷ [];
      })
  activates :
      (s : System) (before after : List Cla) (c : Cla) (succeeded : Bool)
      → s.activating ≡ before ++ c ∷ after
      → Step s
          (record s { manager = activate_cla s.manager c succeeded; activating = before ++ after })
  begins :
      (s : System) (c : Cla)
      → Step s (record s {
        manager = (begin_disconnect s.manager c).0;
        removing = if (begin_disconnect s.manager c).1 then c ∷ s.removing else s.removing;
      })
  ends :
      (s : System) (before after : List Cla) (c : Cla)
      → s.removing ≡ before ++ c ∷ after
      → Step s (record s { manager = (end_disconnect s.manager c).0; removing = before ++ after })
  listens :
      (s : System) (listener : String) (started : Bool)
      → Step s (record s { manager = register_listener s.manager listener started })
  shuts_down : (s : System) → Step s (record s { manager = (shutdown s.manager).0 })

pub data Reachable : System → Type 0 where
  at_start : Reachable start
  step : {s t : System} → Reachable s → Step s t → Reachable t

-- No two receivers, senders or pending CLAs share an address, every pending CLA has its goroutine, and
-- none of them is in a list of its kinds.
pub record Registered (s : System) : Type 0 where
  pub receivers-Distinct : Distinct s.manager.receivers
  pub senders-Distinct : Distinct s.manager.senders
  pub pending-Distinct : Distinct s.manager.pending_start
  pub one_each : s.activating ≡ s.manager.pending_start
  pub pending-Absent : All (Absent s.manager.receivers s.manager.senders) s.manager.pending_start

register-Registered :
    (s : System) (c : Cla)
    → Registered s
    → Registered (record s {
      manager = (register_async s.manager c).0;
      activating = if check_present s.manager c then s.activating else s.activating ++ c ∷ [];
    })
unfolding register_async
register-Registered s c r = elim (Bool-cases (check_present s.manager c)) [
  | inl present ↦ rw present r
  | inr absent ↦
      let (fresh, other) = check_present-Absent s.manager c absent in
      rw absent (record {
        receivers-Distinct = r.receivers-Distinct;
        senders-Distinct = r.senders-Distinct;
        pending-Distinct = Distinct-append s.manager.pending_start c r.pending-Distinct fresh;
        one_each = rw r.one_each refl;
        pending-Absent =
            All-append_one (Absent s.manager.receivers s.manager.senders) s.manager.pending_start c
              r.pending-Absent other;
      })
]

-- An activation of a CLA leaves those of other addresses absent.
add_if-Absent :
    (c d : Cla) (x y : Bool) (receivers senders : List Cla)
    → Absent receivers senders d
    → (d.address == c.address) ≡ false
    → Absent (add_if x c receivers) (add_if y c senders) d
add_if-Absent c d x y receivers senders (h, k) apart =
    let other : (c.address == d.address) ≡ false =
      ground (arith, ==→eq c.address d.address, ==_refl c.address) in
    (
      λ e. ground (arith, has_address-add_if d.address x c receivers, h e),
      λ e. ground (arith, has_address-add_if d.address y c senders, k e),
    )

activate-Registered :
    (s : System) (before after : List Cla) (c : Cla) (succeeded : Bool)
    → s.activating ≡ before ++ c ∷ after
    → Registered s
    → Registered
        (record s { manager = activate_cla s.manager c succeeded; activating = before ++ after })
unfolding activate_cla
activate-Registered s before after c succeeded at r =
    let pending : s.manager.pending_start ≡ before ++ c ∷ after = sym r.one_each ∙ at in
    let own =
      All-middle (Absent s.manager.receivers s.manager.senders) before after c
        (subst (All (Absent s.manager.receivers s.manager.senders)) pending r.pending-Absent) in
    record {
      receivers-Distinct =
          Distinct-add_if (succeeded && c.is_receiver) c s.manager.receivers r.receivers-Distinct
            (λ e. own.0 (ground arith));
      senders-Distinct =
          Distinct-add_if (succeeded && c.is_sender) c s.manager.senders r.senders-Distinct
            (λ e. own.1 (ground arith));
      pending-Distinct = Distinct-without c.address s.manager.pending_start r.pending-Distinct;
      one_each = sym (
          subst (λ x. without c.address x ≡ before ++ after) (sym pending)
            (without-Distinct before after c (subst Distinct pending r.pending-Distinct)));
      pending-Absent =
          All-without (Absent s.manager.receivers s.manager.senders) _ c.address
            s.manager.pending_start r.pending-Absent
            (λ d h apart.
              add_if-Absent c d (succeeded && c.is_receiver) (succeeded && c.is_sender)
                s.manager.receivers s.manager.senders h apart);
    }

end-Registered :
    (s : System) (before after : List Cla) (c : Cla)
    → Registered s
    → Registered (record s { manager = (end_disconnect s.manager c).0; removing = before ++ after })
unfolding end_disconnect
end-Registered s before after c r = record {
  receivers-Distinct =
      Distinct-without_if c.is_receiver c.address s.manager.receivers r.receivers-Distinct;
  senders-Distinct = Distinct-without_if c.is_sender c.address s.manager.senders r.senders-Distinct;
  pending-Distinct = r.pending-Distinct;
  one_each = r.one_each;
  pending-Absent =
      All-map (Absent s.manager.receivers s.manager.senders) _
        (λ d h. (
          λ e. has_address-without_if c.is_receiver c.address d.address s.manager.receivers (h.0 e),
          λ e. has_address-without_if c.is_sender c.address d.address s.manager.senders (h.1 e),
        ))
        s.manager.pending_start r.pending-Absent;
}

-- The listeners and the removals under way do not matter.
other-Registered :
    (s : System) (listeners pending_removal : List String) (removing : List Cla)
    → Registered s
    → Registered (record s {
      manager = record s.manager { listeners = listeners; pending_removal = pending_removal };
      removing = removing;
    })
other-Registered s listeners pending_removal removing r = record {
  receivers-Distinct = r.receivers-Distinct;
  senders-Distinct = r.senders-Distinct;
  pending-Distinct = r.pending-Distinct;
  one_each = r.one_each;
  pending-Absent = r.pending-Absent;
}

begin-Registered :
    (s : System) (c : Cla)
    → Registered s
    → Registered (record s {
      manager = (begin_disconnect s.manager c).0;
      removing = if (begin_disconnect s.manager c).1 then c ∷ s.removing else s.removing;
    })
unfolding begin_disconnect
begin-Registered s c r = elim (Bool-cases (is_listed c.address s.manager.pending_removal)) [
  | inl present ↦ rw present r
  | inr absent ↦ rw absent (
      other-Registered s s.manager.listeners (c.address ∷ s.manager.pending_removal)
        (c ∷ s.removing) r)
]

listen-Registered :
    (s : System) (listener : String) (started : Bool)
    → Registered s
    → Registered (record s { manager = register_listener s.manager listener started })
unfolding register_listener
listen-Registered s listener true r =
    other-Registered s (s.manager.listeners ++ listener ∷ []) s.manager.pending_removal s.removing r
listen-Registered s listener false r = r

shutdown-Registered :
    (s : System) → Registered s → Registered (record s { manager = (shutdown s.manager).0 })
unfolding shutdown
shutdown-Registered s r = record {
  receivers-Distinct = tt;
  senders-Distinct = tt;
  pending-Distinct = r.pending-Distinct;
  one_each = r.one_each;
  pending-Absent =
      All-map (Absent s.manager.receivers s.manager.senders) _ (λ d h. (λ e. refl, λ e. refl))
        s.manager.pending_start r.pending-Absent;
}

-- In every sequence of its critical sections the manager has no two receivers, no two senders and no two
-- pending CLAs of one address, one activation under way for each pending CLA, and no pending CLA whose
-- address is in a list of its kinds.
pub Registered-invariant : {s : System} → Reachable s → Registered s
Registered-invariant at_start = record {
  receivers-Distinct = tt;
  senders-Distinct = tt;
  pending-Distinct = tt;
  one_each = refl;
  pending-Absent = tt;
}
Registered-invariant (step reached (registers s c)) =
    register-Registered s c (Registered-invariant reached)
Registered-invariant (step reached (activates s before after c succeeded at)) =
    activate-Registered s before after c succeeded at (Registered-invariant reached)
Registered-invariant (step reached (begins s c)) =
    begin-Registered s c (Registered-invariant reached)
Registered-invariant (step reached (ends s before after c at)) =
    end-Registered s before after c (Registered-invariant reached)
Registered-invariant (step reached (listens s listener started)) =
    listen-Registered s listener started (Registered-invariant reached)
Registered-invariant (step reached (shuts_down s)) =
    shutdown-Registered s (Registered-invariant reached)
