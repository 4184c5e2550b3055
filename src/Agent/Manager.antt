-- ===== src/Agent/Manager.antt =====
-- dtnd7-go/pkg/application_agent/agent_manager.go. ApplicationAgent is an interface, so an agent is a
-- state of any type with the operations that agent.go names; the map of agents is an association list.
use ma_sinafadavi_iran.Prelude.{
  ◌≡◌, refl, String, Bool, true, false, Option, none, some, List, [], ◌∷◌, ◌++◌, arith, string_eq,
  ==_refl, find, put, erase, find-put,
}
use ma_sinafadavi_iran.Bpv7.Endpoint.{EndpointId}
use ma_sinafadavi_iran.Bpv7.Bundle.{Bundle}
use ma_sinafadavi_iran.Bpv7.BundleId.{BundleId, bundle_id}
use ma_sinafadavi_iran.Store.Descriptor.{BundleDescriptor}
use ma_sinafadavi_iran.Store.Bundles.{BundleStore}
use ma_sinafadavi_iran.Agent.Mailbox.{AgentError}
use ma_sinafadavi_iran.IdKeeper.{Keeper, update}

-- The methods of ApplicationAgent.
pub record AgentOperations {ℓ} (S : Type ℓ) : Type ℓ where
  pub name : S → String
  pub endpoints : S → List EndpointId
  pub deliver : BundleStore → S → BundleDescriptor → S × Option AgentError
  pub start : S → S × Bool
  pub collect : BundleStore → S → S

pub data ManagerError : Type 0 where
  agent_already_registered no_such_agent : String → ManagerError
  start_failed : ManagerError

module _ {ℓ} {S : Type ℓ} (agent : AgentOperations S) where
  register_started : List (String × S) → String → S × Bool → List (String × S) × Option ManagerError
  register_started agents agent_name (a, true) = (put agent_name a agents, none)
  register_started agents agent_name (a, false) = (agents, some start_failed)

  register_absent : List (String × S) → S → Option S → List (String × S) × Option ManagerError
  unfolding register_started
  register_absent agents new_agent (some _) =
      (agents, some (agent_already_registered (agent.name new_agent)))
  register_absent agents new_agent none =
      register_started agents (agent.name new_agent) (agent.start new_agent)

  -- RegisterAgent
  unfoldable pub register_agent : List (String × S) → S → List (String × S) × Option ManagerError
  unfolding register_absent
  register_agent agents new_agent =
      register_absent agents new_agent (find (agent.name new_agent) agents)

  -- UnregisterAgent, once the name is looked up. Whose Shutdown is called is the third part.
  unregister_found :
      List (String × S) → String → Option S → List (String × S) × Option ManagerError × Option S
  unregister_found agents agent_name none = (agents, some (no_such_agent agent_name), none)
  unregister_found agents agent_name (some a) = (erase agent_name agents, none, some a)

  unfoldable pub unregister_agent :
      List (String × S) → String → List (String × S) × Option ManagerError × Option S
  unfolding unregister_found
  unregister_agent agents agent_name = unregister_found agents agent_name (find agent_name agents)

  -- GetEndpoints
  unfoldable pub get_endpoints : List (String × S) → List EndpointId
  get_endpoints [] = []
  get_endpoints ((_, a) ∷ agents) = agent.endpoints a ++ get_endpoints agents

  -- Delivery: an error of an agent is only logged.
  unfoldable pub delivery : BundleStore → List (String × S) → BundleDescriptor → List (String × S)
  delivery bst [] d = []
  delivery bst ((agent_name, a) ∷ agents) d =
      (agent_name, (agent.deliver bst a d).0) ∷ delivery bst agents d

  -- GC, once the goroutines that it starts have run.
  unfoldable pub collect_agents : BundleStore → List (String × S) → List (String × S)
  collect_agents bst [] = []
  collect_agents bst ((agent_name, a) ∷ agents) =
      (agent_name, agent.collect bst a) ∷ collect_agents bst agents

  -- shutdown: the map is emptied, and the agents that it had are shut down.
  unfoldable pub shutdown_agents : List (String × S) → List (String × S) × List S
  shutdown_agents [] = ([], [])
  shutdown_agents ((_, a) ∷ agents) = let rest = shutdown_agents agents in (rest.0, a ∷ rest.1)

  erase-put :
      (agent_name : String) (a : S) (agents : List (String × S))
      → find agent_name agents ≡ none
      → erase agent_name (put agent_name a agents) ≡ agents
  erase-put agent_name a [] h = ground (arith, ==_refl agent_name)
  erase-put agent_name a ((other, x) ∷ agents) h = ground (arith, erase-put agent_name a agents)

  -- An agent whose name is not registered, and that starts, is registered as it is when it has started:
  -- then RegisterAgent refuses every agent of that name and changes nothing, and UnregisterAgent of the
  -- name shuts the agent down and leaves the agents that were there before.
  pub unregister_agent-register_agent :
      (agents : List (String × S)) (new_agent started other : S)
      → find (agent.name new_agent) agents ≡ none
      → agent.start new_agent ≡ (started, true)
      → agent.name other ≡ agent.name new_agent
      → let r = register_agent agents new_agent in
        (r.1 ≡ none)
        × (register_agent r.0 other ≡ (r.0, some (agent_already_registered (agent.name other))))
        × (unregister_agent r.0 (agent.name new_agent) ≡ (agents, none, some started))
  unfolding register_agent register_absent register_started unregister_agent unregister_found
  unregister_agent-register_agent agents new_agent started other absent starts same =
      let there = find-put (agent.name new_agent) started agents in
      let gone = erase-put (agent.name new_agent) started agents absent in
      rw (absent, starts) (refl, simp (same, there), simp (there, gone))

-- Manager.Send: the bundle that goes to the callback, and its id.
unfoldable pub send : Keeper → Bundle → Keeper × Bundle × BundleId
unfolding update bundle_id
send keeper b = let r = update keeper b in (r.0, r.1, bundle_id r.1)
