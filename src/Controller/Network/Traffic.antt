-- ===== src/Controller/Network/Traffic.antt =====
-- internal/controller/networkpolicy.go: which connections the installed policy lets through.
use model_validation_operato.Base.{
  ◌≡◌, ◌≢◌, ◌∙◌, ℕ, String, Bool, true, false, ◌&&◌, ◌||◌, none, some, [], ◌∷◌, any, ◌==◌,
  string_eq, nat_eq, option_eq, arith, NamespacedName, Among, here, there,
}
use model_validation_operato.Base.Map
use model_validation_operato.Base.Map.{Map}
use model_validation_operato.Kube.{Upsert, IsUpsert, found_or}
use model_validation_operato.Controller.Network.{
  Protocol, tcp, udp, NetworkPolicyPeer, NetworkPolicyRule, NetworkPolicySpec, NetworkPolicy,
  network_policy_spec, ingress_type, egress_type, policy_key, new_policy, apply_policy,
  install_network_policy,
}
use model_validation_operato.Base.{ap, not}

-- The other end of a connection: the labels of its pod and of the pod's namespace, and whether that
-- is the namespace of the policy; the node on which the pod with the policy runs; or an address
-- outside the cluster.
pub data End : Type 0 where
  pod_end : (own_namespace : Bool) (pod_labels namespace_labels : Map String String) → End
  node : End
  external : End

abbrev pub is_node : End → Bool
is_node node = true
is_node external = false
is_node (pod_end own pod ns) = false

pub record Connection : Type 0 where
  pub end : End
  pub port : ℕ
  pub protocol : Protocol

abbrev same_protocol : Protocol → Protocol → Bool
same_protocol tcp tcp = true
same_protocol udp udp = true
same_protocol tcp udp = false
same_protocol udp tcp = false

-- Match labels select what has all of them.
unfoldable pub selects : Map String String → Map String String → Bool
selects [] labels = true
selects ((key, value) ∷ rest) labels =
    let others = selects rest labels in (Map.get key labels == some value) && others

-- A peer with a pod selector alone is the pods of the policy's namespace that it selects, one with
-- a namespace selector alone all the pods of the namespaces, and one with both their pods that it
-- selects.
abbrev pub is_peer : End → NetworkPolicyPeer → Bool
is_peer external peer = false
is_peer node peer = false
is_peer (pod_end own pod ns) peer = elim peer.pod_selector [
  | none ↦ elim peer.namespace_selector [ none ↦ false | some n ↦ selects n ns ]
  | some p ↦ elim peer.namespace_selector [
    | none ↦ own && selects p pod
    | some n ↦ selects n ns && selects p pod
  ]
]

-- A rule without peers is about all of them.
abbrev pub rule_admits : Connection → NetworkPolicyRule → Bool
rule_admits c rule =
    (elim rule.peers [ [] ↦ true | ◌∷◌ p ps ↦ any (is_peer c.end) rule.peers ])
    && any (λ p. (p.port == c.port) && same_protocol p.protocol c.protocol) rule.ports

-- The network plugin, which enforces policies: does a pod with these labels, in a namespace with
-- this policy alone, accept a connection, and may it open one?
pub record NetworkPlugin : Type 0 where
  pub accepts : NetworkPolicySpec → Map String String → Connection → Bool
  pub opens : NetworkPolicySpec → Map String String → Connection → Bool

-- Documented: a pod that the policy does not select is not restricted by it, the node of a pod is
-- always let through, and in a direction of its types a policy lets the pods that it selects do what
-- one of its rules admits.
pub record IsEnforcing (P : NetworkPlugin) : Type 0 where
  pub by_ingress :
      (spec : NetworkPolicySpec) (labels : Map String String) (c : Connection)
      → Among ingress_type spec.policy_types
      → P.accepts spec labels c ≡ (
          is_node c.end
          || not (selects spec.pod_selector labels)
          || any (rule_admits c) spec.ingress)
  pub by_egress :
      (spec : NetworkPolicySpec) (labels : Map String String) (c : Connection)
      → Among egress_type spec.policy_types
      → P.opens spec labels c ≡ (
          is_node c.end
          || not (selects spec.pod_selector labels)
          || any (rule_admits c) spec.egress)

-- The labels of the operator's pods.
unfoldable pub is_operators : Map String String → Bool
is_operators labels =
    (Map.get "control-plane" labels == some "controller-manager")
    && (Map.get "app.kubernetes.io/name" labels == some "model-validation-operator")

selects-is_operators :
    (labels : Map String String)
    → selects network_policy_spec.pod_selector labels ≡ is_operators labels
unfolding network_policy_spec selects is_operators
selects-is_operators labels = ground arith

abbrev is_own : End → Bool
is_own external = false
is_own node = false
is_own (pod_end own pod ns) = own

abbrev in_namespace_with : String → String → End → Bool
in_namespace_with key value external = false
in_namespace_with key value node = false
in_namespace_with key value (pod_end own pod ns) = Map.get key ns == some value

-- The webhook is open to everyone, the probes to the operator's namespace, and the metrics to it
-- and to the namespaces that are labelled for them.
unfoldable pub may_come : Connection → Bool
may_come c =
    same_protocol c.protocol tcp
    && ((c.port == 9443)
        || ((c.port == 8081) && is_own c.end)
        || ((c.port == 8443) && (is_own c.end || in_namespace_with "metrics" "enabled" c.end)))

-- Names are looked up in the namespaces of the two resolvers, and everything else that leaves goes
-- to port 443 or 6443.
unfoldable pub may_go : Connection → Bool
may_go c =
    ((c.port == 53)
      && (in_namespace_with "kubernetes.io/metadata.name" "kube-system" c.end
          || in_namespace_with "kubernetes.io/metadata.name" "openshift-dns" c.end))
    || (same_protocol c.protocol tcp && ((c.port == 443) || (c.port == 6443)))

admits-may_come :
    (end : End) (port : ℕ) (protocol : Protocol)
    → let c : Connection = record { end = end; port = port; protocol = protocol } in
      any (rule_admits c) network_policy_spec.ingress ≡ may_come c
unfolding network_policy_spec may_come selects
admits-may_come node port tcp = ground arith
admits-may_come node port udp = ground arith
admits-may_come external port tcp = ground arith
admits-may_come external port udp = ground arith
admits-may_come (pod_end own pod ns) port tcp = ground arith
admits-may_come (pod_end own pod ns) port udp = ground arith

admits-may_go :
    (end : End) (port : ℕ) (protocol : Protocol)
    → let c : Connection = record { end = end; port = port; protocol = protocol } in
      any (rule_admits c) network_policy_spec.egress ≡ may_go c
unfolding network_policy_spec may_go selects
admits-may_go node port tcp = ground arith
admits-may_go node port udp = ground arith
admits-may_go external port tcp = ground arith
admits-may_go external port udp = ground arith
admits-may_go (pod_end own pod ns) port tcp = ground arith
admits-may_go (pod_end own pod ns) port udp = ground arith

module _ {Store : Type 0} (U : Upsert NetworkPolicy Store) (lawful : IsUpsert U) (P : NetworkPlugin)
    (enforcing : IsEnforcing P) where
  -- When the policy is installed without an error, whatever policy was there before under its name, a
  -- policy is there with which the pods that carry the operator's two labels accept exactly the
  -- connections of `may_come` and open exactly those of `may_go`, beside those with their own node.
  -- All other pods accept and open every connection as far as this policy is concerned, and no other
  -- policy has changed.
  pub install_network_policy_lem :
      (namespace : String) (store : Store)
      → (install_network_policy U namespace store).0 ≡ none
      → (np : NetworkPolicy) × (U.lookup
            (policy_key namespace)
            (install_network_policy U namespace store).1
          ≡ some np)
        × ((labels : Map String String) (c : Connection)
            → P.accepts np.spec labels c
              ≡ (is_node c.end || not (is_operators labels) || may_come c))
        × ((labels : Map String String) (c : Connection)
            → P.opens np.spec labels c ≡ (is_node c.end || not (is_operators labels) || may_go c))
        × ((other : NamespacedName)
            → other ≢ policy_key namespace
            → U.lookup other (install_network_policy U namespace store).1 ≡ U.lookup other store)
  unfolding install_network_policy apply_policy network_policy_spec
  install_network_policy_lem namespace store h = (
    apply_policy (found_or (U.lookup (policy_key namespace) store) (new_policy namespace)),
    lawful.stored (policy_key namespace) apply_policy (new_policy namespace) store h,
    λ labels c.
        enforcing.by_ingress network_policy_spec labels c (here _)
        ∙ ap (λ b. is_node c.end || not b || any (rule_admits c) network_policy_spec.ingress)
            (selects-is_operators labels)
        ∙ ap (λ b. is_node c.end || not (is_operators labels) || b)
            (admits-may_come c.end c.port c.protocol),
    λ labels c.
        enforcing.by_egress network_policy_spec labels c (there _ _ (here _))
        ∙ ap (λ b. is_node c.end || not b || any (rule_admits c) network_policy_spec.egress)
            (selects-is_operators labels)
        ∙ ap (λ b. is_node c.end || not (is_operators labels) || b)
            (admits-may_go c.end c.port c.protocol),
    λ other differs.
        lawful.others (policy_key namespace) other apply_policy (new_policy namespace) store
          differs,
  )
