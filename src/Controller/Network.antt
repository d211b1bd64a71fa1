-- ===== src/Controller/Network.antt =====
-- internal/controller/networkpolicy.go: the NetworkPolicy of the operator's own pods.
pub mod Traffic
use model_validation_operato.Base.{ℕ, String, Option, none, some, List, [], ◌∷◌, NamespacedName}
use model_validation_operato.Base.Map.{Map}
use model_validation_operato.Kube.{Upsert}

pub data Protocol : Type 0 where
  tcp udp : Protocol

pub record NetworkPolicyPort : Type 0 where
  pub port : ℕ
  pub protocol : Protocol

-- Selectors have match labels only.
pub record NetworkPolicyPeer : Type 0 where
  pub pod_selector : Option (Map String String)
  pub namespace_selector : Option (Map String String)

-- An ingress rule with its `From`, or an egress rule with its `To`.
pub record NetworkPolicyRule : Type 0 where
  pub peers : List NetworkPolicyPeer
  pub ports : List NetworkPolicyPort

pub data PolicyType : Type 0 where
  ingress_type egress_type : PolicyType

pub record NetworkPolicySpec : Type 0 where
  pub pod_selector : Map String String
  pub policy_types : List PolicyType
  pub ingress : List NetworkPolicyRule
  pub egress : List NetworkPolicyRule

pub record NetworkPolicy : Type 0 where
  pub name : String
  pub namespace : String
  pub labels : Map String String
  pub spec : NetworkPolicySpec

abbrev on_tcp : ℕ → NetworkPolicyPort
on_tcp port = record { port = port; protocol = tcp }

abbrev own_pods : NetworkPolicyPeer
own_pods = record { pod_selector = some []; namespace_selector = none }

abbrev namespaces_with : String → String → NetworkPolicyPeer
namespaces_with key value = record {
  pod_selector = none;
  namespace_selector = some ((key, value) ∷ []);
}

unfoldable pub network_policy_spec : NetworkPolicySpec
network_policy_spec = record {
  pod_selector =
      ("control-plane", "controller-manager")
      ∷ ("app.kubernetes.io/name", "model-validation-operator")
      ∷ [];
  policy_types = ingress_type ∷ egress_type ∷ [];
  ingress =
      record { peers = []; ports = on_tcp 9443 ∷ [] }
      ∷ record { peers = own_pods ∷ []; ports = on_tcp 8081 ∷ [] }
      ∷ record {
        peers = own_pods ∷ namespaces_with "metrics" "enabled" ∷ [];
        ports = on_tcp 8443 ∷ [];
      }
      ∷ [];
  egress =
      record {
        peers =
            namespaces_with "kubernetes.io/metadata.name" "kube-system"
            ∷ namespaces_with "kubernetes.io/metadata.name" "openshift-dns"
            ∷ [];
        ports = on_tcp 53 ∷ record { port = 53; protocol = udp } ∷ [];
      }
      ∷ record { peers = []; ports = on_tcp 443 ∷ on_tcp 6443 ∷ [] }
      ∷ [];
}

abbrev pub policy_key : String → NamespacedName
policy_key namespace = record { namespace = namespace; name = "controller-manager" }

-- The object that CreateOrUpdate starts from, without its spec.
abbrev pub new_policy : String → NetworkPolicy
new_policy namespace = record {
  name = "controller-manager";
  namespace = namespace;
  labels = [];
  spec = record { pod_selector = []; policy_types = []; ingress = []; egress = [] };
}

unfoldable pub apply_policy : NetworkPolicy → NetworkPolicy
unfolding network_policy_spec
apply_policy np = record np {
  labels =
      ("app.kubernetes.io/name", "model-validation-operator")
      ∷ ("app.kubernetes.io/managed-by", "model-validation-operator")
      ∷ [];
  spec = network_policy_spec;
}

-- The error, if there is one, and what the API server has then.
unfoldable pub install_network_policy :
    {Store : Type 0} → Upsert NetworkPolicy Store → String → Store → Option String × Store
unfolding apply_policy
install_network_policy U namespace store =
    U.create_or_update (policy_key namespace) apply_policy (new_policy namespace) store
