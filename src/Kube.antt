-- ===== src/Kube.antt =====
-- The objects of Kubernetes that the operator reads and writes, with the fields that it touches:
-- pods, their containers and namespaces, the answers of the API server, and what the operator
-- takes from controller-runtime's controllerutil.
use model_validation_operato.Base.{
  ◌≡◌, ◌≢◌, ℕ, String, Bool, true, false, Option, none, some, List, NamespacedName,
}
use model_validation_operato.Base.Map.{Map}
use model_validation_operato.Api.{EnvVar, ResourceRequirements}

pub record VolumeMount : Type 0 where
  pub name : String
  pub mount_path : String
  pub read_only : Bool

-- An HTTP probe.
pub record Probe : Type 0 where
  pub path : String
  pub port : ℕ
  pub initial_delay_seconds : ℕ
  pub period_seconds : ℕ

pub record SecurityContext : Type 0 where
  pub run_as_non_root : Option Bool
  pub read_only_root_filesystem : Option Bool
  pub allow_privilege_escalation : Option Bool
  pub seccomp_profile : String
  pub drop_capabilities : List String

pub record Container : Type 0 where
  pub name : String
  pub image : String
  pub image_pull_policy : String
  pub command : List String
  pub args : List String
  pub env : List EnvVar
  pub volume_mounts : List VolumeMount
  pub resources : ResourceRequirements
  pub restart_policy : Option String
  pub readiness_probe : Option Probe
  pub liveness_probe : Option Probe
  pub security_context : Option SecurityContext

-- A volume that is an empty directory has its size limit; any other volume has none here.
pub record Volume : Type 0 where
  pub name : String
  pub empty_dir_size : Option String

pub record Pod : Type 0 where
  pub name : String
  pub namespace : String
  pub uid : String
  pub labels : Map String String
  pub annotations : Map String String
  pub finalizers : List String
  pub creation_timestamp : ℕ
  pub deletion_timestamp : Option ℕ
  pub volumes : List Volume
  pub init_containers : List Container
  pub containers : List Container

pub record Namespace : Type 0 where
  pub name : String
  pub labels : Map String String

-- What `client.Get` gives: `errors.IsNotFound` tells the second from the third.
pub data Fetch {ℓ} (A : Type ℓ) : Type ℓ where
  found : A → Fetch A
  not_found : Fetch A
  failed : String → Fetch A

-- controllerutil.ContainsFinalizer, AddFinalizer and RemoveFinalizer, on the list of finalizers.
pub record Finalizers : Type 0 where
  pub contains : String → List String → Bool
  pub add : String → List String → List String
  pub remove : String → List String → List String

-- What their documentation says.
pub record IsLawful (F : Finalizers) : Type 0 where
  pub contains-add : (f : String) (fs : List String) → F.contains f (F.add f fs) ≡ true
  pub contains-add_ne :
      (f g : String) (fs : List String) → g ≢ f → F.contains g (F.add f fs) ≡ F.contains g fs
  pub contains-remove : (f : String) (fs : List String) → F.contains f (F.remove f fs) ≡ false
  pub contains-remove_ne :
      (f g : String) (fs : List String) → g ≢ f → F.contains g (F.remove f fs) ≡ F.contains g fs

-- controllerutil.CreateOrUpdate on the objects of one kind: the object under a key, and the call
-- with its key, the function that changes the object, and the object to start from. It gives the
-- error, and what the API server has then.
pub record Upsert (Object Store : Type 0) : Type 0 where
  pub lookup : NamespacedName → Store → Option Object
  pub create_or_update : NamespacedName → (Object → Object) → Object → Store → Option String × Store

-- The object that CreateOrUpdate changes: the one that is there, or the given one.
abbrev pub found_or : {A : Type 0} → Option A → A → A
found_or (some o) given = o
found_or none given = given

-- Documented: without an error the changed object is there, and no other object has changed.
pub record IsUpsert {Object Store : Type 0} (U : Upsert Object Store) : Type 0 where
  pub stored :
      (key : NamespacedName) (change : Object → Object) (given : Object) (store : Store)
      → (U.create_or_update key change given store).0 ≡ none
      → U.lookup key (U.create_or_update key change given store).1
        ≡ some (change (found_or (U.lookup key store) given))
  pub others :
      (key other : NamespacedName) (change : Object → Object) (given : Object) (store : Store)
      → other ≢ key
      → U.lookup other (U.create_or_update key change given store).1 ≡ U.lookup other store
