-- ===== src/Controller/Objects.antt =====
-- internal/controller/common_objects.go: what the builders of all controllers share. A map that a
-- builder writes into is a value.
use logic_operator.Prelude.{
  ℕ, String, Bool, true, List, [], ◌∷◌, text_Eq, ◌==◌, if◌then◌else◌, nat_eq,
}
use logic_operator.Prelude.Assoc.{Assoc, put, put_all}
use logic_operator.Prelude.Text.{sprintf, show_number}
use logic_operator.Api.Container.{EnvVar, literal, field_path, secret_key}

-- OwnerReference: kind, name and UID of the owner, and whether it is the controller
pub record Owner : Type 0 where
  pub kind : String
  pub name : String
  pub uid : String
  pub controller : Bool

-- metav1.Object: what a builder reads of the owner
pub record Object : Type 0 where
  pub name : String
  pub namespace : String
  pub uid : String
  pub labels : Assoc String String

-- OwnerRef, OwnerRefStandard and ownerRefStandard
unfoldable pub owner_ref : Object → String → Owner
owner_ref owner kind = record { kind = kind; name = owner.name; uid = owner.uid; controller = true }

-- ChildLabels
unfoldable pub child_labels : Object → Assoc String String
child_labels owner = put "app.kubernetes.io/part-of" "logic-platform" (
    put "app.kubernetes.io/managed-by" "logic-operator"
      (put "app.kubernetes.io/name" owner.name owner.labels))

-- ChildLabelsInstance
unfoldable pub child_labels_instance : Object → String → Assoc String String
child_labels_instance owner app = put "app.kubernetes.io/instance" owner.name (
    put "app.kubernetes.io/part-of" "logic-platform" (
      put "app.kubernetes.io/managed-by" "logic-operator"
        (put "app.kubernetes.io/name" app owner.labels)))

-- SelectorLabels
unfoldable pub selector_labels : String → Assoc String String
selector_labels name = ("app.kubernetes.io/name", name) ∷ []

-- MergeMaps: each map written over the ones before it
unfoldable pub merge_maps : Assoc String String → List (Assoc String String) → Assoc String String
merge_maps result [] = result
merge_maps result (m ∷ maps) = merge_maps (put_all result m) maps

-- BuildPostgresAddress
unfoldable pub build_postgres_address : String → String → ℕ → String
unfolding sprintf
build_postgres_address service namespace port =
    let host =
      if namespace == ""
      then service
      else sprintf (service ∷ "." ∷ namespace ∷ ".svc.cluster.local" ∷ []) in
    if nat_eq port 0 then host else sprintf (host ∷ ":" ∷ show_number port ∷ [])

-- envLiteral
unfoldable pub env_literal : String → String → EnvVar
env_literal name value = record { name = name; source = literal value }

-- envFieldRef
unfoldable pub env_field_ref : String → String → EnvVar
env_field_ref name path = record { name = name; source = field_path path }

-- envFromSecret
unfoldable pub env_from_secret : String → String → String → EnvVar
env_from_secret name secret key = record { name = name; source = secret_key secret key }
