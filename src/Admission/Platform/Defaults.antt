-- ===== src/Admission/Platform/Defaults.antt =====
-- What the defaults do to a LogicPlatform.
use logic_operator.Prelude.{
  String, ◌≡◌, refl, Bool, true, Option, none, some, List, [], ◌∷◌, Outcome-cases, Outcome, text_Eq,
  arith, inl, inr,
}
use logic_operator.Api.Application.{PersistenceOptionsSpec}
use logic_operator.Api.Platform.{LogicPlatform, DataIndexSpec, VectorSpec, WorkflowGatewaySpec}
use logic_operator.Admission.Platform.{
  Versions, apply_logic_platform_defaults, default_data_index, default_vector, default_gateway,
  default_data_index_image, default_gateway_image, default_persistence, validate,
  validate_data_index, validate_image, validate_postgresql_persistence, validate_workflow_gateway,
  validate_singleton, singleton_loop,
}

data_index_twice :
    (v : Versions) (d : DataIndexSpec)
    → default_data_index v (default_data_index v d) ≡ default_data_index v d
unfolding default_data_index
data_index_twice v d = ground arith

vector_twice :
    (namespace : String) (x : Option VectorSpec)
    → default_vector namespace (default_vector namespace x) ≡ default_vector namespace x
unfolding default_vector
vector_twice namespace none = refl
vector_twice namespace (some x) = ground arith

gateway_twice :
    (v : Versions) (g : Option WorkflowGatewaySpec)
    → default_gateway v (default_gateway v g) ≡ default_gateway v g
unfolding default_gateway
gateway_twice v none = refl
gateway_twice v (some g) = ground arith

vector_stays :
    (v : Versions) (d : DataIndexSpec) (x : Option VectorSpec)
    → default_data_index v (record d { vector = x })
      ≡ record (default_data_index v d) { vector = x }
unfolding default_data_index
vector_stays v d x = ground arith

-- Applying the defaults of a LogicPlatform twice is applying them once.
pub apply_logic_platform_defaults_twice :
    (v : Versions) (plat : LogicPlatform)
    → apply_logic_platform_defaults v (apply_logic_platform_defaults v plat)
      ≡ apply_logic_platform_defaults v plat
unfolding apply_logic_platform_defaults
apply_logic_platform_defaults_twice v plat =
    rw
      (
        vector_stays v,
        data_index_twice v plat.spec.data_index,
        vector_twice plat.namespace (default_data_index v plat.spec.data_index).vector,
        gateway_twice v plat.spec.workflow_gateway,
      )
      refl

loop_same :
    (v : Versions) (plat : LogicPlatform) (platforms : List LogicPlatform)
    → singleton_loop (apply_logic_platform_defaults v plat) platforms
      ≡ singleton_loop plat platforms
unfolding singleton_loop apply_logic_platform_defaults
loop_same v plat [] = refl
loop_same v plat (p ∷ platforms) = rw (loop_same v plat platforms) refl

singleton_same :
    (v : Versions) (list : String → Outcome String (List LogicPlatform)) (plat : LogicPlatform)
    → validate_singleton list (apply_logic_platform_defaults v plat) ≡ validate_singleton list plat
unfolding validate_singleton apply_logic_platform_defaults
singleton_same v list plat = elim (Outcome-cases (list plat.namespace)) [
  | inl (platforms, e) ↦ ground (arith, e, loop_same v plat platforms)
  | inr (m, e) ↦ ground (arith, e)
]

module _ (image_ok : String → Bool) (v : Versions)
    (data_index_ok : image_ok (default_data_index_image v) ≡ true)
    (gateway_ok : image_ok (default_gateway_image v) ≡ true) where
  persistence_same :
      (p : Option PersistenceOptionsSpec)
      → validate_postgresql_persistence (default_persistence p) ≡ validate_postgresql_persistence p
  unfolding validate_postgresql_persistence
  persistence_same none = refl
  persistence_same (some p) = ground arith

  data_index_same :
      (d : DataIndexSpec) (x : Option VectorSpec)
      → validate_data_index image_ok (record (default_data_index v d) { vector = x })
        ≡ validate_data_index image_ok d
  unfolding validate_data_index validate_image default_data_index
  data_index_same d x = ground (arith, persistence_same d.persistence, data_index_ok)

  gateway_same :
      (g : Option WorkflowGatewaySpec)
      → validate_workflow_gateway image_ok (default_gateway v g)
        ≡ validate_workflow_gateway image_ok g
  unfolding validate_workflow_gateway validate_image default_gateway
  gateway_same none = refl
  gateway_same (some g) = ground (arith, gateway_ok)

  -- If the two default images have the right format, then filling in the defaults does not change
  -- what `validate` answers, errors included.
  pub validate-apply_logic_platform_defaults :
      (list : String → Outcome String (List LogicPlatform)) (plat : LogicPlatform)
      → validate image_ok list (apply_logic_platform_defaults v plat) ≡ validate image_ok list plat
  unfolding validate apply_logic_platform_defaults
  validate-apply_logic_platform_defaults list plat =
      rw
        (
          singleton_same v list plat,
          data_index_same plat.spec.data_index,
          gateway_same plat.spec.workflow_gateway,
        )
        refl
