-- ===== src/Controller/Ingress/Annotations.antt =====
-- The annotations of the Ingresses.
use logic_operator.Prelude.{String, text_Eq}
use logic_operator.Prelude.Assoc.{Assoc}

abbrev pub rewrite_target : String
rewrite_target = "nginx.ingress.kubernetes.io/rewrite-target"

abbrev pub canary_weight : String
canary_weight = "nginx.ingress.kubernetes.io/canary-weight"
