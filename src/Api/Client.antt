-- ===== src/Api/Client.antt =====
-- What the Kubernetes client answers to a `Get`, beside the object.
use logic_operator.Prelude.{String}

pub data GetError : Type 0 where
  not_found : GetError
  other_error : String → GetError
