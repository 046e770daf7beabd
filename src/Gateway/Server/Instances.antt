-- ===== src/Gateway/Server/Instances.antt =====
-- What the instance requests answer when the Data Index is not there.
use logic_operator.Prelude.{String, ◌≡◌, ◌↔◌, Option, none, some, arith}
use logic_operator.Gateway.Platform.{endpoint}
use logic_operator.Gateway.DataIndex.{InstanceFilter, list_instances, get_instance}
use logic_operator.Gateway.Server.{
  DataIndexClient, data_index_missing, list_instances_handler, get_instance_handler,
}

-- The gateway has a Data Index endpoint to ask.
abbrev pub address_of : Option DataIndexClient → Option String
address_of none = none
address_of (some c) = endpoint c.store

-- Both instance requests are answered 503 "data index not available" exactly when the server has no
-- client or its store no endpoint; the Data Index itself cannot cause that answer.
pub data_index_missing_iff :
    (c : Option DataIndexClient) (filter : InstanceFilter) (id : String)
    → ((list_instances_handler c filter ≡ data_index_missing) ↔ (address_of c ≡ none))
      × ((get_instance_handler c id ≡ data_index_missing) ↔ (address_of c ≡ none))
unfolding list_instances_handler get_instance_handler list_instances get_instance
data_index_missing_iff none filter id = ground arith
data_index_missing_iff (some c) filter id = ground arith
