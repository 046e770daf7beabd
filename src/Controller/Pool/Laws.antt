-- ===== src/Controller/Pool/Laws.antt =====
-- What the reconciliation of leases relies on of the API server.
use logic_operator.Prelude.{String, ◌≡◌, ◌≢◌, ◌⊎◌, List, Outcome, ok, err, In}
use logic_operator.Controller.Pool.{Lease, PoolServer, CreateError, already_exists, Step}

-- The state that a step leaves, whether it failed or not
abbrev pub final : {W : Type 0} → Step W → W
final (ok w) = w
final (err (message, w)) = w

abbrev pub state_of : {W : Type 0} → Outcome (CreateError × W) W → W
state_of (ok w) = w
state_of (err (e, w)) = w

-- `Stored w l`: the lease `l` is there in the state `w`. A creation keeps the leases that are there
-- and adds at most its own; it adds that one if it succeeds. It reports that an object exists only
-- if one of that name does, and then it does not succeed. A list has leases of its namespace that
-- are there: it is that of the state `w`, which a cache that lags behind does not give. Nothing is
-- relied on of a deletion, which may take away any lease.
pub record LeaseLaws {W : Type 0} (server : PoolServer W) (Stored : W → Lease → Type 0)
    : Type 0 where
  pub keeps : (w : W) (l x : Lease) → Stored w x → Stored (state_of (server.create_lease w l)) x
  pub adds :
      (w : W) (l x : Lease) → Stored (state_of (server.create_lease w l)) x → Stored w x ⊎ (x ≡ l)
  pub created : (w after : W) (l : Lease) → server.create_lease w l ≡ ok after → Stored after l
  pub exists :
      (w after : W) (l : Lease)
      → server.create_lease w l ≡ err (already_exists, after)
      → (x : Lease) × Stored w x × (x.namespace ≡ l.namespace) × (x.name ≡ l.name)
  pub conflict :
      (w after : W) (l x : Lease)
      → Stored w x
      → x.namespace ≡ l.namespace
      → x.name ≡ l.name
      → server.create_lease w l ≢ ok after
  pub unchanged :
      (w after : W) (l x : Lease)
      → server.create_lease w l ≡ err (already_exists, after)
      → Stored after x
      → Stored w x
  pub listed :
      (w : W) (namespace pool : String) (items : List Lease)
      → server.list_leases w namespace pool ≡ ok items
      → (x : Lease) → In x items
      → Stored w x × (x.namespace ≡ namespace)

-- A lease with this namespace and name is there.
abbrev pub Has : {W : Type 0} → (W → Lease → Type 0) → W → String → String → Type 0
Has Stored w namespace name = (x : Lease) × Stored w x × (x.namespace ≡ namespace) × (x.name ≡ name)
