-- ===== src/Gateway/Server/Execute.antt =====
-- Executions and instance operations, from the request to the runner.
use Prim.Native.Char.{Char, code}
use Prim.Native.String.{◌++◌}
use text.Mathlib.TextLemmas.{cons-append, nil-append}
use logic_operator.Prelude.{
  String, ◌≡◌, ◌≢◌, ◌↔◌, ◌⊎◌, Bool, true, false, Option, some, List, [], arith, text_Eq, inl, inr,
  Outcome, Outcome-cases, ap, ◌∙◌,
}
use logic_operator.Prelude.Assoc.{get, IsRange}
use logic_operator.Prelude.Text.{contains_code, codes}
use logic_operator.Gateway.Routing.{
  WorkflowKey, Url, Endpoints, key_Eq, Resolver, resolve_execution,
}
use logic_operator.Gateway.Routing.Execution.{
  key_of, resolve_execution_sound, resolve_execution_complete, fits_of,
}
use logic_operator.Gateway.Catalog.Urls.{ParsedUrl}
use logic_operator.Gateway.Server.{
  RouteParams, ProxyRequest, Response, JsonObject, workflow_not_found_reply, construct_runner_path,
  execute_sync_handler, execute_async_handler, last_segment,
}

-- What the runner is asked for an asynchronous execution
abbrev pub async_request : RouteParams → Url → ProxyRequest
async_request p u = record {
  target = u;
  path = construct_runner_path p.namespace p.name p.version [];
  query = some "wait=false";
}

module _ (range : Endpoints → List (WorkflowKey × Url)) (parse : String → Outcome String ParsedUrl)
    (upstream_of : ProxyRequest → Response) where
  -- A synchronous execution is answered "workflow not found" exactly when the table has no endpoint
  -- under the namespace and name of the request and its version (any version, if that is empty).
  pub execute_sync_handler-not_found :
      (r : Resolver) (p : RouteParams)
      → IsRange r.endpoints (range r.endpoints)
      → (execute_sync_handler range parse upstream_of r p ≡ workflow_not_found_reply) ↔ (
          (v : String) (u : Url)
          → (p.version ≡ "") ⊎ (p.version ≡ v)
          → get (key_of p.namespace p.name v) r.endpoints ≢ some u)
  unfolding execute_sync_handler
  execute_sync_handler-not_found r p ranges = (
    λ h v u fits found.
        let (w, answer) =
          resolve_execution_complete range r p.namespace p.name p.version v u ranges found fits in
        ground (arith, answer, h),
    λ no_route. elim (Outcome-cases (resolve_execution range r p.namespace p.name p.version)) [
      | inr (e, failed) ↦ ground (arith, failed)
      | inl (u, answer) ↦
          let (v, found, exact) =
            resolve_execution_sound range r p.namespace p.name p.version u ranges answer in
          absurd (no_route v u (fits_of p.version v exact) found)
    ],
  )

  module _ (decode : String → Option JsonObject) (encode : Option JsonObject → String) where
    -- An asynchronous execution leaves the instance cache as it was unless the client is answered
    -- 202.
    pub execute_async_handler-keeps :
        (r : Resolver) (p : RouteParams)
        → let (r', reply) = execute_async_handler range parse upstream_of decode encode r p in
          (reply.status ≡ 202) ⊎ (r' ≡ r)
    unfolding execute_async_handler
    execute_async_handler-keeps r p = ground arith

has_slash : String → Bool
has_slash s = contains_code b'/' (codes s)

has_slash-append : (s t : String) → has_slash t ≡ true → has_slash (s ++ t) ≡ true
unfolding has_slash contains_code
has_slash-append String.[] t h = rw (nil-append t) h
has_slash-append (String.◌∷◌ c s) t h =
    rw (cons-append c s t) (ground (arith, has_slash-append s t h))

slash_op :
    (operation : String) → "/" ++ operation ≡ String.◌∷◌ (Prim.Native.Char.char b'/' tt) operation
slash_op operation = cons-append _ String.[] operation ∙ ap (String.◌∷◌ _) (nil-append operation)

has_slash_op : (operation : String) → has_slash ("/" ++ operation) ≡ true
unfolding has_slash contains_code
has_slash_op operation = rw (slash_op operation) (ground arith)

-- The operation that an instance request names is the text behind the last slash of its path.
pub last_segment_lem :
    (path operation : String)
    → contains_code b'/' (codes operation) ≡ false
    → last_segment (path ++ ("/" ++ operation)) ≡ operation
unfolding last_segment contains_code has_slash
last_segment_lem String.[] operation h =
    rw (nil-append ("/" ++ operation), slash_op operation) (ground (arith, h))
last_segment_lem (String.◌∷◌ c path) operation h = rw (cons-append c path ("/" ++ operation)) (
    ground (
      arith,
      last_segment_lem path operation h,
      has_slash-append path ("/" ++ operation) (has_slash_op operation),
    ))
