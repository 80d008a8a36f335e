-- ===== src/Gateway/Bridge.antt =====
-- packages/tools/src/governed-tool-gateway.ts: `bridgeToActionRequest` and its helpers. The random id is an
-- argument, and an array under `parameters` has texts only. `null` and `undefined` are the values that
-- `String` makes these words of.
use constructie_orchestrator.Base.{
  String, List, [], ◌∷◌, ◌++◌, Option, none, some, not, ◌&&◌, ◌==◌, String_eq, includes,
  includes_text, if◌then◌else◌,
}
use constructie_orchestrator.Base.Dict.{get}
use constructie_orchestrator.Base.Text.{lower, upper, join, strip, remove_first}
use constructie_orchestrator.Policy.Types.{
  ParameterValue, text, texts, other, ActionRequest, Environment,
}
use constructie_orchestrator.Gateway.Contracts.{ToolExecutionRequest}

unfoldable pub as_text : Option ParameterValue → Option String
as_text (some (text s)) = some s
as_text _ = none

unfoldable pub as_texts : Option ParameterValue → Option (List String)
as_texts (some (texts ss)) = some ss
as_texts _ = none

-- `String(value ?? fallback)`
unfoldable pub text_or : String → Option ParameterValue → String
text_or fallback none = fallback
text_or fallback (some (text s)) = s
text_or fallback (some (texts ss)) = join "," ss
text_or fallback (some (other s)) = if includes s ("null" ∷ "undefined" ∷ []) then fallback else s

-- `extractHttpMethodFromOperation`
unfoldable pub extract_http_method_from_operation : String → Option String
extract_http_method_from_operation operation_id =
    let op = lower operation_id in
    if includes_text op "get"
    then some "GET"
    else if includes_text op "post"
    then some "POST"
    else if includes_text op "put"
    then some "PUT"
    else if includes_text op "patch"
    then some "PATCH"
    else if includes_text op "delete"
    then some "DELETE"
    else none

-- `mapEnvironment`
unfoldable pub map_environment : String → Environment
map_environment env =
    let e = lower env in
    if includes e ("production" ∷ "prod" ∷ [])
    then Environment.production
    else if includes e ("staging" ∷ "stage" ∷ [])
    then Environment.staging
    else if e == "test"
    then Environment.testing
    else Environment.local

unfoldable pub git_op : ToolExecutionRequest → Option String
git_op request =
    if request.tool_id == "git"
    then some
        (text_or (remove_first "git." request.operation_id) (get "subcommand" request.parameters))
    else none

unfoldable pub http_method_of : ToolExecutionRequest → Option String
http_method_of request = elim (as_text (get "method" request.parameters)) [
  | some method ↦ some (upper method)
  | none ↦
      if includes request.tool_id ("http" ∷ "fetch" ∷ [])
      then extract_http_method_from_operation request.operation_id
      else none
]

-- The paths that the parameters name: the first of the four parameters that has the right type.
unfoldable pub parameter_paths : List (String × ParameterValue) → List String
parameter_paths params = elim (as_texts (get "filePaths" params)) [
  | some paths ↦ paths
  | none ↦ elim (as_texts (get "requestedFilePaths" params)) [
    | some paths ↦ paths
    | none ↦ elim (as_text (get "path" params)) [
      | some path ↦ path ∷ []
      | none ↦ elim (as_text (get "file" params)) [ some path ↦ path ∷ [] | none ↦ [] ]
    ]
  ]
]

-- The path that the target resource is, if it is one.
unfoldable pub resource_path : String → Option String
resource_path resource = elim (strip "file://" resource) [
  | some path ↦ some path
  | none ↦
      if includes_text resource "/" && not (includes_text resource "://")
      then some resource
      else none
]

unfoldable pub target_paths : ToolExecutionRequest → List String
target_paths request =
    let paths = parameter_paths request.parameters in
    elim (resource_path request.target_resource) [
      | none ↦ paths
      | some path ↦ if includes path paths then paths else paths ++ (path ∷ [])
    ]

-- `bridgeToActionRequest`
unfoldable pub bridge_to_action_request : String → ToolExecutionRequest → ActionRequest
bridge_to_action_request action_id request = record {
  action_id = action_id;
  task_id = request.work_item_ref;
  agent_id = request.actor_ref;
  provider = text_or "unknown" (get "provider" request.parameters);
  tool = request.tool_id;
  operation = request.operation_id;
  command = as_text (get "command" request.parameters);
  args = as_texts (get "args" request.parameters);
  resource = request.target_resource;
  http_method = http_method_of request;
  git_operation = git_op request;
  environment = map_environment request.environment;
  parameters = request.parameters;
  authority_context_ref = request.authority_context_ref;
  correlation_id = request.correlation_id;
  target_file_paths = target_paths request;
  generated_content = as_text (get "generatedContent" request.parameters);
}
