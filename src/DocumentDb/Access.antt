-- ===== src/DocumentDb/Access.antt =====
-- What the function of the document database may do, against what it is asked to do.
use services_modulith_infra.Base.{
  String, ◌≡◌, refl, inl, inr, Option, none, some, List, [], ◌∷◌, All, In, map, ◌^^◌,
}
use services_modulith_infra.Base.Dict.{lookup}
use services_modulith_infra.Cdk.{
  Handle, Cdk, Environment, Statement, Function, SdkCall, SdkResource, Resource, Call,
}
use services_modulith_infra.DocumentDb.{documentdb_stack}
use services_modulith_infra.Cdk.Log.{collect}

abbrev policy_of : Call → Option (Handle × Statement)
policy_of (Call.add_to_policy h s) = some (h, s)
policy_of _ = none

abbrev pub policies : List Call → List (Handle × Statement)
policies = collect policy_of

abbrev function_of : Call → Option (Handle × Function)
function_of (Call.create scope id (Resource.function f)) = some (id ∷ scope, f)
function_of _ = none

abbrev pub functions : List Call → List (Handle × Function)
functions = collect function_of

abbrev code_of : Handle × Function → Handle × String
code_of (h, f) = (h, f.code)

-- The functions with the codes that they run.
abbrev pub codes : List Call → List (Handle × String)
codes calls = map code_of (functions calls)

abbrev sdk_resource_of : Call → Option SdkResource
sdk_resource_of (Call.create scope id (Resource.sdk_resource r)) = some r
sdk_resource_of _ = none

abbrev pub sdk_resources : List Call → List SdkResource
sdk_resources = collect sdk_resource_of

-- The statement allows the action on the resource.
abbrev pub Allows : Statement → String → String → Type 0
Allows s action resource = In action s.actions × In resource s.resources

-- A statement of the log, added to the policy of the role or function, allows the action.
abbrev pub MayDo : List Call → Handle → String → String → Type 0
MayDo calls who action resource =
    (s : Statement) × In (who, s) (policies calls) × Allows s action resource

-- The call has the service's name and the action invoke, and it names a function of the log, which the
-- policy allows to be invoked; the function may read and write the secret that the call's payload
-- names, which is the text that `payload` makes of the secret's ARN.
pub record InvokesAllowed (cdk : Cdk) (service : String) (calls : List Call)
    (policy : List Statement) (call : SdkCall) : Type 0 where
  pub serviced : call.service ≡ service
  pub acts : call.action ≡ "invoke"
  pub handle : Handle
  pub function : Function
  pub secret_arn : String
  pub endpoint : String
  pub before_arn : String
  pub made : In (handle, function) (functions calls)
  pub runs : function.code ≡ "DocumentDb.Handler"
  pub named : lookup "FunctionName" call.parameters ≡ some (cdk.attr handle "function_name")
  pub statement : Statement
  pub listed : In statement policy
  pub invokes : Allows statement "lambda:InvokeFunction" (cdk.attr handle "function_arn")
  pub payload :
      lookup "Payload" call.parameters
      ≡ some (
          cdk.join ""
            (before_arn ∷ secret_arn ∷ "\",\"DocumentDbEndpoint\":\"" ∷ endpoint ∷ "\"}}" ∷ []))
  pub reads : MayDo calls handle "secretsmanager:GetSecretValue" secret_arn
  pub writes : MayDo calls handle "secretsmanager:PutSecretValue" secret_arn

-- In the document database's stack, the custom resource's calls on creation and on update have the
-- action invoke, and as their service the environment's name and "-Lambda". They name the stack's
-- function, which the custom resource's policy allows to be invoked, and which may read and write the
-- secret that the calls name.
pub documentdb-InvokesAllowed :
    (cdk : Cdk) (scope : Handle) (id : String) (vpc : Handle) (environment : String)
    (env : Environment)
    → let calls = (documentdb_stack cdk scope id vpc environment env).calls in
      All
        (λ r.
          InvokesAllowed cdk (environment ^^ "-Lambda") calls r.policy r.on_create
          × InvokesAllowed cdk (environment ^^ "-Lambda") calls r.policy r.on_update)
        (sdk_resources calls)
unfolding documentdb_stack
documentdb-InvokesAllowed cdk scope id vpc environment env =
    let f = (environment ^^ "-UpdateSecretLambda") ∷ id ∷ scope in
    (
      (
        record {
          handle = f;
          function = _;
          secret_arn = _;
          endpoint = _;
          before_arn = _;
          serviced = refl;
          acts = refl;
          made = inl refl;
          runs = refl;
          named = refl;
          statement = _;
          listed = inl refl;
          invokes = (inl refl, inl refl);
          payload = refl;
          reads = (_, inl refl, (inl refl, inl refl));
          writes = (_, inl refl, (inr (inl refl), inl refl));
        },
        record {
          handle = f;
          function = _;
          secret_arn = _;
          endpoint = _;
          before_arn = _;
          serviced = refl;
          acts = refl;
          made = inl refl;
          runs = refl;
          named = refl;
          statement = _;
          listed = inl refl;
          invokes = (inl refl, inl refl);
          payload = refl;
          reads = (_, inl refl, (inl refl, inl refl));
          writes = (_, inl refl, (inr (inl refl), inl refl));
        },
      ),
      tt,
    )
