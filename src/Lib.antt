-- ===== src/Lib.antt =====
-- services-modulith-infra: the AWS CDK program of an e-commerce application, as the sequence of calls
-- that it makes of aws_cdk, with the inline code of its two functions and the scripts of its instances.
--
-- The program is app.py, which makes ten or eleven stacks for the value of ENVIRONMENT and declares
-- dependencies between them, the stacks of ecomm_modulith_cdk, and the constructs that they use. A stack
-- hands what the next ones need to app.py as a dict of texts, and the reading of a missing key is an
-- exception. A run is a `Cdk.Build`: the calls made, in order, and the value or the exception. What
-- aws_cdk returns (a token for an attribute, the subnets of a network) is the parameter `Cdk` of
-- Cdk/Library.antt; a construct is named by its path, innermost id first.
--
--   app.py                                            App.antt (`app`); App/* for what is proved of it
--   ecomm_modulith_cdk/Vpc/vpc_stack.py               Vpc.antt
--   ecomm_modulith_cdk/Model/ai_model_stack.py        Model/Stack.antt, the user data in
--                                                     Model/Provisioning, Model/Scripts, Model/Units
--   ecomm_modulith_cdk/Qdrant/qdrant_stack.py         Qdrant.antt
--   ecomm_modulith_cdk/Zipkin/zipkin_stack.py         Zipkin.antt
--   ecomm_modulith_cdk/Redis/redis_stack.py           Redis/Cluster.antt
--   ecomm_modulith_cdk/Redis/redis_insight_stack.py   Redis/Insight.antt
--   ecomm_modulith_cdk/DocumentDb/documentdb_stack.py DocumentDb.antt, the function in
--                                                     DocumentDb/Handler.antt, the event that it
--                                                     reads in DocumentDb/Payload.antt
--   ecomm_modulith_cdk/Postgres/postgresdb_stack.py   Postgres/Cluster.antt
--   ecomm_modulith_cdk/Postgres/postgres_config_stack.py
--                                                     Postgres/Config.antt, the function in
--                                                     Postgres/Handler.antt
--   ecomm_modulith_cdk/Constructs/*.py                Services/{Ecomm,Rag,Mcp,Mail,MongoExpress}.antt
--   ecomm_modulith_cdk/Fargate/fargate_stack.py       Fargate/Cluster.antt
--   ecomm_modulith_cdk/Fargate/utils.py               Fargate/Internal.antt, Fargate/Scaling.antt
--
-- Cdk/* has the calls of aws_cdk and their arguments as records (Compute, Resources, Calls) and readings
-- of a log (Log). Shell.antt has scripts as blocks of commands, a command being its words, and systemd
-- units as records; Shell/Machine.antt runs a script over a machine, whose programs are a parameter;
-- Shell/Docker.antt reads the ports of docker commands, and Shell/Systemd.antt is the
-- relation of boots: a unit starts after the units that it requires and stands after.
-- Shell/Systemd/Lives.antt composes the two: a unit that runs a script becomes active when the script has
-- ended with success on the machine, and Shell/Machine/Keeps.antt says what a script keeps.
-- App/Deployment.antt is the relation of stack deployments: a stack is deployed when the stacks it
-- depends on are; App/Completion.antt is about going on with one.
-- App/Kinds.antt reads a log as events, a construct made with its kinds or named where one of a kind is
-- asked for, with the kinds written down once for the calls of aws_cdk; App/Kinds/Stacks and
-- App/Kinds/Services list the events of the application, App/Kinds/Lines their notation.
-- Fargate/Scaling/Steps.antt has what Application Auto Scaling documents of the steps of a policy, over
-- a scaler that is a parameter: a step applies between its bounds and within the limits, and an
-- evaluation in the cooldown may apply it in part or not at all.
-- App/Secrets.antt reads from a log who may read which secret and which service is let in where;
-- App/Secrets/Facts has the places in the application's log that its theorems need.
-- Ports.antt compares the ports that the calls of one service name. Base/* has the shared helpers,
-- and Base/Json.antt and Base/Json/Read.antt the reading of JSON texts, for objects, texts without
-- escapes and natural numbers; a text is plain when it has no quotation mark, no backslash and no
-- control character.
--
-- The two functions run over boto3, psycopg2 and json as parameters (`Libraries` of each Handler),
-- with an exception as a value. They read a `Request`, where a key may be missing; `request_of` makes
-- one of an `Event`, which has the keys, and all but one of the results on them are about such
-- events. `Works` names what is asked of them where a theorem needs it. The event and the template
-- that documentdb_stack.py writes as JSON texts are read by Base/Json. The only bound is the number
-- of rounds that a run of a script gives to each `until` loop; a theorem that needs more rounds than
-- the machine takes says so. All other loops are over lists.
--
-- Not modelled: what AWS and CloudFormation do with the calls, the programs that the scripts run, the
-- copies of kafka-python and psycopg2 under lambda_layers, cdk.json, and tests/unit, a template that
-- imports a module that the repository does not have. Arguments that a call leaves at aws_cdk's
-- defaults have no field. The calls of aws_cdk return: what it refuses, such as a name of a stack
-- with an underscore, is not modelled, and the exceptions of the constructs' code are failed
-- look-ups.
pub mod Base
pub mod Shell
pub mod Cdk
pub mod Vpc
pub mod Qdrant
pub mod Zipkin
pub mod Redis
pub mod Postgres
pub mod DocumentDb
pub mod Services
pub mod Fargate
pub mod Model
pub mod App
pub mod Ports
