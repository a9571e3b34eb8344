-- ===== src/App/Certificates.antt =====
-- The certificate that a container reads: another container of its task copies it from S3.
use services_modulith_infra.Base.{
  String, Bool, true, false, ◌≡◌, refl, ◌⊎◌, inl, inr, Bool-cases, Option, none, some, List, [],
  ◌∷◌, All, In, ◌==◌, ◌^^◌,
}
use services_modulith_infra.Base.Dict.{lookup}
use services_modulith_infra.Cdk.{Handle, Cdk, TaskDefinition, Container, Resource, Call}
use services_modulith_infra.App.{app, getenv_or}
use services_modulith_infra.Cdk.Log.{collect}
use services_modulith_infra.DocumentDb.Access.{MayDo}

abbrev part_of : Call → Option (Handle × String × Container)
part_of (Call.add_container task id c) = some (task, id, c)
part_of _ = none

-- The containers with their task definitions and ids.
abbrev pub parts : List Call → List (Handle × String × Container)
parts = collect part_of

abbrev volume_of : Call → Option (Handle × String)
volume_of (Call.add_volume task name) = some (task, name)
volume_of _ = none

abbrev volumes : List Call → List (Handle × String)
volumes = collect volume_of

abbrev mount_of : Call → Option (Handle × String × String × Bool)
mount_of (Call.add_mount_point c path volume read_only) = some (c, path, volume, read_only)
mount_of _ = none

abbrev mounts : List Call → List (Handle × String × String × Bool)
mounts = collect mount_of

abbrev wait_of : Call → Option (Handle × Handle × String)
wait_of (Call.add_container_dependency c other condition) = some (c, other, condition)
wait_of _ = none

abbrev waits : List Call → List (Handle × Handle × String)
waits = collect wait_of

abbrev definition_of : Call → Option (Handle × TaskDefinition)
definition_of (Call.create scope id (Resource.task_definition t)) = some (id ∷ scope, t)
definition_of _ = none

abbrev task_definitions : List Call → List (Handle × TaskDefinition)
task_definitions = collect definition_of

-- Another container of the task copies an object to the file, which lies in a volume that both mount, the
-- one that copies to write; the task's role may read the object; and the reading container waits
-- until the copy, which may end while the task goes on, has succeeded.
pub record CopiesFile (calls : List Call) (task reader : Handle) (file : String) : Type 0 where
  pub copier_id : String
  pub copier : Container
  pub directory : String
  pub name : String
  pub volume : String
  pub object : String
  pub definition : TaskDefinition
  pub role : Handle
  pub made : In (task, copier_id, copier) (parts calls)
  pub command : copier.command ≡ some ("s3" ∷ "cp" ∷ ("s3://" ^^ object) ∷ file ∷ [])
  pub ends : copier.essential ≡ false
  pub lies : file ≡ directory ^^ "/" ^^ name
  pub shared : In (task, volume) (volumes calls)
  pub writes : In (copier_id ∷ task, directory, volume, false) (mounts calls)
  pub reads : In (reader, directory, volume, true) (mounts calls)
  pub waited : In (reader, copier_id ∷ task, "SUCCESS") (waits calls)
  pub defined : In (task, definition) (task_definitions calls)
  pub assumed : definition.task_role ≡ some role
  pub allowed : MayDo calls role "s3:GetObject" ("arn:aws:s3:::" ^^ object)

abbrev pub HasCertificate : List Call → Handle × String × Container → Type 0
HasCertificate calls (task, id, c) =
    (lookup "ME_CONFIG_MONGODB_CA_FILE" c.environment ≡ none)
    ⊎ ((file : String) × (lookup "ME_CONFIG_MONGODB_CA_FILE" c.environment ≡ some file)
        × CopiesFile calls task (id ∷ task) file)

-- Every container of the application that is told of a certificate file has it: another container of
-- its task, which it waits for, copies it there from an object that the task's role may read, into a
-- volume that the two share.
pub containers-certificates :
    (cdk : Cdk) (variable : Option String)
    → let calls = (app cdk variable).calls in All (HasCertificate calls) (parts calls)
unfolding app
containers-certificates cdk variable = elim (Bool-cases (getenv_or variable "prod" == "dev")) [
  | inl e ↦ rw e (
    inl refl,
    (
      inl refl,
      (
        inl refl,
        (
          inr (
            "/certs/ca-bundle.pem",
            refl,
            record {
              copier_id = "documentdb-cert-init";
              copier = _;
              directory = "/certs";
              name = "ca-bundle.pem";
              volume = "certs";
              object = "all-purpose-utility/certs/ca-bundle.pem";
              definition = _;
              role = _;
              made = inr (inr (inl refl));
              command = refl;
              ends = refl;
              lies = refl;
              shared = inl refl;
              writes = inl refl;
              reads = inr (inl refl);
              waited = inl refl;
              defined = inr (inr (inl refl));
              assumed = refl;
              allowed = (_, inr (inl refl), (inl refl, inl refl));
            },
          ),
          (inl refl, (inl refl, tt)),
        ),
      ),
    ),
  )
  | inr e ↦ rw e (inl refl, (inl refl, (inl refl, (inl refl, tt))))
]
