-- ===== src/Cdk/Sample.antt =====
-- A sample of what aws_cdk returns.
use services_modulith_infra.Base.{[], ◌∷◌}
use services_modulith_infra.Cdk.{Cdk}

abbrev pub sample : Cdk
sample = record {
  account_id = "123456789012";
  region = "eu-west-1";
  attr = λ h a. a;
  part = λ h a. a ∷ h;
  parts = λ h a. (a ∷ h) ∷ [];
  select_subnets = λ h t. t ∷ [];
  secret_json = λ h k. k;
  as_string = λ s. s;
  join = λ s xs. s;
}
