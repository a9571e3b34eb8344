-- ===== src/App/Tests.antt =====
-- Runs of the application over a sample of what aws_cdk returns.
use services_modulith_infra.Base.{none, some, length, ◌≡◌, refl}
use services_modulith_infra.Cdk.Sample.{sample}
use services_modulith_infra.App.{app}

prod_calls : length (app sample none).calls ≡ 113
unfolding app
prod_calls = refl

dev_calls : length (app sample (some "dev")).calls ≡ 132
unfolding app
dev_calls = refl
