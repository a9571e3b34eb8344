-- ===== src/Vpc.antt =====
-- ecomm_modulith_cdk/Vpc/vpc_stack.py: the network that every other stack stands in.
use services_modulith_infra.Base.{String, true, some, [], ◌∷◌, ◌^^◌}
use services_modulith_infra.Cdk.{Handle, Environment, Vpc, Resource, Build, pure, new, ◌>>=◌}

pub record VpcStack : Type 0 where
  pub stack : Handle
  pub vpc : Handle

abbrev pub vpc_of : String → Vpc
vpc_of environment = record {
  max_azs = 2;
  nat_gateways = 1;
  cidr = "10.0.0.0/16";
  vpc_name = environment ^^ "-monolith-vpc";
  enable_dns_hostnames = true;
  enable_dns_support = true;
  subnet_configuration =
      record { name = environment ^^ "-public"; subnet_type = "PUBLIC"; cidr_mask = 24 }
      ∷ record {
        name = environment ^^ "-private";
        subnet_type = "PRIVATE_WITH_EGRESS";
        cidr_mask = 24;
      }
      ∷ [];
}

unfoldable pub vpc_stack : Handle → String → String → Environment → Build VpcStack
vpc_stack scope construct_id environment env = do
  self ← new scope construct_id (Resource.stack (some "VPC for microservice architecture") env)
  vpc ← new self (environment ^^ "-EcommMonolithVpc") (Resource.vpc (vpc_of environment))
  pure (record { stack = self; vpc = vpc })

-- The property `get_vpc`.
abbrev pub get_vpc : VpcStack → Handle
get_vpc s = s.vpc
