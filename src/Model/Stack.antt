-- ===== src/Model/Stack.antt =====
-- The class `AiModelStack`.
use services_modulith_infra.Base.{String, none, some, [], ◌∷◌, ◌^^◌}
use services_modulith_infra.Base.Dict.{Dict}
use services_modulith_infra.Cdk.{
  Handle, Cdk, Environment, Resource, ipv4, Build, pure, new, ingress, cfn_output, ◌>>=◌, ◌>>◌,
}
use services_modulith_infra.Model.Provisioning.{model_user_data}

pub record AiModelStack : Type 0 where
  pub stack : Handle
  pub model_ec2_security_group : Handle
  pub model_ec2_instance : Handle

module _ (cdk : Cdk) where
  unfoldable pub ai_model_stack :
      Handle → String → Handle → String → Environment → Build AiModelStack
  ai_model_stack scope construct_id vpc environment env = do
    self ← new scope construct_id (Resource.stack (some "Ec2 instaance for model") env)
    group ← new self (environment ^^ "-ModelEc2SecurityGroup") (
        Resource.security_group (record {
          vpc = vpc;
          security_group_name = environment ^^ "-model-ec2-sg";
          description = "Security group for Model EC2";
        }))
    ingress group (ipv4 (cdk.attr vpc "vpc_cidr_block")) 22 "Allow SSH access from private subnets"
    ingress group (ipv4 (cdk.attr vpc "vpc_cidr_block")) 8080
        "Allow access to model from private subnets"
    ingress group (ipv4 (cdk.attr vpc "vpc_cidr_block")) 8081
        "Allow access to embedding model from private subnets"
    inst ← new self (environment ^^ "-ModelEc2Instance") (
        Resource.ec2_instance (record {
          instance_type = "g4dn.2xlarge";
          machine_image = "latest_amazon_linux2023";
          instance_name = environment ^^ "-llama-model";
          device_name = "/dev/xvda";
          volume_gib = 50;
          vpc = vpc;
          security_group = group;
          user_data = model_user_data;
        }))
    cfn_output self (environment ^^ "-ModelEc2InstancePrivateDnsName")
        (cdk.attr inst "instance_private_dns_name")
        (some "The private DNS name of the Model EC2 instance") none
    cfn_output self (environment ^^ "-ModelEc2InstancePrivateIp")
        (cdk.attr inst "instance_private_ip")
        (some "The private IP address of the Model EC2 instance") none
    pure (record { stack = self; model_ec2_security_group = group; model_ec2_instance = inst })

  -- The property `model_info`.
  unfoldable pub model_info : AiModelStack → Dict String
  model_info s =
      ("model-dns", cdk.attr s.model_ec2_instance "instance_private_dns_name")
      ∷ ("model-ip", cdk.attr s.model_ec2_instance "instance_private_ip")
      ∷ ("model-sg-id", cdk.attr s.model_ec2_security_group "security_group_id")
      ∷ []
