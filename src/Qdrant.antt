-- ===== src/Qdrant.antt =====
-- ecomm_modulith_cdk/Qdrant/qdrant_stack.py: the vector store on an EC2 instance.
use services_modulith_infra.Base.{String, none, some, [], ◌∷◌, ◌^^◌, words}
use services_modulith_infra.Base.Dict.{Dict}
use services_modulith_infra.Shell.{Block, run, done, ◌⨟◌}
use services_modulith_infra.Cdk.{
  Handle, Cdk, Environment, Ec2Instance, Resource, ipv4, Build, pure, new, ingress, cfn_output,
  ◌>>=◌, ◌>>◌,
}

pub record QdrantStack : Type 0 where
  pub stack : Handle
  pub qdrant_ec2_security_group : Handle
  pub qdrant_ec2_instance : Handle

abbrev pub qdrant_user_data : Block
qdrant_user_data =
    run (words "set -e")
    ⨟ run (words "sudo dnf update -y")
    ⨟ run (words "sudo dnf install -y docker")
    ⨟ run (words "sudo systemctl enable --now docker")
    ⨟ run (words "sudo usermod -aG docker ec2-user")
    ⨟ run (words "sudo mkdir -p /home/ec2-user/qdrant_storage")
    ⨟ run (words "sudo chown -R ec2-user:ec2-user /home/ec2-user/qdrant_storage")
    ⨟ run (words "sudo -u ec2-user docker pull qdrant/qdrant")
    ⨟ run (
        words
          "sudo -u ec2-user docker run -d --name qdrant -p 6333:6333 -p 6334:6334 -v /home/ec2-user/qdrant_storage:/qdrant/storage --restart always qdrant/qdrant")
    ⨟ done

abbrev pub qdrant_server : String → Handle → Handle → Ec2Instance
qdrant_server environment vpc group = record {
  instance_type = "t3.large";
  machine_image = "latest_amazon_linux2023";
  instance_name = environment ^^ "-qdrant";
  device_name = "/dev/xvda";
  volume_gib = 50;
  vpc = vpc;
  security_group = group;
  user_data = qdrant_user_data;
}

module _ (cdk : Cdk) where
  unfoldable pub qdrant_stack : Handle → String → Handle → String → Environment → Build QdrantStack
  qdrant_stack scope construct_id vpc environment env = do
    self ← new scope construct_id (Resource.stack (some "Ec2 instance for Qdrant vector store") env)
    group ← new self (environment ^^ "-QdrantSecurityGroup") (
        Resource.security_group (record {
          vpc = vpc;
          security_group_name = environment ^^ "-qdrant-ec2-sg";
          description = "Security group for qdrant EC2";
        }))
    ingress group (ipv4 (cdk.attr vpc "vpc_cidr_block")) 22 "Allow SSH access from private subnets"
    ingress group (ipv4 (cdk.attr vpc "vpc_cidr_block")) 6333
        "Allow access to qdrant from private subnets"
    ingress group (ipv4 (cdk.attr vpc "vpc_cidr_block")) 6334
        "Allow access to qdrant grpc from private subnets"
    inst ←
        new self (environment ^^ "-QdrantInstance")
          (Resource.ec2_instance (qdrant_server environment vpc group))
    cfn_output self (environment ^^ "-QdrantInstancePort") "6334"
        (some "The port of the Qdrant EC2 instance") none
    cfn_output self (environment ^^ "-QdrantPrivateIP") (cdk.attr inst "instance_private_ip")
        (some "The private IP address of the Qdrant EC2 instance") none
    pure (record { stack = self; qdrant_ec2_security_group = group; qdrant_ec2_instance = inst })

  -- The property `qdrant_info`.
  unfoldable pub qdrant_info : QdrantStack → Dict String
  qdrant_info s =
      ("qdrant-port", "6334")
      ∷ ("qdrant-host", cdk.attr s.qdrant_ec2_instance "instance_private_ip")
      ∷ []
