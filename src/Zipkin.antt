-- ===== src/Zipkin.antt =====
-- ecomm_modulith_cdk/Zipkin/zipkin_stack.py: the trace server on an EC2 instance.
use services_modulith_infra.Base.{String, none, some, [], ◌∷◌, ◌^^◌, words}
use services_modulith_infra.Base.Dict.{Dict}
use services_modulith_infra.Shell.{Block, run, done, ◌⨟◌}
use services_modulith_infra.Cdk.{
  Handle, Cdk, Environment, Ec2Instance, Resource, ipv4, Build, pure, new, ingress, cfn_output,
  ◌>>=◌, ◌>>◌,
}

pub record ZipkinStack : Type 0 where
  pub stack : Handle
  pub zipkin_ec2_security_group : Handle
  pub zipkin_ec2_instance : Handle

abbrev pub zipkin_user_data : Block
zipkin_user_data =
    run (words "set -e")
    ⨟ run (words "sudo dnf update -y")
    ⨟ run (words "sudo dnf install -y docker")
    ⨟ run (words "sudo systemctl enable --now docker")
    ⨟ run (words "sudo usermod -aG docker ec2-user")
    ⨟ run (words "sudo mkdir -p /home/ec2-user/zipkin_storage")
    ⨟ run (words "sudo chown -R ec2-user:ec2-user /home/ec2-user/zipkin_storage")
    ⨟ run (words "sudo -u ec2-user docker pull openzipkin/zipkin")
    ⨟ run (
        words
          "sudo -u ec2-user docker run -d --name zipkin -p 9411:9411 -v /home/ec2-user/zipkin_storage:/zipkin/storage --restart always openzipkin/zipkin")
    ⨟ done

abbrev pub zipkin_server : String → Handle → Handle → Ec2Instance
zipkin_server environment vpc group = record {
  instance_type = "t3.large";
  machine_image = "latest_amazon_linux2023";
  instance_name = environment ^^ "-zipkin";
  device_name = "/dev/xvda";
  volume_gib = 50;
  vpc = vpc;
  security_group = group;
  user_data = zipkin_user_data;
}

module _ (cdk : Cdk) where
  unfoldable pub zipkin_stack : Handle → String → Handle → String → Environment → Build ZipkinStack
  zipkin_stack scope construct_id vpc environment env = do
    self ← new scope construct_id (Resource.stack (some "Ec2 instance for Zipkin") env)
    group ← new self (environment ^^ "-ZipkinSecurityGroup") (
        Resource.security_group (record {
          vpc = vpc;
          security_group_name = environment ^^ "-zipkin-ec2-sg";
          description = "Security group for zipkin EC2";
        }))
    ingress group (ipv4 (cdk.attr vpc "vpc_cidr_block")) 22 "Allow SSH access from private subnets"
    ingress group (ipv4 (cdk.attr vpc "vpc_cidr_block")) 9411
        "Allow access zipkin from private subnets"
    inst ←
        new self (environment ^^ "-ZipkinInstance")
          (Resource.ec2_instance (zipkin_server environment vpc group))
    cfn_output self (environment ^^ "-ZipkinInstancePort") "9411"
        (some "The port of the Zipkin EC2 instance") none
    cfn_output self (environment ^^ "-ZipkinPrivateIP") (cdk.attr inst "instance_private_ip")
        (some "The private IP address of the Zipkin EC2 instance") none
    pure (record { stack = self; zipkin_ec2_security_group = group; zipkin_ec2_instance = inst })

  -- The property `zipkin_info`.
  unfoldable pub zipkin_info : ZipkinStack → Dict String
  zipkin_info s =
      ("zipkin-port", "9411")
      ∷ ("zipkin-host", cdk.attr s.zipkin_ec2_instance "instance_private_ip")
      ∷ []
