-- ===== src/Redis/Insight.antt =====
-- ecomm_modulith_cdk/Redis/redis_insight_stack.py
use services_modulith_infra.Base.{String, none, some, [], ◌∷◌, ◌^^◌, words}
use services_modulith_infra.Base.Dict.{Dict}
use services_modulith_infra.Shell.{Block, run, done, ◌⨟◌}
use services_modulith_infra.Cdk.{
  Handle, Cdk, Environment, Resource, any_ipv4, Build, pure, new, ingress, cfn_output, item, ◌>>=◌,
  ◌>>◌,
}

pub record RedisInsightStack : Type 0 where
  pub stack : Handle
  pub redis_insight_sg : Handle
  pub redis_insight_instance : Handle

-- The endpoint is put into the script's text.
abbrev pub insight_user_data : String → Block
insight_user_data endpoint =
    run (words "set -e")
    ⨟ run (words "sudo dnf update -y")
    ⨟ run (words "sudo dnf install -y docker")
    ⨟ run (words "sudo systemctl enable --now docker")
    ⨟ run (words "sudo usermod -aG docker ec2-user")
    ⨟ run (words "sudo mkdir -p /home/ec2-user/insight_storage")
    ⨟ run (words "sudo chown -R ec2-user:ec2-user /home/ec2-user/insight_storage")
    ⨟ run ("export" ∷ ("RI_REDIS_HOST='" ^^ endpoint ^^ "'") ∷ [])
    ⨟ run (words "sudo -u ec2-user docker pull redis-insight:latest")
    ⨟ run (
        words
          "sudo -u ec2-user docker run -d --name redis-insight -p 5540:5540 -e RI_REDIS_HOST=$RI_REDIS_HOST -v /home/ec2-user/insight_storage:/insight/storage --restart always redis/redisinsight:latest")
    ⨟ done

module _ (cdk : Cdk) where
  unfoldable pub redis_insight_stack :
      Handle → String → Handle → String → Dict String → Environment → Build RedisInsightStack
  redis_insight_stack scope construct_id vpc environment redis_info env = do
    self ← new scope construct_id (Resource.stack none env)
    group ← new self (environment ^^ "-RedisInsightSecurityGroup") (
        Resource.security_group (record {
          vpc = vpc;
          security_group_name = environment ^^ "-redis-insight-sg";
          description = "Security group for Redis insights";
        }))
    ingress group any_ipv4 5540 "Allow inbound traffic on port 6379"
    endpoint ← item redis_info "redis-endpoint"
    inst ← new self (environment ^^ "-RedisInsightInstance") (
        Resource.ec2_instance (record {
          instance_type = "t3.large";
          machine_image = "latest_amazon_linux2023";
          instance_name = environment ^^ "-redis-insight";
          device_name = "/dev/xvda";
          volume_gib = 50;
          vpc = vpc;
          security_group = group;
          user_data = insight_user_data endpoint;
        }))
    cfn_output self (environment ^^ "-InsightInstancePort") "5540"
        (some "The port of the Insight EC2 instance") none
    cfn_output self (environment ^^ "-InsightPrivateIP") (cdk.attr inst "instance_private_ip")
        (some "The private IP address of the Insight EC2 instance") none
    pure (record { stack = self; redis_insight_sg = group; redis_insight_instance = inst })

  -- The property `insight_info`.
  unfoldable pub insight_info : RedisInsightStack → Dict String
  insight_info s =
      ("insight-port", "5540")
      ∷ ("insight-host", cdk.attr s.redis_insight_instance "instance_private_ip")
      ∷ []
