-- ===== src/Fargate/Runs.antt =====
-- The runs of `create_internal_service`.
use services_modulith_infra.Base.{
  ℕ, String, ◌≡◌, refl, inl, inr, Bool, true, false, All, In, number, Option, none, some, [], ◌∷◌,
  arith, if◌then◌else◌, ◌^^◌, Bool-cases,
}
use services_modulith_infra.Cdk.{Handle, Cdk, Call, ok}
use services_modulith_infra.Fargate.Internal.{
  InternalService, create_internal_service, container_of, is_grpc, probe, service_port,
}
use services_modulith_infra.Cdk.Log.{collect}
use services_modulith_infra.Ports.{AreConsistent, command_ports}
use services_modulith_infra.Fargate.Environment.{
  lacks_some, service_environment-ok, service_environment-calls,
}

-- Does a call let in traffic at a port?
abbrev pub allows : Call → Option ℕ
allows (Call.allow_from h r) = some r.port
allows _ = none

-- The port that a service listens on, by the list of the gRPC services.
abbrev listens : String → ℕ
listens name = if is_grpc name then 9090 else 8080

-- The probe of a container asks the port that the container maps.
probe-mapped :
    (grpc : Bool)
    → All
        (λ port. In (number port) (some (service_port grpc) ∷ []))
        (command_ports ("CMD-SHELL" ∷ probe grpc ∷ []))
probe-mapped true = (inl refl, tt)
probe-mapped false = (inl refl, tt)

-- A service whose dicts lack nothing is created: the run returns the service, its ports agree, and
-- it lets in traffic at the port that its name stands for.
pub create_internal_service-returns :
    (cdk : Cdk) (scope : Handle) (s : InternalService)
    → lacks_some s ≡ false
    → let run = create_internal_service cdk scope s in
      (run.result ≡ ok ((s.name ^^ "Service") ∷ scope))
      × AreConsistent run.calls
      × (collect allows run.calls ≡ listens s.name ∷ [])
unfolding create_internal_service container_of
create_internal_service-returns cdk scope s h =
    let (env, e) = service_environment-ok s h in
    let c = service_environment-calls s in
    elim (Bool-cases (is_grpc s.name)) [
      | inl g ↦ (
        ground arith,
        record {
          connected = ground arith;
          checked = ground arith;
          probed = rw (e, c) (probe-mapped (is_grpc s.name), tt);
        },
        ground arith,
      )
      | inr g ↦ (
        ground arith,
        record {
          connected = ground arith;
          checked = ground arith;
          probed = rw (e, c) (probe-mapped (is_grpc s.name), tt);
        },
        ground arith,
      )
    ]
