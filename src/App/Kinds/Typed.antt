-- ===== src/App/Kinds/Typed.antt =====
-- The calls of the application name constructs of the kinds that they ask for.
use services_modulith_infra.Base.{
  String, ◌≡◌, refl, ap, sym, subst, Bool, true, false, ◌&&◌, ◌||◌, Option, List, [], ◌∷◌, ◌++◌,
  map, In, inl, inr, eq_iff, ◌==◌, if◌then◌else◌, arith, Bool-cases,
}
use services_modulith_infra.Cdk.{Handle, Cdk}
use services_modulith_infra.App.{app, getenv_or}
use services_modulith_infra.App.Names.{render_path}
use services_modulith_infra.App.Symbols.{same_path, same_path-eq}
use services_modulith_infra.App.Kinds.{Event, made, used, events, learn, WellTyped}
use services_modulith_infra.App.Kinds.Lines.{Place, whole, part, Named, join}
use services_modulith_infra.App.Kinds.Stacks.{network, insight, databases}
use services_modulith_infra.App.Kinds.Services.{cluster, mongo_express, services}

abbrev Known : Type 0
Known = String × Place

abbrev same_place : Place → Place → Bool
same_place (whole h) (whole g) = same_path h g
same_place (part h s) (part g t) = s == t && same_path h g
same_place _ _ = false

same_place-eq : (a b : Place) → same_place a b ≡ true → a ≡ b
same_place-eq (whole h) (whole g) e = ap whole (same_path-eq h g e)
same_place-eq (part h s) (part g t) e = ground (arith, eq_iff s t, same_path-eq h g)
same_place-eq (whole h) (part g t) e = cc
same_place-eq (part h s) (whole g) e = cc

abbrev is_known : String → Place → List Known → Bool
is_known k a [] = false
is_known k a ((j, b) ∷ known) = (k == j && same_place a b) || is_known k a known

abbrev well_typed : List Known → List Named → Bool
well_typed known [] = true
well_typed known (made ks a ∷ es) = well_typed (learn ks a known) es
well_typed known (used k a ∷ es) = is_known k a known && well_typed known es

module _ (cdk : Cdk) (p : String) where
  abbrev render_place : Place → Handle
  render_place (whole h) = render_path p h
  render_place (part h s) = cdk.part (render_path p h) s

  abbrev render_known : Known → String × Handle
  render_known (k, a) = (k, render_place a)

  abbrev render_event : Named → Event Handle
  render_event (made ks a) = made ks (render_place a)
  render_event (used k a) = used k (render_place a)

  is_known-In :
      (k : String) (a : Place) (known : List Known)
      → is_known k a known ≡ true
      → In (k, render_place a) (map render_known known)
  is_known-In k a [] e = cc
  is_known-In k a ((j, b) ∷ known) e = elim (Bool-cases (k == j && same_place a b)) [
    | inl t ↦
        inl (cc (ap render_place (same_place-eq a b (ground arith)), (eq_iff k j).0 (ground arith)))
    | inr f ↦ inr (is_known-In k a known (ground arith))
  ]

  map-learn :
      (ks : List String) (a : Place) (known : List Known)
      → map render_known (learn ks a known) ≡ learn ks (render_place a) (map render_known known)
  map-learn [] a known = refl
  map-learn (k ∷ ks) a known = ap ((k, render_place a) ∷◌) (map-learn ks a known)

  well_typed-WellTyped :
      (known : List Known) (es : List Named)
      → well_typed known es ≡ true
      → WellTyped (map render_known known) (map render_event es)
  well_typed-WellTyped known [] h = tt
  well_typed-WellTyped known (made ks a ∷ es) h =
      subst (λ k. WellTyped k (map render_event es)) (map-learn ks a known)
        (well_typed-WellTyped (learn ks a known) es h)
  well_typed-WellTyped known (used k a ∷ es) h =
      (is_known-In k a known (ground arith), well_typed-WellTyped known es (ground arith))

abbrev named_events : Bool → List Named
named_events dev = join (
    network
    ++ ((if dev then insight else [])
        ++ (databases ++ (cluster ++ ((if dev then mongo_express else []) ++ services)))))

events-app :
    (cdk : Cdk) (variable : Option String) (dev : Bool)
    → (getenv_or variable "prod" == "dev") ≡ dev
    → events cdk (app cdk variable).calls
      ≡ map (render_event cdk (getenv_or variable "prod")) (named_events dev)
unfolding app
events-app cdk variable true e = rw e (rw e refl)
events-app cdk variable false e = rw e (rw e refl)

named_events-typed : (dev : Bool) → well_typed [] (named_events dev) ≡ true
named_events-typed true = refl
named_events-typed false = refl

-- Under every value of ENVIRONMENT, each construct that a call of the application names was made before
-- by an earlier call, and is of the kind that the call asks for: a scope or an end of a dependency is
-- a construct, and each network, security group, role, secret, cluster, task definition, container,
-- layer, service, target group and grantee is one of its kind.
pub events-WellTyped :
    (cdk : Cdk) (variable : Option String) → WellTyped [] (events cdk (app cdk variable).calls)
events-WellTyped cdk variable =
    let p = getenv_or variable "prod" in
    let dev = p == "dev" in
    subst (WellTyped []) (sym (events-app cdk variable dev refl))
      (well_typed-WellTyped cdk p [] (named_events dev) (named_events-typed dev))
