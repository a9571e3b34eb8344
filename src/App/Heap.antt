-- ===== src/App/Heap.antt =====
-- The heaps of the Java services against the memory of their tasks.
use services_modulith_infra.Base.{
  ℕ, String, ◌≡◌, refl, ◌⊎◌, inl, inr, true, Bool-cases, Option, none, some, List, [], ◌∷◌, All, In,
  eqb, ltb, number, split, words, ◌==◌, ◌^^◌, if◌then◌else◌,
}
use Prim.Native.Char.{code}
use services_modulith_infra.Base.Dict.{Dict, lookup}
use services_modulith_infra.Cdk.{Handle, Cdk, Resource, Call}
use services_modulith_infra.App.{app, getenv_or}
use services_modulith_infra.Cdk.Log.{collect}

abbrev drop_prefix : String → String → Option String
drop_prefix String.[] t = some t
drop_prefix (String.◌∷◌ c p) String.[] = none
drop_prefix (String.◌∷◌ c p) (String.◌∷◌ d t) =
    let rest = drop_prefix p t in if eqb (code c) (code d) then rest else none

-- The number before the unit `m`.
abbrev megabytes : List String → Option ℕ
megabytes (digits ∷ String.[] ∷ []) = number digits
megabytes _ = none

-- The maximal heap that a JVM option names, in MiB.
abbrev heap_of_option : String → Option ℕ
heap_of_option w = elim (drop_prefix "-Xmx" w) [ none ↦ none | some t ↦ megabytes (split b'm' t) ]

abbrev heap_of_options : List String → Option ℕ
heap_of_options [] = none
heap_of_options (w ∷ ws) =
    let rest = heap_of_options ws in elim (heap_of_option w) [ none ↦ rest | some m ↦ some m ]

abbrev heap_of : Dict String → Option ℕ
heap_of env = elim (lookup "JAVA_TOOL_OPTIONS" env) [
  | none ↦ none
  | some t ↦ heap_of_options (words t)
]

abbrev with_task : Handle → Option ℕ → Option (Handle × ℕ)
with_task task none = none
with_task task (some m) = some (task, m)

abbrev heap_of_call : Call → Option (Handle × ℕ)
heap_of_call (Call.add_container task id c) = with_task task (heap_of c.environment)
heap_of_call _ = none

-- The maximal heaps of the containers, with the task definitions that these are in.
abbrev pub heaps : List Call → List (Handle × ℕ)
heaps = collect heap_of_call

abbrev memory_of_call : Call → Option (Handle × ℕ)
memory_of_call (Call.create scope id (Resource.task_definition t)) =
    some (id ∷ scope, t.memory_limit_mib)
memory_of_call _ = none

-- The task definitions with their memory.
abbrev pub memories : List Call → List (Handle × ℕ)
memories = collect memory_of_call

-- The heap is below the memory of its task definition.
abbrev pub Fits : List Call → Handle × ℕ → Type 0
Fits calls h = (memory : ℕ) × In (h.0, memory) (memories calls) × (ltb h.1 memory ≡ true)

abbrev pub ecomm_task : String → Handle
ecomm_task p =
    (p ^^ "-EcommAppFargateServiceTaskDef")
    ∷ (p ^^ "-EcommService")
    ∷ (p ^^ "-EcsFargateStack")
    ∷ []

-- Under every value of ENVIRONMENT, the maximal heap of each Java container is below the memory of its
-- task, except in the task of the e-commerce application, where a heap of 3200 MiB stands in a memory
-- of 2048 MiB.
pub heaps-app :
    (cdk : Cdk) (variable : Option String)
    → let calls = (app cdk variable).calls in
      let task = ecomm_task (getenv_or variable "prod") in
      All (λ h. Fits calls h ⊎ (h.0 ≡ task)) (heaps calls)
      × In (task, 3200) (heaps calls)
      × In (task, 2048) (memories calls)
unfolding app
heaps-app cdk variable = elim (Bool-cases (getenv_or variable "prod" == "dev")) [
  | inl e ↦ rw e (
    (inl (2048, inl refl, refl), (inl (2048, inr (inl refl), refl), (inr refl, tt))),
    inr (inr (inl refl)),
    inr (inr (inr (inr (inl refl)))),
  )
  | inr e ↦ rw e (
    (inl (2048, inl refl, refl), (inl (2048, inr (inl refl), refl), (inr refl, tt))),
    inr (inr (inl refl)),
    inr (inr (inr (inl refl))),
  )
]
