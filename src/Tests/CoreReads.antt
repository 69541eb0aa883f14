-- ===== src/Tests/CoreReads.antt =====
-- Reading a firehose that depends on a cluster.
use entropy.Base.{ℕ, length, true, List, ◌↔◌, String, some, none, [], ◌∷◌, ◌≡◌, refl, arith}
use entropy.Base.Dict.{lookup, insert, has_key}
use entropy.Io.{Result, ok, ◌>>=◌}
use entropy.Resource.{Resource, generate_urn}
use entropy.Module.{ExpandedResource, ResolvedDependency}
use mathlib.Core.List.{Memᴰ}
use entropy.Resource.Filter.{Filter, apply, is_match}
use entropy.Resource.Filter.Laws.{Matches}
use entropy.Core.{
  list_resources, get_resource, generate_module_spec, resolve_dependencies, check_dependency,
  refresh_output,
}
use entropy.Core.Termination.{get_resource_total}
use entropy.Core.Listed.{list_resources-eq-ok}
use entropy.Core.Dependencies.{IsResolved, generate_module_spec-eq-ok}
use entropy.Tests.Fixture.{
  World, memory, deps_of, rank, world, world-IsRanked, memory-KeepsDependencies, firehose, cluster,
  firehose_urn,
}

get_resource_total_example :
    (r : Result Resource) × (w' : World) × (get_resource memory 2 firehose_urn world ≡ some (r, w'))
    × (deps_of w' ≡ deps_of world)
get_resource_total_example =
    get_resource_total memory deps_of memory-KeepsDependencies rank world world-IsRanked 2
      firehose_urn (omega arith)

read_firehose : get_resource memory 2 firehose_urn world ≡ some (ok firehose, world)
unfolding get_resource generate_module_spec resolve_dependencies check_dependency refresh_output
    ◌>>=◌ lookup insert generate_urn
read_firehose = refl

abbrev expanded : ExpandedResource
expanded = record {
  resource = firehose;
  dependencies =
      ("kube_cluster", record { kind = "kubernetes"; output = cluster.state.output }) ∷ [];
}

expand_firehose :
    generate_module_spec (get_resource memory 1) firehose world ≡ some (ok expanded, world)
unfolding get_resource generate_module_spec resolve_dependencies check_dependency refresh_output
    ◌>>=◌ lookup insert generate_urn
expand_firehose = refl

generate_module_spec-eq-ok_example :
    (expanded.resource ≡ firehose)
    × ((key : String)
        → (lookup key firehose.spec.dependencies ≡ none → lookup key expanded.dependencies ≡ none)
          × ((urn : String)
              → lookup key firehose.spec.dependencies ≡ some urn
              → (dep : ResolvedDependency) × (lookup key expanded.dependencies ≡ some dep)
                × IsResolved (get_resource memory 1) firehose urn dep))
unfolding has_key
generate_module_spec-eq-ok_example =
    generate_module_spec-eq-ok (get_resource memory 1) firehose world world expanded (refl, tt)
      expand_firehose

abbrev every_kubernetes : Filter
every_kubernetes = record {
  kind = "kubernetes";
  project = "";
  labels = none;
  page_size = 0;
  page_num = 0;
}

list_clusters :
    list_resources memory every_kubernetes true world ≡ some (ok (1, cluster ∷ []), world)
unfolding list_resources ◌>>=◌ apply is_match generate_urn
list_clusters = refl

list_resources-eq-ok_example :
    (stored : List Resource) × (memory.store.list every_kubernetes true world ≡ (ok stored, world))
    × (◌≡◌ {A = ℕ} 1 (length (cluster ∷ [])))
    × ((r : Resource) → Memᴰ r (cluster ∷ []) ↔ (Memᴰ r stored × Matches every_kubernetes r))
list_resources-eq-ok_example =
    list_resources-eq-ok memory every_kubernetes true world world 1 (cluster ∷ []) list_clusters
