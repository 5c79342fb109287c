-- ===== src/Topology/Examples.antt =====
-- The theorems of this component at a concrete project: a cloud provider, a local one and a
-- deployment that stands for the local one.
use llmplane.Common.{
  ℕ, ◌≡◌, ◌⊎◌, true, List, [], ◌∷◌, none, some, text, text_methods, All, Has, leb, not, arith,
}
use llmplane.Topology.Types.{Numbers, ProviderLike, DeploymentLike}
use llmplane.Topology.Build.{is_local, is_covered, dep_id, prov_id, build_topology}
use llmplane.Topology.Graph.{IsJoined, node_ids, build_topology-IsJoined}
use llmplane.Topology.Coverage.{rows_shown}
use llmplane.Topology.Names.{Distinct, build_topology-Distinct}

abbrev whole_numbers : Numbers ℕ
whole_numbers = record {
  plain = λ n. n ∷ [];
  rounded = λ n. n ∷ [];
  fixed = λ d n. n ∷ [];
  above = λ n m. not (leb n m);
}

abbrev cloud_row : ProviderLike ℕ
cloud_row = record {
  id = text "p1";
  provider_type = text "openai";
  display_name = text "OpenAI";
  health_status = some (text "healthy");
  is_active = some true;
  last_latency_ms = some 120;
}

abbrev local_row : ProviderLike ℕ
local_row = record cloud_row {
  id = text "p2";
  provider_type = text "ollama";
  display_name = text "llama3";
}

abbrev llama : DeploymentLike ℕ
llama = record {
  id = text "d1";
  model_ref = text "llama3";
  backend_type = text "ollama";
  status = text "running";
  port = some 11434;
  gpu_index = none;
  quantization = none;
}

abbrev providers : List (ProviderLike ℕ)
providers = cloud_row ∷ local_row ∷ []

abbrev deployments : List (DeploymentLike ℕ)
deployments = llama ∷ []

build_topology-IsJoined_example :
    All
      (IsJoined (node_ids (build_topology whole_numbers providers deployments none).nodes))
      (build_topology whole_numbers providers deployments none).edges
build_topology-IsJoined_example = build_topology-IsJoined whole_numbers providers deployments none

rows_shown_example :
    ((d : DeploymentLike ℕ)
      → Has d deployments
      → Has
          (dep_id d.id)
          (build_topology whole_numbers providers deployments none).provider_node_ids)
    × ((p : ProviderLike ℕ)
        → Has p providers
        → Has
            (prov_id p.id)
            (build_topology whole_numbers providers deployments none).provider_node_ids
          ⊎ ((is_local p.provider_type ≡ true) × (is_covered deployments p ≡ true)))
rows_shown_example = rows_shown whole_numbers providers deployments none

build_topology-Distinct_example :
    Distinct (node_ids (build_topology whole_numbers providers deployments none).nodes)
unfolding text_methods
build_topology-Distinct_example =
    build_topology-Distinct whole_numbers providers deployments none
      ((λ h. ground (arith, h)), ((λ h. h), tt)) ((λ h. h), tt)
