-- ===== src/Services/Kube/Chart/Served.antt =====
-- What a chart of src/services/cdk/kube.go is for: to serve an application.
use treenq.Base.{Any, inl, List, Text, bytes, Panicking, returns, panics, ◌≡◌, refl, All, arith}
use treenq.Go.{ℤ}
use treenq.Sdk.{Space, ComputationResource, to_computation_resource}
use treenq.Sdk.Slugs.{IsAmount, to_computation_resource-IsAmount}
use treenq.Domain.Types.{Image, full_path}
use treenq.Services.Kube.Chart.{
  Amount, Container, IngressRule, IngressBackend, from_resource, KubeService, Volume, Chart, prefix,
  new_app_chart, with_resource, define_app,
}

abbrev IsSized : Amount → Type 0
IsSized a = IsAmount a.limit × (a.request ≡ a.limit)

-- A container of the application's image with its environment, that listens on a port, mounts
-- volumes of its pod, and asks for what it may use: the amounts of the application's size slug.
abbrev IsContainer : Space → Image → ℤ → List Volume → Container → Type 0
IsContainer app image port volumes c =
    (c.image ≡ full_path image)
    × (c.env_variables ≡ app.service.runtime_envs)
    × Any (λ p. p.number ≡ port) c.ports
    × All (λ m. Any (λ v. v ≡ m.volume) volumes) c.volume_mounts
    × IsSized c.resources.cpu
    × IsSized c.resources.ephemeral_storage
    × IsSized c.resources.memory
    × (to_computation_resource app.service.size_slug
        ≡ returns (record {
          cpu_units = c.resources.cpu.limit;
          memory_mibs = c.resources.memory.limit;
          disk_gibs = c.resources.ephemeral_storage.limit;
        }))

abbrev referred : IngressBackend → KubeService
referred (from_resource service) = service

-- A rule of the ingress that gives every path of the application's host to a service, which it names
-- as a resource; a port of the service leads to a container of the application.
abbrev IsRoute : Space → Image → IngressRule → Type 0
IsRoute app image rule =
    (rule.host ≡ app.service.host)
    × (rule.path ≡ bytes "/")
    × (rule.path_type ≡ prefix)
    × Any
        (λ p.
          Any (IsContainer app image p.target_port (referred rule.backend).selector.volumes)
            (referred rule.backend).selector.containers)
        (referred rule.backend).ports

-- The host of the application is given to its service, whose pods are those of the deployment, in as
-- many replicas as it wants, and all is in the namespace that the chart makes.
pub record Serves (app : Space) (image : Image) (chart : Chart) : Type 0 where
  pub routed : Any (IsRoute app image) chart.ingress.rules
  pub deployed : All (λ r. (referred r.backend).selector ≡ chart.deployment) chart.ingress.rules
  pub replicated : chart.deployment.replicas ≡ app.service.replicas
  pub homed : chart.own_namespace.name ≡ chart.namespace

new_app_chart-Serves :
    (id : Text) (app : Space) (image : Image) (res : ComputationResource)
    → to_computation_resource app.service.size_slug ≡ returns res
    → IsAmount res.cpu_units × IsAmount res.memory_mibs × IsAmount res.disk_gibs
    → Serves app image (new_app_chart id app image res)
unfolding new_app_chart
new_app_chart-Serves id app image res sized (cpu, memory, disk) = record {
  routed = inl (
    refl,
    refl,
    refl,
    inl (
        inl
          (refl, refl, inl refl, (inl refl, tt), (cpu, refl), (disk, refl), (memory, refl), sized)),
  );
  deployed = (refl, tt);
  replicated = refl;
  homed = refl;
}

-- A definition that does not panic is the YAML of a chart that serves the application.
pub define_app-Serves :
    (synth_yaml : Chart → Panicking Text) (id : Text) (app : Space) (image : Image)
    (manifest : Text)
    → define_app synth_yaml id app image ≡ returns manifest
    → (chart : Chart) × (synth_yaml chart ≡ returns manifest) × Serves app image chart
unfolding define_app
define_app-Serves synth_yaml id app image manifest =
    go (to_computation_resource app.service.size_slug) refl
  where
    go :
        (p : Panicking ComputationResource)
        → to_computation_resource app.service.size_slug ≡ p
        → with_resource synth_yaml id app image p ≡ returns manifest
        → (chart : Chart) × (synth_yaml chart ≡ returns manifest) × Serves app image chart
    go (panics m) sized e = ground arith
    go (returns res) sized e = (
      new_app_chart id app image res,
      e,
      new_app_chart-Serves id app image res sized
          (to_computation_resource-IsAmount app.service.size_slug res sized),
    )
