-- ===== src/Services/Kube/Chart.antt =====
-- src/services/cdk/kube.go, `DefineApp`: the chart of an application. The constructs of cdk8s and
-- cdk8s-plus are data, each with the properties that the program gives it; that cdk8s makes YAML of
-- a chart, or panics, is a parameter. A number of jsii is exact for the integers that an `int` of
-- less than 53 bits has.
pub mod Served
use treenq.Base.{List, [], ◌∷◌, ◌++◌, Text, bytes, Panicking, returns, panics}
use treenq.Go.{ℤ, pos}
use treenq.Sdk.{Space, ComputationResource, to_computation_resource}
use treenq.Domain.Types.{Image, full_path}

pub record Namespace : Type 0 where
  pub construct_id : Text
  pub name : Text
  pub namespace : Text

pub record Volume : Type 0 where
  pub construct_id : Text
  pub name : Text

pub record ContainerPort : Type 0 where
  pub number : ℤ
  pub name : Text

pub record VolumeMount : Type 0 where
  pub path : Text
  pub volume : Volume

-- What a container may use and what it asks for: CPU in millis, storage in GiB, memory in MiB.
pub record Amount : Type 0 where
  pub limit : ℤ
  pub request : ℤ

pub record ContainerResources : Type 0 where
  pub cpu : Amount
  pub ephemeral_storage : Amount
  pub memory : Amount

pub record Container : Type 0 where
  pub name : Text
  pub image : Text
  pub ports : List ContainerPort
  pub env_variables : List (Text × Text)
  pub volume_mounts : List VolumeMount
  pub resources : ContainerResources

pub record Deployment : Type 0 where
  pub construct_id : Text
  pub replicas : ℤ
  pub containers : List Container
  pub volumes : List Volume

pub record ServicePort : Type 0 where
  pub name : Text
  pub port : ℤ
  pub target_port : ℤ

pub record KubeService : Type 0 where
  pub construct_id : Text
  pub ports : List ServicePort
  pub selector : Deployment

pub data PathType : Type 0 where
  prefix exact implementation_specific : PathType

-- `IngressBackend_FromResource`: a reference to an object in the namespace, by its group, kind and
-- name. It names no port.
pub data IngressBackend : Type 0 where
  from_resource : KubeService → IngressBackend

pub record IngressRule : Type 0 where
  pub host : Text
  pub path : Text
  pub path_type : PathType
  pub backend : IngressBackend

pub record Ingress : Type 0 where
  pub construct_id : Text
  pub rules : List IngressRule

-- A chart with the constructs that are made in it.
pub record Chart : Type 0 where
  pub construct_id : Text
  pub namespace : Text
  pub own_namespace : Namespace
  pub tmp_volume : Volume
  pub deployment : Deployment
  pub service : KubeService
  pub ingress : Ingress

abbrev pub namespace_of : Text → Space → Text
namespace_of id app = id ++ b'-' ∷ app.key

abbrev pub volume_of : Space → Volume
volume_of app = record {
  construct_id = app.service.name ++ bytes "-volume-tmp";
  name = bytes "tmp";
}

abbrev both : ℤ → Amount
both n = record { limit = n; request = n }

abbrev pub resources_of : ComputationResource → ContainerResources
resources_of res = record {
  cpu = both res.cpu_units;
  ephemeral_storage = both res.disk_gibs;
  memory = both res.memory_mibs;
}

abbrev pub container_of : Space → Image → ComputationResource → Container
container_of app image res = record {
  name = app.service.name;
  image = full_path image;
  ports = record { number = app.service.http_port; name = bytes "http" } ∷ [];
  env_variables = app.service.runtime_envs;
  volume_mounts = record { path = bytes "/tmp"; volume = volume_of app } ∷ [];
  resources = resources_of res;
}

abbrev pub deployment_of : Space → Image → ComputationResource → Deployment
deployment_of app image res = record {
  construct_id = app.service.name ++ bytes "-deployment";
  replicas = app.service.replicas;
  containers = container_of app image res ∷ [];
  volumes = volume_of app ∷ [];
}

abbrev pub service_of : Space → Deployment → KubeService
service_of app deployment = record {
  construct_id = app.service.name ++ bytes "-service";
  ports = record { name = bytes "http"; port = pos 80; target_port = app.service.http_port } ∷ [];
  selector = deployment;
}

abbrev pub ingress_of : Space → KubeService → Ingress
ingress_of app service = record {
  construct_id = app.service.name ++ bytes "-ingress";
  rules =
      record {
        host = app.service.host;
        path = bytes "/";
        path_type = prefix;
        backend = from_resource service;
      }
      ∷ [];
}

unfoldable pub new_app_chart : Text → Space → Image → ComputationResource → Chart
new_app_chart id app image res =
    let deployment = deployment_of app image res in
    let service = service_of app deployment in
    record {
      construct_id = id;
      namespace = namespace_of id app;
      own_namespace = record {
        construct_id = id ++ bytes "-ns";
        name = namespace_of id app;
        namespace = [];
      };
      tmp_volume = volume_of app;
      deployment = deployment;
      service = service;
      ingress = ingress_of app service;
    }

abbrev pub with_resource :
    (Chart → Panicking Text) → Text → Space → Image → Panicking ComputationResource → Panicking Text
with_resource synth_yaml id app image (returns res) = synth_yaml (new_app_chart id app image res)
with_resource synth_yaml id app image (panics m) = panics m

-- A size slug that does not convert panics on the way.
unfoldable pub define_app : (Chart → Panicking Text) → Text → Space → Image → Panicking Text
unfolding to_computation_resource new_app_chart
define_app synth_yaml id app image =
    with_resource synth_yaml id app image (to_computation_resource app.service.size_slug)
