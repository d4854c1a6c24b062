-- ===== src/Api/Charting.antt =====
-- The webhook's handler with the program's own charts.
use treenq.Base.{Any, List, [], ◌∷◌, ◌++◌, Text, ok, Panicking, returns, ◌≡◌}
use treenq.Sdk.{Space}
use treenq.Domain.Types.{Image}
use treenq.Domain.Handler.{Handler}
use treenq.Domain.Run.{Event, extracted, built, applied}
use treenq.Domain.Webhook.{build_request}
use treenq.Services.Kube.Chart.{Chart}
use treenq.Services.Kube.Chart.Served.{Serves}

module _ (synth_yaml : Chart → Panicking Text) where
  -- A manifest that was applied is the YAML of a chart that serves an application, of a
  -- configuration that was extracted before.
  abbrev pub IsServing : List Event → Event → Type 0
  IsServing es (applied config manifest (ok _)) =
      (extractor_id : Text) × (repo_dir : Text) × (app : Space) × (image : Image) × (chart : Chart)
      × Any (λ e. e ≡ extracted extractor_id repo_dir (ok app)) es
      × Any (λ e. e ≡ built (build_request repo_dir app) (ok image)) es
      × (synth_yaml chart ≡ returns manifest)
      × Serves app image chart
  IsServing es _ = Unit

  -- Each event of a log serves an application by what stands before it, in the log or in front.
  abbrev pub ServedBehind : List Event → List Event → Type 0
  ServedBehind before [] = Unit
  ServedBehind before (e ∷ es) = IsServing before e × ServedBehind (before ++ e ∷ []) es

  -- A log in which everything that was applied serves an application.
  abbrev pub IsServed : List Event → Type 0
  IsServed es = ServedBehind [] es
