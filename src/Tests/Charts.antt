-- ===== src/Tests/Charts.antt =====
-- A handler over a counter of calls, with the program's own charts in it.
use treenq.Base.{ℕ, Text, bytes, Panicking, returns, ◌++◌}
use treenq.Domain.Handler.{Handler}
use treenq.Services.Kube.Chart.{Chart, define_app}
use treenq.Tests.Demo.{handler}

abbrev synth_yaml : Chart → Panicking Text
synth_yaml chart = returns (bytes "kind: Namespace\nname: " ++ chart.own_namespace.name)

abbrev charting : Handler ℕ
charting = record handler { kube = record handler.kube { define_app = define_app synth_yaml } }
