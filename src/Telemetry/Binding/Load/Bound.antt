-- ===== src/Telemetry/Binding/Load/Bound.antt =====
-- What a binding takes from the configuration and from the declared network.
use telconet_sentinel.Common.{String, map, ◌≡◌}
use telconet_sentinel.Common.Dict.{Dict}
use telconet_sentinel.Common.Json.{Json}
use telconet_sentinel.Intent.{NetworkIntent, LinkIntent}
use telconet_sentinel.Telemetry.Binding.{
  TelemetryConfig, TelemetryLink, TelemetryTopologyBinding, target_node,
}
use telconet_sentinel.Telemetry.Binding.Load.{config_nodes}

-- A link with its ends, as it is declared and as it is bound.
abbrev pub declared_ends : LinkIntent → String × String × String
declared_ends l = (l.id, l.endpoints.0, l.endpoints.1)

abbrev pub bound_ends : TelemetryLink → String × String × String
bound_ends l = (l.id, l.source, l.target)

-- What a binding has in common with the configuration and the declared network.
pub record IsBound (config : TelemetryConfig) (intent : NetworkIntent)
    (b : TelemetryTopologyBinding) : Type 0 where
  pub nodes : map target_node b.targets ≡ config_nodes config
  pub ends : map bound_ends b.links ≡ map declared_ends intent.links
