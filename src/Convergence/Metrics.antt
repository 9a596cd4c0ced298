-- ===== src/Convergence/Metrics.antt =====
-- `render_live_metrics` of convergence.py. A time of more than six digits is rounded when it is
-- written, and the text of such a one is a parameter.
use telconet_sentinel.Common.{
  ℕ, String, Bool, true, not, Option, none, some, List, [], ◌∷◌, ◌++◌, map, digit, decimal, join,
  ltb, nat_beq, ◌<>◌, ◌==◌, if◌then◌else◌,
}
use Prim.Native.Nat.{suc, ◌/◌, ◌%◌}
use telconet_sentinel.Common.Int.{ℤ, pos, negsuc}
use telconet_sentinel.Errors.{Result, ok, ◌>>=◌}
use telconet_sentinel.Convergence.{
  ConvergenceEvent, ConvergenceEventKind, ConvergenceRun, bfd_down, ospf_neighbor_down,
  route_failover, data_plane_recovered, blackhole_injected, value, same_kind, has_kind, kinds,
  status,
}

-- `events.get(kind)`, where a later event takes the place of an earlier one
unfoldable pub event_of :
    ConvergenceEventKind → Option ConvergenceEvent → List ConvergenceEvent → Option ConvergenceEvent
event_of kind found [] = found
event_of kind found (event ∷ events) =
    event_of kind (if same_kind kind event.kind then some event else found) events

-- `str(n)`, of an integer
abbrev integer_text : ℤ → String
integer_text (pos n) = decimal n
integer_text (negsuc n) = "-" <> decimal (suc n)

abbrev metric_text : Option ℤ → String
metric_text none = "None"
metric_text (some n) = integer_text n

abbrev route_metric_text : Option ConvergenceEvent → String
route_metric_text none = "30"
route_metric_text (some event) = metric_text event.route_metric

-- The thousandths of a second, without the zeros at their end.
unfoldable pub thousandths : ℕ → String
thousandths n =
    if nat_beq n 0
    then ""
    else if nat_beq (n % 100) 0
    then "." <> digit (n / 100)
    else if nat_beq (n % 10) 0
    then "." <> digit (n / 100) <> digit (n / 10 % 10)
    else "." <> digit (n / 100) <> digit (n / 10 % 10) <> digit (n % 10)

abbrev labelled : String → String → String → String
labelled name labels text = name <> "{" <> labels <> "} " <> text

abbrev one_if : Bool → String
one_if b = if b then "1" else "0"

-- The texts that say what each metric is.
abbrev live_help : List String
live_help =
    "# HELP telconet_live_run_complete Whether the latest live run recorded all stages."
    ∷ "# TYPE telconet_live_run_complete gauge"
    ∷ "# HELP telconet_live_event_offset_seconds Observed offset from fault injection."
    ∷ "# TYPE telconet_live_event_offset_seconds gauge"
    ∷ "# HELP telconet_live_bfd_peer_up Whether the observed BFD peer is up."
    ∷ "# TYPE telconet_live_bfd_peer_up gauge"
    ∷ "# HELP telconet_live_ospf_neighbor_full Whether the observed OSPF neighbor is Full."
    ∷ "# TYPE telconet_live_ospf_neighbor_full gauge"
    ∷ "# HELP telconet_live_route_metric Current observed service route metric."
    ∷ "# TYPE telconet_live_route_metric gauge"
    ∷ "# HELP telconet_live_data_plane_reachable Whether the live ICMP probe is reachable."
    ∷ "# TYPE telconet_live_data_plane_reachable gauge" ∷ []

unfoldable pub is_reachable : List ConvergenceEventKind → Bool
is_reachable recorded =
    if has_kind data_plane_recovered recorded
    then true
    else not (has_kind blackhole_injected recorded)

module _ (rounded_seconds : ℕ → String) where
  -- `f"{ms / 1000:g}"`
  unfoldable pub seconds_text : ℕ → String
  seconds_text ms =
      if ltb ms 1000000 then decimal (ms / 1000) <> thousandths (ms % 1000) else rounded_seconds ms

  abbrev offset_text : ℤ → String
  offset_text (pos ms) = seconds_text ms
  offset_text (negsuc ms) = "-" <> seconds_text (suc ms)

  unfoldable pub offset_line : String → ConvergenceEvent → String
  offset_line label event =
      labelled "telconet_live_event_offset_seconds"
        ("event=\"" <> value event.kind <> "\"," <> label) (offset_text event.offset_ms)

  unfoldable pub run_lines : ConvergenceRun → Result (List String)
  run_lines run = do
    state ← status run
    let label = "profile=\"" <> run.profile <> "\""
    let recorded = kinds run.events
    ok (
        labelled "telconet_live_run_complete" label (one_if (state == "complete"))
          ∷ map (offset_line label) run.events
        ++ (if run.profile == "bfd_100x3"
            then labelled "telconet_live_bfd_peer_up" label
                (one_if (not (has_kind bfd_down recorded)))
              ∷ []
            else [])
        ++ labelled "telconet_live_ospf_neighbor_full" label
            (one_if (not (has_kind ospf_neighbor_down recorded)))
          ∷ labelled "telconet_live_route_metric" label
              (route_metric_text (event_of route_failover none run.events))
          ∷ labelled "telconet_live_data_plane_reachable" label (one_if (is_reachable recorded))
          ∷ [])

  unfoldable pub render_live_metrics : Option ConvergenceRun → Result String
  render_live_metrics none = ok (join "\n" live_help <> "\n")
  render_live_metrics (some run) = do
    lines ← run_lines run
    ok (join "\n" (live_help ++ lines) <> "\n")
