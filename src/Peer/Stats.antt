-- ===== src/Peer/Stats.antt =====
-- `StatsCollector`: the lines that are logged for a report.
--
-- A value is the text that `std::to_string` or the member itself gives, `none` if it is missing.
use vcpkg_webrtc_sample.Prelude.{String, ◌<>◌, Option, none, some, List, [], ◌++◌, map}

pub record OutboundStats : Type 0 where
  pub kind : Option String
  pub bytes_sent : Option String
  pub frames_per_second : Option String

pub record RemoteInboundStats : Type 0 where
  pub kind : Option String
  pub round_trip_time : Option String
  pub packets_lost : Option String

pub record TransportStats : Type 0 where
  pub dtls_state : Option String
  pub ice_state : Option String
  pub selected_candidate_pair_id : Option String

-- What `GetStatsOfType` gives for the three types.
pub record StatsReport : Type 0 where
  pub outbound : List OutboundStats
  pub remote_inbound : List RemoteInboundStats
  pub transports : List TransportStats

abbrev pub value_or : String → Option String → String
value_or other none = other
value_or other (some s) = s

abbrev pub outbound_line : OutboundStats → String
outbound_line s =
    "outbound kind="
    <> (value_or "" s.kind
        <> (" bytes_sent="
            <> (value_or "n/a" s.bytes_sent <> (" fps=" <> value_or "n/a" s.frames_per_second))))

abbrev pub remote_inbound_line : RemoteInboundStats → String
remote_inbound_line s =
    "remote_inbound kind="
    <> (value_or "" s.kind
        <> (" rtt="
            <> (value_or "n/a" s.round_trip_time
                <> (" packets_lost=" <> value_or "n/a" s.packets_lost))))

abbrev pub transport_line : TransportStats → String
transport_line s =
    "transport dtls_state="
    <> (value_or "" s.dtls_state
        <> (" ice_state="
            <> (value_or "" s.ice_state
                <> (" selected_pair=" <> value_or "" s.selected_candidate_pair_id))))

-- No report, no line.
unfoldable pub on_stats_delivered : Option StatsReport → List String
on_stats_delivered none = []
on_stats_delivered (some report) =
    map outbound_line report.outbound
    ++ map remote_inbound_line report.remote_inbound
    ++ map transport_line report.transports
