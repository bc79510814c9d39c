-- ===== src/Config.antt =====
-- src/config.rs: the settings of a server, each with an accessor to read and one to set it. Some
-- pass through a conversion of std: `Duration` in milliseconds, a u128 in hexadecimal.
pub mod Getters
pub mod Setters
pub mod RoundTrip
pub mod Table
pub mod Independence
pub mod Calls
use ext_quiche.Base.{ℕ, ◌+◌, ◌*◌, ◌/◌, ◌%◌, ◌^◌, Bool, Option, List}
use ext_quiche.External.Std.{Std}
use ext_quiche.Text.{Text}

-- `std::time::Duration`
pub record Duration : Type 0 where
  pub secs : ℕ
  pub nanos : ℕ

unfoldable pub from_millis : ℕ → Duration
from_millis ms = record { secs = ms / 1000; nanos = ms % 1000 * 1000000 }

-- `d.as_millis() as u64`
unfoldable pub as_millis : Duration → ℕ
as_millis d = (d.secs * 1000 + d.nanos / 1000000) % 2 ^ 64

-- The fields of `tokio_quiche::settings::QuicSettings` that the accessors use.
pub record QuicSettings (e : Std) : Type 0 where
  pub alpn : List Text
  pub enable_dgram : Bool
  pub dgram_recv_max_queue_len : ℕ
  pub dgram_send_max_queue_len : ℕ
  pub enable_early_data : Bool
  pub initial_max_data : ℕ
  pub initial_max_stream_data_bidi_local : ℕ
  pub initial_max_stream_data_bidi_remote : ℕ
  pub initial_max_stream_data_uni : ℕ
  pub initial_max_streams_bidi : ℕ
  pub initial_max_streams_uni : ℕ
  pub max_idle_timeout : Option Duration
  pub disable_active_migration : Bool
  pub active_connection_id_limit : ℕ
  pub max_recv_udp_payload_size : ℕ
  pub max_send_udp_payload_size : ℕ
  pub disable_client_ip_validation : Bool
  pub keylog_file : Option Text
  pub qlog_dir : Option Text
  pub cc_algorithm : Text
  pub initial_congestion_window_packets : ℕ
  pub enable_relaxed_loss_threshold : Bool
  pub discover_path_mtu : Bool
  pub pmtud_max_probes : ℕ
  pub enable_hystart : Bool
  pub enable_pacing : Bool
  pub max_pacing_rate : Option ℕ
  pub enable_expensive_packet_count_metrics : Bool
  pub capture_quiche_logs : Bool
  pub handshake_timeout : Option Duration
  pub listen_backlog : ℕ
  pub verify_peer : Bool
  pub max_connection_window : ℕ
  pub max_stream_window : ℕ
  pub enable_send_streams_blocked : Bool
  pub grease : Bool
  pub max_amplification_factor : ℕ
  pub send_capacity_factor : e.Float
  pub ack_delay_exponent : ℕ
  pub max_ack_delay : ℕ
  pub max_path_challenge_recv_queue_len : ℕ
  pub stateless_reset_token : Option ℕ
  pub disable_dcid_reuse : Bool
  pub track_unknown_transport_parameters : Option ℕ

pub record Config (e : Std) : Type 0 where
  pub inner : QuicSettings e
  pub cert_path : Text
  pub key_path : Text

-- The constructor; the settings are tokio-quiche's defaults.
unfoldable pub new_config : {e : Std} → QuicSettings e → Text → Text → Config e
new_config defaults cert_path key_path = record {
  inner = defaults;
  cert_path = cert_path;
  key_path = key_path;
}
