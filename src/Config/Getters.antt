-- ===== src/Config/Getters.antt =====
-- The accessors of src/config.rs that read a setting.
use mathlib.Core.Option
use ext_quiche.Base.{ℕ, Bool, Option, List, map}
use ext_quiche.External.Std.{Std}
use ext_quiche.Text.{Text, format_hex}
use ext_quiche.Config.{Config, as_millis}

module _ {e : Std} where
  unfoldable pub get_alpn : Config e → List Text
  get_alpn c = map e.from_utf8_lossy c.inner.alpn

  unfoldable pub get_enable_dgram : Config e → Bool
  get_enable_dgram c = c.inner.enable_dgram

  unfoldable pub get_dgram_recv_max_queue_len : Config e → ℕ
  get_dgram_recv_max_queue_len c = c.inner.dgram_recv_max_queue_len

  unfoldable pub get_dgram_send_max_queue_len : Config e → ℕ
  get_dgram_send_max_queue_len c = c.inner.dgram_send_max_queue_len

  unfoldable pub get_enable_early_data : Config e → Bool
  get_enable_early_data c = c.inner.enable_early_data

  unfoldable pub get_initial_max_data : Config e → ℕ
  get_initial_max_data c = c.inner.initial_max_data

  unfoldable pub get_initial_max_stream_data_bidi_local : Config e → ℕ
  get_initial_max_stream_data_bidi_local c = c.inner.initial_max_stream_data_bidi_local

  unfoldable pub get_initial_max_stream_data_bidi_remote : Config e → ℕ
  get_initial_max_stream_data_bidi_remote c = c.inner.initial_max_stream_data_bidi_remote

  unfoldable pub get_initial_max_stream_data_uni : Config e → ℕ
  get_initial_max_stream_data_uni c = c.inner.initial_max_stream_data_uni

  unfoldable pub get_initial_max_streams_bidi : Config e → ℕ
  get_initial_max_streams_bidi c = c.inner.initial_max_streams_bidi

  unfoldable pub get_initial_max_streams_uni : Config e → ℕ
  get_initial_max_streams_uni c = c.inner.initial_max_streams_uni

  unfoldable pub get_max_idle_timeout : Config e → Option ℕ
  get_max_idle_timeout c = Option.map as_millis c.inner.max_idle_timeout

  unfoldable pub get_disable_active_migration : Config e → Bool
  get_disable_active_migration c = c.inner.disable_active_migration

  unfoldable pub get_active_connection_id_limit : Config e → ℕ
  get_active_connection_id_limit c = c.inner.active_connection_id_limit

  unfoldable pub get_max_recv_udp_payload_size : Config e → ℕ
  get_max_recv_udp_payload_size c = c.inner.max_recv_udp_payload_size

  unfoldable pub get_max_send_udp_payload_size : Config e → ℕ
  get_max_send_udp_payload_size c = c.inner.max_send_udp_payload_size

  unfoldable pub get_disable_client_ip_validation : Config e → Bool
  get_disable_client_ip_validation c = c.inner.disable_client_ip_validation

  unfoldable pub get_keylog_file : Config e → Option Text
  get_keylog_file c = c.inner.keylog_file

  unfoldable pub get_qlog_dir : Config e → Option Text
  get_qlog_dir c = c.inner.qlog_dir

  unfoldable pub get_cc_algorithm : Config e → Text
  get_cc_algorithm c = c.inner.cc_algorithm

  unfoldable pub get_initial_congestion_window_packets : Config e → ℕ
  get_initial_congestion_window_packets c = c.inner.initial_congestion_window_packets

  unfoldable pub get_enable_relaxed_loss_threshold : Config e → Bool
  get_enable_relaxed_loss_threshold c = c.inner.enable_relaxed_loss_threshold

  unfoldable pub get_discover_path_mtu : Config e → Bool
  get_discover_path_mtu c = c.inner.discover_path_mtu

  unfoldable pub get_pmtud_max_probes : Config e → ℕ
  get_pmtud_max_probes c = c.inner.pmtud_max_probes

  unfoldable pub get_enable_hystart : Config e → Bool
  get_enable_hystart c = c.inner.enable_hystart

  unfoldable pub get_enable_pacing : Config e → Bool
  get_enable_pacing c = c.inner.enable_pacing

  unfoldable pub get_max_pacing_rate : Config e → Option ℕ
  get_max_pacing_rate c = c.inner.max_pacing_rate

  unfoldable pub get_enable_expensive_packet_count_metrics : Config e → Bool
  get_enable_expensive_packet_count_metrics c = c.inner.enable_expensive_packet_count_metrics

  unfoldable pub get_capture_quiche_logs : Config e → Bool
  get_capture_quiche_logs c = c.inner.capture_quiche_logs

  unfoldable pub get_handshake_timeout : Config e → Option ℕ
  get_handshake_timeout c = Option.map as_millis c.inner.handshake_timeout

  unfoldable pub get_listen_backlog : Config e → ℕ
  get_listen_backlog c = c.inner.listen_backlog

  unfoldable pub get_verify_peer : Config e → Bool
  get_verify_peer c = c.inner.verify_peer

  unfoldable pub get_max_connection_window : Config e → ℕ
  get_max_connection_window c = c.inner.max_connection_window

  unfoldable pub get_max_stream_window : Config e → ℕ
  get_max_stream_window c = c.inner.max_stream_window

  unfoldable pub get_enable_send_streams_blocked : Config e → Bool
  get_enable_send_streams_blocked c = c.inner.enable_send_streams_blocked

  unfoldable pub get_grease : Config e → Bool
  get_grease c = c.inner.grease

  unfoldable pub get_max_amplification_factor : Config e → ℕ
  get_max_amplification_factor c = c.inner.max_amplification_factor

  unfoldable pub get_send_capacity_factor : Config e → e.Float
  get_send_capacity_factor c = c.inner.send_capacity_factor

  unfoldable pub get_ack_delay_exponent : Config e → ℕ
  get_ack_delay_exponent c = c.inner.ack_delay_exponent

  unfoldable pub get_max_ack_delay : Config e → ℕ
  get_max_ack_delay c = c.inner.max_ack_delay

  unfoldable pub get_max_path_challenge_recv_queue_len : Config e → ℕ
  get_max_path_challenge_recv_queue_len c = c.inner.max_path_challenge_recv_queue_len

  unfoldable pub get_stateless_reset_token : Config e → Option Text
  get_stateless_reset_token c = Option.map format_hex c.inner.stateless_reset_token

  unfoldable pub get_disable_dcid_reuse : Config e → Bool
  get_disable_dcid_reuse c = c.inner.disable_dcid_reuse

  unfoldable pub get_track_unknown_transport_parameters : Config e → Option ℕ
  get_track_unknown_transport_parameters c = c.inner.track_unknown_transport_parameters

  unfoldable pub get_key_path : Config e → Text
  get_key_path c = c.key_path

  unfoldable pub get_cert_path : Config e → Text
  get_cert_path c = c.cert_path
