-- ===== src/Config/Setters.antt =====
-- The accessors of src/config.rs that set one.
use mathlib.Core.Option
use ext_quiche.Base.{ℕ, ◌^◌, Bool, Option, none, some, List}
use ext_quiche.External.Std.{Std}
use ext_quiche.Text.{Text, from_str_radix}
use ext_quiche.Config.{Config, QuicSettings, from_millis}

module _ {e : Std} where
  abbrev pub with_inner : QuicSettings e → Config e → Config e
  with_inner inner c = record c { inner = inner }

  unfoldable pub set_alpn : List Text → Config e → Config e
  set_alpn v c = with_inner (record c.inner { alpn = v }) c

  unfoldable pub set_enable_dgram : Bool → Config e → Config e
  set_enable_dgram v c = with_inner (record c.inner { enable_dgram = v }) c

  unfoldable pub set_dgram_recv_max_queue_len : ℕ → Config e → Config e
  set_dgram_recv_max_queue_len v c = with_inner (record c.inner { dgram_recv_max_queue_len = v }) c

  unfoldable pub set_dgram_send_max_queue_len : ℕ → Config e → Config e
  set_dgram_send_max_queue_len v c = with_inner (record c.inner { dgram_send_max_queue_len = v }) c

  unfoldable pub set_enable_early_data : Bool → Config e → Config e
  set_enable_early_data v c = with_inner (record c.inner { enable_early_data = v }) c

  unfoldable pub set_initial_max_data : ℕ → Config e → Config e
  set_initial_max_data v c = with_inner (record c.inner { initial_max_data = v }) c

  unfoldable pub set_initial_max_stream_data_bidi_local : ℕ → Config e → Config e
  set_initial_max_stream_data_bidi_local v c =
      with_inner (record c.inner { initial_max_stream_data_bidi_local = v }) c

  unfoldable pub set_initial_max_stream_data_bidi_remote : ℕ → Config e → Config e
  set_initial_max_stream_data_bidi_remote v c =
      with_inner (record c.inner { initial_max_stream_data_bidi_remote = v }) c

  unfoldable pub set_initial_max_stream_data_uni : ℕ → Config e → Config e
  set_initial_max_stream_data_uni v c =
      with_inner (record c.inner { initial_max_stream_data_uni = v }) c

  unfoldable pub set_initial_max_streams_bidi : ℕ → Config e → Config e
  set_initial_max_streams_bidi v c = with_inner (record c.inner { initial_max_streams_bidi = v }) c

  unfoldable pub set_initial_max_streams_uni : ℕ → Config e → Config e
  set_initial_max_streams_uni v c = with_inner (record c.inner { initial_max_streams_uni = v }) c

  unfoldable pub set_max_idle_timeout : Option ℕ → Config e → Config e
  set_max_idle_timeout v c =
      with_inner (record c.inner { max_idle_timeout = Option.map from_millis v }) c

  unfoldable pub set_disable_active_migration : Bool → Config e → Config e
  set_disable_active_migration v c = with_inner (record c.inner { disable_active_migration = v }) c

  unfoldable pub set_active_connection_id_limit : ℕ → Config e → Config e
  set_active_connection_id_limit v c =
      with_inner (record c.inner { active_connection_id_limit = v }) c

  unfoldable pub set_max_recv_udp_payload_size : ℕ → Config e → Config e
  set_max_recv_udp_payload_size v c =
      with_inner (record c.inner { max_recv_udp_payload_size = v }) c

  unfoldable pub set_max_send_udp_payload_size : ℕ → Config e → Config e
  set_max_send_udp_payload_size v c =
      with_inner (record c.inner { max_send_udp_payload_size = v }) c

  unfoldable pub set_disable_client_ip_validation : Bool → Config e → Config e
  set_disable_client_ip_validation v c =
      with_inner (record c.inner { disable_client_ip_validation = v }) c

  unfoldable pub set_keylog_file : Option Text → Config e → Config e
  set_keylog_file v c = with_inner (record c.inner { keylog_file = v }) c

  unfoldable pub set_qlog_dir : Option Text → Config e → Config e
  set_qlog_dir v c = with_inner (record c.inner { qlog_dir = v }) c

  unfoldable pub set_cc_algorithm : Text → Config e → Config e
  set_cc_algorithm v c = with_inner (record c.inner { cc_algorithm = v }) c

  unfoldable pub set_initial_congestion_window_packets : ℕ → Config e → Config e
  set_initial_congestion_window_packets v c =
      with_inner (record c.inner { initial_congestion_window_packets = v }) c

  unfoldable pub set_enable_relaxed_loss_threshold : Bool → Config e → Config e
  set_enable_relaxed_loss_threshold v c =
      with_inner (record c.inner { enable_relaxed_loss_threshold = v }) c

  unfoldable pub set_discover_path_mtu : Bool → Config e → Config e
  set_discover_path_mtu v c = with_inner (record c.inner { discover_path_mtu = v }) c

  unfoldable pub set_pmtud_max_probes : ℕ → Config e → Config e
  set_pmtud_max_probes v c = with_inner (record c.inner { pmtud_max_probes = v }) c

  unfoldable pub set_enable_hystart : Bool → Config e → Config e
  set_enable_hystart v c = with_inner (record c.inner { enable_hystart = v }) c

  unfoldable pub set_enable_pacing : Bool → Config e → Config e
  set_enable_pacing v c = with_inner (record c.inner { enable_pacing = v }) c

  unfoldable pub set_max_pacing_rate : Option ℕ → Config e → Config e
  set_max_pacing_rate v c = with_inner (record c.inner { max_pacing_rate = v }) c

  unfoldable pub set_enable_expensive_packet_count_metrics : Bool → Config e → Config e
  set_enable_expensive_packet_count_metrics v c =
      with_inner (record c.inner { enable_expensive_packet_count_metrics = v }) c

  unfoldable pub set_capture_quiche_logs : Bool → Config e → Config e
  set_capture_quiche_logs v c = with_inner (record c.inner { capture_quiche_logs = v }) c

  unfoldable pub set_handshake_timeout : Option ℕ → Config e → Config e
  set_handshake_timeout v c =
      with_inner (record c.inner { handshake_timeout = Option.map from_millis v }) c

  unfoldable pub set_listen_backlog : ℕ → Config e → Config e
  set_listen_backlog v c = with_inner (record c.inner { listen_backlog = v }) c

  unfoldable pub set_verify_peer : Bool → Config e → Config e
  set_verify_peer v c = with_inner (record c.inner { verify_peer = v }) c

  unfoldable pub set_max_connection_window : ℕ → Config e → Config e
  set_max_connection_window v c = with_inner (record c.inner { max_connection_window = v }) c

  unfoldable pub set_max_stream_window : ℕ → Config e → Config e
  set_max_stream_window v c = with_inner (record c.inner { max_stream_window = v }) c

  unfoldable pub set_enable_send_streams_blocked : Bool → Config e → Config e
  set_enable_send_streams_blocked v c =
      with_inner (record c.inner { enable_send_streams_blocked = v }) c

  unfoldable pub set_grease : Bool → Config e → Config e
  set_grease v c = with_inner (record c.inner { grease = v }) c

  unfoldable pub set_max_amplification_factor : ℕ → Config e → Config e
  set_max_amplification_factor v c = with_inner (record c.inner { max_amplification_factor = v }) c

  unfoldable pub set_send_capacity_factor : e.Float → Config e → Config e
  set_send_capacity_factor v c = with_inner (record c.inner { send_capacity_factor = v }) c

  unfoldable pub set_ack_delay_exponent : ℕ → Config e → Config e
  set_ack_delay_exponent v c = with_inner (record c.inner { ack_delay_exponent = v }) c

  unfoldable pub set_max_ack_delay : ℕ → Config e → Config e
  set_max_ack_delay v c = with_inner (record c.inner { max_ack_delay = v }) c

  unfoldable pub set_max_path_challenge_recv_queue_len : ℕ → Config e → Config e
  set_max_path_challenge_recv_queue_len v c =
      with_inner (record c.inner { max_path_challenge_recv_queue_len = v }) c

  -- A text that is no number leaves the token as it is.
  abbrev pub parsed_token : Option ℕ → Config e → Config e
  parsed_token (some t) c = with_inner (record c.inner { stateless_reset_token = some t }) c
  parsed_token none c = c

  unfoldable pub set_stateless_reset_token : Option Text → Config e → Config e
  set_stateless_reset_token none c = with_inner (record c.inner { stateless_reset_token = none }) c
  set_stateless_reset_token (some text) c = parsed_token (from_str_radix 16 (2 ^ 128) text) c

  unfoldable pub set_disable_dcid_reuse : Bool → Config e → Config e
  set_disable_dcid_reuse v c = with_inner (record c.inner { disable_dcid_reuse = v }) c

  unfoldable pub set_track_unknown_transport_parameters : Option ℕ → Config e → Config e
  set_track_unknown_transport_parameters v c =
      with_inner (record c.inner { track_unknown_transport_parameters = v }) c

  unfoldable pub set_key_path : Text → Config e → Config e
  set_key_path v c = record c { key_path = v }

  unfoldable pub set_cert_path : Text → Config e → Config e
  set_cert_path v c = record c { cert_path = v }
