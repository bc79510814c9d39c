-- ===== src/Config/Table.antt =====
-- All settings in one table: what each is called, what values it has, how it is read and set.
use ext_quiche.Base.{ℕ, Bool, Option, List}
use ext_quiche.External.Std.{Std}
use ext_quiche.Text.{Text}
use ext_quiche.Config.{Config}
use ext_quiche.Config.Getters.{
  get_alpn, get_enable_dgram, get_dgram_recv_max_queue_len, get_dgram_send_max_queue_len,
  get_enable_early_data, get_initial_max_data, get_initial_max_stream_data_bidi_local,
  get_initial_max_stream_data_bidi_remote, get_initial_max_stream_data_uni,
  get_initial_max_streams_bidi, get_initial_max_streams_uni, get_max_idle_timeout,
  get_disable_active_migration, get_active_connection_id_limit, get_max_recv_udp_payload_size,
  get_max_send_udp_payload_size, get_disable_client_ip_validation, get_keylog_file, get_qlog_dir,
  get_cc_algorithm, get_initial_congestion_window_packets, get_enable_relaxed_loss_threshold,
  get_discover_path_mtu, get_pmtud_max_probes, get_enable_hystart, get_enable_pacing,
  get_max_pacing_rate, get_enable_expensive_packet_count_metrics, get_capture_quiche_logs,
  get_handshake_timeout, get_listen_backlog, get_verify_peer, get_max_connection_window,
  get_max_stream_window, get_enable_send_streams_blocked, get_grease, get_max_amplification_factor,
  get_send_capacity_factor, get_ack_delay_exponent, get_max_ack_delay,
  get_max_path_challenge_recv_queue_len, get_stateless_reset_token, get_disable_dcid_reuse,
  get_track_unknown_transport_parameters, get_key_path, get_cert_path,
}
use ext_quiche.Config.Setters.{
  set_alpn, set_enable_dgram, set_dgram_recv_max_queue_len, set_dgram_send_max_queue_len,
  set_enable_early_data, set_initial_max_data, set_initial_max_stream_data_bidi_local,
  set_initial_max_stream_data_bidi_remote, set_initial_max_stream_data_uni,
  set_initial_max_streams_bidi, set_initial_max_streams_uni, set_max_idle_timeout,
  set_disable_active_migration, set_active_connection_id_limit, set_max_recv_udp_payload_size,
  set_max_send_udp_payload_size, set_disable_client_ip_validation, set_keylog_file, set_qlog_dir,
  set_cc_algorithm, set_initial_congestion_window_packets, set_enable_relaxed_loss_threshold,
  set_discover_path_mtu, set_pmtud_max_probes, set_enable_hystart, set_enable_pacing,
  set_max_pacing_rate, set_enable_expensive_packet_count_metrics, set_capture_quiche_logs,
  set_handshake_timeout, set_listen_backlog, set_verify_peer, set_max_connection_window,
  set_max_stream_window, set_enable_send_streams_blocked, set_grease, set_max_amplification_factor,
  set_send_capacity_factor, set_ack_delay_exponent, set_max_ack_delay,
  set_max_path_challenge_recv_queue_len, set_stateless_reset_token, set_disable_dcid_reuse,
  set_track_unknown_transport_parameters, set_key_path, set_cert_path,
}

pub data Setting : Type 0 where
  alpn : Setting
  enable_dgram enable_early_data disable_active_migration disable_client_ip_validation
        enable_relaxed_loss_threshold discover_path_mtu enable_hystart enable_pacing
        enable_expensive_packet_count_metrics capture_quiche_logs verify_peer
        enable_send_streams_blocked grease disable_dcid_reuse :
      Setting
  dgram_recv_max_queue_len dgram_send_max_queue_len initial_max_data
        initial_max_stream_data_bidi_local initial_max_stream_data_bidi_remote
        initial_max_stream_data_uni initial_max_streams_bidi initial_max_streams_uni
        active_connection_id_limit max_recv_udp_payload_size max_send_udp_payload_size
        initial_congestion_window_packets pmtud_max_probes listen_backlog max_connection_window
        max_stream_window max_amplification_factor ack_delay_exponent max_ack_delay
        max_path_challenge_recv_queue_len :
      Setting
  max_idle_timeout max_pacing_rate handshake_timeout track_unknown_transport_parameters : Setting
  keylog_file qlog_dir stateless_reset_token : Setting
  cc_algorithm key_path cert_path : Setting
  send_capacity_factor : Setting

-- The place of a setting among them.
abbrev pub index : Setting → ℕ
index alpn = 0
index enable_dgram = 1
index dgram_recv_max_queue_len = 2
index dgram_send_max_queue_len = 3
index enable_early_data = 4
index initial_max_data = 5
index initial_max_stream_data_bidi_local = 6
index initial_max_stream_data_bidi_remote = 7
index initial_max_stream_data_uni = 8
index initial_max_streams_bidi = 9
index initial_max_streams_uni = 10
index max_idle_timeout = 11
index disable_active_migration = 12
index active_connection_id_limit = 13
index max_recv_udp_payload_size = 14
index max_send_udp_payload_size = 15
index disable_client_ip_validation = 16
index keylog_file = 17
index qlog_dir = 18
index cc_algorithm = 19
index initial_congestion_window_packets = 20
index enable_relaxed_loss_threshold = 21
index discover_path_mtu = 22
index pmtud_max_probes = 23
index enable_hystart = 24
index enable_pacing = 25
index max_pacing_rate = 26
index enable_expensive_packet_count_metrics = 27
index capture_quiche_logs = 28
index handshake_timeout = 29
index listen_backlog = 30
index verify_peer = 31
index max_connection_window = 32
index max_stream_window = 33
index enable_send_streams_blocked = 34
index grease = 35
index max_amplification_factor = 36
index send_capacity_factor = 37
index ack_delay_exponent = 38
index max_ack_delay = 39
index max_path_challenge_recv_queue_len = 40
index stateless_reset_token = 41
index disable_dcid_reuse = 42
index track_unknown_transport_parameters = 43
index key_path = 44
index cert_path = 45

module _ (e : Std) where
  abbrev pub ValueOf : Setting → Type 0
  ValueOf alpn = List Text
  ValueOf enable_dgram = Bool
  ValueOf enable_early_data = Bool
  ValueOf max_idle_timeout = Option ℕ
  ValueOf disable_active_migration = Bool
  ValueOf disable_client_ip_validation = Bool
  ValueOf keylog_file = Option Text
  ValueOf qlog_dir = Option Text
  ValueOf cc_algorithm = Text
  ValueOf enable_relaxed_loss_threshold = Bool
  ValueOf discover_path_mtu = Bool
  ValueOf enable_hystart = Bool
  ValueOf enable_pacing = Bool
  ValueOf max_pacing_rate = Option ℕ
  ValueOf enable_expensive_packet_count_metrics = Bool
  ValueOf capture_quiche_logs = Bool
  ValueOf handshake_timeout = Option ℕ
  ValueOf verify_peer = Bool
  ValueOf enable_send_streams_blocked = Bool
  ValueOf grease = Bool
  ValueOf send_capacity_factor = e.Float
  ValueOf stateless_reset_token = Option Text
  ValueOf disable_dcid_reuse = Bool
  ValueOf track_unknown_transport_parameters = Option ℕ
  ValueOf key_path = Text
  ValueOf cert_path = Text
  ValueOf _ = ℕ

module _ {e : Std} where
  unfoldable pub get_setting : (k : Setting) → Config e → ValueOf e k
  unfolding get_alpn get_enable_dgram get_dgram_recv_max_queue_len get_dgram_send_max_queue_len
      get_enable_early_data get_initial_max_data get_initial_max_stream_data_bidi_local
      get_initial_max_stream_data_bidi_remote get_initial_max_stream_data_uni
      get_initial_max_streams_bidi get_initial_max_streams_uni get_max_idle_timeout
      get_disable_active_migration get_active_connection_id_limit get_max_recv_udp_payload_size
      get_max_send_udp_payload_size get_disable_client_ip_validation get_keylog_file get_qlog_dir
      get_cc_algorithm get_initial_congestion_window_packets get_enable_relaxed_loss_threshold
      get_discover_path_mtu get_pmtud_max_probes get_enable_hystart get_enable_pacing
      get_max_pacing_rate get_enable_expensive_packet_count_metrics get_capture_quiche_logs
      get_handshake_timeout get_listen_backlog get_verify_peer get_max_connection_window
      get_max_stream_window get_enable_send_streams_blocked get_grease get_max_amplification_factor
      get_send_capacity_factor get_ack_delay_exponent get_max_ack_delay
      get_max_path_challenge_recv_queue_len get_stateless_reset_token get_disable_dcid_reuse
      get_track_unknown_transport_parameters get_key_path get_cert_path
  get_setting alpn c = get_alpn c
  get_setting enable_dgram c = get_enable_dgram c
  get_setting dgram_recv_max_queue_len c = get_dgram_recv_max_queue_len c
  get_setting dgram_send_max_queue_len c = get_dgram_send_max_queue_len c
  get_setting enable_early_data c = get_enable_early_data c
  get_setting initial_max_data c = get_initial_max_data c
  get_setting initial_max_stream_data_bidi_local c = get_initial_max_stream_data_bidi_local c
  get_setting initial_max_stream_data_bidi_remote c = get_initial_max_stream_data_bidi_remote c
  get_setting initial_max_stream_data_uni c = get_initial_max_stream_data_uni c
  get_setting initial_max_streams_bidi c = get_initial_max_streams_bidi c
  get_setting initial_max_streams_uni c = get_initial_max_streams_uni c
  get_setting max_idle_timeout c = get_max_idle_timeout c
  get_setting disable_active_migration c = get_disable_active_migration c
  get_setting active_connection_id_limit c = get_active_connection_id_limit c
  get_setting max_recv_udp_payload_size c = get_max_recv_udp_payload_size c
  get_setting max_send_udp_payload_size c = get_max_send_udp_payload_size c
  get_setting disable_client_ip_validation c = get_disable_client_ip_validation c
  get_setting keylog_file c = get_keylog_file c
  get_setting qlog_dir c = get_qlog_dir c
  get_setting cc_algorithm c = get_cc_algorithm c
  get_setting initial_congestion_window_packets c = get_initial_congestion_window_packets c
  get_setting enable_relaxed_loss_threshold c = get_enable_relaxed_loss_threshold c
  get_setting discover_path_mtu c = get_discover_path_mtu c
  get_setting pmtud_max_probes c = get_pmtud_max_probes c
  get_setting enable_hystart c = get_enable_hystart c
  get_setting enable_pacing c = get_enable_pacing c
  get_setting max_pacing_rate c = get_max_pacing_rate c
  get_setting enable_expensive_packet_count_metrics c = get_enable_expensive_packet_count_metrics c
  get_setting capture_quiche_logs c = get_capture_quiche_logs c
  get_setting handshake_timeout c = get_handshake_timeout c
  get_setting listen_backlog c = get_listen_backlog c
  get_setting verify_peer c = get_verify_peer c
  get_setting max_connection_window c = get_max_connection_window c
  get_setting max_stream_window c = get_max_stream_window c
  get_setting enable_send_streams_blocked c = get_enable_send_streams_blocked c
  get_setting grease c = get_grease c
  get_setting max_amplification_factor c = get_max_amplification_factor c
  get_setting send_capacity_factor c = get_send_capacity_factor c
  get_setting ack_delay_exponent c = get_ack_delay_exponent c
  get_setting max_ack_delay c = get_max_ack_delay c
  get_setting max_path_challenge_recv_queue_len c = get_max_path_challenge_recv_queue_len c
  get_setting stateless_reset_token c = get_stateless_reset_token c
  get_setting disable_dcid_reuse c = get_disable_dcid_reuse c
  get_setting track_unknown_transport_parameters c = get_track_unknown_transport_parameters c
  get_setting key_path c = get_key_path c
  get_setting cert_path c = get_cert_path c

  unfoldable pub set_setting : (k : Setting) → ValueOf e k → Config e → Config e
  unfolding set_alpn set_enable_dgram set_dgram_recv_max_queue_len set_dgram_send_max_queue_len
      set_enable_early_data set_initial_max_data set_initial_max_stream_data_bidi_local
      set_initial_max_stream_data_bidi_remote set_initial_max_stream_data_uni
      set_initial_max_streams_bidi set_initial_max_streams_uni set_max_idle_timeout
      set_disable_active_migration set_active_connection_id_limit set_max_recv_udp_payload_size
      set_max_send_udp_payload_size set_disable_client_ip_validation set_keylog_file set_qlog_dir
      set_cc_algorithm set_initial_congestion_window_packets set_enable_relaxed_loss_threshold
      set_discover_path_mtu set_pmtud_max_probes set_enable_hystart set_enable_pacing
      set_max_pacing_rate set_enable_expensive_packet_count_metrics set_capture_quiche_logs
      set_handshake_timeout set_listen_backlog set_verify_peer set_max_connection_window
      set_max_stream_window set_enable_send_streams_blocked set_grease set_max_amplification_factor
      set_send_capacity_factor set_ack_delay_exponent set_max_ack_delay
      set_max_path_challenge_recv_queue_len set_stateless_reset_token set_disable_dcid_reuse
      set_track_unknown_transport_parameters set_key_path set_cert_path
  set_setting alpn v c = set_alpn v c
  set_setting enable_dgram v c = set_enable_dgram v c
  set_setting dgram_recv_max_queue_len v c = set_dgram_recv_max_queue_len v c
  set_setting dgram_send_max_queue_len v c = set_dgram_send_max_queue_len v c
  set_setting enable_early_data v c = set_enable_early_data v c
  set_setting initial_max_data v c = set_initial_max_data v c
  set_setting initial_max_stream_data_bidi_local v c = set_initial_max_stream_data_bidi_local v c
  set_setting initial_max_stream_data_bidi_remote v c = set_initial_max_stream_data_bidi_remote v c
  set_setting initial_max_stream_data_uni v c = set_initial_max_stream_data_uni v c
  set_setting initial_max_streams_bidi v c = set_initial_max_streams_bidi v c
  set_setting initial_max_streams_uni v c = set_initial_max_streams_uni v c
  set_setting max_idle_timeout v c = set_max_idle_timeout v c
  set_setting disable_active_migration v c = set_disable_active_migration v c
  set_setting active_connection_id_limit v c = set_active_connection_id_limit v c
  set_setting max_recv_udp_payload_size v c = set_max_recv_udp_payload_size v c
  set_setting max_send_udp_payload_size v c = set_max_send_udp_payload_size v c
  set_setting disable_client_ip_validation v c = set_disable_client_ip_validation v c
  set_setting keylog_file v c = set_keylog_file v c
  set_setting qlog_dir v c = set_qlog_dir v c
  set_setting cc_algorithm v c = set_cc_algorithm v c
  set_setting initial_congestion_window_packets v c = set_initial_congestion_window_packets v c
  set_setting enable_relaxed_loss_threshold v c = set_enable_relaxed_loss_threshold v c
  set_setting discover_path_mtu v c = set_discover_path_mtu v c
  set_setting pmtud_max_probes v c = set_pmtud_max_probes v c
  set_setting enable_hystart v c = set_enable_hystart v c
  set_setting enable_pacing v c = set_enable_pacing v c
  set_setting max_pacing_rate v c = set_max_pacing_rate v c
  set_setting enable_expensive_packet_count_metrics v c =
      set_enable_expensive_packet_count_metrics v c
  set_setting capture_quiche_logs v c = set_capture_quiche_logs v c
  set_setting handshake_timeout v c = set_handshake_timeout v c
  set_setting listen_backlog v c = set_listen_backlog v c
  set_setting verify_peer v c = set_verify_peer v c
  set_setting max_connection_window v c = set_max_connection_window v c
  set_setting max_stream_window v c = set_max_stream_window v c
  set_setting enable_send_streams_blocked v c = set_enable_send_streams_blocked v c
  set_setting grease v c = set_grease v c
  set_setting max_amplification_factor v c = set_max_amplification_factor v c
  set_setting send_capacity_factor v c = set_send_capacity_factor v c
  set_setting ack_delay_exponent v c = set_ack_delay_exponent v c
  set_setting max_ack_delay v c = set_max_ack_delay v c
  set_setting max_path_challenge_recv_queue_len v c = set_max_path_challenge_recv_queue_len v c
  set_setting stateless_reset_token v c = set_stateless_reset_token v c
  set_setting disable_dcid_reuse v c = set_disable_dcid_reuse v c
  set_setting track_unknown_transport_parameters v c = set_track_unknown_transport_parameters v c
  set_setting key_path v c = set_key_path v c
  set_setting cert_path v c = set_cert_path v c
