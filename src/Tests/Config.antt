-- ===== src/Tests/Config.antt =====
-- Settings that are set and read back.
use ext_quiche.Base.{ℕ, ◌≡◌, refl, true, false, none, some, [], ◌∷◌, ◌^◌, arith}
use ext_quiche.External.Std.{Std, StdLaws}
use ext_quiche.Text.{format_hex, format, from_str_radix}
use ext_quiche.Config.{QuicSettings, Config}
use ext_quiche.Config.Getters.{get_stateless_reset_token}
use ext_quiche.Config.Setters.{set_stateless_reset_token}
use ext_quiche.Config.Table.{enable_dgram, initial_max_data, max_idle_timeout, get_setting}
use ext_quiche.Config.RoundTrip.{set_stateless_reset_token-get}
use ext_quiche.Config.Calls.{set_all, set_all_last}

-- Texts are taken to be UTF-8, and floating-point numbers to be whole.
abbrev pub plain_std : Std
plain_std = record { Float = ℕ; is_utf8 = λ t. true; from_utf8_lossy = λ t. t }

abbrev plain_laws : StdLaws plain_std
plain_laws = record { from_utf8_lossy_valid = λ t e. refl }

abbrev pub defaults : QuicSettings plain_std
defaults = record {
  alpn = [];
  enable_dgram = false;
  dgram_recv_max_queue_len = 0;
  dgram_send_max_queue_len = 0;
  enable_early_data = false;
  initial_max_data = 0;
  initial_max_stream_data_bidi_local = 0;
  initial_max_stream_data_bidi_remote = 0;
  initial_max_stream_data_uni = 0;
  initial_max_streams_bidi = 0;
  initial_max_streams_uni = 0;
  max_idle_timeout = none;
  disable_active_migration = false;
  active_connection_id_limit = 0;
  max_recv_udp_payload_size = 0;
  max_send_udp_payload_size = 0;
  disable_client_ip_validation = false;
  keylog_file = none;
  qlog_dir = none;
  cc_algorithm = [];
  initial_congestion_window_packets = 0;
  enable_relaxed_loss_threshold = false;
  discover_path_mtu = false;
  pmtud_max_probes = 0;
  enable_hystart = false;
  enable_pacing = false;
  max_pacing_rate = none;
  enable_expensive_packet_count_metrics = false;
  capture_quiche_logs = false;
  handshake_timeout = none;
  listen_backlog = 0;
  verify_peer = false;
  max_connection_window = 0;
  max_stream_window = 0;
  enable_send_streams_blocked = false;
  grease = false;
  max_amplification_factor = 0;
  send_capacity_factor = 0;
  ack_delay_exponent = 0;
  max_ack_delay = 0;
  max_path_challenge_recv_queue_len = 0;
  stateless_reset_token = none;
  disable_dcid_reuse = false;
  track_unknown_transport_parameters = none;
}

abbrev pub plain : Config plain_std
plain = record { inner = defaults; cert_path = []; key_path = [] }

abbrev with_token : Config plain_std
with_token = record plain { inner = record defaults { stateless_reset_token = some 2748 } }

-- "abc"
printed : format_hex 2748 ≡ 97 ∷ 98 ∷ 99 ∷ []
unfolding format_hex
printed = refl

-- "+FF" is read, and "g" is not; "65535" is a port, and "65536" is not.
parsed : from_str_radix 16 (2 ^ 128) (43 ∷ 70 ∷ 70 ∷ []) ≡ some 255
unfolding from_str_radix
parsed = refl

refused : from_str_radix 16 (2 ^ 128) (103 ∷ []) ≡ none
unfolding from_str_radix
refused = refl

largest : from_str_radix 10 (2 ^ 16) (format 65535) ≡ some 65535
unfolding from_str_radix format
largest = refl

too_large : from_str_radix 10 (2 ^ 16) (format 65536) ≡ none
unfolding from_str_radix format
too_large = refl

set_stateless_reset_token-get_example :
    set_stateless_reset_token (get_stateless_reset_token with_token) plain ≡ with_token
set_stateless_reset_token-get_example = set_stateless_reset_token-get with_token plain (omega arith)

-- The idle timeout is set twice, with another setting between and one behind.
set_all_last_example :
    get_setting max_idle_timeout (
      set_all
        ((max_idle_timeout, some 5)
          ∷ (enable_dgram, true)
          ∷ (max_idle_timeout, some 30000)
          ∷ (initial_max_data, 9)
          ∷ [])
        plain)
    ≡ some 30000
set_all_last_example =
    set_all_last plain_laws ((max_idle_timeout, some 5) ∷ (enable_dgram, true) ∷ [])
      ((initial_max_data, 9) ∷ []) max_idle_timeout (some 30000) plain (omega arith) (refl, tt)
