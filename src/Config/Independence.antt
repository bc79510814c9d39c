-- ===== src/Config/Independence.antt =====
-- The settings are independent of each other, over any sequence of calls.
use ext_quiche.Base.{ℕ, ◌^◌, ◌≡◌, refl, false, Option, none, some, ◌==◌}
use mathlib.Core.Option
use ext_quiche.External.Std.{Std, StdLaws}
use ext_quiche.Text.{format_hex, from_str_radix}
use ext_quiche.Text.Digits.{from_str_radix-format_hex}
use ext_quiche.Config.{Config}
use ext_quiche.Config.Table.{
  Setting, alpn, enable_dgram, dgram_recv_max_queue_len, dgram_send_max_queue_len,
  enable_early_data, initial_max_data, initial_max_stream_data_bidi_local,
  initial_max_stream_data_bidi_remote, initial_max_stream_data_uni, initial_max_streams_bidi,
  initial_max_streams_uni, max_idle_timeout, disable_active_migration, active_connection_id_limit,
  max_recv_udp_payload_size, max_send_udp_payload_size, disable_client_ip_validation, keylog_file,
  qlog_dir, cc_algorithm, initial_congestion_window_packets, enable_relaxed_loss_threshold,
  discover_path_mtu, pmtud_max_probes, enable_hystart, enable_pacing, max_pacing_rate,
  enable_expensive_packet_count_metrics, capture_quiche_logs, handshake_timeout, listen_backlog,
  verify_peer, max_connection_window, max_stream_window, enable_send_streams_blocked, grease,
  max_amplification_factor, send_capacity_factor, ack_delay_exponent, max_ack_delay,
  max_path_challenge_recv_queue_len, stateless_reset_token, disable_dcid_reuse,
  track_unknown_transport_parameters, key_path, cert_path, index, ValueOf, get_setting, set_setting,
}
use ext_quiche.Config.Setters.{parsed_token}
use ext_quiche.Config.RoundTrip.{Below, Valid, millis_back, lossy_back}

-- What the accessors take without loss: names of protocols that are UTF-8, timeouts of 64 bits, and
-- a token as the accessor writes it. All values of the other settings.
abbrev pub Fits : (e : Std) (k : Setting) → ValueOf e k → Type 0
Fits e alpn v = Valid e v
Fits e max_idle_timeout v = Below (2 ^ 64) v
Fits e handshake_timeout v = Below (2 ^ 64) v
Fits e stateless_reset_token v = (t : Option ℕ) × (v ≡ Option.map format_hex t) × Below (2 ^ 128) t
Fits e _ v = Unit

module _ {e : Std} (laws : StdLaws e) where
  pub get-set :
      (k : Setting) (v : ValueOf e k) (c : Config e)
      → Fits e k v
      → get_setting k (set_setting k v c) ≡ v
  unfolding get_setting set_setting
  get-set alpn v c fits = lossy_back laws v fits
  get-set max_idle_timeout v c fits = millis_back v fits
  get-set handshake_timeout v c fits = millis_back v fits
  get-set stateless_reset_token v c (none, e, fits) = rw e refl
  get-set stateless_reset_token v c (some t, e, fits) =
      rw (e, from_str_radix-format_hex t fits, set_setting) refl
  get-set _ v c fits = refl

module _ {e : Std} where
  parsed_token_ne :
      (j : Setting) (t : Option ℕ) (c : Config e)
      → (index j == index stateless_reset_token) ≡ false
      → get_setting j (parsed_token t c) ≡ get_setting j c
  unfolding get_setting
  parsed_token_ne stateless_reset_token t c other = cc
  parsed_token_ne _ none c other = refl
  parsed_token_ne _ (some t) c other = refl

  pub get-set_ne :
      (j k : Setting) (v : ValueOf e k) (c : Config e)
      → (index j == index k) ≡ false
      → get_setting j (set_setting k v c) ≡ get_setting j c
  unfolding get_setting set_setting
  get-set_ne alpn alpn v c other = cc
  get-set_ne enable_dgram enable_dgram v c other = cc
  get-set_ne dgram_recv_max_queue_len dgram_recv_max_queue_len v c other = cc
  get-set_ne dgram_send_max_queue_len dgram_send_max_queue_len v c other = cc
  get-set_ne enable_early_data enable_early_data v c other = cc
  get-set_ne initial_max_data initial_max_data v c other = cc
  get-set_ne initial_max_stream_data_bidi_local initial_max_stream_data_bidi_local v c other = cc
  get-set_ne initial_max_stream_data_bidi_remote initial_max_stream_data_bidi_remote v c other = cc
  get-set_ne initial_max_stream_data_uni initial_max_stream_data_uni v c other = cc
  get-set_ne initial_max_streams_bidi initial_max_streams_bidi v c other = cc
  get-set_ne initial_max_streams_uni initial_max_streams_uni v c other = cc
  get-set_ne max_idle_timeout max_idle_timeout v c other = cc
  get-set_ne disable_active_migration disable_active_migration v c other = cc
  get-set_ne active_connection_id_limit active_connection_id_limit v c other = cc
  get-set_ne max_recv_udp_payload_size max_recv_udp_payload_size v c other = cc
  get-set_ne max_send_udp_payload_size max_send_udp_payload_size v c other = cc
  get-set_ne disable_client_ip_validation disable_client_ip_validation v c other = cc
  get-set_ne keylog_file keylog_file v c other = cc
  get-set_ne qlog_dir qlog_dir v c other = cc
  get-set_ne cc_algorithm cc_algorithm v c other = cc
  get-set_ne initial_congestion_window_packets initial_congestion_window_packets v c other = cc
  get-set_ne enable_relaxed_loss_threshold enable_relaxed_loss_threshold v c other = cc
  get-set_ne discover_path_mtu discover_path_mtu v c other = cc
  get-set_ne pmtud_max_probes pmtud_max_probes v c other = cc
  get-set_ne enable_hystart enable_hystart v c other = cc
  get-set_ne enable_pacing enable_pacing v c other = cc
  get-set_ne max_pacing_rate max_pacing_rate v c other = cc
  get-set_ne enable_expensive_packet_count_metrics enable_expensive_packet_count_metrics v c other =
      cc
  get-set_ne capture_quiche_logs capture_quiche_logs v c other = cc
  get-set_ne handshake_timeout handshake_timeout v c other = cc
  get-set_ne listen_backlog listen_backlog v c other = cc
  get-set_ne verify_peer verify_peer v c other = cc
  get-set_ne max_connection_window max_connection_window v c other = cc
  get-set_ne max_stream_window max_stream_window v c other = cc
  get-set_ne enable_send_streams_blocked enable_send_streams_blocked v c other = cc
  get-set_ne grease grease v c other = cc
  get-set_ne max_amplification_factor max_amplification_factor v c other = cc
  get-set_ne send_capacity_factor send_capacity_factor v c other = cc
  get-set_ne ack_delay_exponent ack_delay_exponent v c other = cc
  get-set_ne max_ack_delay max_ack_delay v c other = cc
  get-set_ne max_path_challenge_recv_queue_len max_path_challenge_recv_queue_len v c other = cc
  get-set_ne stateless_reset_token stateless_reset_token v c other = cc
  get-set_ne disable_dcid_reuse disable_dcid_reuse v c other = cc
  get-set_ne track_unknown_transport_parameters track_unknown_transport_parameters v c other = cc
  get-set_ne key_path key_path v c other = cc
  get-set_ne cert_path cert_path v c other = cc
  get-set_ne _ stateless_reset_token none c other = refl
  get-set_ne j stateless_reset_token (some text) c other =
      parsed_token_ne j (from_str_radix 16 (2 ^ 128) text) c other
  get-set_ne _ _ v c other = refl
