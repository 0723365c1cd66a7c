-- ===== src/Call/Intervals.antt =====
-- How often a call does what it does regularly: the constants of backend/src/call.rs, in
-- nanoseconds.
use signal_calling_service.Prelude.{ℕ}

abbrev pub key_frame_request_calculation_interval : ℕ
key_frame_request_calculation_interval = 5_000_000

abbrev pub key_frame_request_resend_interval : ℕ
key_frame_request_resend_interval = 200_000_000

abbrev pub high_res_key_frame_request_resend_interval : ℕ
high_res_key_frame_request_resend_interval = 500_000_000

abbrev pub send_rate_reallocation_interval : ℕ
send_rate_reallocation_interval = 1_000_000_000

abbrev pub active_speaker_calculation_interval : ℕ
active_speaker_calculation_interval = 300_000_000

abbrev pub stats_message_interval : ℕ
stats_message_interval = 1_000_000_000

abbrev pub removed_clients_update_interval : ℕ
removed_clients_update_interval = 1_000_000_000

abbrev pub raised_hands_message_interval : ℕ
raised_hands_message_interval = 1_000_000_000

abbrev pub min_target_send_rate_generation_interval : ℕ
min_target_send_rate_generation_interval = 2_500_000_000
