-- ===== src/Wire/Limits.antt =====
-- shared/voice/src/lib.rs: the sizes and tags of the datagram formats.
use tsod.Prelude.{
  ℕ, ◌+◌, ◌-◌, Bool, Option, none, if◌then◌else◌, ltb, leb, length, Bytes, get_elem?,
}

abbrev pub quic_max_datagram_bytes : ℕ
quic_max_datagram_bytes = 1200

abbrev pub app_media_mtu : ℕ
app_media_mtu = 1152

abbrev pub forwarder_added_header_bytes : ℕ
forwarder_added_header_bytes = 32

abbrev pub max_inbound_voice_datagram_bytes : ℕ
max_inbound_voice_datagram_bytes = app_media_mtu - forwarder_added_header_bytes

abbrev pub client_voice_header_bytes : ℕ
client_voice_header_bytes = 20

abbrev pub forwarded_voice_header_bytes : ℕ
forwarded_voice_header_bytes = client_voice_header_bytes + forwarder_added_header_bytes

abbrev pub max_opus_payload_bytes : ℕ
max_opus_payload_bytes = max_inbound_voice_datagram_bytes - client_voice_header_bytes

unfoldable pub outbound_payload_fits : ℕ → Bool
outbound_payload_fits payload_len = leb payload_len max_opus_payload_bytes

abbrev pub voice_version : ℕ
voice_version = 1

abbrev pub video_version : ℕ
video_version = 2

abbrev pub datagram_kind_voice : ℕ
datagram_kind_voice = 0x01

abbrev pub datagram_kind_video : ℕ
datagram_kind_video = 0x02

abbrev pub max_frags_per_frame : ℕ
max_frags_per_frame = 1024

unfoldable pub datagram_kind : Bytes → Option ℕ
datagram_kind buf = if ltb (length buf) 2 then none else get_elem? buf 1

abbrev pub video_header_bytes : ℕ
video_header_bytes = 24

abbrev pub video_flag_keyframe : ℕ
video_flag_keyframe = 0x01

abbrev pub video_flag_recovery : ℕ
video_flag_recovery = 0x02

abbrev pub video_flag_end_of_frame : ℕ
video_flag_end_of_frame = 0x04

abbrev pub max_video_datagram_bytes : ℕ
max_video_datagram_bytes = app_media_mtu

abbrev pub max_video_payload_bytes : ℕ
max_video_payload_bytes = max_video_datagram_bytes - video_header_bytes
