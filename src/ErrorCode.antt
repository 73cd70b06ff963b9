-- ===== src/ErrorCode.antt =====
-- include/error_codes.h: the error enum that every layer shares, and `std::expected`.
use vnic.Prelude.{◌≡◌, true, refl, ℕ, Bool, ◌==◌}

-- `enum class ErrorCode : std::uint32_t`
pub data ErrorCode : Type 0 where
  none unknown invalid_argument invalid_state invalid_operation not_configured : ErrorCode
  already_configured not_started already_started busy timeout not_supported : ErrorCode
  not_implemented out_of_memory allocation_failed resource_exhausted internal_error : ErrorCode
  null_pointer buffer_too_small buffer_overflow out_of_range invalid_index invalid_size : ErrorCode
  would_block interrupted cancelled system_error io_error permission_denied : ErrorCode
  corrupted_data unsupported_version type_mismatch overflow underflow thread_error : ErrorCode
  state_transition_invalid state_configure_not_allowed state_start_not_allowed : ErrorCode
  state_stop_not_allowed state_configure_failed state_start_failed state_stop_failed : ErrorCode
  state_already_in_progress config_invalid config_missing config_already_applied : ErrorCode
  config_mtu_invalid config_mac_invalid config_ip_invalid config_vlan_invalid : ErrorCode
  config_queue_count_invalid config_rss_invalid config_rss_key_too_short : ErrorCode
  config_rss_reta_empty config_rss_reta_size_not_power_of_two : ErrorCode
  config_rss_reta_queue_out_of_range config_rss_hash_function_unsupported : ErrorCode
  config_link_invalid config_link_rx_depth_invalid config_link_tx_depth_invalid : ErrorCode
  config_link_rx_frame_size_invalid config_link_tx_frame_size_invalid : ErrorCode
  config_queue_invalid config_queue_size_invalid config_pool_invalid : ErrorCode
  config_allocator_invalid link_error link_not_configured link_configure_failed link_down :
      ErrorCode
  link_already_up link_already_down link_packet_empty link_rx_queue_full : ErrorCode
  link_tx_queue_full link_allocation_failed link_put_failed link_take_failed : ErrorCode
  link_queue_error memory_error memory_allocation_failed memory_deallocation_failed : ErrorCode
  memory_pool_exhausted memory_pool_not_configured memory_pool_config_invalid : ErrorCode
  memory_pool_capacity_exceeded memory_invalid_pointer allocator_not_configured : ErrorCode
  allocator_allocation_failed allocator_invalid_size allocator_config_invalid queue_error :
      ErrorCode
  queue_full queue_empty queue_closed queue_overflow queue_underflow queue_not_configured :
      ErrorCode
  queue_not_started queue_already_started queue_start_failed queue_stop_failed : ErrorCode
  queue_invalid_id queue_invalid_config queue_descriptor_invalid queue_pool_exhausted : ErrorCode
  queue_segment_limit_exceeded queue_zero_length_packet queue_packet_too_large : ErrorCode
  queue_push_failed queue_pop_failed queue_capacity_invalid queue_free_list_empty : ErrorCode
  queue_used_list_full queue_chain_invalid queue_copy_failed queue_free_list_full : ErrorCode
  parse_error parse_invalid_frame parse_truncated parse_ethernet_too_short : ErrorCode
  parse_invalid_vlan parse_unsupported_ether_type parse_ipv4_too_short : ErrorCode
  parse_invalid_ipv4_version parse_invalid_ipv4_header_length : ErrorCode
  parse_invalid_ipv4_total_length parse_ipv6_too_short parse_invalid_ipv6_version : ErrorCode
  parse_invalid_ipv6_payload_length parse_arp_too_short parse_invalid_arp_header_length : ErrorCode
  parse_tcp_too_short parse_udp_too_short parse_icmp_too_short parse_unsupported_protocol :
      ErrorCode
  parse_ipv6_extension_unsupported parse_checksum_mismatch parse_header_truncated : ErrorCode
  parse_no_ethernet_header parse_no_ip_header parse_no_l4_header validation_error : ErrorCode
  validation_failed validation_frame_too_short validation_frame_too_long : ErrorCode
  validation_fcs_invalid validation_dst_mac_mismatch validation_vlan_rejected : ErrorCode
  validation_ip_total_length_invalid validation_ipv4_checksum_invalid : ErrorCode
  validation_malformed_frame validation_unsupported_frame rss_error rss_disabled : ErrorCode
  rss_invalid_protocol rss_invalid_hash_function rss_key_too_short rss_key_invalid : ErrorCode
  rss_reta_empty rss_reta_size_invalid rss_reta_queue_out_of_range rss_hash_failed : ErrorCode
  rss_unsupported_flow rss_invalid_tuple rss_symmetric_mode_unsupported rss_no_ip_header : ErrorCode
  rss_no_ports hash_invalid_input hash_unsupported_function hash_key_invalid : ErrorCode
  hash_input_too_long hash_calculation_failed tx_error tx_descriptor_null : ErrorCode
  tx_segment_limit_exceeded tx_length_mismatch tx_packet_too_large tx_link_unavailable : ErrorCode
  tx_link_rejected tx_queue_full tx_queue_not_configured tx_queue_not_started : ErrorCode
  tx_allocation_failed tx_invalid_length rx_error rx_invalid_queue_id rx_queue_full : ErrorCode
  rx_queue_empty rx_queue_not_configured rx_queue_not_started rx_descriptor_invalid : ErrorCode
  rx_allocation_failed rx_free_list_empty rx_used_list_full rx_chain_invalid : ErrorCode
  rx_copy_failed rx_no_free_descriptors rx_frame_too_large rx_pool_exhausted : ErrorCode
  thread_create_failed thread_join_failed thread_start_failed thread_stop_failed : ErrorCode
  thread_not_joinable thread_already_running thread_interrupted clock_error : ErrorCode
  clock_read_failed clock_unavailable : ErrorCode

-- The underlying value of each enumerator.
unfoldable pub value : ErrorCode → ℕ
value ErrorCode.none = 0
value ErrorCode.unknown = 1
value ErrorCode.invalid_argument = 2
value ErrorCode.invalid_state = 3
value ErrorCode.invalid_operation = 4
value ErrorCode.not_configured = 5
value ErrorCode.already_configured = 6
value ErrorCode.not_started = 7
value ErrorCode.already_started = 8
value ErrorCode.busy = 9
value ErrorCode.timeout = 10
value ErrorCode.not_supported = 11
value ErrorCode.not_implemented = 12
value ErrorCode.out_of_memory = 13
value ErrorCode.allocation_failed = 14
value ErrorCode.resource_exhausted = 15
value ErrorCode.internal_error = 16
value ErrorCode.null_pointer = 17
value ErrorCode.buffer_too_small = 18
value ErrorCode.buffer_overflow = 19
value ErrorCode.out_of_range = 20
value ErrorCode.invalid_index = 21
value ErrorCode.invalid_size = 22
value ErrorCode.would_block = 23
value ErrorCode.interrupted = 24
value ErrorCode.cancelled = 25
value ErrorCode.system_error = 26
value ErrorCode.io_error = 27
value ErrorCode.permission_denied = 28
value ErrorCode.corrupted_data = 29
value ErrorCode.unsupported_version = 30
value ErrorCode.type_mismatch = 31
value ErrorCode.overflow = 32
value ErrorCode.underflow = 33
value ErrorCode.thread_error = 34
value ErrorCode.state_transition_invalid = 40
value ErrorCode.state_configure_not_allowed = 41
value ErrorCode.state_start_not_allowed = 42
value ErrorCode.state_stop_not_allowed = 43
value ErrorCode.state_configure_failed = 44
value ErrorCode.state_start_failed = 45
value ErrorCode.state_stop_failed = 46
value ErrorCode.state_already_in_progress = 47
value ErrorCode.config_invalid = 100
value ErrorCode.config_missing = 101
value ErrorCode.config_already_applied = 102
value ErrorCode.config_mtu_invalid = 103
value ErrorCode.config_mac_invalid = 104
value ErrorCode.config_ip_invalid = 105
value ErrorCode.config_vlan_invalid = 106
value ErrorCode.config_queue_count_invalid = 107
value ErrorCode.config_rss_invalid = 108
value ErrorCode.config_rss_key_too_short = 109
value ErrorCode.config_rss_reta_empty = 110
value ErrorCode.config_rss_reta_size_not_power_of_two = 111
value ErrorCode.config_rss_reta_queue_out_of_range = 112
value ErrorCode.config_rss_hash_function_unsupported = 113
value ErrorCode.config_link_invalid = 114
value ErrorCode.config_link_rx_depth_invalid = 115
value ErrorCode.config_link_tx_depth_invalid = 116
value ErrorCode.config_link_rx_frame_size_invalid = 117
value ErrorCode.config_link_tx_frame_size_invalid = 118
value ErrorCode.config_queue_invalid = 119
value ErrorCode.config_queue_size_invalid = 120
value ErrorCode.config_pool_invalid = 121
value ErrorCode.config_allocator_invalid = 122
value ErrorCode.link_error = 150
value ErrorCode.link_not_configured = 151
value ErrorCode.link_configure_failed = 152
value ErrorCode.link_down = 153
value ErrorCode.link_already_up = 154
value ErrorCode.link_already_down = 155
value ErrorCode.link_packet_empty = 156
value ErrorCode.link_rx_queue_full = 157
value ErrorCode.link_tx_queue_full = 158
value ErrorCode.link_allocation_failed = 159
value ErrorCode.link_put_failed = 160
value ErrorCode.link_take_failed = 161
value ErrorCode.link_queue_error = 162
value ErrorCode.memory_error = 180
value ErrorCode.memory_allocation_failed = 181
value ErrorCode.memory_deallocation_failed = 182
value ErrorCode.memory_pool_exhausted = 183
value ErrorCode.memory_pool_not_configured = 184
value ErrorCode.memory_pool_config_invalid = 185
value ErrorCode.memory_pool_capacity_exceeded = 186
value ErrorCode.memory_invalid_pointer = 187
value ErrorCode.allocator_not_configured = 188
value ErrorCode.allocator_allocation_failed = 189
value ErrorCode.allocator_invalid_size = 190
value ErrorCode.allocator_config_invalid = 191
value ErrorCode.queue_error = 220
value ErrorCode.queue_full = 221
value ErrorCode.queue_empty = 222
value ErrorCode.queue_closed = 223
value ErrorCode.queue_overflow = 224
value ErrorCode.queue_underflow = 225
value ErrorCode.queue_not_configured = 226
value ErrorCode.queue_not_started = 227
value ErrorCode.queue_already_started = 228
value ErrorCode.queue_start_failed = 229
value ErrorCode.queue_stop_failed = 230
value ErrorCode.queue_invalid_id = 231
value ErrorCode.queue_invalid_config = 232
value ErrorCode.queue_descriptor_invalid = 233
value ErrorCode.queue_pool_exhausted = 234
value ErrorCode.queue_segment_limit_exceeded = 235
value ErrorCode.queue_zero_length_packet = 236
value ErrorCode.queue_packet_too_large = 237
value ErrorCode.queue_push_failed = 238
value ErrorCode.queue_pop_failed = 239
value ErrorCode.queue_capacity_invalid = 240
value ErrorCode.queue_free_list_empty = 241
value ErrorCode.queue_used_list_full = 242
value ErrorCode.queue_chain_invalid = 243
value ErrorCode.queue_copy_failed = 244
value ErrorCode.queue_free_list_full = 245
value ErrorCode.parse_error = 280
value ErrorCode.parse_invalid_frame = 281
value ErrorCode.parse_truncated = 282
value ErrorCode.parse_ethernet_too_short = 283
value ErrorCode.parse_invalid_vlan = 284
value ErrorCode.parse_unsupported_ether_type = 285
value ErrorCode.parse_ipv4_too_short = 286
value ErrorCode.parse_invalid_ipv4_version = 287
value ErrorCode.parse_invalid_ipv4_header_length = 288
value ErrorCode.parse_invalid_ipv4_total_length = 289
value ErrorCode.parse_ipv6_too_short = 290
value ErrorCode.parse_invalid_ipv6_version = 291
value ErrorCode.parse_invalid_ipv6_payload_length = 292
value ErrorCode.parse_arp_too_short = 293
value ErrorCode.parse_invalid_arp_header_length = 294
value ErrorCode.parse_tcp_too_short = 295
value ErrorCode.parse_udp_too_short = 296
value ErrorCode.parse_icmp_too_short = 297
value ErrorCode.parse_unsupported_protocol = 298
value ErrorCode.parse_ipv6_extension_unsupported = 299
value ErrorCode.parse_checksum_mismatch = 300
value ErrorCode.parse_header_truncated = 301
value ErrorCode.parse_no_ethernet_header = 302
value ErrorCode.parse_no_ip_header = 303
value ErrorCode.parse_no_l4_header = 304
value ErrorCode.validation_error = 330
value ErrorCode.validation_failed = 331
value ErrorCode.validation_frame_too_short = 332
value ErrorCode.validation_frame_too_long = 333
value ErrorCode.validation_fcs_invalid = 334
value ErrorCode.validation_dst_mac_mismatch = 335
value ErrorCode.validation_vlan_rejected = 336
value ErrorCode.validation_ip_total_length_invalid = 337
value ErrorCode.validation_ipv4_checksum_invalid = 338
value ErrorCode.validation_malformed_frame = 339
value ErrorCode.validation_unsupported_frame = 340
value ErrorCode.rss_error = 370
value ErrorCode.rss_disabled = 371
value ErrorCode.rss_invalid_protocol = 372
value ErrorCode.rss_invalid_hash_function = 373
value ErrorCode.rss_key_too_short = 374
value ErrorCode.rss_key_invalid = 375
value ErrorCode.rss_reta_empty = 376
value ErrorCode.rss_reta_size_invalid = 377
value ErrorCode.rss_reta_queue_out_of_range = 378
value ErrorCode.rss_hash_failed = 379
value ErrorCode.rss_unsupported_flow = 380
value ErrorCode.rss_invalid_tuple = 381
value ErrorCode.rss_symmetric_mode_unsupported = 382
value ErrorCode.rss_no_ip_header = 383
value ErrorCode.rss_no_ports = 384
value ErrorCode.hash_invalid_input = 385
value ErrorCode.hash_unsupported_function = 386
value ErrorCode.hash_key_invalid = 387
value ErrorCode.hash_input_too_long = 388
value ErrorCode.hash_calculation_failed = 389
value ErrorCode.tx_error = 420
value ErrorCode.tx_descriptor_null = 421
value ErrorCode.tx_segment_limit_exceeded = 422
value ErrorCode.tx_length_mismatch = 423
value ErrorCode.tx_packet_too_large = 424
value ErrorCode.tx_link_unavailable = 425
value ErrorCode.tx_link_rejected = 426
value ErrorCode.tx_queue_full = 427
value ErrorCode.tx_queue_not_configured = 428
value ErrorCode.tx_queue_not_started = 429
value ErrorCode.tx_allocation_failed = 430
value ErrorCode.tx_invalid_length = 431
value ErrorCode.rx_error = 450
value ErrorCode.rx_invalid_queue_id = 451
value ErrorCode.rx_queue_full = 452
value ErrorCode.rx_queue_empty = 453
value ErrorCode.rx_queue_not_configured = 454
value ErrorCode.rx_queue_not_started = 455
value ErrorCode.rx_descriptor_invalid = 456
value ErrorCode.rx_allocation_failed = 457
value ErrorCode.rx_free_list_empty = 458
value ErrorCode.rx_used_list_full = 459
value ErrorCode.rx_chain_invalid = 460
value ErrorCode.rx_copy_failed = 461
value ErrorCode.rx_no_free_descriptors = 462
value ErrorCode.rx_frame_too_large = 463
value ErrorCode.rx_pool_exhausted = 464
value ErrorCode.thread_create_failed = 491
value ErrorCode.thread_join_failed = 492
value ErrorCode.thread_start_failed = 493
value ErrorCode.thread_stop_failed = 494
value ErrorCode.thread_not_joinable = 495
value ErrorCode.thread_already_running = 496
value ErrorCode.thread_interrupted = 497
value ErrorCode.clock_error = 510
value ErrorCode.clock_read_failed = 511
value ErrorCode.clock_unavailable = 512

-- `==` on the enum compares the underlying values.
unfoldable pub eqb : ErrorCode → ErrorCode → Bool
unfolding value
eqb a b = value a == value b

-- `std::expected<A, ErrorCode>`
pub data Expected {ℓ} (A : Type ℓ) : Type ℓ where
  ok : A → Expected A
  unexpected : ErrorCode → Expected A

-- `std::expected<void, ErrorCode>`
abbrev pub Status : Type 0
Status = Expected (Unit {0})

abbrev pub done : Status
done = ok tt

-- No other error has the value of `None`.
pub eqb-none : (e : ErrorCode) → eqb e ErrorCode.none ≡ true → e ≡ ErrorCode.none
unfolding eqb value
eqb-none ErrorCode.none h = refl
eqb-none _ h = absurd (cc h)
