-- ===== src/Kernel/Status.antt =====
-- NTSTATUS codes as 32-bit patterns, with the values that the WDK headers document.
use hsn_capture_hpc_ng.Base.{ℕ, Bool, ltb}

-- NT_SUCCESS: the code is not negative as a signed 32-bit number.
abbrev pub nt_success : ℕ → Bool
nt_success s = ltb s 0x80000000

abbrev pub status_success : ℕ
status_success = 0

abbrev pub status_buffer_overflow : ℕ
status_buffer_overflow = 0x80000005

abbrev pub status_unsuccessful : ℕ
status_unsuccessful = 0xC0000001

abbrev pub status_info_length_mismatch : ℕ
status_info_length_mismatch = 0xC0000004

abbrev pub status_invalid_parameter : ℕ
status_invalid_parameter = 0xC000000D

abbrev pub status_buffer_too_small : ℕ
status_buffer_too_small = 0xC0000023

abbrev pub status_object_name_collision : ℕ
status_object_name_collision = 0xC0000035

abbrev pub status_insufficient_resources : ℕ
status_insufficient_resources = 0xC000009A

abbrev pub status_flt_do_not_attach : ℕ
status_flt_do_not_attach = 0xC01C000F
