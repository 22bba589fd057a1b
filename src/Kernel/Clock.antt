-- ===== src/Kernel/Clock.antt =====
-- GetCurrentTime and the two tests of the connection's age. The time is the number of seconds that
-- the three system calls of GetCurrentTime answer: an argument of each operation.
use hsn_capture_hpc_ng.Base.{ℕ, ◌+◌, ◌-◌, ◌/◌, ◌%◌, Bool, ltb, leb}

-- USERSPACE_CONNECTION_TIMEOUT, in seconds.
abbrev pub userspace_connection_timeout : ℕ
userspace_connection_timeout = 10

-- GetCurrentTime() - lastContactTime, on ULONGs.
abbrev pub elapsed : ℕ → ℕ → ℕ
elapsed now last = (now + 0x100000000 - last) % 0x100000000

-- Old enough for the queued events to be thrown away.
abbrev pub is_timed_out : ℕ → ℕ → Bool
is_timed_out now last =
    ltb (userspace_connection_timeout + userspace_connection_timeout / 2) (elapsed now last)

-- Recent enough for a new event to be queued.
abbrev pub is_connected : ℕ → ℕ → Bool
is_connected now last = leb (elapsed now last) userspace_connection_timeout
