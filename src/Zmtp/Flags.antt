-- ===== src/Zmtp/Flags.antt =====
-- The flag bits of a frame's first byte (core/src/protocol/zmtp/command.rs).
use rzmq.Base.{ℕ, ◌≡◌, Bool, not, bit_and, bit_or, ◌==◌, if◌then◌else◌, arith}
use rzmq.Message.{MsgFlags, empty_flags, more_flag, command_flag, union, contains}

abbrev pub zmtp_flag_long : ℕ
zmtp_flag_long = 2

abbrev pub zmtp_flag_more : ℕ
zmtp_flag_more = 1

abbrev pub zmtp_flag_command : ℕ
zmtp_flag_command = 4

-- `(flags & bit) != 0`
abbrev pub has_bit : ℕ → ℕ → Bool
has_bit flags bit = not (bit_and flags bit == 0)

-- The byte that both encoders build from a message's flags.
unfoldable pub frame_flags : MsgFlags → ℕ
frame_flags f =
    let with_more = if contains f more_flag then bit_or 0 zmtp_flag_more else 0 in
    if contains f command_flag then bit_or with_more zmtp_flag_command else with_more

-- The message flags that both decoders read off the byte.
unfoldable pub msg_flags : ℕ → MsgFlags
msg_flags byte =
    let with_more =
      if has_bit byte zmtp_flag_more then union empty_flags more_flag else empty_flags in
    if has_bit byte zmtp_flag_command then union with_more command_flag else with_more

-- The two are inverse, also with the bit that says that the length takes eight bytes.
pub msg_flags-frame_flags : (f : MsgFlags) → msg_flags (frame_flags f) ≡ f
unfolding msg_flags frame_flags
msg_flags-frame_flags f = ground arith

pub msg_flags-frame_flags_long :
    (f : MsgFlags) → msg_flags (bit_or (frame_flags f) zmtp_flag_long) ≡ f
unfolding msg_flags frame_flags
msg_flags-frame_flags_long f = ground arith

pub short_bit : (f : MsgFlags) → bit_and (frame_flags f) zmtp_flag_long ≡ 0
unfolding frame_flags
short_bit f = ground arith

pub long_bit : (f : MsgFlags) → bit_and (bit_or (frame_flags f) zmtp_flag_long) zmtp_flag_long ≡ 2
unfolding frame_flags
long_bit f = ground arith
