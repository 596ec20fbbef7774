-- ===== src/Message.antt =====
-- core/src/message/flags.rs and msg.rs: one frame of a message. `Bytes` is a list of bytes; the
-- typed metadata map of a frame is left out, since no modelled operation reads it.
use rzmq.Base.{ℕ, Bool, true, false, not, ◌&&◌, ◌||◌, Option, none, some, List, [], length}

-- The bit set over `MORE` (0b01) and `COMMAND` (0b10).
pub record MsgFlags : Type 0 where
  pub more : Bool
  pub command : Bool

abbrev pub empty_flags : MsgFlags
empty_flags = record { more = false; command = false }

abbrev pub more_flag : MsgFlags
more_flag = record { more = true; command = false }

abbrev pub command_flag : MsgFlags
command_flag = record { more = false; command = true }

-- `a | b`, `a & !b` and `a.contains(b)`.
abbrev pub union : MsgFlags → MsgFlags → MsgFlags
union a b = record { more = a.more || b.more; command = a.command || b.command }

abbrev pub difference : MsgFlags → MsgFlags → MsgFlags
difference a b = record { more = a.more && not b.more; command = a.command && not b.command }

abbrev pub contains : MsgFlags → MsgFlags → Bool
contains a b = (not b.more || a.more) && (not b.command || a.command)

pub record Msg : Type 0 where
  pub payload : Option (List ℕ)
  pub flags : MsgFlags

abbrev pub new : Msg
new = record { payload = none; flags = empty_flags }

-- `from_vec`, `from_bytes` and `from_static` differ in who owns the memory.
abbrev pub from_bytes : List ℕ → Msg
from_bytes bytes = record { payload = some bytes; flags = empty_flags }

abbrev pub bytes_or_empty : Option (List ℕ) → List ℕ
bytes_or_empty none = []
bytes_or_empty (some bytes) = bytes

-- `msg.data().unwrap_or(&[])`.
abbrev pub data_or_empty : Msg → List ℕ
data_or_empty m = bytes_or_empty m.payload

abbrev pub size : Msg → ℕ
size m = length (data_or_empty m)

abbrev pub set_flags : Msg → MsgFlags → Msg
set_flags m f = record m { flags = f }

abbrev pub is_more : Msg → Bool
is_more m = contains m.flags more_flag

abbrev pub is_command : Msg → Bool
is_command m = contains m.flags command_flag
