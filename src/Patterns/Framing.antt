-- ===== src/Patterns/Framing.antt =====
-- core/src/socket/patterns/framing.rs: the empty delimiter frame of ROUTER and DEALER messages.
pub mod Delimiter
use rzmq.Base.{ℕ, Bool, true, false, List, [], ◌∷◌, ◌==◌, if◌then◌else◌, bit_and, is_empty}
use rzmq.Message.{Msg, new, set_flags, more_flag, union}

abbrev pub FramingOp : Type 0
FramingOp = List Msg → List Msg

abbrev pub noop : FramingOp
noop frames = frames

-- The tables have two entries, for Auto (0) and Manual (1).
pub record FramingLatch : Type 0 where
  pub mode : ℕ
  pub encoders : FramingOp × FramingOp
  pub decoders : FramingOp × FramingOp

abbrev pub new_latch : FramingOp → FramingOp → FramingLatch
new_latch auto_encode auto_decode = record {
  mode = 0;
  encoders = (auto_encode, noop);
  decoders = (auto_decode, noop);
}

abbrev pub entry : FramingOp × FramingOp → ℕ → FramingOp
entry table idx = if bit_and idx 1 == 0 then table.0 else table.1

unfoldable pub encode : FramingLatch → List Msg → List Msg
encode latch frames = entry latch.encoders latch.mode frames

pub decode : FramingLatch → List Msg → List Msg
decode latch frames = entry latch.decoders latch.mode frames

-- `compare_exchange(0, 1)`, and whether it succeeded.
pub set_manual : FramingLatch → FramingLatch × Bool
set_manual latch = if latch.mode == 0 then (record latch { mode = 1 }, true) else (latch, false)

unfoldable pub is_manual : FramingLatch → Bool
is_manual latch = latch.mode == 1

-- The frame that `frames[0].set_flags(flags | MORE)` leaves.
abbrev pub with_more : Msg → Msg
with_more m = set_flags m (union m.flags more_flag)

-- A delimiter, with the MORE flag where a frame follows.
abbrev pub delimiter : Bool → Msg
delimiter last = if last then new else set_flags new more_flag

unfoldable pub router_auto_encode : FramingOp
router_auto_encode [] = []
router_auto_encode (identity ∷ payload) =
    with_more identity ∷ delimiter (is_empty payload) ∷ payload

unfoldable pub router_auto_decode : FramingOp
router_auto_decode [] = []
router_auto_decode (identity ∷ []) = identity ∷ []
router_auto_decode (identity ∷ second ∷ payload) = identity ∷ payload

unfoldable pub dealer_auto_encode : FramingOp
dealer_auto_encode frames = delimiter (is_empty frames) ∷ frames

unfoldable pub dealer_auto_decode : FramingOp
dealer_auto_decode [] = []
dealer_auto_decode (first ∷ payload) = payload
