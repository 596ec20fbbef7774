-- ===== src/Sessionx/V2/Peer.antt =====
-- What the loop of core/src/sessionx/protocol_handler/v2_path.rs makes of a frame that a peer sends.
use rzmq.Base.{ℕ, ◌^◌, ◌<◌, ◌≡◌, false, ◌||◌, some, List, [], ◌++◌, All, ltb, if◌then◌else◌, arith}
use rzmq.Base.Int.{ℤ}
use rzmq.Error.{protocol_violation, Result, ok, err}
use rzmq.Message.{Msg, data_or_empty, size, is_more, is_command}
use rzmq.Zmtp.Parser.{exceeds}
use rzmq.Zmtp.Codec.{encode}
use rzmq.Zmtp.Codec.RoundTrip.{decode-encode}
use rzmq.Sessionx.V2.{identity_of, read_v2_identity_frame, enforce_v2_identity_constraints}
use rzmq.Sessionx.V2.Identity.{
  IsChunk, delivered, identity_answer, waited_answer, fresh_handler, read_v2_identity_frame-decode,
}
use rzmq.Sessionx.Heartbeat.{ZmtpHeartbeatState}

-- A peer sends a frame of fewer than 2^64 bytes, within the size limit, and further bytes behind
-- it, in reads that all bring bytes in. Then the loop ends: with the bytes of the frame as the
-- identity if it is no command, announces no further frame and has at most 255 bytes, and with a
-- protocol violation if not. The further bytes are all left for the reading of messages.
pub identity_frame :
    (m : Msg) (rest buffer : List ℕ) (limit : ℤ) (heartbeat : ZmtpHeartbeatState) (now : ℕ)
    (reads : List (ℕ × Result (List ℕ)))
    → size m < 2 ^ 64
    → exceeds limit (size m) ≡ false
    → All IsChunk reads
    → buffer ++ delivered reads ≡ encode m [] ++ rest
    → waited_answer (read_v2_identity_frame (fresh_handler buffer limit heartbeat) now reads) ≡ (
      some (
          if is_command m || is_more m || ltb 255 (size m)
          then err protocol_violation
          else ok (data_or_empty m)),
      rest,
    )
unfolding identity_answer identity_of enforce_v2_identity_constraints
identity_frame m rest buffer limit heartbeat now reads small fits chunks sent =
    rw
      (
        read_v2_identity_frame-decode buffer limit heartbeat now reads chunks,
        sent,
        decode-encode limit m rest small fits,
      )
      (ground arith)
