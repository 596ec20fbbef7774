-- ===== src/Zmtp/Greeting/Staged.antt =====
-- The staged exchange of core/src/protocol/zmtp/greeting.rs: signature and byte 10 first, then the
-- tail that the peer's byte 10 asks for.
use rzmq.Base.{ℕ, ◌≡◌, refl, Bool, some, List, [], ◌∷◌, ◌++◌, get_or, get_or-take, arith}
use rzmq.Error.{ok}
use rzmq.Zmtp.Greeting.{
  ZmtpGreeting, encode, encode_signature, encode_v3_tail_post_major, decode, peek_revision,
  encode_v2_full, decode_v2_tail, version_major,
}
use rzmq.Zmtp.Greeting.V3.{decode-Accepted}

-- The 11 bytes that go out first, followed by the tail that is written later, are the whole greeting,
-- whatever the buffers held before.
pub staged-encode :
    (mechanism : List ℕ) (as_server : Bool)
    → encode_v3_tail_post_major mechanism as_server (encode_signature [] ++ (version_major ∷ []))
      ≡ encode mechanism as_server []
unfolding encode
staged-encode mechanism as_server = refl

-- The peek at a v2 greeting answers 1, and the two bytes there are read back as its tail.
pub peek_revision-encode_v2_full :
    (socket_type : ℕ) (rest : List ℕ)
    → (peek_revision (encode_v2_full socket_type [] ++ rest) ≡ ok 1)
      × (decode_v2_tail
            (get_or (encode_v2_full socket_type [] ++ rest) 10 0)
            (get_or (encode_v2_full socket_type [] ++ rest) 11 0)
          ≡ ok (record { revision = 1; socket_type = socket_type }))
unfolding peek_revision encode_v2_full decode_v2_tail
peek_revision-encode_v2_full socket_type rest = (ground arith, refl)

-- If the v3 decoder accepts a buffer, then the peek at it, where it succeeds, answers 3.
pub peek_revision-decode :
    (buffer rest : List ℕ) (r : ℕ) (g : ZmtpGreeting)
    → peek_revision buffer ≡ ok r
    → decode buffer ≡ (ok (some g), rest)
    → r ≡ 3
unfolding peek_revision
peek_revision-decode buffer rest r g p h =
    let (_, _, major, _, _, _) = (decode-Accepted buffer rest g h).0 in
    ground (arith, get_or-take 64 buffer 10 0)
