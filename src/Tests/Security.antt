-- ===== src/Tests/Security.antt =====
-- Handshakes, negotiation and framers of core/src/security.
use rzmq.Base.{
  ℕ, ◌^◌, ◌%◌, ◌≡◌, ◌≢◌, ◌≤◌, ◌<◌, ◌↔◌, refl, true, none, some, List, [], ◌∷◌, ◌++◌, length,
  replicate, length-replicate, take, drop, be_value, be_bytes, map, All, bytes_eq, arith,
}
use rzmq.Base.Int.{pos}
use rzmq.Error.{ok, err, authentication_failure}
use rzmq.Message.{Msg, from_bytes, set_flags, more_flag}
use rzmq.Zmtp.Codec.RoundTrip.{on_wire}
use rzmq.Zmtp.Codec.{encode}
use rzmq.Security.Plain.{
  produce_and_send, new_plain, set_server_expected_credentials, create_hello_body, parse_hello_body,
  process_token, produce_token, produce_in, server_process, verify, expects, parse_password,
  framer_identity, into_framer,
}
use rzmq.Security.Plain.Verified.{
  HandshakeEvent, token, produce, run, step, Shown, into_framer_verified,
}
use rzmq.Security.Plain.Handshake.{server_of, hello_token, server_accepts_iff}
use rzmq.Security.Framer.{
  IDataCipher, pass_through, new_framer, encode_all, try_read_msg, write_msg_multipart, sealed,
  next_frame, decrypted,
}
use rzmq.Security.Framer.Stream.{Allowed, read_many, try_read_msg_total}
use rzmq.Security.Framer.Sealed.{write_msg_multipart-try_read_msg, long_ciphertext_cut}

abbrev user : List ℕ
user = 117 ∷ []

abbrev secret : List ℕ
secret = 112 ∷ 119 ∷ []

abbrev first : Msg
first = set_flags (from_bytes (7 ∷ 8 ∷ [])) more_flag

abbrev second : Msg
second = from_bytes (9 ∷ [])

abbrev both : List Msg
both = first ∷ second ∷ []

abbrev server_past : List HandshakeEvent
server_past = produce ∷ token (hello_token user secret) ∷ []

server_ready :
    into_framer
      (run (set_server_expected_credentials (new_plain true) (some user) (some secret)) server_past)
    ≡ ok (some user)
unfolding into_framer framer_identity run step set_server_expected_credentials new_plain
    produce_token produce_in process_token server_process verify expects parse_hello_body
    parse_password create_hello_body bytes_eq
server_ready = refl

into_framer_verified_example : Shown (some user) (some secret) server_past (some user)
into_framer_verified_example =
    into_framer_verified (some user) (some secret) server_past (some user) server_ready

server_accepts_iff_example :
    (((process_token (server_of user secret) (hello_token user secret)).0 ≡ ok produce_and_send)
      ↔ ((user ≡ user) × (secret ≡ secret)))
    × (((process_token (server_of user secret) (hello_token user secret)).0
          ≡ err authentication_failure)
        ↔ ¬ ((user ≡ user) × (secret ≡ secret)))
server_accepts_iff_example = server_accepts_iff user secret user secret

both-Allowed : All (Allowed (pos 16)) both
both-Allowed = ((omega arith, refl), ((omega arith, refl), tt))

abbrev both_bytes : List ℕ
both_bytes = encode_all both []

try_read_msg_total_example :
    try_read_msg pass_through (new_framer pass_through tt (pos 16)) (0 ∷ 0 ∷ 0 ∷ []) ≢ none
try_read_msg_total_example =
    try_read_msg_total pass_through (new_framer pass_through tt (pos 16)) (0 ∷ 0 ∷ 0 ∷ [])

write_msg_multipart-try_read_msg_example :
    read_many
      (try_read_msg pass_through)
      2
      (new_framer pass_through tt (pos 16))
      ((be_bytes 2 7 ++ both_bytes) ++ (5 ∷ []))
    ≡ some (map on_wire both, new_framer pass_through tt (pos 16), 5 ∷ [])
unfolding encode_all encode write_msg_multipart sealed
write_msg_multipart-try_read_msg_example =
    write_msg_multipart-try_read_msg pass_through (new_framer pass_through tt (pos 16)) (pos 16) tt
      tt tt first (second ∷ []) both_bytes (be_bytes 2 7 ++ both_bytes) (5 ∷ []) refl refl
      (omega arith) both-Allowed refl

long_bytes : List ℕ
long_bytes = replicate (2 ^ 16) 0

length-long_bytes : 2 ^ 16 ≤ length long_bytes
unfolding long_bytes
length-long_bytes = omega (arith, length-replicate {A = ℕ} (2 ^ 16) 0)

-- A cipher whose ciphertexts are all 64 KiB of zeros.
abbrev padding_cipher : IDataCipher (Unit {0})
padding_cipher = record {
  encrypt = λ s plaintext. (ok long_bytes, s);
  decrypt = λ s ciphertext. (ok [], s);
}

long_ciphertext_cut_example :
    let reader = new_framer padding_cipher tt (pos 9) in
    let n = length long_bytes % 2 ^ 16 in
    (wire : List ℕ) × ((write_msg_multipart padding_cipher
        (new_framer padding_cipher tt (pos 16))
        both).0
      ≡ ok wire)
    × (drop 2 wire ≡ long_bytes)
    × (be_value (take 2 wire) ≡ n)
    × (n < length long_bytes)
    × (next_frame padding_cipher reader (wire ++ (5 ∷ []))
        ≡ decrypted padding_cipher reader (ok [], tt) (drop n long_bytes ++ (5 ∷ [])))
long_ciphertext_cut_example =
    long_ciphertext_cut padding_cipher (new_framer padding_cipher tt (pos 16))
      (new_framer padding_cipher tt (pos 9)) both long_bytes (5 ∷ []) tt refl length-long_bytes
