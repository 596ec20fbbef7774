-- ===== src/Security/Framer/Sealed.antt =====
-- The length prefix of the encrypting framer of core/src/security/framer.rs.
use rzmq.Base.{
  ℕ, suc, ◌+◌, ◌^◌, ◌%◌, ◌≤◌, ◌<◌, ◌≡◌, refl, sym, ap, ◌∙◌, none, some, List, [], ◌∷◌, ◌++◌, map,
  append-nil, append_assoc, le→ltb, length, length-append, length-take, take-append-drop, take,
  drop, take-append, drop-append, be_bytes, be_value, length-be_bytes, be_value-be_bytes, All,
  arith,
}
use rzmq.Base.Int.{ℤ}
use rzmq.Error.{Result, ok}
use rzmq.Message.{Msg}
use rzmq.Zmtp.Parser.{new_parser, decode_from_buffer, decode_in, decode_header}
use rzmq.Zmtp.Codec.RoundTrip.{on_wire}
use rzmq.Security.Framer.{
  encode_all, IDataCipher, LengthPrefixedFramer, new_framer, Read, answer, again, decrypted,
  next_frame, after_parser, round, try_read_loop, try_read_msg, sealed, write_msg_multipart,
}
use rzmq.Security.Framer.Stream.{Allowed, read_many, decode_first}

empty_buffer :
    (limit : ℤ) → decode_from_buffer (new_parser limit) [] ≡ (ok none, new_parser limit, [])
unfolding decode_from_buffer decode_in decode_header
empty_buffer limit = refl

decode_only :
    (limit : ℤ) (m : Msg) (msgs : List Msg)
    → Allowed limit m
    → decode_from_buffer (new_parser limit) (encode_all (m ∷ msgs) [])
      ≡ (ok (some (on_wire m)), new_parser limit, encode_all msgs [])
decode_only limit m msgs allowed =
    rw⁻¹ (append-nil (encode_all (m ∷ msgs) []), append-nil (encode_all msgs []))
      (decode_first limit m msgs [] allowed)

module _ {S : Type 0} (c : IDataCipher S) where
  sealed_wire :
      (f : LengthPrefixedFramer S) (msgs : List Msg) (ciphertext : List ℕ) (s : S)
      → c.encrypt f.cipher (encode_all msgs []) ≡ (ok ciphertext, s)
      → write_msg_multipart c f msgs
        ≡ (ok (be_bytes 2 (length ciphertext % 2 ^ 16) ++ ciphertext), record f { cipher = s })
  unfolding write_msg_multipart sealed
  sealed_wire f msgs ciphertext s h = rw h refl

  -- A framer that has decrypted these messages and not read them yet.
  abbrev holding : ℤ → S → List Msg → LengthPrefixedFramer S
  holding limit r msgs = record {
    cipher = r;
    parser = new_parser limit;
    decrypted_buffer = encode_all msgs [];
  }

  loop_answer :
      (f : LengthPrefixedFramer S) (network : List ℕ) (fuel : ℕ) (x : Read c)
      → round c f network ≡ answer x
      → try_read_loop c (suc fuel) f network ≡ some x
  unfolding try_read_loop
  loop_answer f network fuel x h = rw (h, try_read_loop) refl

  loop_again :
      (f g : LengthPrefixedFramer S) (network rest : List ℕ) (fuel : ℕ)
      → round c f network ≡ again g rest
      → try_read_loop c (suc fuel) f network ≡ try_read_loop c fuel g rest
  unfolding try_read_loop
  loop_again f g network rest fuel h = rw (h, try_read_loop) refl

  -- What is decrypted already is read without a look at the network.
  round_buffered :
      (limit : ℤ) (r : S) (m : Msg) (msgs : List Msg) (network : List ℕ)
      → Allowed limit m
      → round c (holding limit r (m ∷ msgs)) network
        ≡ answer (ok (some (on_wire m)), holding limit r msgs, network)
  unfolding round after_parser
  round_buffered limit r m msgs network allowed = rw (decode_only limit m msgs allowed, round) refl

  buffered-All :
      (limit : ℤ) (r : S) (msgs : List Msg) (network : List ℕ)
      → All (Allowed limit) msgs
      → read_many (try_read_msg c) (length msgs) (holding limit r msgs) network
        ≡ some (map on_wire msgs, holding limit r [], network)
  unfolding try_read_msg
  buffered-All limit r [] network h = refl
  buffered-All limit r (m ∷ msgs) network (allowed, h) =
      rw
        (
          loop_answer _ network (length network) _ (round_buffered limit r m msgs network allowed),
          buffered-All limit r msgs network h,
        )
        refl

  next_frame_whole :
      (f : LengthPrefixedFramer S) (ciphertext rest : List ℕ)
      → length ciphertext < 2 ^ 16
      → next_frame c f (be_bytes 2 (length ciphertext) ++ (ciphertext ++ rest))
        ≡ decrypted c f (c.decrypt f.cipher ciphertext) rest
  unfolding next_frame
  next_frame_whole f ciphertext rest small =
      let n = length ciphertext in
      let prefix = be_bytes 2 n in
      let behind = ciphertext ++ rest in
      let total : length (prefix ++ behind) ≡ 2 + (n + length rest) =
        omega (
          arith,
          length-append prefix behind,
          length-append ciphertext rest,
          length-be_bytes 2 n,
        ) in
      rw
        (
          le→ltb (length (prefix ++ behind)) 2 (omega (arith, total)),
          take-append 2 prefix behind (length-be_bytes 2 n),
          drop-append 2 prefix behind (length-be_bytes 2 n),
          be_value-be_bytes 2 n small,
          le→ltb (length (prefix ++ behind)) (2 + n) (omega (arith, total)),
          take-append n ciphertext rest refl,
          drop-append n ciphertext rest refl,
        )
        refl

  next_frame_cut :
      (g : LengthPrefixedFramer S) (n : ℕ) (ciphertext rest : List ℕ)
      → n < 2 ^ 16
      → n ≤ length ciphertext
      → next_frame c g ((be_bytes 2 n ++ ciphertext) ++ rest)
        ≡ decrypted c g (c.decrypt g.cipher (take n ciphertext)) (drop n ciphertext ++ rest)
  next_frame_cut g n ciphertext rest small fits =
      let part = take n ciphertext in
      let long : length part ≡ n = omega (arith, length-take n ciphertext) in
      let network : be_bytes 2 (length part) ++ (part ++ (drop n ciphertext ++ rest))
          ≡ (be_bytes 2 n ++ ciphertext) ++ rest =
        ap (λ (k : ℕ). be_bytes 2 k ++ (part ++ (drop n ciphertext ++ rest))) long
        ∙ ap (λ (r : List ℕ). be_bytes 2 n ++ r)
            (sym (append_assoc part (drop n ciphertext) rest)
              ∙ ap (λ (r : List ℕ). r ++ rest) (take-append-drop n ciphertext))
        ∙ sym (append_assoc (be_bytes 2 n) ciphertext rest) in
      ap (next_frame c g) (sym network)
      ∙ next_frame_whole g part (drop n ciphertext ++ rest) (omega (arith, long))

  -- A ciphertext of 64 KiB or more is written whole behind a length prefix that has wrapped around:
  -- it holds the ciphertext's length modulo 2^16, which is less. So whatever framer reads that next,
  -- with whatever behind it, gives its cipher only that many bytes, and looks for the next frame
  -- within the ciphertext.
  pub long_ciphertext_cut :
      (f g : LengthPrefixedFramer S) (msgs : List Msg) (ciphertext rest : List ℕ) (s : S)
      → c.encrypt f.cipher (encode_all msgs []) ≡ (ok ciphertext, s)
      → 2 ^ 16 ≤ length ciphertext
      → let n = length ciphertext % 2 ^ 16 in
        (wire : List ℕ) × ((write_msg_multipart c f msgs).0 ≡ ok wire)
        × (drop 2 wire ≡ ciphertext)
        × (be_value (take 2 wire) ≡ n)
        × (n < length ciphertext)
        × (next_frame c g (wire ++ rest)
            ≡ decrypted c g (c.decrypt g.cipher (take n ciphertext)) (drop n ciphertext ++ rest))
  long_ciphertext_cut f g msgs ciphertext rest s h long =
      let n = length ciphertext % 2 ^ 16 in
      (
        be_bytes 2 n ++ ciphertext,
        ap (λ r. r.0) (sealed_wire f msgs ciphertext s h),
        drop-append 2 (be_bytes 2 n) ciphertext (length-be_bytes 2 n),
        rw (take-append 2 (be_bytes 2 n) ciphertext (length-be_bytes 2 n))
            (be_value-be_bytes 2 n (omega arith)),
        omega arith,
        next_frame_cut g n ciphertext rest (omega arith) (omega arith),
      )

  -- With nothing decrypted, a whole frame on the network is decrypted first.
  round_sealed :
      (limit : ℤ) (r t : S) (msgs : List Msg) (ciphertext rest : List ℕ)
      → length ciphertext < 2 ^ 16
      → c.decrypt r ciphertext ≡ (ok (encode_all msgs []), t)
      → round c (new_framer c r limit) (be_bytes 2 (length ciphertext) ++ (ciphertext ++ rest))
        ≡ again (holding limit t msgs) rest
  unfolding round after_parser decrypted
  round_sealed limit r t msgs ciphertext rest small h =
      rw (empty_buffer limit, round)
        (next_frame_whole (new_framer c r limit) ciphertext rest small ∙ rw (h, decrypted) refl)

  first_read :
      (limit : ℤ) (r t : S) (m : Msg) (msgs : List Msg) (ciphertext rest : List ℕ)
      → Allowed limit m
      → length ciphertext < 2 ^ 16
      → c.decrypt r ciphertext ≡ (ok (encode_all (m ∷ msgs) []), t)
      → try_read_msg c
          (new_framer c r limit)
          (be_bytes 2 (length ciphertext) ++ (ciphertext ++ rest))
        ≡ some (ok (some (on_wire m)), holding limit t msgs, rest)
  unfolding try_read_msg
  first_read limit r t m msgs ciphertext rest allowed small h =
      let wire = be_bytes 2 (length ciphertext) ++ (ciphertext ++ rest) in
      let behind = length (ciphertext ++ rest) in
      let some_bytes : length wire ≡ suc (suc behind) = omega (
        arith,
        length-append (be_bytes 2 (length ciphertext)) (ciphertext ++ rest),
        length-be_bytes 2 (length ciphertext),
      ) in
      loop_again _ _ wire rest (length wire)
        (round_sealed limit r t (m ∷ msgs) ciphertext rest small h)
      ∙ rw some_bytes
          (loop_answer _ rest (suc behind) _ (round_buffered limit t m msgs rest allowed))

  -- The messages of one write of the encrypting framer, at least one, are read back, in their
  -- order, with their flags and bytes, by a new framer, if its cipher decrypts what the
  -- writer's encrypted, the ciphertext is shorter than 64 KiB and every message has fewer than
  -- 2^64 bytes and is within the reader's limit; what follows on the network stays there.
  pub write_msg_multipart-try_read_msg :
      (f : LengthPrefixedFramer S) (limit : ℤ) (r s t : S) (m : Msg) (msgs : List Msg)
      (ciphertext wire rest : List ℕ)
      → c.encrypt f.cipher (encode_all (m ∷ msgs) []) ≡ (ok ciphertext, s)
      → c.decrypt r ciphertext ≡ (ok (encode_all (m ∷ msgs) []), t)
      → length ciphertext < 2 ^ 16
      → All (Allowed limit) (m ∷ msgs)
      → (write_msg_multipart c f (m ∷ msgs)).0 ≡ ok wire
      → read_many (try_read_msg c) (length (m ∷ msgs)) (new_framer c r limit) (wire ++ rest)
        ≡ some (map on_wire (m ∷ msgs), new_framer c t limit, rest)
  unfolding encode_all
  write_msg_multipart-try_read_msg f limit r s t m msgs ciphertext wire rest sealing opening small
        (allowed, h) written =
      let n = length ciphertext in
      let short : n % 2 ^ 16 ≡ n = omega arith in
      let whole : ok wire ≡ Result.ok (be_bytes 2 n ++ ciphertext) =
        sym written
        ∙ ap (λ w. w.0) (sealed_wire f (m ∷ msgs) ciphertext s sealing)
        ∙ ap (λ k. Result.ok (be_bytes 2 k ++ ciphertext)) short in
      let e : wire ≡ be_bytes 2 n ++ ciphertext = cc in
      rw
        (
          e,
          append_assoc,
          first_read limit r t m msgs ciphertext rest allowed small opening,
          buffered-All limit t msgs rest h,
        )
        refl
