-- ===== src/Zmtp/Greeting/V3.antt =====
-- The 64-byte greeting of core/src/protocol/zmtp/greeting.rs.
use rzmq.Base.{
  ℕ, zero, suc, ◌+◌, ◌≤◌, ◌<◌, ◌≡◌, refl, sym, ap, ◌∙◌, Bool, true, false, some, List, [], ◌∷◌,
  ◌++◌, ltb, le→ltb, Bool-cases, inl, inr, length, length-append, append_assoc, take, drop,
  take-append, drop-append, get_or, get_or-append_right, get_or-replicate, take-append-drop,
  replicate, All, All-get_or, get_or-drop, arith,
}
use rzmq.Error.{ok}
use rzmq.Zmtp.Greeting.{
  ZmtpGreeting, encode, decode, parse_greeting, padding_is_zero, parse_as_server, as_server_byte,
  padding_offset,
}

padding_is_zero_of :
    (k i : ℕ) (bytes : List ℕ)
    → ((j : ℕ) → get_or bytes (padding_offset + j) 0 ≡ 0)
    → padding_is_zero k i bytes ≡ true
unfolding padding_is_zero
padding_is_zero_of zero i bytes h = refl
padding_is_zero_of (suc k) i bytes h = rw (h i) (padding_is_zero_of k (i + 1) bytes h)

-- The bytes before the padding.
front : List ℕ → Bool → List ℕ
front mechanism as_server =
    0xff
    ∷ 0
    ∷ 0
    ∷ 0
    ∷ 0
    ∷ 0
    ∷ 0
    ∷ 0
    ∷ 0
    ∷ 0x7f
    ∷ 3
    ∷ 0
    ∷ (mechanism ++ (as_server_byte as_server ∷ []))

encode-front :
    (mechanism : List ℕ) (as_server : Bool)
    → length mechanism ≡ 20
    → encode mechanism as_server [] ≡ front mechanism as_server ++ replicate 31 0
unfolding encode front
encode-front mechanism as_server h =
    rw (length-append mechanism (as_server_byte as_server ∷ []), h) refl

length-front :
    (mechanism : List ℕ) (as_server : Bool)
    → length mechanism ≡ 20
    → length (front mechanism as_server) ≡ 33
unfolding front
length-front mechanism as_server h =
    omega (arith, length-append mechanism (as_server_byte as_server ∷ []))

parse_as_server-as_server_byte : (b : Bool) → parse_as_server (as_server_byte b) ≡ some b
unfolding parse_as_server
parse_as_server-as_server_byte true = refl
parse_as_server-as_server_byte false = refl

module _ (mechanism : List ℕ) (as_server : Bool) (h : length mechanism ≡ 20) where
  padding : List ℕ
  padding = as_server_byte as_server ∷ replicate 31 0

  front_as_server :
      get_or (front mechanism as_server ++ replicate 31 0) 32 0 ≡ as_server_byte as_server
  unfolding front
  front_as_server =
      rw (append_assoc mechanism (as_server_byte as_server ∷ []) (replicate 31 0))
        (unfold padding in get_or-append_right 20 mechanism padding 0 0 h)

  front_mechanism : take 20 (drop 12 (front mechanism as_server ++ replicate 31 0)) ≡ mechanism
  unfolding front
  front_mechanism =
      rw (append_assoc mechanism (as_server_byte as_server ∷ []) (replicate 31 0))
        (take-append 20 mechanism _ h)

  front_padding : padding_is_zero 31 0 (front mechanism as_server ++ replicate 31 0) ≡ true
  front_padding = padding_is_zero_of 31 0 (front mechanism as_server ++ replicate 31 0) λ j.
      get_or-append_right 33 (front mechanism as_server) (replicate 31 0) j 0
        (length-front mechanism as_server h)
      ∙ get_or-replicate 31 j 0

  parse_greeting-front :
      parse_greeting (front mechanism as_server ++ replicate 31 0)
      ≡ ok (some (record { version = (3, 0); mechanism = mechanism; as_server = as_server }))
  unfolding parse_greeting
  parse_greeting-front =
      rw (front_padding, front_as_server, parse_as_server-as_server_byte as_server, front_mechanism)
        (unfold front in refl)

  length-encode : length (front mechanism as_server ++ replicate 31 0) ≡ 64
  length-encode = omega (
    arith,
    length-append (front mechanism as_server) (replicate 31 0),
    length-front mechanism as_server h,
  )

  -- With a mechanism field of 20 bytes, the 64 bytes of a greeting, followed by anything, are
  -- read back as that greeting, and what follows stays in the buffer.
  pub decode-encode_greeting :
      (rest : List ℕ)
      → decode (encode mechanism as_server [] ++ rest) ≡ (
        ok (some (record { version = (3, 0); mechanism = mechanism; as_server = as_server })),
        rest,
      )
  unfolding decode
  decode-encode_greeting rest =
      let bytes = front mechanism as_server ++ replicate 31 0 in
      rw (
        encode-front mechanism as_server h,
        le→ltb (length (bytes ++ rest)) 64 (omega (arith, length-append bytes rest, length-encode)),
        take-append 64 bytes rest length-encode,
        drop-append 64 bytes rest length-encode,
        parse_greeting-front,
      )

padding_is_zero_all :
    (k i : ℕ) (bytes : List ℕ)
    → padding_is_zero k i bytes ≡ true
    → (j : ℕ) → i ≤ j
    → j < i + k
    → get_or bytes (padding_offset + j) 0 ≡ 0
unfolding padding_is_zero
padding_is_zero_all zero i bytes h j lo hi = absurd (omega arith)
padding_is_zero_all (suc k) i bytes h j lo hi =
    ground (arith, padding_is_zero_all k (i + 1) bytes (ground arith) j)

padding-All :
    (bytes : List ℕ)
    → padding_is_zero 31 0 bytes ≡ true
    → All (λ b. b ≡ 0) (take 31 (drop 33 bytes))
padding-All bytes h = All-get_or 31 (drop 33 bytes) λ j lt.
    get_or-drop 33 bytes j 0 ∙ padding_is_zero_all 31 0 bytes h j (omega arith) (omega arith)

-- What `parse_greeting` accepts.
abbrev pub Accepted : List ℕ → ZmtpGreeting → Type 0
Accepted bytes g =
    (get_or bytes 0 0 ≡ 0xff)
    × (g.version ≡ (3, get_or bytes 11 0))
    × (get_or bytes 10 0 ≡ 3)
    × (g.mechanism ≡ take 20 (drop 12 bytes))
    × (get_or bytes 32 0 ≡ as_server_byte g.as_server)
    × All (λ b. b ≡ 0) (take 31 (drop 33 bytes))

parse_greeting-Accepted :
    (bytes : List ℕ) (g : ZmtpGreeting) → parse_greeting bytes ≡ ok (some g) → Accepted bytes g
unfolding parse_greeting parse_as_server
parse_greeting-Accepted bytes g h = (
  ground arith,
  ground arith,
  ground arith,
  ground arith,
  ground arith,
  padding-All bytes (ground arith),
)

-- A greeting is accepted only from 64 bytes that start with 0xff, name major version 3, have a role
-- byte of 0 or 1 and zeros in all 31 padding bytes; version, mechanism and role are those bytes; and
-- exactly these 64 bytes are taken.
pub decode-Accepted :
    (buffer rest : List ℕ) (g : ZmtpGreeting)
    → decode buffer ≡ (ok (some g), rest)
    → Accepted (take 64 buffer) g × (take 64 buffer ++ rest ≡ buffer) × (64 ≤ length buffer)
unfolding decode
decode-Accepted buffer rest g h = elim (Bool-cases (ltb (length buffer) 64)) [
  | inl short ↦ cc (rw short at h)
  | inr enough ↦
      let e = rw enough at h in
      (
        parse_greeting-Accepted (take 64 buffer) g (ap (λ t. t.0) e),
        ap (λ t. take 64 buffer ++ t.1) (sym e) ∙ take-append-drop 64 buffer,
        ground arith,
      )
]
