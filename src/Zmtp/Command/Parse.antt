-- ===== src/Zmtp/Command/Parse.antt =====
-- Commands of core/src/protocol/zmtp/command.rs that the library creates.
use rzmq.Base.{
  ℕ, ◌%◌, ◌^◌, ◌≡◌, Bool, some, List, [], length-append, length-be_bytes, be_bytes, drop-append,
  All, arith,
}
use rzmq.Zmtp.Command.{
  Properties, ping, pong, ready, create_msg, create_ping, create_pong, parse_body, parse,
  ready_name,
}
use rzmq.Zmtp.Command.Properties.{
  Distinct, Fits, encode_properties-encoded, parse_properties-encode_properties,
}

module _ (utf8 : List ℕ → Bool) where
  -- A PING is parsed as a PING with its context, whatever its TTL, and a PONG as a PONG with its
  -- context.
  pub parse-create_ping :
      (ttl : ℕ) (context : List ℕ)
      → (parse utf8 (create_ping ttl context) ≡ some (ping context))
        × (parse utf8 (create_pong context) ≡ some (pong context))
  unfolding parse parse_body create_ping create_pong
  parse-create_ping ttl context =
      let ttl_bytes = be_bytes 2 (ttl % 2 ^ 16) in
      (
        ground (
          arith,
          length-append ttl_bytes context,
          length-be_bytes 2 (ttl % 2 ^ 16),
          drop-append 2 ttl_bytes context,
        ),
        ground arith,
      )

  -- A READY command is parsed as READY with the properties that it was made of, if their names
  -- are distinct, UTF-8 and shorter than 256 bytes and their values shorter than 4 GiB.
  pub parse-create_msg :
      (props : Properties)
      → Distinct props
      → All (Fits utf8) props
      → parse utf8 (create_msg props) ≡ some (ready (record { properties = props }))
  unfolding parse parse_body create_msg
  parse-create_msg props distinct fits = rw (encode_properties-encoded props ready_name) (
      ground (
        arith,
        encode_properties-encoded props [],
        parse_properties-encode_properties utf8 props distinct fits,
      ))
