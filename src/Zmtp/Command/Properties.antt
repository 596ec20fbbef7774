-- ===== src/Zmtp/Command/Properties.antt =====
-- The properties of a READY command, core/src/protocol/zmtp/command.rs.
use rzmq.Base.{
  ℕ, zero, suc, ◌≤◌, ◌<◌, ◌^◌, ◌≡◌, refl, sym, ap, ◌∙◌, inl, inr, Bool, true, Option, none, some,
  List, [], ◌∷◌, ◌++◌, le→ltb, length, length-append, append_assoc, append-nil, take, drop,
  take-append, drop-append, length-drop, be_bytes, be_value, length-be_bytes, be_value-be_bytes,
  bytes_key, All, ◌⊎◌, arith,
}
use rzmq.Base.Maps.{insert, lookup, insert_fresh, lookup-insert}
use rzmq.Error.{protocol_violation, internal, Result, ok, err}
use rzmq.Zmtp.Command.{
  Properties, ZmtpReady, encode_property, encode_properties, parse_loop, parse_properties,
}
use native.Mathlib.Nat.{mod-eq_of_lt}

-- The encoding of a property list, property by property.
abbrev encoded : Properties → List ℕ
encoded [] = []
encoded (p ∷ props) = encode_property p ++ encoded props

pub encode_properties-encoded :
    (props : Properties) (dst : List ℕ) → encode_properties props dst ≡ dst ++ encoded props
unfolding encode_properties
encode_properties-encoded [] dst = sym (append-nil dst)
encode_properties-encoded (p ∷ props) dst =
    encode_properties-encoded props (dst ++ encode_property p)
    ∙ append_assoc dst (encode_property p) (encoded props)

-- A run that ends, with properties or with a protocol violation.
abbrev Ends : Option (Result Properties) → Type 0
Ends none = ⊥
Ends (some (ok props)) = Unit {0}
Ends (some (err e)) = e ≡ protocol_violation

-- Keys as a `HashMap` has them.
abbrev pub Distinct : Properties → Type 0
Distinct [] = Unit {0}
Distinct ((k, v) ∷ m) = (lookup k m ≡ none) × Distinct m

insert_all : Properties → Properties → Properties
insert_all [] acc = acc
insert_all ((k, v) ∷ m) acc = insert_all m (insert k v acc)

abbrev Absent : Properties → Properties → Type 0
Absent acc [] = Unit {0}
Absent acc ((k, v) ∷ m) = (lookup k acc ≡ none) × Absent acc m

Absent-insert :
    (k : List ℕ) (v : List ℕ) (acc m : Properties)
    → lookup k m ≡ none
    → Absent acc m
    → Absent (insert k v acc) m
unfolding lookup
Absent-insert k v acc [] h a = tt
Absent-insert k v acc ((j, w) ∷ m) h a = ground (
  arith,
  lookup-insert k j v acc,
  bytes_key.beq_iff j k,
  bytes_key.beq_iff k j,
  Absent-insert k v acc m,
)

insert_all-append : (m acc : Properties) → Distinct m → Absent acc m → insert_all m acc ≡ acc ++ m
unfolding insert_all
insert_all-append [] acc d a = sym (append-nil acc)
insert_all-append ((k, v) ∷ m) acc d a =
    insert_all-append m (insert k v acc) d.1 (Absent-insert k v acc m d.0 a.1)
    ∙ ap (λ t. t ++ m) (insert_fresh k v acc a.0)
    ∙ append_assoc acc ((k, v) ∷ []) m

module _ (utf8 : List ℕ → Bool) where
  parse_loop-Ends :
      (fuel : ℕ) (body : List ℕ) (props : Properties)
      → length body ≤ fuel
      → Ends (parse_loop utf8 fuel body props)
  unfolding parse_loop
  parse_loop-Ends fuel [] props h = tt
  parse_loop-Ends zero (b ∷ bs) props h = absurd (omega arith)
  parse_loop-Ends (suc fuel) (n ∷ rest) props h =
      let after_len = drop 4 (drop n rest) in
      let len = be_value (take 4 (drop n rest)) in
      ground (
        arith,
        length-drop n rest,
        length-drop 4 (drop n rest),
        length-drop len after_len,
        parse_loop-Ends fuel (drop len after_len) (insert (take n rest) (take len after_len) props),
      )

  -- The parser ends on every body, with properties or with a protocol violation: the internal error
  -- that stands for fuel run out is never returned.
  pub parse_properties_total :
      (body : List ℕ)
      → ((r : ZmtpReady) × (parse_properties utf8 body ≡ ok r))
        ⊎ (parse_properties utf8 body ≡ err protocol_violation)
  unfolding parse_properties
  parse_properties_total body = answer _ (parse_loop-Ends (length body) body [] (omega arith))
    where
      answer :
          (o : Option (Result Properties))
          → Ends o
          → ((r : ZmtpReady) × (◌≡◌ {A = Result ZmtpReady}
                (elim o [
                  | none ↦ err internal
                  | some (err e) ↦ err e
                  | some (ok props) ↦ ok (record { properties = props })
                ])
                (ok r)))
            ⊎ (◌≡◌ {A = Result ZmtpReady}
                (elim o [
                  | none ↦ err internal
                  | some (err e) ↦ err e
                  | some (ok props) ↦ ok (record { properties = props })
                ])
                (err protocol_violation))
      answer none h = absurd h
      answer (some (ok props)) h = inl (_, refl)
      answer (some (err e)) h = inr (ap err h)

  -- A property that the wire format can carry.
  abbrev pub Fits : List ℕ × List ℕ → Type 0
  Fits (name, value) = (length name < 256) × (utf8 name ≡ true) × (length value < 2 ^ 32)

  parse_loop_bytes :
      (fuel : ℕ) (name value rest : List ℕ) (acc : Properties)
      → Fits (name, value)
      → parse_loop utf8
          (suc fuel)
          (length name ∷ (name ++ (be_bytes 4 (length value) ++ (value ++ rest))))
          acc
        ≡ parse_loop utf8 fuel rest (insert name value acc)
  unfolding parse_loop
  parse_loop_bytes fuel name value rest acc (short, text, small) =
      let tail = be_bytes 4 (length value) ++ (value ++ rest) in
      let len = length-be_bytes 4 (length value) in
      rw (
        take-append (length name) name tail refl,
        drop-append (length name) name tail refl,
        take-append 4 (be_bytes 4 (length value)) (value ++ rest) len,
        drop-append 4 (be_bytes 4 (length value)) (value ++ rest) len,
        be_value-be_bytes 4 (length value) small,
        take-append (length value) value rest refl,
        drop-append (length value) value rest refl,
        text,
        le→ltb (length (name ++ tail)) (length name) (omega (arith, length-append name tail)),
        le→ltb (length tail) 4
            (omega (arith, length-append (be_bytes 4 (length value)) (value ++ rest), len)),
        le→ltb (length (value ++ rest)) (length value) (omega (arith, length-append value rest)),
      )

  parse_loop_step :
      (fuel : ℕ) (name value rest : List ℕ) (acc : Properties)
      → Fits (name, value)
      → parse_loop utf8 (suc fuel) (encode_property (name, value) ++ rest) acc
        ≡ parse_loop utf8 fuel rest (insert name value acc)
  unfolding encode_property
  parse_loop_step fuel name value rest acc (short, text, small) =
      rw
        (
          le→ltb 255 (length name) (omega arith),
          mod-eq_of_lt short,
          mod-eq_of_lt small,
          append_assoc name (be_bytes 4 (length value) ++ value) rest,
          append_assoc (be_bytes 4 (length value)) value rest,
        )
        (parse_loop_bytes fuel name value rest acc (short, text, small))

  length-encode_property :
      (name value : List ℕ) → Fits (name, value) → 0 < length (encode_property (name, value))
  unfolding encode_property
  length-encode_property name value h = ground arith

  parse_loop-encoded :
      (props : Properties) (fuel : ℕ) (acc : Properties)
      → All Fits props
      → length (encoded props) ≤ fuel
      → parse_loop utf8 fuel (encoded props) acc ≡ some (ok (insert_all props acc))
  unfolding insert_all
  parse_loop-encoded [] fuel acc h enough = unfold parse_loop in refl
  parse_loop-encoded ((k, v) ∷ props) zero acc h enough = absurd (
      omega (
        arith,
        length-append (encode_property (k, v)) (encoded props),
        length-encode_property k v h.0,
      ))
  parse_loop-encoded ((k, v) ∷ props) (suc fuel) acc h enough =
      parse_loop_step fuel k v (encoded props) acc h.0
      ∙ parse_loop-encoded props fuel (insert k v acc) h.1 (
          omega (
            arith,
            length-append (encode_property (k, v)) (encoded props),
            length-encode_property k v h.0,
          ))

  -- A property map whose names are texts of at most 255 bytes and whose values are shorter than 4 GiB
  -- is read back from its encoding, in any iteration order.
  pub parse_properties-encode_properties :
      (props : Properties)
      → Distinct props
      → All Fits props
      → parse_properties utf8 (encode_properties props []) ≡ ok (record { properties = props })
  unfolding parse_properties
  parse_properties-encode_properties props distinct fits = ground (
    arith,
    encode_properties-encoded props [],
    parse_loop-encoded props (length (encoded props)) [] fits (omega arith),
    insert_all-append props [] distinct (absent props),
  )
    where
      absent : (m : Properties) → Absent [] m
      absent [] = tt
      absent ((k, v) ∷ m) = (unfold lookup in refl, absent m)
