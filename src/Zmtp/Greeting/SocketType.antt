-- ===== src/Zmtp/Greeting/SocketType.antt =====
-- The socket-type bytes and names of core/src/protocol/zmtp/greeting.rs.
use rzmq.Base.{
  ℕ, ◌≡◌, ◌↔◌, ◌⊎◌, refl, inl, inr, Bool, true, false, Option, some, if◌then◌else◌, arith,
}
use text.Mathlib.Text.{◌==◌ as str_eq}
use rzmq.Zmtp.Greeting.{socket_type_code, socket_type_name_from_code}
use text.Mathlib.TextEquality.{eq_iff}
use Prim.Native.String.{String}

-- One test of the chain.
pick :
    (b : Bool) (k code : ℕ) (rest : Option ℕ)
    → (if b then some k else rest) ≡ some code
    → ((b ≡ true) × (k ≡ code)) ⊎ (rest ≡ some code)
pick true k code rest h = inl (refl, cc)
pick false k code rest h = inr h

named :
    (name n : String) (k code : ℕ)
    → str_eq name n ≡ true
    → k ≡ code
    → socket_type_name_from_code k ≡ some n
    → socket_type_name_from_code code ≡ some name
named name n k code same e h = let f : name ≡ n = (eq_iff name n).0 same in cc

name-code :
    (name : String) (code : ℕ)
    → socket_type_code name ≡ some code
    → socket_type_name_from_code code ≡ some name
unfolding socket_type_code socket_type_name_from_code
name-code name code h = elim (pick (str_eq name "PAIR") 0 code _ h) [
  | inl (same, e) ↦ named name "PAIR" 0 code same e refl
  | inr h0 ↦ elim (pick (str_eq name "PUB") 1 code _ h0) [
    | inl (same, e) ↦ named name "PUB" 1 code same e refl
    | inr h1 ↦ elim (pick (str_eq name "SUB") 2 code _ h1) [
      | inl (same, e) ↦ named name "SUB" 2 code same e refl
      | inr h2 ↦ elim (pick (str_eq name "REQ") 3 code _ h2) [
        | inl (same, e) ↦ named name "REQ" 3 code same e refl
        | inr h3 ↦ elim (pick (str_eq name "REP") 4 code _ h3) [
          | inl (same, e) ↦ named name "REP" 4 code same e refl
          | inr h4 ↦ elim (pick (str_eq name "DEALER") 5 code _ h4) [
            | inl (same, e) ↦ named name "DEALER" 5 code same e refl
            | inr h5 ↦ elim (pick (str_eq name "ROUTER") 6 code _ h5) [
              | inl (same, e) ↦ named name "ROUTER" 6 code same e refl
              | inr h6 ↦ elim (pick (str_eq name "PULL") 7 code _ h6) [
                | inl (same, e) ↦ named name "PULL" 7 code same e refl
                | inr h7 ↦ elim (pick (str_eq name "PUSH") 8 code _ h7) [
                  | inl (same, e) ↦ named name "PUSH" 8 code same e refl
                  | inr h8 ↦ absurd cc
                ]
              ]
            ]
          ]
        ]
      ]
    ]
  ]
]

-- The bytes of the nine names.
code_table :
    (socket_type_code "PAIR" ≡ some 0)
    × (socket_type_code "PUB" ≡ some 1)
    × (socket_type_code "SUB" ≡ some 2)
    × (socket_type_code "REQ" ≡ some 3)
    × (socket_type_code "REP" ≡ some 4)
    × (socket_type_code "DEALER" ≡ some 5)
    × (socket_type_code "ROUTER" ≡ some 6)
    × (socket_type_code "PULL" ≡ some 7)
    × (socket_type_code "PUSH" ≡ some 8)
unfolding socket_type_code
code_table = (refl, refl, refl, refl, refl, refl, refl, refl, refl)

code-name :
    (name : String) (code : ℕ)
    → socket_type_name_from_code code ≡ some name
    → socket_type_code name ≡ some code
unfolding socket_type_name_from_code
code-name name code h = ground (arith, code_table)

-- A byte is the code of a name exactly if the name is the name of the byte.
pub socket_type_code_iff :
    (name : String) (code : ℕ)
    → (socket_type_code name ≡ some code) ↔ (socket_type_name_from_code code ≡ some name)
socket_type_code_iff name code = (name-code name code, code-name name code)
