-- ===== src/Patterns/Framing/Delimiter.antt =====
-- Delimiters and MORE flags of core/src/socket/patterns/framing.rs.
use rzmq.Base.{◌≡◌, refl, true, false, List, [], ◌∷◌, arith}
use rzmq.Message.{Msg, is_more}
use rzmq.Patterns.Framing.{
  FramingOp, new_latch, encode, decode, set_manual, is_manual, with_more, router_auto_encode,
  router_auto_decode, dealer_auto_encode, dealer_auto_decode,
}

-- The frames of one whole message: MORE on all but the last.
abbrev pub WellFramed : List Msg → Type 0
WellFramed [] = ⊥
WellFramed (last ∷ []) = is_more last ≡ false
WellFramed (m ∷ next ∷ rest) = (is_more m ≡ true) × WellFramed (next ∷ rest)

-- No frames, or those of one whole message.
abbrev pub WellFramedPayload : List Msg → Type 0
WellFramedPayload [] = Unit {0}
WellFramedPayload (m ∷ rest) = WellFramed (m ∷ rest)

-- In front of the frames of a whole message, or of none, a DEALER's delimiter makes a whole message,
-- and it comes off again.
pub dealer_auto_round :
    (frames : List Msg)
    → WellFramedPayload frames
    → WellFramed (dealer_auto_encode frames)
      × (dealer_auto_decode (dealer_auto_encode frames) ≡ frames)
unfolding dealer_auto_encode dealer_auto_decode
dealer_auto_round [] h = (refl, refl)
dealer_auto_round (m ∷ frames) h = ((refl, h), refl)

-- Behind the identity, before the frames of a whole message or of none, a ROUTER's delimiter makes a
-- whole message, and it comes out again; the identity is left with the MORE flag.
pub router_auto_round :
    (identity : Msg) (payload : List Msg)
    → WellFramedPayload payload
    → WellFramed (router_auto_encode (identity ∷ payload))
      × (router_auto_decode (router_auto_encode (identity ∷ payload))
          ≡ with_more identity ∷ payload)
unfolding router_auto_encode router_auto_decode
router_auto_round identity [] h = ((ground arith, refl), refl)
router_auto_round identity (m ∷ payload) h = ((ground arith, (refl, h)), refl)

-- Setting manual mode succeeds exactly once, and from then on framing changes nothing.
pub set_manual_once :
    (auto_encode auto_decode : FramingOp) (frames : List Msg)
    → let latch = new_latch auto_encode auto_decode in
      let manual = (set_manual latch).0 in
      ((set_manual latch).1 ≡ true)
      × (set_manual manual ≡ (manual, false))
      × (is_manual latch ≡ false)
      × (is_manual manual ≡ true)
      × (encode latch frames ≡ auto_encode frames)
      × (decode latch frames ≡ auto_decode frames)
      × (encode manual frames ≡ frames)
      × (decode manual frames ≡ frames)
unfolding set_manual is_manual encode decode
set_manual_once auto_encode auto_decode frames = (refl, refl, refl, refl, refl, refl, refl, refl)
