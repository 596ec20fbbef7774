-- ===== src/Patterns/Router/Wire.antt =====
-- What the strategies of core/src/socket/patterns/router.rs put on the wire.
use rzmq.Base.{◌≡◌, refl, false, List, [], ◌∷◌, arith}
use rzmq.Message.{Msg}
use rzmq.Patterns.Framing.{
  FramingLatch, new_latch, encode, is_manual, with_more, delimiter, router_auto_encode,
  router_auto_decode, dealer_auto_encode, dealer_auto_decode,
}
use rzmq.Patterns.Framing.Delimiter.{WellFramed}
use rzmq.Patterns.Router.{
  RouterSendStrategy, req_peer, dealer_peer, router_peer, default_router, prepare_wire_frames,
}

-- The latch of a ROUTER socket.
abbrev pub router_latch : FramingLatch
router_latch = new_latch router_auto_encode router_auto_decode

-- A payload that is a whole message, sent through a ROUTER in automatic framing, is a whole message
-- on the wire for every kind of peer.
pub prepare_wire_frames-WellFramed :
    (s : RouterSendStrategy) (identity : Msg) (payload : List Msg)
    → WellFramed payload
    → WellFramed (prepare_wire_frames s identity payload router_latch)
unfolding prepare_wire_frames encode router_auto_encode is_manual
prepare_wire_frames-WellFramed req_peer identity [] h = elim h [ ]
prepare_wire_frames-WellFramed dealer_peer identity [] h = elim h [ ]
prepare_wire_frames-WellFramed router_peer identity [] h = elim h [ ]
prepare_wire_frames-WellFramed default_router identity [] h = elim h [ ]
prepare_wire_frames-WellFramed req_peer identity (m ∷ rest) h = (refl, h)
prepare_wire_frames-WellFramed dealer_peer identity (m ∷ rest) h = (ground arith, (refl, h))
prepare_wire_frames-WellFramed router_peer identity (m ∷ rest) h = h
prepare_wire_frames-WellFramed default_router identity (m ∷ rest) h = (ground arith, (refl, h))

-- For a payload that is not empty, in automatic framing: the frames for a REQ peer are those
-- that a DEALER socket would send, whose decoder gives the payload back; those for a DEALER peer
-- and for an unknown one are the payload behind the identity and a delimiter, which the ROUTER's
-- own decoder takes out again.
pub prepare_wire_frames_peers :
    (identity first : Msg) (rest : List Msg)
    → let payload = first ∷ rest in
      let framed = with_more identity ∷ delimiter false ∷ payload in
      (prepare_wire_frames req_peer identity payload router_latch ≡ dealer_auto_encode payload)
      × (dealer_auto_decode (prepare_wire_frames req_peer identity payload router_latch) ≡ payload)
      × (prepare_wire_frames dealer_peer identity payload router_latch ≡ framed)
      × (prepare_wire_frames default_router identity payload router_latch ≡ framed)
      × (router_auto_decode framed ≡ with_more identity ∷ payload)
unfolding prepare_wire_frames encode router_auto_encode router_auto_decode dealer_auto_encode
    dealer_auto_decode is_manual
prepare_wire_frames_peers identity first rest = (refl, refl, ground arith, ground arith, refl)
