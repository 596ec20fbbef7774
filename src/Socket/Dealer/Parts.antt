-- ===== src/Socket/Dealer/Parts.antt =====
-- Messages sent part by part in core/src/socket/dealer_socket.rs.
use rzmq.Base.{
  ◌+◌, ◌≤◌, ◌≡◌, true, false, List, [], ◌∷◌, ◌++◌, All, length, length-append, append_assoc, arith,
}
use rzmq.Message.{Msg, is_more}
use rzmq.Socket.Dealer.{
  DealerSocket, idle, buffering, transact, whole, collect_part, buffer_part, last_part,
  max_dealer_send_buffer_parts,
}
use rzmq.Socket.Dealer.Send.{
  Sending, Sent, send, send_multipart, send_multipart_from, send_collected, Woken,
}

-- The sends of the parts one after another, and what the last one comes to.
abbrev pub send_parts : Sending → List Msg → Msg → DealerSocket → Sent
send_parts s [] last sock = send s last sock
send_parts s (part ∷ parts) last sock = send_parts s parts last (send s part sock).2

abbrev pub IsPart : Msg → Type 0
IsPart m = is_more m ≡ true

buffering_parts :
    (s : Sending) (acc parts : List Msg) (last : Msg) (sock : DealerSocket)
    → s.running ≡ true
    → All IsPart parts
    → is_more last ≡ false
    → length acc + length parts ≤ max_dealer_send_buffer_parts
    → send_parts s parts last (transact (buffering acc) sock)
      ≡ send_collected s (whole (acc ++ (parts ++ (last ∷ [])))) (transact idle sock)
unfolding send send_collected collect_part buffer_part last_part
buffering_parts s acc [] last sock running more final fits = ground arith
buffering_parts s acc (part ∷ parts) last sock running (more, later) final fits = ground (
  arith,
  buffering_parts s (acc ++ (part ∷ [])) parts last sock running later final,
  append_assoc acc (part ∷ []) (parts ++ (last ∷ [])),
  length-append acc (part ∷ []),
)

-- In a socket that runs and is not in the midst of a message: sending at most 10240 frames with the
-- MORE flag and one without it, one after another, comes to the same as sending them all at once,
-- whatever the core, the connections and other operations do in the end: the same answer, the
-- same frames taken by the same connections, and the same socket behind.
pub send_parts-send_multipart :
    (s : Sending) (ends : List Woken) (parts : List Msg) (last : Msg) (sock : DealerSocket)
    → s.running ≡ true
    → sock.current_send_transaction ≡ idle
    → All IsPart parts
    → is_more last ≡ false
    → length parts ≤ max_dealer_send_buffer_parts
    → send_parts s parts last sock ≡ send_multipart s ends (parts ++ (last ∷ [])) sock
unfolding send send_collected collect_part buffer_part last_part send_multipart send_multipart_from
send_parts-send_multipart s ends [] last sock running fresh more final fits = ground arith
send_parts-send_multipart s ends (part ∷ parts) last sock running fresh (more, later) final fits =
    ground (arith, buffering_parts s (part ∷ []) parts last sock running later final)
