-- ===== src/Socket/Publish/Peers.antt =====
-- Which peers core/src/socket/pub_socket.rs keeps.
use rzmq.Base.{
  ◌≡◌, refl, true, false, not, ◌&&◌, ◌||◌, Bool, Option, none, some, List, [], ◌∷◌, bytes_eq,
  bytes_eq_iff, arith,
}
use rzmq.Error.{ZmqError, Result, ok}
use rzmq.Message.{Msg}
use rzmq.Patterns.LoadBalancer.{Uri, contains}
use rzmq.Socket.Frames.{mark_frames}
use rzmq.Socket.Publish.{
  Distributor, remove_peer_uri, send_to_one, send_each, send_to_all_multipart, PubSocket,
  drop_failed, send_multipart,
}

contains-remove_peer_uri :
    (uris : Distributor) (u v : Uri)
    → contains (remove_peer_uri u uris) v ≡ (contains uris v && not (bytes_eq u v))
unfolding contains remove_peer_uri
contains-remove_peer_uri [] u v = refl
contains-remove_peer_uri (x ∷ uris) u v =
    ground (
      arith,
      bytes_eq_iff x u,
      bytes_eq_iff x v,
      bytes_eq_iff u v,
      contains-remove_peer_uri uris u v,
    )

abbrev pub has_failed : List (Uri × ZmqError) → Uri → Bool
has_failed [] v = false
has_failed ((u, e) ∷ failed) v = bytes_eq u v || has_failed failed v

contains-drop_failed :
    (failed : List (Uri × ZmqError)) (uris : Distributor) (v : Uri)
    → contains (drop_failed failed uris) v ≡ (contains uris v && not (has_failed failed v))
unfolding drop_failed
contains-drop_failed [] uris v = ground arith
contains-drop_failed ((u, e) ∷ failed) uris v = ground (
  arith,
  contains-drop_failed failed (remove_peer_uri u uris) v,
  contains-remove_peer_uri uris u v,
)

abbrev pub is_some : Option ZmqError → Bool
is_some none = false
is_some (some e) = true

module _ (connection : Uri → List Msg → Result (Unit {0})) where
  has_failed-send_each :
      (endpoints : List Uri) (frames : List Msg) (uris : Distributor) (v : Uri)
      → has_failed (send_each connection endpoints frames uris) v
        ≡ (contains uris v && is_some (send_to_one connection endpoints frames v))
  unfolding send_each contains
  has_failed-send_each endpoints frames [] v = refl
  has_failed-send_each endpoints frames (u ∷ uris) v =
      ground (arith, bytes_eq_iff u v, has_failed-send_each endpoints frames uris v)

  -- A PUB socket that runs reports no failure to its application. After a message of one or more
  -- frames it has the peers that it had, but for those that the core does not know and those whose
  -- connection failed; a connection that had no room, or no room in time, is kept.
  pub send_multipart_keeps :
      (endpoints : List Uri) (frame : Msg) (frames : List Msg) (sock : PubSocket) (v : Uri)
      → let (answer, sock') = send_multipart connection true endpoints (frame ∷ frames) sock in
        (answer ≡ ok tt)
        × (contains sock'.distributor v ≡ (
            contains sock.distributor v
            && not (is_some (send_to_one connection endpoints (mark_frames (frame ∷ frames)) v))))
  unfolding send_multipart send_to_all_multipart mark_frames
  send_multipart_keeps endpoints frame frames sock v = (
    refl,
    ground (
      arith,
      contains-drop_failed
          (send_each connection endpoints (mark_frames (frame ∷ frames)) sock.distributor)
          sock.distributor v,
      has_failed-send_each endpoints (mark_frames (frame ∷ frames)) sock.distributor v,
    ),
  )
