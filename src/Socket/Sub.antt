-- ===== src/Socket/Sub.antt =====
-- core/src/socket/sub_socket.rs: the SUB socket, an orchestrator behind a filter of topics. Peers are
-- told of subscriptions; what their connections answer is an argument.
pub mod Filter
use rzmq.Base.{
  ℕ, Bool, true, false, not, Option, none, some, List, [], ◌∷◌, ◌++◌, if◌then◌else◌, ◌==◌, nat_eq,
}
use rzmq.Base.Maps.{lookup, insert, remove}
use rzmq.Error.{invalid_state, unsupported_option, Result, ok, err}
use rzmq.Message.{Msg, from_bytes, data_or_empty}
use rzmq.Patterns.LoadBalancer.{Uri, contains}
use rzmq.Patterns.Trie.{TrieNode, subscribe, unsubscribe, matches, get_all_topics}
use rzmq.Patterns.Orchestrator.{
  Orchestrator, accumulate_pipe_frame, Pushed, queue_item, recv_message, recv_logical_message,
  clear_pipe_state,
}
use rzmq.Socket.Pull.{q_item_frames}
use rzmq.Socket.Options.{option_id, opt_subscribe, opt_unsubscribe}

pub record SubSocket : Type 0 where
  pub subscriptions : TrieNode
  pub incoming_orchestrator : Orchestrator
  pub pipe_read_to_endpoint_uri : List (ℕ × Uri)

abbrev pub construct_subscription_message : Bool → List ℕ → Msg
construct_subscription_message is_subscribe topic =
    from_bytes ((if is_subscribe then 1 else 0) ∷ topic)

-- What is sent to which peer.
abbrev pub Command : Type 0
Command = Uri × Msg

-- One command to each of the peers whose connection the core has.
unfoldable pub send_to_uris : List Uri → Msg → List (ℕ × Uri) → List Command
send_to_uris endpoints msg [] = []
send_to_uris endpoints msg ((p, uri) ∷ pipes) =
    let rest = send_to_uris endpoints msg pipes in
    if contains endpoints uri then (uri, msg) ∷ rest else rest

unfoldable pub send_subscription_command_to_all :
    List Uri → Bool → List ℕ → SubSocket → List Command
send_subscription_command_to_all endpoints is_subscribe topic sock =
    send_to_uris endpoints (construct_subscription_message is_subscribe topic)
      sock.pipe_read_to_endpoint_uri

unfoldable pub set_pattern_option :
    List Uri → ℕ → List ℕ → SubSocket → Result (Unit {0}) × List Command × SubSocket
unfolding option_id
set_pattern_option endpoints option value sock =
    if option == option_id opt_subscribe
    then (
      ok tt,
      send_subscription_command_to_all endpoints true value sock,
      record sock { subscriptions = subscribe value sock.subscriptions },
    )
    else if option == option_id opt_unsubscribe
    then (let (subscriptions, last) = unsubscribe value sock.subscriptions in
        (
          ok tt,
          if last then send_subscription_command_to_all endpoints false value sock else [],
          record sock { subscriptions = subscriptions },
        ))
    else (err (unsupported_option option), [], sock)

pub get_pattern_option : ℕ → Result (List ℕ)
get_pattern_option option = err (unsupported_option option)

unfoldable pub recv : Bool → Result (List Msg) → SubSocket → Result Msg × SubSocket
recv running popped sock =
    if not running
    then (err invalid_state, sock)
    else (let (answer, _, o) = recv_message q_item_frames sock.incoming_orchestrator tt popped in
        (answer, record sock { incoming_orchestrator = o }))

unfoldable pub recv_multipart : Bool → Result (List Msg) → SubSocket → Result (List Msg) × SubSocket
recv_multipart running popped sock =
    if not running
    then (err invalid_state, sock)
    else (let (answer, _, o) =
          recv_logical_message q_item_frames sock.incoming_orchestrator tt popped in
        (answer, record sock { incoming_orchestrator = o }))

pub send : Msg → Result (Unit {0})
send msg = err invalid_state

pub send_multipart : List Msg → Result (Unit {0})
send_multipart frames = err invalid_state

-- The first frame's bytes.
abbrev pub topic_data : List Msg → List ℕ
topic_data [] = []
topic_data (frame ∷ frames) = data_or_empty frame

-- A frame from a pipe, with the message that it hands to the queue, if any.
unfoldable pub handle_pipe_event :
    Pushed → ℕ → Msg → SubSocket → Result (Unit {0}) × Option (List Msg) × SubSocket
handle_pipe_event pushed pipe_read_id msg sock =
    let (whole, o) = accumulate_pipe_frame sock.incoming_orchestrator pipe_read_id msg in
    let sock' = record sock { incoming_orchestrator = o } in
    elim whole [
      | none ↦ (ok tt, none, sock')
      | some frames ↦
          if matches (topic_data frames) sock.subscriptions
          then (queue_item pushed, some frames, sock')
          else (ok tt, none, sock')
    ]

module _ (connection : Uri → Msg → Result (Unit {0})) where
  -- The topics of old are told to a new peer, until a send fails.
  unfoldable pub sync : Uri → List (List ℕ) → List Command
  sync uri [] = []
  sync uri (topic ∷ topics) =
      let sub_msg = construct_subscription_message true topic in
      let rest = sync uri topics in
      elim (connection uri sub_msg) [ ok _ ↦ (uri, sub_msg) ∷ rest | err e ↦ (uri, sub_msg) ∷ [] ]

  unfoldable pub pipe_attached : List Uri → Option Uri → ℕ → SubSocket → List Command × SubSocket
  pipe_attached endpoints none pipe_read_id sock = ([], sock)
  pipe_attached endpoints (some endpoint_uri) pipe_read_id sock = (
    if contains endpoints endpoint_uri
        then sync endpoint_uri (get_all_topics sock.subscriptions)
        else [],
    record sock {
      pipe_read_to_endpoint_uri = insert pipe_read_id endpoint_uri sock.pipe_read_to_endpoint_uri;
    },
  )

unfoldable pub pipe_detached : ℕ → SubSocket → SubSocket
pipe_detached pipe_read_id sock = record sock {
  pipe_read_to_endpoint_uri = remove pipe_read_id sock.pipe_read_to_endpoint_uri;
  incoming_orchestrator = clear_pipe_state sock.incoming_orchestrator pipe_read_id;
}
