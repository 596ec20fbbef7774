-- ===== src/Tests/Socket/Others.antt =====
-- Socket options, and the sockets of pipelines and publications, of core/src/socket.
use rzmq.Base.{
  ℕ, ◌<◌, ◌≡◌, ◌↔◌, refl, Bool, true, false, none, some, List, [], ◌∷◌, ◌++◌, bytes_eq, map, arith,
  nat_eq,
}
use rzmq.Base.Maps.{lookup}
use rzmq.Base.Words.{le_value, signed}
use rzmq.Error.{Result, ok}
use rzmq.Message.{Msg, from_bytes}
use rzmq.Zmtp.Greeting.{ZmtpGreeting}
use rzmq.Security.Plain.{handshaking, new_plain, set_server_expected_credentials}
use rzmq.Security.Negotiate.{
  Mechanism, plain_mechanism, engine_config, known_mechanisms, negotiate_among,
  negotiate_security_mechanism, initialize_plain, mechanism_status, plain_name,
}
use rzmq.Patterns.LoadBalancer.{Uri, get_next_connection_uri, contains}
use rzmq.Patterns.Orchestrator.{new_orchestrator, sent}
use rzmq.Patterns.Orchestrator.Assembly.{Arrival, of_pipe, waiting, frames_of}
use rzmq.Patterns.Trie.{empty_node}
use rzmq.Patterns.Trie.History.{Change, adds, drops, spec_run}
use rzmq.Socket.Frames.{mark_frames}
use rzmq.Socket.Peers.{Core, select_peer, find_live}
use rzmq.Socket.Options.{default_options, option_id, opt_rcvtimeo, opt_plain_server}
use rzmq.Socket.Options.Parse.{
  parse_i32_option, parse_timeout_option, parse_bool_option, limited, is_one,
}
use rzmq.Socket.Options.Apply.{set, apply_option, option_name, apply_core_option_value}
use rzmq.Socket.Options.Retrieve.{CoreState, retrieve_option}
use rzmq.Socket.Options.ReadBack.{reads_back, retrieve-apply}
use rzmq.Socket.Options.PlainOn.{is_plain, set_all, plain_option_protects}
use rzmq.Socket.Push.{
  PushSocket, new_push, send_multipart, send_frames, send_selected, send_multipart_finish,
}
use rzmq.Socket.Pull.Pipeline.{
  deliver, PushCall, all_taken, all_accepted, marked, payloads, push_pull,
}
use rzmq.Socket.Sub.{SubSocket, topic_data, handle_pipe_event}
use rzmq.Socket.Sub.Filter.{change_all, sub_queues_iff}

abbrev b : Uri
b = 2 ∷ []

abbrev hello : Msg
hello = from_bytes (7 ∷ [])

abbrev world : Msg
world = from_bytes (8 ∷ [])

abbrev any_utf8 : List ℕ → Bool
any_utf8 bytes = true

abbrev core_state : CoreState
core_state = record { last_bound_endpoint = none; socket_type = 8 }

-- 1000, lowest byte first.
abbrev thousand : List ℕ
thousand = 232 ∷ 3 ∷ 0 ∷ 0 ∷ []

thousand_accepted : (apply_option any_utf8 opt_rcvtimeo thousand default_options).0 ≡ ok tt
unfolding apply_option set parse_timeout_option parse_i32_option limited signed le_value
thousand_accepted = refl

retrieve-apply_example :
    retrieve_option opt_rcvtimeo core_state
      (apply_option any_utf8 opt_rcvtimeo thousand default_options).1
    ≡ reads_back opt_rcvtimeo thousand
retrieve-apply_example =
    retrieve-apply any_utf8 opt_rcvtimeo thousand default_options core_state
      (omega arith, (omega arith, (omega arith, (omega arith, tt)))) thousand_accepted

abbrev core : Core
core = record { endpoints = b ∷ []; running = true }

abbrev takes : Uri → List Msg → Result (Unit {0})
takes uri frames = ok tt

abbrev pushing : Msg → List Msg → PushCall
pushing frame frames = record {
  before = λ s. s;
  connection = takes;
  sndtimeo = none;
  core = core;
  waits = [];
  endpoints = b ∷ [];
  frame = frame;
  frames = frames;
}

abbrev calls : List PushCall
calls = pushing hello (world ∷ []) ∷ pushing world [] ∷ []

abbrev pusher : PushSocket
pusher = record new_push { load_balancer = b ∷ [] }

abbrev arrivals : List Arrival
arrivals =
    (1, record hello { flags = record { more = true; command = false } })
    ∷ (2, hello)
    ∷ (1, world)
    ∷ (1, world)
    ∷ []

arrived : of_pipe 1 arrivals ≡ frames_of (all_taken b calls pusher)
unfolding mark_frames send_multipart send_frames send_selected send_multipart_finish select_peer
    find_live get_next_connection_uri contains bytes_eq
arrived = refl

push_pull_example :
    let messages = all_accepted b calls pusher in
    let queued = of_pipe 1 (deliver arrivals new_orchestrator).0 in
    (queued ≡ map marked messages)
    × (map payloads queued ≡ map (λ (m : Msg × List Msg). payloads (m.0 ∷ m.1)) messages)
push_pull_example = push_pull b calls pusher arrivals 1 arrived

-- Both messages of the example are accepted.
accepted_example : all_accepted b calls pusher ≡ (hello, world ∷ []) ∷ (world, []) ∷ []
unfolding send_multipart send_frames send_selected send_multipart_finish select_peer find_live
    get_next_connection_uri contains bytes_eq
accepted_example = refl

abbrev subscriber : SubSocket
subscriber = record {
  subscriptions = empty_node;
  incoming_orchestrator = new_orchestrator;
  pipe_read_to_endpoint_uri = [];
}

abbrev changes : List Change
changes = adds (7 ∷ []) ∷ adds (8 ∷ []) ∷ drops (8 ∷ []) ∷ []

sub_queues_iff_example :
    let sock' = change_all [] changes subscriber in
    let frames = waiting sock'.incoming_orchestrator 1 ++ (hello ∷ []) in
    ((handle_pipe_event sent 1 hello sock').1 ≡ some frames)
    ↔ ((t : List ℕ) × (r : List ℕ) × (topic_data frames ≡ t ++ r) × (0 < spec_run 0 t changes))
sub_queues_iff_example = sub_queues_iff [] changes sent 1 hello subscriber refl (omega arith) refl

-- 1, lowest byte first.
abbrev one : List ℕ
one = 1 ∷ 0 ∷ 0 ∷ 0 ∷ []

plain_server_named : is_plain opt_plain_server ≡ true
unfolding is_plain
plain_server_named = refl

abbrev plain_greeting : ZmtpGreeting
plain_greeting = record { version = (3, 0); mechanism = plain_name; as_server = false }

abbrev plain_server : Mechanism
plain_server = plain_mechanism (set_server_expected_credentials (new_plain true) none none)

plain_server_first :
    (apply_option any_utf8 opt_plain_server one (set_all any_utf8 [] default_options)).0 ≡ ok tt
unfolding set_all apply_option set parse_bool_option parse_i32_option signed le_value
plain_server_first = refl

plain_negotiated :
    negotiate_security_mechanism true
      (engine_config
        (set_all any_utf8
          ([] ++ ((option_id opt_plain_server, one) ∷ []))
          default_options).plain_options)
      plain_greeting
    ≡ ok plain_server
unfolding negotiate_security_mechanism negotiate_among known_mechanisms engine_config
    initialize_plain bytes_eq set_all apply_core_option_value option_name option_id lookup
    apply_option set parse_bool_option parse_i32_option is_one signed le_value
plain_negotiated = refl

plain_option_protects_example : mechanism_status plain_server ≡ handshaking
plain_option_protects_example =
    plain_option_protects any_utf8 [] [] opt_plain_server one default_options true plain_greeting
      plain_server plain_server_named plain_server_first plain_negotiated
