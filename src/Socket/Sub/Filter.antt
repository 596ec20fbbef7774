-- ===== src/Socket/Sub/Filter.antt =====
-- Which messages core/src/socket/sub_socket.rs lets through.
use rzmq.Base.{
  ℕ, ◌<◌, ◌≡◌, ◌↔◌, refl, ap, ◌∙◌, sym, true, false, some, List, [], ◌∷◌, ◌++◌, length, arith,
}
use rzmq.Message.{Msg, is_more}
use rzmq.Patterns.LoadBalancer.{Uri}
use rzmq.Patterns.Trie.{empty_node, usize_mod, matches}
use rzmq.Patterns.Trie.History.{Change, adds, drops, step, run, spec_run, matches-history}
use rzmq.Patterns.Orchestrator.{Pushed}
use rzmq.Patterns.Orchestrator.Assembly.{waiting, done-accumulate}
use rzmq.Socket.Options.{option_id, opt_subscribe, opt_unsubscribe}
use rzmq.Socket.Sub.{SubSocket, topic_data, set_pattern_option, handle_pipe_event}

-- The option that a change of the subscriptions is set by.
abbrev pub change_option : Change → ℕ × List ℕ
change_option (adds topic) = (option_id opt_subscribe, topic)
change_option (drops topic) = (option_id opt_unsubscribe, topic)

-- The socket after a history of changes, the latest one last.
pub change_all : List Uri → List Change → SubSocket → SubSocket
change_all endpoints [] sock = sock
change_all endpoints (c ∷ changes) sock =
    let (option, topic) = change_option c in
    let (answer, commands, sock') = set_pattern_option endpoints option topic sock in
    change_all endpoints changes sock'

subscriptions-change :
    (endpoints : List Uri) (c : Change) (sock : SubSocket)
    → (set_pattern_option endpoints (change_option c).0 (change_option c).1 sock).2.subscriptions
      ≡ step sock.subscriptions c
unfolding set_pattern_option option_id step
subscriptions-change endpoints (adds topic) sock = refl
subscriptions-change endpoints (drops topic) sock = refl

subscriptions-change_all :
    (endpoints : List Uri) (changes : List Change) (sock : SubSocket)
    → (change_all endpoints changes sock).subscriptions ≡ run sock.subscriptions changes
unfolding change_all run
subscriptions-change_all endpoints [] sock = refl
subscriptions-change_all endpoints (c ∷ changes) sock =
    let (option, topic) = change_option c in
    let sock' = (set_pattern_option endpoints option topic sock).2 in
    subscriptions-change_all endpoints changes sock'
    ∙ ap (λ n. run n changes) (subscriptions-change endpoints c sock)

queues_iff :
    (pushed : Pushed) (p : ℕ) (frame : Msg) (sock : SubSocket)
    → is_more frame ≡ false
    → let frames = waiting sock.incoming_orchestrator p ++ (frame ∷ []) in
      ((handle_pipe_event pushed p frame sock).1 ≡ some frames)
      ↔ (matches (topic_data frames) sock.subscriptions ≡ true)
unfolding handle_pipe_event
queues_iff pushed p frame sock h =
    ground (arith, done-accumulate sock.incoming_orchestrator p frame)

-- A SUB socket whose subscriptions have been set and taken back by options, fewer than 2^64 times,
-- queues the message that a last frame completes exactly if a prefix of the message's first frame
-- has a subscription left.
pub sub_queues_iff :
    (endpoints : List Uri) (changes : List Change) (pushed : Pushed) (p : ℕ) (frame : Msg)
    (sock : SubSocket)
    → sock.subscriptions ≡ empty_node
    → length changes < usize_mod
    → is_more frame ≡ false
    → let sock' = change_all endpoints changes sock in
      let frames = waiting sock'.incoming_orchestrator p ++ (frame ∷ []) in
      ((handle_pipe_event pushed p frame sock').1 ≡ some frames)
      ↔ ((t : List ℕ) × (r : List ℕ) × (topic_data frames ≡ t ++ r) × (0 < spec_run 0 t changes))
sub_queues_iff endpoints changes pushed p frame sock e l h =
    let sock' = change_all endpoints changes sock in
    let frames = waiting sock'.incoming_orchestrator p ++ (frame ∷ []) in
    let queues = queues_iff pushed p frame sock' h in
    let history = matches-history changes (topic_data frames) l in
    let same : sock'.subscriptions ≡ run empty_node changes =
      subscriptions-change_all endpoints changes sock ∙ ap (λ n. run n changes) e in
    (
      λ q. history.0 (sym (ap (matches (topic_data frames)) same) ∙ queues.0 q),
      λ s. queues.1 (ap (matches (topic_data frames)) same ∙ history.1 s),
    )
