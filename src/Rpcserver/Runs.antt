-- ===== src/Rpcserver/Runs.antt =====
-- Runs of the rpc server's requests and answers.
use boltnd.Prelude.{◌⊎◌, ℕ, suc, ◌≡◌, ◌↔◌, refl, true, false, none, some, [], ◌∷◌, Bytes}
use boltnd.Prelude.Errors.{Result, ok, err, canceled, status}
use boltnd.Prelude.Exec.{Exec}
use boltnd.Lnwire.Tlv.{PubKey}
use boltnd.Lnwire.Sample.{key}
use boltnd.Routes.{BlindedPath}
use boltnd.Onionmsg.Request.{SendMessageRequest}
use boltnd.Rpcserver.{RpcSendRequest, parse_send_request}
use boltnd.Rpcserver.Parsed.{IsParsing, parse_send_request-IsParsing}
use boltnd.Rpcserver.Calls.{
  ready, send_onion_message, IsUnavailable, IsRefused, IsHanded, send_onion_message-IsHanded,
}
use boltnd.Rpcserver.Subscription.{
  Response, Stream, new_stream, Step, Reached, serve, compose_response, IsFaithful,
  Reached-IsFaithful,
}
use boltnd.Onionmsg.NodeEcdh.{Node}
use boltnd.Rpcserver.Life.{new_server}
use boltnd.Rpcserver.Startup.{start_server, IsServing, start_server-IsServing}

abbrev parse : Bytes → Result PubKey
parse k = ok k

abbrev route : BlindedPath
route = record {
  introduction_point = key 1;
  blinding_point = key 2;
  blinded_hops = key 3 ∷ key 4 ∷ [];
  encrypted_data = (7 ∷ []) ∷ (8 ∷ []) ∷ [];
}

abbrev to_path : RpcSendRequest
to_path = record {
  pubkey = [];
  blinded_destination = some (record {
    introduction_node = key 1;
    blinding_point = key 2;
    hops = record { blinded_node_id = key 3; encrypted_data = 7 ∷ [] } ∷ [];
  });
  reply_path = none;
  final_payloads = (101, 1 ∷ 2 ∷ []) ∷ [];
  direct_connect = false;
}

parse_send_request-IsParsing_example : IsParsing (parse_send_request parse to_path)
parse_send_request-IsParsing_example = parse_send_request-IsParsing parse (λ k. tt) to_path

abbrev count_request : SendMessageRequest → Exec ℕ (Unit {0})
count_request req n = (ok tt, suc n)

send_onion_message-IsHanded_example :
    (IsUnavailable parse count_request ready 0
      (send_onion_message parse count_request ready to_path 0))
    ⊎ ((IsRefused parse count_request ready to_path 0
          (send_onion_message parse count_request ready to_path 0))
        ⊎ (IsHanded parse count_request ready to_path 0
            (send_onion_message parse count_request ready to_path 0)))
send_onion_message-IsHanded_example =
    send_onion_message-IsHanded parse count_request ready (λ k. tt) to_path 0

abbrev hello : Response
hello = record { payload = 104 ∷ []; reply_path = none }

abbrev after_hello : Stream
after_hello = record new_stream { incoming = hello ∷ [] }

abbrev sent_hello : Stream
sent_hello = record { incoming = []; sent = compose_response hello ∷ []; end = none }

abbrev cancelled : Stream
cancelled = record sent_hello { end = some (err (status canceled)) }

taken_up : Reached (hello ∷ []) after_hello
taken_up =
    Reached.later [] (hello ∷ []) new_stream after_hello Reached.begun
      (Step.handled hello new_stream refl)

passed_on : Reached (hello ∷ []) sent_hello
unfolding serve
passed_on =
    Reached.later (hello ∷ []) [] after_hello sent_hello taken_up
      (Step.served (ok tt) hello [] after_hello refl refl)

ended : Reached (hello ∷ []) cancelled
ended =
    Reached.later (hello ∷ []) [] sent_hello cancelled passed_on (Step.client_done sent_hello refl)

Reached-IsFaithful_example : IsFaithful (hello ∷ []) cancelled
Reached-IsFaithful_example = Reached-IsFaithful (hello ∷ []) cancelled ended

-- lnd tells a key that parses, and the router starts.
abbrev lnd_node : Node
lnd_node = record {
  get_info = ok (key 5);
  parse_pub_key = parse;
  derive_shared_key = λ k locator. ok k;
  key_family_node_key = 6;
}

start_server-IsServing_example :
    (((start_server lnd_node (ok tt) new_server).0 ≡ ok tt) ↔ (IsServing lnd_node (ok tt)))
    × (((start_server lnd_node (ok tt) new_server).1.is_ready ≡ true)
        ↔ (IsServing lnd_node (ok tt)))
start_server-IsServing_example = start_server-IsServing lnd_node (ok tt)
