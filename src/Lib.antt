-- ===== src/Lib.antt =====
-- boltnd: bolt 12 offers and onion messages beside lnd.
--
-- The program sends and receives onion messages through lnd's custom messages and reads bolt 12 offers.
-- onionmsg has the messenger: clients register handlers for final hop payloads, an event loop takes
-- lnd's messages, peels the onion and hands its payloads to the handlers or forwards the rest, and
-- SendMessage finds a path, has routes build a blinded route, and sends. routes builds the route out of
-- the payloads that lnwire encodes. offers reads an offer string, and lnwire computes the merkle root
-- that signs a bolt 12 message. rpcserver offers all this to clients, and the daemon starts it.
--
-- The files:
--   Prelude          Go's errors as values (Errors), code with effects (Exec), bytes, lists, tests.
--   Lnwire.Tlv       lnd's tlv package and wire elements: a record of functions, and laws of them.
--   Lnwire.Merkle    lnwire/bolt12_merkle.go: MerkleRoot is merkle_root, CalculateRoot calculate_root,
--                    CreateTLVLeaves create_tlv_leaves, orderNodes order_nodes. A tagged hash, the order
--                    of tlv.SortRecords and the writer of varints are arguments.
--   Lnwire.ReplyPath lnwire/onion_msg_payload.go: ReplyPath and BlindedHop with encoders and decoders.
--   Lnwire.Payload   lnwire/onion_msg_payload.go, route_blinding.go, onion_message.go: the payload for a
--                    hop, the encrypted data for a hop, the wire message.
--   Lnwire.Bolt12    lnwire/bolt12_shared.go, tu64.go, bolt12_signature.go: decodeMerkleRoot is
--                    decode_merkle_root, tu64Record tu64_record, validateSignature validate_signature;
--                    what else the messages use is the record Bolt12, with laws in Bolt12.Values.
--   Lnwire.Offer     lnwire/bolt12_offer.go: records is offer_records, Validate validate_offer,
--                    EncodeOffer encode_offer, DecodeOffer decode_offer.
--   Lnwire.InvoiceRequest   lnwire/bolt12_invoice_request.go: NewInvoiceRequest is new_invoice_request.
--   Lnwire.Invoice   lnwire/bolt12_invoice.go, as for offers.
--   Lnwire.Sample    concrete functions in the place of Lnwire.Tlv and of Lnwire.Bolt12 for the runs.
--   Offers           offers/bech32.go and offers/encoding.go: stripOffer is strip_offer, decodeBech32
--                    decode_bech32, DecodeOfferStr decode_offer_str.
--   Routes           routes/blinded.go: CreateBlindedRoute is create_blinded_route; the packages sphinx
--                    and btcec are the record Sphinx. Routes.Relay has the choice of a relaying peer.
--   Onionmsg         onionmsg/messenger.go and onionmsg/onion.go: Handlers (registerHandler,
--                    handleOnionMessage), Messenger (Start, Stop, handleRegistration,
--                    manageOnionMessages), Request and Send (SendMessage, forwardMessage, processOnion,
--                    lookupAndConnect); lnd and the onion router are the record Node. Relayed has the kit that
--                    manageOnionMessages makes, EndToEnd a message from one node to another.
--   Onionmsg.Threads the goroutines of a messenger that has started, as a relation of steps: the event
--                    loop, the calls of RegisterHandler and DeregisterHandler, and Stop.
--   Onionmsg.NodeEcdh       onionmsg/node_ecdh.go: NewNodeECDH is new_node_ecdh, ECDH ecdh.
--   Rpcserver        rpcserver: the parsers and composers of requests and answers (Rpcserver), the calls
--                    (Calls, Life), Start with the node's key and the messenger (Startup), the steps of a
--                    subscription (Subscription, Subscribe), and those of a subscription together with the
--                    event loop (Subscription.Joint). The messenger, the route generator and
--                    btcec.ParsePubKey are arguments.
--   Daemon           boltnd.go and config.go: Start is start_daemon, Stop stop_daemon, NewBoltnd new_boltnd,
--                    the options option_lnd_config and so on (Config).
--
-- Bytes are numbers, a public key is its serialization, a nil pointer is none. A Go result is a value of
-- Result: panic is a run-time panic, stuck is no Go value. Code with effects takes and returns a world,
-- beside errors too. uint8 and uint16 counts keep their wrap-around. The loop of CalculateRoot runs on
-- fuel, the number of its branches, which each round lessens by one; no other loop needs fuel. In the
-- functions, a select statement is modelled by what it finds ready: the event loop runs over a list of
-- events, a client's request over a value of Race.
--
-- A bolt 12 message is decoded in two steps: the stream gives the bytes of each type, in its order, and
-- these are read in the order of the source, so that of two errors in one message the one that is
-- reported can differ. The reply path of a payload is read in place: its decoder gets the reader of the
-- stream. A time is its whole seconds as a uint64, a feature vector its set bits in order.
--
-- Where goroutines meet, the model is a relation of steps, any of which the scheduler can choose. In
-- Onionmsg.Threads every case of a select is a step, guarded by what makes it ready: a request is handed over
-- when the loop is at its select, the error channel has room for the one answer, `quit` is closed once. Calls
-- are numbered, and any number of them can be under way. The loop is between the request and its answer, or in
-- a message, for as long as the scheduler likes. In Subscription the channel between handler and loop holds one
-- message; Subscription.Joint adds the event loop that runs the handler, and the end of the client's context,
-- which grpc brings about when the call returns. There the loop answers a request to deregister at once, and can
-- end on an error of lnd; Send can wait for as long as the client lives, and answers what it likes, each time. In
-- Onionmsg.Threads the goroutine of the event loop requests a shutdown before it is done, and waits until the
-- closure for that has returned; when it can return is an argument, a predicate of the state.
--
-- Not modelled: logging; the registration with grpc, the table of permissions and the interfaces; generated
-- code and tests. Memory accesses of several goroutines to one variable are not: the map of handlers is the
-- event loop's alone, and the flags are atomic.
pub mod Prelude
pub mod Lnwire
pub mod Offers
pub mod Routes
pub mod Onionmsg
pub mod Rpcserver
pub mod Daemon
