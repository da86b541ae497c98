-- ===== src/Lib.antt =====
-- The server node of the WebRTC speech-to-text system, rtc_server_node/RTCServerNode and
-- rtc_server_node/RTCServerNodeExec: a program that registers with a signaling server over a web
-- socket, answers the peers that the server names, finds speech in their audio, and passes the speech
-- on to a speech server over ZeroMQ.
--
-- The parts, in the order of the audio and of the messages:
--   Program (Config, Main, Ending): RTCServerNodeExec.cc reads or asks for the address (is_valid_ip,
--     is_numeric, read_or_create_listen_config), runs the command loop (main), and ends by it or by
--     signal_handler.
--   Program.Controller: RTCServerNodeController.cc, which passes the calls of the program on to the
--     node, and the states of the node to the program.
--   Node.ServerNode, Node.Peers: RTCServerNode.cc, which keeps a peer for each client.
--     on_node_message is onMessageReceived, start_m is _start_m, and so on.
--   Signaling.Session: RTCSignalingNodeSession.cc, the session with the signaling server; IceServers
--     has the servers of a reply, which Servers describes apart from the code, and Outgoing the
--     objects that are sent.
--     on_session_message is onMessageReceived, received_msg is _received_msg_m.
--   Socket.Client, Socket.Messages, Socket.Lifetime: RTCWebSocketClient.cc, the web socket of the
--     session, the messages of its ring, and its life from the constructor to the destructor.
--   Node.Peer, Node.Audio: RTCPeer.cc, the peer of one client over a voice client, and its PCM
--     callback, with RTCVadInterface.cc (CreateVad).
--   Voice.Legacy, Voice.Rnnoise, Voice.Stt: RTCLegacyVad.cc and RTCRNNoiseVad.cc, the detectors
--     (pushPCM), and what they have in common (_send_stt_pcm).
--   Speech.Client, Speech.Calls, Speech.Stopping: RTCVADZmqClient.cc, the queue to the speech server,
--     the calls of its client, and _stop_m against the thread that it stops.
--   System (Calls, Turns): the node and its session together. Each has a queue of messages, as its
--     looper has; a turn handles the message in front, and what the handler does is posted to the
--     queue of the other (OnAddPeer, SendSDP and so on) or to its own. Phases has the invariant of
--     the two, Safety the steps of the system from outside. Speech runs the PCM of a peer through
--     the detector, the node and the speech client, Media a text of the signaling server through
--     the session, the node and the peer, Replies a request through the session, the node and
--     the session to its reply, and Outbound what a voice client has ready through the peer,
--     the node and the session to the web socket; Failing has the steps of a system whose web socket
--     does not open.
--   Utils: Files has the debug files of RTCUtils.cc and AMessageWaitImpl.cc, Samples the conversions of
--     RTCUtils.cc between int16_t and float.
-- Base has the helpers: lists over the native numbers, arrays, faults, decimal digits. Tests has the
-- theorems at concrete inputs.
--
-- Every handler is a function from a state and a message to the new state and what the handler
-- does, a list of effects: calls of other parts, messages posted, replies. Where a handler can
-- fault (a null pointer used, a copy outside an array, the front of an empty queue), its result is
-- an Option, and none is the fault. Binary and third-party code is a parameter: jansson
-- (Signaling.Json), the voice test and the resampler (Voice.Legacy, Voice.Resampler), RNNoise
-- (Voice.Rnnoise), float (there and in Utils.Samples), the voice client (Node.Peer), libwebsockets
-- (Socket.Messages, Socket.Client) and libzmq (Speech.Client).
--
-- What is taken of the parameters is named where they are: json_loads has its flags, of which the
-- session gives the length of the text, so that integers are read as reals where that has the bit 0x8;
-- a cast of a float to int32_t is a fault outside its range; the downmix is a fault where the PCM has
-- not two values for each sample; and Send of a web socket client without a connection is a fault of
-- lws_callback_on_writable.
--
-- Signaling.Understood describes the messages that a session can take; Socket.Ring, Program.Address
-- and Voice.Labels describe, apart from the code, the ring and its order, the texts of addresses, and
-- the segments of speech.
--
-- Loops are structural recursion: over the frames of a push, the packets, messages and steps given.
-- The only fuel is that of decimal, one more than the number, which value_from-decimal shows to be
-- enough. Sampling rates and numbers of samples are taken as not negative; counters wrap at 2 ^ 32
-- where the source's do.
--
-- Not modelled: threads as such (a handler runs whole, as under its looper or its lock; the wait of
-- the speech thread is the exception), the wait of the program in RTCServerNode::Stop, logging, the
-- destructors that only stop a looper, and the two test servers and the client application of the
-- repository.
pub mod Base
pub mod Voice
pub mod Signaling
pub mod Node
pub mod Speech
pub mod Program
pub mod Socket
pub mod System
pub mod Utils
pub mod Tests
