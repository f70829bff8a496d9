-- ===== src/Lib.antt =====
-- sdv-edge-gateway: a model of the gateway process and what it guarantees.
--
-- The gateway is one process of several threads joined by queues. CanReader reads frames from the bus
-- into a queue; the main thread takes them out, decodes their signals and fans each signal out to two
-- queues; TelemetryPublisher collects the signals of one of them into messages for the cloud, and
-- AnomalyDetector runs a model on the other's and sends alerts. CommandHandler takes commands from the
-- cloud: those for the body go through CanWriter to the bus, updates go through a queue to OtaAgent,
-- which downloads, verifies and installs an image and reports each state.
--
--   SafeQueue           include/common/safe_queue.hpp: push, pop, try_pop, pop_for, shutdown, size;
--                       the mutex makes each one step, and `run` is any sequence of steps; the threads
--                       inside the methods, at the mutex and the condition variable, as a relation of
--                       steps in SafeQueue/Monitor
--   CanWriter           src/can_layer/can_writer.cpp: start, stop, open_socket, write, the table of
--                       identifiers; the build without SocketCAN in CanWriter/Stub
--   CanReader           src/can_layer/can_reader.cpp: start, stop, open_socket, and `run` as a fold of
--                       `step` over what ::read returned; the build without SocketCAN in CanReader/Stub
--   SignalDecoder       src/can_layer/signal_decoder.cpp: `decode`, with the loop over the bits as
--                       `extract` and the sign extension as `sign_extend`;
--                       `load` in SignalDecoder/Load, line by line, with the part of std::regex that
--                       its two patterns use in SignalDecoder/Regex
--   TelemetryPublisher  src/gateway/telemetry_publisher.cpp: `run` is a fold of `step` over what the
--                       queue and the clocks gave; `accumulate`, `is_due` and `publish_now` are its parts;
--                       start and stop in TelemetryPublisher/Lifecycle
--   CommandHandler      src/gateway/command_handler.cpp: the loop as `run`, parse_command, already_seen,
--                       route, handle_diagnosis; start, stop and their times in CommandHandler/Lifecycle
--   OtaAgent            src/gateway/ota_agent.cpp: a round of `run` as stages that end it or go on, one
--                       for each step of the update; the disk in OtaAgent/FileSystem, the digest in
--                       OtaAgent/Digest, curl_write_cb in OtaAgent/Transfer, start and stop in
--                       OtaAgent/Lifecycle
--   AnomalyDetector     src/gateway/anomaly_detector.cpp: run, the normalisation of run_inference,
--                       publish_alert as `alert`; start and stop in AnomalyDetector/Lifecycle
--   OfflineBuffer       src/gateway/offline_buffer.cpp: to_json, from_json and the loop of drain;
--                       the methods over the database in OfflineBuffer/Database
--   Timestamp           include/common/timestamp.hpp: iso8601_utc
--   Gateway             src/main.cpp: the decode loop; in Gateway/Interrupt g_running, its signal handler
--                       and the loop that tests it; the configuration in Gateway/Config; the six
--                       modules' states, starts and stops in Gateway/Modules; `main`, from its last
--                       step to its first, in Gateway/Main, and its possible courses in
--                       Gateway/Course; the threads of the uplink and of the downlink as interleaved
--                       actions in Gateway/System and Gateway/Downlink
--   Worker              the members running_ and thread_ of the classes with a thread
--   Types               include/common/types.hpp
--   Json, Socket, Mqtt  what is used of nlohmann::json, of the sockets and of the MQTT client
--   Common              tests, lists, integers, bits and association lists; the operations of `double`
--                       and `float` are the parameters Common/Double and Common/Float
--   Tests               concrete inputs
--
-- A thread's loop is a fold over what its calls gave in each round: an item or a timeout of its queue, a
-- clock's reading, an answer of the kernel, the disk, the network or the broker. So a theorem about
-- `run` is one about every schedule and every fault that the answers can express. An operation that
-- the code hands to the MQTT client is the message handed over; whether the broker takes it is not
-- modelled. An exception that the code does not catch ends the process, which is a constructor of the
-- outcome. A wait without a limit for the broker may never end, which is another; a thread may be in
-- one when it is stopped.
--
-- Integers of fixed width keep their wrap-around where the code can reach it: the bit position of a
-- signal is an 8-bit number, and a raw value is 64 bits wide. The only fuel is in `digest_loop`, one
-- more than the bytes to read, which is enough since each read takes one byte or more.
--
-- Time points are natural numbers: nanoseconds where iso8601_utc or the offline buffer cuts them to
-- milliseconds; the time of a decoded signal, which nothing reads, comes from one function of the
-- signal's name. The map signals_ is a list in the order of insertion.
--
-- Not modelled: the options of the connection, which are handed to the MQTT client; log output; the
-- code in Python for the cloud and for training the model. In a round of OtaAgent each publish is
-- acknowledged or refused, though wait() has no limit; its image, once downloaded, can be read to the
-- end. The exception of nlohmann's dump for a unit that is not UTF-8 is left out. Where a stop in `main`
-- does not return, its state is the one before the stops of that step.
-- SQLite, ONNX Runtime, libcurl, OpenSSL, nlohmann::json, RapidJSON, Paho and yaml-cpp are third-party
-- code: what is used of them is a parameter; that libcurl and the streams of <cstdio> do what is
-- documented of them is a hypothesis of OtaAgent/Delivered. That a thread can be made is taken for
-- granted. The classes' members that only refer to another object, or that a call of third-party code
-- fills, have no field of their own.
pub mod Common
pub mod Types
pub mod Json
pub mod Socket
pub mod Mqtt
pub mod SafeQueue
pub mod CanWriter
pub mod CanReader
pub mod SignalDecoder
pub mod Timestamp
pub mod CommandHandler
pub mod TelemetryPublisher
pub mod OtaAgent
pub mod Gateway
pub mod AnomalyDetector
pub mod OfflineBuffer
pub mod Tests
pub mod Worker
