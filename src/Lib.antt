-- ===== src/Lib.antt =====
-- libasynckafka, a C++ client of Kafka on libevent, whose sources stand in src/. The development
-- models the library; libkafka-asio/, the copy of another library that builds and parses the frames
-- of the protocol, is a parameter.
--
-- The program's parts. A KafkaClient asks a broker for the partitions of a topic and makes a
-- KafkaPartition for each. A partition has a socket to its leader, queues of messages and of requests,
-- and six event sources. LibeventReactor watches the descriptors of all of them and calls the handler
-- of the one that is ready. The application calls the methods of KafkaConsumer and KafkaProducer and
-- is called back with messages and acknowledgements; the programs of examples/ are such applications.
--
--   Config       the enumerations, KafkaClientConfig and KafkaBroker of src/KafkaEndpointMP.h.
--   Os           the answers of the system calls, as functions of the number of the call, and what
--                the calls leave: the trace of what was sent, slept, closed and called back, newest
--                first, and the files.
--   Outcome      how a call ends: with a value, by exit(0), by a failed assert, by an exception, in
--                undefined behaviour, or for want of the model's fuel.
--   Net          namespace utils of src/KafkaEndpointMP.h: connectServer, hostnameToIp and readData.
--   Reactor      src/LibeventReactor.h and .cpp, with the flags of src/AsyncEventSource.h.
--   Wakeup       src/WakeupEventSource.h and .cpp.
--   Periodic     src/PeriodicEventSource.h and .cpp.
--   Asio         the calls of libkafka-asio/: a record of operations and laws.
--   Decimal      the printing and reading of integers by the standard library.
--   Partition    KafkaPartition of src/KafkaEndpointMP.h and .cpp. State has the members; Requests both
--                produce methods and the create methods; Transfer connectLeader, onWriteReady and the
--                destructor; Offsets getKafkaOffset and commitKafkaOffset; Responses handleKafkaError
--                and the response handlers; Reading onReadReady and handleEvent; Lifecycle the
--                constructor, init, startFetch, startProduce, pauseFetch, resumeFetch and the callbacks
--                of the event sources. The other children hold proofs, by what they prove.
--   Logger       src/Logger.h: the levels, timeStamp and logMessage. Lines has the proofs on it.
--   Client       KafkaClient, KafkaConsumer and KafkaProducer of src/KafkaClient.h and .cpp. State has
--                the members, the callbacks and the loops over the partitions; Connect init and the
--                constructors; Produce both produce methods; Made, Attempts, Received and Routing the
--                proofs on them. Runs has runs over all partitions, Queues, Balance and Conserved the
--                proof on those; Sending follows messages from produce to a socket.
--   Examples     the programs of examples/: Consumer00, Producer00, Performance00 and Performance01 have
--                the option switch, the set-up, the callbacks and the signal handler of one program
--                each, Arguments what they share. Numbering, Measuring, Counting, Options and Ports hold
--                proofs.
--   Tests        concrete inputs.
--
-- A method of a class is the function of the same name in the library's spelling: handleFetchResponse
-- is handle_fetch_response. State is passed explicitly: a method of a partition takes and gives a Sys,
-- which is the partition, the reactor and the world; one of a client a ClientSys. A C++ container is a
-- list with its front at the head, a std::string the list of its bytes, and the map of events an
-- association list. A callback that is called is an entry of the trace, with its arguments.
--
-- Fuel. onWriteReady calls itself once for each connection that is reset, and its fuel bounds the
-- calls; Partition.Ending shows how much is enough. The loop of the destructor has fuel for its
-- rounds, and Partition.Closing shows that one more than there are requests is enough. readData makes
-- its own fuel, which Net.Framing shows to be enough. The loops of the event sources take fuel for the
-- reads that are interrupted, the loop of KafkaClient::init for the metadata requests that it repeats:
-- Client.Attempts shows that one more than there are repetitions is enough.
--
-- Not modelled. The calls of the logger in the library and the texts that they log, and
-- src/ReactorBase.h, which has no code. The counter of messages is a natural number: it does not
-- overflow. Intervals are not negative, and timers are set to whole nanoseconds. Every write of the
-- offset file succeeds. The callbacks of the application change nothing in the library while they
-- run, except that of examples/producer-00.cpp and examples/performance-00.cpp for a message queue
-- that has been emptied, which is called last. Of the programs, the answers of getopt_long, the
-- event loop and the clock are parameters; their counters do not overflow, the rates that they print
-- as doubles are left out, and event_base_loopexit takes effect after the delay that it is given,
-- which is left to libevent. `x = x++` is read by the order of evaluation that C++17 fixes; the
-- Makefiles build with -std=c++11, where it is undefined. assert() is compiled in. A descriptor that is closed is not tracked: the numbers that socket(),
-- eventfd() and timerfd_create() answer are parameters.
pub mod Prelude
pub mod Config
pub mod Os
pub mod Outcome
pub mod Net
pub mod Reactor
pub mod Wakeup
pub mod Periodic
pub mod Asio
pub mod Logger
pub mod Partition
pub mod Decimal
pub mod Client
pub mod Examples
pub mod Tests
