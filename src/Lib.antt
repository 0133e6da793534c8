-- ===== src/Lib.antt =====
-- PiScan, a radio scanner: its scan list, its scanner state machine and its server.
--
-- The program loads a database of systems, each a list of channels, sorts the channels by frequency
-- into bins that one setting of the tuner covers, and walks over the bins. A state machine on its
-- own thread checks the channels for a signal, receives what it finds, and obeys calls of clients
-- to scan, hold, enter a frequency or stop; at a stop it saves what it did for the next start.
--
-- - Base: lists and tests over the native numbers, the integers that frequencies are, and the
--   outcomes of a call: a result, undefined behaviour (or an exception that nothing catches), or a
--   loop that ran out of fuel. Numbers: std::stoi and std::stoll, what they read of a printed number,
--   and what they throw. Fields: std::getline with a delimiter, and the cutting of a line.
-- - Scan (src/scan): Entry (Entry.h, Entry.cpp) with the class of a channel as its `kind`, Tree
--   (the interface of boost::property_tree), System (RadioSystem.h, RadioSystem.cpp and
--   populateFromFile and writeToFile of SystemList.cpp), Sorting (merge and mergeSort), Bins
--   (sortBins and EntryBin, and in Plan the same of the channels without their order), Rotation
--   (getNextEntry and getEntryByIndex) and Sentinel (SentinelFile.cpp and ListGenerator.h, which
--   convert a file of another scanner to a list).
-- - Machine (src/util/StateMachine.h and .cpp): events, and the marks of the engine.
-- - Scanner (src/ScannerSM.h and .cpp, src/server/messages/context.h and .cpp): the members of
--   ScannerSM as a record, the state functions in Scanner/States, the external events, the engine
--   and the steps of its thread in Scanner/Engine, startScanner in Scanner/Startup. What a state
--   function calls of the rest of the program is logged in the record, latest call first; what it
--   is answered comes in an `Env`.
-- - Server (src/ServerManager.h and .cpp, src/common/messages.h, src/server/request.h, and
--   issueRequest of src/server/connection/Connection.cpp): the slots, the queues and the broadcasts
--   in Server, the requests and the thread in Server/Requests. A call from another thread says
--   whether it got the lock, and a round of the thread is one pass over both queues.
-- - Frontend (src/server/connection/DebugConsole.cpp, SocketConnection.cpp and Connection.cpp, and
--   the app functions of src/piscan_server.cpp): the lines of the console in Console, the messages of
--   a network client in Socket. Both call the same functions of the scanner and the demodulator, and
--   Agreement relates the two.
-- - Config (src/common/Configuration.h and .cpp, src/common/State.cpp): the sections of both files,
--   read from and written to a property tree with paths as its keys (the interface PathTree), and
--   what loadFromFile does with a file that is not there.
-- - Tuner (src/sigproc/TunerManager.h and .cpp): the choice of a tuner and of its sample rate, and
--   in Tuner/Starting its start, up to the calls of CubicSDR.
-- - Demodulator (src/sigproc/Demodulator.cpp): the choice of an output device's sample rate, and in
--   Control the operations of the running demodulator, with the calls that it makes of CubicSDR as a
--   log and their answers as the interface Cubic.
-- - Restart: the way of the scanner's state from a stop through the file of the state to the next run.
-- - Timer (src/util/IntervalTimer.h and synchronize.h): the thread of a timer as steps, between which
--   the calls that steer it take effect; its waits and sleeps end when a step says so.
-- - Main (main and exit of src/piscan_server.cpp): the calls of the parts in order, each of which
--   returns, throws or blocks, how the process ends, and the signal handlers.
-- - Audio (src/server/audio_server and src/server/AudioStreamServer.cpp): the source that cuts the
--   batches of the audio thread into frames, with its bytes and times, and in Audio/Streaming the
--   sessions of the RTSP server, its start and its stop.
-- - Listening (src/server/SocketServer.cpp, DebugServer.cpp): the asynchronous accepts as steps, the
--   client processes, and the servers as ServerManager starts and stops them.
-- - Launch (Configuration.cpp, and main of src/piscan_server.cpp and src/scan/SentinelFile.cpp): the
--   flags of both programs, the working directory and the log paths over a disk of directories and
--   files, the end of the converter, and in Delivery the way of the systems from it to the server.
-- - Tests: the theorems applied to small databases, files, lines and histories.
--
-- An array that is sorted in place is a list that is written in place. A call from another thread
-- is a step between two rounds, as it takes the lock that a round holds. The depth of mergeSort is
-- bounded by the length of the segment, which is enough. The loops that look for the next entry
-- have no bound in the source and take fuel; twice the number of the entries and one round more
-- are enough where one of them is not locked out. Frequencies are integers without a bound: `long`
-- and `long long` have 64 bits, and the sums of two frequencies are taken to fit.
--
-- Not modelled: input and output (sockets, the console, log lines), beyond what stands at the path of
-- a file and what getopt reports of the command line; the length of sleeps, the deletion of objects,
-- and the copies of CubicSDR and of libraries under src/cubic and src/external. Property trees,
-- std::stof and the arithmetic of floats, the answers of CubicSDR and of the streaming library are
-- parameters with the laws that the code relies on.
mod Base
pub mod Scan
pub mod Numbers
mod Fields
pub mod Machine
pub mod Scanner
pub mod Server
pub mod Tuner
pub mod Config
pub mod Demodulator
pub mod Frontend
pub mod Restart
pub mod Timer
pub mod Main
pub mod Audio
pub mod Launch
pub mod Listening
mod Tests
