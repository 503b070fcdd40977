-- ===== src/Lib.antt =====
-- Verification of SCEd, a daemon that answers queries about consulates, consular districts and
-- locations abroad and in Italy. A client sends lines; each is cut into arguments, the first names
-- a command, and the command works on the client's sessions. A session has a search, which looks
-- into the data of one state, a SQLite database per state, and collects what it finds in queues.
--
-- The files, with the code that they model:
--   * Base and the files below it: names that all share; C's int and unsigned int of 32 bits with
--     their wrap-around written out, strings as lists of bytes, pointers that may be NULL.
--   * Clib: atol and atoi with their saturation and truncation, and %u and %d of snprintf.
--   * Queue (src/queue.c): a queue with a cursor over GLib's GQueue. GLib is an interface, the
--     record GQueue in Queue/Glib, with its documented behaviour as laws, and an instance on lists.
--     Queue/Loops has queue_find and queue_remove, Queue/Holds, Ends and Walk the behaviour of the
--     calls on a queue that holds given nodes.
--   * Parse (src/parse.c): the state machine of parse_message, with the buffer that it writes.
--   * Location, Consulate, ConsularDistrict, Zipcode (src/location.c, src/consulate.c,
--     src/consular_district.c, src/zipcode.c): the records, their setters and getters.
--   * Xsqlite (src/xsqlite.c): the queries over an interface to SQLite, the record Sqlite, and in
--     Xsqlite/Find the statements and the searches that prepare them; Xsqlite/Fetch, Locations and
--     Found what they leave in a queue, and that they do not fault where memory is found.
--   * Sce (src/sce.c): the table of entities and the codes of states; Sce/Find has the searches,
--     Sce/Load the loading of a directory, Sce/Districts and Found what the searches do.
--   * Search (src/search.c): the predicates of a search; Search/Execute runs it, and
--     Search/Branches and Safety show that it does not fault; Search/Kind has what it is by.
--   * Session (src/session.c): sessions, their ids and their search; Session/List has the list.
--   * Client (src/client.c): messages, sessions, timeout and user of a client; Client/Creation has
--     client_create.
--   * User (src/user.c): who is authenticated.
--   * Encoder (src/encoder.c): character sets, over an interface to iconv, the record Iconv.
--   * Output (src/output.c): the output handlers; Csv (src/output_csv.c, src/output_flat.c,
--     src/output_void.c) has the lines that they print.
--   * Action: computations that change a state and may fault; World: what the handling of a
--     message works on, the client, the tables and what has been sent (src/sock.c), and in the
--     record Host what memory, settings and libraries give. World/Kept says what most keep.
--   * Options (src/options.c): Options has the getters, Options/Setters the setters,
--     Options/Table the table and the calls that go through it.
--   * Commands (src/commands.c, and the end of parse_message of src/parse.c): the table;
--     Commands/Slurp the options in the arguments, Commands/Finding the commands that search,
--     Commands/Handlers the others, Commands/Dispatch the dispatch, Commands/Inbox the loop of
--     parse_all_client_messages over the messages of one client. Commands/Effects and
--     Commands/Answers have what a message can change and that it is answered.
--   * Ring (src/ring.c): the buffer for what clients send, over libvrb, which is the interface Vrb
--     in Ring/Libvrb; Ring/Lines has what is written and read back by lines.
--   * Xconfig (src/xconfig.c) and Settings (src/main.c): the settings, read by libconfig, which is the
--     interface Libconfig, and chosen among command line, file and defaults; Settings/CommandLine,
--     Sources and Starting have where each comes from. getopt is the interface Getopt.
--   * Sock2 (src/sock2.c): what sock2_send writes (Sock2/Sending), and how what is read from a socket
--     becomes messages by the buffer (Sock2/Delivery the inner loop, Sock2/Receiving the outer).
--   * Pool (src/sock2.c, the list of clients of src/client.c): the entries for sockets, free or open,
--     and the set of descriptors; Pool/Entries, Shared, Polling and Starting have where the entries
--     are. What select, accept and the reading of a client return is an argument.
--   * Serving (clients_check_timeouts of src/client.c, parse_all_client_messages of src/parse.c): the
--     loops over the list of clients, which take clients out of the pool; Serving/Rounds has
--     sequences of them and of sock2_poll_clients.
--   * MainLoop (src/main.c): when do_main_loop serves the clients, and how long it sleeps.
--   * Topology (src/topology.c, src/node.c): the nodes that announce themselves to the leader.
--   * Utils (src/utils.c): the string functions.
--
-- State is passed explicitly: a function that changes what a pointer leads to returns it behind its
-- result. Memory that malloc gives uninitialised is an argument, and so is a flag for what it
-- finds. Where the code reads or writes outside an array or through NULL, the result is none.
--
-- Fuel: the loops over a queue run on as many rounds as the queue has nodes and one, for each
-- round but the last moves the cursor on or, in the loops over the clients, takes a node out;
-- decimal runs on the number itself and one, for each round divides it by ten; the list of the
-- options on 14 rounds, for the table has 13 entries, and the list of the nodes on as many as
-- there are nodes and one; the strings of the buffer on the bytes that it holds and one, for each
-- string takes a byte; the messages of a client on more rounds than there are messages.
--
-- The records of locations, consulates, districts and zip codes, and the statement of a search by
-- zip code, are written through what xmalloc returns: a flag for each says what it finds, and where
-- it finds nothing the result is none. A copy of a text always finds memory. What strdup returns as
-- a number, an uninitialised variable, the state of the process and the text that jansson makes are
-- fields of Host.
--
-- Not modelled: the set-up of sockets, the JSON output, processes and logging, and the
-- functions that only free memory. GLib's, SQLite's, libvrb's, libconfig's and iconv's own
-- code is not in the repository.
pub mod Base
pub mod Clib
pub mod Queue
pub mod Parse
pub mod Location
pub mod Consulate
pub mod ConsularDistrict
pub mod Zipcode
pub mod Xsqlite
pub mod Utils
pub mod Sce
pub mod Search
pub mod Session
pub mod User
pub mod Encoder
pub mod Output
pub mod Client
pub mod Csv
pub mod Action
pub mod World
pub mod Options
pub mod Commands
pub mod Topology
pub mod Ring
pub mod Xconfig
pub mod Settings
pub mod MainLoop
pub mod Sock2
pub mod Pool
pub mod Serving
