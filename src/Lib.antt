-- ===== src/Lib.antt =====
-- sillyweb: a small web server in C. One process reads a configuration file, binds ports, accepts
-- connections, and serves each of them with a request parser, a dispatcher and a file transfer.
--
-- Which file models which part (paths from the repository's root):
--   Base       strings, signed results and decimal numbers, as the C library has them
--   Memory     realloc, calloc, malloc (a parameter with the laws of the C standard), memcpy, memmove
--   Buffer     buffer.c: append_buffer, ltrim_buffer, clear_buffer; Buffer/Content what one call does,
--              Buffer/Queue a sequence of calls
--   Percent    percent.c, with the sscanf("%02x") that it calls; Percent/InPlace is the call
--              percent_decode(uri, uri) of main.c, Percent/Buffers has percent_decode_buffer and
--              percent_encode_buffer of buffer.c, Percent/Agree compares the two decoders, and
--              Percent/RoundTrip decodes what percent_encode_buffer leaves
--   Headers    headers.c; a header list is the list of its nodes
--   Http       http.c and http.h: the codes and their texts
--   Util       util.c: get_file_ext, filter_nonprintables and sctime
--   Mime       mime.c, with the whole table in Mime/Table
--   Config     config.c: the loader, as a function of one byte at a time; Config/Entries is about files
--              of entries, Config/Limits about the arrays of the loader. Config/Handlers has the
--              callbacks, Config/Settings config_load_config, config_add_server_port and
--              config_add_vhost of main.c; Config/Ports, Config/Servers and Config/Hosts are about those
--   Platform   the calls of the C library and of OpenSSL that the handlers make: a parameter
--   Service    the structures that a client points to, from vhost.h, server.h, http.h, transport.h and
--              transfer.h
--   Client     client.h and clear_client, close_connect of client.c
--   Log        log.c: the line that llog puts together, and whether it fits its array. Log/Output has
--              llog as a whole, llog_heartbeat and the loop of main over it; Log/Lines is about a line,
--              Log/Heartbeats about that loop
--   Transport  transport.c: open, send, recv and close of both transports
--   Request    main.c: is_client_request_complete and parse_request. Request/Line is strsep and the
--              sscanf of the request line, Request/Fields the loop over the header lines,
--              Request/Parse the function itself, from the inside out. Request/Located and
--              Request/Understood are about what it makes of a request that it understands
--   Response   main.c: client_send_response_code and client_send_headers
--   Cgi        main.c: what dispatch_request puts together for a CGI program
--   Listing    main.c: generate_dir_listing
--   Dispatch   main.c: dispatch_request; Dispatch/Refusal and Dispatch/Answer are about the requests
--              that are refused, Dispatch/Files and Dispatch/Missing about those that are accepted, for
--              a file and for a path where nothing is
--   Clients    client.c and main.c: the list of clients, delete_client, cleanup_dead_clients; the list
--              of reputations is Clients/Reputation
--   Listening  server.c, vhost.c, bind_server, do_server_port_bindings and a round of
--              server_listening_thread of main.c, and create_new_client of client.c
--   Transfer   transfer.c: the functions of the three transfer methods. Transfer/Pump is about one turn
--              of plain_transfer_send, Transfer/Delivery about a whole file
--   Serving    main.c: service_clients, one turn of a thread. Serving/Reach has the program as it runs:
--              turns and rounds of the listening thread, in any order. One request for a file is
--              followed from the first bytes of the connection to its end: Serving/Asked has the
--              request, Serving/Arrival the turn that receives it, Serving/Delivery the answer,
--              Serving/Loop and Serving/Sending the turns of the transfer, Serving/EndToEnd the answer
--              with these and the turn after them, and Serving/Connection all of it
--   Start      main.c: main, up to the start of the threads; Start/Threads has the rest of it
--   Tests      runs on concrete inputs
--
-- How state is modelled: a structure is a record, a function that changes one returns the new one,
-- and what is outside of the process is a `World` that the calls of `Platform` take and return. A
-- result of `none`, or `overrun`, is a fault: an access outside a block, through NULL, or beyond the
-- end of a table. Bytes are numbers, a block is the list of its bytes, and a NULL pointer is `none`;
-- lengths keep the wrap-around of the C type they are stored in. Locals that are read before they
-- are set (`t` of percent_decode, the arrays of the loader) are arguments, and so is the memory
-- behind the input buffer, which is read as a string though no NUL ends it.
--
-- Where the model is coarser than the code: percent_decode has sscanf("%02x") store an unsigned int,
-- of four bytes, through the address of the `char` t. Only the low byte, which t gets, is modelled, and
-- not what the other three overwrite beside it, so that what is said of percent_decode and of
-- parse_request takes these bytes to be of no use. get_vhost has no return statement. parse_request
-- takes it as a function of the name that gives NULL or one of the virtual hosts; that it gives
-- something that is neither, which would be used as a pointer, is not modelled. errno, which
-- config_set_int_handler and the like test and do not clear, is a parameter for each file that is
-- loaded: whether it is EINVAL from an earlier call when the handlers of that file test it. basename
-- may change its argument, which parse_request goes on to use: `after_basename` is what it leaves.
--
-- Loops are recursion on the list that they go through. The loop over the header lines has fuel, as
-- strsep ends it only by a NULL: `rounds` is one for each byte, and two, and is enough.
--
-- How the parts interact: main loads the configuration (Start, Config), which fills the lists of
-- servers and virtual hosts, and binds the servers (Listening). Then two threads share the list of
-- clients: the listening thread puts new clients behind the others and removes dead ones (Listening,
-- Clients), and the service thread parses, dispatches and transfers (Serving, which calls Request,
-- Dispatch and Transfer). NUM_CPUS is 1, but a turn is modelled for any thread. A step is a whole
-- call: the interleaving within a call, and the mutexes, are not modelled.
--
-- The log is a part by itself: the model of a request asks of each line that dispatch_request logs
-- whether it fits, and what llog then does with a line is in Log/Output, over a state of its own.
--
-- Not modelled: new_headers, which nothing calls, and which would put a node with no texts into a
-- list. The set-up of OpenSSL and sni_callback_handler, which only call OpenSSL and print. The lines
-- that are logged outside dispatch_request, and what logging does to the state of a request. A CGI
-- program, since free(buff) before the fork is a fault. The results of strdup are taken to
-- be there but in Config, and memory that is freed or leaked is not counted. The run
-- that Serving/Connection follows is that of a list of one client, whose request comes in one piece of
-- at most 512 bytes; requests in several pieces, and several clients, are covered turn by turn only.
pub mod Base
pub mod Memory
pub mod Buffer
pub mod Percent
pub mod Headers
pub mod Http
pub mod Util
pub mod Mime
pub mod Config
pub mod Platform
pub mod Service
pub mod Client
pub mod Log
pub mod Start
pub mod Transport
pub mod Request
pub mod Response
pub mod Cgi
pub mod Listing
pub mod Listening
pub mod Dispatch
pub mod Clients
pub mod Transfer
pub mod Serving
mod Tests
