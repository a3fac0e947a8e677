-- ===== src/Lib.antt =====
-- Verification of the core of mpd-legacy: the play queue, the playlist that stands on it, and the way
-- of a client's bytes to the handler of a command.
--
-- Queue models src/playqueue.h and src/playqueue.c, the queue of songs behind the playlist.
-- `struct queue` is the record `Queue.Queue`; the prefix `queue_` of the functions is the module.
--   Queue            the state, the accessors of the header, the version counter, the walk of
--                    `queue_next_order`
--   Queue.Edit       append, swap, move, delete, clear, init
--   Queue.Random     the order of random mode: sorting by priority, shuffling, set_priority
--   Queue.Inv        the invariant: ids and positions are inverse, the order is a permutation
--   the other children prove; Queue.Tests evaluates a queue of three songs
-- Playlist models src/playlist.h, src/playlist.c, src/playlist_control.c and src/playlist_edit.c: a
-- queue, the order numbers of the current and of the queued song, and whether the player should be
-- playing. `struct playlist` is the record `Playlist.Playlist`.
--   Playlist           what is queued next, stop, the modes
--   Playlist.Playback  play, next, previous, seek, and the events of the player
--   Playlist.Edit      adding, deleting, moving, swapping and shuffling songs
--   Playlist.Ready     the invariant, and what keeps it together with the current song
--   the other children prove; Playlist.Tests has a playlist over the queue of three songs
-- Fifo models src/fifo_buffer.c, the buffer of bytes that clients, encoders and others write to and
-- read from; Fifo.Growing is src/growing_fifo.c. `struct fifo_buffer` is `Fifo.FifoBuffer`.
-- Client models what a client sends: Client.Read is src/client_read.c, which takes the lines out of the
-- FIFO buffer of the client, and Client.Process is src/client_process.c, which collects command lists.
-- Command models the dispatch in src/command.c: the table of commands, the search in it, the checks of
-- a request, and `command_process`. It takes a line apart by Tokenizer, which is src/tokenizer.c.
--   Client.Lines, Client.CommandList, Command.Lookup, Command.Request and Tokenizer.Quote prove
-- Common holds the tests, arrays, counted loops, and rearrangements that all parts share.
--
-- Arrays are functions of the index, and the invariant says which indices hold what. `unsigned`
-- arithmetic on arguments is written modulo 2 ^ 32; a loop index below the length does not wrap. An
-- assertion of the source is a hypothesis. Songs are identified by their address; what `song_free`
-- is called on is collected in a list. An `int` that is an order number or -1 is an `Option`; where
-- the source passes such a number as an `unsigned`, -1 becomes 2 ^ 32 - 1.
-- The loop of `queue_generate_id` runs on fuel, one round for each id, and it is proved that a free
-- id is found in time; `queue_position_to_order` runs at most `length` rounds.
-- GLib's `g_rand_int_range` and `g_qsort_with_data` are parameters, with the hypotheses that a draw
-- lies in its range and that the sort rearranges the entries into ascending sequence.
-- The calls of the playlist to the player and to `idle_add` are collected in a list, and what the
-- player thread shows in return is a parameter, a function of the calls so far. `pc_seek` returns
-- true, as in src/player_control.c.
--
-- Uri is src/uri.c: the test of a text that names a song below the music directory, the scheme and the
-- suffix, and the removal of a password. Uri.SafeLocal and Uri.Auth prove, and Uri.Segments is the
-- description that the test is compared with. The test takes one unit of fuel for each byte and one.
--
-- Argparser is src/protocol/argparser.c, the numbers and ranges among the arguments of a command, with
-- strtol and strtoul of the C library; Argparser.Bounds, Argparser.Numbers and Argparser.Decimal prove.
-- check_float is left out.
--
-- Permission is src/permission.c: the permissions that a password gives, by which `command_check_request`
-- decides. GLib's hash table is an interface. Permission.Passwords proves.
--
-- Channels is src/client_subscribe.c with the names of channels of src/client_message.c: what a client
-- has subscribed to and the messages that wait for it. `Channels.Client` is that part of `struct client`,
-- `Step` what happens to it. Channels.Inv and Channels.Delivery prove.
--
-- Handlers is the handlers of src/command.c, with src/client_file.c: Handlers.Queue edits the queue and
-- controls the playback, Handlers.Access checks passwords and adds songs, Handlers.Messages sends
-- messages between clients, and Handlers.Dispatch is the column of handlers in the table of
-- commands. They call Argparser, Playlist, Permission, Uri and Channels, and Command calls them:
-- Handlers.Line, Handlers.Granted, Handlers.Atomic and Handlers.Messages.Sent prove what that comes to.
-- What the database answers, `stat`, user ids and `volume_level_change` are arguments.
--
-- Rewind is src/input/rewind.c, which keeps the first bytes of an input stream to go back to them. The
-- stream beneath is an interface. Rewind.Inv and Rewind.Reads prove.
--
-- IcyMetadata is src/input/icy_metadata.c, which takes the titles out of the stream of a radio station, and
-- Curl is the buffers of src/input/curl.c, from which reads take the stream. IcyMetadata.Split describes
-- such a stream byte by byte, and IcyMetadata.Inv, IcyMetadata.Blocks, Curl.Reads and Curl.Drain compare;
-- Curl.Pieces goes from the pieces that libcurl delivers to what a read copies, and Curl.Answers is about
-- what `input_curl_read` returns. The inner loops run on fuel, one round for each byte in the
-- buffers, and it is proved that they end within it; the fuel of the outer loop is an argument.
-- src/tag.c, `g_strsplit` and the network thread are interfaces.
--
-- A text is the list of its bytes before the zero byte. In Fifo.Growing a write through a null
-- pointer and one past the buffer are results of their own; in Client.Read `none` is a loop that runs out of fuel, one round for
-- each byte held, and it is proved that a result is there. The binary search of `command_lookup` takes
-- one unit of fuel for each command. The handlers of the commands, what GLib says of characters, and
-- what a socket delivers are arguments.
--
-- Not modelled: `playlist_append_uri`, which looks songs up in the database; `playlist_seek_current`, with
-- times relative to the player's clock; the player thread itself, the decoders and outputs, the
-- database, the handlers of the commands that print or ask the database, and sockets.
pub mod Common
pub mod Queue
pub mod Playlist
pub mod Fifo
pub mod Client
pub mod Tokenizer
pub mod Command
pub mod Uri
pub mod Argparser
pub mod Permission
pub mod Channels
pub mod Handlers
pub mod Rewind
pub mod IcyMetadata
pub mod Curl
