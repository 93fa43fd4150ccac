-- ===== src/Lib.antt =====
-- A verification library for spice-gtk, the client library of the SPICE remote display protocol. Its
-- files model the parts of the client that decide what happens to data: what is kept, in which
-- order, and when it is sent. Every definition is a translation of the C code that its file names.
--
-- The parts, and how they interact:
-- * Channel (src/spice-channel.c, src/channel-base.c) is what all channels share. Channel has the
--   fields of a message's header, by the layout of spice-protocol, a parameter; Channel/Wire the loops
--   of `spice_channel_read` and `spice_channel_flush_wire` over what the socket brings and takes;
--   Channel/Messages how a message is made, written and received (`spice_msg_out_new`,
--   `spice_channel_write_msg`, `spice_channel_recv_msg`), with parsers and handlers as parameters;
--   Channel/Queue the queue of messages to be sent, whose operations are events in any order;
--   Channel/Connection and its Coroutine the state machine of the connection, over the answers of the
--   session, OpenSSL and the server; Channel/Handlers the table of a class's handlers; Channel/Caps
--   the sets of capabilities and how a link message has them. The other channels send and are called
--   through it; their models begin at their handlers and end at the messages that they send.
-- * Cache (src/spice-channel-cache.h) is the reference-counted cache that the display and cursor
--   channels keep images and palettes in. A GHashTable is the association list of Base/Table. A
--   counter is a 32-bit number that wraps.
-- * Glz (src/decode-glz.c, src/decode-glz-tmpl.c) decodes images that refer to earlier ones.
--   Glz/Window is the ring of images (`glz_decoder_window_*`), Glz/Format the pixel macros of the
--   template, Glz/Stream the template's decoding loop as a state monad with refusals and faults,
--   Glz/Decoder the header and the call of the decoders (`decode`). The decoder waits in a coroutine
--   for an image that is not there yet; the wait is a parameter that gives the window after it. What
--   spice-common supplies (constants, tables by image type, the allocation of a surface) is a
--   parameter too. Reading behind the input, the palette or an image, and writing behind the output,
--   are faults of the model, where the C code would touch other memory.
-- * Util/Scancode, Util/Edge and Util/Newlines (src/spice-util.c) are `spice_make_scancode`, which the
--   inputs channel calls, `spice_mono_edge_highlight`, which the cursor channel calls, and
--   `spice_dos2unix` and `spice_unix2dos`, which the clipboard of the desktop goes through. A text is
--   the bytes of a buffer; what is read of a result ends at its first zero byte.
-- * Inputs (src/channel-inputs.c) is the state of mouse and keyboard. An operation gives the new state
--   and the messages to the server, in order. `motion_count` and the movements are integers.
-- * PortForward (src/port-forward.c) forwards connections between the guest and this machine.
--   PortForward/Handlers has one function for each callback of GIO and each message of the agent. A
--   connection is an object on a heap, reached through addresses, so that its reference count and its
--   freeing are part of the model; the log of a world is what the code asks of GIO and the agent.
-- * Playback (src/channel-playback.c) is the audio stream, with the decoder as a parameter.
-- * Agent (src/channel-main.c) is the transport of messages between client and guest agent.
--   Agent/Cutting is `agent_msg_queue_many`, which cuts a message into packets; Agent/Outgoing the
--   queue that `agent_send_msg_queue` sends as the server grants tokens, with the flushes of
--   `file_xfer_flush_async`; Agent/Receiving is `main_handle_agent_data`, which puts the packets from
--   the agent together, with a position that is 32 bits wide and wraps around. The layout of a
--   message's header is spice-protocol's, a parameter. A packet has an identity, the key by which a
--   flush waits for it. Of `agent_start` the packets that it posts and the sending are modelled.
-- * Displays (src/channel-main.c) keeps the displays that the user asks for and the timer after which
--   the agent is sent them: `spice_main_channel_update_display` and its neighbour. Displays/Sending is
--   `timer_set_display` and `spice_main_channel_send_monitor_config`, Displays/Aligning
--   `monitors_align`, which puts the monitors in a row. The sort by distance is a parameter; only that
--   it reorders is relied on.
-- * Clipboard (src/channel-main.c) has the clipboard messages, `agent_clipboard_grab` and its
--   neighbours, and the part of `main_agent_handle_msg` that reads them. They go through Agent.
-- * Pipe (src/giopipe.c) joins an output and an input stream without a buffer of its own. Its
--   sources are the readers and writers that wait; GIO's close of the peer is a parameter.
-- * Record (src/channel-record.c) cuts recorded audio into frames of the codec, a parameter, whose
--   state is a number.
-- * Base has the shared names, Tests the witnesses: each property applied to concrete data.
--
-- Bounds and fuel: the loop of the GLZ decoder has the length of its input as fuel, since a round
-- reads at least one byte, and Glz/Stream/Fuel shows that more fuel changes nothing. The loop that
-- closes the gap has one round for each id up to the new one. The loops that cut a buffer into packets
-- and recorded data into frames have the length of the data as fuel, since a round takes at least one
-- byte; the loop that reads packets has the length of the packet, a read from the socket that of its
-- buffer, and the loop over the lines of a text that of the text. The loop that empties a channel's
-- queue ends in one round for each message and one more. What the socket and the server answer is a
-- list, on which the other loops of a channel are recursive; where it ends, the coroutine waits. All
-- other recursion is structural.
-- Machine words wrap where the code can make them wrap; ids of images grow without wrapping.
--
-- Not modelled: sockets, the event loop, coroutine switches, GObject properties and signals, the
-- widget, USB, smartcards and audio backends, and the code of spice-common and GLib; nor yet SASL,
-- the ticket's encryption, the waits of one channel for another, the migration of a channel to another
-- host, the agent's other messages, file transfers, and URIs.

mod Base
pub mod Cache
pub mod Channel
pub mod Clipboard
pub mod Displays
pub mod Glz
pub mod Util
pub mod Inputs
pub mod PortForward
pub mod Pipe
pub mod Playback
pub mod Record
pub mod Agent
mod Tests
