-- ===== src/Lib.antt =====
-- deconz-lib: the C library beneath deCONZ (utilities for streams of bytes and text, hashes,
-- timers, atoms and urls), and the frames of ZigBee in C++. The development models the parts of it
-- that work on memory and on streams of bytes.
--
-- Base: numbers with their wrap-around, C arrays as lists, signed numbers and their bit patterns,
--   C strings.
-- ByteStream (u_bstream.c, deconz/u_bstream.h): `U_bstream_*`, a cursor over bytes with a status.
--   The operations keep their names without the prefix. Access: each operation as one write or
--   read. Sequence: what is written is read back. Safety: runs of any calls.
-- BufferHelper (buffer_helper.c): `put_*` and `get_*` at a pointer, which is an index.
-- Sstream (u_sstream.c, deconz/u_sstream.h): `U_sstream_*`, a cursor over text with a status, and
--   `U_strtol`. Put, Parse and Search hold the operations of these kinds and their theorems. The
--   functions that put and get a `double` are not modelled.
-- SstreamEx (u_sstream_ex.c): MAC addresses, hexadecimal bytes and UTF-8 on that stream. The loop
--   of `U_sstream_is_valid_utf8` runs on fuel that the size of the text bounds.
-- Url (am_vfs.c, deconz/am_vfs.h): `AM_ParseUrl` and `AM_UrlElementAt`. The message numbers of the
--   actor model are not modelled.
-- Timer (u_timer.c, deconz/u_timer.h): the timer actor. Its messages, from other actors, insert and
--   remove records of an ordered list, and the core's `U_TimerTick` fires them. The actor library
--   (`am_api_functions`) is the parameter `ActorApi`.
-- AtomTable (atom_table.c, deconz/atom_table.h): `AT_*`, a hash table with open addressing.
-- Arena (u_arena.c, u_memory.c, deconz/u_arena.h): `U_AllocArena` and `U_memalign`, on addresses.
-- BufferPool (buffer_pool.c, deconz/buffer_pool.h): `BP_*`, a cache of the pages of a file. The file
--   (`FS_*`) is the parameter `FileApi`; View.IsFile states what a file keeps. View: the bytes of
--   each page as a client sees them. A load runs on as many rounds as there are pages, and one.
-- Downloader (n_downloader.c, deconz/n_downloader.h): `N_Download*` and the thread. Connect and Text:
--   the url and the request, on Sstream. Response: the reply. Thread: the thread and the calls, with
--   Run for their interleavings. The sockets (`N_Tcp*`, `N_Ssl*`) are the parameter `NetApi`. The
--   rounding of the size runs on fuel; it needs no more rounds than the size.
-- Iso8601 (u_time.c, deconz/u_time.h): `U_TimeFromISO8601`, on Sstream; `timegm` and `mktime` are the
--   parameter `TimeApi`. Part: one number and its separator. Full: a whole text.
-- DataStream: the QDataStream of Qt, on which the ZigBee frames are read and written, as the
--   parameter `StreamApi` with the laws `IsStream` on the bytes that are left and written. Rules
--   and Short say what composed readers and writers do; Memory is a stream on lists. A loop to the
--   end of the stream runs on fuel, and as many rounds as there are bytes are enough.
-- BindingTable (binding_table.cpp, deconz/binding_table.h): `Binding` and `BindingTable`, with the
--   comparison of addresses; Reader: `Binding::readFromStream`.
-- Aps (aps.cpp, deconz/aps.h): Request and Indication, the readers and writers of `ApsDataRequest` and
--   `ApsDataIndication`.
-- ZclFrame (zcl.cpp, zcl_private.h): `ZclFrame`; Wire: its bytes.
-- ZdpDescriptors (zdp_descriptors.cpp): Node, the 13 bytes of a `NodeDescriptor`, and Simple, the
--   clusters of a `SimpleDescriptor`; the ZCL data base that makes the clusters is the parameter
--   `ClusterApi`.
-- GreenPower (green_power.cpp): `GpDataIndication`; Layout, the frames by their header, with Frame and
--   Supported for `readFromStream`, Notification for `readFromStreamGpNotification` and the link of a proxy.
-- Hmac (u_hmac_sha256.c, u_sha256.c): `U_HmacSha256` in its work buffer. The SHA-256 function, of
--   OpenSSL or the vendored one, is a parameter.
--
-- The parts build on memory and do not call each other, but for SstreamEx, Downloader and Iso8601,
-- which work on the record of Sstream, the ZigBee parts, which share DataStream and the addresses of
-- BindingTable, and the node descriptor, which uses BufferHelper. All loops are structural recursion over what they read or
-- over the number of rounds that are left.
--
-- Not modelled: the rest of the C++ and Qt part (ZCL attributes and clusters, nodes, controllers), sockets, files, threads and
-- dynamic libraries (system calls), and the copies of other projects' cryptography.
pub mod Aps
pub mod Arena
pub mod AtomTable
pub mod Base
pub mod BindingTable
pub mod BufferHelper
pub mod BufferPool
pub mod ByteStream
pub mod DataStream
pub mod Downloader
pub mod GreenPower
pub mod Hmac
pub mod Iso8601
pub mod Sstream
pub mod SstreamEx
pub mod Timer
pub mod Url
pub mod ZclFrame
pub mod ZdpDescriptors
