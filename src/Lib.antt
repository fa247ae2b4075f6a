-- ===== src/Lib.antt =====
-- FileSender ByteSpark: the core of the native library, modelled and verified.
--
-- The program sends files between two devices on a local network. Its native core
-- (native/src, native/include) parses the frames of protocol version 1, follows the negotiation
-- of a
-- connection, decides which path an incoming file may get, writes the file in a transaction, and
-- runs the receiving side of a transfer over all of these.
--
-- Storage (native/src/storage, native/include/xnn_transfer/core/storage/storage.hpp):
--   * Storage/Types: the result types, and the abstract classes `PlatformBackend` and
--     `StreamingIntegrityVerifier` as records of operations. Both are parameters.
--   * Storage/Budget: `TemporaryBudget`. Storage/Cleanup and Storage/Transaction:
--     `ReceiveTransaction`, with `Begin`, `Write`, `SealAndCommit` and `Abort` as `begin`, `write`,
--     `seal_and_commit` and `abort`. A method holds the mutex of its transaction to the end, so
--     a call
--     is one step on the transaction, the shared budget and the file system (`System`).
--   * Storage/Transaction/Calls has histories of one transaction, Storage/Pool the interleaved
--   calls
--     of many transactions on one budget.
--   * Storage/Component, Storage/Codepoints and Storage/Path: path_validator.cpp. The library
--     utf8proc is the parameter `Utf8proc`. Storage/Path/Device describes the device names of Windows
--     without the test of the source.
--
-- Protocol (native/src/protocol/v1_parser.cpp, native/include/xnn_transfer/protocol/v1_parser.hpp):
--   * Protocol/Types, Protocol/Schema: types, limits, and the schema of each message.
--   * Protocol/Bytes, Protocol/Utf8, Protocol/Tlv, Protocol/Frame: `ReadU16` to `ReadU64`,
--     `IsValidUtf8`, `ParseTlvs`, `ParseFrameHeader`, `ParseFrameEnvelope`, `ParseFrameBody` and
--     `ParseFrame`. The encoders of native/src/transfer/frame_codec.cpp give the bytes that
--     `u16_bytes`, `field_bytes` and `frame_bytes` write.
--   * Protocol/Transcript: `TranscriptParser`. A handler takes the state and returns the new
--   one with
--     its error code. Transcript/Moves and Transcript/Steps have what an accepted frame does to the
--     agreement of the two sides, Transcript/History which frames of a run made it.
--
-- Transfer (native/src/transfer, native/include/xnn_transfer/core/transfer/transfer.hpp):
--   * Transfer/Credit is `ConnectionCreditBudget`, the bytes and the streams that all transfers of
--     one connection share; Transfer/Sequence is `ConnectionMessageSequence`, its message ids.
--   * Transfer/Types, Transfer/Errors, Transfer/Limits, Transfer/Builder, Transfer/Encode and
--     Transfer/Inbound: the rest of frame_codec.cpp: types and error tables, `ValidateContext`
--     and the
--     deadlines, `BodyBuilder`, `EncodeFrame` and the encoders of single messages,
--     `ParseInbound` and
--     `ParseBody`.
--   * Transfer/Receiver: receiver.cpp. `Receiver` has the members of `Implementation`,
--   `Endpoint` adds
--     the objects that it points to: message ids, credit, temporary budget, file system and
--     integrity
--     provider. A method takes the endpoint and returns the new one with its `TransferUpdate`.
--     Receiver/Endings and Receiver/Closing are the members of `Implementation`; Receiver/Offer,
--     Receiver/Content and Receiver/Frames are `ReceiveFrame` (`receive_frame`); Receiver/Calls is
--     `Create`, `NextOutbound` and `ConfirmChunkAckWritten`; Receiver/Decisions is `Accept`,
--     `Reject`,
--     `Advance`, `Cancel` and `Shutdown`.
--   * Receiver/Run has histories of a receiver: its methods in any order, with what the other
--     transfers of the connection do in between. Receiver/Share is what a receiver has of the shared
--     credit budget. Receiver/Stage and Receiver/Honest state the
--     invariant, and the files from
--     Receiver/Ends to Receiver/Decides show that each part keeps it, for any fact about the
--     transaction that its methods keep (`Carried`) and any about the share (`Lends`). Receiver/Facts gives the two that are
--     used, and
--     Receiver/Outcomes and Receiver/Ended what follows. Transfer/Encoding is about `EncodeFrame`.
--
-- The parts meet in the receiver: a frame that the parser accepts carries a path that is validated
-- and bytes that a receive transaction writes. What the session authority answers is an argument
-- of each call (`Authority`); `TransferIntegrityProvider` is a parameter.
--
-- Integers are natural numbers; the casts and the wrap-around of the source are written out (`%
-- u8_mod`,
-- `add64`, `sub64`). The texts of error details are left out. `Contains` is a binary search in a
-- sorted array, here the search of the list.
--
-- Loops over a span run on fuel: the length of the text in `components_loop`, `strict_utf8_loop`,
-- `codepoints_loop`, `utf8_loop` and `tlv_loop`, the sum of both lengths in `intersect`. Each round
-- takes at least one byte or one element, so the fuel does not run out; for `tlv_loop`,
-- `utf8_loop`,
-- `components_loop` and `intersect` the theorems below depend on it.
--
-- Not modelled: the file system backends, discovery, sessions and pairing, security, the sender of
-- a transfer, the C interface and the desktop application; running out of memory; and the mutexes,
-- which make each method one step.
pub mod Prelude
pub mod Storage
pub mod Protocol
pub mod Transfer
