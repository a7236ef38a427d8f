-- ===== src/Lib.antt =====
-- A verification library of the OpenTDF web SDK (lib/): the container, the segments and the keys of a
-- TDF, from the bytes up.
--
-- A TDF is a zip file with a manifest and a payload. The payload is a sequence of segments, each
-- encrypted on its own and signed in the manifest. A reader finds the entries through the central
-- directory, gets the key from the shares of the key access servers, lays the segments out as chunks,
-- and a scheduler fetches batches of them ahead of the consumer; each batch is cut into its chunks,
-- whose signatures are checked before they are decrypted into the mailboxes that the stream awaits.
--
-- Parts, their files and the code:
--   Base       Names and lemmas that the others share. Base/Outcome has the SDK's errors
--              (lib/src/errors.ts) and the results of code that may throw.
--   Bytes      Little-endian words and copies of lib/tdf3/src/utils/index.ts, writeUInt64LE of
--              zip-writer.ts and readUInt64LE of zip-reader.ts. A typed array is the list of its bytes.
--   Utf8       utf8Slice and decodeCodePointsArray of lib/tdf3/src/utils/index.ts.
--   Encodings  lib/src/encodings/hex.ts (Hex), and encodeArrayBuffer, decodeArrayBuffer and lookup of
--              lib/src/encodings/base64.ts (Base64).
--   Zip        lib/tdf3/src/utils/zip-writer.ts (Writer, Dos) and zip-reader.ts (Reader, CodePage), with the proofs
--              in Records, RoundTrip, Headers, Directory and ExtraFields.
--   Crc32      lib/tdf3/src/utils/buffer-crc32.ts.
--   KeySplit   lib/tdf3/src/utils/keysplit.ts.
--   Kas        OriginAllowList and tryPromisesUntilFirstSuccess of lib/src/access.ts,
--              splitLookupTableFactory of lib/tdf3/src/tdf.ts and helpers of lib/src/utils.ts; unwrapKey of
--              lib/tdf3/src/tdf.ts over the pools (Unwrap) and the key that it reconstructs (Shares, Reconstruct).
--   Granter    plan and simplify of lib/src/policy/granter.ts and effectiveKasKeys of lib/src/policy/kas-keys.ts (Model, Plan),
--              the conjunction and its splits (Records, Conjunction, Last, Splits) and the refusals (Errors).
--   Pool       allPool and anyPool of lib/src/concurrency.ts.
--   Cipher     lib/tdf3/src/ciphers/aes-gcm-cipher.ts.
--   Segments   decryptStreamFrom's chunks, fetchAndDecryptChunkSlice, sliceAndDecrypt, decryptChunk and
--              updateChunkQueue (Queue) of lib/tdf3/src/tdf.ts, and its check of the root signature (Root).
--   Writer     writeStream and its nested functions, of the same file: the model is in State and Stream, the segments of a content
--              in Cut, the stream against writing all at once in Emit and Refinement, the byte count in
--              Counted and Bounds, the zip file in Chains, Container, Stored and Layout, and its segments read
--              back in Steps, Track, ReadBack and RoundTrip, and the root signature in Root.
--   Scheduler  createBoundedSegmentScheduler and the settings it takes, of the same file.
--   Reader     The stream that decryptStreamFrom returns, over the bounded scheduler: its pull and what settles its
--              chunks as a step relation, what it holds (Held) and its bound and order (Bounded).
--   Rewrap     upgradeRewrapResponseV1 and getRequiredObligationFQNs of lib/src/utils.ts (Added, Obligations), and
--              handleRpcRewrapErrorString of lib/src/access/access-rpc.ts with the part of tryKasRewrap of lib/tdf3/src/tdf.ts
--              from its response on (Answer, Text, Decided).
--   Jwt        signJwt and verifyJwt of lib/tdf3/src/crypto/jwt.ts, the encoding of their parts (Base64Url), a token made
--              and verified (RoundTrip) and what an accepted token was checked for (Sound).
--   Assertions CreateAssertion, sign, hash and verify of lib/tdf3/src/assertions.ts, the two ends against each other
--              (Verified), what an assertion is bound to (Binding), and a token with a key of its own (Embedded).
--   Tokens     The providers of lib/src/auth/token-providers.ts with lib/src/auth/tokenExpiry.ts, their calls and
--              requests in any order (Runs), and when they answer from the cache (Fresh).
--   Seekable   fromBuffer, getRemoteChunk (Remote), fromUrl and the stream of a chunker (Stream) of lib/src/seekable.ts.
--   Discovery  lib/src/policy/discovery.ts, its listings (Pages), its expressions (Names) and validateAttributes
--              (Validate), and fetchKeyAccessServers of lib/src/access/access-rpc.ts (Servers).
--
-- A function of the source is the function of the same name in snake case; a method takes the fields of
-- its object as its first arguments. A number is a native natural; bit operations are written as the
-- arithmetic that they are on the widths at hand. What throws returns a Result. A promise is its outcome;
-- where an order of events matters it is explicit: the scheduler is a step relation, and the winners of
-- a pool's races are given from outside. The crypto service, the source of the file's bytes, the random
-- bytes, the clock, the replies of servers, jose, JSON.parse, JSON.stringify, atob and btoa are parameters.
--
-- Loops that are not structural run on fuel: utf8_loop on the number of bytes, since a round takes one at
-- least; decode_chunks likewise; slice_loop on that number and one more; cd_loop on the number of positions;
-- queue_loop on the number of chunks; rstrip_loop and lines_loop on the length of the text;
-- pump_loop on the number of concurrent batches, since each round takes one of their places;
-- servers_loop on one more than the number of servers, for pages of a positive length.
--
-- The writer's `cut` runs on the number of bytes and one more, since a segment has one at least.
--
-- Not modelled: the rewrap request to one key server and its response, the interceptors and the older token
-- classes, the sources that are streams of the platform, and the client's builders; the platform's cryptography, the
-- vendored jose library, generated code, the command line and the web application, which hold no logic
-- of the format.
pub mod Base
pub mod Bytes
pub mod Encodings
pub mod Utf8
pub mod Zip
pub mod Crc32
pub mod Pool
pub mod Kas
pub mod Cipher
pub mod Segments
pub mod KeySplit
pub mod Scheduler
pub mod Writer
pub mod Granter
pub mod Jwt
pub mod Assertions
pub mod Tokens
pub mod Seekable
pub mod Discovery
pub mod Reader
pub mod Rewrap
