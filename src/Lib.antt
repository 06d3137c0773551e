-- ===== src/Lib.antt =====
-- Verification library of blobio, a key/value protocol whose keys are digests of immutable blobs.
--
-- bio4d/ is the server. It parses one request from each client, hands it to a digest module, answers
-- with ok and no, and logs a blob request record (brr) of each request. The verb wrap freezes the log
-- and answers with a set of udigs (algorithm:digest), and the verb roll forgets the logs of a set.
-- cli/ holds the client and the tools that check and append records. sync/pgsql/ is the type of a udig
-- in PostgreSQL.
--
-- Files, and what each models:
--   Base            shared names, Boolean tests, byte strings, the character classes of the C locale
--   BlobSet         bio4d/blob_set.c: the hash set of blobs (alloc, exists, put, for_each)
--   UdigSet         bio4d/brr.c: blob2udig_set, the parser of a rolled set, one step for each byte
--   Request         bio4d/bio4d.c: request(), the lexical parser of a client's request, one step for
--                   each byte of a chunk, and the loop over the chunks that the network delivers
--   Dispatch        bio4d/bio4d.c: bio4d(), from a parsed request to the handler of its verb
--   Chat            bio4d/req.c: req_write, add_chat_history, write_ok, write_no, read_reply
--   Verbs           bio4d/bio4d.c: cat, get, eat, put, take and give, on the callbacks of a digest
--                   module, which is a record of functions
--   ExitStatus      bio4d/bio4d.c: the class of the chat in the exit status, bump_no, and the
--                   totals of reap_request (ExitStatus.Reap)
--   Modules         bio4d/module.c: module_get, and the order that module_boot tests
--   Wrap            bio4d/brr.c: extract_wrap_udig, roll, put_wrap_set and wrap, on the list of the
--                   entries of spool/wrap/; a digest module's callbacks, module_get and the strcat of
--                   libjmscott are parameters
--   Brr             bio4d/brr.c: the mask and the wall duration of brr_send, beside the duration of
--                   cli/blobio/brr.c, the text of a record (Brr.Format), and the messages to the logger
--                   with its loop, bio4d/io.c and brr_logger (Brr.Messages)
--   Frisk           cli/bio-frisk-brr.c: the primitives (Scan), the scanners of the seven fields
--                   (Fields), and main with fgets and its exits (Stream)
--   Udig            sync/pgsql/contrib/udig/udig.c: the text format of the udig type of PostgreSQL, the
--                   comparisons (Udig.Compare), the casts and queries (Udig.Query), the digest types
--                   (Udig.Digests) and the seventy operators (Udig.Operators, Udig.CrossOperators)
--   FsSha           bio4d/fs_sha.c: the digest module sha on a file system that is an association list
--                   (FsSha.Disk), with its paths and decode_hex of bio4d/req.c (FsSha.Paths) and
--                   fs_sha_copy (FsSha.Copy); the operations are over a Storage (FsSha.Hashes), the
--                   constants and the digest of a module
--   FsRipe          bio4d/fs_bc160.c and fs_btc20.c: the digest modules bc160 and btc20, FsSha on their
--                   own Storage, with trust_fs; FsRipe.Bc160 and FsRipe.Btc20 name their callbacks
--   Client          cli/blobio/bio4.c: the request line that the client writes and the replies it reads,
--                   and the verbs get, put, take, give, eat, roll and wrap (Client.Session), with chew
--                   and sha_empty of cli/blobio/sha.c; cli/blobio/brr.c: brr_mask2ascii (Client.Masks).
--                   Client.Fs is cli/blobio/fs.c, the service fs: get, put, take, give and eat on the
--                   files of a server; Client.Digests and Client.Ripe are the digest modules of the
--                   client, cli/blobio/sha.c, bc160.c and btc20.c; Client.Command is the command line,
--                   parse_argv, xref_argv and the call that main makes, cli/blobio/blobio.c
--   Qarg            cli/blobio/qarg.c: the query arguments of $BLOBIO_SERVICE
--   Tests           runs on concrete inputs, and the theorems applied to them
--
-- A C string is the list of its bytes before the null; a byte is a number below 256. A failing malloc
-- and the panic that follows it are not modelled, nor are the messages of errors. The state of a
-- request that the handlers share (chat_history, the bytes sent, request_exit_status) is the record
-- Chat.Request, passed on explicitly; what the network does is a list of the results of the calls to
-- come. Frisk models a run without --trace; jmscott_frisk_udig of libjmscott is a parameter. The
-- counters of the server are ui64 and are taken as numbers without bound. The loop of Frisk.Stream runs
-- on fuel, one more than the bytes of the input, since each fgets consumes one; that of
-- brr_logger on one more than the bytes of the pipe, since each message consumes one; the loop of Qarg
-- takes as many rounds as the query has characters, since each argument consumes one.
--
-- In Udig an ereport of level ERROR or PANIC is a result; hash_any of PostgreSQL is a parameter, and the
-- sign of memcmp is an ordering. In FsSha and FsRipe the digests of OpenSSL are a record of a context and
-- three functions, with what OpenSSL documents of them as the record IsHash; a local call of the system
-- that fails is not modelled, nor is what arbor does besides renaming. In FsRipe a write behind an array
-- is a result, since what follows it is not defined.
--
-- In Brr the logger reads what the requests have written to its pipe, one message behind the other, since
-- a write to a pipe is atomic. io_msg_write sends the length of a record modulo 256, and so many of its
-- bytes. The freezing of the log by answer_wrap moves the log away; the reply fifo is not modelled.
--
-- In Client.Fs the functions strcat and send_file of libjmscott are parameters; two paths name one file
-- where they differ in a run of slashes; a hard link is a second entry with the same bytes; the calls of
-- the system fail where a file is there, is not there or is on another device, and nowhere else. In
-- Client.Command the value of --service is a name where it is taken, and that of --io-timeout a number.
--
-- A session of the client is two lists of what the next reads of the server and of the input give, and
-- one of which writes work; a write that fails is taken to write nothing.
--
-- Not modelled: the processes and the network of bio4d/; of the client cli/blobio/ the connection,
-- open, close, wrap and roll of the service fs, the parse of the value of --service and the checks of a
-- record; the flow language and the web pages.
pub mod Base
pub mod BlobSet
pub mod UdigSet
pub mod Request
pub mod Chat
pub mod Verbs
pub mod ExitStatus
pub mod Dispatch
pub mod Brr
pub mod Modules
pub mod Wrap
pub mod Frisk
pub mod Udig
pub mod FsSha
pub mod FsRipe
pub mod Qarg
pub mod Client
mod Tests
