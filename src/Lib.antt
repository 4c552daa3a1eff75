-- ===== src/Lib.antt =====
-- Titlani: a Misfin(C) mail server and client. This library models the Python package
-- src/titlani and proves what makes its parts correct.
--
-- A message is a gemmail: three metadata lines (senders, recipients, timestamps) and a body. It
-- travels in a request, whose header line names a mailbox, a host and a length; the server reads the
-- request from a connection, checks the mailbox, the block list and the mailing list rules, and
-- stores the message as a file. Files of a mailbox are then indexed, tagged and read over GMAP.
--
-- Texts and bytes. A `str` is the list of its code points and a `bytes` the list of its bytes (Str).
-- Texts hold no surrogates; the encoder is written for such texts, and the decoder accepts what
-- CPython's strict decoder accepts. White space, line boundaries and decimal digits are those of
-- Unicode, as CPython has them.
--
-- Files.
--   Base: shared names, lists, results, integers.
--   Str: `str` and `bytes` (strip, split, join, UTF-8, int, str of a number) and their laws.
--   Protocol: src/titlani/protocol (constants, status, response, request). `ValueError` is the type
--     Protocol.Errors, one constructor for each message; `overflow` is the `OverflowError` that the
--     conversion of a date to UTC raises.
--   Content: src/titlani/content, the gemmail format and the ids of messages. Dates are a parameter
--     (Content.Time): their parser is the standard library's and depends on the local time zone.
--   Runtime: what is taken from the interpreter and from third-party libraries (certificates,
--     the case tables of Unicode, the clock's formats, a hash), as one parameter.
--   Identity: src/titlani/identity/certificate.py, what is read from a certificate.
--   Server: src/titlani/server. Subscription is the table of tokens, Lists the file of subscribers,
--     State the mailboxes of the handler, Commands the subscription commands, Delivery the checks,
--     the preparation and the storing of a message, Connection the protocol object that reads a
--     request (its calls of the transport and its tasks are lists), and Handler `handle_message`,
--     which awaits nothing and so runs as one step. The clock and the random token are arguments; a
--     task that is started is recorded, its effects (messages that the server sends) are not
--     modelled, nor are errors of the file system while it writes.
--   Gmap: src/titlani/gmap. Mailbox is the index of a mailbox, a dictionary from message ids to tags
--     and file names beside the files themselves, and the handlers of messages and tags; Index is
--     its file and how it follows the files, Request the request line and the patterns of the routes,
--     Routes the authentication and the routes, and Connection the protocol object. The
--     exceptions that leave `GmapMailbox` for an index that cannot be read or an entry with no file
--     name are values; other errors of the file system are not modelled.
--   Verification: src/titlani/verification. Cache is the two tables with the SQL statements on them,
--     Probe, Spki and Combined are the verifiers, and Wrapper is the handler that verifies the sender
--     of a message before it calls Server.Handler. What the network brings in one verification, and
--     the clock, are arguments; Probe.Network joins the probe to the client that it opens.
--   Client: src/titlani/client. The module is the session of client/session.py: what a connection
--     brings is given by a function of all that the client did before, and the database of trusted
--     certificates, tlacacoca's, is a parameter; Protocol is client/protocol.py.
--   Encryption: src/titlani/encryption/manager.py, over the cryptography library as a parameter. The
--     handler of the server takes an encryption as a function.
--   Tests: the theorems at concrete inputs, and runs of the definitions.
--
-- No definition needs fuel: the loops of the modelled code run along a list, but for the client's,
-- which run along the retries that are left and the redirects that are left.
--
-- Not modelled: the making of keys and certificates, the start of the server and the command line.
-- Two names of a mailbox directory are two mailboxes: names that symbolic links make one directory,
-- where a message to one changes the other, are left out.
pub mod Base
pub mod Str
pub mod Protocol
pub mod Content
pub mod Verification
pub mod Runtime
pub mod Identity
pub mod Server
pub mod Client
pub mod Encryption
pub mod Gmap
pub mod Tests
