-- ===== src/Lib.antt =====
-- notifykit: notifications with routing, retries and an in-memory queue
-- This library models the package notify, the webhook and email targets, the templates and the header
-- names of the repository.
-- A notification reaches the targets of its receivers either synchronously, by Send, or through a
-- Manager, which queues it for its workers. Both resolve the receivers in the same way and hand them
-- to the delivery engine, which calls each target through the retry loop; the loop asks the receiver's
-- policy, and the policy reads the marks that errors carry. The webhook target and the email target
-- implement a target: they set those marks.
--
-- The files, and the code that each is about:
--   Base, Base/Tests, Base/Int, Base/Lists   library names, tests on numbers, Go's int64, lists
--   Text                  Go strings as lists of bytes, with the order of cmp.Compare
--   Notify/Error          notify/error.go and DeliveryResult of notify/types.go: error chains
--   Notify/Error/Marks    Permanent, Transport and their tests, with laws in Error/MarkLaws
--   Notify/Policy         notify/retry_policy.go, with laws in Policy/Laws
--   Notify/Backoff        retryDelay and below of notify/retry.go: Backoff/Closed, Backoff/Bounds
--   Notify/Retry          withRetry and waitForRetry of notify/retry.go. Retry/Rule is the rule of
--                         proof for the loop, with which Retry/Bounds, Retry/Outcomes and
--                         Retry/Outage are proved; Retry/Giving is about when it gives up
--   Notify/Receivers      receivers and routing of notify/send.go and notify/types.go; the builders of
--                         notify/receiver.go in Receivers/Build. Receivers/Normal is about the
--                         normalization and the validation, Receivers/Resolve and Receivers/Order
--                         about resolveReceivers
--   Notify/Delivery       notify/delivery.go; Delivery/Report states its outcome as a list
--   Notify/Send           Send of notify/send.go, with its contract in Send/Laws
--   Header                internal/header/header.go, with its law in Header/Names; the decoding of
--                         strings that it needs is in Text/Runes
--   Targets/Webhook       targets/webhook/webhook.go: reading and cutting of a response in
--                         Webhook/Body, Retry-After in Webhook/RetryAfter, redaction in
--                         Webhook/Errors, Render, post and SendResult in Webhook/Sending, and what
--                         their outcome means in Webhook/Outcome. The options and Validate are in
--                         Webhook/Config, the lines that are logged in Webhook/Logging,
--                         with the type LogResponse in Webhook/LogMode. Webhook/Retries
--                         is about a target under withRetry, Webhook/Secrets about the texts of
--                         errors, and Webhook/Headers about what WithHeaders sets
--   Targets/Email         targets/email: Config is the target with its options, and Mailbox the
--                         addresses and the validation, with its law in Mailbox/Valid. Message is
--                         buildEmail: Message/Body is about the body, Message/Lines a mail reader,
--                         Message/RoundTrip what it gets. Classify is classifySMTPError, with its law
--                         in Classify/Marks. Wire has the calls that a session makes, Proxy is
--                         proxy.go, and Session is sendSMTP: Wire/Runs says what it means to make the
--                         calls of a plan, Session/Plan has the plan, and Session/Runs,
--                         Session/Delivery and Session/Credentials are about the calls made. Sending
--                         is SendResult, and Sending/Outcome the ways in which it ends; Email/Retries
--                         is about a target under withRetry
--   Templates             templates/templates.go and templates/html.go; Templates/Sources is about the
--                         sources of templates and the options of the parsers, Templates/Loading
--                         about the loaders, and Templates/Names about the names of the built-in
--                         templates. Templates/Strings has LoadSource and the functions for
--                         StringTemplate
--   Notify/Result         the results (T, error) of a function, and chains of them
--   Text/Strings          what the code uses of the packages strings, strconv, sort and net
--   Text/Maps             Go maps from strings
--   Text/Visible          TrimSpace and TrimSuffix where there is nothing or just the suffix to trim
--   Notify/Calls          what Enqueue and Start of notify/manager.go refuse before the lock, Wait, and
--                         Receivers
--   Notify/Dispatcher     NewManager and its options of notify/manager.go, and the delivery of a
--                         queued notification of notify/dispatcher.go. Dispatcher/Worker is start
--                         and dispatch of one worker, and Dispatcher/Serial compares it with Send
--   Notify/Error/Texts    the Error methods of all packages; Error/Private is about what they hide
--   Heap                  Go maps that are shared, and maps.Clone
--   Notify/Delivery/Shared    notify/delivery.go with custom data as shared maps: Shared/Isolation is
--                         about targets that write into it, Shared/Reading about those that read it.
--                         Notify/Retry/Invariant is what withRetry keeps if its function does
--   Notify/Dispatcher/Completions    what becomes of each queued notification, with what
--                         Notify/Manager/Content says of the notifications in a manager
--   Targets/Sharing       NewFromTarget and WithHeaders of both targets with shared header maps, and
--                         Sharing/Refines what they keep; Email/Config/Sharing and Webhook/Sharing are
--                         the two targets
--   Targets/Channels      the email and the webhook targets as the targets of the delivery engine, with
--                         Payload.Data of notify/types.go. Channels/Answered and Channels/Mailed say
--                         what a SendResult without an error means, Channels/Accepted a Send without
--                         one, and Channels/Queued a completion without one
--   Notify/Store          notify/store.go
--   Notify/Manager        the locked sections of notify/manager.go and notify/dispatcher.go. The
--                         steps of all goroutines are in Manager/Steps, the invariants in
--                         Manager/Control (flags, slots and counts) and Manager/Ledger (each queue
--                         ID), and what follows in Manager/Safety, Manager/Progress and
--                         Manager/Termination
--   Tests/*               the theorems at concrete inputs
--
-- How the code is represented:
--   - An error is a value of the type Error, and a nil error is none. A nil pointer in a list or a map
--     is none, and what the code does with it is written out: a method call on a nil target is the
--     result none of Delivery.dispatch.
--   - An int and a time.Duration are integers of the type ℤ, wrapped to 64 bits where the code could
--     leave the range.
--   - A Go map is an association list in the order in which it is ranged over.
--   - What a target, a timer, a context or the random source does is given by the records Targets and
--     Runtime over a type of worlds, which every call takes and gives back. Nothing is assumed of them
--     but in the named hypotheses of a theorem.
--   - The loop of withRetry runs on the number of rounds left, which starts at maxAttempts as in the
--     code; the loop of retryBackoff likewise. strconv.Itoa has fuel for twenty digits, and an int64
--     has at most nineteen. There is no other fuel.
--   - A step of the manager is one critical section or one channel operation. Worker, caller and
--     finish interleave freely. In the code a worker reads the store, deletes and frees its slot in
--     three operations; nobody else touches that entry, and they are one step, and so is one round of
--     the loop of finish. A completion is recorded whether or not a callback is set. That uuid.NewV7
--     gives a new ID is the premise of the step reserve. The error of a completion is any error in the
--     steps; Notify/Dispatcher says which one the delivery gives.
--
-- A Go map is a value where it is not said otherwise: the receivers of a manager or of Send, with
-- their custom data, are those of the call. Where the code clones a map lest another part of the
-- program writes into it, the map is an address in a Heap: that is done for the custom data that
-- dispatchReceiver hands to its targets, and for the header maps of NewFromTarget.
--
-- A response body is its bytes and the error that a Read gives after them; net/http, the
-- parsers of URLs and dates and encoding/json are the record Http.
--
-- An email session keeps the list of the calls that it has made on connections and on the SMTP
-- client. The record Peer answers them, from all the calls made so far, so that it stands for
-- the network, the servers, and a context that ends between two calls; when the context ends
-- in a call, closeConnOnContextDone makes that call fail, which is one of the answers. Closing
-- the SMTP client closes its connection, so that both deferred calls are one. The records Mail
-- and Proxies are what the code uses of net/mail, mime, http.ProxyFromEnvironment and base64.
-- The template packages and the disk are the records Engine, FileSystem and Paths.
--
-- strings.ToLower and strings.EqualFold are those of ASCII text: the first is applied to field
-- names that were accepted before, the second to the scheme of a URL, which net/url accepts
-- only in ASCII.
--
-- The text of an error is made from a format and the texts that its verbs format. What fmt, errors,
-- context and time make of them is the record Formats.
--
-- Not modelled: log lines, but for those of the webhook target about a response and those of a worker,
-- and the fields for a logger; the sharing of cloned slices, and of the maps that normalizeReceivers
-- clones; the duration in the text of a result; the goroutine of closeConnOnContextDone; the methods
-- of a nil OperationError or ProxyError, which the code does not make; and the sample programs.
pub mod Base
pub mod Heap
pub mod Text
pub mod Header
pub mod Notify
pub mod Targets
pub mod Templates
pub mod Tests
