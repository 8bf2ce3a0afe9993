-- ===== src/Lib.antt =====
-- ashd, an HTTP server made of small programs that pass requests to one another over sockets: a
-- model of its core in C and the theorems about it.
--
-- The parts, and how they work together. htparser (src/htparser.c) reads requests from clients,
-- removes the headers that only ashd may set, and sends each request as one datagram, with a
-- descriptor for the body, to its root handler. A multiplexer such as patplex (src/patplex.c)
-- receives the datagram, picks a child by regular expressions, rewrites the rest string and the
-- headers, and sends the request on in the same form. The last handler writes a response, which
-- htparser reads and passes to the client. lib/req.c holds the request and all of its formats,
-- lib/resp.c the text of responses, lib/utils.c the tree and the helpers.
--
-- Base: the shared names and lemmas; Base/Text has the C strings and <ctype.h>. A byte is a
-- number, a C string the bytes in front of its NUL, and a pointer that may be NULL an Option.
--
-- Req, lib/req.c and lib/req.h: Head has `struct hthead` and getheader, headappheader,
-- headpreheader, headrmheader and replrest; Parse has parseheaders and parseresponse, with their
-- twins on `bufio`, as state machines on the bytes; Write has writeresp and writerespb; Wire has
-- sendreq2 and recvreq; Unquote has unquoteurl.
--
-- Resp, lib/resp.c: Quote has urlquote and htmlquote; Status has httpdefstatus.
--
-- Utils, lib/utils.c: Hex has hexdigit; Tokenize has tokenize; Base64 has base64encode and
-- base64decode; Btree has bbtreeput, bbtreedel and btreeget with their rotations on values, each
-- node with its stored height. The order is an argument, and ptrcmp is one such order.
--
-- HtParser, src/htparser.c: Trimx has trimx; Request has parsereq, hasheader and canonreq; Chunks
-- has recvchunks and passchunks; Serve has http10keep and the branches of serve that write a
-- response, with the number of Content-Length as atoo reads it; Connid has connid. A stream is the
-- list of its bytes up to EOF.
--
-- Patplex, src/patplex.c: Offsets has qoffsets; Match has findmatch, its rules and its patterns;
-- Exec has exprestpat and execmatch; Config has parsepattern, over the lines that getcfline gives;
-- Serve has getchild and one round of serve. What regcomp makes and regexec are parameters;
-- IsRegexec says what is documented of the offsets that regexec reports, and Tests/PatplexTests
-- has a regexec that keeps it.
--
-- RateQueue, src/ratequeue.c: Bucket has the bucket of one source with tickbucket, updbtime,
-- checkbtime and serve, and a run of the source as a list of events with their times; Timers has
-- the heap `timeheap` with thraise, thlower and thadjust. The doubles of the source are numbers in
-- fixed point, so that a rounding is a division of numbers; the requests are any type.
--
-- Cf, lib/cf.c: Lines has what parsefile reads of a line, and Parse the levels of the indentation,
-- the includes and the lines of words that getcfline gives, in the order in which the parser
-- yields them. Whether the reader expects a block behind a line, and the file system, are
-- parameters. Child has stdhandle and stdmerge over what the system answers.
--
-- Fcgi, src/callfcgi.c: Record has sendrec and recvrec, Params the encoding of the variables, Env
-- the variables that mkcgienv makes of a request, Request what serve writes for it, and Outplex
-- the thread that takes what the server sends apart into its streams.
--
-- Bufio, lib/bufio.c: the buffered streams over any source and sink, which are `Ops` on a state of
-- any type. The memory of a buffer is the list of its first `d` bytes and its size, which sizebuf
-- of lib/utils.c doubles. Read has the reading half, Write the writing half, Copy biocopysome and
-- biocopybuf. IsSource and IsSink say what read and write promise: bytes in order, no more than was
-- asked for, none only at the end, and one at least of a write that does not fail.
--
-- Accesslog, src/accesslog.c: the quoting, the items and the format of a line of the log, over a
-- `Clock` that prints times as strftime and printf do; Pass has passdata, which copies from one
-- buffered stream to another.
--
-- Dirplex, src/dirplex/dirplex.c and src/dirplex/conf.c: Match has getconfigs, findchild and
-- findmatch; Walk the walk of checkpath from the directory that dirplex is started in along the
-- elements of the rest string, with captures, reparses, indices and the check of the access; Handle
-- has handle. The file system, fnmatch and what getconfig reads are a `World`; Inside is the
-- relation of the directories that the walk may come to.
--
-- Fuel and bounds. recvchunks runs on fuel, one more than the bytes of the stream; every round
-- reads a byte at least, so it is enough. thraise and thlower run on fuel too, one more than
-- the place and than the entries, and end within it; sendrec on one more than the bytes of the
-- data, which it cuts by 65535; parsefile on the depth to which files may include one another;
-- bioflush and biowrite on one more than the bytes to be written, biogetc on two, since a read
-- gives a byte at least; logreq on the length of the format; outplex on one more than the bytes
-- that the server sends. checkpath of dirplex takes its fuel as an argument, and without a
-- reparse the length of the rest string and one is enough. passdata takes its fuel as an
-- argument, and is proved to end where this is more than `work`, which every round makes less.
-- The limits of the source are kept: 65536 bytes of headers and of URL, 128 of method and of
-- version. A size of a chunk is a 64-bit `ssize_t` that wraps. The priority of a pattern is an
-- `int` that is stored as its distance from INT_MIN.
--
-- Memory that is freed is modelled where the code may use it again: the strings of findmatch in
-- src/patplex.c, of which the model records whether the match has them, and the data of recvrec in
-- src/callfcgi.c. The run stops there with an outcome of its own. parsefile stops where it would
-- write outside of its 80 levels of indentation.
--
-- Not modelled: memory that is freed elsewhere, the cooperative threads of lib/mt.c and
-- lib/mtio*.c, processes and descriptors (lib/proc.c), logging, the TLS ports, bioclose and
-- bioprintf, what lib/cf.c reads of a child and the arguments that it expands, the hash table and
-- the options of the rate limiter, the file server, the other CGI clients, readconfig of dirplex,
-- the loops of accesslog, and the first half of serve in src/htparser.c. Where a part writes to a
-- stdio stream, but for outplex, the stream takes all of it.
pub mod Bufio
pub mod Accesslog
pub mod Dirplex
pub mod Fcgi
pub mod Cf
pub mod Base
pub mod Utils
pub mod Req
pub mod Resp
pub mod HtParser
pub mod Patplex
pub mod RateQueue
pub mod Tests
