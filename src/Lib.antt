-- ===== src/Lib.antt =====
-- ftu sends a file or a directory from one node to another over TCP, in packets. The parts, from the
-- bottom up, and the files that model them:
--
-- - src/encryption (Encrypt, Decrypt, Generate32AESkey): Encryption.antt. AES-GCM is the record `Cipher`
--   with the laws `IsGcm`; the random numbers of the key generator are a function.
-- - src/fsys: Fsys/Disk.antt (File, Open, Close), Fsys/Tree.antt (Directory, Symlink, GetAllFiles,
--   GetAllSymlinks) and Fsys/Scan.antt (GetFile, GetSymlink, GetDir, whose fuel bounds how deep directories
--   stand in each other), with proofs in Fsys/Tree/Preorder, Fsys/Scan/Size, Fsys/Scan/Returns and
--   Fsys/Scan/Depth. A disk is a function from paths to what stands there. `Os` holds the choices of the
--   operating system: which calls fail, and where a path leads when its links are followed.
-- - src/protocol: Protocol/Headers.antt (constants.go, headers.go), Protocol/Packet.antt (packet.go),
--   Protocol/Construct.antt (packetConstruct.go), Protocol/Decode.antt (packetDecode.go), Protocol/Recv.antt
--   (recv.go) and Protocol/Send.antt (send.go). Below them stand the proofs: Protocol/Packet/Framing,
--   Protocol/Recv/Segments, Protocol/Decode/RoundTrip and Malformed, and, across files, Protocol/Delivery,
--   Protocol/Offer, Protocol/Room and Protocol/Pieces.
-- - src/node/node.go, the mainloop of `send` and `disconnect`: Node/State.antt, Node/Sender.antt (what each
--   incoming packet does) and Node/Transfer.antt (what is sent next). `sender_step` is one round. Below
--   Node/Sender stand the proofs on the queue of files: Queue, Accept, Relative and AlreadyHave;
--   below Node/Transfer those on a run: Serving (its states), Heads (the head of the queue), Moves (FILE and
--   pieces), Ends (ENDFILE), Rounds (READY), Files, Links, Leaving (DONE and BYE!), Run, and Pace (how many
--   packets a round writes, with Protocol/Pieces/Paced).
-- - src/main.go and src/node/options.go: Cli.antt, with the validation of the flags in Cli/Validation.
-- - src/node/node.go, `NewNode`, `connect`, `waitForConnection`, `Start` and the beginnings of `send` and
--   `receive`, and src/addr/local.go: Node/Start.antt, which also has `main`. `Net` says which calls into the
--   network succeed. Below stand the proofs on the key (Keys) and on the side that the flags choose (Sides).
-- - src/node/node.go, the mainloop of `receive` and its disconnection: Node/Loop.antt, with Node/Loop/Ends.
--   `receiver_waiting` is that mainloop from where it waits for a packet, behind its check of `stopped`.
-- - src/checksum/checksum.go: Checksum.antt, with its blocks in Checksum/Blocks. sha256 is a function.
-- - src/node/node.go, `receive`: Node/Receiver.antt (the state, offers and FILE) and Node/Receiving.antt (all
--   other packets; `receiver_step` is one round). `answer_step` is the goroutine of an offer from the user's
--   answer on. The proofs on FILE are in Node/Receiving/Arrival, on what a round answers in
--   Node/Receiving/Written and Answering, on links in Node/Receiving/Linking, on an accepted directory in Node/Receiver/Entering, on the pieces of a file
--   in Node/Receiving/Writing and Whole, and Node/Session joins both sides, with the refusal
--   of an offer in Node/Session/Answers, and a whole session in Node/Session/Several and Whole. There
--   `IsRoom` says, file by file along the disks that the files before leave, that the folder of a file can be made and nothing stands in its place, and `stored` is the disk with all of them.
-- - src/node/node.go, both nodes at once: Node/System.antt has the step relation `Step` on a pair of nodes with
--   the packets on their way, where a step is a round of a mainloop, its end, the offer, an answer of the user
--   or an exit. A no that comes when the receiving mainloop has passed its check of `stopped` and waits for a
--   packet is a step of its own kind (`receiver_waits`): the mainloop then takes one more packet, or exits. `Inevitably` says that every order of steps leads somewhere. Below stand the proofs: Turns
--   (who can take a step), Ending, Finishing and Waiting (the disconnections, in any order), Exchange (a packet and its
--   READY), Files, Links, Session (the key and the offer), Starting (either of them first), Deciding (the
--   user's answer), Whole (from the starts on), and Paced, Bounded and Reaches (how many packets are on their
--   way); Node/Start/Serving, Node/Start/Offers and Node/Transfer/Accepting say what
--   the sending node is before and behind ACCEPT.
--
-- Common.antt and its children hold what all of them share. A Go string or slice of bytes is the list of
-- its bytes. A Go function that can fail returns an `Outcome`: a value, an error or a panic. A fourth case,
-- `unfinished`, says that the fuel of a loop ran out: `read_loop` takes a round for each byte and each chunk
-- at most, `receive_packets` one for each packet and one more, `generate_loop` 33 in all,
-- `send_pieces` one for each byte and one more. uint64 values are natural numbers, with their wrap-around
-- written out where the source can reach it. The largest slice that the Go runtime makes is the parameter
-- `max_alloc`.
--
-- A connection is seen from its two ends. `Conn` is the sending end: the bytes written, and whether the
-- peer still takes them (`SendPacket` drops the error if not). The receiving end is the list of chunks
-- that are still to arrive, behind which the connection is closed. Waiting takes no time in the model.
--
-- Pointers to files are positions in a node's list of files, so that a file which stands in the queue
-- twice is one file. A handle is the path at which the file was opened: files that are renamed or removed
-- while they are open are not modelled. Links in a path are followed by `Os.resolve` alone.
--
-- Not modelled: what is printed, with the texts on usage, version and license; what goroutines do to each
-- other within a round of a mainloop, since each round, each offer and each answer is one step; and the
-- parsing of the flags, which is the Go library's.
pub mod Checksum
pub mod Cli
pub mod Common
pub mod Fsys
pub mod Encryption
pub mod Protocol
pub mod Node
mod Examples
