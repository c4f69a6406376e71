-- ===== src/Lib.antt =====
-- HandleWifiCamera-itop4412: the server of a wireless camera. It streams H.264 video to a phone by
-- RTSP and RTP, and takes photographs on command.
--
-- The parts and how they interact:
--   * public.h, public.c: the error codes, their messages and the two reporters. Public/ErrorCode.antt
--     has one constant for each enumerator, Public/Messages.antt the table `error_mesg`, and
--     Public/Report.antt the functions. A call that only reports an error is left out elsewhere.
--   * net_trans.c: sockets over TCP and UDP. NetTrans/Sockets.antt opens them, NetTrans/Send.antt and
--     NetTrans/Recv.antt transfer. The answers of the kernel are a list of replies, one for each call;
--     a run that has used them up still waits (`none`), and no fuel is needed.
--   * rtp.h, rtp.c: `rtp_pthread` takes a NALU from the shared frame buffer and sends it as one packet
--     or as a row of FU-A fragments. Rtp/Packet.antt has the packed structures and their bytes,
--     Rtp/Sender.antt what the loop does with one NALU, Rtp/Thread.antt the thread around it: its set-up,
--     the loop, the clean-up handler. `net` gives the kernel's replies to the next datagram, and a
--     list of turns what each round finds in the frame buffer. Rtp/Receiver.antt is a receiver after
--     RFC 6184, which is no code of the repository, and Rtp/Streaming.antt puts the camera thread's
--     hand-over, the frame buffer and the RTP thread together.
--   * video.h, video.c, rtp.c: the frame buffer between the camera thread and the RTP thread.
--     FrameBuffer.antt has `update_globe_frame_info` and `get_globe_frame_info`; a wait for the
--     condition ends with the buffer as the other thread left it. FrameBuffer/Handoff.antt has the
--     steps of both threads.
--   * rtsp.c: the answers to the RTSP requests. Rtsp/Encode.antt, Rtsp/Search.antt and
--     Rtsp/Handlers.antt. regcomp and regexec, asctime, time and rand are parameters.
--     `encode_loop` runs on fuel: 2 * len + 1 rounds are enough, since each takes six of the 8 * len
--     bits; `pad_loop` needs at most three rounds, since the bit count is even.
--   * video_server.c: VideoServer/Session.antt has the loop over the requests of one connection: the
--     bit mask, the guards, the threads that each branch starts and joins, and the answers sent;
--     VideoServer/Serving.antt has the loop over the clients, and what is released on each way out.
--   * message_queue.c: the System V queues between the processes, in MessageQueue.antt.
--   * cmd_server.c: CmdServer/Commands.antt reads a command and writes an answer, CmdServer/Results.antt
--     reports finished photographs, and CmdServer/Serving.antt is the loop over one client. A command
--     longer than its buffer of 1200 bytes is an end of its own (`overrun`), undefined in C.
--   * photo_send.c: PhotoSend/File.antt reads a file and sends it, PhotoSend/Requests.antt is
--     photo_trans: its start and its loop over the requests. `send_rounds` has photo_size rounds of
--     fuel, and a round sends a byte at least. SharedAddress.antt has the memory with the client's
--     address, which cmd_server writes.
--   * video.c: Video/Device.antt has the calls on the camera, each with one of the driver's answers;
--     Video/Stream.antt the set-up, the reset and the clean-up of the stream, against the lists of
--     their calls in Video/Stream/Scripts.antt; Video/Header.antt and Video/Image.antt the encoder's
--     header and the memory of a picture; Video/Encoder.antt the parameters of the encoder;
--     Video/Snapshot.antt take_pohto; Video/Results.antt the messages about photographs;
--     Video/Thread.antt the loop of video_pthread, and Video/Start.antt what comes before it, for
--     builds with and without DEBUG. The outer loop over the rows of a picture has image_height
--     rounds of fuel, and a round goes 16 rows on.
--   * main.c: Main.antt starts the three processes; CmdServer/Running.antt is cmd_server as a whole, on
--     whose semaphore main waits: its start, and its loop over the clients. One run of main is one
--     process: the parent, or the child behind the fork that answered 0; Main/Waiting.antt has the
--     parent and its child cmd_server together.
--
-- Numbers are natural; those of a fixed width have their wrap-around written out. Bytes are numbers
-- below 256 and C strings lists of bytes without the closing NUL (Common/Strings.antt).
--
-- Not modelled: what stdout and the system log make of a report; what follows once an answer has gone
-- behind the end of an array, which `overrun` tells and the session goes on from;
-- the codec library (SsbSipMfcEncAPI.c and the mfc_* headers) and the headers of libjpeg and
-- Video4Linux are copies of other projects' code.
pub mod CmdServer
pub mod Common
pub mod FrameBuffer
pub mod Main
pub mod MessageQueue
pub mod NetTrans
pub mod PhotoSend
pub mod Public
pub mod Rtp
pub mod Rtsp
pub mod SharedAddress
pub mod Tests
pub mod Video
pub mod VideoServer
