-- ===== src/Lib.antt =====
-- insteonrf: receiving Insteon's RF packets with cheap radios, and handing those that the home's
-- modem missed to its driver. This library models the parts of the Python package `insteonrf/`
-- that decide what a packet says and what is done with it.
--
-- The parts, and how they interact. A receiver's bits become packets (packet.py, with the line
-- code of manchester.py and two checksums; recover.py finds few wrong bits). A receiver is a board
-- that reports by MQTT (radio/mqtt.py) or a dongle on USB (radio/rfcat.py), and each line of bits
-- that it captures becomes the sightings of fusion.py; radio/file.py replays lines. Packets are
-- compared by a key that ignores the hop count, and rendered as the frames of a modem (plm.py).
-- Copies from several receivers are fused into events (fusion.py), each of which the mesh service
-- (mesh.py) holds for a while and then settles: the injector (inject.py) remembers what the modem
-- reported, and decides whether the event's frame is published to the modem's driver, and a table
-- counts what the modem missed. The tracker of context.py tells a reply which query it answers, so
-- that its command is named from the right table (cmds.py). The monitor (monitor.py) folds repeats
-- into records, and the watcher of allon.py looks for broadcasts that turn everything on. The
-- command line (cli.py) makes packets of its arguments and shows those that it decodes.
--
-- Files:
-- Common and below: tests on numbers, slices of lists, bit operations, dictionaries, exceptions
--   as values. No file of the program.
-- Manchester: insteonrf/manchester.py. `manchester_encode`, `manchester_decode`, `invert_bits`;
--   a string is a list of cells, '0', '1' or another character.
-- Packet/Crc, Packet/Address, Packet/Flags, Packet/Fields, Packet/Build: insteonrf/packet.py, in
--   its order. `pkt_crc` and `ext_crc`; class Address (`of_int`, `of_seq`, `from_wire`, and in
--   Packet/Address/Text `of_text`, `__str__`); class Flags; class Packet, whose field `data` is
--   called `bytes`, and its properties; `Packet.build`, in steps, `Packet._pad` (`pad_bytes`) and
--   `Packet.from_wire`.
-- Packet/Frames: the same file, `to_bits`, `decode_frames`, `find_headers`, `expected_indexes`,
--   `indexes_ok`, `parse_bits`; each loop is a function beside its user.
-- Cmds: insteonrf/cmds.py, the tables (Cmds/Tables) and the functions that search them.
--   Cmds/Names: `Packet.cmd_name`.
-- Plm: insteonrf/plm.py. `to_plm_bytes` (its checks are `plm_gate`, its bytes `plm_frame`),
--   `from_plm_bytes` (`plm_code`, `air_body`), `message_key`, `plm_message_key`.
-- Fusion: insteonrf/fusion.py, the data classes and `hamming`. Fusion/Combine: `_vote`, `_accept`,
--   `combine`. Fusion/Bucket: class _Bucket. Fusion/Collect: class Fusion, what `add` does.
--   Fusion/Emit: `_emit`, `pop_ready`, `flush`, and `fuse_all`. Fusion/Capture:
--   `sightings_from_capture`. Fusion/Skew: class ClockSkew, over any numbers with the operations
--   that it uses.
-- Radio/File: insteonrf/radio/file.py, class FileRadio.
-- Radio/Mqtt: insteonrf/radio/mqtt.py, the conversions and `with_sync_header`.
--   Radio/Mqtt/Payload: class Capture, `from_payload`. Radio/Mqtt/Receiver: class MqttReceiver.
-- Radio/Rfcat: insteonrf/radio/rfcat.py, class RfcatRadio. `_common` is `common_calls`.
--   Radio/Rfcat/Reception: `_wedged`, `heal`, which ends in `reopened`, and `receive`.
--   Radio/Rfcat/Registers: what a run of calls leaves in the registers; in Registers/Runs the operations
--   of a radio, in any sequence, and which radios they lead to.
--   Radio/Rfcat/Answers: calls of which one may raise.
-- Recover: insteonrf/recover.py for hard bits, up to `_repair`. Recover/At: `recover_at`,
--   `recover_packets`. Recover/Flips: how many bits a repair changes.
-- Mesh: insteonrf/mesh.py, class MissTable. Mesh/Service: class MeshService. Mesh/Link: class
--   PlmLink. Mesh/Run: `handle_capture` on a capture, and `run` with its receiver and link.
-- Cli/Build: insteonrf/cli.py, `build_from_args`. Cli/Decode: `_decode`, `_silence_action`.
-- Monitor: insteonrf/monitor.py, class Deduper and `records`.
-- AllOn: insteonrf/allon.py, the data and `_tally`, `_expire`. AllOn/Watch: `_check`, `_fresh`,
--   `observe`. AllOn/Reports: `copies_of`, `ranked_suspects`, `scan`.
-- Inject/Memory: insteonrf/inject.py, class PlmMemory. Inject/Memory/Log: sequences of its calls,
--   and the log of frames that it stands for. Inject/Classify: the tiers, `sender_of`, the state
--   of class Injector and `classify`. Inject/Consider: `Injector.consider`, in the order of its
--   checks: `begin`, `admit`, `packet_fault`, `settle`, `rate`, `fire`.
-- Context: insteonrf/context.py. class CommandTracker: `observe` with `_expire` (`expire`),
--   `_annotate` (`annotate_reply`) and the record of a query (`record_query`); `annotate`, whose
--   loop is `observe_all`.
-- The files below these hold proofs; those named Tests and Samples hold concrete inputs.
--
-- Conventions. A byte is a number below 256, which a lemma asks for where it needs it; times are
-- numbers of microseconds, and a comparison of a difference of times is written as a comparison of
-- sums. Exceptions are values of `Result`. `pkt.data` is not empty: Python raises IndexError on an
-- empty packet, and here its flags byte reads as 0. A handler takes the state and returns the
-- state. The kill switch's answer is an argument of `consider`; the frames given to `publish` are
-- the log `sent`. The reason of a refusal is a value in place of its text, and is counted under a
-- number for that text. An object that two places share is kept in one of them: a bucket in the
-- state of its `Fusion` or among the pending ones, the memory of the modem in the service. A
-- number of JSON is given in thousandths; what `json.loads`, `b64decode`, `fromhex` and `int(text,
-- 16)` answer, and the clock, are arguments. The dongle is the list of the calls that reached it,
-- with how its next calls end, since each may raise; an operation that calls it stops at the first
-- that does, and its radio keeps what it had set by then. A line of bits is given without the white space around it, and a counter or a byte is
-- written in digits only where it fits in them. The loops of `decode_frames` and `find_headers`
-- run on fuel, the length of their bits and one more; `parse_fuel` says that it is enough.
-- `combine` tries its sets of flips in a structural recursion. All other recursions are structural
-- too.
--
-- Not modelled: printing, reports and JSON, the measures that a packet only carries (SNR, carrier
-- offset, clipping; the signal strength is kept where fusion.py and mesh.py choose by it), and so
-- far what `Fusion` does with a ClockSkew and the statistics of delays of fusion.py, and soft
-- confidences in fusion.py and recover.py. Of radio/mqtt.py the connection to the broker, of
-- radio/rfcat.py the resets of USB, the threads around its driver and the diagnostics. dsp.py is
-- floating-point array code; the rest of cli.py, debug.py and radio/sdr.py are input and output,
-- as are the dumps of allon.py; the scripts of the repository's root, tools/, esphome/ and Src/
-- use or precede this package.
pub mod Common
pub mod Manchester
pub mod Mesh
pub mod Packet
pub mod Plm
pub mod Recover
pub mod Fusion
pub mod Inject
pub mod AllOn
pub mod Cmds
pub mod Context
pub mod Monitor
pub mod Radio
pub mod Cli
