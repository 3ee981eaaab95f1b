-- ===== src/Lib.antt =====
-- vlai L1 runtime: the logic that decides what may move the robot and which sensor data is trusted,
-- with the theorems that make it correct.
--
-- The program is a Python package, src/vlai_l1_runtime. The parts that stand here:
--   Contracts   src/vlai_l1_runtime/contracts.py: named joint vectors, sample metadata and command
--               envelopes, with the constructors' checks. Types has the records and the errors,
--               Features the feature names, Values `validate_named_values`, Command the
--               constructors, the snapshots, `validate_contiguous_command` and
--               `validate_first_command_hold`.
--   Session     src/vlai_l1_runtime/session.py: the command lease. State is the object's state,
--               Checks and Commands the private checks, Methods the public methods, Config the
--               constructor. It calls Contracts for every object that it is handed.
--   Feedback    src/vlai_l1_runtime/feedback.py: the checks of a motor's frame and of a sample of all
--               motors.
--   Wire        src/vlai_l1_runtime/feedback_wire.py: the telemetry packet of the follower arm (Packet)
--               and the session that judges a stream of them (Session, Accept).
--   XAir        src/vlai_l1_runtime/teleoperation/xair.py: the state packets of the two arms (Packet),
--               the assemblers that pair or pass them (Assembler) and the choice from the queue of
--               the receiver (Receiver), for both sides or for one. Their output is vectors of
--               Contracts.
--   Trajectory  src/vlai_l1_runtime/trajectory.py: the wrist sweep as a function of time (Sweep), its
--               constructors (Plan), and the rehearsal that follows it (Rehearsal, and Begin for
--               its constructor).
--   Cameras     src/vlai_l1_runtime/configuration.py, the checks of the camera configuration (Config),
--               and src/vlai_l1_runtime/cameras.py: frame metadata (Frames) and the validator that
--               judges sets of frames (Validator).
--   Collection  src/vlai_l1_runtime/collection/schema.py: images (Images), the dataset contract
--               (Contract), samples and frames (Sample), and the assembler that judges samples
--               (Checks, Assembler), which asks the validator of Cameras about their frames;
--               src/vlai_l1_runtime/collection/orchestration.py: the life of an episode (Episode);
--               src/vlai_l1_runtime/collection/scale.py: the decoder of the scale's lines (Scale).
--   CameraIpc   src/vlai_l1_runtime/camera_ipc.py: the bytes of a connection (Stream), the encoding of
--               samples and its inverse (Frames), a response from its sending to the client (Client),
--               the requests and the loop of the server (Server). Json has the values of requests.
--               Its samples are those of Collection.
--   Hkvl        src/vlai_l1_runtime/hkvl_serial.py: the frame decoder of the force sensor (Decoder).
--
-- How code and model correspond:
--   - A method that mutates its object is an `Exec`: it takes the state and gives a result or an
--     exception beside the state, so that what was written before a raise stays written.
--   - Each `raise` with a fixed text is a constructor of an error type; the text itself is left out.
--     The session's `release_reason` keeps which of the texts was written.
--   - An argument that the code tests with `isinstance` is a `Value` or a `Received`: a Python value of
--     any type. A check that passes gives back the value at its type. Where the type of a field is
--     fixed by the class that made it, the test has no branch here.
--   - A float is a value of a parameter, `Floats`, with the operations that the code applies to it:
--     `math.isfinite`, `float`, `abs(a - b)` and `<`. Nothing is assumed of them, nor of the
--     arithmetic of a trajectory (`Arithmetic`) and of `math.degrees`, a parameter of XAir. A float32
--     or a double on the wire is its bits.
--   - numpy and PIL (`Images`), the arithmetic of times and the two checks of embodied_ops (`Seconds`)
--     and the sink of an episode (`EpisodeSink`) are parameters. `HasCuts` and `HasLog` state what
--     cropping and appending do, where a theorem needs it. So are json (`JsonCodec`) and the codec of
--     frames (`FrameCodec`), of which `HasRoundTrip` and `HasFrames` state that they give back what
--     they were given. A dictionary is the list of its items.
--   - Times are native natural numbers. Where the code subtracts two times, the subtraction stops at
--     0: a test before it rules a negative difference out, or the limit that it is compared with is
--     not negative, so that the comparison comes out the same.
--   - A byte string is a list of natural numbers.
--   - Two loops are no structural recursion and run on fuel. That of the force sensor's decoder has
--     one more than the bytes in its buffer, and each round that goes on takes at least one byte;
--     that of `_receive_exact` has the number of bytes wanted, and each `recv` gives at least one.
--   - The loop of the camera server is a recursion on what the source and the clock give at each
--     turn; it still waits where that list ends.
--
-- Not modelled: device, process, file and network I/O, the numerical studies, the loader of the
-- configuration, the operator interfaces, the datasets on disk and the supervisor of the
-- teleoperation.
--
-- The other modules of a component hold lemmas and theorems, named for what they are about; each
-- Tests module runs its component on concrete input.
pub mod Prelude
pub mod Contracts
pub mod Session
pub mod Hkvl
pub mod Cameras
pub mod Collection
pub mod CameraIpc
pub mod Feedback
pub mod Wire
pub mod XAir
pub mod Trajectory
