-- ===== src/Lib.antt =====
-- The Secure IoT Device Platform: bootstrapping and certificates of devices, their revocation, their
-- MQTT traffic, simulated devices and the manufacturing station. The model follows the Python code.
--
-- Parts
--   Base, Table: tests on numbers, lists, texts as code points, tables with a primary key.
--   Models: server/app/models.py. A row is a record, a table is a list with one row for a key;
--     `find_*` is `db.get`, `save_*` is `db.add` and `db.commit`. `Server` is the database, the CRL
--     file and the requested broker restarts.
--   Env: what comes from outside. `Crypto` holds the third-party cryptography, `Settings` the fields
--     of server/app/config.py, `Disk` the CA files, `Context` all that one request finds. `Try` is a
--     call that may raise `SecurityError` or another exception, `Reply` the response of a handler.
--   Security: server/app/security.py. Pki: server/app/pki.py (Pki/Serial: serial numbers as text).
--   Registry: server/app/registry.py.
--   Provisioning: server/app/routers/provisioning.py. Challenge is `create_challenge`; Enroll and
--     Finish are `enroll_device`, cut where its commits are; the other files prove.
--   Json: the values of `json.loads`. Mqtt: `_on_message` and `_store_event` of
--     server/app/mqtt_service.py; Mqtt/Publish: `publish_command`, `evict_device` and the connection's
--     callbacks; Mqtt/Stale: one round of `_mark_stale_devices`; Mqtt/Topic: topics and their parts.
--   Admin: the operations of server/app/routers/admin.py, and `enable` and `disable` of
--     scripts/admin.py.
--   Admin/Activity: `get_device_state` and `recent_command_activity` of the same router.
--   Reset: the clean-ups of server/app/project_reset.py; Reset/Project: `reset_project`.
--   Profiles: server/app/device_profiles.py.
--   Simulation: simulators/manager.py, the fleet of simulated devices. Numbers and Allocation are
--     `_next_ids`, Manager the operations, Fleet the manager over any requests.
--   Simulator: simulators/profiles/ (Levels, Profiles), and simulators/simulated_device.py: Recent is
--     `_remember_command`, Device is `on_message` and a round of `run`, Http and Client the bootstrap, which
--     talks to the handlers of Provisioning and Admin; the other files prove.
--   Access: server/app/auth.py and the CSRF checks of server/app/routers/. Dashboard: what
--     server/app/routers/dashboard.py changes; Dashboard/Station: the programming request of
--     server/app/routers/manufacturing.py, which Programming composes with the station.
--   Manufacturing: scripts/manufacturing_agent.py. Output redacts and reads a line of the programming
--     job, Agent is the job and its thread, Requests is `do_POST`; Products are the names of
--     scripts/factory_program_esp32.py.
--   Factory: scripts/factory_provision_esp32.py. Serial is what is read and written on the serial port,
--     Provision is `provision_device` with the two requests of `register_or_reset_device`, which go to the
--     handlers of Admin; Stages cuts a run where the secret arrives; Sealed, Injected, Kept and Completed
--     prove.
--   EnvFile: the .env file as scripts/setup.py, start_platform.py, configure_device_wifi.py and
--     factory_provision_esp32.py read it, and as the first three write it. Text cuts and joins the lines, and
--     Lines proves that the one undoes the other; Line and Strip are about one line, Reading, Updated and
--     RoundTrip about the file.
--   Network: scripts/network_config.py down to `select_wifi_ipv4`.
--   Platform: the operations that change the server as one state machine; an event is a request, a
--     message or a timer round, a history is any list of events. The clean-ups, which delete sessions
--     and devices, are not among the events.
--   Examples: toy cryptography, concrete runs, and the theorems applied to them.
--
-- Conventions
--   A time is a number of microseconds, in UTC. What the code draws at random (session ids, nonces,
--   secrets, serial numbers) is an argument, so a theorem holds for every draw, and a draw that
--   collides raises the integrity error of the database. A handler keeps what it committed before an
--   error. Every definition is total: lists and texts are walked structurally, `format_hex` runs on
--   fuel n + 1 for the number n, which its round trip shows to be enough, and `fill` on one round for each
--   number up to the largest in use and for each new one, which Simulation/Allocation shows to be enough.
--
-- Not modelled
--   Each request is one step: two requests interleave between their steps, not inside one, but for
--   `register_device`, which reads one state and commits to another. Column defaults that nothing
--   reads, such as `updated_at`, are left out, and some error details are shortened. `lower` is the
--   one of ASCII; the code compares its result with ASCII texts. The validators of
--   server/app/schemas.py, the HTML views, the measurements of simulated telemetry, the
--   scripts but for the parts named above, the firmware and the broker are not modelled. A
--   simulated device reads the spectrum of a sequence number, which the code makes of sines, from an
--   argument, as it does the rounding of a float.
--   A loop of the station that waits for the serial port until a deadline is a walk over the lines
--   that come before the deadline, so its time is not modelled. The child of a programming job is
--   the list of its lines, the answer whether it then falls silent with its output open, and its
--   ending; the release of the station's lock is one step with the last change of the job. The
--   request of a restart of the broker is dropped where its file cannot be written, as the code
--   only logs that. A message whose JSON raises another exception than JSONDecodeError, and an
--   unsealed secret that is not UTF-8, which raises UnicodeDecodeError, are outside the model. The
--   text of a .env file is what `read_text` returns, the empty one where there is no file, and what
--   `write_text` takes; their encoding and line ends on disk are not modelled. The certificates and
--   questions of scripts/setup.py, the processes that scripts/start_platform.py starts, PlatformIO
--   and esptool behind scripts/factory_program_esp32.py, scripts/demo_device.py and the benchmarks
--   are not modelled.
pub mod Base
pub mod Table
pub mod Models
pub mod Dashboard
pub mod Env
pub mod EnvFile
pub mod Factory
pub mod Security
pub mod Pki
pub mod Registry
pub mod Json
pub mod Mqtt
pub mod Network
pub mod Provisioning
pub mod Access
pub mod Admin
pub mod Platform
pub mod Profiles
pub mod Simulation
pub mod Simulator
pub mod Manufacturing
pub mod Reset
pub mod Examples
