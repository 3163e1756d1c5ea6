-- ===== src/Lib.antt =====
-- Verification of pypopur, the client library of the Popur S7 litter box.
--
-- The library reads and writes the device's data points (DPs). A DP map comes from the cloud or from
-- the local network; `app/dp101.py` normalises it, `app/resolver.py` merges the cloud's map with the
-- cached one and derives the status that is shown, `dps.py` decodes the packed DPs into settings
-- and encodes them again, over `codec.py`. `transport.py` sends reads and writes over the local
-- network, or over the cloud while that is dead. Below them `sdk/` ports the vendor's classes.
--
-- All paths are below src/pypopur.
--   Py             the Python values that the decoders tell apart, int(), str methods, Base64, hex
--   Models         models.py: the values of the enumerations, and the settings records
--   RawBytes       app/dp101.py: `decode_to_bytes` and its helpers
--   Codec          codec.py: `decode_raw_bytes`, `normalize_bytes`, `clamp`, `parse_bool`
--   Dp101          app/dp101.py: the packed report, `parse_report`, `encode_report`
--   DpStates       app/dp101.py: the functions over a DP map, `apply_to_map` above all
--   Resolver       app/resolver.py: the merges, and `derive_status`
--   Dps            dps.py: one module for each packed DP (System 102, Schedule 103, Dustbin 104,
--                  Keys 105, Report 101), Scalars, Notifications, the mutators, and the snapshot
--   Sdk            sdk/dedup.py, sdk/timestamp.py, sdk/_java.py and sdk/hexutil.py, and
--     Crypto       sdk/crypto.py: AES, checksums and base64 over a library
--     LanSocket    sdk/lan_socket.py: frames packed and read (Stream and Parse are the reader against
--                  a parser of the whole stream), the keys in the security content, and the links:
--                  Link sends and closes, Negotiate agrees on a session key, Table is the device's
--                  link by its identifier and what the reader does with a frame;
--                  Udp is what a UDP packet says
--     LanFraming   sdk/lan_framing.py: the requests of the LAN, assembled per version
--     FastJson     sdk/_fastjson.py: what `to_json_string` does to the JSON library's text
--     MqttFraming  sdk/mqtt_framing.py and sdk/mqtt_sign.py: payloads built, parsed and dispatched
--     WakeManager  sdk/low_power.py: the manager that wakes devices, its tasks and its callbacks
--   Transport      transport.py: `FallbackTransport` over two channels
--   Tests          runs of the theorems on concrete inputs
--   Prelude        what all of them share: tests, lists, integers, dictionaries, bytes as tables
--
-- A function has the name that it has in the source. Python's `dict` is an association list in
-- insertion order, an integer is `ℤ`, a text is its list of code points, and bytes are numbers
-- below 256 where a theorem needs it. An object that a function changes in place is an argument
-- and a result. An exception is a `Result`; what a function catches is a case. The readings of a
-- clock are arguments of the functions that read it, in the order in which they do. A float is its
-- value cut to an integer, or `nan`, or infinite, since the program asks no more of it. `float` of
-- a text is a parameter of `decode_snapshot`. The two channels of `FallbackTransport` are records
-- of state-passing functions. Digits and case are those of ASCII texts.
--
-- A decoder that reads `raw[i]` raises where the payload ends before the last byte that it reads
-- (`indexed`). What a payload is read as behind that test is a function of its bytes.
--
-- The libraries of ciphers, hashes, text encodings and JSON are records of functions, and what is
-- relied on of them is a record of laws. A socket is the list of the chunks that `recv` finds; the
-- key that `read_frame` asks for is the one there is when the frame has been read. The listener that
-- `dedup` stands for is a function over its own state. A callback of the wake manager is a number, a
-- task is known by the count at its start, and a timer is a task that may be run at any time.
--
-- A link's socket is the list of the frames that were written, and each send is told whether the
-- socket takes it. The answer that a negotiation waits for is an argument, and so is whether the link
-- is still the device's when the owner is told. A link that `close_device` closes leaves the table. Times of the
-- links are in milliseconds. The owner of the links is there (`_iface` is not None), and what is outside
-- the model does not raise: its upcalls, the server of the wake manager, a callback.
--
-- Fuel: the decimal digits of a number, which has fewer digits than it counts; the loops over
-- `recv`, of which a round adds a byte; and the resync loop, of which a round drops one.
--
-- Not modelled: HTTP, the MQTT client, the LAN session above the links, the
-- ciphers themselves, the account API, the device cache, the thing model, the app's manager and
-- repository, the Home Assistant integration.
pub mod Prelude
pub mod Py
pub mod Models
pub mod RawBytes
pub mod Dp101
pub mod DpStates
pub mod Resolver
pub mod Codec
pub mod Dps
pub mod Sdk
pub mod Transport
pub mod Tests
