-- ===== src/Lib.antt =====
-- A model of the firmware that turns an M5Stack Atom Echo into an RTSP microphone with a web
-- interface and a WireGuard tunnel.
--
-- The firmware runs on two cores. Core 0 runs the main loop: the web interface, RTSP, the checks of
-- temperature, WiFi and packet rate, and the WireGuard manager, which looks the endpoint's name up
-- in a task of its own. Core 1 captures audio and sends it as RTP packets over the RTSP connection.
-- The cores share the flags of `Stream`; the lookup shares variables with the manager.
--
-- Which file models what:
--   * LogRing: webui_pushLog and httpLogs (src/WebUI.cpp), and logTimestamp and simplePrintln of the
--     sketch, which is src/esp32_rtsp_mic_birdnetgo.ino (`LogRing.Print`).
--   * WireGuard: src/WireGuardManager.cpp. `WireGuard.State` has the static variables,
--     `WireGuard.Address` parseTunnelAddress, `WireGuard.Manager` wg_begin, wg_stop and wg_tick,
--     `WireGuard.Config` the setters, wg_load, wg_save and wg_clear, `WireGuard.Calls` the calls from
--     outside, `WireGuard.Resolver` _dnsResolveTask as a step relation beside them.
--   * Stream: the shared flags (the sketch); `Stream.Control` has
--     requestStreamStop, startAudioCaptureTask, stopAudioCaptureTask, restartI2S and the answer of
--     audioCaptureTask to a stop request. `Stream.Handshake` has the same handshake in small steps of
--     the two cores, in any interleaving.
--   * Audio: Biquad and updateHighpassCoeffs (`Audio.Filter`), the processing of a block
--     (`Audio.Process`), the rounds of audioCaptureTask (`Audio.Task`) and its buffers
--     (`Audio.Buffers`) of the sketch.
--   * Rtp: writeAll (`Rtp.Write`), the packet's bytes (`Rtp.Packet`) and sendRTPPacket (`Rtp.Send`)
--     of the sketch. `Rtp.Packet.Decode` is a receiver written from RFC 3550 and RFC 2326.
--   * Thermal: checkTemperature and recordOverheatTrip of the sketch with the actions of
--     src/WebUI.cpp that switch the server; `Thermal.Boot` is the thermal part of setup.
--   * Rtsp: processRTSP (`Rtsp.Parse`; `Rtsp.Parse.Stream` has all bytes of a client) and
--     handleRTSPCommand (`Rtsp.Command`) of the sketch.
--   * Settings: loadAudioSettings and saveAudioSettings of the sketch; `Settings.Interface` is
--     httpSet (src/WebUI.cpp), whose calls of the other parts are a list of effects.
--   * Checks: checkPerformance, checkWiFiHealth, applyWifiTxPower, checkScheduledReset and
--     scheduleReboot of the sketch.
--   * Firmware: loop of the sketch as the composition of the parts of Core 0, the actions of
--     src/WebUI.cpp (`Firmware.Web`) with their paths and answers (`Firmware.Web.Actions`),
--     resetToDefaultSettings, and setup (`Firmware.Boot`).
--     `Firmware.Cores` has the rounds of both cores over their shared variables; `Firmware.Listening`,
--     `Firmware.Playing` and `Firmware.FirstPacket` follow a client's PLAY through them.
--   * Power: pickWifiPowerLevel and wifiPowerLevelToDbm of the sketch.
--   * Format: formatUptime, formatSince and jsonEscape.
--   * Pages: httpStatus, httpAudioStatus, httpThermal, httpPerfStatus and httpWgStatus (src/WebUI.cpp)
--     with the getters of the manager, as the texts that they append to one another, and the paths
--     that they have (`Pages.Routes`); the fields beside each page say what it is meant to show, and
--     `Pages.Read` is a reader of JSON objects written from RFC 8259.
--   * Prelude: lists, words, integers and Boolean tests on the native numbers, and the operations of
--     floats.
--
-- Integers are natural numbers with the reduction of their width written out (`Prelude.Words`); an
-- unsigned long has 32 bits. Time, WiFi, DNS, sockets, the vendored WireGuard library and Arduino's
-- parsers are parameters. A call of the manager reads `millis()` once and is one step beside the
-- lookup's task, which reads the variables of one test in one step. The loop of writeAll runs on fuel, one more than the bytes that it is given.
-- While Core 0 waits for Core 1, Core 1 does what a parameter says, any function on the shared flags
-- where nothing else is stated. Temperatures are exact multiples of 1/1024 degrees. The arithmetic of
-- samples is over any type with the operations of `Prelude.Float`; what a theorem needs of them is its
-- hypothesis. A round of the main loop and a round of audioCaptureTask read `millis()` once, and each
-- is one step; in `Stream.Handshake` a step is one access to the shared flags.
--
-- Not modelled: the web page, one string of HTML and JavaScript; the set-up of the I2S driver and of
-- other libraries in the start-up, which only calls them; the exit of audioCaptureTask, a parameter;
-- the serial port, the lines that the components of Core 0 print, and the LED on Core 0;
-- drainRtspReceiveBuffer and rebootTask, which nothing calls; the library in lib/WireGuard-ESP32,
-- which is another project's.
pub mod Prelude
pub mod Audio
pub mod Checks
pub mod Firmware
pub mod Format
pub mod LogRing
pub mod Pages
pub mod Power
pub mod Rtp
pub mod Rtsp
pub mod Settings
pub mod Stream
pub mod Thermal
pub mod WireGuard
