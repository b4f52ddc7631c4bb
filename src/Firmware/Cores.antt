-- ===== src/Firmware/Cores.antt =====
-- Both cores (src/esp32_rtsp_mic_birdnetgo.ino): rounds of loop on Core 0 and rounds of
-- audioCaptureTask on Core 1 in any order, over the variables that they share: the flags of the
-- stream, the client's connection, the RTP counters and lastRTSPActivity. A round is one step; what
-- Core 1 does while Core 0 waits inside a round stays a parameter of that round.
pub mod Laws
use birdnetgo_m5stack_atom_e.Prelude.{List, [], ◌∷◌}
use birdnetgo_m5stack_atom_e.Prelude.Float.{Float}
use birdnetgo_m5stack_atom_e.Audio.Task as Audio
use birdnetgo_m5stack_atom_e.Audio.Task.{Task, round}
use birdnetgo_m5stack_atom_e.Firmware.{Firmware, link, set_link, Outside}
use birdnetgo_m5stack_atom_e.Firmware.Web.{Request}
use birdnetgo_m5stack_atom_e.Firmware.Loop.{loop}

-- The shared variables count as they stand in `firmware`.
pub record Machine (F : Type 0) : Type 0 where
  pub firmware : Firmware
  pub task : Task F

module _ {F : Type 0} where
  -- The task with the shared variables as Core 0 has left them.
  unfoldable pub core1_view : Machine F → Task F
  core1_view m =
      let fw = m.firmware in
      record m.task {
        channel = record m.task.channel {
          sender = record m.task.channel.sender {
            rtp = fw.rtsp.rtp;
            stream = (link fw).stream;
            socket = record m.task.channel.sender.socket { connected = (link fw).connected };
          };
          last_activity_ms = fw.rtsp.last_activity_ms;
        };
      }

  -- What a round of the task leaves to Core 0.
  unfoldable pub publish : Machine F → Task F → Machine F
  publish m t = record {
    firmware =
        record (set_link m.firmware (record {
          stream = t.channel.sender.stream;
          connected = t.channel.sender.socket.connected;
        })) {
          rtsp = record m.firmware.rtsp {
            rtp = t.channel.sender.rtp;
            last_activity_ms = t.channel.last_activity_ms;
          };
        };
    task = t;
  }

pub data CoreStep (F : Type 0) : Type 0 where
  core0 : Outside → Request → CoreStep F
  core1 : Audio.Env F → CoreStep F

module _ {F : Type 0} ⦃f : Float F⦄ where
  unfoldable pub core_step : CoreStep F → Machine F → Machine F
  core_step (core0 out r) m = record m { firmware = loop out r m.firmware }
  core_step (core1 env) m = publish m (round env (core1_view m))

  unfoldable pub core_steps : List (CoreStep F) → Machine F → Machine F
  core_steps [] m = m
  core_steps (s ∷ rest) m = core_steps rest (core_step s m)
