-- ===== src/Audio/Buffers.antt =====
-- The buffers of audioCaptureTask (src/esp32_rtsp_mic_birdnetgo.ino): their allocation when a task
-- starts, the reads into them, and the end of the task, beside Core 0, which sets currentBufferSize in
-- httpSet (src/WebUI.cpp) and resetToDefaultSettings. A step is one access to currentBufferSize or to
-- the buffers, in any order; both allocations are one step. A stop that times out leaves the old task
-- alive, so that there may be several. `malloc` and the number of bytes that the driver has are
-- parameters; `i2s_read` writes at most the bytes that it is asked for.
mod Size
pub mod Laws
use birdnetgo_m5stack_atom_e.Prelude.{
  ℕ, zero, suc, ◌*◌, ◌/◌, Bool, true, false, ◌&&◌, ◌||◌, not, Option, List, [], ◌∷◌, ltb, min,
  if◌then◌else◌,
}
use birdnetgo_m5stack_atom_e.Prelude.Text.{Text}
use birdnetgo_m5stack_atom_e.Settings.{default_settings, save_settings}
use birdnetgo_m5stack_atom_e.Settings.Interface.{Arduino, Device}
use birdnetgo_m5stack_atom_e.Settings.Interface.Keys.{http_set}

-- `handle` is audioCaptureTaskHandle != NULL; `tasks` has, for each task that runs, the size in bytes of
-- each of its two buffers, the newest first; `overrun` tells that a byte was written behind a buffer.
pub record Memory : Type 0 where
  pub device : Device
  pub handle : Bool
  pub tasks : List ℕ
  pub overrun : Bool

abbrev pub sample_size : ℕ
sample_size = 2

-- `currentBufferSize * sizeof(int16_t)`
unfoldable pub buffer_bytes : Device → ℕ
buffer_bytes d = d.settings.buffer_size * sample_size

-- startAudioCaptureTask with the first lines of the task: whether the task is created, and what the
-- two calls of malloc give. A task without its buffers ends, and its handle stays.
unfoldable pub start_pipeline : Bool → Bool → Bool → Memory → Memory
start_pipeline created capture_ok output_ok m = if m.handle || not created then m else record m {
  handle = true;
  tasks = if capture_ok && output_ok then buffer_bytes m.device ∷ m.tasks else m.tasks;
}

-- Whether i2s_read of that many bytes into captureBuffer, or the loop that writes as many whole
-- samples into outputBuffer, writes behind the end.
unfoldable pub overruns : ℕ → ℕ → Bool
overruns room bytes_read = ltb room bytes_read || ltb room (bytes_read / sample_size * sample_size)

-- The same of one of the tasks, if it is there.
unfoldable pub task_overruns : List ℕ → ℕ → ℕ → Bool
unfolding overruns
task_overruns [] i bytes_read = false
task_overruns (room ∷ tasks) zero bytes_read = overruns room bytes_read
task_overruns (room ∷ tasks) (suc i) bytes_read = task_overruns tasks i bytes_read

unfoldable pub read_block : ℕ → ℕ → Memory → Memory
read_block i offered m = record m {
  overrun = m.overrun || task_overruns m.tasks i (min offered (buffer_bytes m.device));
}

unfoldable pub without : List ℕ → ℕ → List ℕ
without [] i = []
without (room ∷ tasks) zero = tasks
without (room ∷ tasks) (suc i) = room ∷ without tasks i

-- A task frees its buffers and ends.
unfoldable pub end_pipeline : ℕ → Memory → Memory
unfolding without
end_pipeline i m = record m { tasks = without m.tasks i }

-- The end of stopAudioCaptureTask, with the task's confirmation or at the end of its time.
unfoldable pub forget_task : Memory → Memory
forget_task m = record m { handle = false }

-- The settings' part of resetToDefaultSettings, in the loop and beside a task that runs.
unfoldable pub reset_size : Memory → Memory
reset_size m = record m {
  device = record m.device { settings = default_settings; flash = save_settings default_settings };
}

pub data Access : Type 0 where
  requests : Arduino → Text → Option Text → Access  -- httpSet, up to its call of restartI2S
  resets : Access
  starts : (created capture_ok output_ok : Bool) → Access
  reads : (task offered : ℕ) → Access
  ends : (task : ℕ) → Access
  stops : Access

unfoldable pub access : Access → Memory → Memory
access (requests a key value) m = record m { device = http_set a m.device key value }
access resets m = reset_size m
access (starts created capture_ok output_ok) m = start_pipeline created capture_ok output_ok m
access (reads i offered) m = read_block i offered m
access (ends i) m = end_pipeline i m
access stops m = forget_task m

unfoldable pub accesses : List Access → Memory → Memory
accesses [] m = m
accesses (a ∷ rest) m = accesses rest (access a m)
