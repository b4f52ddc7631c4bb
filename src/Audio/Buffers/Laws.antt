-- ===== src/Audio/Buffers/Laws.antt =====
-- When the reads of audioCaptureTask (src/esp32_rtsp_mic_birdnetgo.ino) stay inside its buffers.
use birdnetgo_m5stack_atom_e.Prelude.{
  ℕ, zero, suc, ◌*◌, ◌/◌, ◌≤◌, ◌<◌, ◌≡◌, refl, Bool, true, false, Bool-cases, inl, inr, Option,
  some, List, [], ◌∷◌, arith, min, ◌&&◌, ◌||◌, not, ◌≢◌, ◌⊎◌, All,
}
use birdnetgo_m5stack_atom_e.Prelude.Text.{Text, text}
use birdnetgo_m5stack_atom_e.Settings.Interface.{Arduino, buffer, names, find_key, to_u16, within}
use birdnetgo_m5stack_atom_e.Settings.Interface.Keys.{http_set}
use birdnetgo_m5stack_atom_e.Audio.Buffers.{
  Memory, buffer_bytes, start_pipeline, overruns, task_overruns, read_block, without, end_pipeline,
  forget_task, reset_size, Access, requests, resets, starts, reads, ends, stops, access, accesses,
}
use birdnetgo_m5stack_atom_e.Audio.Buffers.Size.{http_set_size, http_set_buffer}

-- The buffers of all tasks that run have room for the current block size.
abbrev pub Fits : List ℕ → ℕ → Type 0
Fits tasks size = All (λ (room : ℕ). size ≤ room) tasks

pub record IsSound (m : Memory) : Type 0 where
  pub fits : Fits m.tasks (buffer_bytes m.device)
  pub inside : m.overrun ≡ false

-- A settings request that changes the block size, and a reset to the defaults, find no task.
abbrev pub IsCareful : Access → Memory → Type 0
IsCareful (requests a key value) m = (find_key names key ≢ buffer) ⊎ (m.tasks ≡ [])
IsCareful resets m = m.tasks ≡ []
IsCareful _ m = Unit {0}

abbrev pub Careful : List Access → Memory → Type 0
Careful [] m = Unit {0}
Careful (a ∷ rest) m = IsCareful a m × Careful rest (access a m)

requests-Fits :
    (a : Arduino) (key : Text) (value : Option Text) (m : Memory)
    → IsCareful (requests a key value) m
    → Fits m.tasks (buffer_bytes m.device)
    → Fits m.tasks (buffer_bytes (http_set a m.device key value))
unfolding buffer_bytes
requests-Fits a key value m (inl other) h = rw (http_set_size a m.device key value other) h
requests-Fits a key value m (inr gone) h = rw gone tt

Fits-overruns :
    (tasks : List ℕ) (i size n : ℕ) → Fits tasks size → n ≤ size → task_overruns tasks i n ≡ false
unfolding task_overruns overruns
Fits-overruns [] i size n h e = refl
Fits-overruns (room ∷ tasks) zero size n h e = ground (arith, whole_samples n)
  where
    whole_samples : (n : ℕ) → n / 2 * 2 ≤ n
    whole_samples n = omega arith
Fits-overruns (room ∷ tasks) (suc i) size n h e = Fits-overruns tasks i size n h.1 e

without-Fits : (tasks : List ℕ) (i size : ℕ) → Fits tasks size → Fits (without tasks i) size
unfolding without
without-Fits [] i size h = tt
without-Fits (room ∷ tasks) zero size h = h.1
without-Fits (room ∷ tasks) (suc i) size h = (h.0, without-Fits tasks i size h.1)

start-IsSound :
    (created capture_ok output_ok : Bool) (m : Memory)
    → IsSound m
    → IsSound (start_pipeline created capture_ok output_ok m)
unfolding start_pipeline
start-IsSound created capture_ok output_ok m v = elim (Bool-cases (m.handle || not created)) [
  | inl e ↦ rw e v
  | inr e ↦ elim (Bool-cases (capture_ok && output_ok)) [
    | inl f ↦ rw (e, f) (record { fits = (omega arith, v.fits); inside = v.inside })
    | inr f ↦ rw (e, f) (record { fits = v.fits; inside = v.inside })
  ]
]

access-IsSound : (a : Access) (m : Memory) → IsCareful a m → IsSound m → IsSound (access a m)
unfolding access read_block end_pipeline forget_task reset_size
access-IsSound (requests a key value) m c v = record {
  fits = requests-Fits a key value m c v.fits;
  inside = v.inside;
}
access-IsSound resets m c v = record { fits = rw c tt; inside = v.inside }
access-IsSound (starts created capture_ok output_ok) m c v =
    start-IsSound created capture_ok output_ok m v
access-IsSound (reads i offered) m c v =
    let none_written =
      Fits-overruns m.tasks i (buffer_bytes m.device) (min offered (buffer_bytes m.device)) v.fits
        (omega arith) in
    record { fits = v.fits; inside = ground (arith, v.inside, none_written) }
access-IsSound (ends i) m c v = record {
  fits = without-Fits m.tasks i (buffer_bytes m.device) v.fits;
  inside = v.inside;
}
access-IsSound stops m c v = record { fits = v.fits; inside = v.inside }

-- As long as a settings request for the block size and a reset to the default settings find no task
-- alive, also none that a stop has given up on, the reads of all tasks never write behind their
-- buffers, whatever the driver offers, the other requests set, and malloc gives.
pub accesses-IsSound :
    (as' : List Access) (m : Memory) → Careful as' m → IsSound m → IsSound (accesses as' m)
unfolding accesses
accesses-IsSound [] m c v = v
accesses-IsSound (a ∷ rest) m c v =
    accesses-IsSound rest (access a m) c.1 (access-IsSound a m c.0 v)

-- A request for a longer block sets the block size before Core 0 stops the task, and a read in between
-- writes behind the buffer: with a task alive whose buffers hold `room` bytes, a request for `n`
-- samples of two bytes, more than `room`, and a driver that has more than `room` bytes.
pub growing_overruns :
    (a : Arduino) (v : Text) (m : Memory) (room offered n : ℕ) (others : List ℕ)
    → m.tasks ≡ room ∷ others
    → to_u16 (a.to_int v) ≡ n
    → within 256 8192 n ≡ true
    → room < n * 2
    → room < offered
    → (accesses (requests a (text "buffer") (some v) ∷ reads 0 offered ∷ []) m).overrun ≡ true
unfolding accesses access read_block task_overruns overruns buffer_bytes
growing_overruns a v m room offered n others runs e ok longer more =
    let size = http_set_buffer a m.device v n e ok in rw runs (ground (arith, size))
