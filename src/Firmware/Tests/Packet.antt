-- ===== src/Firmware/Tests/Packet.antt =====
-- A PLAY request that comes in two pieces, with a round of Core 1 between them.
use birdnetgo_m5stack_atom_e.Prelude.{ℕ, ◌≡◌, refl, List, [], ◌∷◌, ◌++◌, arith, map, some, true}
use birdnetgo_m5stack_atom_e.Prelude.Int.{ℤ, pos}
use birdnetgo_m5stack_atom_e.Prelude.Text.{Text, text}
use birdnetgo_m5stack_atom_e.Audio.Tests.Whole.{whole}
use birdnetgo_m5stack_atom_e.Audio.Tests.{task, env}
use birdnetgo_m5stack_atom_e.Audio.Task.{
  captured, sample_pattern, process_block, round, serve_sender, fresh_block,
}
use birdnetgo_m5stack_atom_e.Thermal.{
  measured, valid_temperature, check_temperature, on_reading, protect, sensor_read,
}
use birdnetgo_m5stack_atom_e.Rtp.Packet.Decode.{decode}
use birdnetgo_m5stack_atom_e.Rtp.Send.Laws.{is_sent}
use birdnetgo_m5stack_atom_e.Rtsp.Parse.{find_blank_line, found_at, process_rtsp, cut_request}
use birdnetgo_m5stack_atom_e.Rtsp.Parse.Laws.{blank_line}
use birdnetgo_m5stack_atom_e.Rtsp.Parse.Stream.{IsRequest}
use birdnetgo_m5stack_atom_e.Firmware.{Outside, link}
use birdnetgo_m5stack_atom_e.Firmware.Loop.{
  loop, checks, wifi_step, performance_step, memory_step, temperature_step, tick_step, rest_of_loop,
  reboot_step, idle_step, server_step, accept_client, negotiate, handle_request,
}
use birdnetgo_m5stack_atom_e.Checks.Reboot.{scheduled_reset_due, reboot_due}
use birdnetgo_m5stack_atom_e.Checks.Wifi.{check_wifi_health}
use birdnetgo_m5stack_atom_e.Checks.Performance.{check_performance}
use birdnetgo_m5stack_atom_e.Settings.{default_settings}
use birdnetgo_m5stack_atom_e.Rtsp.Command.{handle_rtsp_command, obey, method_of, starts_with}
use birdnetgo_m5stack_atom_e.Stream.Control.{hand_over, start_audio_task, serve_stop}
use birdnetgo_m5stack_atom_e.Rtp.Packet.{interleaved_header, rtp_header, payload}
use birdnetgo_m5stack_atom_e.Rtp.Write.{accept, write_loop, write_all}
use birdnetgo_m5stack_atom_e.Rtp.Send.{write_packet}
use birdnetgo_m5stack_atom_e.Audio.Process.{
  effective_gain, refresh_filter, process_samples, process_sample,
}
use birdnetgo_m5stack_atom_e.Firmware.Web.{no_request, serve_request}
use birdnetgo_m5stack_atom_e.Firmware.Cores.{
  Machine, core1_view, CoreStep, core0, core1, core_step, core_steps, publish,
}
use birdnetgo_m5stack_atom_e.Firmware.Listening.{IsPrompt}
use birdnetgo_m5stack_atom_e.Firmware.Playing.{play_answer, arrivals}
use birdnetgo_m5stack_atom_e.Firmware.FirstPacket.{IsReady, first_packet}
use birdnetgo_m5stack_atom_e.Firmware.Tests.{hot}
use birdnetgo_m5stack_atom_e.Firmware.Tests.Hung.{waiting, waiting-IsUnattended, is_play}

abbrev machine : Machine ℤ
machine = record { firmware = waiting; task = task }

abbrev piece : Text → Outside
piece bytes = record hot { now_ms = 30000; reading = measured (pos 40000); arrived = bytes }

abbrev steps : List (CoreStep ℤ)
steps = core0 (piece (text "PL")) no_request ∷ core1 (env (captured (pos 5 ∷ []))) ∷ []

abbrev last_piece : Outside
last_piece = piece (text "AY *" ++ blank_line)

abbrev played : Machine ℤ
played = core_step (core0 last_piece no_request) (core_steps steps machine)

piece-IsPrompt : (bytes : Text) → IsPrompt waiting (piece bytes)
unfolding valid_temperature
piece-IsPrompt bytes = record { calm = record { online = refl; cool = refl }; in_time = refl }

waiting-IsReady : IsReady waiting
waiting-IsReady = record {
  idle = refl;
  unasked = refl;
  connected = refl;
  waiting = record {
    unattended = waiting-IsUnattended;
    buffered = refl;
    drained = refl;
    outgoing = refl;
    active = refl;
    session = refl;
    ssrc = refl;
  };
  ssrc_lt = omega arith;
}

play-IsRequest : IsRequest (text "PLAY *")
unfolding find_blank_line found_at
play-IsRequest = record { ends = refl; fits = omega arith }

whole_request : arrivals steps ++ last_piece.arrived ≡ text "PLAY *" ++ blank_line
unfolding arrivals
whole_request = refl

packet_sent :
    is_sent (core1_view played).channel.sender (
      map sample_pattern
        (process_block (env (captured (pos 5 ∷ []))) (core1_view played) (pos 5 ∷ [])).1)
    ≡ true
unfolding core1_view core_step core_steps publish loop checks wifi_step performance_step memory_step
    temperature_step tick_step rest_of_loop reboot_step idle_step server_step accept_client
    negotiate handle_request serve_request scheduled_reset_due reboot_due check_wifi_health
    check_performance check_temperature on_reading protect sensor_read valid_temperature
    default_settings process_rtsp cut_request find_blank_line found_at handle_rtsp_command obey
    method_of starts_with hand_over start_audio_task serve_stop round serve_sender sample_pattern
    process_block fresh_block interleaved_header rtp_header payload accept write_loop write_all
    write_packet effective_gain refresh_filter process_samples process_sample
packet_sent = refl

first_packet_example :
    let sound = env (captured (pos 5 ∷ [])) in
    let samples = map sample_pattern (process_block sound (core1_view played) (pos 5 ∷ [])).1 in
    (played.firmware.outgoing ≡ [] ++ play_answer waiting (text "PLAY *"))
    × ((link played.firmware).task_handle ≡ true)
    × ((bytes more : List ℕ) × ((core_step (core1 sound) played).task.channel.sender.socket.wire
          ≡ played.task.channel.sender.socket.wire ++ bytes)
        × (decode bytes
            ≡ some (record {
              sequence = 0;
              timestamp = 0;
              ssrc = 0x43215678;
              samples = samples;
              rest = more;
            })))
first_packet_example =
    first_packet steps last_piece (env (captured (pos 5 ∷ []))) machine played (text "PLAY *")
      (pos 5) [] waiting-IsReady play-IsRequest is_play
      ((piece-IsPrompt (text "PL"), refl), (tt, tt)) (piece-IsPrompt _) whole_request (omega arith)
      refl refl refl (omega arith) packet_sent
