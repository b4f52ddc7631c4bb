-- ===== src/Firmware/Listening.antt =====
-- Rounds of the main loop (src/esp32_rtsp_mic_birdnetgo.ino, loop) while a client is connected that
-- plays nothing yet: the rest of the loop leaves it alone, and its bytes reach processRTSP.
use birdnetgo_m5stack_atom_e.Prelude.{
  ◌≡◌, refl, ap, ◌∙◌, true, false, Option, none, some, [], ◌++◌, arith, ltb,
}
use birdnetgo_m5stack_atom_e.Prelude.Text.{Text}
use birdnetgo_m5stack_atom_e.Prelude.Words.{sub32}
use birdnetgo_m5stack_atom_e.Rtsp.Parse.{process_rtsp}
use birdnetgo_m5stack_atom_e.Checks.Reboot.{Reboot, reboot_due, scheduled_reset_due}
use birdnetgo_m5stack_atom_e.Firmware.{Firmware, link, Outside}
use birdnetgo_m5stack_atom_e.Firmware.Web.{no_request, serve_request}
use birdnetgo_m5stack_atom_e.Firmware.Loop.{
  tick_step, temperature_step, memory_step, performance_step, wifi_step, idle_step, accept_client,
  handle_request, negotiate, server_step, reboot_step, rest_of_loop, checks, loop,
}
use birdnetgo_m5stack_atom_e.Firmware.Hung.{IsCalm, IsUnattended, checks-IsUnattended}

-- What the checks of a round leave alone of the RTSP connection.
pub record IsSameClient (before after : Firmware) : Type 0 where
  pub buffer : after.parse_buffer ≡ before.parse_buffer
  pub incoming : after.incoming ≡ before.incoming
  pub outgoing : after.outgoing ≡ before.outgoing
  pub active : after.rtsp.last_activity_ms ≡ before.rtsp.last_activity_ms
  pub session : after.rtsp.session_id ≡ before.rtsp.session_id
  pub ssrc : after.rtsp.rtp.ssrc ≡ before.rtsp.rtp.ssrc

temperature_step-IsSameClient :
    (out : Outside) (fw0 fw : Firmware)
    → IsSameClient fw0 fw
    → IsSameClient fw0 (temperature_step out fw)
unfolding temperature_step
temperature_step-IsSameClient out fw0 fw v = ground arith

memory_step-IsSameClient :
    (out : Outside) (fw0 fw : Firmware)
    → IsSameClient fw0 fw
    → IsSameClient fw0 (memory_step out fw)
unfolding memory_step
memory_step-IsSameClient out fw0 fw v = ground arith

performance_step-IsSameClient :
    (out : Outside) (fw0 fw : Firmware)
    → IsSameClient fw0 fw
    → IsSameClient fw0 (performance_step out fw)
unfolding performance_step
performance_step-IsSameClient out fw0 fw v = ground arith

wifi_step-IsSameClient :
    (out : Outside) (fw0 fw : Firmware) → IsSameClient fw0 fw → IsSameClient fw0 (wifi_step out fw)
unfolding wifi_step
wifi_step-IsSameClient out fw0 fw v = ground arith

checks-IsSameClient : (out : Outside) (fw : Firmware) → IsSameClient fw (checks out no_request fw)
unfolding checks tick_step serve_request
checks-IsSameClient out fw =
    let ticked : IsSameClient fw (tick_step out fw) = record {
      buffer = refl;
      incoming = refl;
      outgoing = refl;
      active = refl;
      session = refl;
      ssrc = refl;
    } in
    wifi_step-IsSameClient out fw _ (
      performance_step-IsSameClient out fw _
        (memory_step-IsSameClient out fw _ (temperature_step-IsSameClient out fw _ ticked)))

-- The client of `fw0` is connected, plays nothing yet, and has sent `buffer` of a request.
pub record IsWaiting (fw0 : Firmware) (buffer : Text) (fw : Firmware) : Type 0 where
  pub unattended : IsUnattended fw0.thermal.shutdown_c (link fw0) fw
  pub buffered : fw.parse_buffer ≡ buffer
  pub drained : fw.incoming ≡ []
  pub outgoing : fw.outgoing ≡ fw0.outgoing
  pub active : fw.rtsp.last_activity_ms ≡ fw0.rtsp.last_activity_ms
  pub session : fw.rtsp.session_id ≡ fw0.rtsp.session_id
  pub ssrc : fw.rtsp.rtp.ssrc ≡ fw0.rtsp.rtp.ssrc

-- A round before the client has been idle for a minute.
pub record IsPrompt (fw0 : Firmware) (out : Outside) : Type 0 where
  pub calm : IsCalm fw0.thermal.shutdown_c out
  pub in_time : ltb 60000 (sub32 out.now_ms fw0.rtsp.last_activity_ms) ≡ false

negotiate-reboot :
    (out : Outside) (fw : Firmware) (o : Option Text) → (handle_request out fw o).reboot ≡ fw.reboot
unfolding handle_request
negotiate-reboot out fw none = refl
negotiate-reboot out fw (some r) = refl

module _ (fw0 : Firmware) (idle : (link fw0).is_streaming ≡ false)
    (connected : (link fw0).connected ≡ true) where
  pub checks-IsWaiting :
      (out : Outside) (buffer : Text) (fw : Firmware)
      → IsPrompt fw0 out
      → IsWaiting fw0 buffer fw
      → IsWaiting fw0 buffer (checks out no_request fw)
  checks-IsWaiting out buffer fw p v =
      let same = checks-IsSameClient out fw in
      record {
        unattended = checks-IsUnattended _ _ out fw p.calm v.unattended;
        buffered = same.buffer ∙ v.buffered;
        drained = same.incoming ∙ v.drained;
        outgoing = same.outgoing ∙ v.outgoing;
        active = same.active ∙ v.active;
        session = same.session ∙ v.session;
        ssrc = same.ssrc ∙ v.ssrc;
      }

  idle_step-same :
      (out : Outside) (buffer : Text) (fw : Firmware)
      → IsPrompt fw0 out
      → IsWaiting fw0 buffer fw
      → idle_step out fw ≡ fw
  unfolding idle_step
  idle_step-same out buffer fw p v =
      let on_time : ltb 60000 (sub32 out.now_ms fw.rtsp.last_activity_ms) ≡ false =
        rw v.active p.in_time in
      ground arith

  server_step-negotiates :
      (out : Outside) (buffer : Text) (fw : Firmware)
      → IsWaiting fw0 buffer fw
      → server_step out fw ≡ negotiate out fw
  unfolding server_step accept_client
  server_step-negotiates out buffer fw v =
      let off : (link fw).is_streaming ≡ false = rw v.unattended.same_link idle in
      let on : (link fw).connected ≡ true = rw v.unattended.same_link connected in
      simp (v.unattended.enabled, off, on) refl

  reboot_step-same :
      (out : Outside) (fw : Firmware) → fw.reboot.reboot_at ≡ 0 → reboot_step out fw ≡ fw
  unfolding reboot_step reboot_due
  reboot_step-same out fw none_asked = ground arith

  -- Behind the checks a round only listens to the client.
  rest_of_loop-negotiates :
      (out : Outside) (buffer : Text) (fw : Firmware)
      → IsPrompt fw0 out
      → IsWaiting fw0 buffer fw
      → rest_of_loop out fw ≡ negotiate out fw
  unfolding rest_of_loop negotiate
  rest_of_loop-negotiates out buffer fw p v =
      let parsed = process_rtsp (link fw).connected fw.parse_buffer (fw.incoming ++ out.arrived) in
      let heard : Firmware = record fw {
        parse_buffer = parsed.buffer;
        incoming = parsed.pending;
      } in
      ap (λ (x : Firmware). reboot_step out (server_step out x)) (idle_step-same out buffer fw p v)
      ∙ ap (reboot_step out) (server_step-negotiates out buffer fw v)
      ∙ reboot_step-same out (negotiate out fw) (
          ap (λ (x : Reboot). x.reboot_at) (negotiate-reboot out heard parsed.request)
          ∙ v.unattended.no_reboot)

  pub loop-negotiates :
      (out : Outside) (buffer : Text) (fw : Firmware)
      → IsPrompt fw0 out
      → IsWaiting fw0 buffer fw
      → loop out no_request fw ≡ negotiate out (checks out no_request fw)
  unfolding loop scheduled_reset_due
  loop-negotiates out buffer fw p v =
      let checked = checks-IsWaiting out buffer fw p v in
      simp checked.unattended.unscheduled (rest_of_loop-negotiates out buffer _ p checked)

  -- What the parser sees.
  pub heard :
      (out : Outside) (buffer : Text) (fw : Firmware)
      → IsWaiting fw0 buffer fw
      → process_rtsp (link fw).connected fw.parse_buffer (fw.incoming ++ out.arrived)
        ≡ process_rtsp true buffer out.arrived
  heard out buffer fw v =
      let on : (link fw).connected ≡ true = rw v.unattended.same_link connected in
      rw (on, v.buffered, v.drained) refl
