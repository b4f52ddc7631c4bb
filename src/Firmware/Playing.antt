-- ===== src/Firmware/Playing.antt =====
-- The bytes of a PLAY request over rounds of both cores (src/esp32_rtsp_mic_birdnetgo.ino), up to the
-- stream that it starts.
use mathlib.Core.List.{append_assoc, append-nil}
use birdnetgo_m5stack_atom_e.Prelude.{
  ◌<◌, ◌≡◌, refl, sym, ap, ◌∙◌, Bool, true, false, none, some, List, [], ◌∷◌, ◌++◌, arith, length,
  length-append, All,
}
use birdnetgo_m5stack_atom_e.Prelude.Text.{Text, text}
use birdnetgo_m5stack_atom_e.Prelude.Float.{Float}
use birdnetgo_m5stack_atom_e.Stream.Control.{hand_over}
use birdnetgo_m5stack_atom_e.Rtsp.Parse.{process_rtsp}
use birdnetgo_m5stack_atom_e.Rtsp.Parse.Laws.{blank_line}
use birdnetgo_m5stack_atom_e.Rtsp.Parse.Stream.{IsRequest}
use birdnetgo_m5stack_atom_e.Rtsp.Parse.Turns.{process_rtsp-part}
use birdnetgo_m5stack_atom_e.Rtsp.Command.{
  crlf, cseq_of, play, method_of, answer_head, answer_tail, obey, handle_rtsp_command,
}
use birdnetgo_m5stack_atom_e.Audio.Task as Audio
use birdnetgo_m5stack_atom_e.Audio.Task.{captured, sample_pattern, process_block, round}
use birdnetgo_m5stack_atom_e.Firmware.{Firmware, link, Outside}
use birdnetgo_m5stack_atom_e.Firmware.Web.{no_request}
use birdnetgo_m5stack_atom_e.Firmware.Loop.{handle_request, negotiate, loop}
use birdnetgo_m5stack_atom_e.Firmware.Hung.{same_parts-IsUnattended}
use birdnetgo_m5stack_atom_e.Firmware.Listening.{
  IsWaiting, IsPrompt, checks-IsWaiting, loop-negotiates, heard,
}
use birdnetgo_m5stack_atom_e.Firmware.Cores.{
  Machine, core1_view, publish, CoreStep, core0, core1, core_step, core_steps,
}

-- The answer to PLAY.
abbrev pub play_answer : Firmware → Text → Text
play_answer fw r =
    answer_head (cseq_of r)
    ++ ((text "Session: " ++ (fw.rtsp.session_id ++ crlf))
        ++ (text "Range: npt=0.000-" ++ (crlf ++ crlf)))

-- The stream that it has promised.
pub record IsPlayed (fw0 : Firmware) (created : Bool) (r : Text) (fw : Firmware) : Type 0 where
  pub same_link : link fw ≡ hand_over created (link fw0)
  pub sequence : fw.rtsp.rtp.sequence ≡ 0
  pub timestamp : fw.rtsp.rtp.timestamp ≡ 0
  pub ssrc : fw.rtsp.rtp.ssrc ≡ fw0.rtsp.rtp.ssrc
  pub answered : fw.outgoing ≡ fw0.outgoing ++ play_answer fw0 r

module _ (fw0 : Firmware) (idle : (link fw0).is_streaming ≡ false)
    (connected : (link fw0).connected ≡ true) where
  negotiate-IsWaiting :
      (out : Outside) (buffer next : Text) (fw : Firmware)
      → process_rtsp true buffer out.arrived
        ≡ record { buffer = next; pending = []; request = none }
      → IsWaiting fw0 buffer fw
      → IsWaiting fw0 next (negotiate out fw)
  unfolding negotiate handle_request
  negotiate-IsWaiting out buffer next fw e v =
      rw (heard fw0 idle connected out buffer fw v ∙ e) (record {
        unattended = same_parts-IsUnattended v.unattended refl refl refl;
        buffered = refl;
        drained = refl;
        outgoing = v.outgoing;
        active = v.active;
        session = v.session;
        ssrc = v.ssrc;
      })

  negotiate-IsPlayed :
      (out : Outside) (buffer r : Text) (fw : Firmware)
      → process_rtsp true buffer out.arrived
        ≡ record { buffer = []; pending = []; request = some r }
      → method_of r ≡ play
      → IsWaiting fw0 buffer fw
      → IsPlayed fw0 out.rtsp_env.created r (negotiate out fw)
  unfolding negotiate handle_request handle_rtsp_command obey answer_tail
  negotiate-IsPlayed out buffer r fw e is_play v =
      rw (heard fw0 idle connected out buffer fw v ∙ e, is_play)
        (record {
          same_link = ap (hand_over out.rtsp_env.created) v.unattended.same_link;
          sequence = refl;
          timestamp = refl;
          ssrc = v.ssrc;
          answered = rw (v.outgoing, v.session) refl;
        })

  loop-IsWaiting :
      (out : Outside) (buffer next : Text) (fw : Firmware)
      → IsPrompt fw0 out
      → process_rtsp true buffer out.arrived
        ≡ record { buffer = next; pending = []; request = none }
      → IsWaiting fw0 buffer fw
      → IsWaiting fw0 next (loop out no_request fw)
  loop-IsWaiting out buffer next fw p e v =
      rw (loop-negotiates fw0 idle connected out buffer fw p v) (
        negotiate-IsWaiting out buffer next _ e
          (checks-IsWaiting fw0 idle connected out buffer fw p v))

  pub loop-IsPlayed :
      (out : Outside) (buffer r : Text) (fw : Firmware)
      → IsPrompt fw0 out
      → process_rtsp true buffer out.arrived
        ≡ record { buffer = []; pending = []; request = some r }
      → method_of r ≡ play
      → IsWaiting fw0 buffer fw
      → IsPlayed fw0 out.rtsp_env.created r (loop out no_request fw)
  loop-IsPlayed out buffer r fw p e is_play v =
      rw (loop-negotiates fw0 idle connected out buffer fw p v) (
        negotiate-IsPlayed out buffer r _ e is_play
          (checks-IsWaiting fw0 idle connected out buffer fw p v))

-- What arrives of the client in some rounds.
unfoldable pub arrivals : {F : Type 0} → List (CoreStep F) → Text
arrivals [] = []
arrivals (core0 out r ∷ ss) = out.arrived ++ arrivals ss
arrivals (core1 env ∷ ss) = arrivals ss

-- A round of Core 0 before the client is idle for a minute, without a request of the web interface,
-- or any round of Core 1.
abbrev pub Hears : {F : Type 0} → Firmware → CoreStep F → Type 0
Hears fw0 (core0 out r) = IsPrompt fw0 out × (r ≡ no_request)
Hears fw0 (core1 env) = Unit {0}

module _ {F : Type 0} ⦃f : Float F⦄ (fw0 : Firmware) (idle : (link fw0).is_streaming ≡ false)
    (unasked : (link fw0).stop_requested ≡ false) (connected : (link fw0).connected ≡ true) where
  core1-IsWaiting :
      (env : Audio.Env F) (buffer : Text) (m : Machine F)
      → IsWaiting fw0 buffer m.firmware
      → IsWaiting fw0 buffer (core_step (core1 env) m).firmware
  unfolding core_step publish core1_view round
  core1-IsWaiting env buffer m v =
      let off : (link m.firmware).is_streaming ≡ false = rw v.unattended.same_link idle in
      let none_asked : (link m.firmware).stop_requested ≡ false =
        rw v.unattended.same_link unasked in
      simp (off, none_asked) v

  pub core_steps-IsWaiting :
      (ss : List (CoreStep F)) (buffer next r : Text) (m : Machine F)
      → IsRequest r
      → All (Hears fw0) ss
      → (buffer ++ arrivals ss) ++ next ≡ r ++ blank_line
      → 0 < length next
      → IsWaiting fw0 buffer m.firmware
      → IsWaiting fw0 (buffer ++ arrivals ss) (core_steps ss m).firmware
  unfolding core_steps arrivals core_step
  core_steps-IsWaiting [] buffer next r m v h e more w = rw append-nil w
  core_steps-IsWaiting (core0 out q ∷ ss) buffer next r m v h e more w =
      let ahead : ((buffer ++ out.arrived) ++ arrivals ss) ++ next ≡ r ++ blank_line =
        ap (λ (x : Text). x ++ next) (append_assoc buffer out.arrived (arrivals ss)) ∙ e in
      let part =
        process_rtsp-part buffer out.arrived (arrivals ss ++ next) r v
          (sym (append_assoc (buffer ++ out.arrived) (arrivals ss) next) ∙ ahead)
          (omega (arith, more, length-append (arrivals ss) next)) in
      let w' =
        loop-IsWaiting fw0 idle connected out buffer (buffer ++ out.arrived) m.firmware h.0.0 part
          w in
      rw (h.0.1, sym (append_assoc buffer out.arrived (arrivals ss)))
        (core_steps-IsWaiting ss (buffer ++ out.arrived) next r _ v h.1 ahead more w')
  core_steps-IsWaiting (core1 env ∷ ss) buffer next r m v h e more w =
      core_steps-IsWaiting ss buffer next r _ v h.1 e more (core1-IsWaiting env buffer m w)
