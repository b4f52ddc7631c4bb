-- ===== src/Rtp/Write/Laws.antt =====
-- The outcomes of the loop of writeAll (src/esp32_rtsp_mic_birdnetgo.ino).
use mathlib.Core.List.{append-nil, append_assoc}
use birdnetgo_m5stack_atom_e.Prelude.{
  ℕ, zero, suc, ◌<◌, ◌≡◌, refl, sym, ap, ◌∙◌, Bool, true, false, Bool-cases, inl, inr, List, [],
  ◌∷◌, ◌++◌, arith, ltb, length, take, drop, take-append-drop, length-drop,
}
use birdnetgo_m5stack_atom_e.Rtp.Write.{Socket, write_loop, accept, accepted, write_timeout_ms}

-- `r` is the outcome of writing `rest` on `s`: the wire got a first part of it, and all of it if
-- the write succeeded.
pub record IsWritten (s : Socket) (rest : List ℕ) (r : Socket × Bool) : Type 0 where
  pub sent : List ℕ
  pub unsent : List ℕ
  pub parts : sent ++ unsent ≡ rest
  pub on_wire : r.0.wire ≡ s.wire ++ sent
  pub whole : r.1 ≡ true → unsent ≡ []
  pub still : r.0.connected ≡ s.connected

stopped-IsWritten :
    (s s' : Socket) (rest : List ℕ)
    → s'.wire ≡ s.wire
    → s'.connected ≡ s.connected
    → IsWritten s rest (s', false)
stopped-IsWritten s s' rest e c = record {
  sent = [];
  unsent = rest;
  parts = refl;
  on_wire = e ∙ sym (append-nil s.wire);
  whole = λ h. cc;
  still = c;
}

accepted-IsWritten :
    (s : Socket) (rest : List ℕ) (w : ℕ) (r : Socket × Bool)
    → IsWritten (accept s rest w) (drop w rest) r
    → IsWritten s rest r
unfolding accept
accepted-IsWritten s rest w r v = record {
  sent = take w rest ++ v.sent;
  unsent = v.unsent;
  parts =
      append_assoc (take w rest) v.sent v.unsent
      ∙ ap (λ x. take w rest ++ x) v.parts
      ∙ take-append-drop w rest;
  on_wire = v.on_wire ∙ append_assoc s.wire (take w rest) v.sent;
  whole = v.whole;
  still = v.still;
}

pub write_loop-IsWritten :
    (fuel : ℕ) (s : Socket) (rest : List ℕ) → IsWritten s rest (write_loop fuel s rest)
unfolding write_loop
write_loop-IsWritten zero s rest = stopped-IsWritten s s rest refl refl
write_loop-IsWritten (suc fuel) s [] = record {
  sent = [];
  unsent = [];
  parts = refl;
  on_wire = sym (append-nil s.wire);
  whole = λ h. refl;
  still = refl;
}
write_loop-IsWritten (suc fuel) s (byte ∷ rest) =
    let reply = s.replies s.rounds in
    let w = accepted reply.wrote in
    elim (Bool-cases (ltb write_timeout_ms reply.elapsed_ms)) [
      | inl late ↦ rw late (stopped-IsWritten s _ (byte ∷ rest) refl refl)
      | inr soon ↦ rw soon (elim (Bool-cases (ltb 0 w)) [
        | inl some_taken ↦ rw some_taken (
            accepted-IsWritten s (byte ∷ rest) w _
              (write_loop-IsWritten fuel (accept s (byte ∷ rest) w) (drop w (byte ∷ rest))))
        | inr none_taken ↦ rw none_taken (stopped-IsWritten s _ (byte ∷ rest) refl refl)
      ])
    ]

-- With any two fuels above the number of bytes, the loop has the same outcome.
pub write_loop_enough :
    (f g : ℕ) (s : Socket) (rest : List ℕ)
    → length rest < f
    → length rest < g
    → write_loop f s rest ≡ write_loop g s rest
unfolding write_loop
write_loop_enough zero g s rest h k = absurd (omega arith)
write_loop_enough (suc f) zero s rest h k = absurd (omega arith)
write_loop_enough (suc f) (suc g) s [] h k = refl
write_loop_enough (suc f) (suc g) s (byte ∷ rest) h k =
    let reply = s.replies s.rounds in
    let w = accepted reply.wrote in
    ground (
      arith,
      length-drop w (byte ∷ rest),
      write_loop_enough f g (accept s (byte ∷ rest) w) (drop w (byte ∷ rest)),
    )
