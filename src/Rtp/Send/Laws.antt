-- ===== src/Rtp/Send/Laws.antt =====
-- What one packet does to the connection and to the counters, and what a run of packets does.
use mathlib.Core.List.{append_assoc, append-nil}
use birdnetgo_m5stack_atom_e.Prelude.{
  ℕ, suc, ◌+◌, ◌%◌, ◌≡◌, refl, sym, ap, ◌∙◌, Bool, true, false, Bool-cases, inl, inr, List, [], ◌∷◌,
  ◌++◌, arith, length, not, ◌&&◌, if◌then◌else◌,
}
use birdnetgo_m5stack_atom_e.Prelude.Words.{u16_mod, u32_mod}
use birdnetgo_m5stack_atom_e.Rtp.Write.{Socket, write_all}
use birdnetgo_m5stack_atom_e.Rtp.Write.Laws.{IsWritten, write_loop-IsWritten}
use birdnetgo_m5stack_atom_e.Rtp.Packet.{Rtp, interleaved_header, rtp_header, payload, frame}
use birdnetgo_m5stack_atom_e.Rtp.Packet.Decode.{IsRtp}
use birdnetgo_m5stack_atom_e.Rtp.Send.{Sender, write_packet, send_rtp_packet, account}

write_all-IsWritten : (s : Socket) (bytes : List ℕ) → IsWritten s bytes (write_all s bytes)
unfolding write_all
write_all-IsWritten s bytes = write_loop-IsWritten (suc (length bytes)) s bytes

IsWritten-append :
    (s t : Socket) (a b : List ℕ) (r : Socket × Bool)
    → IsWritten s a (t, true)
    → IsWritten t b r
    → IsWritten s (a ++ b) r
IsWritten-append s t a b r v w =
    let all_sent : v.sent ≡ a =
      sym (append-nil v.sent) ∙ ap (λ x. v.sent ++ x) (sym (v.whole refl)) ∙ v.parts in
    record {
      sent = a ++ w.sent;
      unsent = w.unsent;
      parts = append_assoc a w.sent w.unsent ∙ ap (λ x. a ++ x) w.parts;
      on_wire =
          w.on_wire
          ∙ ap (λ x. x ++ w.sent) (v.on_wire ∙ ap (λ x. s.wire ++ x) all_sent)
          ∙ append_assoc s.wire a w.sent;
      whole = w.whole;
      still = w.still ∙ v.still;
    }

IsWritten-cut :
    (s t : Socket) (a b : List ℕ) → IsWritten s a (t, false) → IsWritten s (a ++ b) (t, false)
IsWritten-cut s t a b v = record {
  sent = v.sent;
  unsent = v.unsent ++ b;
  parts = sym (append_assoc v.sent v.unsent b) ∙ ap (λ x. x ++ b) v.parts;
  on_wire = v.on_wire;
  whole = λ h. cc;
  still = v.still;
}

-- `first && second` on one connection.
abbrev both_writes : Socket × Bool → (Socket → Socket × Bool) → Socket × Bool
both_writes (t, ok) second = if not ok then (t, false) else second t

both_writes-IsWritten :
    (s : Socket) (a b : List ℕ) (r : Socket × Bool) (second : Socket → Socket × Bool)
    → IsWritten s a r
    → ((t : Socket) → IsWritten t b (second t))
    → IsWritten s (a ++ b) (both_writes r second)
both_writes-IsWritten s a b (t, true) second v w = IsWritten-append s t a b (second t) v (w t)
both_writes-IsWritten s a b (t, false) second v w = IsWritten-cut s t a b v

pub write_packet-IsWritten :
    (r : Rtp) (s : Socket) (samples : List ℕ)
    → IsWritten s (frame r samples) (write_packet r s samples)
unfolding write_packet frame
write_packet-IsWritten r s samples =
    both_writes-IsWritten s (interleaved_header (length samples)) (rtp_header r ++ payload samples)
      (write_all s (interleaved_header (length samples)))
      (λ t. both_writes (write_all t (rtp_header r)) (λ u. write_all u (payload samples)))
      (write_all-IsWritten s _)
      (λ t.
        both_writes-IsWritten t (rtp_header r) (payload samples) (write_all t (rtp_header r))
          (λ u. write_all u (payload samples)) (write_all-IsWritten t _)
          (λ u. write_all-IsWritten u _))

-- The packet reached the socket whole.
abbrev pub is_sent : Sender → List ℕ → Bool
is_sent s samples = s.socket.connected && (write_packet s.rtp s.socket samples).1

pub record IsSent (s : Sender) (samples : List ℕ) (s' : Sender) : Type 0 where
  pub on_wire : s'.socket.wire ≡ s.socket.wire ++ frame s.rtp samples
  pub sequence : s'.rtp.sequence ≡ (s.rtp.sequence + 1) % u16_mod
  pub timestamp : s'.rtp.timestamp ≡ (s.rtp.timestamp + length samples) % u32_mod
  pub ssrc : s'.rtp.ssrc ≡ s.rtp.ssrc
  pub no_failures : s'.rtp.write_failures ≡ 0
  pub stream : s'.stream ≡ s.stream
  pub connected : s'.socket.connected ≡ true

pub record IsDropped (s : Sender) (samples : List ℕ) (s' : Sender) : Type 0 where
  pub sequence : s'.rtp.sequence ≡ s.rtp.sequence
  pub timestamp : s'.rtp.timestamp ≡ s.rtp.timestamp
  pub ssrc : s'.rtp.ssrc ≡ s.rtp.ssrc

send-of-true :
    (s : Sender) (samples : List ℕ)
    → is_sent s samples ≡ true
    → send_rtp_packet s samples
      ≡ account
          (record s { socket = (write_packet s.rtp s.socket samples).0 })
          (length samples)
          true
unfolding send_rtp_packet
send-of-true s samples h = ground arith

-- A packet whose three writes succeed on a connected socket is on the wire whole, behind what was
-- there; the sequence number moves by one and the timestamp by the samples, both in their widths,
-- the failures in a row are zero, and source, flags and connection stay.
pub send_rtp_packet-IsSent :
    (s : Sender) (samples : List ℕ)
    → is_sent s samples ≡ true
    → IsSent s samples (send_rtp_packet s samples)
unfolding account
send_rtp_packet-IsSent s samples h =
    let w = write_packet-IsWritten s.rtp s.socket samples in
    let all_sent : w.sent ≡ frame s.rtp samples =
      sym (append-nil w.sent) ∙ ap (λ x. w.sent ++ x) (sym (w.whole (ground arith))) ∙ w.parts in
    rw (send-of-true s samples h) (record {
      on_wire = w.on_wire ∙ ap (λ x. s.socket.wire ++ x) all_sent;
      sequence = refl;
      timestamp = refl;
      ssrc = refl;
      no_failures = refl;
      stream = refl;
      connected = w.still ∙ ground arith;
    })

-- A packet that is not sent whole leaves the RTP counters alone.
send_rtp_packet-IsDropped :
    (s : Sender) (samples : List ℕ)
    → is_sent s samples ≡ false
    → IsDropped s samples (send_rtp_packet s samples)
unfolding send_rtp_packet
send_rtp_packet-IsDropped s samples h = ground arith

unfoldable pub send_all : Sender → List (List ℕ) → Sender
send_all s [] = s
send_all s (block ∷ blocks) = send_all (send_rtp_packet s block) blocks

-- The blocks of a run that reached the socket whole.
pub delivered : Sender → List (List ℕ) → List (List ℕ)
delivered s [] = []
delivered s (block ∷ blocks) =
    let later = delivered (send_rtp_packet s block) blocks in
    if is_sent s block then block ∷ later else later

pub total_samples : List (List ℕ) → ℕ
total_samples [] = 0
total_samples (block ∷ blocks) = length block + total_samples blocks

-- Over any run from counters that fit their fields, the sequence number has moved by the number of blocks delivered, and the timestamp
-- by the number of samples in them, both in the width of their fields.
pub send_all_counters :
    (s : Sender) (blocks : List (List ℕ))
    → IsRtp s.rtp
    → let s' = send_all s blocks in
      let sent = delivered s blocks in
      (s'.rtp.sequence ≡ (s.rtp.sequence + length sent) % u16_mod)
      × (s'.rtp.timestamp ≡ (s.rtp.timestamp + total_samples sent) % u32_mod)
unfolding send_all delivered total_samples
send_all_counters s [] v = (omega arith, omega arith)
send_all_counters s (block ∷ blocks) v = elim (Bool-cases (is_sent s block)) [
  | inl sent ↦
      let one = send_rtp_packet-IsSent s block sent in
      let next = send_all_counters (send_rtp_packet s block) blocks (omega arith) in
      rw sent (omega arith, omega arith)
  | inr not_sent ↦
      let one = send_rtp_packet-IsDropped s block not_sent in
      let next = send_all_counters (send_rtp_packet s block) blocks (omega arith) in
      rw not_sent (omega arith, omega arith)
]
