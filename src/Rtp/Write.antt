-- ===== src/Rtp/Write.antt =====
-- writeAll (src/esp32_rtsp_mic_birdnetgo.ino). `WiFiClient::write` and `millis()` are outside of the
-- repository: a socket answers the n-th round of the loop with the time since the loop began and
-- the result of `write`. `wire` collects what the socket accepted.
pub mod Laws
use birdnetgo_m5stack_atom_e.Prelude.{
  ℕ, zero, suc, ◌+◌, Bool, true, false, List, [], ◌∷◌, ◌++◌, ltb, if◌then◌else◌, length, take, drop,
}
use birdnetgo_m5stack_atom_e.Prelude.Int.{ℤ, pos, negsuc}

pub record Reply : Type 0 where
  pub elapsed_ms : ℕ
  pub wrote : ℤ

pub record Socket : Type 0 where
  pub replies : ℕ → Reply
  pub rounds : ℕ
  pub wire : List ℕ
  pub connected : Bool

abbrev pub write_timeout_ms : ℕ
write_timeout_ms = 50

-- `w <= 0` fails.
abbrev pub accepted : ℤ → ℕ
accepted (negsuc n) = 0
accepted (pos n) = n

unfoldable pub accept : Socket → List ℕ → ℕ → Socket
accept s rest w = record s { rounds = s.rounds + 1; wire = s.wire ++ take w rest }

-- The loop, where `rest` are the bytes from `data + off` on.
unfoldable pub write_loop : ℕ → Socket → List ℕ → Socket × Bool
write_loop zero s rest = (s, false)
write_loop (suc fuel) s [] = (s, true)
write_loop (suc fuel) s (byte ∷ rest) =
    let reply = s.replies s.rounds in
    let w = accepted reply.wrote in
    let onward = write_loop fuel (accept s (byte ∷ rest) w) (drop w (byte ∷ rest)) in
    if ltb write_timeout_ms reply.elapsed_ms
    then (record s { rounds = s.rounds + 1 }, false)
    else if ltb 0 w
    then onward
    else (record s { rounds = s.rounds + 1 }, false)

-- Every round that goes on takes a byte; `Laws` has the fuel.
unfoldable pub write_all : Socket → List ℕ → Socket × Bool
write_all s bytes = write_loop (suc (length bytes)) s bytes
