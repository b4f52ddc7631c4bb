-- ===== src/LogRing.antt =====
-- The in-memory log of the web interface (src/WebUI.cpp: logBuffer, logHead, logCount,
-- webui_pushLog, httpLogs). A line is of any type `A`; `blank` is what an unwritten slot holds.
-- The spinlock makes each call atomic, so a call is one function on the state.
pub mod Order
pub mod Print
pub mod Tests
use birdnetgo_m5stack_atom_e.Prelude.{
  ℕ, zero, suc, ◌+◌, ◌-◌, ◌%◌, List, [], ◌∷◌, ltb, if◌then◌else◌, set, get_or, replicate,
}

abbrev pub log_cap : ℕ
log_cap = 80

pub record LogRing {ℓ} (A : Type ℓ) : Type ℓ where
  pub log_buffer : List A
  pub log_head : ℕ
  pub log_count : ℕ

module _ {ℓ} {A : Type ℓ} where
  pub empty : A → LogRing A
  empty blank = record { log_buffer = replicate log_cap blank; log_head = 0; log_count = 0 }

  pub push_log : LogRing A → A → LogRing A
  push_log r line = record {
    log_buffer = set r.log_buffer r.log_head line;
    log_head = (r.log_head + 1) % log_cap;
    log_count = if ltb r.log_count log_cap then r.log_count + 1 else r.log_count;
  }

  -- The rounds `i`, `i + 1`, ... of the loop of `httpLogs`, with the number of rounds left.
  pub read_logs : A → LogRing A → ℕ → ℕ → List A
  read_logs blank r i zero = []
  read_logs blank r i (suc left) =
      get_or r.log_buffer ((r.log_head + log_cap - r.log_count + i) % log_cap) blank
      ∷ read_logs blank r (i + 1) left

  pub logs : A → LogRing A → List A
  unfolding read_logs
  logs blank r = read_logs blank r 0 r.log_count

  pub push_all : LogRing A → List A → LogRing A
  push_all r [] = r
  push_all r (line ∷ lines) = push_all (push_log r line) lines
