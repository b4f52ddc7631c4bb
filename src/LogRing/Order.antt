-- ===== src/LogRing/Order.antt =====
-- The log served to the browser (src/WebUI.cpp, httpLogs) against the list of the lines pushed.
use mathlib.Core.List.{append-nil, append_assoc}
use birdnetgo_m5stack_atom_e.Prelude.{
  ℕ, zero, suc, ◌+◌, ◌-◌, ◌%◌, ◌≤◌, ◌<◌, ◌≡◌, ◌⊎◌, inl, inr, refl, ap, sym, ◌∙◌, ◌≢◌, List, [], ◌∷◌,
  ◌++◌, arith, set, get_or, length, drop, length-set, length-append,
}
use birdnetgo_m5stack_atom_e.LogRing.{LogRing, log_cap, empty, push_log, read_logs, logs, push_all}

pub record IsRing {ℓ} {A : Type ℓ} (r : LogRing A) : Type 0 where
  pub full : length r.log_buffer ≡ log_cap
  pub head_lt : r.log_head < log_cap
  pub count_le : r.log_count ≤ log_cap

module _ {ℓ} {A : Type ℓ} where
  get_or-set_ne :
      (xs : List A) (i j : ℕ) (v d : A) → i ≢ j → get_or (set xs i v) j d ≡ get_or xs j d
  get_or-set_ne [] i j v d h = refl
  get_or-set_ne (x ∷ xs) zero zero v d h = absurd (h refl)
  get_or-set_ne (x ∷ xs) zero (suc j) v d h = refl
  get_or-set_ne (x ∷ xs) (suc i) zero v d h = refl
  get_or-set_ne (x ∷ xs) (suc i) (suc j) v d h = get_or-set_ne xs i j v d (λ e. h (ap suc e))

  get_or-set_self : (xs : List A) (i : ℕ) (v d : A) → i < length xs → get_or (set xs i v) i d ≡ v
  get_or-set_self [] i v d h = elim h [ ]
  get_or-set_self (x ∷ xs) zero v d h = refl
  get_or-set_self (x ∷ xs) (suc i) v d h = get_or-set_self xs i v d (omega arith)

  -- `k` slots from `b` on, around the end of the buffer.
  gather : A → List A → ℕ → ℕ → List A
  gather d xs b zero = []
  gather d xs b (suc k) = get_or xs (b % log_cap) d ∷ gather d xs (b + 1) k

  read_logs-gather :
      (d : A) (r : LogRing A) (i k b : ℕ)
      → r.log_head + log_cap - r.log_count + i ≡ b
      → read_logs d r i k ≡ gather d r.log_buffer b k
  unfolding read_logs gather
  read_logs-gather d r i zero b e = refl
  read_logs-gather d r i (suc k) b e = rw (e, read_logs-gather d r (i + 1) k (b + 1) (omega arith))

  gather-set_outside :
      (d : A) (xs : List A) (b k h : ℕ) (v : A)
      → k < log_cap
      → (b + k) % log_cap ≡ h
      → gather d (set xs h v) b k ≡ gather d xs b k
  unfolding gather
  gather-set_outside d xs b zero h v lt e = refl
  gather-set_outside d xs b (suc k) h v lt e = rw (
    get_or-set_ne xs h (b % log_cap) v d (omega arith),
    gather-set_outside d xs (b + 1) k h v (omega arith) (omega arith),
  )

  gather-snoc :
      (d : A) (xs : List A) (b k : ℕ)
      → gather d xs b (suc k) ≡ gather d xs b k ++ get_or xs ((b + k) % log_cap) d ∷ []
  unfolding gather
  gather-snoc d xs b zero = let e : b + 0 ≡ b = omega arith in rw e
  gather-snoc d xs b (suc k) =
      let e : b + 1 + k ≡ b + suc k = omega arith in
      rw (← e) (ap (◌∷◌ (get_or xs (b % log_cap) d)) (gather-snoc d xs (b + 1) k))

  gather_mod :
      (d : A) (xs : List A) (b c k : ℕ)
      → b % log_cap ≡ c % log_cap
      → gather d xs b k ≡ gather d xs c k
  unfolding gather
  gather_mod d xs b c zero e = refl
  gather_mod d xs b c (suc k) e = rw (e, gather_mod d xs (b + 1) (c + 1) k (omega arith))

  -- The last `n` items of a list.
  abbrev pub last_lines : ℕ → List A → List A
  last_lines n xs = drop (length xs - n) xs

  logs-gather :
      (d : A) (r : LogRing A)
      → logs d r ≡ gather d r.log_buffer (r.log_head + log_cap - r.log_count) r.log_count
  unfolding logs
  logs-gather d r = read_logs-gather d r 0 r.log_count _ (omega arith)

  pub empty-IsRing : (d : A) → IsRing (empty d)
  unfolding empty
  empty-IsRing d = record { full = refl; head_lt = omega arith; count_le = omega arith }

  pub push_log-IsRing : (r : LogRing A) (line : A) → IsRing r → IsRing (push_log r line)
  unfolding push_log
  push_log-IsRing r line v = record {
    full = length-set r.log_buffer r.log_head line ∙ v.full;
    head_lt = omega arith;
    count_le = ground (arith, v.count_le);
  }

  length-gather : (d : A) (xs : List A) (b k : ℕ) → length (gather d xs b k) ≡ k
  unfolding gather
  length-gather d xs b zero = refl
  length-gather d xs b (suc k) = ap suc (length-gather d xs (b + 1) k)

  gather_push :
      (d : A) (xs : List A) (h k : ℕ) (line : A)
      → length xs ≡ log_cap
      → h < log_cap
      → k < log_cap
      → gather d (set xs h line) (h + log_cap - k) (suc k)
        ≡ gather d xs (h + log_cap - k) k ++ line ∷ []
  gather_push d xs h k line full lt kt =
      let at : (h + log_cap - k + k) % log_cap ≡ h = omega arith in
      rw (
        gather-snoc d (set xs h line) (h + log_cap - k) k,
        gather-set_outside d xs (h + log_cap - k) k h line kt at,
        at,
        get_or-set_self xs h line d (omega arith),
      )

  -- The logs after a push, where `k` older lines stay.
  logs-push_log :
      (d : A) (r : LogRing A) (line : A) (k : ℕ)
      → IsRing r
      → k < log_cap
      → (push_log r line).log_count ≡ suc k
      → logs d (push_log r line) ≡ gather d r.log_buffer (r.log_head + log_cap - k) k ++ line ∷ []
  unfolding push_log
  logs-push_log d r line k v lt e =
      logs-gather d (push_log r line)
      ∙ gather_count
      ∙ gather_push d r.log_buffer r.log_head k line v.full v.head_lt lt
    where
      gather_count :
          gather d
            (push_log r line).log_buffer
            ((push_log r line).log_head + log_cap - (push_log r line).log_count)
            (push_log r line).log_count
          ≡ gather d (set r.log_buffer r.log_head line) (r.log_head + log_cap - k) (suc k)
      gather_count =
          rw e (gather_mod d _ _ (r.log_head + log_cap - k) (suc k) (omega (arith, v.head_lt)))

  -- While there is room the new line goes behind the others.
  push_log_room :
      (d : A) (r : LogRing A) (line : A)
      → IsRing r
      → r.log_count < log_cap
      → logs d (push_log r line) ≡ logs d r ++ line ∷ []
  push_log_room d r line v room =
      logs-push_log d r line r.log_count v room (unfold push_log in ground arith)
      ∙ ap (λ x. x ++ line ∷ []) (sym (logs-gather d r))

  -- A full ring forgets its oldest line.
  push_log_full :
      (d : A) (r : LogRing A) (line : A)
      → IsRing r
      → r.log_count ≡ log_cap
      → logs d (push_log r line) ≡ drop 1 (logs d r) ++ line ∷ []
  push_log_full d r line v full =
      logs-push_log d r line 79 v (omega arith) (unfold push_log in ground arith)
      ∙ ap (λ x. x ++ line ∷ []) (sym dropped)
    where
      dropped : drop 1 (logs d r) ≡ gather d r.log_buffer (r.log_head + log_cap - 79) 79
      dropped =
          rw (logs-gather d r, full)
            (unfold gather in gather_mod d r.log_buffer _ _ 79 (omega (arith, v.head_lt)))

  length-logs : (d : A) (r : LogRing A) → length (logs d r) ≡ r.log_count
  length-logs d r =
      ap length (logs-gather d r)
      ∙ length-gather d r.log_buffer (r.log_head + log_cap - r.log_count) r.log_count

  drop_one-append :
      (xs : List A) (y : A) → length xs ≡ log_cap → drop 1 xs ++ y ∷ [] ≡ drop 1 (xs ++ y ∷ [])
  drop_one-append [] y e = absurd (omega arith)
  drop_one-append (x ∷ xs) y e = refl

  room_or_full : (r : LogRing A) → IsRing r → (r.log_count < log_cap) ⊎ (r.log_count ≡ log_cap)
  room_or_full r v = grind (arith, v.count_le)

  logs-push_log_last :
      (d : A) (r : LogRing A) (line : A)
      → IsRing r
      → logs d (push_log r line) ≡ last_lines log_cap (logs d r ++ line ∷ [])
  logs-push_log_last d r line v = elim (room_or_full r v) [
    | inl room ↦
        let none_dropped : length (logs d r ++ line ∷ []) - log_cap ≡ 0 =
          omega (arith, length-append (logs d r) (line ∷ []), length-logs d r) in
        rw none_dropped (push_log_room d r line v room)
    | inr full ↦
        let one_dropped : length (logs d r ++ line ∷ []) - log_cap ≡ 1 =
          omega (arith, length-append (logs d r) (line ∷ []), length-logs d r) in
        rw one_dropped
          (push_log_full d r line v full ∙ drop_one-append (logs d r) line (length-logs d r ∙ full))
  ]

  last_lines-drop-append :
      (n m : ℕ) (xs ys : List A)
      → m ≤ length xs - n
      → last_lines n (drop m xs ++ ys) ≡ last_lines n (xs ++ ys)
  last_lines-drop-append n zero xs ys h = refl
  last_lines-drop-append n (suc m) [] ys h = absurd (omega arith)
  last_lines-drop-append n (suc m) (x ∷ xs) ys h =
      let e : suc (length (xs ++ ys)) - n ≡ suc (length (xs ++ ys) - n) =
        omega (arith, length-append xs ys) in
      last_lines-drop-append n m xs ys (omega arith) ∙ rw e

  logs-push_all :
      (d : A) (r : LogRing A) (lines : List A)
      → IsRing r
      → logs d (push_all r lines) ≡ last_lines log_cap (logs d r ++ lines)
  unfolding push_all
  logs-push_all d r [] v =
      let fits : length (logs d r) - log_cap ≡ 0 = omega (arith, length-logs d r, v.count_le) in
      rw (append-nil, fits)
  logs-push_all d r (line ∷ lines) v =
      logs-push_all d (push_log r line) lines (push_log-IsRing r line v)
      ∙ ap (λ x. last_lines log_cap (x ++ lines)) (logs-push_log_last d r line v)
      ∙ last_lines-drop-append log_cap _ (logs d r ++ line ∷ []) lines (omega arith)
      ∙ ap (last_lines log_cap) (append_assoc (logs d r) (line ∷ []) lines)

  logs-empty : (d : A) → logs d (empty d) ≡ []
  unfolding logs empty
  logs-empty d = refl

  -- However many lines have been pushed since boot, `/api/logs` shows the last 80 of them (all, if
  -- there are fewer), each once and oldest first.
  pub logs-last_lines :
      (blank : A) (lines : List A)
      → logs blank (push_all (empty blank) lines) ≡ last_lines log_cap lines
  logs-last_lines blank lines =
      logs-push_all blank (empty blank) lines (empty-IsRing blank)
      ∙ ap (λ x. last_lines log_cap (x ++ lines)) (logs-empty blank)
