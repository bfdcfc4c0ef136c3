-- ===== src/Pipe/Input/Framing.antt =====
-- What a read of an input pipe makes of the bytes of the stream.
use joule.Base.{
  ◌<◌, ◌⊎◌, inl, ◌==◌, leb, ℕ, ◌+◌, ◌-◌, ◌*◌, ◌%◌, ◌≤◌, ◌≡◌, refl, ap, sym, subst, ◌∙◌, true, false,
  ◌&&◌, Option, List, [], ◌∷◌, ◌++◌, length, take, drop, ltb, if◌then◌else◌, arith, if_ind,
  append_assoc, append-nil, take-append-drop,
}
use native.Mathlib.Nat.{zero-mod, zero-div}
use joule.Base.Int.{ℤ, pos, negsuc, ltb_ℤ, ◌*ℤ◌}
use joule.Pipe.{Result, ok, raised, is_nil, closed}
use joule.Pipe.Input.{
  Layout, InputPipe, Frame, upto, from, rows_of, frombuffer, find_interval_token, frame_at,
  last_index, append_rows, take_frame, process_bytes, align_bytes, collect, read_more, read,
  max_rows, is_zero,
}
use joule.Pipe.Input.Token.{is_token}
use joule.Pipe.Input.Cutting.{
  IsClean, frame_whole, frame_gap, frame_no_gap, frame-IsClean, frame_token,
}

abbrev joined : List (List ℕ) → List ℕ
joined [] = []
joined (bytes ∷ arrivals) = bytes ++ joined arrivals

-- The bytes that are not yet rows: those kept back, and those to come.
abbrev pub pending : {Row : Type 0} → InputPipe Row → List ℕ
pending p = p.unprocessed ++ (p.byte_buffer ++ joined p.arrivals)

-- What a read of a pipe with the rows `before` and the bytes `bytes` comes to: the first bytes become rows
-- behind those before, none of them the token; then come those of the gap, which are none or decode to a
-- token, and none where there is no interval break; and the others are still pending.
pub record Framed {Row : Type 0} ⦃layout : Layout Row⦄ (before : List Row) (bytes : List ℕ)
    (rows : List Row) (q : InputPipe Row) : Type 0 where
  pub row_bytes : List ℕ
  pub gap : List ℕ
  pub new_rows : List Row
  pub whole : bytes ≡ row_bytes ++ (gap ++ pending q)
  pub decoded : frombuffer row_bytes ≡ ok new_rows
  pub clean : IsClean Row new_rows row_bytes
  pub appended : rows ≡ before ++ new_rows
  pub buffered : q.buffer ≡ rows
  pub token : (gap ≡ []) ⊎ (is_token Row gap ≡ true)
  pub short_gap : length gap ≤ length layout.token_bytes
  pub no_gap : q.interval_break ≡ false → gap ≡ []

-- The array of the pipe has room for a row.
abbrev pub HasRoom : {Row : Type 0} → InputPipe Row → Type 0
HasRoom p = length p.buffer < p.buffer_size * 2

nil_of : {A : Type 0} (xs : List A) → is_nil xs ≡ true → xs ≡ []
nil_of [] h = refl
nil_of (x ∷ xs) h = absurd (ground arith)

upto-from : (n : ℤ) (bytes : List ℕ) → upto n bytes ++ from n bytes ≡ bytes
upto-from (pos n) bytes = take-append-drop n bytes
upto-from (negsuc n) bytes = take-append-drop (length bytes - (n + 1)) bytes

module _ {Row : Type 0} ⦃layout : Layout Row⦄ where
  abbrev pub Frames : List Row → List ℕ → Result (List Row) × InputPipe Row → Type 0
  Frames before bytes (ok rows, q) = Framed before bytes rows q
  Frames before bytes (raised e, q) = q.buffer ≡ before

  fits :
      (rows : List Row) (p : InputPipe Row)
      → HasRoom p
      → length rows ≡ 1
      → leb (length p.buffer + length rows) (p.buffer_size * 2) ≡ true
  fits rows p room one = ground (arith, room, one)

  append_rows-Frames :
      (frame : Frame) (o : Result (List Row)) (bytes : List ℕ) (p : InputPipe Row)
      → HasRoom p
      → frombuffer frame.row_bytes ≡ o
      → ((rows : List Row)
          → frombuffer frame.row_bytes ≡ ok rows
          → IsClean Row rows frame.row_bytes)
      → bytes ≡ frame.row_bytes ++ (frame.gap ++ pending p)
      → (frame.gap ≡ []) ⊎ (is_token Row frame.gap ≡ true)
      → length frame.gap ≤ length layout.token_bytes
      → (p.interval_break ≡ false → frame.gap ≡ [])
      → Frames p.buffer bytes (append_rows frame o p)
  unfolding append_rows
  append_rows-Frames frame (raised e) bytes p room d clean w token short none_there = refl
  append_rows-Frames frame (ok rows) bytes p room d clean w token short none_there =
      if_ind (Frames p.buffer bytes) (leb (length p.buffer + length rows) (p.buffer_size * 2))
        (λ _. record {
          row_bytes = frame.row_bytes;
          gap = frame.gap;
          new_rows = rows;
          whole = w;
          decoded = d;
          clean = clean rows d;
          appended = refl;
          buffered = refl;
          token = token;
          short_gap = short;
          no_gap = none_there;
        })
        λ full.
          if_ind (Frames p.buffer bytes) (length rows == 1)
            (λ one. let fit = fits rows p room (ground (arith, one)) in absurd cc) (λ _. refl)

  take_frame-Frames :
      (loc : Result (Option ℕ)) (bytes : List ℕ) (p : InputPipe Row)
      → HasRoom p
      → find_interval_token Row bytes ≡ loc
      → Frames p.buffer (bytes ++ pending p) (take_frame loc bytes p)
  take_frame-Frames (raised e) bytes p room found = refl
  take_frame-Frames (ok loc) bytes p room found =
      let frame = frame_at Row bytes loc in
      let later = p.byte_buffer ++ joined p.arrivals in
      append_rows-Frames frame (frombuffer frame.row_bytes) (bytes ++ pending p)
        (record p {
          unprocessed = frame.rest ++ p.unprocessed;
          interval_break = frame.interval_break;
        })
        room refl (λ rows d. frame-IsClean Row bytes loc rows found d)
        (sym (frame_whole Row bytes (pending p) loc)
          ∙ ap (λ l. frame.row_bytes ++ (frame.gap ++ l))
              (sym (append_assoc frame.rest p.unprocessed later)))
        (frame_token Row bytes loc found) (frame_gap Row bytes loc) (frame_no_gap Row bytes loc)

  process_bytes-Frames :
      (max_bytes : ℤ) (bytes : List ℕ) (p : InputPipe Row)
      → HasRoom p
      → Frames p.buffer
          (p.unprocessed ++ (bytes ++ (p.byte_buffer ++ joined p.arrivals)))
          (process_bytes max_bytes bytes p)
  unfolding process_bytes
  process_bytes-Frames max_bytes bytes p room =
      let later = p.byte_buffer ++ joined p.arrivals in
      let all = p.unprocessed ++ bytes in
      let together = append_assoc p.unprocessed bytes later in
      let split =
        sym (append_assoc (upto max_bytes all) (from max_bytes all) later)
        ∙ ap (λ l. l ++ later) (upto-from max_bytes all)
        ∙ together in
      if_ind (Frames p.buffer (p.unprocessed ++ (bytes ++ later))) (is_nil p.unprocessed)
        (λ h.
          let empty = nil_of p.unprocessed h in
          subst (λ b. Frames p.buffer b (take_frame (find_interval_token Row bytes) bytes p))
            (ap (λ l. bytes ++ (l ++ later)) empty ∙ sym (ap (λ l. l ++ (bytes ++ later)) empty))
            (take_frame-Frames (find_interval_token Row bytes) bytes p room refl))
        λ _.
          if_ind (Frames p.buffer (p.unprocessed ++ (bytes ++ later)))
            (ltb_ℤ max_bytes (pos (length all)))
            (λ _.
              let part = upto max_bytes all in
              let q = record p { unprocessed = from max_bytes all } in
              subst (λ b. Frames p.buffer b (take_frame (find_interval_token Row part) part q))
                split (take_frame-Frames (find_interval_token Row part) part q room refl))
            (λ _.
              let q = record p { unprocessed = [] } in
              subst (λ b. Frames p.buffer b (take_frame (find_interval_token Row all) all q))
                together (take_frame-Frames (find_interval_token Row all) all q room refl))

  align_bytes-Frames :
      (max_bytes : ℤ) (raw : List ℕ) (p : InputPipe Row)
      → HasRoom p
      → Frames p.buffer
          (p.unprocessed ++ (p.byte_buffer ++ (raw ++ joined p.arrivals)))
          (align_bytes max_bytes raw p)
  unfolding align_bytes
  align_bytes-Frames max_bytes raw p room =
      let extra = (length raw + length p.byte_buffer) % layout.rowbytes in
      let kept = length raw - extra in
      let later = joined p.arrivals in
      if_ind (Frames p.buffer (p.unprocessed ++ (p.byte_buffer ++ (raw ++ later)))) (ltb 0 extra)
        (λ _.
          let q = record p { byte_buffer = drop kept raw } in
          let bytes = p.byte_buffer ++ take kept raw in
          subst (λ b. Frames p.buffer (p.unprocessed ++ b) (process_bytes max_bytes bytes q))
            (append_assoc p.byte_buffer (take kept raw) (drop kept raw ++ later)
              ∙ ap (λ l. p.byte_buffer ++ l)
                  (sym (append_assoc (take kept raw) (drop kept raw) later)
                    ∙ ap (λ l. l ++ later) (take-append-drop kept raw)))
            (process_bytes-Frames max_bytes bytes q room))
        (λ _.
          let q = record p { byte_buffer = [] } in
          subst
            (λ b.
              Frames p.buffer (p.unprocessed ++ b)
                (process_bytes max_bytes (p.byte_buffer ++ raw) q))
            (append_assoc p.byte_buffer raw later)
            (process_bytes-Frames max_bytes (p.byte_buffer ++ raw) q room))

  collect-Frames :
      (max_bytes : ℤ) (raw : List ℕ) (arrivals : List (List ℕ)) (p : InputPipe Row)
      → HasRoom p
      → Frames p.buffer
          (p.unprocessed ++ (p.byte_buffer ++ (raw ++ joined arrivals)))
          (collect max_bytes raw arrivals p)
  unfolding collect
  collect-Frames max_bytes raw [] p room =
      let done = record p { arrivals = [] } in
      let bytes = p.unprocessed ++ (p.byte_buffer ++ (raw ++ [])) in
      if_ind (Frames p.buffer bytes) (is_nil p.unprocessed && (last_index p == 0)) (λ _. refl)
        λ _.
          if_ind (λ q. Frames p.buffer bytes (align_bytes max_bytes raw q)) (is_nil p.unprocessed)
            (λ _. align_bytes-Frames max_bytes raw (record done { last_read = true }) room)
            (λ _. align_bytes-Frames max_bytes raw done room)
  collect-Frames max_bytes raw (new_data ∷ arrivals) p room =
      let bytes = p.unprocessed ++ (p.byte_buffer ++ (raw ++ (new_data ++ joined arrivals))) in
      let regroup =
        ap (λ l. p.unprocessed ++ (p.byte_buffer ++ l))
          (append_assoc raw new_data (joined arrivals)) in
      let later = collect-Frames max_bytes (raw ++ new_data) arrivals p room in
      let ready =
        align_bytes-Frames max_bytes (raw ++ new_data) (record p { arrivals = arrivals }) room in
      if_ind (Frames p.buffer bytes) (ltb (length (raw ++ new_data)) layout.rowbytes)
        (λ _.
          subst (λ b. Frames p.buffer b (collect max_bytes (raw ++ new_data) arrivals p)) regroup
            later)
        (λ _.
          subst
            (λ b.
              Frames p.buffer b
                (align_bytes max_bytes (raw ++ new_data) (record p { arrivals = arrivals })))
            regroup ready)

  nothing : frombuffer {Row = Row} [] ≡ ok []
  unfolding frombuffer rows_of
  nothing = rw (zero-mod layout.rowbytes, zero-div layout.rowbytes) refl

  -- A read that returns what is in the buffer.
  again :
      (p q : InputPipe Row)
      → q.buffer ≡ p.buffer
      → pending q ≡ pending p
      → Framed p.buffer (pending p) p.buffer q
  again p q same left = record {
    row_bytes = [];
    gap = [];
    new_rows = [];
    whole = sym left;
    decoded = nothing;
    clean = λ k below. absurd (omega (arith, below));
    appended = sym (append-nil p.buffer);
    buffered = same;
    token = inl refl;
    short_gap = omega arith;
    no_gap = λ _. refl;
  }

  read_more-Frames : (p : InputPipe Row) → HasRoom p → Frames p.buffer (pending p) (read_more p)
  unfolding read_more
  read_more-Frames p room =
      if_ind (Frames p.buffer (pending p)) (is_zero (max_rows p)) (λ _. again p p refl refl)
        (λ _. collect-Frames (max_rows p *ℤ pos layout.rowbytes) [] p.arrivals p room)

  -- Whatever arrives, where the array of the pipe is not full, a read either raises and leaves the rows in the
  -- buffer as they are, or returns them with the rows that the first pending bytes decode to behind
  -- them. None of the new rows has the bytes of the token; the bytes between these and those that are
  -- still pending are none or decode to a token, are at most those of one row, and are none where there
  -- is no interval break.
  pub read-Frames : (p : InputPipe Row) → HasRoom p → Frames p.buffer (pending p) (read p)
  unfolding read
  read-Frames p room =
      let made = if p.has_reader then p else record p { has_reader = true; reader_close = true } in
      if_ind (Frames p.buffer (pending p)) p.reread
        (λ _. again p (record p { reread = false }) refl refl)
        λ _.
          if_ind
            (λ (q : InputPipe Row). Frames p.buffer (pending p) (
              if q.is_closed
              then (
                raised closed,
                record q {
                  reader_closes = if q.reader_close then q.reader_closes + 1 else q.reader_closes;
                },
              )
              else read_more q))
            p.has_reader
            (λ _.
              if_ind (Frames p.buffer (pending p)) p.is_closed (λ _. refl)
                (λ _. read_more-Frames p room))
            (λ _.
              if_ind (Frames p.buffer (pending p)) p.is_closed (λ _. refl)
                (λ _. read_more-Frames (record p { has_reader = true; reader_close = true }) room))
