-- ===== src/Connection/Halves/Laws.antt =====
-- The halves of a connection, compared with a reader and a writer that run alone (`handle_session`,
-- `reader_task`, `writer_task` of jftermd/src/server.rs).
use jfterm_muxer.Base.{
  true_is_not_false, none_is_not_some, ℕ, ◌≡◌, refl, sym, ap, ◌∙◌, subst, inl, inr, ◌⊎◌, Bool, true,
  false, none, some, some-injective, List, [], ◌∷◌, ◌++◌, append-nil, append_assoc, if◌then◌else◌,
  Bool-cases, Option-cases,
}
use jfterm_muxer.Protocol.{Frame, FrameDecoder}
use jfterm_muxer.Protocol.Stream.{encode_all}
use jfterm_muxer.Connection.{Decode, Reader, Command, reads, reader_task}
use jfterm_muxer.Connection.Halves.{
  Halves, HalfEvent, begins, aborts_buffered, begun, reads_bytes, reads_end, takes, queue_closed,
  aborts_reader, aborts_writer, both_ended, half_step, half_steps, started, when,
}
use jfterm_muxer.Connection.Halves.Reads.{
  pieces_of, all_pieces, taken_of, all_taken, both_true, not-true, when-some,
}
use jfterm_muxer.Connection.Halves.Beside.{
  Beside, read-Beside, end-Beside, written-Beside, begin-Beside, cut_begun-Beside, cut_read-Beside,
  cut_write-Beside, nil-Beside,
}

module _ (decode : Decode) where
  step-Beside :
      (r : Reader) (h k : Halves) (ps : List (List ℕ)) (q : List Frame) (e : HalfEvent)
      → half_step decode h e ≡ some k
      → Beside decode r h ps q
      → Beside decode r k (ps ++ pieces_of e) (q ++ taken_of e)
  unfolding half_step
  step-Beside r h k ps q (reads_bytes piece) s b =
      let (g, z) = when-some decode _ _ k s in
      let (o, j) = both_true _ _ g in
      let (d, on) = both_true _ _ j in
      subst (λ x. Beside decode r x (ps ++ (piece ∷ [])) (q ++ [])) z
        (nil-Beside decode r _ _ _ q _ refl (sym (append-nil q))
          (read-Beside decode r h ps q piece (not-true _ o) (not-true _ d) on b))
  step-Beside r h k ps q begins s b =
      let (g, z) = when-some decode _ _ k s in
      let (o, n) = both_true _ _ g in
      subst (λ x. Beside decode r x (ps ++ []) (q ++ [])) z
        (nil-Beside decode r _ ps _ q _ (sym (append-nil ps)) (sym (append-nil q))
          (begin-Beside decode r h ps q (not-true _ o) (not-true _ n) b))
  step-Beside r h k ps q (aborts_buffered n) s b =
      let (g, z) = when-some decode _ _ k s in
      let (a, w) = both_true _ _ g in
      let (o, f) = both_true _ _ a in
      subst (λ x. Beside decode r x (ps ++ []) (q ++ [])) z
        (nil-Beside decode r _ ps _ q _ (sym (append-nil ps)) (sym (append-nil q))
          (cut_begun-Beside decode r h ps q n (not-true _ o) (not-true _ f) (not-true _ w) b))
  step-Beside r h k ps q reads_end s b =
      let (g, z) = when-some decode _ _ k s in
      let (o, j) = both_true _ _ g in
      let (d, on) = both_true _ _ j in
      subst (λ x. Beside decode r x (ps ++ []) (q ++ [])) z
        (nil-Beside decode r _ ps _ q _ (sym (append-nil ps)) (sym (append-nil q))
          (end-Beside decode r h ps q (not-true _ o) on b))
  step-Beside r h k ps q (takes f w) s b =
      let (g, z) = when-some decode _ _ k s in
      let (o, t) = both_true _ _ g in
      subst (λ x. Beside decode r x (ps ++ []) (q ++ (f ∷ []))) z
        (nil-Beside decode r _ ps _ _ _ (sym (append-nil ps)) refl
          (written-Beside decode r h ps q f w (not-true _ o) t b))
  step-Beside r h k ps q queue_closed s b =
      let (g, z) = when-some decode _ _ k s in
      let (o, t) = both_true _ _ g in
      subst (λ x. Beside decode r x (ps ++ []) (q ++ [])) z
        (nil-Beside decode r _ ps _ q _ (sym (append-nil ps)) (sym (append-nil q)) (record {
          fresh = b.fresh;
          on = b.on;
          commands = b.commands;
          sent = b.sent;
          out = b.out;
          wrote = λ x. absurd (true_is_not_false (sym x));
          shut = λ x. refl;
          over = λ x. absurd (true_is_not_false (sym x ∙ not-true _ o));
        }))
  step-Beside r h k ps q (aborts_reader at) s b =
      let (g, z) = when-some decode _ _ k s in
      let (a, w) = both_true _ _ g in
      let (o, j) = both_true _ _ a in
      let (d, on) = both_true _ _ j in
      subst (λ x. Beside decode r x (ps ++ pieces_of (aborts_reader at)) (q ++ [])) z
        (nil-Beside decode r _ _ _ q _ refl (sym (append-nil q))
          (cut_read-Beside decode r h ps q at (not-true _ o) (not-true _ d) (not-true _ w) on b))
  step-Beside r h k ps q (aborts_writer at) s b =
      let (g, z) = when-some decode _ _ k s in
      let (a, d) = both_true _ _ g in
      let (o, t) = both_true _ _ a in
      subst (λ x. Beside decode r x (ps ++ []) (q ++ taken_of (aborts_writer at))) z
        (nil-Beside decode r _ ps _ _ _ (sym (append-nil ps)) refl
          (cut_write-Beside decode r h ps q at (not-true _ o) t d b))
  step-Beside r h k ps q both_ended s b =
      let (g, z) = when-some decode _ _ k s in
      let (o, a) = both_true _ _ g in
      let (w, d) = both_true _ _ a in
      subst (λ x. Beside decode r x (ps ++ []) (q ++ [])) z
        (nil-Beside decode r _ ps _ q _ (sym (append-nil ps)) (sym (append-nil q)) (record {
          fresh = λ y x. absurd (true_is_not_false x);
          on = b.on;
          commands = λ y x. absurd (true_is_not_false x);
          sent = b.sent;
          out = b.out;
          wrote = b.wrote;
          shut = b.shut;
          over = λ x. (not-true _ w, d);
        }))

  steps-Beside :
      (r : Reader) (h k : Halves) (ps : List (List ℕ)) (q : List Frame) (es : List HalfEvent)
      → half_steps decode h es ≡ some k
      → Beside decode r h ps q
      → Beside decode r k (ps ++ all_pieces es) (q ++ all_taken es)
  unfolding half_steps
  steps-Beside r h k ps q [] s b =
      subst (λ x. Beside decode r x (ps ++ []) (q ++ [])) (some-injective _ _ s)
        (nil-Beside decode r h ps _ q _ (sym (append-nil ps)) (sym (append-nil q)) b)
  steps-Beside r h k ps q (e ∷ es) s b = elim (Option-cases (half_step decode h e)) [
    | inl n ↦ absurd (none_is_not_some k (sym (rw (n, half_steps) refl) ∙ s))
    | inr (h', t) ↦
        nil-Beside decode r k _ _ _ _ (append_assoc ps (pieces_of e) (all_pieces es))
          (append_assoc q (taken_of e) (all_taken es))
          (steps-Beside r h' k (ps ++ pieces_of e) (q ++ taken_of e) es
            (sym (rw (t, half_steps) refl) ∙ s) (step-Beside r h h' ps q e t b))
  ]

  -- The state of a connection, by a reader and a writer that run alone on what this one has read and
  -- taken from the queue.
  pub record IsCoupled (d : FrameDecoder) (left : ℕ) (h : Halves) (es : List HalfEvent)
      : Type 0 where
    pub commands :
        (rest : List Command) × (h.reader.commands ++ rest
          ≡ (reader_task decode d (all_pieces es) left).commands)
    pub all_commands :
        h.has_begun ≡ true
        → h.is_over ≡ false
        → h.reader.commands ≡ (reader_task decode d (all_pieces es) left).commands
    pub written : (rest : List ℕ) × (h.socket.written ++ rest ≡ encode_all (all_taken es))
    pub all_written : h.is_writing ≡ true → h.socket.written ≡ encode_all (all_taken es)
    pub shut : h.is_writing ≡ false → h.socket.is_shut ≡ true
    pub over :
        h.is_over ≡ true
        → (h.is_writing ≡ false)
          × (h.reader.is_done ≡ true)
          × ((e : HalfEvent) → half_step decode h e ≡ none)
    pub tears :
        h.is_over ≡ false
        → (h.is_writing ≡ false) ⊎ (h.reader.is_done ≡ true)
        → (e : HalfEvent) × (k : Halves) × (half_step decode h e ≡ some k) × (k.is_over ≡ true)

  over-half_step : (h : Halves) (e : HalfEvent) → h.is_over ≡ true → half_step decode h e ≡ none
  unfolding half_step when
  over-half_step h (reads_bytes piece) o = rw (o, half_step, when) refl
  over-half_step h begins o = rw (o) refl
  over-half_step h (aborts_buffered n) o = rw (o) refl
  over-half_step h reads_end o = rw (o) refl
  over-half_step h (takes f w) o = rw (o) refl
  over-half_step h queue_closed o = rw (o) refl
  over-half_step h (aborts_reader at) o = rw (o) refl
  over-half_step h (aborts_writer at) o = rw (o) refl
  over-half_step h both_ended o = rw (o) refl

  when-true : (b : Bool) (h : Halves) → b ≡ true → when decode b h ≡ some h
  unfolding when
  when-true b h e = ap (λ c. if c then some h else none) e

  Tears : Halves → Type 0
  Tears h = (e : HalfEvent) × (k : Halves) × (half_step decode h e ≡ some k) × (k.is_over ≡ true)

  open-Tears :
      (h : Halves)
      → h.is_over ≡ false
      → (h.is_writing ≡ false) ⊎ (h.reader.is_done ≡ true)
      → Tears h
  unfolding half_step Tears
  open-Tears h o x = elim (Bool-cases h.is_writing) [
    | inl w ↦ elim x [
      | inl z ↦ absurd (true_is_not_false (sym w ∙ z))
      | inr d ↦ (aborts_writer none, _, when-true _ _ (rw (o, w, d) refl), refl)
    ]
    | inr w ↦ elim (Bool-cases h.reader.is_done) [
      | inl d ↦ (both_ended, _, when-true _ _ (rw (o, w, d) refl), refl)
      | inr d ↦ elim (Bool-cases h.has_begun) [
        | inl n ↦ (aborts_reader none, _, when-true _ _ (rw (o, w, d, n) refl), refl)
        | inr n ↦ (aborts_buffered 0, _, when-true _ _ (rw (o, w, n) refl), refl)
      ]
    ]
  ]

  abbrev unread_reader : FrameDecoder → ℕ → Reader
  unread_reader d left = record { commands = []; left = left; decoder = d; is_done = false }

  start-Beside :
      (d : FrameDecoder) (left : ℕ)
      → Beside decode (unread_reader d left) (started decode d left) [] []
  unfolding reads
  start-Beside d left = record {
    fresh = λ z k. (refl, refl);
    on = λ y k. absurd (true_is_not_false (sym y));
    commands = λ y k. absurd (true_is_not_false (sym y));
    sent = ((begun decode (unread_reader d left)).commands, refl);
    out = ([], refl);
    wrote = λ k. refl;
    shut = λ k. absurd (true_is_not_false k);
    over = λ k. absurd (true_is_not_false (sym k));
  }

  alone_reader :
      (d : FrameDecoder) (pieces : List (List ℕ)) (left : ℕ)
      → reads decode (begun decode (unread_reader d left)) pieces ≡ reader_task decode d pieces left
  unfolding begun reader_task reads
  alone_reader d pieces left = refl

  -- However the reader and the writer of a connection are interleaved, from a start with whatever bytes
  -- are buffered: the actor got the commands that a reader alone sends for the same reads, and the socket
  -- the bytes of the frames that were taken from the queue, up to the command and the byte at which
  -- one of them was stopped (the reader possibly in the buffered frames), and all of them before that,
  -- once the reader is through with the buffered ones. A writer that has ended has shut its half.
  -- As soon as one has ended, the connection can be torn down; then both have ended, and nothing
  -- comes after it.
  pub half_steps-IsCoupled :
      (d : FrameDecoder) (left : ℕ) (h : Halves) (es : List HalfEvent)
      → half_steps decode (started decode d left) es ≡ some h
      → IsCoupled d left h es
  unfolding Tears
  half_steps-IsCoupled d left h es s =
      let r = unread_reader d left in
      let b = steps-Beside r (started decode d left) h [] [] es s (start-Beside d left) in
      let alone = ap (λ (x : Reader). x.commands) (alone_reader d (all_pieces es) left) in
      record {
        commands = (b.sent.0, b.sent.1 ∙ alone);
        all_commands = λ y o. b.commands y o ∙ alone;
        written = b.out;
        all_written = b.wrote;
        shut = b.shut;
        over = λ o. ((b.over o).0, (b.over o).1, λ e. over-half_step h e o);
        tears = λ o x. open-Tears h o x;
      }
