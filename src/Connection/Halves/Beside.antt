-- ===== src/Connection/Halves/Beside.antt =====
-- Each step of the halves of a connection, beside a reader and a writer alone (`handle_session`,
-- `reader_task`, `writer_task` of jftermd/src/server.rs).
use jfterm_muxer.Base.{
  true_is_not_false, ℕ, ◌+◌, ◌≡◌, refl, sym, ap, ◌∙◌, subst, true, false, Option, none, some, List,
  [], ◌∷◌, ◌++◌, append-nil, append_assoc, take, drop, take-append-drop, length,
}
use jfterm_muxer.Protocol.{Frame, encode}
use jfterm_muxer.Protocol.Stream.{encode_all}
use jfterm_muxer.Connection.{Decode, Reader, Command, reads}
use jfterm_muxer.Connection.Writer.{write_all}
use jfterm_muxer.Connection.Halves.{
  Halves, aborts_reader, aborts_writer, begun, cut_begun, cut_read, cut_write, written,
}
use jfterm_muxer.Connection.Halves.Reads.{pieces_of, taken_of, encode_all-snoc, reads-snoc}

module _ (decode : Decode) where
  -- The halves beside a reader and a writer that run alone on the same reads and frames.
  pub record Beside (r : Reader) (h : Halves) (pieces : List (List ℕ)) (taken : List Frame)
      : Type 0 where
    pub fresh : h.has_begun ≡ false → h.is_over ≡ false → (h.reader ≡ r) × (pieces ≡ [])
    pub on :
        h.has_begun ≡ true
        → h.reader.is_done ≡ false
        → h.reader ≡ reads decode (begun decode r) pieces
    pub commands :
        h.has_begun ≡ true
        → h.is_over ≡ false
        → h.reader.commands ≡ (reads decode (begun decode r) pieces).commands
    pub sent :
        (rest : List Command) × (h.reader.commands ++ rest
          ≡ (reads decode (begun decode r) pieces).commands)
    pub out : (rest : List ℕ) × (h.socket.written ++ rest ≡ encode_all taken)
    pub wrote : h.is_writing ≡ true → h.socket.written ≡ encode_all taken
    pub shut : h.is_writing ≡ false → h.socket.is_shut ≡ true
    pub over : h.is_over ≡ true → (h.is_writing ≡ false) × (h.reader.is_done ≡ true)

  written-out :
      (h : Halves) (taken : List Frame) (f : Frame) (n : ℕ)
      → h.socket.written ≡ encode_all taken
      → (h.socket.written ++ take n (encode f)) ++ drop n (encode f)
        ≡ encode_all (taken ++ (f ∷ []))
  written-out h taken f n e =
      append_assoc h.socket.written (take n (encode f)) (drop n (encode f))
      ∙ (ap (◌++◌ h.socket.written) (take-append-drop n (encode f))
          ∙ (ap (λ x. x ++ encode f) e ∙ encode_all-snoc taken f))

  pub read-Beside :
      (r : Reader) (h : Halves) (ps : List (List ℕ)) (q : List Frame) (piece : List ℕ)
      → h.is_over ≡ false
      → h.reader.is_done ≡ false
      → h.has_begun ≡ true
      → Beside r h ps q
      → Beside r (record h { reader = reads decode h.reader (piece ∷ []) }) (ps ++ (piece ∷ [])) q
  read-Beside r h ps q piece o f g b =
      let e =
        ap (λ x. reads decode x (piece ∷ [])) (b.on g f)
        ∙ reads-snoc decode (begun decode r) ps piece in
      let c = ap (λ (x : Reader). x.commands) e in
      record {
        fresh = λ z k. absurd (true_is_not_false (sym g ∙ z));
        on = λ y k. e;
        commands = λ y k. c;
        sent = ([], append-nil _ ∙ c);
        out = b.out;
        wrote = b.wrote;
        shut = b.shut;
        over = λ k. absurd (true_is_not_false (sym k ∙ o));
      }

  pub end-Beside :
      (r : Reader) (h : Halves) (ps : List (List ℕ)) (q : List Frame)
      → h.is_over ≡ false
      → h.has_begun ≡ true
      → Beside r h ps q
      → Beside r (record h { reader = record h.reader { is_done = true } }) ps q
  end-Beside r h ps q o g b = record {
    fresh = λ z k. absurd (true_is_not_false (sym g ∙ z));
    on = λ y k. absurd (true_is_not_false k);
    commands = b.commands;
    sent = b.sent;
    out = b.out;
    wrote = b.wrote;
    shut = b.shut;
    over = λ k. absurd (true_is_not_false (sym k ∙ o));
  }

  pub written-Beside :
      (r : Reader) (h : Halves) (ps : List (List ℕ)) (q : List Frame) (f : Frame) (w : Option ℕ)
      → h.is_over ≡ false
      → h.is_writing ≡ true
      → Beside r h ps q
      → Beside r (written decode h f w) ps (q ++ (f ∷ []))
  unfolding written write_all
  written-Beside r h ps q f none o t b =
      let e = ap (λ x. x ++ encode f) (b.wrote t) ∙ encode_all-snoc q f in
      record {
        fresh = b.fresh;
        on = b.on;
        commands = b.commands;
        sent = b.sent;
        out = ([], append-nil _ ∙ e);
        wrote = λ k. e;
        shut = λ k. absurd (true_is_not_false (sym t ∙ k));
        over = λ k. absurd (true_is_not_false (sym k ∙ o));
      }
  written-Beside r h ps q f (some n) o t b = record {
    fresh = b.fresh;
    on = b.on;
    commands = b.commands;
    sent = b.sent;
    out = (drop n (encode f), written-out h q f n (b.wrote t));
    wrote = λ k. absurd (true_is_not_false (sym k));
    shut = λ k. refl;
    over = λ k. absurd (true_is_not_false (sym k ∙ o));
  }

  pub cut_read-Beside :
      (r : Reader) (h : Halves) (ps : List (List ℕ)) (q : List Frame) (at : Option (List ℕ × ℕ))
      → h.is_over ≡ false
      → h.reader.is_done ≡ false
      → h.is_writing ≡ false
      → h.has_begun ≡ true
      → Beside r h ps q
      → Beside r
          (record h { reader = cut_read decode h.reader at; is_over = true })
          (ps ++ pieces_of (aborts_reader at))
          q
  unfolding cut_read
  cut_read-Beside r h ps q none o d w g b = record {
    fresh = λ z k. absurd (true_is_not_false k);
    on = λ y k. absurd (true_is_not_false k);
    commands = λ y k. absurd (true_is_not_false k);
    sent = (
      [],
      append-nil _
          ∙ (b.commands g o
              ∙ ap (λ x. (reads decode (begun decode r) x).commands) (sym (append-nil ps))),
    );
    out = b.out;
    wrote = b.wrote;
    shut = b.shut;
    over = λ k. (w, refl);
  }
  cut_read-Beside r h ps q (some (piece, n)) o d w g b =
      let e =
        ap (λ x. reads decode x (piece ∷ [])) (b.on g d)
        ∙ reads-snoc decode (begun decode r) ps piece in
      let all = (reads decode h.reader (piece ∷ [])).commands in
      let k = length h.reader.commands + n in
      record {
        fresh = λ z x. absurd (true_is_not_false x);
        on = λ y x. absurd (true_is_not_false x);
        commands = λ y x. absurd (true_is_not_false x);
        sent = (drop k all, take-append-drop k all ∙ ap (λ (x : Reader). x.commands) e);
        out = b.out;
        wrote = b.wrote;
        shut = b.shut;
        over = λ x. (w, refl);
      }

  pub cut_write-Beside :
      (r : Reader) (h : Halves) (ps : List (List ℕ)) (q : List Frame) (at : Option (Frame × ℕ))
      → h.is_over ≡ false
      → h.is_writing ≡ true
      → h.reader.is_done ≡ true
      → Beside r h ps q
      → Beside r
          (record h { socket = cut_write decode h.socket at; is_writing = false; is_over = true })
          ps
          (q ++ taken_of (aborts_writer at))
  unfolding cut_write write_all
  cut_write-Beside r h ps q none o t d b = record {
    fresh = λ z k. absurd (true_is_not_false k);
    on = b.on;
    commands = λ y k. absurd (true_is_not_false k);
    sent = b.sent;
    out = ([], append-nil _ ∙ (b.wrote t ∙ ap encode_all (sym (append-nil q))));
    wrote = λ k. absurd (true_is_not_false (sym k));
    shut = λ k. refl;
    over = λ k. (refl, d);
  }
  cut_write-Beside r h ps q (some (f, n)) o t d b = record {
    fresh = λ z k. absurd (true_is_not_false k);
    on = b.on;
    commands = λ y k. absurd (true_is_not_false k);
    sent = b.sent;
    out = (drop n (encode f), written-out h q f n (b.wrote t));
    wrote = λ k. absurd (true_is_not_false (sym k));
    shut = λ k. refl;
    over = λ k. (refl, d);
  }

  pub begin-Beside :
      (r : Reader) (h : Halves) (ps : List (List ℕ)) (q : List Frame)
      → h.is_over ≡ false
      → h.has_begun ≡ false
      → Beside r h ps q
      → Beside r (record h { reader = begun decode h.reader; has_begun = true }) ps q
  unfolding reads
  begin-Beside r h ps q o g b =
      let (x, y) = b.fresh g o in
      let e : begun decode h.reader ≡ reads decode (begun decode r) ps =
        ap (begun decode) x ∙ ap (reads decode (begun decode r)) (sym y) in
      let c = ap (λ (z : Reader). z.commands) e in
      record {
        fresh = λ z k. absurd (true_is_not_false z);
        on = λ y k. e;
        commands = λ y k. c;
        sent = ([], append-nil _ ∙ c);
        out = b.out;
        wrote = b.wrote;
        shut = b.shut;
        over = λ k. absurd (true_is_not_false (sym k ∙ o));
      }

  pub cut_begun-Beside :
      (r : Reader) (h : Halves) (ps : List (List ℕ)) (q : List Frame) (n : ℕ)
      → h.is_over ≡ false
      → h.has_begun ≡ false
      → h.is_writing ≡ false
      → Beside r h ps q
      → Beside r (record h { reader = cut_begun decode h.reader n; is_over = true }) ps q
  unfolding reads cut_begun
  cut_begun-Beside r h ps q n o g w b =
      let (x, y) = b.fresh g o in
      let e : begun decode h.reader ≡ reads decode (begun decode r) ps =
        ap (begun decode) x ∙ ap (reads decode (begun decode r)) (sym y) in
      let all = (begun decode h.reader).commands in
      record {
        fresh = λ z k. absurd (true_is_not_false k);
        on = λ y k. absurd (true_is_not_false k);
        commands = λ y k. absurd (true_is_not_false k);
        sent = (drop n all, take-append-drop n all ∙ ap (λ (z : Reader). z.commands) e);
        out = b.out;
        wrote = b.wrote;
        shut = b.shut;
        over = λ k. (w, refl);
      }

  pub nil-Beside :
      (r : Reader) (h : Halves) (ps ps' : List (List ℕ)) (q q' : List Frame)
      → ps ≡ ps'
      → q ≡ q'
      → Beside r h ps q
      → Beside r h ps' q'
  nil-Beside r h ps ps' q q' e f b =
      subst (λ x. Beside r h x q') e (subst (λ x. Beside r h ps x) f b)
