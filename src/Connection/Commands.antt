-- ===== src/Connection/Commands.antt =====
-- The commands that frames stand for (`reader_task` of jftermd/src/server.rs).
use jfterm_muxer.Base.{
  ℕ, ◌+◌, ◌≤◌, ◌<◌, ◌≡◌, refl, sym, ap, ◌∙◌, inl, inr, false, Option, none, some, List, [], ◌∷◌,
  ◌++◌, append-nil, append_assoc, arith, ◌==◌, length, length-append, Bool-cases,
}
use jfterm_muxer.Protocol.{
  Frame, FrameType, hello, hello_ok, list, sessions, attach_or_open, input, resize, close,
  data_frame, status, exit,
}
use jfterm_muxer.Connection.{
  Command, input_command, resize_command, Decode, Reader, send, send_resize, on_frame,
}

abbrev pub StaysOpen : FrameType → Type 0
StaysOpen close = ⊥
StaysOpen _ = Unit {0}

module _ (decode : Decode) where
  resize_commands : Option (ℕ × ℕ) → List Command
  resize_commands none = []
  resize_commands (some (cols, rows)) = resize_command cols rows ∷ []

  -- The command of a frame that does not end the reader; other types of frame have none.
  unfoldable pub commands_of_frame : FrameType → List ℕ → List Command
  unfolding resize_commands
  commands_of_frame input payload = input_command payload ∷ []
  commands_of_frame resize payload = resize_commands (decode.resize_msg payload)
  commands_of_frame _ payload = []

  abbrev pub commands_of : List Frame → List Command
  commands_of [] = []
  commands_of (f ∷ fs) = commands_of_frame f.ty f.payload ++ commands_of fs

  -- The reader has sent these commands and goes on.
  pub record Took (r r' : Reader) (cs : List Command) : Type 0 where
    pub sent : r'.commands ≡ r.commands ++ cs
    pub room : r.left ≤ r'.left + length cs
    pub open_ : r'.is_done ≡ false
    pub kept : r'.decoder ≡ r.decoder

  pub none-Took : (r : Reader) → r.is_done ≡ false → Took r r []
  none-Took r e = record {
    sent = sym (append-nil r.commands);
    room = omega arith;
    open_ = e;
    kept = refl;
  }

  send-Took :
      (r : Reader) (c : Command)
      → 0 < r.left
      → r.is_done ≡ false
      → Took r (send decode r c) (c ∷ [])
  unfolding send
  send-Took r c h e = elim (Bool-cases (r.left == 0)) [
    | inl t ↦ absurd (grind (arith, t))
    | inr f ↦ rw f (record { sent = refl; room = omega arith; open_ = e; kept = refl })
  ]

  resize-Took :
      (r : Reader) (m : Option (ℕ × ℕ))
      → 0 < r.left
      → r.is_done ≡ false
      → Took r (send_resize decode r m) (resize_commands m)
  unfolding send_resize resize_commands
  resize-Took r none h e = none-Took r e
  resize-Took r (some (cols, rows)) h e = send-Took r (resize_command cols rows) h e

  pub on_frame-Took :
      (ty : FrameType) (payload : List ℕ) (r : Reader)
      → StaysOpen ty
      → 0 < r.left
      → r.is_done ≡ false
      → Took r (on_frame decode ty payload r) (commands_of_frame ty payload)
  unfolding on_frame commands_of_frame
  on_frame-Took hello payload r o h e = none-Took r e
  on_frame-Took hello_ok payload r o h e = none-Took r e
  on_frame-Took list payload r o h e = none-Took r e
  on_frame-Took sessions payload r o h e = none-Took r e
  on_frame-Took attach_or_open payload r o h e = none-Took r e
  on_frame-Took input payload r o h e = send-Took r (input_command payload) h e
  on_frame-Took resize payload r o h e = resize-Took r (decode.resize_msg payload) h e
  on_frame-Took close payload r o h e = absurd o
  on_frame-Took data_frame payload r o h e = none-Took r e
  on_frame-Took status payload r o h e = none-Took r e
  on_frame-Took exit payload r o h e = none-Took r e

  pub trans-Took :
      (a b c : Reader) (xs ys : List Command) → Took a b xs → Took b c ys → Took a c (xs ++ ys)
  trans-Took a b c xs ys s t = record {
    sent = t.sent ∙ (ap (λ l. l ++ ys) s.sent ∙ append_assoc a.commands xs ys);
    room = omega (arith, s.room, t.room, length-append xs ys);
    open_ = t.open_;
    kept = t.kept ∙ s.kept;
  }

  abbrev pub IsOpen : Frame → Type 0
  IsOpen f = StaysOpen f.ty

  length-resize_commands : (m : Option (ℕ × ℕ)) → length (resize_commands m) ≤ 1
  unfolding resize_commands
  length-resize_commands none = omega arith
  length-resize_commands (some (cols, rows)) = omega arith

  pub length-commands_of_frame :
      (ty : FrameType) (payload : List ℕ) → length (commands_of_frame ty payload) ≤ 1
  unfolding commands_of_frame resize_commands
  length-commands_of_frame hello payload = omega arith
  length-commands_of_frame hello_ok payload = omega arith
  length-commands_of_frame list payload = omega arith
  length-commands_of_frame sessions payload = omega arith
  length-commands_of_frame attach_or_open payload = omega arith
  length-commands_of_frame input payload = omega arith
  length-commands_of_frame resize payload = length-resize_commands (decode.resize_msg payload)
  length-commands_of_frame close payload = omega arith
  length-commands_of_frame data_frame payload = omega arith
  length-commands_of_frame status payload = omega arith
  length-commands_of_frame exit payload = omega arith

  pub commands_of-append :
      (fs gs : List Frame) → commands_of (fs ++ gs) ≡ commands_of fs ++ commands_of gs
  commands_of-append [] gs = refl
  commands_of-append (f ∷ fs) gs =
      ap (◌++◌ (commands_of_frame f.ty f.payload)) (commands_of-append fs gs)
      ∙ sym (append_assoc (commands_of_frame f.ty f.payload) (commands_of fs) (commands_of gs))
