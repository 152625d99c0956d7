-- ===== src/Actor/Delivery.antt =====
-- From the terminal to the client's decoder: `actor_loop` and `writer_task` of jftermd/src/server.rs, and
-- the decoder of jftermd/src/protocol.rs.
use jfterm_muxer.Base.{
  ℕ, ◌+◌, ◌≡◌, sym, ap, ◌∙◌, subst, Bool, Option, some, List, [], ◌++◌, append-nil, All, length,
}
use jfterm_muxer.Vte.{Vte}
use jfterm_muxer.Protocol.{Result, ok, Frame, frame_data, new_decoder}
use jfterm_muxer.Protocol.Frames.{Fits}
use jfterm_muxer.Protocol.Decoder.{receive}
use jfterm_muxer.Protocol.Stream.{concat}
use jfterm_muxer.Client.{Outbox, Json}
use jfterm_muxer.Client.Laws.{HasRoom}
use jfterm_muxer.Connection.Writer.{new_socket, writer_task, frames_of, IsWritten, writer_task-Gets}
use jfterm_muxer.Actor.{AttachRequest, Event, attach, goes_on, Actor, handle, Runs}
use jfterm_muxer.Actor.Stream.{data_of, data_of-append, IsDetached, output_all}
use jfterm_muxer.Actor.Attach.{replay_of, attach-stream}

module _ (vte : Vte) (json : Json) (dead_grace : ℕ) where
  -- What a client has decoded: its DATA begin what they should be, and are all of it when every frame
  -- was written.
  pub record Delivers (pieces : List (List ℕ)) (queue : List (Frame × Option ℕ)) (all : List ℕ)
      : Type 0 where
    pub seen : List Frame
    pub decoded : (receive new_decoder pieces).0 ≡ ok seen
    pub later : List ℕ
    pub prefix_ : all ≡ data_of seen ++ later
    pub whole : IsWritten queue → data_of seen ≡ all

  -- From the terminal to the client: a client attaches with a new queue that has room for the greeting,
  -- stays attached, and no other client attaches. Then, whatever turns the actor takes, and however the
  -- bytes that the writer puts on the socket are cut into reads, the client's decoder meets no
  -- malformed frame, and the DATA that it yields are a beginning of the replay at the attach and what
  -- was read from the terminal since; they are all of it when no write failed. The queue's frames are
  -- those that the actor sent, each within the frame cap.
  pub attach-Delivers :
      (a b c : Actor vte json dead_grace) (req : AttachRequest) (is_set : Bool)
      (busy : Result ℕ Bool) (es : List Event) (tx : Outbox) (queue : List (Frame × Option ℕ))
      (pieces : List (List ℕ))
      → req.out_tx.sent ≡ []
      → HasRoom req.out_tx (length (frame_data (replay_of vte json dead_grace a req)) + 2)
      → handle vte json dead_grace a (attach req is_set busy) ≡ some (goes_on, b)
      → All IsDetached es
      → Runs vte json dead_grace b es c
      → c.client.current ≡ some tx
      → frames_of queue ≡ tx.sent
      → All Fits tx.sent
      → concat pieces ≡ (writer_task new_socket queue).written
      → Delivers pieces queue (replay_of vte json dead_grace a req ++ output_all es)
  attach-Delivers a b c req is_set busy es tx queue pieces z r h d rs e q fits w =
      let stream = attach-stream vte json dead_grace a b c req is_set busy es tx z r h d rs e in
      let g = writer_task-Gets queue pieces (subst (All Fits) (sym q) fits) w in
      let split : data_of tx.sent ≡ data_of g.seen ++ data_of g.lost =
        ap data_of (sym q ∙ g.split) ∙ data_of-append g.seen g.lost in
      record {
        seen = g.seen;
        decoded = g.decoded;
        later = data_of g.lost;
        prefix_ = sym stream ∙ split;
        whole = λ f.
            sym (append-nil (data_of g.seen))
            ∙ (ap (λ l. data_of g.seen ++ data_of l) (sym (g.all_seen f)) ∙ (sym split ∙ stream));
      }
