-- ===== src/Ring/Refine.antt =====
-- A ring under any sequence of its operations, against a model that keeps no chunks at all: one
-- prologue and one stream of bytes (core/src/ring.rs).
use jfterm_muxer.Base.{
  map, ℕ, ◌+◌, ◌-◌, ◌≤◌, ◌<◌, max, min, ◌≡◌, refl, sym, ap, ◌∙◌, some, List, [], ◌∷◌, ◌++◌, arith,
  length, length-append, take, drop, take-append-drop, length-drop, Option, ◌>>=◌,
}
use jfterm_muxer.Ring.{
  Chunk, ChunkRing, new, new_chunk, append, cut, purge, replay, first_prologue, concat_bodies,
}
use jfterm_muxer.Protocol.Stream.{concat}
use jfterm_muxer.Ring.Replay.{
  View, view, IsOpen, Appended-view, concat_bodies-append, append_total, view-cut, cut-IsOpen,
  view-purge, purge-IsOpen, replay_full,
}

-- The operations of `ChunkRing` that change it.
pub data Op : Type 0 where
  appends cuts purges : List ℕ → Op

unfoldable pub step : ChunkRing → Op → Option ChunkRing
step r (appends bytes) = append r bytes
step r (cuts prologue) = some (cut r prologue)
step r (purges prologue) = some (purge r prologue)

unfoldable pub run : ChunkRing → List Op → Option ChunkRing
run r [] = some r
run r (op ∷ ops) = do s ← step r op; run s ops

-- The model: a cut does nothing, and a purge starts over from the clear sequence.
unfoldable pub spec_step : View → Op → View
spec_step v (appends bytes) = record v { stream = v.stream ++ bytes }
spec_step v (cuts prologue) = v
spec_step v (purges prologue) = record { base = prologue; stream = [] }

unfoldable pub spec_run : View → List Op → View
spec_run v [] = v
spec_run v (op ∷ ops) = spec_run (spec_step v op) ops

-- `t` is open, holds at most one chunk more for each operation, and shows `v`.
record Refines (r : ChunkRing) (n : ℕ) (v : View) (t : ChunkRing) : Type 0 where
  opened : IsOpen t
  count : length t.chunks ≤ length r.chunks + n
  shows : view t ≡ v

step-Refines :
    (r : ChunkRing) (op : Op)
    → IsOpen r
    → (t : ChunkRing) × (step r op ≡ some t) × Refines r 1 (spec_step (view r) op) t
unfolding step spec_step cut purge
step-Refines r (appends bytes) h =
    let (t, e, x) = append_total r bytes h in
    (
      t,
      e,
      record {
        opened = omega (arith, x.count);
        count = omega (arith, x.count);
        shows = Appended-view r bytes t x;
      },
    )
step-Refines r (cuts p) h = (
  cut r p,
  refl,
  record {
    opened = cut-IsOpen r p;
    count = omega (arith, length-append r.chunks (new_chunk p ∷ []));
    shows = view-cut r p h;
  },
)
step-Refines r (purges p) h = (
  purge r p,
  refl,
  record { opened = purge-IsOpen r p; count = omega arith; shows = view-purge r p },
)

run-Refines :
    (r : ChunkRing) (ops : List Op)
    → IsOpen r
    → (t : ChunkRing) × (run r ops ≡ some t) × Refines r (length ops) (spec_run (view r) ops) t
unfolding run spec_run
run-Refines r [] h = (r, refl, record { opened = h; count = omega arith; shows = refl })
run-Refines r (op ∷ ops) h =
    let (s, e, x) = step-Refines r op h in
    let (t, e', y) = run-Refines s ops x.opened in
    (
      t,
      rw e e',
      record {
        opened = y.opened;
        count = omega (arith, x.count, y.count);
        shows = y.shows ∙ ap (λ u. spec_run u ops) x.shows;
      },
    )

abbrev pub empty_view : View
empty_view = record { base = []; stream = [] }

-- From a new ring, any sequence of operations succeeds (no operation panics), and a replay of more
-- chunks than there were operations is the model's prologue followed by the model's stream: where
-- the operations cut does not show.
pub replay-run :
    (watermark want_chunks : ℕ) (ops : List Op)
    → length ops < want_chunks
    → (t : ChunkRing) × (run (new watermark) ops ≡ some t)
      × (replay t want_chunks ≡ (spec_run empty_view ops).base ++ (spec_run empty_view ops).stream)
replay-run watermark want_chunks ops h =
    let (t, e, x) = run-Refines (new watermark) ops (omega arith) in
    (
      t,
      e,
      replay_full t want_chunks (omega (arith, x.count))
          ∙ ap (λ (u : View). u.base ++ u.stream) x.shows,
    )

-- The bytes of some chunks, one after another.
abbrev pub bytes_of : List Chunk → List ℕ
bytes_of cs = concat (map (λ (c : Chunk). c.body) cs)

bytes_of_lem : (cs : List Chunk) → concat_bodies cs ≡ bytes_of cs
bytes_of_lem [] = refl
bytes_of_lem (c ∷ cs) = ap (◌++◌ c.body) (bytes_of_lem cs)

-- What a replay takes: `older` chunks are left out, and the selected ones begin with `oldest`.
pub record CappedReplay (r : ChunkRing) (want_chunks : ℕ) : Type 0 where
  pub older : List Chunk
  pub oldest : Chunk
  pub newer : List Chunk
  pub split : r.chunks ≡ older ++ (oldest ∷ newer)
  pub count : length (oldest ∷ newer) ≡ min (max want_chunks 1) (length r.chunks)
  pub replayed : replay r want_chunks ≡ oldest.prologue ++ (oldest.body ++ bytes_of newer)
  pub stream : (view r).stream ≡ bytes_of older ++ (oldest.body ++ bytes_of newer)

selected-CappedReplay :
    (r : ChunkRing) (want_chunks : ℕ) (older selected : List Chunk)
    → 0 < length r.chunks
    → r.chunks ≡ older ++ selected
    → length selected ≡ min (max want_chunks 1) (length r.chunks)
    → replay r want_chunks ≡ first_prologue selected ++ concat_bodies selected
    → CappedReplay r want_chunks
selected-CappedReplay r want_chunks older [] h e n q = absurd (omega (arith, h, n))
selected-CappedReplay r want_chunks older (c ∷ cs) h e n q = record {
  older = older;
  oldest = c;
  newer = cs;
  split = e;
  count = n;
  replayed = q ∙ ap (λ b. c.prologue ++ (c.body ++ b)) (bytes_of_lem cs);
  stream =
      ap concat_bodies e
      ∙ (concat_bodies-append older (c ∷ cs) ∙ λ i.
          bytes_of_lem older i ++ (c.body ++ bytes_of_lem cs i));
}

-- A capped replay of a ring that has a chunk is the prologue of the oldest selected chunk and then the
-- bytes of the newest `max want_chunks 1` chunks (all of them, if there are fewer), which end the
-- full stream.
pub replay-newest :
    (r : ChunkRing) (want_chunks : ℕ) → 0 < length r.chunks → CappedReplay r want_chunks
unfolding replay
replay-newest r want_chunks h =
    let start = length r.chunks - max want_chunks 1 in
    selected-CappedReplay r want_chunks (take start r.chunks) (drop start r.chunks) h
      (sym (take-append-drop start r.chunks)) (omega (arith, length-drop start r.chunks)) refl
