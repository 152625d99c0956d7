-- ===== src/Ring/Replay.antt =====
-- What a ring holds, seen as one prologue and one stream of bytes, and what each operation of
-- core/src/ring.rs does to it.
use jfterm_muxer.Base.{
  ℕ, suc, ◌-◌, ◌≤◌, ◌<◌, max, ◌≡◌, refl, sym, ap, ◌∙◌, some, List, [], ◌∷◌, ◌++◌, append-nil,
  append_assoc, arith, length, length-append,
}
use jfterm_muxer.Ring.{
  Chunk, ChunkRing, new_chunk, append_open, append, cut, purge, replay, first_prologue,
  concat_bodies,
}

-- The full replay of a ring is its base followed by its stream.
pub record View : Type 0 where
  pub base : List ℕ
  pub stream : List ℕ

abbrev pub view : ChunkRing → View
view r = record { base = first_prologue r.chunks; stream = concat_bodies r.chunks }

-- The vector of chunks is never empty: `open_mut` does not panic.
abbrev pub IsOpen : ChunkRing → Type 0
IsOpen r = 0 < length r.chunks

pub concat_bodies-append :
    (cs ds : List Chunk) → concat_bodies (cs ++ ds) ≡ concat_bodies cs ++ concat_bodies ds
concat_bodies-append [] ds = refl
concat_bodies-append (c ∷ cs) ds =
    rw (concat_bodies-append cs ds)
      (sym (append_assoc c.body (concat_bodies cs) (concat_bodies ds)))

-- The chunks of a ring to whose open chunk `bytes` were added.
record Extends (bytes : List ℕ) (cs ds : List Chunk) : Type 0 where
  count : length ds ≡ length cs
  same_base : first_prologue ds ≡ first_prologue cs
  extended : concat_bodies ds ≡ concat_bodies cs ++ bytes

append_open_total :
    (bytes : List ℕ) (c : Chunk) (cs : List Chunk)
    → (ds : List Chunk) × (append_open bytes (c ∷ cs) ≡ some ds) × Extends bytes (c ∷ cs) ds
unfolding append_open
append_open_total bytes c [] = (
  record c { body = c.body ++ bytes } ∷ [],
  refl,
  record { count = refl; same_base = refl; extended = simp append-nil },
)
append_open_total bytes c (d ∷ cs) =
    let (ds, e, x) = append_open_total bytes d cs in
    (
      c ∷ ds,
      rw e refl,
      record {
        count = ap suc x.count;
        same_base = refl;
        extended = simp (x.extended, append_assoc);
      },
    )

-- `append` on a ring that has a chunk succeeds, keeps the base and adds the bytes to the stream.
pub record Appended (r : ChunkRing) (bytes : List ℕ) (t : ChunkRing) : Type 0 where
  pub count : length t.chunks ≡ length r.chunks
  pub same_base : first_prologue t.chunks ≡ first_prologue r.chunks
  pub extended : concat_bodies t.chunks ≡ concat_bodies r.chunks ++ bytes

append_chunks :
    (watermark : ℕ) (cs : List Chunk) (bytes : List ℕ)
    → 0 < length cs
    → let r : ChunkRing = record { chunks = cs; watermark = watermark } in
      (t : ChunkRing) × (append r bytes ≡ some t) × Appended r bytes t
unfolding append
append_chunks watermark [] bytes h = absurd (omega arith)
append_chunks watermark (c ∷ cs) bytes h =
    let (ds, e, x) = append_open_total bytes c cs in
    (
      record { chunks = ds; watermark = watermark },
      rw e refl,
      record { count = x.count; same_base = x.same_base; extended = x.extended },
    )

pub append_total :
    (r : ChunkRing) (bytes : List ℕ)
    → IsOpen r
    → (t : ChunkRing) × (append r bytes ≡ some t) × Appended r bytes t
append_total r bytes h = append_chunks r.watermark r.chunks bytes h

pub Appended-view :
    (r : ChunkRing) (bytes : List ℕ) (t : ChunkRing)
    → Appended r bytes t
    → view t ≡ record { base = (view r).base; stream = (view r).stream ++ bytes }
Appended-view r bytes t x = λ i. record { base = x.same_base i; stream = x.extended i }

first_prologue-append :
    (cs : List Chunk) (d : Chunk)
    → 0 < length cs
    → first_prologue (cs ++ (d ∷ [])) ≡ first_prologue cs
first_prologue-append [] d h = absurd (omega arith)
first_prologue-append (c ∷ cs) d h = refl

-- `cut` is invisible in the view.
pub view-cut : (r : ChunkRing) (prologue : List ℕ) → IsOpen r → view (cut r prologue) ≡ view r
unfolding cut
view-cut r prologue h =
    let same : concat_bodies (r.chunks ++ (new_chunk prologue ∷ [])) ≡ concat_bodies r.chunks =
      concat_bodies-append r.chunks (new_chunk prologue ∷ []) ∙ append-nil _ in
    λ i. record { base = first_prologue-append r.chunks (new_chunk prologue) h i; stream = same i }

pub cut-IsOpen : (r : ChunkRing) (prologue : List ℕ) → IsOpen (cut r prologue)
unfolding cut
cut-IsOpen r prologue = omega (arith, length-append r.chunks (new_chunk prologue ∷ []))

pub view-purge : (r : ChunkRing) (p : List ℕ) → view (purge r p) ≡ record { base = p; stream = [] }
unfolding purge
view-purge r p = refl

pub purge-IsOpen : (r : ChunkRing) (p : List ℕ) → IsOpen (purge r p)
unfolding purge
purge-IsOpen r p = omega arith

-- A replay of at least as many chunks as there are is the whole view.
pub replay_full :
    (r : ChunkRing) (want_chunks : ℕ)
    → length r.chunks ≤ want_chunks
    → replay r want_chunks ≡ (view r).base ++ (view r).stream
unfolding replay
replay_full r want_chunks h =
    let e : length r.chunks - max want_chunks 1 ≡ 0 = omega arith in rw e refl
