-- ===== src/Ring.antt =====
-- core/src/ring.rs: the ring of growable, self-contained chunks. The field `data` of the source is
-- `body` here. `append` answers `none` where the source panics on a ring with no chunk.
pub mod Replay
pub mod Refine
pub mod Bounds
pub mod Tests
use jfterm_muxer.Base.{
  ℕ, ◌-◌, max, Bool, false, Option, none, some, List, [], ◌∷◌, ◌++◌, ◌>>=◌, leb, length, drop,
}

pub record Chunk : Type 0 where
  pub prologue : List ℕ
  pub body : List ℕ

-- `Chunk::new`.
abbrev pub new_chunk : List ℕ → Chunk
new_chunk prologue = record { prologue = prologue; body = [] }

pub record ChunkRing : Type 0 where
  pub chunks : List Chunk
  pub watermark : ℕ

abbrev pub new : ℕ → ChunkRing
new watermark = record { chunks = new_chunk [] ∷ []; watermark = watermark }

abbrev pub last? {ℓ} : {A : Type ℓ} → List A → Option A
last? [] = none
last? (x ∷ []) = some x
last? (x ∷ y ∷ xs) = last? (y ∷ xs)

-- `self.open_mut().data.extend_from_slice(bytes)` on the vector of chunks.
append_open : List ℕ → List Chunk → Option (List Chunk)
append_open bytes [] = none
append_open bytes (c ∷ []) = some (record c { body = c.body ++ bytes } ∷ [])
append_open bytes (c ∷ d ∷ rest) = do ds ← append_open bytes (d ∷ rest); some (c ∷ ds)

unfoldable pub append : ChunkRing → List ℕ → Option ChunkRing
unfolding append_open
append r bytes = do chunks ← append_open bytes r.chunks; some (record r { chunks = chunks })

unfoldable pub should_cut : ChunkRing → Bool
should_cut r = elim (last? r.chunks) [ none ↦ false | some c ↦ leb r.watermark (length c.body) ]

unfoldable pub cut : ChunkRing → List ℕ → ChunkRing
cut r prologue = record r { chunks = r.chunks ++ (new_chunk prologue ∷ []) }

unfoldable pub purge : ChunkRing → List ℕ → ChunkRing
purge r clear_prologue = record r { chunks = new_chunk clear_prologue ∷ [] }

-- `selected.first()`, and the loop over the selected chunks.
abbrev pub first_prologue : List Chunk → List ℕ
first_prologue [] = []
first_prologue (c ∷ cs) = c.prologue

abbrev pub concat_bodies : List Chunk → List ℕ
concat_bodies [] = []
concat_bodies (c ∷ cs) = c.body ++ concat_bodies cs

unfoldable pub replay : ChunkRing → ℕ → List ℕ
replay r want_chunks =
    let start = length r.chunks - max want_chunks 1 in
    let selected = drop start r.chunks in first_prologue selected ++ concat_bodies selected
