-- ===== src/Vte.antt =====
-- The `vte` crate's `Parser`, which is not part of the repository: an unknown state, and for each
-- byte the `Perform` callbacks that it makes, in order. `Params::iter` is the list of the parameters,
-- each with its subparameters; a `char` is its code point.
use jfterm_muxer.Base.{ℕ, Bool, List}

pub data Callback : Type 0 where
  print : ℕ → Callback
  execute : ℕ → Callback
  hook : List (List ℕ) → List ℕ → Bool → ℕ → Callback
  put : ℕ → Callback
  unhook : Callback
  osc_dispatch : List (List ℕ) → Bool → Callback
  csi_dispatch : List (List ℕ) → List ℕ → Bool → ℕ → Callback
  esc_dispatch : List ℕ → Bool → ℕ → Callback

pub record Vte : Type 1 where
  pub Parser : Type 0
  pub start : Parser
  pub advance : Parser → ℕ → Parser × List Callback
