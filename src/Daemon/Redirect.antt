-- ===== src/Daemon/Redirect.antt =====
-- `redirect_std_to_devnull` of jftermd/src/daemonize.rs, on the process's table of open files.
use jfterm_muxer.Base.{
  put, put-cases, ℕ, ◌<◌, ◌≤◌, ◌==◌, ==_iff, ◌≡◌, ◌≢◌, refl, sym, ap, ◌∙◌, inl, inr, Option, none,
  some, List, [], ◌∷◌, arith, ltb, if◌then◌else◌, if-elim, Bool-cases, Option-cases, All,
}
use jfterm_muxer.Protocol.{Result, ok, err}

-- What each descriptor is open on.
abbrev pub Fds : Type 0
Fds = ℕ → Option ℕ

-- The loop over the standard descriptors; `answer` tells the error of a `dup2` onto a target.
unfoldable pub dup_all : ℕ → (ℕ → Option ℕ) → Fds → List ℕ → Option ℕ × Fds
unfolding put
dup_all src answer t [] = (none, t)
dup_all src answer t (target ∷ targets) =
    let skipped = dup_all src answer t targets in
    let copied = dup_all src answer (put t target (t src)) targets in
    if src == target then skipped else elim (answer target) [ none ↦ copied | some e ↦ (some e, t) ]

-- The source is closed when it is not a standard descriptor, on success and on an error.
unfoldable pub close_source : ℕ → Fds → Fds
unfolding put
close_source src t = if ltb 2 src then put t src none else t

abbrev pub std_fds : List ℕ
std_fds = 0 ∷ (1 ∷ (2 ∷ []))

-- `opened` is the answer of opening `/dev/null`, and `null` is that file.
unfoldable pub redirect_std_to_devnull : ℕ → Result ℕ ℕ → (ℕ → Option ℕ) → Fds → Option ℕ × Fds
unfolding dup_all close_source
redirect_std_to_devnull null (err e) answer t = (some e, t)
redirect_std_to_devnull null (ok src) answer t =
    let (r, t') = dup_all src answer (put t src (some null)) std_fds in (r, close_source src t')

abbrev AllNull : ℕ → Fds → List ℕ → Type 0
AllNull null t fds = All (λ fd. t fd ≡ some null) fds

-- The source stays open on the null device, and so does what was copied before.
record Copies (null src : ℕ) (t : Fds) (targets : List ℕ) (x : Option ℕ × Fds) : Type 0 where
  source : x.1 src ≡ some null
  others : (n : ℕ) → 2 < n → x.1 n ≡ t n
  kept : (n : ℕ) → t n ≡ some null → x.1 n ≡ some null
  copied : x.0 ≡ none → AllNull null x.1 targets

skip-Copies :
    (null src target : ℕ) (t : Fds) (targets : List ℕ) (x : Option ℕ × Fds)
    → src ≡ target
    → Copies null src t targets x
    → Copies null src t (target ∷ targets) x
skip-Copies null src target t targets x e c = record {
  source = c.source;
  others = c.others;
  kept = c.kept;
  copied = λ k. (ap x.1 (sym e) ∙ c.source, c.copied k);
}

set-Copies :
    (null src target : ℕ) (t : Fds) (targets : List ℕ) (x : Option ℕ × Fds)
    → target ≤ 2
    → t src ≡ some null
    → Copies null src (put t target (t src)) targets x
    → Copies null src t (target ∷ targets) x
set-Copies null src target t targets x le e c = record {
  source = c.source;
  others = λ n h. elim (put-cases t target (t src) n) [
    | inl (z, k) ↦ absurd (omega (arith, z, le, h))
    | inr (z, k) ↦ c.others n h ∙ k
  ];
  kept = λ n h.
      c.kept n (elim (put-cases t target (t src) n) [ inl (z, k) ↦ k ∙ e | inr (z, k) ↦ k ∙ h ]);
  copied = λ k. (
    c.kept target (elim (put-cases t target (t src) target) [
      | inl (z, q) ↦ q ∙ e
      | inr (z, q) ↦ absurd (z refl)
    ]),
    c.copied k,
  );
}

some_is_not_none : (n : ℕ) → some n ≢ none
some_is_not_none n e = cc

dup_all-Copies :
    (null src : ℕ) (answer : ℕ → Option ℕ) (t : Fds) (targets : List ℕ)
    → All (λ fd. fd ≤ 2) targets
    → t src ≡ some null
    → Copies null src t targets (dup_all src answer t targets)
unfolding dup_all
dup_all-Copies null src answer t [] le e = record {
  source = e;
  others = λ n h. refl;
  kept = λ n h. h;
  copied = λ k. tt;
}
dup_all-Copies null src answer t (target ∷ targets) le e =
    let t' = put t target (t src) in
    if-elim (Copies null src t (target ∷ targets)) (src == target) _ _
      (λ q.
        skip-Copies null src target t targets (dup_all src answer t targets)
          ((==_iff src target).0 q) (dup_all-Copies null src answer t targets le.1 e))
      (λ q. elim (Option-cases (answer target)) [
        | inl n ↦
            let source : t' src ≡ some null = elim (put-cases t target (t src) src) [
              | inl (z, k) ↦ k ∙ e
              | inr (z, k) ↦ k ∙ e
            ] in
            rw n (
              set-Copies null src target t targets (dup_all src answer t' targets) le.0 e
                (dup_all-Copies null src answer t' targets le.1 source))
        | inr (x, n) ↦ rw n (record {
          source = e;
          others = λ m h. refl;
          kept = λ m h. h;
          copied = λ k. absurd (some_is_not_none x k);
        })
      ])

stays_null : (t : Fds) (src n null : ℕ) → n ≢ src → t n ≡ some null → put t src none n ≡ some null
stays_null t src n null h e = elim (put-cases t src none n) [
  | inl (z, k) ↦ absurd (h z)
  | inr (z, k) ↦ k ∙ e
]

-- The descriptors after a redirection.
pub record IsRedirected (null : ℕ) (t : Fds) (x : Option ℕ × Fds) : Type 0 where
  pub others : (n : ℕ) → 2 < n → x.1 n ≡ t n
  pub standard : x.0 ≡ none → All (λ fd. x.1 fd ≡ some null) std_fds

close-IsRedirected :
    (null src : ℕ) (t : Fds) (x : Option ℕ × Fds)
    → t src ≡ none
    → Copies null src (put t src (some null)) std_fds x
    → IsRedirected null t (x.0, close_source src x.1)
unfolding close_source
close-IsRedirected null src t x free c = elim (Bool-cases (ltb 2 src)) [
  | inl h ↦ rw h (record {
    others = λ n k. elim (put-cases x.1 src none n) [
      | inl (z, q) ↦ q ∙ sym (ap t z ∙ free)
      | inr (z, q) ↦
          q
          ∙ (c.others n k
              ∙ elim (put-cases t src (some null) n) [ inl (y, r) ↦ absurd (z y) | inr (y, r) ↦ r ])
    ];
    standard = λ k.
        let (a, (b, (d, u))) = c.copied k in
        (
          stays_null x.1 src 0 null (grind (arith, h)) a,
          (
            stays_null x.1 src 1 null (grind (arith, h)) b,
            (stays_null x.1 src 2 null (grind (arith, h)) d, tt),
          ),
        );
  })
  | inr h ↦ rw h (record {
    others = λ n k. c.others n k ∙ elim (put-cases t src (some null) n) [
      | inl (y, r) ↦ absurd (grind (arith, h, k, y))
      | inr (y, r) ↦ r
    ];
    standard = c.copied;
  })
]

-- When the null device was opened on a free descriptor, whichever it is, also a standard one: a
-- redirection that succeeds leaves all three standard descriptors open on it, and in every case no
-- other descriptor is changed or left open.
pub redirect-IsRedirected :
    (null src : ℕ) (answer : ℕ → Option ℕ) (t : Fds)
    → t src ≡ none
    → IsRedirected null t (redirect_std_to_devnull null (ok src) answer t)
unfolding redirect_std_to_devnull
redirect-IsRedirected null src answer t free =
    let t' = put t src (some null) in
    close-IsRedirected null src t (dup_all src answer t' std_fds) free (
      dup_all-Copies null src answer t' std_fds (omega arith, (omega arith, (omega arith, tt)))
        (elim (put-cases t src (some null) src) [ inl (z, k) ↦ k | inr (z, k) ↦ absurd (z refl) ]))
