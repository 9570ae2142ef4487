-- ===== src/Checkpoint/Latest.antt =====
-- The search for the latest checkpoint (`load_latest_raw_checkpoint` of
-- crates/mfs-store/src/store/checkpoint.rs).
use memory_first_store.Prelude.{
  ℕ, ap, suc, ◌≤◌, ◌<◌, ◌≡◌, ◌∙◌, refl, true, Option, none, some, List, [], ◌∷◌, ◌++◌, arith, ltb,
  All, get_elem?, foldl, if◌then◌else◌, Bool-cases, Option-cases, inl, inr, ◌⊎◌, ltb→lt, ltb→le,
  le→ltb,
}
use memory_first_store.Prelude.Fail.{ok, err, Result-cases}
use memory_first_store.Maps.{bytes_keyed, bytes_same, remove}
use memory_first_store.Wal.{Crc}
use memory_first_store.Checkpoint.{DecodedRawCheckpoint}
use memory_first_store.Checkpoint.Decode.{decode_checkpoint}
use memory_first_store.Checkpoint.Failures.{decode_checkpoint-eq-err}
use memory_first_store.Checkpoint.Directory.{
  Directory, Best, raw_checkpoint_extension, decimal, raw_checkpoint_path, split_last_dot,
  extension, is_raw_checkpoint_file, replaces, consider, latest,
}

abbrev lsn_of : DecodedRawCheckpoint → ℕ
lsn_of decoded = decoded.metadata.checkpoint_lsn

-- The first is at least as new as the second, which may be missing.
abbrev pub Covers : Best → Option DecodedRawCheckpoint → Type 0
Covers best none = Unit
Covers none (some d) = ⊥
Covers (some x) (some d) = lsn_of d ≤ lsn_of x.1

abbrev decoded_of : Best → Option DecodedRawCheckpoint
decoded_of none = none
decoded_of (some x) = some x.1

Covers-refl : (best : Best) → Covers best (decoded_of best)
Covers-refl none = tt
Covers-refl (some x) = omega arith

Covers-trans :
    (a b : Best) (o : Option DecodedRawCheckpoint)
    → Covers a (decoded_of b)
    → Covers b o
    → Covers a o
Covers-trans a b none h k = tt
Covers-trans a none (some d) h k = absurd k
Covers-trans none (some x) (some d) h k = absurd h
Covers-trans (some y) (some x) (some d) h k = omega (arith, h, k)

split_last_dot-append :
    (xs ys : List ℕ) {front behind : List ℕ}
    → split_last_dot ys ≡ some (front, behind)
    → split_last_dot (xs ++ ys) ≡ some (xs ++ front, behind)
unfolding split_last_dot
split_last_dot-append [] ys h = h
split_last_dot-append (x ∷ xs) ys h = rw (split_last_dot-append xs ys h, split_last_dot)

-- The file of a checkpoint is one that the search reads.
pub is_raw_checkpoint_file-raw_checkpoint_path :
    (lsn : ℕ) → is_raw_checkpoint_file (raw_checkpoint_path lsn) ≡ true
unfolding raw_checkpoint_path is_raw_checkpoint_file extension split_last_dot bytes_same
is_raw_checkpoint_file-raw_checkpoint_path lsn =
    let named =
      split_last_dot-append ((b'r' ∷ b'a' ∷ b'w' ∷ b'-' ∷ []) ++ decimal 20 lsn)
        (b'.' ∷ raw_checkpoint_extension) refl in
    rw (named, split_last_dot, is_raw_checkpoint_file, extension)

module _ (c : Crc) where
  -- What the search finds in a file: nothing unless its name ends as it should and its content
  -- decodes.
  abbrev pub readable : List ℕ × List ℕ → Option DecodedRawCheckpoint
  readable (name, bytes) =
      if is_raw_checkpoint_file name
      then elim (decode_checkpoint name c bytes) [ err e ↦ none | ok decoded ↦ some decoded ]
      else none

  abbrev replacing : List ℕ → Best → Option DecodedRawCheckpoint → Best
  replacing name best none = best
  replacing name best (some d) = if replaces d best then some (name, d) else best

  abbrev better : Best → List ℕ × List ℕ → Best
  better best f = replacing f.0 best (readable f)

  consider_lem : (f : List ℕ × List ℕ) (best : Best) → consider c f best ≡ ok (better best f)
  unfolding consider
  consider_lem (name, bytes) best = elim (Bool-cases (is_raw_checkpoint_file name)) [
    | inr other ↦ rw other
    | inl named ↦ rw named (elim (Result-cases (decode_checkpoint name c bytes)) [
      | inr (d, passed) ↦ rw (passed, consider)
      | inl (e, failed) ↦
          let (kind, corrupt) = decode_checkpoint-eq-err name c bytes e failed in
          rw (failed, consider, corrupt)
    ])
  ]

  pub latest_lem : (dir : Directory) (best : Best) → latest c dir best ≡ ok (foldl better best dir)
  unfolding latest
  latest_lem [] best = refl
  latest_lem (f ∷ dir) best = rw (consider_lem f best) (latest_lem dir (better best f))

  replacing-Covers :
      (name : List ℕ) (best : Best) (o : Option DecodedRawCheckpoint)
      → Covers (replacing name best o) (decoded_of best) × Covers (replacing name best o) o
  unfolding replaces
  replacing-Covers name best none = (Covers-refl best, tt)
  replacing-Covers name none (some d) = (tt, omega arith)
  replacing-Covers name (some x) (some d) = elim (Bool-cases (ltb (lsn_of x.1) (lsn_of d))) [
    | inl newer ↦
        let above = ltb→lt (lsn_of x.1) (lsn_of d) newer in rw newer (omega arith, omega arith)
    | inr older ↦
        let below = ltb→le (lsn_of x.1) (lsn_of d) older in rw older (omega arith, omega arith)
  ]

  foldl-Covers :
      (dir : Directory) (best : Best)
      → Covers (foldl better best dir) (decoded_of best)
        × All (λ f. Covers (foldl better best dir) (readable f)) dir
  foldl-Covers [] best = (Covers-refl best, tt)
  foldl-Covers (f ∷ dir) best =
      let (next, all) = foldl-Covers dir (better best f) in
      let (old, new) = replacing-Covers f.0 best (readable f) in
      let after = foldl better (better best f) dir in
      (
        Covers-trans after (better best f) (decoded_of best) next old,
        (Covers-trans after (better best f) (readable f) next new, all),
      )

  -- A file of the directory, and what it decodes to.
  abbrev pub FoundIn : Directory → List ℕ × DecodedRawCheckpoint → Type 0
  FoundIn dir x =
      (i : ℕ) × (bytes : List ℕ) × (get_elem? dir i ≡ some (x.0, bytes))
      × (readable (x.0, bytes) ≡ some x.1)

  foldl-FoundIn :
      (dir : Directory) (best : Best) (x : List ℕ × DecodedRawCheckpoint)
      → foldl better best dir ≡ some x
      → (best ≡ some x) ⊎ FoundIn dir x
  foldl-FoundIn [] best x h = inl h
  foldl-FoundIn (f ∷ dir) best x h = elim (foldl-FoundIn dir (better best f) x h) [
    | inr (i, bytes, here, reads) ↦ inr (suc i, bytes, here, reads)
    | inl same ↦ elim (Option-cases (readable f)) [
      | inl nothing ↦ inl (rw nothing at same)
      | inr (d, reads) ↦ elim (Bool-cases (replaces d best)) [
        | inr kept ↦ inl (rw (reads, kept) at same)
        | inl taken ↦
            let e : some (f.0, d) ≡ some x = rw (reads, taken) at same in
            let at : f.0 ≡ x.0 = ground (arith, e) in
            let holds : d ≡ x.1 = ground (arith, e) in
            inr (0, f.1, rw (← at), rw (← at, ← holds) reads)
      ]
    ]
  ]

  -- Whatever the files of a directory hold and in whatever order they come, the search for the
  -- latest checkpoint does not fail: it gives a file of the directory with what it decodes to, of
  -- which no readable file has a higher LSN, or nothing if no file is readable.
  pub latest-newest :
      (dir : Directory)
      → (best : Best) × (latest c dir none ≡ ok best)
        × All (λ f. Covers best (readable f)) dir
        × ((x : List ℕ × DecodedRawCheckpoint) → best ≡ some x → FoundIn dir x)
  latest-newest dir = (
    foldl better none dir,
    latest_lem dir none,
    (foldl-Covers dir none).1,
    λ x h. elim (foldl-FoundIn dir none x h) [ inl e ↦ cc | inr found ↦ found ],
  )

  -- A file that is not read, or is older.
  abbrev pub IsOlder : ℕ → List ℕ × List ℕ → Type 0
  IsOlder lsn f = (d : DecodedRawCheckpoint) → readable f ≡ some d → lsn_of d < lsn

  foldl-older :
      (dir : Directory) (x : List ℕ × DecodedRawCheckpoint)
      → All (IsOlder (lsn_of x.1)) dir
      → foldl better (some x) dir ≡ some x
  unfolding replaces
  foldl-older [] x h = refl
  foldl-older (f ∷ dir) x h =
      let same : better (some x) f ≡ some x = (elim (Option-cases (readable f)) [
        | inl nothing ↦ rw nothing
        | inr (d, reads) ↦
            let below = h.0 d reads in
            rw (reads, replaces, le→ltb (lsn_of x.1) (lsn_of d) (omega arith))
      ]) in
      rw same (foldl-older dir x h.1)

  All-remove {κ} :
      (P : List ℕ × List ℕ → Type κ) (name : List ℕ) (dir : Directory)
      → All P dir
      → All P (remove name dir)
  unfolding remove
  All-remove P name [] h = tt
  All-remove P name ((n, bytes) ∷ dir) h = elim (Bool-cases (bytes_same n name)) [
    | inl here ↦ rw here (All-remove P name dir h.1)
    | inr other ↦ rw other (h.0, All-remove P name dir h.1)
  ]

  -- A checkpoint that is put beside older ones is the latest.
  pub latest_put :
      (name bytes : List ℕ) (d : DecodedRawCheckpoint) (dir : Directory)
      → is_raw_checkpoint_file name ≡ true
      → decode_checkpoint name c bytes ≡ ok d
      → All (IsOlder (lsn_of d)) dir
      → latest c ((name, bytes) ∷ remove name dir) none ≡ ok (some (name, d))
  unfolding replaces
  latest_put name bytes d dir named reads older =
      let rest = remove name dir in
      let first : better none (name, bytes) ≡ some (name, d) = rw (named, reads) in
      let still = All-remove (IsOlder (lsn_of d)) name dir older in
      latest_lem ((name, bytes) ∷ rest) none
      ∙ ap ok (ap (λ b. foldl better b rest) first ∙ foldl-older rest (name, d) still)
