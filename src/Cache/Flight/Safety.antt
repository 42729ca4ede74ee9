-- ===== src/Cache/Flight/Safety.antt =====
-- One download at a time, and no success without the chunk.
use s3xc.Prelude.{
  ℕ, ◌+◌, ◌≡◌, ◌≢◌, refl, sym, ap, ◌∙◌, inl, inr, Bool, true, false, some, arith, ◌==◌, Bool-cases,
  ==_iff,
}
use s3xc.Io.{ok}
use s3xc.Cache.Flight.{update, Phase, finished, System, Step, pick, init, Steps, here, later}
use s3xc.Cache.Flight.Kept.{holder, succeeds, Fits, Apart, Told, Kept, move-Kept}

-- What holds of all tasks at all times.
record Sound (s : System) : Type 0 where
  fits : (i : ℕ) → Fits s.board (s.phase i)
  told : Told s.board
  apart : (i j : ℕ) → i ≢ j → Apart (s.phase i) (s.phase j)

Apart-sym : (p q : Phase) → Apart p q → Apart q p
Apart-sym p q (inl e) = inr e
Apart-sym p q (inr e) = inl e

differs : (i j : ℕ) → (j == i) ≡ false → i ≢ j
differs i j h e = ground arith

not_same : (k i : ℕ) → k ≢ i → (k == i) ≡ false
not_same k i h = ground arith

Step-Sound : (s t : System) → Step s t → Sound s → Sound t
Step-Sound s _ (pick i {b} {p} m) sound = record { fits = fits; told = next.told; apart = apart }
  where
    moved : (j : ℕ) → i ≢ j → Kept b p (s.phase j)
    moved j other =
        move-Kept s.board b (s.phase i) p (s.phase j) m (sound.fits i) sound.told (sound.fits j)
          (sound.apart i j other)

    next : Kept b p (s.phase (i + 1))
    next = moved (i + 1) (λ e. omega arith)

    fits : (j : ℕ) → Fits b (update s.phase i p j)
    fits j = elim (Bool-cases (j == i)) [
      | inl same ↦ rw same next.self
      | inr other ↦ rw other ((moved j (differs i j other)).other)
    ]

    apart : (j k : ℕ) → j ≢ k → Apart (update s.phase i p j) (update s.phase i p k)
    apart j k distinct = elim (Bool-cases (j == i)) [
      | inl same ↦
          rw (same, not_same k i (λ e. distinct ((==_iff j i).0 same ∙ sym e)))
            ((moved k (λ e. distinct ((==_iff j i).0 same ∙ e))).apart)
      | inr other ↦ elim (Bool-cases (k == i)) [
        | inl same ↦ rw (other, same) (Apart-sym p (s.phase j) (moved j (differs i j other)).apart)
        | inr other' ↦ rw (other, other') (sound.apart j k distinct)
      ]
    ]

init-Sound : (stored : Bool) → Sound (init stored)
init-Sound stored = record {
  fits = λ i. record { held = λ ch h. cc; kept = λ h. cc };
  told = λ ch h. cc;
  apart = λ i j h. inl refl;
}

Steps-Sound : (stored : Bool) (t : System) → Steps (init stored) t → Sound t
Steps-Sound stored _ here = init-Sound stored
Steps-Sound stored _ (later {t} {u} reached step) =
    Step-Sound t u step (Steps-Sound stored t reached)

-- However the tasks are interleaved, and whichever of them are dropped, no two tasks download the
-- chunk at the same time; the one that does is registered; and a task returns success only when
-- the chunk is stored.
pub Steps-Safe :
    (stored : Bool) (t : System)
    → Steps (init stored) t
    → ((i j : ℕ) → i ≢ j → Apart (t.phase i) (t.phase j))
      × ((i ch : ℕ) → holder (t.phase i) ≡ some ch → t.board.entry ≡ some ch)
      × ((i : ℕ) → t.phase i ≡ finished (ok tt) → t.board.stored ≡ true)
Steps-Safe stored t reached =
    let s = Steps-Sound stored t reached in
    (s.apart, λ i. (s.fits i).held, λ i e. (s.fits i).kept (ap succeeds e))
