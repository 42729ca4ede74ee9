-- ===== src/Cache/Flight/Kept.antt =====
-- What one move of the single-flight download in `src/cache/mod.rs` keeps.
use s3xc.Prelude.{
  ℕ, ◌≡◌, ◌⊎◌, refl, inl, inr, Bool, true, false, Option, none, some, arith, Option-cases,
}
use s3xc.Io.{Result, ok, err, error, panic, diverges}
use s3xc.Cache.Flight.{
  DownloadStatus, failed, update, complete, Board, Phase, downloading, announcing, removing,
  finished, Move, cached, missed, subscribe, absent, occupied, register, fetch, break_off, send,
  remove, hear_complete, hear_failed, hear_closed, abandon, leave,
}

-- The channel of the task that downloads.
abbrev pub holder : Phase → Option ℕ
holder (downloading ch) = some ch
holder (announcing ch r) = some ch
holder (removing ch r) = some ch
holder _ = none

-- A task that has succeeded, or is about to.
abbrev pub succeeds : Phase → Bool
succeeds (announcing ch (ok u)) = true
succeeds (removing ch (ok u)) = true
succeeds (finished (ok u)) = true
succeeds _ = false

-- A task fits the board: what downloads is registered, and what succeeds has the chunk stored.
pub record Fits (b : Board) (p : Phase) : Type 0 where
  pub held : (ch : ℕ) → holder p ≡ some ch → b.entry ≡ some ch
  pub kept : succeeds p ≡ true → b.stored ≡ true

-- Of two tasks one does not download.
abbrev pub Apart : Phase → Phase → Type 0
Apart p q = (holder p ≡ none) ⊎ (holder q ≡ none)

-- What was announced as complete is stored.
abbrev pub Told : Board → Type 0
Told b = (ch : ℕ) → b.status ch ≡ complete → b.stored ≡ true

-- A move keeps what is said of the task, of the board, and of any other task.
pub record Kept (b' : Board) (p' q : Phase) : Type 0 where
  pub self : Fits b' p'
  pub told : Told b'
  pub other : Fits b' q
  pub apart : Apart p' q

taken : (b : Board) (q : Phase) → b.entry ≡ none → Fits b q → (ch : ℕ) → holder q ≡ some ch → ⊥
taken b q e g ch h = both (g.held ch h)
  where
    both : b.entry ≡ some ch → ⊥
    both k = cc

free : (b : Board) (q : Phase) → b.entry ≡ none → Fits b q → holder q ≡ none
free b q e g = elim (Option-cases (holder q)) [
  | inl none_held ↦ none_held
  | inr (ch, h) ↦ absurd (taken b q e g ch h)
]

removing_lem :
    (ch : ℕ) (r : Result (Unit {0}))
    → succeeds (finished r) ≡ true
    → succeeds (removing ch r) ≡ true
removing_lem ch (ok u) h = refl
removing_lem ch (err e) h = cc

alone :
    (ch : ℕ) (r : Result (Unit {0})) (q : Phase) (c : ℕ)
    → Apart (removing ch r) q
    → holder q ≡ some c
    → ⊥
alone ch r q c (inl e) h = cc
alone ch r q c (inr e) h = cc

-- A task that holds no channel goes on beside an unchanged board.
idle :
    (b : Board) (p q : Phase)
    → holder p ≡ none
    → (succeeds p ≡ true → b.stored ≡ true)
    → Told b
    → Fits b q
    → Kept b p q
idle b p q e k t g = record {
  self = record { held = λ ch h. cc; kept = k };
  told = t;
  other = g;
  apart = inl e;
}

-- An announcement, true if it is of completion, beside tasks that it leaves as they are.
announced :
    (b : Board) (ch : ℕ) (d : DownloadStatus) (p q : Phase)
    → (d ≡ complete → b.stored ≡ true)
    → Fits b p
    → Told b
    → Fits b q
    → Apart p q
    → Kept (record b { status = update b.status ch d }) p q
announced b ch d p q k f t g a = record {
  self = record { held = f.held; kept = f.kept };
  told = λ c h. ground (arith, t c, h, k);
  other = record { held = g.held; kept = g.kept };
  apart = a;
}

pub move-Kept :
    (b b' : Board) (p p' q : Phase)
    → Move b p b' p'
    → Fits b p
    → Told b
    → Fits b q
    → Apart p q
    → Kept b' p' q
move-Kept b _ _ _ q (cached e) f t g a = idle b _ q refl (λ h. e) t g
move-Kept b _ _ _ q (missed) f t g a = idle b _ q refl (λ h. cc) t g
move-Kept b _ _ _ q (subscribe ch e) f t g a = idle b _ q refl (λ h. cc) t g
move-Kept b _ _ _ q (absent e) f t g a = idle b _ q refl (λ h. cc) t g
move-Kept b _ _ _ q (occupied ch e) f t g a = idle b _ q refl (λ h. cc) t g
move-Kept b _ _ _ q (register e) f t g a = record {
  self = record { held = λ ch h. h; kept = λ h. cc };
  told = λ ch h. ground (arith, t ch, h);
  other = record { held = λ ch h. absurd (taken b q e g ch h); kept = g.kept };
  apart = inr (free b q e g);
}
move-Kept b _ _ _ q (fetch ch) f t g a = record {
  self = record { held = λ c h. f.held c h; kept = λ h. refl };
  told = λ c h. refl;
  other = record { held = g.held; kept = λ h. refl };
  apart = a;
}
move-Kept b _ _ _ q (break_off ch x) f t g a = record {
  self = record { held = λ c h. f.held c h; kept = λ h. cc };
  told = t;
  other = g;
  apart = a;
}
move-Kept b _ _ _ q (send ch (ok u)) f t g a =
    announced b ch complete (removing ch (ok u)) q (λ e. f.kept refl)
      (record { held = f.held; kept = f.kept }) t g a
move-Kept b _ _ _ q (send ch (err (error x))) f t g a =
    announced b ch (failed x) (removing ch (err (error x))) q (λ e. absurd cc)
      (record { held = f.held; kept = λ h. cc }) t g a
move-Kept b _ _ _ q (send ch (err panic)) f t g a =
    announced b ch (b.status ch) (removing ch (err panic)) q (t ch)
      (record { held = f.held; kept = λ h. cc }) t g a
move-Kept b _ _ _ q (send ch (err diverges)) f t g a =
    announced b ch (b.status ch) (removing ch (err diverges)) q (t ch)
      (record { held = f.held; kept = λ h. cc }) t g a
move-Kept b _ _ _ q (remove ch r) f t g a = record {
  self = record { held = λ c h. absurd cc; kept = λ h. f.kept (removing_lem ch r h) };
  told = t;
  other = record { held = λ c h. absurd (alone ch r q c a h); kept = g.kept };
  apart = inl refl;
}
move-Kept b _ _ _ q (hear_complete ch e) f t g a = idle b _ q refl (λ h. t ch e) t g
move-Kept b _ _ _ q (hear_failed ch x e) f t g a = idle b _ q refl (λ h. cc) t g
move-Kept b _ _ _ q (hear_closed ch e c) f t g a = idle b _ q refl (λ h. cc) t g
move-Kept b _ _ _ q (abandon ch) f t g a = record {
  self = record { held = λ ch' h. cc; kept = λ h. cc };
  told = t;
  other = record { held = g.held; kept = g.kept };
  apart = inl refl;
}
move-Kept b _ _ _ q (leave ch) f t g a = idle b _ q refl (λ h. cc) t g
