-- ===== src/Cache/Flight.antt =====
-- The single-flight download of `src/cache/mod.rs`: `ensure_chunk_cached`, run by any number of
-- tasks for one chunk, interleaved in any order. A task moves between two of its accesses to what
-- the tasks share; a task that is dropped at an `await` stops there.
-- The download itself, `download_and_cache_chunk`, is in Download.
pub mod Download
pub mod Kept
pub mod Safety
pub mod Stuck
use s3xc.Prelude.{
  ℕ, ◌+◌, ◌≡◌, Bool, true, false, Option, none, some, Text, codes, ◌++◌, ◌==◌, if◌then◌else◌,
}
use s3xc.Io.{Error, error, panic, diverges, Result, ok, err}

pub data DownloadStatus : Type 0 where
  pending complete : DownloadStatus
  failed : Text → DownloadStatus

-- A family with one new value.
abbrev pub update {ℓ} : {A : Type ℓ} → (ℕ → A) → ℕ → A → ℕ → A
update f i a j = if j == i then a else f j

-- What the tasks share: `entry` is the receiver that `active_downloads` has under the key of the
-- chunk, by its channel; `status` is what was last sent on a channel, and `alive` whether its sender
-- lives; `next` is a channel that is not made yet. `stored` says that the chunk was written and
-- recorded as complete.
pub record Board : Type 0 where
  pub entry : Option ℕ
  pub status : ℕ → DownloadStatus
  pub alive : ℕ → Bool
  pub next : ℕ
  pub stored : Bool

-- Where a task is: before the look at the database, at the head of the loop, in front of the
-- registration, in the download, with its result before `send` and before `remove`, at `changed`, at
-- its end, or dropped.
pub data Phase : Type 0 where
  starting looking registering dropped : Phase
  downloading waiting : ℕ → Phase
  announcing removing : ℕ → Result (Unit {0}) → Phase
  finished : Result (Unit {0}) → Phase

-- `e.to_string()`, which is sent; a download that panics or never ends sends nothing.
abbrev pub status_of : Result (Unit {0}) → DownloadStatus → DownloadStatus
status_of (ok u) before = complete
status_of (err (error t)) before = failed t
status_of (err panic) before = before
status_of (err diverges) before = before

-- One move of a task.
pub data Move (b : Board) : Phase → Board → Phase → Type 0 where
  cached : b.stored ≡ true → Move b starting b (finished (ok tt))
  missed : Move b starting b looking
  subscribe : (ch : ℕ) → b.entry ≡ some ch → Move b looking b (waiting ch)
  absent : b.entry ≡ none → Move b looking b registering
  occupied : (ch : ℕ) → b.entry ≡ some ch → Move b registering b looking
  register :
      b.entry ≡ none
      → Move b registering
          (record b {
            entry = some b.next;
            status = update b.status b.next pending;
            alive = update b.alive b.next true;
            next = b.next + 1;
          })
          (downloading b.next)
  fetch : (ch : ℕ) → Move b (downloading ch) (record b { stored = true }) (announcing ch (ok tt))
  break_off : (ch : ℕ) (t : Text) → Move b (downloading ch) b (announcing ch (err (error t)))
  send :
      (ch : ℕ) (r : Result (Unit {0}))
      → Move b
          (announcing ch r)
          (record b { status = update b.status ch (status_of r (b.status ch)) })
          (removing ch r)
  remove :
      (ch : ℕ) (r : Result (Unit {0}))
      → Move b
          (removing ch r)
          (record b { entry = none; alive = update b.alive ch false })
          (finished r)
  hear_complete : (ch : ℕ) → b.status ch ≡ complete → Move b (waiting ch) b (finished (ok tt))
  hear_failed :
      (ch : ℕ) (t : Text)
      → b.status ch ≡ failed t
      → Move b
          (waiting ch)
          b
          (finished (err (error (codes "Single flight chunk download failed: " ++ t))))
  hear_closed :
      (ch : ℕ) → b.status ch ≡ pending → b.alive ch ≡ false → Move b (waiting ch) b looking
  abandon :
      (ch : ℕ) → Move b (downloading ch) (record b { alive = update b.alive ch false }) dropped
  leave : (ch : ℕ) → Move b (waiting ch) b dropped

pub record System : Type 0 where
  pub board : Board
  pub phase : ℕ → Phase

pub data Step (s : System) : System → Type 0 where
  pick :
      (i : ℕ) {b : Board} {p : Phase}
      → Move s.board (s.phase i) b p
      → Step s (record { board = b; phase = update s.phase i p })

-- No task has begun, and nobody downloads; the chunk may be stored.
abbrev pub init : Bool → System
init stored = record {
  board = record {
    entry = none;
    status = λ ch. pending;
    alive = λ ch. false;
    next = 0;
    stored = stored;
  };
  phase = λ i. starting;
}

pub data Steps (s : System) : System → Type 0 where
  here : Steps s s
  later : {t u : System} → Steps s t → Step t u → Steps s u
