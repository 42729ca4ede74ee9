-- ===== src/Tests/Flights.antt =====
-- Two tasks that want one chunk, the first of which is dropped in its download.
use s3xc.Prelude.{ℕ, ◌≡◌, ◌≢◌, refl, false, true, some, inl, inr, ◌==◌, Bool-cases}
use s3xc.Io.{ok}
use s3xc.Cache.Flight.{
  pending, update, Board, Phase, looking, registering, dropped, downloading, waiting, finished,
  missed, subscribe, absent, register, hear_closed, System, Steps, here, later, pick, init,
}
use s3xc.Cache.Flight.Kept.{holder, Apart}
use s3xc.Cache.Flight.Safety.{Steps-Safe}
use s3xc.Cache.Flight.Stuck.{Abandoned, Waits, Steps-Stuck}

abbrev moved : System → ℕ → Board → Phase → System
moved s i b p = record { board = b; phase = update s.phase i p }

-- Task 0 registers, task 1 waits, task 0 is dropped, and task 1 looks again.
abbrev registered : Board
registered = record {
  entry = some 0;
  status = update (λ ch. pending) 0 pending;
  alive = update (λ ch. false) 0 true;
  next = 1;
  stored = false;
}

abbrev closed : Board
closed = record registered { alive = update registered.alive 0 false }

abbrev waits : System
waits =
    moved
      (moved
        (moved
          (moved (moved (init false) 0 (init false).board looking) 0 (init false).board registering)
          0 registered (downloading 0))
        1 registered looking)
      1 registered (waiting 0)

abbrev left : System
left = moved waits 0 closed dropped

abbrev again : System
again = moved left 1 closed looking

run : Steps (init false) waits
run =
    later
      (later
        (later (later (later here (pick 0 missed)) (pick 0 (absent refl))) (pick 0 (register refl)))
        (pick 1 missed))
      (pick 1 (subscribe 0 refl))

Steps-Safe_example :
    ((i j : ℕ) → i ≢ j → Apart (waits.phase i) (waits.phase j))
    × ((i ch : ℕ) → holder (waits.phase i) ≡ some ch → waits.board.entry ≡ some ch)
    × ((i : ℕ) → waits.phase i ≡ finished (ok tt) → waits.board.stored ≡ true)
Steps-Safe_example = Steps-Safe false waits run

left-Abandoned : Abandoned 0 left
left-Abandoned = (
  record { entry_lem = refl; status_lem = refl; stored_lem = refl },
  λ i. elim (Bool-cases (i == 0)) [
    | inl first ↦ rw first refl
    | inr other ↦ elim (Bool-cases (i == 1)) [
      | inl second ↦ rw (other, second) refl
      | inr none_of_them ↦ rw (other, none_of_them) refl
    ]
  ],
)

Steps-Stuck_example :
    Abandoned 0 again × ((j : ℕ) → Waits 0 (left.phase j) → Waits 0 (again.phase j))
Steps-Stuck_example =
    Steps-Stuck 0 left again left-Abandoned (later here (pick 1 (hear_closed 0 refl refl)))
