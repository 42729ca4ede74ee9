-- ===== src/Cache/Flight/Stuck.antt =====
-- What a download leaves that is dropped: its receiver stays registered, and nobody gets past it.
use s3xc.Prelude.{
  ℕ, ◌≡◌, refl, inl, inr, Bool, true, false, Option, none, some, Text, ◌==◌, ==_iff, Bool-cases,
  subst,
}
use s3xc.Cache.Flight.Kept.{holder}
use s3xc.Cache.Flight.{
  DownloadStatus, pending, complete, failed, Board, Phase, starting, looking, registering, dropped,
  waiting, Move, cached, missed, subscribe, absent, occupied, register, hear_complete, hear_failed,
  hear_closed, leave, fetch, break_off, send, remove, abandon, System, Step, pick, Steps, here,
  later,
}

-- The registered channel has no sender and nothing was sent on it, and the chunk is not stored.
pub record Closed (ch : ℕ) (b : Board) : Type 0 where
  pub entry_lem : b.entry ≡ some ch
  pub status_lem : b.status ch ≡ pending
  pub stored_lem : b.stored ≡ false

-- A task that has not returned, and hears of no other channel.
pub data Waits (ch : ℕ) : Phase → Type 0 where
  at_start : Waits ch starting
  at_loop : Waits ch looking
  at_entry : Waits ch registering
  at_channel : Waits ch (waiting ch)
  gone : Waits ch dropped

contra : {A : Type 0} {b : Bool} → b ≡ true → b ≡ false → A
contra e f = absurd cc

no_entry : {A : Type 0} {o : Option ℕ} {ch : ℕ} → o ≡ some ch → o ≡ none → A
no_entry e f = absurd cc

one_entry : {o : Option ℕ} (ch d : ℕ) → o ≡ some ch → o ≡ some d → ch ≡ d
one_entry ch d e f = cc

not_complete : {A : Type 0} {x : DownloadStatus} → x ≡ pending → x ≡ complete → A
not_complete e f = absurd cc

not_failed : {A : Type 0} {x : DownloadStatus} {t : Text} → x ≡ pending → x ≡ failed t → A
not_failed e f = absurd cc

move-Closed :
    (ch : ℕ) (b b' : Board) (p p' : Phase)
    → Move b p b' p'
    → Closed ch b
    → holder p ≡ none
    → Closed ch b' × (holder p' ≡ none)
move-Closed ch b _ _ _ (cached e) c h = (c, refl)
move-Closed ch b _ _ _ missed c h = (c, refl)
move-Closed ch b _ _ _ (subscribe d e) c h = (c, refl)
move-Closed ch b _ _ _ (absent e) c h = (c, refl)
move-Closed ch b _ _ _ (occupied d e) c h = (c, refl)
move-Closed ch b _ _ _ (register e) c h = no_entry c.entry_lem e
move-Closed ch b _ _ _ (fetch d) c h = cc
move-Closed ch b _ _ _ (break_off d t) c h = cc
move-Closed ch b _ _ _ (send d r) c h = cc
move-Closed ch b _ _ _ (remove d r) c h = cc
move-Closed ch b _ _ _ (hear_complete d e) c h = (c, refl)
move-Closed ch b _ _ _ (hear_failed d t e) c h = (c, refl)
move-Closed ch b _ _ _ (hear_closed d e f) c h = (c, refl)
move-Closed ch b _ _ _ (abandon d) c h = cc
move-Closed ch b _ _ _ (leave d) c h = (c, refl)

move-Waits :
    (ch : ℕ) (b b' : Board) (p p' : Phase) → Move b p b' p' → Closed ch b → Waits ch p → Waits ch p'
move-Waits ch b _ _ _ (cached e) c w = contra e c.stored_lem
move-Waits ch b _ _ _ missed c w = at_loop
move-Waits ch b _ _ _ (subscribe d e) c w =
    subst (λ x. Waits ch (waiting x)) (one_entry ch d c.entry_lem e) at_channel
move-Waits ch b _ _ _ (absent e) c w = at_entry
move-Waits ch b _ _ _ (occupied d e) c w = at_loop
move-Waits ch b _ _ _ (register e) c w = no_entry c.entry_lem e
move-Waits ch b _ _ _ (hear_complete _ e) c at_channel = not_complete c.status_lem e
move-Waits ch b _ _ _ (hear_failed _ t e) c at_channel = not_failed c.status_lem e
move-Waits ch b _ _ _ (hear_closed d e f) c w = at_loop
move-Waits ch b _ _ _ (leave d) c w = gone
move-Waits ch b _ _ _ (fetch d) c w = elim w [ ]
move-Waits ch b _ _ _ (break_off d t) c w = elim w [ ]
move-Waits ch b _ _ _ (send d r) c w = elim w [ ]
move-Waits ch b _ _ _ (remove d r) c w = elim w [ ]
move-Waits ch b _ _ _ (abandon d) c w = elim w [ ]

-- The channel is closed, and nobody downloads.
abbrev pub Abandoned : ℕ → System → Type 0
Abandoned ch s = Closed ch s.board × ((i : ℕ) → holder (s.phase i) ≡ none)

Step-Abandoned : (ch : ℕ) (s t : System) → Step s t → Abandoned ch s → Abandoned ch t
Step-Abandoned ch s _ (pick i {b} {p} m) (c, quiet) =
    let (c', quiet') = move-Closed ch s.board b (s.phase i) p m c (quiet i) in
    (
      c',
      λ j. elim (Bool-cases (j == i)) [
        | inl same ↦ rw same quiet'
        | inr other ↦ rw other (quiet j)
      ],
    )

Step-Waits :
    (ch : ℕ) (s t : System)
    → Step s t
    → Closed ch s.board
    → (j : ℕ) → Waits ch (s.phase j)
    → Waits ch (t.phase j)
Step-Waits ch s _ (pick i {b} {p} m) c j w = elim (Bool-cases (j == i)) [
  | inl same ↦ rw same (
      move-Waits ch s.board b (s.phase i) p m c
        (subst (λ k. Waits ch (s.phase k)) ((==_iff j i).0 same) w))
  | inr other ↦ rw other w
]

-- After a download was dropped whose receiver is still registered, of a chunk that is not stored:
-- whatever the tasks do, none downloads the chunk again, the receiver stays registered, the chunk is
-- not stored, and a task that has not returned, and waits for no earlier channel, never returns.
pub Steps-Stuck :
    (ch : ℕ) (s t : System)
    → Abandoned ch s
    → Steps s t
    → Abandoned ch t × ((j : ℕ) → Waits ch (s.phase j) → Waits ch (t.phase j))
Steps-Stuck ch s _ a here = (a, λ j w. w)
Steps-Stuck ch s _ a (later {t} {u} reached step) =
    let (b, kept) = Steps-Stuck ch s t a reached in
    (Step-Abandoned ch t u step b, λ j w. Step-Waits ch t u step b.0 j (kept j w))
